-- ===== src/Relay/Verdict/Settled.antt =====
-- What the end of a pass does to the rows of the table.
use mathlib.Core.List.{Memᴰ}
use pg_outbox.Base.{
  All, ◌≡◌, ap, ◌∙◌, subst, ◌⊎◌, inl, inr, ℕ, true, Option, none, some, List, [], ◌∷◌,
}
use Prim.Native.String.{String}
use pg_outbox.Table.Rows.{All-mem, mem-map}
use pg_outbox.Config.{Settings}
use pg_outbox.Message.{Message, is_status, processing}
use pg_outbox.Port.{Error}
use pg_outbox.Table.{Row, Table}
use pg_outbox.Store.{Db, null_str}
use pg_outbox.Store.Lease.{Completion, claim_keys, finish_rows, finish}
use pg_outbox.Store.Lease.Fencing.{finish_rows-mem}
use pg_outbox.Relay.{Env, World}
use pg_outbox.Relay.Settle.{reason_of}
use pg_outbox.Relay.Batch.{conclude}
use pg_outbox.Relay.Verdict.{outcome_of, verdict, IsRight}
use pg_outbox.Relay.Keeps.{TableOrder, run-keeps, Keeps}
use pg_outbox.Relay.Keeps.Settling.{RightKeeps}
use pg_outbox.Relay.Keeps.Concluding.{Keeps-conclude}

-- `r` is what settling the message `m` by its outcome makes of its row `o`, which was processing under
-- the message's token.
pub record IsSettledAs (set : Settings) (outcome : Option Error) (m : Message) (o r : Row)
    : Type 0 where
  pub same_message : o.id ≡ m.id
  pub same_attempt : o.lease_token ≡ some m.lease_token
  pub was_leased : is_status o.status processing ≡ true
  pub keeps_id : r.id ≡ o.id
  pub keeps_attempts : r.attempts ≡ o.attempts
  pub has_verdict : r.status ≡ verdict set outcome m
  pub has_reason : r.last_error ≡ null_str (reason_of outcome)
  pub is_free : r.lease_token ≡ none

abbrev pub IsSettledIn : Settings → List Message → (Message → Option Error) → Row → Row → Type 0
IsSettledIn set batch outcome o r = (m : Message) × Memᴰ m batch × IsSettledAs set (outcome m) m o r

-- Each row was there before, or comes from such a row.
pub record ComesFrom (P : Row → Row → Type 0) (t u : Table) : Type 0 where
  pub source : (r : Row) → Memᴰ r u.rows → Memᴰ r t.rows ⊎ ((o : Row) × Memᴰ o t.rows × P o r)

-- A row is settled once: afterwards it has no token.
pub ComesFrom-trans :
    (set : Settings) (batch : List Message) (outcome : Message → Option Error) {t u v : Table}
    → ComesFrom (IsSettledIn set batch outcome) t u
    → ComesFrom (IsSettledIn set batch outcome) u v
    → ComesFrom (IsSettledIn set batch outcome) t v
ComesFrom-trans set batch outcome p q = record {
  source = λ r m. elim (q.source r m) [
    | inl n ↦ p.source r n
    | inr (o, n, (a, inside, settled)) ↦ elim (p.source o n) [
      | inl k ↦ inr (o, k, (a, inside, settled))
      | inr (_, _, (_, _, before)) ↦ cc (before.is_free, settled.same_attempt)
    ]
  ];
}

abbrev pub verdicts : Settings → List Message → (Message → Option Error) → TableOrder
verdicts set batch outcome = record {
  Rel = ComesFrom (IsSettledIn set batch outcome);
  reflexive = λ t. record { source = λ r m. inl m };
  transitive = λ p q. ComesFrom-trans set batch outcome p q;
}

pub finish_rows-settles :
    (set : Settings) (batch : List Message) (outcome : Message → Option Error) (msgs : List Message)
    (c : Completion) (db : Db) (t : Table)
    → All (λ m. Memᴰ m batch × IsRight set (outcome m) m c) msgs
    → ComesFrom (IsSettledIn set batch outcome) t (finish_rows db (claim_keys msgs) c t)
finish_rows-settles set batch outcome msgs c db t right = record {
  source = λ r m. elim (finish_rows-mem db (claim_keys msgs) c t m) [
    | inl n ↦ inl n
    | inr (o, n, ((token, held, key), busy, _, e)) ↦
        let (a, k, same) = mem-map (λ m. (m.id, m.lease_token)) msgs key in
        let (inside, (status, reason)) =
          All-mem (λ m. Memᴰ m batch × IsRight set (outcome m) m c) right k in
        inr (
          o,
          n,
          (
            a,
            inside,
            record {
              same_message = ap (λ (q : String × String). q.0) same;
              same_attempt = held ∙ ap (λ (q : String × String). some (q.1)) same;
              was_leased = busy;
              keeps_id = ap (λ (y : Row). y.id) e;
              keeps_attempts = ap (λ (y : Row). y.attempts) e;
              has_verdict = ap (λ (y : Row). y.status) e ∙ status;
              has_reason = ap (λ (y : Row). y.last_error) e ∙ ap null_str reason;
              is_free = ap (λ (y : Row). y.lease_token) e;
            },
          ),
        )
  ];
}

right_completion :
    (env : Env) (set : Settings) (batch : List Message) (outcome : Message → Option Error)
    → RightKeeps env set (verdicts set batch outcome) batch outcome
unfolding finish
right_completion env set batch outcome [] c db t right = record { source = λ r m. inl m }
right_completion env set batch outcome (x ∷ ms) c db t right =
    run-keeps (verdicts set batch outcome) db.reply t (finish_rows db (claim_keys (x ∷ ms)) c t) _
      (finish_rows-settles set batch outcome (x ∷ ms) c db t right)

-- Whatever the publisher has answered, a row of the table at the end of the pass is a row from before
-- that was left as it was, or the row of a message of the batch that was still leased to this attempt,
-- in the state that the message's own outcome leads to: published without an error; dead by a permanent
-- error or at the attempt limit; discarded by a discard; pending again by any other error; with the
-- outcome's text, and no longer leased. This holds of every run, also of one that a failing statement, a
-- lost lease or a panic cuts short; other transactions are taken to write nothing meanwhile.
pub conclude-settles :
    (env : Env) (set : Settings) (msgs : List Message) (perr lease_err : Option Error) (w : World)
    (r : Row)
    → ((n : ℕ) (t : Table) → env.between n t ≡ t)
    → Memᴰ r (conclude env set msgs perr lease_err w).1.table.rows
    → Memᴰ r w.table.rows
      ⊎ ((o : Row) × Memᴰ o w.table.rows
          × ((m : Message) × Memᴰ m msgs × IsSettledAs set (outcome_of perr m) m o r))
conclude-settles env set msgs perr lease_err w r alone m = (step.at w).source r m
  where
    step : Keeps (verdicts set msgs (outcome_of perr)) (conclude env set msgs perr lease_err)
    step =
        Keeps-conclude env set (verdicts set msgs (outcome_of perr)) msgs perr
          (record {
            others = λ n t. record {
              source = λ s k. inl (subst (λ (x : Table). Memᴰ s x.rows) (alone n t) k);
            };
          })
          (right_completion env set msgs (outcome_of perr)) lease_err
