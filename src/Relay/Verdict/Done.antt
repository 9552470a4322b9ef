-- ===== src/Relay/Verdict/Done.antt =====
-- The rows of a batch that are settled stay settled for the rest of the pass.
use mathlib.Core.List.{Memᴰ}
use Prim.Native.String.{String}
use pg_outbox.Base.{ℕ, ◌≡◌, refl, ap, subst, sym, inl, inr, false, Option, none, List, [], ◌∷◌}
use pg_outbox.Config.{Settings}
use pg_outbox.Message.{Message}
use pg_outbox.Port.{Error}
use pg_outbox.Table.{Row, Table}
use pg_outbox.Table.Rows.{UniqueIds, update-UniqueIds, mem_map, &&-intro}
use pg_outbox.Store.{Db, null_str}
use pg_outbox.Store.Lease.{Completion, claim_keys, owned, complete_row, finish_rows, finish}
use pg_outbox.Store.Lease.Fencing.{mem_update-skipped, mem_update-hit, has_key_of_mem}
use pg_outbox.Store.Lease.Renewal.{HasLease}
use pg_outbox.Relay.{Env}
use pg_outbox.Relay.Keeps.{TableOrder, OthersKeep, run-keeps}
use pg_outbox.Relay.Keeps.Settling.{RightKeeps}
use pg_outbox.Relay.Verdict.{IsRight}
use pg_outbox.Relay.Verdict.Settled.{
  IsSettledAs, IsSettledIn, ComesFrom, verdicts, finish_rows-settles,
}

-- Between two tables the message's row has been settled.
pub record DoneIn (set : Settings) (outcome : Message → Option Error) (t u : Table) (m : Message)
    : Type 0 where
  pub before : Row
  pub after : Row
  pub was_there : Memᴰ before t.rows
  pub is_there : Memᴰ after u.rows
  pub settled : IsSettledAs set (outcome m) m before after

-- What a pass does to the table: it settles rows, and leaves those alone that nobody holds.
pub record Progress (set : Settings) (batch : List Message) (outcome : Message → Option Error)
    (t u : Table) : Type 0 where
  pub from : ComesFrom (IsSettledIn set batch outcome) t u
  pub free_stays : (r : Row) → r.lease_token ≡ none → Memᴰ r t.rows → Memᴰ r u.rows
  pub unique : UniqueIds t.rows → UniqueIds u.rows

not-owned_of_free :
    (db : Db) (keys : List (String × String)) (r : Row)
    → r.lease_token ≡ none
    → owned db keys r ≡ false
unfolding owned
not-owned_of_free db keys r free = rw free refl

module _ (env : Env) (set : Settings) (batch : List Message)
    (outcome : Message → Option Error) where
  abbrev pub progress : TableOrder
  progress = record {
    Rel = Progress set batch outcome;
    reflexive = λ t. record {
      from = (verdicts set batch outcome).reflexive t;
      free_stays = λ r free m. m;
      unique = λ u. u;
    };
    transitive = λ p q. record {
      from = (verdicts set batch outcome).transitive p.from q.from;
      free_stays = λ r free m. q.free_stays r free (p.free_stays r free m);
      unique = λ u. q.unique (p.unique u);
    };
  }

  pub alone-progress : ((n : ℕ) (t : Table) → env.between n t ≡ t) → OthersKeep env progress
  alone-progress alone = record {
    others = λ n t.
        subst (λ (x : Table). Progress set batch outcome t x) (sym (alone n t))
          (progress.reflexive t);
  }

  finish_rows-Progress :
      (keys : List (String × String)) (c : Completion) (db : Db) (t : Table)
      → ComesFrom (IsSettledIn set batch outcome) t (finish_rows db keys c t)
      → Progress set batch outcome t (finish_rows db keys c t)
  unfolding complete_row
  finish_rows-Progress keys c db t from = record {
    from = from;
    free_stays = λ r free m.
        mem_update-skipped (owned db keys) (complete_row db c) t.rows m
          (not-owned_of_free db keys r free);
    unique = λ u. update-UniqueIds (owned db keys) (complete_row db c) t.rows (λ r. refl) u;
  }

  pub right_progress : RightKeeps env set progress batch outcome
  unfolding finish
  right_progress [] c db t right = progress.reflexive t
  right_progress (m ∷ ms) c db t right =
      run-keeps progress db.reply t (finish_rows db (claim_keys (m ∷ ms)) c t) _ (
        finish_rows-Progress (claim_keys (m ∷ ms)) c db t
          (finish_rows-settles set batch outcome (m ∷ ms) c db t right))

  -- Settled is settled, whatever the pass does next.
  pub Done-later :
      {t u v : Table} {m : Message}
      → DoneIn set outcome t u m
      → Progress set batch outcome u v
      → DoneIn set outcome t v m
  Done-later d p = record {
    before = d.before;
    after = d.after;
    was_there = d.was_there;
    is_there = p.free_stays d.after d.settled.is_free d.is_there;
    settled = d.settled;
  }

  -- A row that is settled now was not touched before in this pass.
  pub Done-earlier :
      {t u v : Table} {m : Message}
      → Progress set batch outcome t u
      → DoneIn set outcome u v m
      → DoneIn set outcome t v m
  Done-earlier p d = record {
    before = d.before;
    after = d.after;
    is_there = d.is_there;
    settled = d.settled;
    was_there = elim (p.from.source d.before d.was_there) [
      | inl n ↦ n
      | inr (_, _, (_, _, s)) ↦ cc (s.is_free, d.settled.same_attempt)
    ];
  }

  -- A completion settles each message that still has its lease.
  pub finish_rows-Done :
      (msgs : List Message) (c : Completion) (db : Db) (t : Table) (m : Message)
      → Memᴰ m msgs
      → IsRight set (outcome m) m c
      → HasLease db t m
      → DoneIn set outcome t (finish_rows db (claim_keys msgs) c t) m
  unfolding owned complete_row
  finish_rows-Done msgs c db t m inside right l = record {
    before = l.row;
    after = complete_row db c l.row;
    was_there = l.there;
    is_there = mem_update-hit (owned db (claim_keys msgs)) (complete_row db c) t.rows l.there (
        &&-intro
          (&&-intro
            (rw (l.same_attempt, l.same_message)
              (has_key_of_mem (claim_keys msgs) m.id m.lease_token
                (mem_map (λ (m : Message). (m.id, m.lease_token)) msgs inside)))
            l.busy)
          l.live);
    settled = record {
      same_message = l.same_message;
      same_attempt = l.same_attempt;
      was_leased = l.busy;
      keeps_id = refl;
      keeps_attempts = refl;
      has_verdict = right.0;
      has_reason = ap null_str (right.1);
      is_free = refl;
    };
  }
