-- ===== src/Relay/Stale.antt =====
-- A completion that comes too late: nothing changes, no hook is told, and the relay learns of it.
use pg_outbox.Base.{◌+◌, ◌≡◌, refl, inl, inr, Bool, Option, some, List, [], ◌∷◌, arith, Bool-cases}
use pg_outbox.Backoff.{Duration}
use pg_outbox.Config.{Settings}
use pg_outbox.Message.{Message, Status}
use pg_outbox.Port.{Error, lease_lost}
use pg_outbox.Table.{Row, Table, update, returning}
use mathlib.Core.Path.{ap₂}
use pg_outbox.Store.{answered, Json, Db, ok, answers, fails, scan_messages}
use pg_outbox.Store.Lease.{claim_keys, owned, Completion, finish, finished, complete_row}
use pg_outbox.Relay.{Env, World, returns}
use pg_outbox.Relay.Settle.{complete, reason_of, report_all}

-- If the RETURNING list of an update is empty, the update changed nothing.
update-returning_nil {ℓ} :
    {A : Type ℓ} (p : A → Bool) (f : A → A) (rs : List A)
    → returning p f rs ≡ []
    → update p f rs ≡ rs
update-returning_nil p f [] h = refl
update-returning_nil {A} p f (r ∷ rs) h = elim (Bool-cases (p r)) [
  | inl e ↦ empty (rw e at h)
  | inr e ↦ rw (e, update-returning_nil p f rs (rw e at h))
]
  where
    empty : {x : A} {xs : List A} → x ∷ xs ≡ [] → update p f (r ∷ rs) ≡ r ∷ rs
    empty e = cc

-- The completion that `complete` asks of the store.
abbrev pub completion : Settings → Status → Option Error → Duration → Completion
completion set status cause delay = record {
  status = status;
  reason = reason_of cause;
  delay = delay;
  clear = set.clear_payload_on_complete;
}

finish_stale :
    (json : Json) (db : Db) (m : Message) (ms : List Message) (c : Completion) (t : Table)
    → db.reply ≡ answers
    → finished db (claim_keys (m ∷ ms)) c t ≡ []
    → finish json db (m ∷ ms) c t ≡ (t, ok [])
unfolding finish scan_messages
finish_stale json db m ms c t live none_left = answered db.reply t live (
    ap₂ (λ (rs : List Row) (out : List Row). (record t { rows = rs }, scan_messages json out))
      (update-returning_nil (owned db (claim_keys (m ∷ ms))) (complete_row db c) t.rows none_left)
      none_left)

-- When the statement reaches no row of a batch, because every lease of it has run out or gone to a
-- later attempt, `complete` leaves the table as other transactions have left it, calls no hook, for
-- any status, and returns ErrLeaseLost.
pub complete_stale :
    (env : Env) (set : Settings) (m : Message) (ms : List Message) (status : Status)
    (cause : Option Error) (delay : Duration) (w : World)
    → (env.db w.calls).reply ≡ answers
    → finished
        (env.db w.calls)
        (claim_keys (m ∷ ms))
        (completion set status cause delay)
        (env.between w.calls w.table)
      ≡ []
    → complete env set (m ∷ ms) status cause delay w ≡ (
      returns (some lease_lost),
      record w { table = env.between w.calls w.table; calls = w.calls + 1 },
    )
unfolding complete report_all
complete_stale env set m ms status cause delay w live none_left =
    rw
      (
        finish_stale env.json (env.db w.calls) m ms (completion set status cause delay)
            (env.between w.calls w.table) live none_left,
        complete,
      )
      (ground arith)

-- When the executor fails before the statement runs, `complete` passes the error on, and neither
-- changes the table nor calls a hook.
pub complete_failed :
    (env : Env) (set : Settings) (m : Message) (ms : List Message) (status : Status)
    (cause : Option Error) (delay : Duration) (w : World) (e : Error)
    → (env.db w.calls).reply ≡ fails e
    → complete env set (m ∷ ms) status cause delay w
      ≡ (returns (some e), record w { table = env.between w.calls w.table; calls = w.calls + 1 })
unfolding complete finish
complete_failed env set m ms status cause delay w e h = rw (h, complete)
