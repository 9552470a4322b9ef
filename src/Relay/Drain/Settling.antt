-- ===== src/Relay/Drain/Settling.antt =====
-- `settle` and `settleEach` raise no effort: the effort is a relation that all completions keep to.
use pg_outbox.Base.{◌≡◌, refl, false, Option, some, List, [], ◌∷◌}
use pg_outbox.Backoff.{Duration}
use pg_outbox.Config.{Settings}
use pg_outbox.Message.{Message}
use pg_outbox.Port.{Error, Outcomes, MaybeError, permanents, discards, has}
use pg_outbox.Table.{Table}
use pg_outbox.Table.Rows.{All-of_mem}
use pg_outbox.Store.{Db}
use pg_outbox.Store.Lease.{finish_rows, Completion, claim_keys, finish}
use pg_outbox.Relay.{Env}
use pg_outbox.Relay.Settle.{settle, settle_loop, settle_own}
use pg_outbox.Relay.Keeps.{TableOrder, Keeps, OthersKeep, run-keeps}
use pg_outbox.Relay.Keeps.Settling.{RightKeeps}
use pg_outbox.Relay.Keeps.Settling
use pg_outbox.Relay.Keeps.Each
use pg_outbox.Relay.Drain.Effort.{Settles, Settles-refl, Settles-trans, finish-Settles}

abbrev pub settling : Settings → TableOrder
settling set = record {
  Rel = Settles set;
  reflexive = λ t. Settles-refl;
  transitive = λ p q. Settles-trans p q;
}

-- Other transactions raise no effort either: they claim, renew, complete and delete, but enqueue
-- and requeue nothing.
abbrev pub OthersSettle : Env → Settings → Type 0
OthersSettle env set = OthersKeep env (settling set)

module _ (env : Env) (set : Settings) where
  finish-step :
      (msgs : List Message) (c : Completion) (db : Db) (t : Table)
      → Settles set t (finish env.json db msgs c t).0
  unfolding finish
  finish-step [] c db t = Settles-refl
  finish-step (m ∷ ms) c db t =
      run-keeps (settling set) db.reply t (finish_rows db (claim_keys (m ∷ ms)) c t) _
        (finish-Settles db set (claim_keys (m ∷ ms)) c t)

  pub all_settle :
      (batch : List Message) (outcome : Message → Option Error)
      → RightKeeps env set (settling set) batch outcome
  all_settle batch outcome ms c db t right = finish-step ms c db t

  pub Keeps-settle_loop :
      (perr : Error) (least : Option Duration) (ms : List Message)
      → has permanents perr ≡ false
      → has discards perr ≡ false
      → OthersSettle env set
      → Keeps (settling set) (settle_loop env set perr least ms)
  Keeps-settle_loop perr least ms np nd q =
      Settling.Keeps-settle_loop env set (settling set) ms (λ _. some perr) q (all_settle ms _) perr
        least ms np nd (All-of_mem ms (λ m n. (n, refl)))

  pub Keeps-settle :
      (msgs : List Message) (perr : Option Error)
      → OthersSettle env set
      → Keeps (settling set) (settle env set msgs perr)
  Keeps-settle msgs perr q =
      Settling.Keeps-settle env set (settling set) msgs (λ _. perr) q (all_settle msgs _) msgs perr
        (All-of_mem msgs (λ m n. (n, refl)))

  pub Keeps-settle_own :
      (os : Outcomes) (others : MaybeError) (ms : List Message)
      → OthersSettle env set
      → Keeps (settling set) (settle_own env set os others ms)
  Keeps-settle_own os others ms q =
      Each.Keeps-settle_own env set (settling set) ms os others q (all_settle ms _) ms
        (All-of_mem ms (λ m n. n))
