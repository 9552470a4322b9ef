-- ===== src/Relay/Keeps/Publishing.antt =====
-- `heartbeat` and `publish` keep to every relation that the renewals of the batch keep to.
use pg_outbox.Base.{Option, none, some, List, [], ◌∷◌, if◌then◌else◌}
use pg_outbox.Config.{Settings}
use pg_outbox.Message.{Message}
use pg_outbox.Port.{Error, wrapped}
use pg_outbox.Table.{Table}
use pg_outbox.Store.{Db, Result, ok, err, panic}
use pg_outbox.Store.Lease.{renew}
use pg_outbox.Relay.{
  Env, World, M, Exit, returns, raises, return, raise, exec, next_call, Beat, stops, cancels, ticks,
}
use pg_outbox.Relay.Batch.{recovered, recover, call_publisher, heartbeat, publish, after_renew}
use pg_outbox.Relay.Keeps.{
  TableOrder, OthersKeep, Keeps, Keeps-return, Keeps-raise, Keeps-bind, Keeps-next_call, Keeps-exec,
}

module _ (env : Env) (set : Settings) (o : TableOrder) (others_keep : OthersKeep env o)
    (renews : (msgs : List Message) (db : Db) (t : Table)
      → o.Rel t (renew db msgs set.lease_duration t).0) where
  Keeps-heartbeat :
      (msgs : List Message) (beats : List Beat) → Keeps o (heartbeat env set msgs beats)
  unfolding heartbeat
  Keeps-heartbeat msgs [] = Keeps-return none
  Keeps-heartbeat msgs (stops ∷ beats) = Keeps-return none
  Keeps-heartbeat msgs (cancels ∷ beats) = Keeps-return none
  Keeps-heartbeat msgs (ticks ∷ beats) =
      Keeps-bind (exec env (λ db t. renew db msgs set.lease_duration t))
        (after_renew env set (heartbeat env set msgs beats))
        (Keeps-exec env o (λ db t. renew db msgs set.lease_duration t) others_keep (renews msgs))
        (renewed (Keeps-heartbeat msgs beats))
    where
      renewed :
          Keeps o (heartbeat env set msgs beats)
          → (r : Result (Unit {0})) → Keeps o (after_renew env set (heartbeat env set msgs beats) r)
      renewed k (ok u) = k
      renewed k (panic v) = Keeps-raise v
      renewed k (err e) =
          Keeps-bind next_call
            (λ n.
              return
                (if env.publisher_live n then some (wrapped "outbox: renew claims" e) else none))
            Keeps-next_call (λ n. Keeps-return _)

  Keeps-recovered : (m : M (Option Error)) → Keeps o m → Keeps o (recovered m)
  Keeps-recovered m k = record { at = λ w. caught w.table (m w) (k.at w) }
    where
      caught :
          (t : Table) (x : Exit (Option Error) × World)
          → o.Rel t x.1.table
          → o.Rel t (recover x).1.table
      caught t (returns e, w) s = s
      caught t (raises v, w) s = s

  Keeps-call_publisher : (msgs : List Message) → Keeps o (call_publisher env set msgs)
  Keeps-call_publisher msgs =
      Keeps-bind next_call (λ n. answer (env.publishes n msgs)) Keeps-next_call
        (λ n. said (env.publishes n msgs))
    where
      answer : Result (Option Error) → M (Option Error)
      answer r = elim r [ ok e ↦ return e | err e ↦ return (some e) | panic v ↦ raise v ]

      said : (r : Result (Option Error)) → Keeps o (answer r)
      said (ok e) = Keeps-return e
      said (err e) = Keeps-return (some e)
      said (panic v) = Keeps-raise v

  pub Keeps-publish : (msgs : List Message) → Keeps o (publish env set msgs)
  unfolding publish
  Keeps-publish msgs = Keeps-bind next_call _ Keeps-next_call (λ n.
      Keeps-bind (recovered (heartbeat env set msgs (env.beats n))) _
        (Keeps-recovered (heartbeat env set msgs (env.beats n))
          (Keeps-heartbeat msgs (env.beats n)))
        (λ lease_err.
          Keeps-bind (call_publisher env set msgs) _ (Keeps-call_publisher msgs)
            (λ perr. Keeps-return (perr, lease_err))))
