-- ===== src/Relay/Drain/Sending.antt =====
-- `heartbeat` and `publish` raise no effort.
use pg_outbox.Relay.Drain.Settling.{settling, OthersSettle}
use pg_outbox.Base.{List}
use pg_outbox.Relay.Keeps.Publishing
use pg_outbox.Config.{Settings}
use pg_outbox.Message.{Message}
use pg_outbox.Table.{Table}
use pg_outbox.Store.{Db}
use pg_outbox.Store.Lease.{renew_rows, renew, claim_keys}
use pg_outbox.Relay.{Env}
use pg_outbox.Relay.Batch.{publish}
use pg_outbox.Relay.Drain.Effort.{renew-Settles, Settles}
use pg_outbox.Relay.Keeps.{Keeps, run-keeps}

module _ (env : Env) (set : Settings) where
  renew-step :
      (msgs : List Message) (db : Db) (t : Table)
      → Settles set t (renew db msgs set.lease_duration t).0
  unfolding renew
  renew-step msgs db t =
      run-keeps (settling set) db.reply t (renew_rows db (claim_keys msgs) set.lease_duration t) _
        (renew-Settles db set (claim_keys msgs) set.lease_duration t)

  pub Keeps-publish :
      (msgs : List Message) → OthersSettle env set → Keeps (settling set) (publish env set msgs)
  Keeps-publish msgs q = Publishing.Keeps-publish env set (settling set) q renew-step msgs
