-- ===== src/Migrations/Backfill.antt =====
-- migrations/0002_delivery_control.sql: the end times that it gives to the rows of earlier versions.
use mathlib.Core.List.{Memᴰ}
use pg_outbox.Base.{ℕ, ◌+◌, ◌≤◌, ◌≡◌, refl, Bool, true, false, not, ◌&&◌, ◌||◌, none, some, arith}
use pg_outbox.Config.{Settings}
use pg_outbox.Message.{is_status, published, dead, discarded, is_nil}
use pg_outbox.Table.{Row, Table, update}
use pg_outbox.Table.Rows.{UniqueIds, update-UniqueIds}
use pg_outbox.Store.{Db}
use pg_outbox.Store.Lease.Fencing.{mem_update-hit}
use pg_outbox.Store.Upkeep.{expired, cleanup_rows}
use pg_outbox.Store.Upkeep.Terminal.{cleanup_keeps}

-- The WHERE clause: `status IN ('published', 'dead', 'discarded') AND finished_at IS NULL`.
abbrev pub lacks_end : Row → Bool
lacks_end r =
    (is_status r.status published || is_status r.status dead || is_status r.status discarded)
    && is_nil r.finished_at

-- `COALESCE(published_at, now())`
abbrev pub end_time : ℕ → Row → ℕ
end_time now r = elim r.published_at [ none ↦ now | some at ↦ at ]

abbrev pub give_end : Db → Row → Row
give_end db r = record r { finished_at = some (end_time db.now r) }

abbrev pub backfill_rows : Db → Table → Table
backfill_rows db t = record t { rows = update lacks_end (give_end db) t.rows }

not-expired :
    (db later : Db) (set : Settings) (r : Row)
    → is_status r.status dead ≡ true
    → r.published_at ≡ none
    → later.now ≤ db.now + later.interval set.dead_retention
    → (expired later set (give_end db r) && not (later.locked r.id)) ≡ false
unfolding expired
not-expired db later set r d p early = rw p (ground (arith, d, early))

-- The retention of a dead row from before the migration that has no `finished_at` and no `published_at`
-- starts at the migration: a cleanup within the retention window after it leaves the row, whenever the
-- row was created, and the row ends at the time of the migration. The ids of the table are unique.
pub backfill_keeps_dead :
    (db later : Db) (set : Settings) (t : Table) (r : Row)
    → UniqueIds t.rows
    → Memᴰ r t.rows
    → is_status r.status dead ≡ true
    → r.finished_at ≡ none
    → r.published_at ≡ none
    → later.now ≤ db.now + later.interval set.dead_retention
    → Memᴰ (give_end db r) (cleanup_rows later set (backfill_rows db t)).rows
      × ((give_end db r).finished_at ≡ some db.now)
backfill_keeps_dead db later set t r u m d f p early = (
  cleanup_keeps later set (backfill_rows db t)
      (update-UniqueIds lacks_end (give_end db) t.rows (λ x. refl) u)
      (mem_update-hit lacks_end (give_end db) t.rows m (ground (arith, d, f)))
      (not-expired db later set r d p early),
  rw p refl,
)
