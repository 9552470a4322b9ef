-- ===== src/Store/Upkeep.antt =====
-- engine/store.go: `Requeue` and `cleanup`.
pub mod Terminal
pub mod Requeue
use pg_outbox.Base.{
  ℕ, zero, suc, ◌+◌, ◌-◌, ◌*◌, ◌/◌, ◌%◌, ◌^◌, ◌≤◌, ◌<◌, ◌≡◌, refl, sym, ap, subst, ◌∙◌, ◌≢◌, ◌↔◌,
  ◌⊎◌, inl, inr, ite, Bool, true, false, not, ◌&&◌, ◌||◌, Option, none, some, List, [], ◌∷◌, ◌++◌,
  map, arith, dec_lt, ℕ_discrete, ltb, leb, if◌then◌else◌, tests, Bool-cases, Option-cases, length,
  take, select, All, length-append, ◌==◌,
}
use pg_outbox.Base.Int.{
  ℤ, pos, negsuc, pos_part, neg_part, ◌≤ℤ◌, ◌<ℤ◌, ltb_ℤ, leb_ℤ, to_bits, of_bits, shl64, IsInt64,
}
use Prim.Native.String.{String}
use pg_outbox.Base.Text.{◌==◌ as ◌=s=◌}
use pg_outbox.Backoff.{Duration}
use pg_outbox.Config.{Settings}
use pg_outbox.Message.{Status, is_status, pending, published, dead, discarded}
use pg_outbox.Table.{Row, Table, update, sort, before, contains, ids}
use pg_outbox.Store.{Db, Result, ok, err, run}

unfoldable pub reopen : Db → Row → Row
reopen db r = record r {
  status = pending;
  attempts = 0;
  next_attempt_at = db.clock;
  last_error = none;
  finished_at = none;
  published_at = none;
  locked_by = none;
  locked_until = none;
  lease_token = none;
}

-- WHERE id=$1 AND status='dead'
abbrev pub is_dead_row : String → Row → Bool
is_dead_row id r = r.id =s= id && is_status r.status dead

abbrev pub requeue_rows : Db → String → Table → Table
requeue_rows db id t = record t { rows = update (is_dead_row id) (reopen db) t.rows }

-- `Requeue`: whether exactly one row was changed. The notification is left out.
unfoldable pub requeue : Db → String → Table → Table × Result Bool
requeue db id t =
    run db.reply t (requeue_rows db id t, ok (length (select (is_dead_row id) t.rows) == 1))

-- `$n > 0 AND at < now() - make_interval(secs => $n)`. A time before the epoch is not reached.
abbrev pub older : Db → Duration → Option ℕ → Bool
older db retention none = false
older db retention (some at) = ltb_ℤ (pos 0) retention && ltb (at + db.interval retention) db.now

unfoldable pub expired : Db → Settings → Row → Bool
expired db set r =
    (is_status r.status published && older db set.retention r.published_at)
    || (is_status r.status dead && older db set.dead_retention r.finished_at)
    || (is_status r.status discarded && older db set.discard_retention r.finished_at)

-- COALESCE(finished_at, published_at)
abbrev pub end_of : Row → Option ℕ
end_of r = elim r.finished_at [ none ↦ r.published_at | some at ↦ some at ]

-- ORDER BY COALESCE(finished_at, published_at), id; NULL comes last.
abbrev pub ends_before : Db → Row → Row → Bool
ends_before db a b = compare_ends (end_of a) (end_of b)
  where
    compare_ends : Option ℕ → Option ℕ → Bool
    compare_ends (some s) (some t) = ltb s t || (s == t && db.id_before a.id b.id)
    compare_ends (some s) none = true
    compare_ends none (some t) = false
    compare_ends none none = db.id_before a.id b.id

unfoldable pub victims : Db → Settings → List Row → List Row
victims db set rows =
    take (pos_part set.batch_size)
      (sort (ends_before db) (select (λ r. expired db set r && not (db.locked r.id)) rows))

-- The rows that the DELETE leaves.
abbrev pub cleanup_rows : Db → Settings → Table → Table
cleanup_rows db set t = record t {
  rows = select (λ r. not (contains (ids (victims db set t.rows)) r.id)) t.rows;
}

-- `cleanup`: the number of rows that were deleted.
unfoldable pub cleanup : Db → Settings → Table → Table × Result ℕ
cleanup db set t = run db.reply t (
  cleanup_rows db set t,
  ok (length (select (λ r. contains (ids (victims db set t.rows)) r.id) t.rows)),
)
