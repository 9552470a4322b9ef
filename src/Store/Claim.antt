-- ===== src/Store/Claim.antt =====
-- engine/store.go: `claim`, its query and the rows that it leases.
pub mod Picks
pub mod Scanned
pub mod Nothing
pub mod Ordered
use pg_outbox.Base.{
  ℕ, zero, suc, ◌+◌, ◌-◌, ◌*◌, ◌/◌, ◌%◌, ◌^◌, ◌≤◌, ◌<◌, ◌≡◌, refl, sym, ap, subst, ◌∙◌, ◌≢◌, ◌↔◌,
  ◌⊎◌, inl, inr, ite, Bool, true, false, not, ◌&&◌, ◌||◌, Option, none, some, List, [], ◌∷◌, ◌++◌,
  map, arith, dec_lt, ℕ_discrete, ltb, leb, if◌then◌else◌, tests, Bool-cases, Option-cases, length,
  take, select, All, length-append, ◌==◌,
}
use pg_outbox.Base.Int.{
  ℤ, pos, negsuc, pos_part, neg_part, ◌≤ℤ◌, ◌<ℤ◌, ltb_ℤ, leb_ℤ, to_bits, of_bits, shl64, IsInt64,
}
use pg_outbox.Base.Text.{◌==◌ as ◌=s=◌}
use pg_outbox.Config.{Settings}
use pg_outbox.Message.{Message, Status, is_status, pending, processing, published, discarded}
use pg_outbox.Table.{Row, Table, update, returning, exists, sort, before, sql_eq, contains, ids}
use pg_outbox.Store.{max_int4, Db, Json, Result, err, run, scan_messages}

-- (a.created_at, a.seq) < (b.created_at, b.seq)
abbrev pub earlier : Row → Row → Bool
earlier a b = ltb a.created_at b.created_at || (a.created_at == b.created_at && ltb a.seq b.seq)

-- o.next_attempt_at <= now() AND (pending, or processing under a lease that ran out)
abbrev pub ready : ℕ → Row → Bool
ready now o =
    leb o.next_attempt_at now
    && (is_status o.status pending || (is_status o.status processing && before o.locked_until now))

-- `e.status NOT IN ('published', 'discarded')`
abbrev pub unresolved : Row → Bool
unresolved e = not (is_status e.status published || is_status e.status discarded)

-- The EXISTS of the ordered mode: an earlier unresolved row of the same key.
abbrev pub blocks : Row → Row → Bool
blocks o e = sql_eq e.partition_key o.partition_key && earlier e o && unresolved e

abbrev pub blocked : List Row → Row → Bool
blocked rows o = exists (blocks o) rows

-- The WHERE clause of the subquery, without the rows that SKIP LOCKED passes over.
unfoldable pub eligible : Db → Bool → List Row → Row → Bool
eligible db ordered rows o =
    ready db.now o && (not (ordered && blocked rows o) && not (db.locked o.id))

-- ORDER BY created_at, seq ... LIMIT $3
unfoldable pub picks : Db → Settings → List Row → List Row
picks db set rows =
    take (pos_part set.batch_size) (sort earlier (select (eligible db set.ordered rows) rows))

-- The SET clause, where `attempts + 1` is in the range of the column.
unfoldable pub lease : Db → Settings → Row → Row
lease db set r = record r {
  status = processing;
  locked_by = some set.instance_id;
  locked_until = some (db.clock + db.interval set.lease_duration);
  lease_token = some (db.uuid r.seq);
  attempts = r.attempts + 1;
}

-- `WHERE id IN (...)`
abbrev pub picked : Db → Settings → List Row → Row → Bool
picked db set rows r = contains (ids (picks db set rows)) r.id

-- The rows after the UPDATE, and those that it returns.
abbrev pub claim_rows : Db → Settings → Table → Table
claim_rows db set t = record t { rows = update (picked db set t.rows) (lease db set) t.rows }

abbrev pub claimed : Db → Settings → Table → List Row
claimed db set t = returning (picked db set t.rows) (lease db set) t.rows

-- Whether `attempts + 1` of a picked row is none, which fails the whole statement.
unfoldable pub out_of_range : Db → Settings → Table → Bool
out_of_range db set t = exists (λ r. picked db set t.rows r && leb max_int4 r.attempts) t.rows

-- `claim`. If the scan fails, the rows are leased all the same.
unfoldable pub claim : Json → Db → Settings → Table → Table × Result (List Message)
claim json db set t = run db.reply t (
    if out_of_range db set t
    then (t, err db.integer_range)
    else (claim_rows db set t, scan_messages json (claimed db set t)))
