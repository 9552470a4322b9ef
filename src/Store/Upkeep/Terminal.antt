-- ===== src/Store/Upkeep/Terminal.antt =====
-- `cleanup` and `Requeue` touch terminal rows only.
use mathlib.Core.List.{Memᴰ}
use mathlib.Core.Bool.{false≢true}
use pg_outbox.Base.{
  subst, sym, ◌∙◌, All-take, length-take-le, length-map, ◌≤◌, ◌≡◌, ◌⊎◌, inl, inr, true, false, not,
  ◌&&◌, ℕ, ◌+◌, refl, Option, some, none, List, arith, Bool-cases, length, select, All,
}
use pg_outbox.Base.Text.{◌==◌ as ◌=s=◌, eq_of_==}
use pg_outbox.Base.Int.{pos, pos_part, ◌≤ℤ◌}
use Prim.Native.String.{String}
use pg_outbox.Backoff.{Duration}
use pg_outbox.Config.{Settings}
use pg_outbox.Message.{Status, is_status, pending, processing, published, dead, discarded}
use pg_outbox.Table.{Row, Table, sort, contains, ids}
use pg_outbox.Table.Rows.{
  UniqueIds, All-mem, All-sort, All-select, All-self, mem_select, eq_of_id, contains-ids,
  length-select-ids, mem-update, &&-both,
}
use pg_outbox.Store.{Db}
use pg_outbox.Store.Upkeep.{
  is_dead_row, reopen, requeue_rows, older, expired, ends_before, victims, cleanup_rows,
}

victims-expired :
    (db : Db) (set : Settings) (rows : List Row)
    → All
        (λ r. Memᴰ r rows × ((expired db set r && not (db.locked r.id)) ≡ true))
        (victims db set rows)
unfolding victims
victims-expired db set rows = All-take _ (pos_part set.batch_size) _ (
    All-sort _ (ends_before db) _
      (All-select _ (λ r. expired db set r && not (db.locked r.id)) rows (All-self rows)))

-- With unique ids the DELETE reaches expired rows only.
pub victim-expired :
    (db : Db) (set : Settings) (rows : List Row) {r : Row}
    → UniqueIds rows
    → Memᴰ r rows
    → contains (ids (victims db set rows)) r.id ≡ true
    → (expired db set r && not (db.locked r.id)) ≡ true
victim-expired db set rows {r} u m e =
    let (x, n, same) = contains-ids r.id (victims db set rows) e in
    let (mx, over) = All-mem _ (victims-expired db set rows) n in
    subst (λ (y : Row). (expired db set y && not (db.locked y.id)) ≡ true)
      (eq_of_id rows u mx m same) over

-- A row whose retention has not run out, or that another transaction has locked, survives a cleanup.
pub cleanup_keeps :
    (db : Db) (set : Settings) (t : Table) {r : Row}
    → UniqueIds t.rows
    → Memᴰ r t.rows
    → (expired db set r && not (db.locked r.id)) ≡ false
    → Memᴰ r (cleanup_rows db set t).rows
cleanup_keeps db set t {r} u m kept =
    mem_select (λ x. not (contains (ids (victims db set t.rows)) x.id)) t.rows m
      (elim (Bool-cases (contains (ids (victims db set t.rows)) r.id)) [
        | inr e ↦ rw e
        | inl e ↦ absurd (false≢true (sym kept ∙ victim-expired db set t.rows u m e))
      ])

live-kept :
    (db : Db) (set : Settings) (r : Row)
    → (is_status r.status pending ≡ true) ⊎ (is_status r.status processing ≡ true)
    → (expired db set r && not (db.locked r.id)) ≡ false
unfolding expired
live-kept db set r h = ground arith

-- No cleanup, under any settings, removes a pending or a processing row.
pub cleanup_keeps_live :
    (db : Db) (set : Settings) (t : Table) {r : Row}
    → UniqueIds t.rows
    → Memᴰ r t.rows
    → (is_status r.status pending ≡ true) ⊎ (is_status r.status processing ≡ true)
    → Memᴰ r (cleanup_rows db set t).rows
cleanup_keeps_live db set t {r} u m h = cleanup_keeps db set t u m (live-kept db set r h)

-- A time from which the retention has not run out by now; with no positive retention it never does.
abbrev pub IsWithin : Db → Duration → Option ℕ → Type 0
IsWithin db retention none = Unit {0}
IsWithin db retention (some at) = (retention ≤ℤ pos 0) ⊎ (db.now ≤ at + db.interval retention)

-- Why a row in a state is retained: it is live, or its own window is still open.
abbrev pub RetainedAs : Status → Db → Settings → Row → Type 0
RetainedAs pending db set r = Unit {0}
RetainedAs processing db set r = Unit {0}
RetainedAs published db set r = IsWithin db set.retention r.published_at
RetainedAs dead db set r = IsWithin db set.dead_retention r.finished_at
RetainedAs discarded db set r = IsWithin db set.discard_retention r.finished_at

within-older :
    (db : Db) (retention : Duration) (time : Option ℕ)
    → IsWithin db retention time
    → older db retention time ≡ false
within-older db retention none h = refl
within-older db retention (some at) (inl h) = ground arith
within-older db retention (some at) (inr h) = ground arith

retained-unexpired :
    (db : Db) (set : Settings) (r : Row) (status : Status)
    → r.status ≡ status
    → RetainedAs status db set r
    → expired db set r ≡ false
unfolding expired
retained-unexpired db set r pending e h = rw e refl
retained-unexpired db set r processing e h = rw e refl
retained-unexpired db set r published e h =
    rw (e, within-older db set.retention r.published_at h) refl
retained-unexpired db set r dead e h =
    rw (e, within-older db set.dead_retention r.finished_at h) refl
retained-unexpired db set r discarded e h =
    rw (e, within-older db set.discard_retention r.finished_at h) refl

-- A cleanup leaves a live row, a published row within Retention of its publication, a dead row within
-- DeadRetention and a discarded row within DiscardRetention of its end, a row in a state whose
-- retention is not positive, and a row that another transaction has locked. The ids are unique.
pub cleanup_retains :
    (db : Db) (set : Settings) (t : Table) {r : Row}
    → UniqueIds t.rows
    → Memᴰ r t.rows
    → RetainedAs r.status db set r ⊎ (db.locked r.id ≡ true)
    → Memᴰ r (cleanup_rows db set t).rows
cleanup_retains db set t {r} u m (inl h) =
    cleanup_keeps db set t u m (rw (retained-unexpired db set r r.status refl h) refl)
cleanup_retains db set t {r} u m (inr h) =
    cleanup_keeps db set t u m (let e = h in ground (arith, e))

unexpired :
    (db : Db) (set : Settings) (r : Row)
    → set.retention ≤ℤ pos 0
    → set.dead_retention ≤ℤ pos 0
    → set.discard_retention ≤ℤ pos 0
    → (expired db set r && not (db.locked r.id)) ≡ false
unfolding expired
unexpired db set r a b c = ground arith

-- Deletion is opt-in: with no positive retention a cleanup removes nothing.
pub cleanup_opt_in :
    (db : Db) (set : Settings) (t : Table) {r : Row}
    → UniqueIds t.rows
    → set.retention ≤ℤ pos 0
    → set.dead_retention ≤ℤ pos 0
    → set.discard_retention ≤ℤ pos 0
    → Memᴰ r t.rows
    → Memᴰ r (cleanup_rows db set t).rows
cleanup_opt_in db set t {r} u a b c m = cleanup_keeps db set t u m (unexpired db set r a b c)

-- One cleanup deletes at most BatchSize rows.
pub length-cleanup-le :
    (db : Db) (set : Settings) (t : Table)
    → UniqueIds t.rows
    → length (select (λ r. contains (ids (victims db set t.rows)) r.id) t.rows)
      ≤ pos_part set.batch_size
unfolding victims
length-cleanup-le db set t u = omega (
  arith,
  length-select-ids (ids (victims db set t.rows)) t.rows u,
  length-map (λ (r : Row). r.id) (victims db set t.rows),
  length-take-le (pos_part set.batch_size)
      (sort (ends_before db) (select (λ r. expired db set r && not (db.locked r.id)) t.rows)),
)

-- `r` is what a requeue makes of the dead row `o`.
abbrev pub IsReopenOf : Db → String → Row → Row → Type 0
IsReopenOf db id o r =
    (o.id ≡ id)
    × (is_status o.status dead ≡ true)
    × (r ≡ record o {
      status = pending;
      attempts = 0;
      next_attempt_at = db.clock;
      last_error = none;
      finished_at = none;
      published_at = none;
      locked_by = none;
      locked_until = none;
      lease_token = none;
    })

-- A row of the table after a requeue is a row from before that was left as it was, or the dead row
-- with the given id, made pending with no attempts, no outcome and no lease, due at the clock; its
-- id, payload, creation time and sequence number are kept.
pub requeue_rows-mem :
    (db : Db) (id : String) (t : Table) {r : Row}
    → Memᴰ r (requeue_rows db id t).rows
    → Memᴰ r t.rows ⊎ ((o : Row) × Memᴰ o t.rows × IsReopenOf db id o r)
unfolding reopen
requeue_rows-mem db id t {r} m =
    let (o, n, e) = mem-update (is_dead_row id) (reopen db) t.rows m in
    elim (Bool-cases (is_dead_row id o)) [
      | inl p ↦
          let (a, b) = &&-both (o.id =s= id) (is_status o.status dead) p in
          inr (o, n, (eq_of_== o.id id a, b, rw p at e))
      | inr p ↦
          let same : r ≡ o = rw p at e in inl (subst (λ (x : Row). Memᴰ x t.rows) (sym same) n)
    ]
