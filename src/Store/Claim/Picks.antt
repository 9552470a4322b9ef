-- ===== src/Store/Claim/Picks.antt =====
-- What `claim` leases: which rows, how many, and what becomes of the others.
use mathlib.Core.List.{Memᴰ}
use pg_outbox.Base.{
  subst, sym, ap, All-take, length-take-le, suc, ◌+◌, ◌≤◌, ◌≡◌, refl, ◌⊎◌, inl, inr, Bool, true,
  false, not, ◌&&◌, some, List, [], ◌∷◌, map, arith, Bool-cases, length, select, All,
}
use pg_outbox.Base.Int.{pos_part}
use pg_outbox.Config.{Settings}
use pg_outbox.Message.{processing}
use pg_outbox.Table.{Row, Table, sort, ids}
use pg_outbox.Table.Rows.{
  UniqueIds, &&-both, not-true, All-mem, All-sort, All-select, All-self, mem-update, eq_of_id,
  contains-ids, length-select-ids,
}
use pg_outbox.Store.{Db}
use pg_outbox.Store.Claim.{
  earlier, ready, blocked, eligible, picks, lease, picked, claim_rows, claimed,
}

-- Every row that is picked is an eligible row of the table.
pub picks-eligible :
    (db : Db) (set : Settings) (rows : List Row)
    → All (λ r. Memᴰ r rows × (eligible db set.ordered rows r ≡ true)) (picks db set rows)
unfolding picks
picks-eligible db set rows =
    All-take _ (pos_part set.batch_size) _
      (All-sort _ earlier _ (All-select _ (eligible db set.ordered rows) rows (All-self rows)))

-- With unique ids the UPDATE reaches eligible rows only.
pub picked-eligible :
    (db : Db) (set : Settings) (rows : List Row) {r : Row}
    → UniqueIds rows
    → Memᴰ r rows
    → picked db set rows r ≡ true
    → eligible db set.ordered rows r ≡ true
picked-eligible db set rows {r} u m h =
    let (x, n, e) = contains-ids r.id (picks db set rows) h in
    let (mx, ok) = All-mem _ (picks-eligible db set rows) n in
    subst (λ (y : Row). eligible db set.ordered rows y ≡ true) (eq_of_id rows u mx m e) ok

length-ids : (rs : List Row) → length (ids rs) ≡ length rs
length-ids [] = refl
length-ids (r ∷ rs) = ap suc (length-ids rs)

length-map-rows : (f : Row → Row) (rs : List Row) → length (map f rs) ≡ length rs
length-map-rows f [] = refl
length-map-rows f (r ∷ rs) = ap suc (length-map-rows f rs)

-- `claim` leases at most BatchSize rows.
pub length-claimed-le :
    (db : Db) (set : Settings) (t : Table)
    → UniqueIds t.rows
    → length (claimed db set t) ≤ pos_part set.batch_size
unfolding picks
length-claimed-le db set t u = omega (
  arith,
  length-map-rows (lease db set) (select (picked db set t.rows) t.rows),
  length-select-ids (ids (picks db set t.rows)) t.rows u,
  length-ids (picks db set t.rows),
  length-take-le (pos_part set.batch_size)
      (sort earlier (select (eligible db set.ordered t.rows) t.rows)),
)

-- The three parts of the test of a row.
pub eligible-parts :
    (db : Db) (ordered : Bool) (rows : List Row) (o : Row)
    → eligible db ordered rows o ≡ true
    → (ready db.now o ≡ true) × ((ordered && blocked rows o) ≡ false) × (db.locked o.id ≡ false)
unfolding eligible
eligible-parts db ordered rows o h =
    let (a, bc) =
      &&-both (ready db.now o) (not (ordered && blocked rows o) && not (db.locked o.id)) h in
    let (b, c) = &&-both (not (ordered && blocked rows o)) (not (db.locked o.id)) bc in
    (a, not-true _ b, not-true _ c)

-- `r` is what a claim makes of the row `o`: it was due and no other transaction held it; now it is
-- processing, under the token generated for it, until the lease duration after the clock, with one
-- attempt more and all else as it was.
abbrev pub IsLeaseOf : Db → Settings → Row → Row → Type 0
IsLeaseOf db set o r =
    (ready db.now o ≡ true)
    × (db.locked o.id ≡ false)
    × (r ≡ record o {
      status = processing;
      locked_by = some set.instance_id;
      locked_until = some (db.clock + db.interval set.lease_duration);
      lease_token = some (db.uuid o.seq);
      attempts = o.attempts + 1;
    })

-- A row of the table after a claim is a row from before that the claim left as it was, or the lease
-- of a row that was due and that no other transaction held: processing, under the token generated
-- for it, until the lease duration after the clock, and with one attempt more.
pub claim_rows-mem :
    (db : Db) (set : Settings) (t : Table) {r : Row}
    → UniqueIds t.rows
    → Memᴰ r (claim_rows db set t).rows
    → Memᴰ r t.rows ⊎ ((o : Row) × Memᴰ o t.rows × IsLeaseOf db set o r)
unfolding lease
claim_rows-mem db set t {r} u m =
    let (o, n, e) = mem-update (picked db set t.rows) (lease db set) t.rows m in
    elim (Bool-cases (picked db set t.rows o)) [
      | inl p ↦
          let (a, b, c) =
            eligible-parts db set.ordered t.rows o (picked-eligible db set t.rows u n p) in
          inr (o, n, (a, c, rw p at e))
      | inr p ↦
          let same : r ≡ o = rw p at e in inl (subst (λ (x : Row). Memᴰ x t.rows) (sym same) n)
    ]
