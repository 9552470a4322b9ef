-- ===== src/Store/Claim/Nothing.antt =====
-- A claim that leases nothing has found nothing to lease.
use mathlib.Core.List.{Memᴰ}
use pg_outbox.Base.{
  ℕ, zero, suc, ◌<◌, ◌≡◌, refl, ap, inl, inr, Bool, false, List, [], ◌∷◌, arith, Bool-cases, length,
  take, select,
}
use pg_outbox.Base.Int.{pos_part}
use pg_outbox.Config.{Settings}
use pg_outbox.Table.{Row, Table, insert, sort}
use pg_outbox.Table.Rows.{All-mem, All-of_mem, mem_select, mem_map, update-skipped, contains_of_mem}
use pg_outbox.Store.{Db}
use pg_outbox.Store.Claim.{claimed, claim_rows, picked, picks, lease, earlier, eligible}
use pg_outbox.Store.Claim.Picks.{picks-eligible}

not_picked :
    (db : Db) (set : Settings) (t : Table) {r : Row}
    → claimed db set t ≡ []
    → Memᴰ r t.rows
    → picked db set t.rows r ≡ false
not_picked db set t {r} h m = elim (Bool-cases (picked db set t.rows r)) [
  | inr e ↦ e
  | inl e ↦ absurd (
      empty (claimed db set t)
        (mem_map (lease db set) (select (picked db set t.rows) t.rows)
          (mem_select (picked db set t.rows) t.rows m e))
        h)
]
  where
    empty : {x : Row} (l : List Row) → Memᴰ x l → l ≡ [] → ⊥
    empty l (Memᴰ.head e) q = cc
    empty l (Memᴰ.tail n) q = cc

-- Then the statement has changed no row.
pub claim_rows-nothing :
    (db : Db) (set : Settings) (t : Table) → claimed db set t ≡ [] → claim_rows db set t ≡ t
claim_rows-nothing db set t h =
    ap (λ (rows : List Row). record t { rows = rows })
      (update-skipped (picked db set t.rows) (lease db set) t.rows
        (All-of_mem t.rows (λ r m. not_picked db set t h m)))

length-insert :
    (b : Row → Row → Bool) (x : Row) (xs : List Row) → length (insert b x xs) ≡ suc (length xs)
length-insert b x [] = refl
length-insert b x (y ∷ ys) = ground (arith, length-insert b x ys)

length-sort : (b : Row → Row → Bool) (xs : List Row) → length (sort b xs) ≡ length xs
length-sort b [] = refl
length-sort b (x ∷ xs) = ground (arith, length-insert b x (sort b xs), length-sort b xs)

-- A first row of a batch that is not empty.
first_of_take : (n : ℕ) (xs : List Row) → 0 < n → 0 < length xs → (x : Row) × Memᴰ x (take n xs)
first_of_take zero xs h k = absurd (omega arith)
first_of_take (suc n) [] h k = absurd (omega arith)
first_of_take (suc n) (x ∷ xs) h k = (x, Memᴰ.head refl)

length-pos_of_mem : {x : Row} (xs : List Row) → Memᴰ x xs → 0 < length xs
length-pos_of_mem [] m = elim m [ ]
length-pos_of_mem (x ∷ xs) m = omega arith

-- No row of the table is due, free of earlier rows of its key and unlocked.
pub claimed-nothing :
    (db : Db) (set : Settings) (t : Table) {r : Row}
    → claimed db set t ≡ []
    → 0 < pos_part set.batch_size
    → Memᴰ r t.rows
    → eligible db set.ordered t.rows r ≡ false
unfolding picks
claimed-nothing db set t {r} h some_room m = elim (Bool-cases (eligible db set.ordered t.rows r)) [
  | inr e ↦ e
  | inl e ↦
      let (x, inside) =
        first_of_take (pos_part set.batch_size)
          (sort earlier (select (eligible db set.ordered t.rows) t.rows)) some_room
          (omega (
            arith,
            length-sort earlier (select (eligible db set.ordered t.rows) t.rows),
            length-pos_of_mem (select (eligible db set.ordered t.rows) t.rows)
                (mem_select (eligible db set.ordered t.rows) t.rows m e),
          )) in
      let (there, _) = All-mem _ (picks-eligible db set t.rows) inside in
      cc (not_picked db set t h there, contains_of_mem (picks db set t.rows) inside)
]
