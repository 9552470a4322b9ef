-- ===== src/Relay/Drain/Effort.antt =====
-- The attempts that the open rows of a table have left, and how the statements of engine/store.go
-- change them.
use mathlib.Core.List.{Memᴰ}
use Prim.Native.String.{String}
use pg_outbox.Base.{
  ℕ, suc, ◌+◌, ◌-◌, ◌≤◌, ◌<◌, ◌≡◌, refl, inl, inr, Bool, true, ◌||◌, none, some, List, [], ◌∷◌,
  arith, Bool-cases,
}
use pg_outbox.Base.Int.{ℤ, pos_part}
use pg_outbox.Backoff.{Duration}
use pg_outbox.Config.{Settings}
use pg_outbox.Message.{Status, is_status, pending, processing, published, dead, discarded}
use pg_outbox.Table.{Row, Table, update}
use pg_outbox.Table.Rows.{UniqueIds, update-UniqueIds}
use pg_outbox.Store.{Db}
use pg_outbox.Store.Claim.{eligible, lease, picked, claim_rows}
use pg_outbox.Store.Claim.Picks.{picked-eligible, eligible-parts}
use pg_outbox.Store.Lease.Fencing.{owned-parts}
use pg_outbox.Store.Lease.{owned, extend, renew_rows, Completion, complete_row, finish_rows}

-- One more than the attempts that are left, for a row that is still to be delivered.
abbrev pub open_effort : Status → ℕ → ℕ
open_effort pending left = suc left
open_effort processing left = suc left
open_effort published left = 0
open_effort dead left = 0
open_effort discarded left = 0

-- The attempt limit of a row: its own, or the relay's.
abbrev pub row_limit : Settings → Row → ℤ
row_limit set r = elim r.max_attempts [ none ↦ set.max_attempts | some own ↦ own ]

-- What is left for an open row: one completion, and the attempts below its limit.
unfoldable pub row_effort : Settings → Row → ℕ
row_effort set r = open_effort r.status (pos_part (row_limit set r) - r.attempts)

abbrev pub effort : Settings → List Row → ℕ
effort set [] = 0
effort set (r ∷ rs) = row_effort set r + effort set rs

-- An update that raises no row's effort raises the sum at no table, and lowers it where it lowers
-- the effort of a row.
pub effort-update :
    (set : Settings) (p : Row → Bool) (f : Row → Row) (rs : List Row)
    → ((r : Row) → Memᴰ r rs → p r ≡ true → row_effort set (f r) ≤ row_effort set r)
    → effort set (update p f rs) ≤ effort set rs
effort-update set p f [] h = omega arith
effort-update set p f (r ∷ rs) h =
    let rest = effort-update set p f rs (λ x m. h x (Memᴰ.tail m)) in
    elim (Bool-cases (p r)) [
      | inl e ↦ rw e (omega (arith, rest, h r (Memᴰ.head refl) e))
      | inr e ↦ rw e (omega (arith, rest))
    ]

pub effort-update-lt :
    (set : Settings) (p : Row → Bool) (f : Row → Row) (rs : List Row) {x : Row}
    → ((r : Row) → Memᴰ r rs → p r ≡ true → row_effort set (f r) ≤ row_effort set r)
    → Memᴰ x rs
    → p x ≡ true
    → row_effort set (f x) < row_effort set x
    → effort set (update p f rs) < effort set rs
effort-update-lt set p f [] h m e lt = elim m [ ]
effort-update-lt set p f (r ∷ rs) h (Memᴰ.head same) e lt =
    let rest = effort-update set p f rs (λ y m. h y (Memᴰ.tail m)) in
    rw (← same) (rw e (omega (arith, rest, lt)))
effort-update-lt set p f (r ∷ rs) h (Memᴰ.tail m) e lt =
    let rest = effort-update-lt set p f rs (λ y n. h y (Memᴰ.tail n)) m e lt in
    elim (Bool-cases (p r)) [
      | inl q ↦ rw q (omega (arith, rest, h r (Memᴰ.head refl) q))
      | inr q ↦ rw q (omega (arith, rest))
    ]

-- A step from one table to another keeps the ids unique, and the effort does not grow.
pub record Settles (set : Settings) (t u : Table) : Type 0 where
  pub step : UniqueIds t.rows → UniqueIds u.rows × (effort set u.rows ≤ effort set t.rows)

-- The same, and the effort shrinks.
pub record Spends (set : Settings) (t u : Table) : Type 0 where
  pub step : UniqueIds t.rows → UniqueIds u.rows × (effort set u.rows < effort set t.rows)

module _ {set : Settings} where
  pub Settles-refl : {t : Table} → Settles set t t
  Settles-refl = record { step = λ h. (h, omega arith) }

  pub Settles-trans : {t u v : Table} → Settles set t u → Settles set u v → Settles set t v
  Settles-trans p q = record {
    step = λ h. let (a, m) = p.step h in let (b, n) = q.step a in (b, omega (arith, m, n));
  }

  pub Spends-Settles : {t u v : Table} → Spends set t u → Settles set u v → Spends set t v
  Spends-Settles p q = record {
    step = λ h. let (a, m) = p.step h in let (b, n) = q.step a in (b, omega (arith, m, n));
  }

  pub Settles-Spends : {t u v : Table} → Settles set t u → Spends set u v → Spends set t v
  Settles-Spends p q = record {
    step = λ h. let (a, m) = p.step h in let (b, n) = q.step a in (b, omega (arith, m, n));
  }

  pub Settles-of_Spends : {t u : Table} → Spends set t u → Settles set t u
  Settles-of_Spends p = record { step = λ h. let (a, m) = p.step h in (a, omega (arith, m)) }

lease-effort :
    (db : Db) (set : Settings) (rows : List Row) (o : Row)
    → eligible db set.ordered rows o ≡ true
    → row_effort set (lease db set o) ≤ row_effort set o
unfolding row_effort lease
lease-effort db set rows o may =
    let (due, _, _) = eligible-parts db set.ordered rows o may in ground arith

-- Below its limit a row spends an attempt by being claimed.
lease-effort-lt :
    (db : Db) (set : Settings) (rows : List Row) (o : Row)
    → eligible db set.ordered rows o ≡ true
    → o.attempts + 1 < pos_part (row_limit set o)
    → row_effort set (lease db set o) < row_effort set o
unfolding row_effort lease
lease-effort-lt db set rows o may below =
    let (due, _, _) = eligible-parts db set.ordered rows o may in ground arith

lease-id : (db : Db) (set : Settings) (r : Row) → (lease db set r).id ≡ r.id
unfolding lease
lease-id db set r = refl

pub claim-Settles : (db : Db) (set : Settings) (t : Table) → Settles set t (claim_rows db set t)
claim-Settles db set t = record {
  step = λ u. (
    update-UniqueIds (picked db set t.rows) (lease db set) t.rows (lease-id db set) u,
    effort-update set (picked db set t.rows) (lease db set) t.rows
        (λ r m p. lease-effort db set t.rows r (picked-eligible db set t.rows u m p)),
  );
}

pub claim-Spends :
    (db : Db) (set : Settings) (t : Table) {o : Row}
    → Memᴰ o t.rows
    → picked db set t.rows o ≡ true
    → o.attempts + 1 < pos_part (row_limit set o)
    → Spends set t (claim_rows db set t)
claim-Spends db set t {o} m p below = record {
  step = λ u. (
    update-UniqueIds (picked db set t.rows) (lease db set) t.rows (lease-id db set) u,
    effort-update-lt set (picked db set t.rows) (lease db set) t.rows
        (λ r n q. lease-effort db set t.rows r (picked-eligible db set t.rows u n q)) m p
        (lease-effort-lt db set t.rows o (picked-eligible db set t.rows u m p) below),
  );
}

extend-id : (db : Db) (d : Duration) (r : Row) → (extend db d r).id ≡ r.id
unfolding extend
extend-id db d r = refl

extend-effort :
    (db : Db) (set : Settings) (d : Duration) (r : Row)
    → row_effort set (extend db d r) ≤ row_effort set r
unfolding row_effort extend
extend-effort db set d r = omega arith

pub renew-Settles :
    (db : Db) (set : Settings) (keys : List (String × String)) (d : Duration) (t : Table)
    → Settles set t (renew_rows db keys d t)
renew-Settles db set keys d t = record {
  step = λ u. (
    update-UniqueIds (owned db keys) (extend db d) t.rows (extend-id db d) u,
    effort-update set (owned db keys) (extend db d) t.rows (λ r m p. extend-effort db set d r),
  );
}

complete-id : (db : Db) (c : Completion) (r : Row) → (complete_row db c r).id ≡ r.id
unfolding complete_row
complete-id db c r = refl

open_effort-le :
    (s o : Status) (left : ℕ)
    → is_status o processing ≡ true
    → open_effort s left ≤ open_effort o left
open_effort-le s processing left h = ground arith
open_effort-le s pending left h = cc
open_effort-le s published left h = cc
open_effort-le s dead left h = cc
open_effort-le s discarded left h = cc

complete-effort :
    (db : Db) (set : Settings) (keys : List (String × String)) (c : Completion) (r : Row)
    → owned db keys r ≡ true
    → row_effort set (complete_row db c r) ≤ row_effort set r
unfolding row_effort complete_row
complete-effort db set keys c r h =
    let (token, _, _, busy, _) = owned-parts db keys r h in
    open_effort-le c.status r.status (pos_part (row_limit set r) - r.attempts) busy

abbrev pub is_terminal : Status → Bool
is_terminal s = is_status s published || is_status s discarded || is_status s dead

open_effort-lt :
    (s o : Status) (left : ℕ)
    → is_terminal s ≡ true
    → is_status o processing ≡ true
    → open_effort s left < open_effort o left
open_effort-lt s processing left t h = ground arith
open_effort-lt s pending left t h = cc
open_effort-lt s published left t h = cc
open_effort-lt s dead left t h = cc
open_effort-lt s discarded left t h = cc

complete-effort-lt :
    (db : Db) (set : Settings) (keys : List (String × String)) (c : Completion) (r : Row)
    → is_terminal c.status ≡ true
    → owned db keys r ≡ true
    → row_effort set (complete_row db c r) < row_effort set r
unfolding row_effort complete_row
complete-effort-lt db set keys c r final h =
    let (token, _, _, busy, _) = owned-parts db keys r h in
    open_effort-lt c.status r.status (pos_part (row_limit set r) - r.attempts) final busy

pub finish-Settles :
    (db : Db) (set : Settings) (keys : List (String × String)) (c : Completion) (t : Table)
    → Settles set t (finish_rows db keys c t)
finish-Settles db set keys c t = record {
  step = λ u. (
    update-UniqueIds (owned db keys) (complete_row db c) t.rows (complete-id db c) u,
    effort-update set (owned db keys) (complete_row db c) t.rows
        (λ r m p. complete-effort db set keys c r p),
  );
}

-- A completion that reaches a row and is no retry spends effort.
pub finish-Spends :
    (db : Db) (set : Settings) (keys : List (String × String)) (c : Completion) (t : Table)
    {x : Row}
    → is_terminal c.status ≡ true
    → Memᴰ x t.rows
    → owned db keys x ≡ true
    → Spends set t (finish_rows db keys c t)
finish-Spends db set keys c t {x} final m e = record {
  step = λ u. (
    update-UniqueIds (owned db keys) (complete_row db c) t.rows (complete-id db c) u,
    effort-update-lt set (owned db keys) (complete_row db c) t.rows
        (λ r n p. complete-effort db set keys c r p) m e
        (complete-effort-lt db set keys c x final e),
  );
}
