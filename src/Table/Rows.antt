-- ===== src/Table/Rows.antt =====
-- Laws of the SQL constructs of Table.antt: membership, selection by unique id, updates in place.
use mathlib.Core.List.{Memᴰ, map}
use pg_outbox.Base.{
  subst, sym, ap, ◌∙◌, ◌+◌, ◌≤◌, ◌≡◌, refl, ◌⊎◌, inl, inr, Bool, true, false, not, ◌&&◌, ◌||◌, List,
  [], ◌∷◌, arith, if◌then◌else◌, Bool-cases, length, select, All,
}
use pg_outbox.Base.Text.{◌==◌ as ◌=s=◌, eq_of_==}
use Prim.Native.String.{String}
use pg_outbox.Table.{Row, update, returning, exists, insert, sort, contains, ids}

-- No two rows share an id: the primary key.
abbrev pub UniqueIds : List Row → Type 0
UniqueIds [] = Unit
UniqueIds (r ∷ rs) = (contains (ids rs) r.id ≡ false) × UniqueIds rs

pub ||-cases : (a b : Bool) → (a || b) ≡ true → (a ≡ true) ⊎ (b ≡ true)
||-cases true b h = inl refl
||-cases false b h = inr h

pub &&-both : (a b : Bool) → (a && b) ≡ true → (a ≡ true) × (b ≡ true)
&&-both true b h = (refl, h)
&&-both false b h = cc

pub not-true : (a : Bool) → not a ≡ true → a ≡ false
not-true true h = cc
not-true false h = refl

module _ {ℓ} {A : Type ℓ} where
  -- `All` of the members.
  pub All-of_mem {κ} : {P : A → Type κ} (xs : List A) → ((x : A) → Memᴰ x xs → P x) → All P xs
  All-of_mem [] f = tt
  All-of_mem (x ∷ xs) f = (f x (Memᴰ.head refl), All-of_mem xs (λ y m. f y (Memᴰ.tail m)))

  pub exists-false : (p : A → Bool) (xs : List A) → exists p xs ≡ false → All (λ x. p x ≡ false) xs
  exists-false p [] h = tt
  exists-false p (x ∷ xs) h = elim (Bool-cases (p x)) [
    | inl yes' ↦ absurd (ground arith)
    | inr no' ↦ (no', exists-false p xs (ground arith))
  ]

  pub All-mem {κ} : (P : A → Type κ) {x : A} {xs : List A} → All P xs → Memᴰ x xs → P x
  All-mem P h (Memᴰ.head e) = subst P (sym e) h.0
  All-mem P h (Memᴰ.tail m) = All-mem P h.1 m

  -- A row survives a selection exactly when it passes the test.
  pub mem-select :
      (p : A → Bool) {x : A} (xs : List A) → Memᴰ x (select p xs) → Memᴰ x xs × (p x ≡ true)
  mem-select p {x} [] m = elim m [ ]
  mem-select p {x} (y ∷ xs) m = elim (Bool-cases (p y)) [
    | inl e ↦ split (mem-select p xs) (rw e at m) e
    | inr e ↦ let (n, q) = mem-select p xs (rw e at m) in (Memᴰ.tail n, q)
  ]
    where
      split :
          (Memᴰ x (select p xs) → Memᴰ x xs × (p x ≡ true))
          → Memᴰ x (y ∷ select p xs)
          → p y ≡ true
          → Memᴰ x (y ∷ xs) × (p x ≡ true)
      split rest (Memᴰ.head e) h = (Memᴰ.head e, rw e h)
      split rest (Memᴰ.tail n) h = let (k, q) = rest n in (Memᴰ.tail k, q)

  pub All-insert {κ} :
      (P : A → Type κ) (b : A → A → Bool) (x : A) (xs : List A)
      → P x
      → All P xs
      → All P (insert b x xs)
  All-insert P b x [] hx h = (hx, tt)
  All-insert P b x (y ∷ ys) hx h = elim (Bool-cases (b x y)) [
    | inl e ↦ rw e (hx, h)
    | inr e ↦ rw e (h.0, All-insert P b x ys hx h.1)
  ]

  pub All-sort {κ} :
      (P : A → Type κ) (b : A → A → Bool) (xs : List A) → All P xs → All P (sort b xs)
  All-sort P b [] h = tt
  All-sort P b (x ∷ xs) h = All-insert P b x (sort b xs) h.0 (All-sort P b xs h.1)

  pub All-select {κ} :
      (P : A → Type κ) (p : A → Bool) (xs : List A)
      → All P xs
      → All (λ x. P x × (p x ≡ true)) (select p xs)
  All-select P p [] h = tt
  All-select P p (x ∷ xs) h = elim (Bool-cases (p x)) [
    | inl e ↦ rw e ((h.0, e), All-select P p xs h.1)
    | inr e ↦ rw e (All-select P p xs h.1)
  ]

  pub All-self : (xs : List A) → All (λ x. Memᴰ x xs) xs
  All-self xs = All-of_mem xs (λ x m. m)

  pub length-select-or :
      (p q : A → Bool) (xs : List A)
      → length (select (λ x. p x || q x) xs) ≤ length (select p xs) + length (select q xs)
  length-select-or p q [] = omega arith
  length-select-or p q (x ∷ xs) = ground (arith, length-select-or p q xs)

-- A row of an updated table is a row that the test left alone, or the new value of one it passed.
pub mem-update {ℓ} :
    {A : Type ℓ} (p : A → Bool) (f : A → A) {x : A} (xs : List A)
    → Memᴰ x (update p f xs)
    → (y : A) × Memᴰ y xs × (x ≡ (if p y then f y else y))
mem-update p f [] m = elim m [ ]
mem-update p f (y ∷ xs) (Memᴰ.head e) = (y, Memᴰ.head refl, e)
mem-update p f (y ∷ xs) (Memᴰ.tail m) = let (z, n, e) = mem-update p f xs m in (z, Memᴰ.tail n, e)

module _ {ℓ} {A : Type ℓ} (p : A → Bool) where
  -- A test that no row passes selects nothing and updates nothing.
  pub select-skipped : (xs : List A) → All (λ x. p x ≡ false) xs → select p xs ≡ []
  select-skipped [] h = refl
  select-skipped (x ∷ xs) h = rw h.0 (select-skipped xs h.1)

  pub update-skipped : (f : A → A) (xs : List A) → All (λ x. p x ≡ false) xs → update p f xs ≡ xs
  update-skipped f [] h = refl
  update-skipped f (x ∷ xs) h = rw (h.0, update-skipped f xs h.1)

  pub All-update {κ} :
      (P : A → Type κ) (f : A → A) (xs : List A)
      → ((x : A) → P (if p x then f x else x))
      → All P (update p f xs)
  All-update P f [] h = tt
  All-update P f (x ∷ xs) h = (h x, All-update P f xs h)

  pub mem_select : {x : A} (xs : List A) → Memᴰ x xs → p x ≡ true → Memᴰ x (select p xs)
  mem_select [] m h = elim m [ ]
  mem_select {x} (y ∷ xs) (Memᴰ.head e) h = rw (← e) (rw h (Memᴰ.head refl))
  mem_select {x} (y ∷ xs) (Memᴰ.tail m) h = elim (Bool-cases (p y)) [
    | inl e ↦ rw e (Memᴰ.tail (mem_select xs m h))
    | inr e ↦ rw e (mem_select xs m h)
  ]

pub mem_map {ℓ κ} :
    {A : Type ℓ} {B : Type κ} (f : A → B) {x : A} (xs : List A) → Memᴰ x xs → Memᴰ (f x) (map f xs)
mem_map f [] m = elim m [ ]
mem_map f (y ∷ xs) (Memᴰ.head e) = Memᴰ.head (ap f e)
mem_map f (y ∷ xs) (Memᴰ.tail m) = Memᴰ.tail (mem_map f xs m)

pub mem-map {ℓ κ} :
    {A : Type ℓ} {B : Type κ} (f : A → B) {y : B} (xs : List A)
    → Memᴰ y (map f xs)
    → (x : A) × Memᴰ x xs × (y ≡ f x)
mem-map f [] m = elim m [ ]
mem-map f (x ∷ xs) (Memᴰ.head e) = (x, Memᴰ.head refl, e)
mem-map f (x ∷ xs) (Memᴰ.tail m) = let (z, n, e) = mem-map f xs m in (z, Memᴰ.tail n, e)

pub &&-intro : {a b : Bool} → a ≡ true → b ≡ true → (a && b) ≡ true
&&-intro {a} {b} p q = rw (p, q) refl

pub ids-update :
    (p : Row → Bool) (f : Row → Row) (rs : List Row)
    → ((r : Row) → (f r).id ≡ r.id)
    → ids (update p f rs) ≡ ids rs
ids-update p f [] h = refl
ids-update p f (r ∷ rs) h = elim (Bool-cases (p r)) [
  | inl e ↦ rw (e, h r, ids-update p f rs h)
  | inr e ↦ rw (e, ids-update p f rs h)
]

pub update-UniqueIds :
    (p : Row → Bool) (f : Row → Row) (rs : List Row)
    → ((r : Row) → (f r).id ≡ r.id)
    → UniqueIds rs
    → UniqueIds (update p f rs)
update-UniqueIds p f [] h u = tt
update-UniqueIds p f (r ∷ rs) h u = (
  elim (Bool-cases (p r)) [
    | inl e ↦ rw (e, h r, ids-update p f rs h) u.0
    | inr e ↦ rw (e, ids-update p f rs h) u.0
  ],
  update-UniqueIds p f rs h u.1,
)

-- An update and then a selection that picks out just the updated rows is the RETURNING list.
pub select-update :
    (p q : Row → Bool) (f : Row → Row) (rs : List Row)
    → All (λ r. q (if p r then f r else r) ≡ p r) rs
    → select q (update p f rs) ≡ returning p f rs
select-update p q f [] h = refl
select-update p q f (r ∷ rs) h = elim (Bool-cases (p r)) [
  | inl e ↦ let k : q (f r) ≡ true = rw e at (h.0) in rw (e, k, select-update p q f rs h.1)
  | inr e ↦ let k : q r ≡ false = rw e at (h.0) in rw (e, k, select-update p q f rs h.1)
]

pub contains_of_mem : {r : Row} (rs : List Row) → Memᴰ r rs → contains (ids rs) r.id ≡ true
contains_of_mem [] m = elim m [ ]
contains_of_mem {r} (x ∷ rs) (Memᴰ.head e) = rw (← e) (ground arith)
contains_of_mem (x ∷ rs) (Memᴰ.tail m) = ground (arith, contains_of_mem rs m)

-- In a table with unique ids the id determines the row.
pub eq_of_id :
    {a b : Row} (rs : List Row) → UniqueIds rs → Memᴰ a rs → Memᴰ b rs → a.id ≡ b.id → a ≡ b
eq_of_id [] u m n e = elim m [ ]
eq_of_id (x ∷ rs) u (Memᴰ.head p) (Memᴰ.head q) e = p ∙ sym q
eq_of_id (x ∷ rs) u (Memᴰ.head p) (Memᴰ.tail n) e =
    ground (arith, u.0, contains_of_mem rs n, ap (λ (r : Row). r.id) p)
eq_of_id (x ∷ rs) u (Memᴰ.tail m) (Memᴰ.head q) e =
    ground (arith, u.0, contains_of_mem rs m, ap (λ (r : Row). r.id) q)
eq_of_id (x ∷ rs) u (Memᴰ.tail m) (Memᴰ.tail n) e = eq_of_id rs u.1 m n e

pub contains-ids :
    (id : String) (rs : List Row)
    → contains (ids rs) id ≡ true
    → (r : Row) × Memᴰ r rs × (r.id ≡ id)
contains-ids id [] h = cc
contains-ids id (r ∷ rs) h = elim (||-cases (r.id =s= id) (contains (ids rs) id) h) [
  | inl e ↦ (r, Memᴰ.head refl, eq_of_== r.id id e)
  | inr e ↦ let (s, m, f) = contains-ids id rs e in (s, Memᴰ.tail m, f)
]

select-none : (rs : List Row) → select (λ _. false) rs ≡ []
select-none [] = refl
select-none (r ∷ rs) = select-none rs

length-select-absent :
    (y : String) (rs : List Row)
    → contains (ids rs) y ≡ false
    → length (select (λ r. y =s= r.id) rs) ≡ 0
length-select-absent y [] h = refl
length-select-absent y (r ∷ rs) h = ground (arith, length-select-absent y rs)

length-select-id :
    (y : String) (rs : List Row) → UniqueIds rs → length (select (λ r. y =s= r.id) rs) ≤ 1
length-select-id y [] u = omega arith
length-select-id y (r ∷ rs) u =
    ground (arith, length-select-absent y rs, length-select-id y rs u.1, u.0)

-- With unique ids, as many rows at most have an id of a list as the list is long.
pub length-select-ids :
    (l : List String) (rs : List Row)
    → UniqueIds rs
    → length (select (λ r. contains l r.id) rs) ≤ length l
length-select-ids [] rs u = rw (select-none rs) (omega arith)
length-select-ids (y ∷ l) rs u = omega (
  arith,
  length-select-or (λ r. y =s= r.id) (λ r. contains l r.id) rs,
  length-select-id y rs u,
  length-select-ids l rs u,
)
