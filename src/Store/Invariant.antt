-- ===== src/Store/Invariant.antt =====
-- What holds of the table between any two statements of engine/store.go, in any order and from any
-- number of workers.
pub mod Steps
use mathlib.Core.List.{Memᴰ}
use pg_outbox.Base.{
  subst, sym, ap, ◌∙◌, All-append, ℕ, zero, suc, ◌+◌, ◌-◌, ◌*◌, ◌/◌, ◌%◌, ◌^◌, ◌≤◌, ◌<◌, ◌≡◌, refl,
  ◌≢◌, ◌↔◌, ◌⊎◌, inl, inr, ite, Bool, true, false, not, ◌&&◌, ◌||◌, Option, none, some, List, [],
  ◌∷◌, ◌++◌, ◌==◌, map, arith, dec_lt, ℕ_discrete, ltb, leb, if◌then◌else◌, tests, Bool-cases,
  Option-cases, length, take, select, All, length-append,
}
use pg_outbox.Base.Text.{◌==◌ as ◌=s=◌, ==_self}
use pg_outbox.Base.Int.{
  ℤ, pos, negsuc, pos_part, neg_part, ◌≤ℤ◌, ◌<ℤ◌, ltb_ℤ, leb_ℤ, to_bits, of_bits, shl64, IsInt64,
}
use Prim.Native.String.{String}
use pg_outbox.Message.{Status, pending, processing, published, dead, discarded, is_nil}
use pg_outbox.Table.{Row, Table, update, contains, ids}
use pg_outbox.Table.Rows.{UniqueIds, ids-update, update-UniqueIds}

-- No column of a lease is set.
abbrev pub NoLease : Row → Type 0
NoLease r =
    (is_nil r.locked_by ≡ true) × (is_nil r.locked_until ≡ true) × (is_nil r.lease_token ≡ true)

-- Which columns are set in which state: a lease exactly while processing, `finished_at` exactly in
-- the three terminal states, `published_at` exactly when published.
abbrev pub Fits : Status → Row → Type 0
Fits pending r = NoLease r × (is_nil r.finished_at ≡ true) × (is_nil r.published_at ≡ true)
Fits processing r =
    ((is_nil r.locked_by ≡ false)
      × (is_nil r.locked_until ≡ false)
      × (is_nil r.lease_token ≡ false))
    × (is_nil r.finished_at ≡ true)
    × (is_nil r.published_at ≡ true)
    × (0 < r.attempts)
Fits published r = NoLease r × (is_nil r.finished_at ≡ false) × (is_nil r.published_at ≡ false)
Fits dead r = NoLease r × (is_nil r.finished_at ≡ false) × (is_nil r.published_at ≡ true)
Fits discarded r = NoLease r × (is_nil r.finished_at ≡ false) × (is_nil r.published_at ≡ true)

abbrev pub IsFit : Row → Type 0
IsFit r = Fits r.status r

-- The sequence numbers rise along the rows, from `lo` on and below `hi`.
abbrev pub Rising : ℕ → ℕ → List Row → Type 0
Rising lo hi [] = lo ≤ hi
Rising lo hi (r ∷ rs) = (lo ≤ r.seq) × Rising (suc r.seq) hi rs

pub record IsValid (t : Table) : Type 0 where
  pub unique : UniqueIds t.rows
  pub fit : All IsFit t.rows
  pub rising : Rising 0 t.next_seq t.rows

Rising-mono : (lo lo' hi : ℕ) (rs : List Row) → lo ≤ lo' → Rising lo' hi rs → Rising lo hi rs
Rising-mono lo lo' hi [] le h = omega arith
Rising-mono lo lo' hi (r ∷ rs) le h = (omega arith, h.1)

update-Rising :
    (p : Row → Bool) (f : Row → Row) (lo hi : ℕ) (rs : List Row)
    → ((r : Row) → (f r).seq ≡ r.seq)
    → Rising lo hi rs
    → Rising lo hi (update p f rs)
update-Rising p f lo hi [] same h = h
update-Rising p f lo hi (r ∷ rs) same h = elim (Bool-cases (p r)) [
  | inl e ↦ rw (e, same r) (h.0, update-Rising p f (suc r.seq) hi rs same h.1)
  | inr e ↦ rw e (h.0, update-Rising p f (suc r.seq) hi rs same h.1)
]

update-IsFit :
    (p : Row → Bool) (f : Row → Row) (rs : List Row)
    → ((r : Row) → Memᴰ r rs → p r ≡ true → IsFit r → IsFit (f r))
    → All IsFit rs
    → All IsFit (update p f rs)
update-IsFit p f [] keep h = tt
update-IsFit p f (r ∷ rs) keep h =
    let rest : All IsFit (update p f rs) = update-IsFit p f rs (λ x m. keep x (Memᴰ.tail m)) h.1 in
    elim (Bool-cases (p r)) [
      | inl e ↦ rw e (keep r (Memᴰ.head refl) e h.0, rest)
      | inr e ↦ rw e (h.0, rest)
    ]

-- An update in place keeps the table valid if it keeps ids, sequence numbers and fitness.
pub update-IsValid :
    (p : Row → Bool) (f : Row → Row) (t : Table)
    → ((r : Row) → (f r).id ≡ r.id)
    → ((r : Row) → (f r).seq ≡ r.seq)
    → ((r : Row) → Memᴰ r t.rows → p r ≡ true → IsFit r → IsFit (f r))
    → IsValid t
    → IsValid (record t { rows = update p f t.rows })
update-IsValid p f t id seq keep v = record {
  unique = update-UniqueIds p f t.rows id v.unique;
  fit = update-IsFit p f t.rows keep v.fit;
  rising = update-Rising p f 0 t.next_seq t.rows seq v.rising;
}

contains-select :
    (p : Row → Bool) (id : String) (rs : List Row)
    → contains (ids rs) id ≡ false
    → contains (ids (select p rs)) id ≡ false
contains-select p id [] h = refl
contains-select p id (r ∷ rs) h = ground (arith, contains-select p id rs)

pub select-UniqueIds : (p : Row → Bool) (rs : List Row) → UniqueIds rs → UniqueIds (select p rs)
select-UniqueIds p [] u = tt
select-UniqueIds p (r ∷ rs) u = elim (Bool-cases (p r)) [
  | inl e ↦ rw e (contains-select p r.id rs u.0, select-UniqueIds p rs u.1)
  | inr e ↦ rw e (select-UniqueIds p rs u.1)
]

select-IsFit : (p : Row → Bool) (rs : List Row) → All IsFit rs → All IsFit (select p rs)
select-IsFit p [] h = tt
select-IsFit p (r ∷ rs) h = elim (Bool-cases (p r)) [
  | inl e ↦ rw e (h.0, select-IsFit p rs h.1)
  | inr e ↦ rw e (select-IsFit p rs h.1)
]

select-Rising :
    (p : Row → Bool) (lo hi : ℕ) (rs : List Row) → Rising lo hi rs → Rising lo hi (select p rs)
select-Rising p lo hi [] h = h
select-Rising p lo hi (r ∷ rs) h = elim (Bool-cases (p r)) [
  | inl e ↦ rw e (h.0, select-Rising p (suc r.seq) hi rs h.1)
  | inr e ↦
      let wide : lo ≤ suc r.seq = omega (arith, h.0) in
      rw e (Rising-mono lo (suc r.seq) hi _ wide (select-Rising p (suc r.seq) hi rs h.1))
]

-- So does a deletion.
pub select-IsValid :
    (p : Row → Bool) (t : Table) → IsValid t → IsValid (record t { rows = select p t.rows })
select-IsValid p t v = record {
  unique = select-UniqueIds p t.rows v.unique;
  fit = select-IsFit p t.rows v.fit;
  rising = select-Rising p 0 t.next_seq t.rows v.rising;
}

contains-snoc :
    (x : Row) (id : String) (rs : List Row)
    → contains (ids rs) id ≡ false
    → (x.id =s= id) ≡ false
    → contains (ids (rs ++ x ∷ [])) id ≡ false
contains-snoc x id [] h e = rw e
contains-snoc x id (r ∷ rs) h e = ground (arith, contains-snoc x id rs)

snoc-UniqueIds :
    (x : Row) (rs : List Row)
    → contains (ids rs) x.id ≡ false
    → UniqueIds rs
    → UniqueIds (rs ++ x ∷ [])
snoc-UniqueIds x [] h u = (refl, tt)
snoc-UniqueIds x (r ∷ rs) h u =
    (contains-snoc x r.id rs u.0 (ground arith), snoc-UniqueIds x rs (ground arith) u.1)

snoc-Rising :
    (x : Row) (lo hi : ℕ) (rs : List Row)
    → x.seq ≡ hi
    → Rising lo hi rs
    → Rising lo (hi + 1) (rs ++ x ∷ [])
snoc-Rising x lo hi [] e h = (omega arith, omega arith)
snoc-Rising x lo hi (r ∷ rs) e h = (h.0, snoc-Rising x (suc r.seq) hi rs e h.1)

-- And an insertion at the end, of a row with a new id and the next sequence number.
pub snoc-IsValid :
    (x : Row) (t : Table)
    → contains (ids t.rows) x.id ≡ false
    → x.seq ≡ t.next_seq
    → IsFit x
    → IsValid t
    → IsValid (record { rows = t.rows ++ x ∷ []; next_seq = t.next_seq + 1 })
snoc-IsValid x t new e f v = record {
  unique = snoc-UniqueIds x t.rows new v.unique;
  fit = All-append IsFit t.rows (x ∷ []) v.fit (f, tt);
  rising = snoc-Rising x 0 t.next_seq t.rows e v.rising;
}

Rising-grow : (lo hi : ℕ) (rs : List Row) → Rising lo hi rs → Rising lo (hi + 1) rs
Rising-grow lo hi [] h = omega arith
Rising-grow lo hi (r ∷ rs) h = (h.0, Rising-grow (suc r.seq) hi rs h.1)

-- And a number of the sequence that no row takes.
pub skip-IsValid : (t : Table) → IsValid t → IsValid (record t { next_seq = t.next_seq + 1 })
skip-IsValid t v = record {
  unique = v.unique;
  fit = v.fit;
  rising = Rising-grow 0 t.next_seq t.rows v.rising;
}
