-- ===== src/Store/Lease/Count.antt =====
-- How many rows of a batch a fenced statement reaches: as many as there are messages whose lease lives.
use mathlib.Core.List.{Memᴰ}
use pg_outbox.Base.{
  suc, ◌+◌, ◌≡◌, refl, ap, ◌∙◌, ◌↔◌, inl, inr, Bool, true, false, ◌&&◌, ◌||◌, Option, none, some,
  List, [], ◌∷◌, map, arith, if◌then◌else◌, Bool-cases, length, select, All, length-select-le,
}
use pg_outbox.Base.Text.{◌==◌ as ◌=s=◌}
use Prim.Native.String.{String}
use pg_outbox.Message.{Message, is_status, processing}
use pg_outbox.Table.{Row, after, exists, contains, ids}
use pg_outbox.Table.Rows.{UniqueIds}
use pg_outbox.Store.{Db}
use pg_outbox.Store.Lease.Fencing.{owned-parts}
use pg_outbox.Store.Lease.{claim_keys, has_key, owned}

-- No two keys share an id.
abbrev pub UniqueKeys : List (String × String) → Type 0
UniqueKeys [] = Unit
UniqueKeys (k ∷ keys) = (contains (map (λ q. q.0) keys) k.0 ≡ false) × UniqueKeys keys

-- The row is live, processing under the key.
abbrev pub opens : Db → String × String → Row → Bool
opens db k r = owned db (k ∷ []) r

-- Some row is.
abbrev pub holds : Db → List Row → String × String → Bool
holds db rows k = exists (opens db k) rows

||-&& : (x c s a : Bool) → ((x || c) && s && a) ≡ (((x || false) && s && a) || (c && s && a))
||-&& x c s a = ground arith

owned-cons :
    (db : Db) (k : String × String) (keys : List (String × String)) (r : Row)
    → owned db (k ∷ keys) r ≡ (opens db k r || owned db keys r)
unfolding owned
owned-cons db (i, t) keys r = go r.lease_token
  where
    go :
        (o : Option String)
        → (has_key ((i, t) ∷ keys) r.id o
            && is_status r.status processing
            && after r.locked_until db.clock)
          ≡ ((has_key ((i, t) ∷ []) r.id o
                && is_status r.status processing
                && after r.locked_until db.clock)
              || (has_key keys r.id o
                  && is_status r.status processing
                  && after r.locked_until db.clock))
    go none = refl
    go (some token) =
        ||-&& (i =s= r.id && t =s= token) (has_key keys r.id (some token))
          (is_status r.status processing) (after r.locked_until db.clock)

contains_of_key :
    (keys : List (String × String)) (id token : String)
    → Memᴰ (id, token) keys
    → contains (map (λ q. q.0) keys) id ≡ true
contains_of_key [] id token m = elim m [ ]
contains_of_key ((i, t) ∷ keys) id token (Memᴰ.head e) =
    ground (arith, ap (λ (q : String × String). q.0) e)
contains_of_key ((i, t) ∷ keys) id token (Memᴰ.tail m) =
    ground (arith, contains_of_key keys id token m)

owned-in :
    (db : Db) (keys : List (String × String)) (r : Row)
    → owned db keys r ≡ true
    → contains (map (λ q. q.0) keys) r.id ≡ true
owned-in db keys r h =
    let (token, _, m, _, _) = owned-parts db keys r h in contains_of_key keys r.id token m

pub opens-id : (db : Db) (k : String × String) (r : Row) → opens db k r ≡ true → r.id ≡ k.0
opens-id db k r h = let (token, _, m, _, _) = owned-parts db (k ∷ []) r h in only m
  where
    only : {token : String} → Memᴰ (r.id, token) (k ∷ []) → r.id ≡ k.0
    only (Memᴰ.head e) = ap (λ (q : String × String). q.0) e
    only (Memᴰ.tail m) = elim m [ ]

none-opens :
    (db : Db) (k : String × String) (rows : List Row)
    → contains (ids rows) k.0 ≡ false
    → exists (opens db k) rows ≡ false
none-opens db k [] h = refl
none-opens db k (r ∷ rows) h = elim (Bool-cases (opens db k r)) [
  | inl e ↦ ground (arith, opens-id db k r e)
  | inr e ↦ rw e (none-opens db k rows (ground arith))
]

select-empty {ℓ} :
    {A : Type ℓ} (p : A → Bool) (xs : List A) → exists p xs ≡ false → length (select p xs) ≡ 0
select-empty p [] h = refl
select-empty p (x ∷ xs) h = ground (arith, select-empty p xs)

length-opens :
    (db : Db) (k : String × String) (rows : List Row)
    → UniqueIds rows
    → length (select (opens db k) rows) ≡ (if holds db rows k then 1 else 0)
length-opens db k [] u = refl
length-opens db k (r ∷ rows) u = elim (Bool-cases (opens db k r)) [
  | inl e ↦ rw e (
      ap suc
        (select-empty (opens db k) rows (none-opens db k rows (rw (← opens-id db k r e) (u.0)))))
  | inr e ↦ rw e (length-opens db k rows u.1)
]

length-select-disjoint {ℓ} :
    {A : Type ℓ} (p q : A → Bool) (xs : List A)
    → ((x : A) → p x ≡ true → q x ≡ false)
    → length (select (λ x. p x || q x) xs) ≡ length (select p xs) + length (select q xs)
length-select-disjoint p q [] h = omega arith
length-select-disjoint p q (x ∷ xs) h = ground (arith, h x, length-select-disjoint p q xs h)

length-select-same {ℓ} :
    {A : Type ℓ} (p q : A → Bool) (xs : List A)
    → ((x : A) → p x ≡ q x)
    → length (select p xs) ≡ length (select q xs)
length-select-same p q [] h = refl
length-select-same p q (x ∷ xs) h = ground (arith, h x, length-select-same p q xs h)

-- As many rows are reached as there are keys with a live lease.
pub length-owned :
    (db : Db) (keys : List (String × String)) (rows : List Row)
    → UniqueIds rows
    → UniqueKeys keys
    → length (select (owned db keys) rows) ≡ length (select (holds db rows) keys)
length-owned db [] rows u v = select-empty (owned db []) rows (nothing rows)
  where
    nothing : (l : List Row) → exists (owned db []) l ≡ false
    nothing [] = refl
    nothing (r ∷ l) = elim (Bool-cases (owned db [] r)) [
      | inl e ↦ elim (owned-parts db [] r e).2 [ ]
      | inr e ↦ rw e (nothing l)
    ]
length-owned db (k ∷ keys) rows u v =
    length-select-same (owned db (k ∷ keys)) (λ r. opens db k r || owned db keys r) rows
      (owned-cons db k keys)
    ∙ length-select-disjoint (opens db k) (owned db keys) rows (λ r e.
      elim (Bool-cases (owned db keys r)) [
        | inr f ↦ f
        | inl f ↦ ground (arith, opens-id db k r e, owned-in db keys r f, v.0)
      ])
    ∙ ground (arith, length-opens db k rows u, length-owned db keys rows u v.1)

pub full-select {ℓ} :
    {A : Type ℓ} (p : A → Bool) (xs : List A)
    → (length (select p xs) ≡ length xs) ↔ All (λ x. p x ≡ true) xs
full-select p [] = (λ h. tt, λ h. refl)
full-select p (x ∷ xs) = (
  λ h. elim (Bool-cases (p x)) [
    | inl e ↦ (e, (full-select p xs).0 (ground arith))
    | inr e ↦ absurd (ground (arith, length-select-le p xs))
  ],
  λ h. rw (h.0) (ap suc ((full-select p xs).1 (h.1))),
)

contains-select :
    (p : Message → Bool) (id : String) (ms : List Message)
    → contains (map (λ q. q.0) (claim_keys ms)) id ≡ false
    → contains (map (λ q. q.0) (claim_keys (select p ms))) id ≡ false
contains-select p id [] h = refl
contains-select p id (m ∷ ms) h = elim (Bool-cases (p m)) [
  | inl e ↦ rw e (ground (arith, contains-select p id ms))
  | inr e ↦ rw e (contains-select p id ms (ground arith))
]

pub select-UniqueKeys :
    (p : Message → Bool) (ms : List Message)
    → UniqueKeys (claim_keys ms)
    → UniqueKeys (claim_keys (select p ms))
select-UniqueKeys p [] h = tt
select-UniqueKeys p (m ∷ ms) h = elim (Bool-cases (p m)) [
  | inl e ↦ rw e (contains-select p m.id ms h.0, select-UniqueKeys p ms h.1)
  | inr e ↦ rw e (select-UniqueKeys p ms h.1)
]
