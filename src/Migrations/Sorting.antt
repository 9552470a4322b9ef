-- ===== src/Migrations/Sorting.antt =====
-- Sorting by a total order: the result is a sorted permutation, and it forgets the order of the list.
use mathlib.Core.List.{Permᴰ}
use mathlib.Core.List.Permᴰ
use pg_outbox.Base.{
  ◌≡◌, refl, ap, subst, ◌∙◌, inl, inr, Bool, true, false, List, [], ◌∷◌, arith, if◌then◌else◌,
  Bool-cases, select, All, All-imp,
}
use pg_outbox.Table.{insert, sort}

module _ {ℓ} {A : Type ℓ} where
  keep_one :
      (b : Bool) (x : A) {xs ys : List A}
      → Permᴰ xs ys
      → Permᴰ (if b then x ∷ xs else xs) (if b then x ∷ ys else ys)
  keep_one true x d = Permᴰ.cons refl d
  keep_one false x d = d

  keep_two :
      (b c : Bool) (x y : A) (l : List A)
      → Permᴰ
          (if b then x ∷ (if c then y ∷ l else l) else (if c then y ∷ l else l))
          (if c then y ∷ (if b then x ∷ l else l) else (if b then x ∷ l else l))
  keep_two true true x y l = Permᴰ.swap refl refl
  keep_two true false x y l = Permᴰ.refl (x ∷ l)
  keep_two false true x y l = Permᴰ.refl (y ∷ l)
  keep_two false false x y l = Permᴰ.refl l

  pub select-Perm :
      (p : A → Bool) {xs ys : List A} → Permᴰ xs ys → Permᴰ (select p xs) (select p ys)
  select-Perm p Permᴰ.nil = Permᴰ.nil
  select-Perm p (Permᴰ.cons {a} {b} {l₁ = l} {l₂ = m} e d) =
      subst (λ (y : A). Permᴰ (select p (a ∷ l)) (select p (y ∷ m))) e
        (keep_one (p a) a (select-Perm p d))
  select-Perm p (Permᴰ.swap {a} {b} {a' = c} {b' = d} {l = l} e f) =
      subst (λ (y : A). Permᴰ (select p (a ∷ b ∷ l)) (select p (c ∷ y ∷ l))) e
        (subst (λ (y : A). Permᴰ (select p (a ∷ b ∷ l)) (select p (y ∷ a ∷ l))) f
          (keep_two (p a) (p b) a b (select p l)))
  select-Perm p (Permᴰ.trans d e) = Permᴰ.trans (select-Perm p d) (select-Perm p e)

-- A total order, as a test.
pub record TotalOrder {ℓ} (A : Type ℓ) : Type ℓ where
  pub le : A → A → Bool
  pub total : (x y : A) → le x y ≡ false → le y x ≡ true
  pub antisym : (x y : A) → le x y ≡ true → le y x ≡ true → x ≡ y
  pub trans : (x y z : A) → le x y ≡ true → le y z ≡ true → le x z ≡ true

module _ {ℓ} {A : Type ℓ} (o : TotalOrder A) where
  abbrev pub Sorted : List A → Type ℓ
  Sorted [] = Unit
  Sorted (x ∷ xs) = All (λ y. o.le x y ≡ true) xs × Sorted xs

  insert-Perm : (x : A) (xs : List A) → Permᴰ (insert o.le x xs) (x ∷ xs)
  insert-Perm x [] = Permᴰ.refl (x ∷ [])
  insert-Perm x (y ∷ ys) = elim (Bool-cases (o.le x y)) [
    | inl e ↦ rw e (Permᴰ.refl (x ∷ y ∷ ys))
    | inr e ↦ rw e (Permᴰ.trans (Permᴰ.cons refl (insert-Perm x ys)) (Permᴰ.swap refl refl))
  ]

  pub sort-Perm : (xs : List A) → Permᴰ (sort o.le xs) xs
  sort-Perm [] = Permᴰ.nil
  sort-Perm (x ∷ xs) = Permᴰ.trans (insert-Perm x (sort o.le xs)) (Permᴰ.cons refl (sort-Perm xs))

  All-insert :
      (z x : A) (xs : List A)
      → o.le z x ≡ true
      → All (λ y. o.le z y ≡ true) xs
      → All (λ y. o.le z y ≡ true) (insert o.le x xs)
  All-insert z x [] h hs = (h, tt)
  All-insert z x (y ∷ ys) h hs = elim (Bool-cases (o.le x y)) [
    | inl e ↦ rw e (h, hs)
    | inr e ↦ rw e (hs.0, All-insert z x ys h hs.1)
  ]

  insert-Sorted : (x : A) (xs : List A) → Sorted xs → Sorted (insert o.le x xs)
  insert-Sorted x [] h = (tt, tt)
  insert-Sorted x (y ∷ ys) h = elim (Bool-cases (o.le x y)) [
    | inl e ↦ rw e ((e, All-imp (λ z q. o.trans x y z e q) ys h.0), h)
    | inr e ↦ rw e (All-insert y x ys (o.total x y e) h.0, insert-Sorted x ys h.1)
  ]

  pub sort-Sorted : (xs : List A) → Sorted (sort o.le xs)
  sort-Sorted [] = tt
  sort-Sorted (x ∷ xs) = insert-Sorted x (sort o.le xs) (sort-Sorted xs)

  insert_comm :
      (x y : A) (l : List A) → insert o.le x (insert o.le y l) ≡ insert o.le y (insert o.le x l)
  insert_comm x y [] = elim (Bool-cases (o.le x y)) [
    | inl e ↦ elim (Bool-cases (o.le y x)) [
      | inl f ↦ rw (e, f) (rw (o.antisym x y e f) refl)
      | inr f ↦ rw (e, f) refl
    ]
    | inr e ↦ rw (e, o.total x y e) refl
  ]
  insert_comm x y (z ∷ l) = elim (Bool-cases (o.le x z)) [
    | inl ex ↦ elim (Bool-cases (o.le y z)) [
      | inl ey ↦ rw (ex, ey) (ground (arith, o.total x y, o.antisym x y))
      | inr ey ↦ rw (ex, ey) (ground (arith, o.trans y x z))
    ]
    | inr ex ↦ elim (Bool-cases (o.le y z)) [
      | inl ey ↦ rw (ex, ey) (ground (arith, o.trans x y z))
      | inr ey ↦ rw (ex, ey) (rw ex (ap (λ (m : List A). z ∷ m) (insert_comm x y l)))
    ]
  ]

  -- The order of the list does not matter.
  pub sort-unordered : {xs ys : List A} → Permᴰ xs ys → sort o.le xs ≡ sort o.le ys
  sort-unordered Permᴰ.nil = refl
  sort-unordered (Permᴰ.cons {a} {l₂ = m} e d) =
      ap (insert o.le a) (sort-unordered d) ∙ ap (λ (y : A). insert o.le y (sort o.le m)) e
  sort-unordered (Permᴰ.swap {a} {b} {a' = c} {l = l} e f) =
      insert_comm a b (sort o.le l)
      ∙ ap (λ (y : A). insert o.le y (insert o.le a (sort o.le l))) f
      ∙ ap (λ (y : A). insert o.le c (insert o.le y (sort o.le l))) e
  sort-unordered (Permᴰ.trans d e) = sort-unordered d ∙ sort-unordered e
