-- ===== src/Store/Lifecycle/Updates.antt =====
-- How an UPDATE, a DELETE and an INSERT move the phases of the ids.
use mathlib.Core.List.{Memᴰ}
use Prim.Native.String.{String}
use pg_outbox.Base.Text.{◌==◌ as ◌=s=◌, eq_of_==}
use pg_outbox.Base.{
  ◌≡◌, refl, subst, inl, inr, Bool, true, false, List, [], ◌∷◌, ◌++◌, arith, if◌then◌else◌,
  Bool-cases, select,
}
use pg_outbox.Table.{Row, update, contains, ids}
use pg_outbox.Table.Rows.{UniqueIds}
use pg_outbox.Store.Lifecycle.{gone, Moves, stays, phase, phase_of_row}

pub update-Moves :
    (p : Row → Bool) (f : Row → Row) (rs : List Row) (id : String)
    → ((r : Row) → (f r).id ≡ r.id)
    → ((r : Row) → Memᴰ r rs → p r ≡ true → Moves (phase_of_row r) (phase_of_row (f r)))
    → Moves (phase rs id) (phase (update p f rs) id)
update-Moves p f [] id same moves = stays
update-Moves p f (r ∷ rs) id same moves =
    let rest = update-Moves p f rs id same (λ x m. moves x (Memᴰ.tail m)) in
    elim (Bool-cases (p r)) [
      | inr skip ↦
          rw skip (elim (Bool-cases (r.id =s= id)) [ inl e ↦ rw e stays | inr e ↦ rw e rest ])
      | inl hit ↦
          rw (hit, same r)
            (elim (Bool-cases (r.id =s= id)) [
              | inl e ↦ rw e (moves r (Memᴰ.head refl) hit)
              | inr e ↦ rw e rest
            ])
    ]

-- An id that no row has is gone.
pub phase-absent : (rs : List Row) (id : String) → contains (ids rs) id ≡ false → phase rs id ≡ gone
phase-absent [] id h = refl
phase-absent (r ∷ rs) id h = ground (arith, phase-absent rs id)

pub phase-select_absent :
    (q : Row → Bool) (rs : List Row) (id : String)
    → contains (ids rs) id ≡ false
    → phase (select q rs) id ≡ gone
phase-select_absent q [] id h = refl
phase-select_absent q (r ∷ rs) id h =
    let e : (r.id =s= id) ≡ false = ground arith in
    let rest = phase-select_absent q rs id (ground arith) in
    elim (Bool-cases (q r)) [ inl k ↦ rw (k, e, rest) | inr k ↦ rw (k, rest) ]

pub select-Moves :
    (q : Row → Bool) (rs : List Row) (id : String)
    → UniqueIds rs
    → ((r : Row) → Memᴰ r rs → q r ≡ false → Moves (phase_of_row r) gone)
    → Moves (phase rs id) (phase (select q rs) id)
select-Moves q [] id u moves = stays
select-Moves q (r ∷ rs) id u moves =
    let rest = select-Moves q rs id u.1 (λ x m. moves x (Memᴰ.tail m)) in
    elim (Bool-cases (q r)) [
      | inl keep ↦
          rw keep (elim (Bool-cases (r.id =s= id)) [ inl e ↦ rw e stays | inr e ↦ rw e rest ])
      | inr cut ↦ rw cut (elim (Bool-cases (r.id =s= id)) [
        | inr e ↦ rw e rest
        | inl e ↦
            let absent : contains (ids rs) id ≡ false =
              subst (λ (x : String). contains (ids rs) x ≡ false) (eq_of_== r.id id e) u.0 in
            rw (e, phase-select_absent q rs id absent) (moves r (Memᴰ.head refl) cut)
      ])
    ]

-- A new row leaves the phase of an id that has a row already.
pub phase-append :
    (rs : List Row) (x : Row) (id : String)
    → phase (rs ++ x ∷ []) id ≡ (if contains (ids rs) id then phase rs id else phase (x ∷ []) id)
phase-append [] x id = refl
phase-append (r ∷ rs) x id = ground (arith, phase-append rs x id)
