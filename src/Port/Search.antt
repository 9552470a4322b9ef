-- ===== src/Port/Search.antt =====
-- `errors.As` over the outcome errors of port/outcome.go, against the relation of one error
-- wrapping another.
use pg_outbox.Base.{
  ◌≡◌, refl, subst, ◌↔◌, ◌⊎◌, inl, inr, true, Option, none, some, arith, Bool-cases,
}
use pg_outbox.Base.Int.{ℤ}
use Prim.Native.String.{String}
use pg_outbox.Port.{
  aborts, Error, MaybeError, Errors, Outcomes, PanicValue, Target, plain, wrapped, joined,
  permanent, retry_after, discard, batch, abort, panicked, lease_lost, fatal, nil, just, no_errors,
  more, no_outcomes, outcome, any, error, matches, or_else, here, as_target, as_maybe, as_errors,
  as_outcomes, as_value, is_some, has,
}

pub data InErrors (e : Error) : Errors → Type 0 where
  first : {es : Errors} → InErrors e (more e es)
  later : {f : Error} {es : Errors} → InErrors e es → InErrors e (more f es)

pub data InOutcomes (e : Error) : Outcomes → Type 0 where
  at : {k : String} {os : Outcomes} → InOutcomes e (outcome k (just e) os)
  past :
      {k : String} {m : MaybeError} {os : Outcomes}
      → InOutcomes e os
      → InOutcomes e (outcome k m os)

-- One call of `Unwrap`. `lease_lost`, `plain` and engine's `fatal` have none.
pub data Unwraps : Error → Error → Type 0 where
  of_wrapped : {s : String} {e : Error} → Unwraps (wrapped s e) e
  of_joined : {es : Errors} {e : Error} → InErrors e es → Unwraps (joined es) e
  of_permanent : {e : Error} → Unwraps (permanent (just e)) e
  of_retry_after : {d : ℤ} {e : Error} → Unwraps (retry_after (just e) d) e
  of_discard : {e : Error} → Unwraps (discard (just e)) e
  of_batch_err : {os : Outcomes} {e : Error} → Unwraps (batch os (just e)) e
  of_batch_outcome :
      {os : Outcomes} {m : MaybeError} {e : Error} → InOutcomes e os → Unwraps (batch os m) e
  of_abort : {e : Error} → Unwraps (abort (just e)) e
  of_panic : {e : Error} → Unwraps (panicked (error e)) e

-- `Within e x`: some number of calls of `Unwrap` leads from `e` to `x`.
pub data Within : Error → Error → Type 0 where
  itself : {e : Error} → Within e e
  inside : {e f x : Error} → Unwraps e f → Within f x → Within e x

abbrev pub Finds : Target → Error → Error → Type 0
Finds t e x = Within e x × (matches t x ≡ true)

or_else-some : (a b : Option Error) {x : Error} → or_else a b ≡ some x → (a ≡ some x) ⊎ (b ≡ some x)
or_else-some none b h = inr h
or_else-some (some a) b h = inl h

here-some : (t : Target) (e : Error) {x : Error} → here t e ≡ some x → Finds t e x
here-some t e {x} h = elim (Bool-cases (matches t e)) [
  | inl m ↦ let same : e ≡ x = ground arith in subst (λ y. Finds t e y) same (itself, m)
  | inr m ↦ cc
]

step : (t : Target) {e f x : Error} → Unwraps e f → Finds t f x → Finds t e x
step t u (w, m) = (inside u w, m)

-- What one of the parts finds, under a way `up` into the whole.
mutual
  unfolding as_target

  as_target-Finds : (t : Target) (e : Error) {x : Error} → as_target t e ≡ some x → Finds t e x
  as_target-Finds t (plain s) h = here-some t (plain s) h
  as_target-Finds t (wrapped s e) h = elim (or_else-some (here t (wrapped s e)) (as_target t e) h) [
    | inl p ↦ here-some t (wrapped s e) p
    | inr p ↦ step t of_wrapped (as_target-Finds t e p)
  ]
  as_target-Finds t (joined es) h = elim (or_else-some (here t (joined es)) (as_errors t es) h) [
    | inl p ↦ here-some t (joined es) p
    | inr p ↦ let (f, i, k) = as_errors-Finds t es p in step t (of_joined i) k
  ]
  as_target-Finds t (permanent m) h = elim (or_else-some (here t (permanent m)) (as_maybe t m) h) [
    | inl p ↦ here-some t (permanent m) p
    | inr p ↦ let (f, e, k) = as_maybe-Finds t m p in rw e (step t of_permanent k)
  ]
  as_target-Finds t (retry_after m d) h =
      elim (or_else-some (here t (retry_after m d)) (as_maybe t m) h) [
        | inl p ↦ here-some t (retry_after m d) p
        | inr p ↦ let (f, e, k) = as_maybe-Finds t m p in rw e (step t of_retry_after k)
      ]
  as_target-Finds t (discard m) h = elim (or_else-some (here t (discard m)) (as_maybe t m) h) [
    | inl p ↦ here-some t (discard m) p
    | inr p ↦ let (f, e, k) = as_maybe-Finds t m p in rw e (step t of_discard k)
  ]
  as_target-Finds t (batch os m) h =
      elim (or_else-some (here t (batch os m)) (or_else (as_maybe t m) (as_outcomes t os)) h) [
        | inl p ↦ here-some t (batch os m) p
        | inr p ↦ elim (or_else-some (as_maybe t m) (as_outcomes t os) p) [
          | inl q ↦ let (f, e, k) = as_maybe-Finds t m q in rw e (step t of_batch_err k)
          | inr q ↦ let (f, i, k) = as_outcomes-Finds t os q in step t (of_batch_outcome i) k
        ]
      ]
  as_target-Finds t (abort m) h = elim (or_else-some (here t (abort m)) (as_maybe t m) h) [
    | inl p ↦ here-some t (abort m) p
    | inr p ↦ let (f, e, k) = as_maybe-Finds t m p in rw e (step t of_abort k)
  ]
  as_target-Finds t (panicked v) h = elim (or_else-some (here t (panicked v)) (as_value t v) h) [
    | inl p ↦ here-some t (panicked v) p
    | inr p ↦ let (f, e, k) = as_value-Finds t v p in rw e (step t of_panic k)
  ]
  as_target-Finds t lease_lost h = here-some t lease_lost h
  as_target-Finds t (fatal e) h = here-some t (fatal e) h

  as_maybe-Finds :
      (t : Target) (m : MaybeError) {x : Error}
      → as_maybe t m ≡ some x
      → (f : Error) × (m ≡ just f) × Finds t f x
  as_maybe-Finds t nil h = cc
  as_maybe-Finds t (just e) h = (e, refl, as_target-Finds t e h)

  as_errors-Finds :
      (t : Target) (es : Errors) {x : Error}
      → as_errors t es ≡ some x
      → (f : Error) × InErrors f es × Finds t f x
  as_errors-Finds t no_errors h = cc
  as_errors-Finds t (more e es) h = elim (or_else-some (as_target t e) (as_errors t es) h) [
    | inl p ↦ (e, first, as_target-Finds t e p)
    | inr p ↦ let (f, i, k) = as_errors-Finds t es p in (f, later i, k)
  ]

  as_outcomes-Finds :
      (t : Target) (os : Outcomes) {x : Error}
      → as_outcomes t os ≡ some x
      → (f : Error) × InOutcomes f os × Finds t f x
  as_outcomes-Finds t no_outcomes h = cc
  as_outcomes-Finds t (outcome k m os) h = elim (or_else-some (as_maybe t m) (as_outcomes t os) h) [
    | inl p ↦ let (f, e, r) = as_maybe-Finds t m p in (f, rw e at, r)
    | inr p ↦ let (f, i, r) = as_outcomes-Finds t os p in (f, past i, r)
  ]

  as_value-Finds :
      (t : Target) (v : PanicValue) {x : Error}
      → as_value t v ≡ some x
      → (f : Error) × (v ≡ error f) × Finds t f x
  as_value-Finds t (any s) h = cc
  as_value-Finds t (error e) h = (e, refl, as_target-Finds t e h)

is_some-or_else_left : (a b : Option Error) → is_some a ≡ true → is_some (or_else a b) ≡ true
is_some-or_else_left none b h = cc
is_some-or_else_left (some a) b h = refl

is_some-or_else_right : (a b : Option Error) → is_some b ≡ true → is_some (or_else a b) ≡ true
is_some-or_else_right none b h = h
is_some-or_else_right (some a) b h = refl

here_self : (t : Target) (e : Error) → matches t e ≡ true → is_some (here t e) ≡ true
here_self t e m = rw m

front :
    (t : Target) (e : Error) (rest : Option Error)
    → matches t e ≡ true
    → is_some (or_else (here t e) rest) ≡ true
front t e rest m = is_some-or_else_left (here t e) rest (here_self t e m)

has_self : (t : Target) (e : Error) → matches t e ≡ true → has t e ≡ true
unfolding as_target
has_self t (plain s) m = here_self t (plain s) m
has_self t (wrapped s e) m = front t (wrapped s e) (as_target t e) m
has_self t (joined es) m = front t (joined es) (as_errors t es) m
has_self t (permanent e) m = front t (permanent e) (as_maybe t e) m
has_self t (retry_after e d) m = front t (retry_after e d) (as_maybe t e) m
has_self t (discard e) m = front t (discard e) (as_maybe t e) m
has_self t (batch os e) m = front t (batch os e) (or_else (as_maybe t e) (as_outcomes t os)) m
has_self t (abort e) m = front t (abort e) (as_maybe t e) m
has_self t (panicked v) m = front t (panicked v) (as_value t v) m
has_self t lease_lost m = here_self t lease_lost m
has_self t (fatal e) m = here_self t (fatal e) m

as_errors-has :
    (t : Target) {e : Error} {es : Errors}
    → InErrors e es
    → has t e ≡ true
    → is_some (as_errors t es) ≡ true
unfolding as_errors
as_errors-has t {e} (first {es}) h = is_some-or_else_left (as_target t e) (as_errors t es) h
as_errors-has t (later {f} {es} i) h =
    is_some-or_else_right (as_target t f) (as_errors t es) (as_errors-has t i h)

as_outcomes-has :
    (t : Target) {e : Error} {os : Outcomes}
    → InOutcomes e os
    → has t e ≡ true
    → is_some (as_outcomes t os) ≡ true
unfolding as_outcomes
as_outcomes-has t {e} (at {k} {os}) h = is_some-or_else_left (as_target t e) (as_outcomes t os) h
as_outcomes-has t (past {k} {m} {os} i) h =
    is_some-or_else_right (as_maybe t m) (as_outcomes t os) (as_outcomes-has t i h)

Unwraps-has : (t : Target) {e f : Error} → Unwraps e f → has t f ≡ true → has t e ≡ true
unfolding as_target
Unwraps-has t (of_wrapped {s} {e}) h =
    is_some-or_else_right (here t (wrapped s e)) (as_target t e) h
Unwraps-has t (of_joined {es} i) h =
    is_some-or_else_right (here t (joined es)) (as_errors t es) (as_errors-has t i h)
Unwraps-has t (of_permanent {e}) h =
    is_some-or_else_right (here t (permanent (just e))) (as_target t e) h
Unwraps-has t (of_retry_after {d} {e}) h =
    is_some-or_else_right (here t (retry_after (just e) d)) (as_target t e) h
Unwraps-has t (of_discard {e}) h =
    is_some-or_else_right (here t (discard (just e))) (as_target t e) h
Unwraps-has t (of_batch_err {os} {e}) h =
    is_some-or_else_right (here t (batch os (just e))) (or_else (as_target t e) (as_outcomes t os))
      (is_some-or_else_left (as_target t e) (as_outcomes t os) h)
Unwraps-has t (of_batch_outcome {os} {m} i) h =
    is_some-or_else_right (here t (batch os m)) (or_else (as_maybe t m) (as_outcomes t os))
      (is_some-or_else_right (as_maybe t m) (as_outcomes t os) (as_outcomes-has t i h))
Unwraps-has t (of_abort {e}) h = is_some-or_else_right (here t (abort (just e))) (as_target t e) h
Unwraps-has t (of_panic {e}) h =
    is_some-or_else_right (here t (panicked (error e))) (as_target t e) h

-- What `errors.As` returns is of the target's type, and some number of `Unwrap` calls leads to it.
pub as_target-Within :
    (t : Target) (e : Error) {x : Error}
    → as_target t e ≡ some x
    → Within e x × (matches t x ≡ true)
as_target-Within t e h = as_target-Finds t e h

-- `errors.As` finds something whenever any number of `Unwrap` calls leads to an error of the
-- target's type.
pub has_of_Within : (t : Target) {e x : Error} → Within e x → matches t x ≡ true → has t e ≡ true
has_of_Within t {e} itself m = has_self t e m
has_of_Within t (inside u w) m = Unwraps-has t u (has_of_Within t w m)

-- `errors.As` finds something exactly when some number of `Unwrap` calls leads to an error of the
-- target's type, and what it returns is such an error.
pub as_target_iff :
    (t : Target) (e : Error)
    → ((has t e ≡ true) ↔ ((x : Error) × Within e x × (matches t x ≡ true)))
      × ((x : Error) → as_target t e ≡ some x → Within e x × (matches t x ≡ true))
as_target_iff t e = (
  (λ h. found (as_target t e) refl h, λ (x, w, m). has_of_Within t w m),
  λ x h. as_target-Within t e h,
)
  where
    found :
        (o : Option Error)
        → as_target t e ≡ o
        → is_some o ≡ true
        → (x : Error) × Within e x × (matches t x ≡ true)
    found none q h = cc
    found (some x) q h = let (w, m) = as_target-Within t e q in (x, w, m)

-- The batch error hides no outcome: an abort in any entry, at any depth, is found in the whole.
pub abort_in_batch :
    (os : Outcomes) (others : MaybeError) {f : Error}
    → InOutcomes f os
    → has aborts f ≡ true
    → has aborts (batch os others) ≡ true
abort_in_batch os others i h = Unwraps-has aborts (of_batch_outcome i) h
