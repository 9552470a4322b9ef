-- ===== src/Port.antt =====
-- port/outcome.go: the errors that control a delivery, as the trees that `errors.Is` and
-- `errors.As` walk. `MaybeError` is an error that may be nil.
pub mod Text
pub mod Search
pub mod Examples
use pg_outbox.Base.Text.{◌==◌}
use pg_outbox.Base.{
  ℕ, zero, suc, ◌+◌, ◌-◌, ◌*◌, ◌/◌, ◌%◌, ◌^◌, ◌≤◌, ◌<◌, ◌≡◌, refl, sym, ap, subst, ◌∙◌, ◌≢◌, ◌↔◌,
  ◌⊎◌, inl, inr, ite, Bool, true, false, not, ◌&&◌, ◌||◌, Option, none, some, List, [], ◌∷◌, ◌++◌,
  map, arith, dec_lt, ℕ_discrete, ltb, leb, if◌then◌else◌, tests, Bool-cases, Option-cases, length,
  take, select, All, length-append,
}
use pg_outbox.Base.Int.{
  ℤ, pos, negsuc, pos_part, neg_part, ◌≤ℤ◌, ◌<ℤ◌, ltb_ℤ, leb_ℤ, to_bits, of_bits, shl64, IsInt64,
}
use Prim.Native.String.{String, ◌++◌ as ◌<>◌}

mutual
  pub data Error : Type 0 where
    plain : String → Error  -- errors.New, and an error of a driver that wraps nothing
    wrapped : String → Error → Error  -- fmt.Errorf("...: %w", err), with the text before the colon
    joined : Errors → Error  -- errors.Join
    permanent : MaybeError → Error
    retry_after : MaybeError → ℤ → Error
    discard : MaybeError → Error
    batch : Outcomes → MaybeError → Error
    abort : MaybeError → Error
    panicked : PanicValue → Error
    lease_lost : Error  -- ErrLeaseLost
    fatal : Error → Error  -- engine's fatalError, which has no Unwrap

  pub data MaybeError : Type 0 where
    nil : MaybeError
    just : Error → MaybeError

  pub data Errors : Type 0 where
    no_errors : Errors
    more : Error → Errors → Errors

  -- A map from message ids to errors, in the order that its iteration takes.
  pub data Outcomes : Type 0 where
    no_outcomes : Outcomes
    outcome : String → MaybeError → Outcomes → Outcomes

  -- What was given to `panic`: any value, by its `%v` text, or an error.
  pub data PanicValue : Type 0 where
    any : String → PanicValue
    error : Error → PanicValue

-- The parts of the error, and what `errors.As` with a target type looks for.
pub data Target : Type 0 where
  permanents retries discards batches aborts panics fatals : Target

abbrev pub matches : Target → Error → Bool
matches permanents (permanent _) = true
matches retries (retry_after _ _) = true
matches discards (discard _) = true
matches batches (batch _ _) = true
matches aborts (abort _) = true
matches panics (panicked _) = true
matches fatals (fatal _) = true
matches _ _ = false

abbrev pub or_else : Option Error → Option Error → Option Error
or_else (some e) later = some e
or_else none later = later

abbrev pub here : Target → Error → Option Error
here t e = if matches t e then some e else none

-- `errors.As`: the error itself, then what its `Unwrap` gives, depth first. `BatchError.Unwrap`
-- gives its `Err` and then the outcomes; nil ones are left out.
unfoldable mutual
  pub as_target : Target → Error → Option Error
  as_target t (plain s) = here t (plain s)
  as_target t (wrapped s e) = or_else (here t (wrapped s e)) (as_target t e)
  as_target t (joined es) = or_else (here t (joined es)) (as_errors t es)
  as_target t (permanent e) = or_else (here t (permanent e)) (as_maybe t e)
  as_target t (retry_after e d) = or_else (here t (retry_after e d)) (as_maybe t e)
  as_target t (discard e) = or_else (here t (discard e)) (as_maybe t e)
  as_target t (batch os e) =
      or_else (here t (batch os e)) (or_else (as_maybe t e) (as_outcomes t os))
  as_target t (abort e) = or_else (here t (abort e)) (as_maybe t e)
  as_target t (panicked v) = or_else (here t (panicked v)) (as_value t v)
  as_target t lease_lost = here t lease_lost
  as_target t (fatal e) = here t (fatal e)

  pub as_maybe : Target → MaybeError → Option Error
  as_maybe t nil = none
  as_maybe t (just e) = as_target t e

  pub as_errors : Target → Errors → Option Error
  as_errors t no_errors = none
  as_errors t (more e es) = or_else (as_target t e) (as_errors t es)

  pub as_outcomes : Target → Outcomes → Option Error
  as_outcomes t no_outcomes = none
  as_outcomes t (outcome k e os) = or_else (as_maybe t e) (as_outcomes t os)

  pub as_value : Target → PanicValue → Option Error
  as_value t (any s) = none
  as_value t (error e) = as_target t e

-- `errors.As` as a test.
abbrev pub is_some {ℓ} : {A : Type ℓ} → Option A → Bool
is_some none = false
is_some (some a) = true

abbrev pub has : Target → Error → Bool
has t e = is_some (as_target t e)

-- The entry of a message id: `none` is a missing key, `some nil` an entry that is nil.
pub entry : String → Outcomes → Option MaybeError
entry id no_outcomes = none
entry id (outcome k e os) = if k == id then some e else entry id os

-- `Permanent`, `RetryAfter`, `Discard`, `Abort` and `PerMessage`.
abbrev pub permanent_of : MaybeError → Error
permanent_of e = permanent e

abbrev pub retry_after_of : MaybeError → ℤ → Error
retry_after_of e d = retry_after e d

abbrev pub discard_of : MaybeError → Error
discard_of e = discard e

abbrev pub abort_of : MaybeError → Error
abort_of e = abort e

abbrev pub per_message : Outcomes → MaybeError → Error
per_message outcomes others = batch outcomes others
