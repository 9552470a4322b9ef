-- ===== src/Port/Text.antt =====
-- port/outcome.go: the texts of the errors, which the relay stores in last_error.
use pg_outbox.Base.{ℕ, zero, suc, ◌/◌, ◌%◌, ltb, leb, if◌then◌else◌}
use Prim.Native.String.{String, ◌++◌ as ◌<>◌}
use pg_outbox.Port.{
  Error, MaybeError, Errors, Outcomes, PanicValue, plain, wrapped, joined, permanent, retry_after,
  discard, batch, abort, panicked, lease_lost, fatal, nil, just, no_errors, more, no_outcomes,
  outcome, any, error,
}

digit : ℕ → String
digit n =
    if leb n 0
    then "0"
    else if leb n 1
    then "1"
    else if leb n 2
    then "2"
    else if leb n 3
    then "3"
    else if leb n 4
    then "4"
    else if leb n 5
    then "5"
    else if leb n 6
    then "6"
    else if leb n 7
    then "7"
    else if leb n 8
    then "8"
    else "9"

-- `%d` of a count, with as many rounds as the number has digits at most.
decimal_loop : ℕ → ℕ → String → String
decimal_loop zero n acc = acc
decimal_loop (suc f) n acc =
    let rest = decimal_loop f (n / 10) (digit (n % 10) <> acc) in
    if ltb n 10 then digit n <> acc else rest

pub decimal : ℕ → String
unfolding decimal_loop digit
decimal n = decimal_loop (suc n) n ""

-- The entries of a batch that are not nil.
pub failed_count : Outcomes → ℕ
failed_count no_outcomes = 0
failed_count (outcome k nil os) = failed_count os
failed_count (outcome k (just e) os) = suc (failed_count os)

-- `Error()` of each kind of error.
unfoldable mutual
  pub text : Error → String
  text (plain s) = s
  text (wrapped s e) = s <> ": " <> text e
  text (joined es) = texts es
  text (permanent m) = text_or "outbox: permanent publish failure" m
  text (retry_after m d) = text_or "outbox: retry requested" m
  text (discard m) = text_or "outbox: discarded" m
  text (batch os m) = "outbox: " <> decimal (failed_count os) <> " message(s) failed" <> others m
  text (abort m) = text_or "outbox: relay aborted" m
  text (panicked v) = "outbox: panic: " <> value_text v
  text lease_lost = "outbox: lease lost"
  text (fatal e) = text e

  pub text_or : String → MaybeError → String
  text_or s nil = s
  text_or s (just e) = text e

  pub others : MaybeError → String
  others nil = ""
  others (just e) = "; others: " <> text e

  pub texts : Errors → String
  texts no_errors = ""
  texts (more e no_errors) = text e
  texts (more e (more f es)) = text e <> "\n" <> texts (more f es)

  pub value_text : PanicValue → String
  value_text (any s) = s
  value_text (error e) = text e
