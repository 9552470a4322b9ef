-- ===== src/Backoff/Examples.antt =====
-- Runs of the strategies of backoff/backoff.go at concrete attempts.

use pg_outbox.Base.{
  ℕ, zero, suc, ◌-◌, ◌*◌, ◌^◌, ◌≤◌, ◌≡◌, refl, true, none, some, arith, if◌then◌else◌,
}
use pg_outbox.Base.Int.{pos, shl64}
use pg_outbox.Backoff.{
  delay_at, Duration, shift_of, computed, exp, default, default_base, default_max,
}
use pg_outbox.Backoff.Bounds.{
  default-exact, default_jitter_bounds, uncapped_collapses, exp-max_int64_panics,
}
use pg_outbox.Backoff.Adapters.{
  stop_delay, from_next_back_off, delays, any_stop, last_or, from_next_back_off-delays,
}

-- The draw of a generator that always returns the largest value in range.
abbrev largest : ℕ → ℕ
largest m = m - 1

default-exact_example : computed default_base default_max (pos 5) ≡ pos 1_600_000_000
default-exact_example = default-exact 4

default_jitter_bounds_example :
    (r : ℕ) × (default largest (pos 3) ≡ some (pos r))
    × (r ≤ 100_000_000 * 2 ^ 2)
    × (r ≤ 30_000_000_000)
default_jitter_bounds_example = default_jitter_bounds largest 2 (λ m h. omega arith)

uncapped_collapses_example : computed (pos (4 * 25_000_000)) (pos 0) (pos 63) ≡ pos 0
uncapped_collapses_example =
    uncapped_collapses 25_000_000 62 (omega arith) (omega arith) (omega arith)

exp-max_int64_panics_example : exp (pos 100_000_000) (pos (2 ^ 63 - 1)) true largest (pos 63) ≡ none
unfolding computed shift_of delay_at shl64
exp-max_int64_panics_example =
    exp-max_int64_panics (pos 100_000_000) (pos (2 ^ 63 - 1)) (pos 63) largest refl

-- A source that yields 10, 20 and then Stop.
abbrev ladder : ℕ → Duration × ℕ
ladder zero = (pos 10, 1)
ladder (suc zero) = (pos 20, 2)
ladder (suc (suc n)) = (stop_delay, 2)

from_next_back_off-delays_example :
    from_next_back_off ladder 0 (pos 2)
    ≡ (if any_stop (delays ladder 2 0) then pos 0 else last_or (pos 0) (delays ladder 2 0))
from_next_back_off-delays_example = from_next_back_off-delays ladder 0 (pos 2)

ladder_stops : from_next_back_off ladder 0 (pos 3) ≡ pos 0
unfolding from_next_back_off
ladder_stops = refl
