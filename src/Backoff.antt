-- ===== src/Backoff.antt =====
-- backoff/backoff.go: retry delays. A duration is a Go int64 of nanoseconds. `none` is a panic.
pub mod Bounds
pub mod Adapters
pub mod Examples
use pg_outbox.Base.{
  ℕ, suc, ◌+◌, ◌-◌, ◌*◌, ◌^◌, Bool, true, false, ◌&&◌, Option, none, some, leb, ltb, if◌then◌else◌,
  ◌%◌,
}
use pg_outbox.Base.Int.{ℤ, pos, negsuc, pos_part, ltb_ℤ, leb_ℤ, shl64, to_bits, of_bits}

abbrev pub Duration : Type 0
Duration = ℤ

-- `attempt` is raised to 1, and `shift := attempt - 1` lowered to 62.
pub shift_of : ℤ → ℕ
shift_of attempt =
    let a = if ltb_ℤ attempt (pos 1) then 1 else pos_part attempt in
    let shift = a - 1 in if ltb 62 shift then 62 else shift

-- `base << uint(shift)` with the overflow check, then the cap.
pub delay_at : Duration → Duration → ℕ → Duration
delay_at base max_delay shift =
    let shifted = shl64 base shift in
    let d = if ltb_ℤ shifted base then max_delay else shifted in
    if ltb_ℤ (pos 0) max_delay && ltb_ℤ max_delay d then max_delay else d

-- The delay before the jitter.
pub computed : Duration → Duration → ℤ → Duration
computed base max_delay attempt = delay_at base max_delay (shift_of attempt)

-- `rand.Int64N(int64(d) + 1)`: the sum wraps, and Int64N panics unless its argument is positive.
pub jittered : (ℕ → ℕ) → Duration → Option Duration
jittered int64_n d =
    let n = of_bits ((to_bits d + 1) % 2 ^ 64) in
    if ltb_ℤ (pos 0) n then some (pos (int64_n (pos_part n))) else none

-- `Exp`. `int64_n n` is the draw of `rand.Int64N(n)` for n > 0.
unfoldable pub exp : Duration → Duration → Bool → (ℕ → ℕ) → ℤ → Option Duration
unfolding jittered
exp base max_delay jitter int64_n attempt =
    let d = computed base max_delay attempt in
    if jitter && ltb_ℤ (pos 0) d then jittered int64_n d else some d

abbrev pub default_base : Duration
default_base = pos 100_000_000

abbrev pub default_max : Duration
default_max = pos 30_000_000_000

-- `Default`: exponential 100ms to 30s with full jitter.
unfoldable pub default : (ℕ → ℕ) → ℤ → Option Duration
default = exp default_base default_max true
