-- ===== src/Backoff/Bounds.antt =====
-- What `Exp` and `Default` return: bounds, the exact value while nothing overflows, and what an
-- overflow does to a schedule without a cap.
use Prim.Native.Nat.{min}
use pg_outbox.Base.{
  ℕ, zero, suc, ◌+◌, ◌-◌, ◌*◌, ◌%◌, ◌^◌, ◌≤◌, ◌<◌, ◌≡◌, refl, ◌⊎◌, inl, inr, Bool, true, ◌&&◌, none,
  some, arith, ltb, Bool-cases, ◌==◌, subst, ltb→lt,
}
use pg_outbox.Base.Int.{ℤ, pos, pos_part, neg_part, ◌≤ℤ◌, ◌<ℤ◌, shl64}
use native.Mathlib.Nat.{two-pow-succ, pow-le-pow_right}
use pg_outbox.Backoff.{
  delay_at, shift_of, computed, jittered, exp, default, default_base, default_max, shl64,
}

-- The shift is one less than the attempt, between 0 and 62.
shift_of-le : (attempt : ℤ) → shift_of attempt ≤ 62
unfolding shift_of
shift_of-le attempt = ground arith

shift_of_mono : (a b : ℤ) → a ≤ℤ b → shift_of a ≤ shift_of b
unfolding shift_of
shift_of_mono a b h = ground arith

-- With a positive cap the computed delay never exceeds the cap, and it falls below the base only
-- where it is the cap itself.
pub computed_bounds :
    (base max_delay attempt : ℤ)
    → pos 0 <ℤ max_delay
    → (computed base max_delay attempt ≤ℤ max_delay)
      × ((base ≤ℤ computed base max_delay attempt) ⊎ (computed base max_delay attempt ≡ max_delay))
unfolding computed delay_at
computed_bounds base max_delay attempt h = ground arith

le-mul-pow : (b k : ℕ) → b ≤ b * 2 ^ k
le-mul-pow b zero = omega arith
le-mul-pow b (suc k) = let e : b ≤ b * 2 ^ k = le-mul-pow b k in simp two-pow-succ (grind arith)

shl64-exact : (b k : ℕ) → b < 2 ^ 63 → b * 2 ^ k < 2 ^ 63 → shl64 (pos b) k ≡ pos (b * 2 ^ k)
unfolding shl64
shl64-exact b k hb h = let e : b % 2 ^ 64 ≡ b = omega arith in rw e (ground arith)

-- While the doubled base fits an int64, the delay is the doubled base, lowered to the cap.
pub computed-exact :
    (b m : ℕ) (attempt : ℤ)
    → 0 < m
    → b * 2 ^ shift_of attempt < 2 ^ 63
    → computed (pos b) (pos m) attempt ≡ pos (min (b * 2 ^ shift_of attempt) m)
unfolding computed delay_at
computed-exact b m attempt hm h =
    let grows : b ≤ b * 2 ^ shift_of attempt = le-mul-pow b (shift_of attempt) in
    rw (shl64-exact b (shift_of attempt) (omega arith) h, delay_at) (ground arith)

-- One line of a table: the delay at a shift is the doubled base, lowered to the cap.
row_ok : ℕ → Bool
row_ok k =
    let d = delay_at default_base default_max k in
    pos_part d == min (100_000_000 * 2 ^ k) 30_000_000_000 && neg_part d == 0

-- The lines from a shift on, so many of them.
lines_ok : ℕ → ℕ → Bool
lines_ok from zero = true
lines_ok from (suc count) = row_ok from && lines_ok (suc from) count

line_of :
    (from count k : ℕ) → lines_ok from count ≡ true → from ≤ k → k < from + count → row_ok k ≡ true
unfolding lines_ok
line_of from zero k good low high = absurd (omega arith)
line_of from (suc count) k good low high = elim (Bool-cases (ltb from k)) [
  | inl above ↦ line_of (suc from) count k (ground arith) (ltb→lt from k above) (omega arith)
  | inr not_above ↦
      let here : from ≡ k = ground arith in subst (λ (i : ℕ). row_ok i ≡ true) here (ground arith)
]

delays_table : lines_ok 0 63 ≡ true
unfolding lines_ok row_ok delay_at shl64
delays_table = refl

row_ok-exact :
    (k : ℕ)
    → row_ok k ≡ true
    → delay_at default_base default_max k ≡ pos (min (100_000_000 * 2 ^ k) 30_000_000_000)
unfolding row_ok
row_ok-exact k h = ground arith

-- Past the 62nd doubling the cap is long reached.
saturated : (n : ℕ) → 62 ≤ n → min (100_000_000 * 2 ^ n) 30_000_000_000 ≡ 30_000_000_000
saturated n h = let grows : 2 ^ 62 ≤ 2 ^ n = pow-le-pow_right (omega arith) h in omega arith

shift_of-early : (n : ℕ) → n < 63 → shift_of (pos (suc n)) ≡ n
unfolding shift_of
shift_of-early n h = ground arith

shift_of-late : (n : ℕ) → 62 ≤ n → shift_of (pos (suc n)) ≡ 62
unfolding shift_of
shift_of-late n h = ground arith

-- `Default` before its jitter is 100ms doubled once for each attempt after the first, and at most
-- 30s: no attempt number, however large, makes the shift overflow it.
pub default-exact :
    (n : ℕ)
    → computed default_base default_max (pos (suc n))
      ≡ pos (min (100_000_000 * 2 ^ n) 30_000_000_000)
unfolding computed
default-exact n = elim (Bool-cases (ltb 62 n)) [
  | inl late ↦
      let far : 62 < n = ltb→lt 62 n late in
      rw
        (
          shift_of-late n (omega arith),
          row_ok-exact 62 (line_of 0 63 62 delays_table (omega arith) (omega arith)),
          saturated n (omega arith),
        )
        refl
  | inr early ↦
      let near : n < 63 = ground arith in
      rw (shift_of-early n near) (row_ok-exact n (line_of 0 63 n delays_table (omega arith) near))
]

jittered-draws :
    (int64_n : ℕ → ℕ) (v : ℕ) → v < 2 ^ 62 → jittered int64_n (pos v) ≡ some (pos (int64_n (v + 1)))
unfolding jittered
jittered-draws int64_n v h =
    let e : (v % 2 ^ 64 + 1) % 2 ^ 64 ≡ v + 1 = omega arith in rw e (ground arith)

-- With its jitter `Default` never panics, and the delay after attempt n + 1 lies between 0 and
-- the smaller of 100ms doubled n times and 30s, given that Int64N draws below its argument.
pub default_jitter_bounds :
    (int64_n : ℕ → ℕ) (n : ℕ)
    → ((m : ℕ) → 0 < m → int64_n m < m)
    → (r : ℕ) × (default int64_n (pos (suc n)) ≡ some (pos r))
      × (r ≤ 100_000_000 * 2 ^ n)
      × (r ≤ 30_000_000_000)
unfolding default exp
default_jitter_bounds int64_n n draws =
    let v : ℕ = min (100_000_000 * 2 ^ n) 30_000_000_000 in
    let positive : 0 < v = omega (arith, le-mul-pow 1 n) in
    let drawn : int64_n (v + 1) < v + 1 = draws (v + 1) (omega arith) in
    (
      int64_n (v + 1),
      rw (default-exact n, exp) (ground (arith, jittered-draws int64_n v (omega arith))),
      omega arith,
      omega arith,
    )

-- Without a cap a base of a multiple of four nanoseconds overflows to no delay at all from the
-- 63rd attempt on.
pub uncapped_collapses :
    (b n : ℕ) → 0 < b → b < 2 ^ 61 → 62 ≤ n → computed (pos (4 * b)) (pos 0) (pos (suc n)) ≡ pos 0
unfolding computed delay_at shl64
uncapped_collapses b n hb lt h = rw (shift_of-late n h) (ground arith)

-- Where the computed delay is the largest int64, the jittered strategy panics on every attempt.
pub exp-max_int64_panics :
    (base max_delay attempt : ℤ) (int64_n : ℕ → ℕ)
    → computed base max_delay attempt ≡ pos (2 ^ 63 - 1)
    → exp base max_delay true int64_n attempt ≡ none
unfolding exp
exp-max_int64_panics base max_delay attempt int64_n h = rw (h, exp) refl
