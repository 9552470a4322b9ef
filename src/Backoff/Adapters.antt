-- ===== src/Backoff/Adapters.antt =====
-- backoff/backoff.go: the adapters for stateful sources. A source is a state with its step; the
-- factory `newB` gives a state of its own on every call, so it is the one start state.
use pg_outbox.Base.{
  ℕ, zero, suc, ◌≡◌, refl, Bool, false, ◌&&◌, ◌||◌, List, [], ◌∷◌, arith, if◌then◌else◌, ◌==◌,
}
use pg_outbox.Base.Int.{ℤ, pos, negsuc, pos_part, neg_part, ltb_ℤ}
use pg_outbox.Backoff.{Duration}

-- The sentinel of a source that gives up, `time.Duration(-1)`.
abbrev pub stop_delay : Duration
stop_delay = negsuc 0

abbrev pub is_stop : Duration → Bool
is_stop d = pos_part d == 0 && neg_part d == 1

-- `if attempt < 1 { attempt = 1 }`
abbrev pub rounds_of : ℤ → ℕ
rounds_of attempt = if ltb_ℤ attempt (pos 1) then 1 else pos_part attempt

module _ {S : Type 0} (next : S → Duration × S) where
  -- The loop of `FromNextBackOff`, with the rounds left and the last delay.
  pub advance : ℕ → Duration → S → Duration
  advance zero d s = d
  advance (suc n) d s =
      let (d', s') = next s in let rest = advance n d' s' in if is_stop d' then pos 0 else rest

  -- `FromNextBackOff`
  unfoldable pub from_next_back_off : S → ℤ → Duration
  unfolding advance
  from_next_back_off fresh attempt = advance (rounds_of attempt) (pos 0) fresh

  -- The first `n` delays that a source yields, and the state after them.
  abbrev pub delays : ℕ → S → List Duration
  delays zero s = []
  delays (suc n) s = (next s).0 ∷ delays n (next s).1

module _ {S : Type 0} (next : S → Duration × Bool × S) where
  -- The loop of `FromNexter`.
  pub advance_nexter : ℕ → Duration → S → Duration
  advance_nexter zero d s = d
  advance_nexter (suc n) d s =
      let (d', stop, s') = next s in
      let rest = advance_nexter n d' s' in if stop then pos 0 else rest

  -- `FromNexter`
  unfoldable pub from_nexter : S → ℤ → Duration
  unfolding advance_nexter
  from_nexter fresh attempt = advance_nexter (rounds_of attempt) (pos 0) fresh

abbrev pub any_stop : List Duration → Bool
any_stop [] = false
any_stop (d ∷ ds) = is_stop d || any_stop ds

abbrev pub last_or : Duration → List Duration → Duration
last_or d [] = d
last_or d (x ∷ xs) = last_or x xs

module _ {S : Type 0} (next : S → Duration × S) where
  advance-delays :
      (n : ℕ) (d : Duration) (s : S)
      → advance next n d s
        ≡ (if any_stop (delays next n s) then pos 0 else last_or d (delays next n s))
  unfolding advance
  advance-delays zero d s = refl
  advance-delays (suc n) d s = ground (arith, advance-delays n (next s).0 (next s).1)

  -- The delay of attempt n is the n-th delay of a fresh source, or 0 if one of the first n is Stop;
  -- an attempt below 1 counts as 1.
  pub from_next_back_off-delays :
      (fresh : S) (attempt : ℤ)
      → let ds = delays next (rounds_of attempt) fresh in
        from_next_back_off next fresh attempt ≡ (if any_stop ds then pos 0 else last_or (pos 0) ds)
  unfolding from_next_back_off
  from_next_back_off-delays fresh attempt = advance-delays (rounds_of attempt) (pos 0) fresh

  -- The two adapters agree on a source whose stop flag is raised exactly at Stop.
  pub from_nexter-from_next_back_off :
      (fresh : S) (attempt : ℤ)
      → from_nexter (λ s. ((next s).0, is_stop (next s).0, (next s).1)) fresh attempt
        ≡ from_next_back_off next fresh attempt
  unfolding from_nexter from_next_back_off
  from_nexter-from_next_back_off fresh attempt = go (rounds_of attempt) (pos 0) fresh
    where
      go :
          (n : ℕ) (d : Duration) (s : S)
          → advance_nexter (λ s. ((next s).0, is_stop (next s).0, (next s).1)) n d s
            ≡ advance next n d s
      go zero d s = refl
      go (suc n) d s = rw (go n (next s).0 (next s).1)
