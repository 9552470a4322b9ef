-- ===== src/Port/Examples.antt =====
-- `errors.As` on concrete errors.
use pg_outbox.Base.{◌↔◌, ◌≡◌, refl, true, some}
use pg_outbox.Base.Int.{pos}
use pg_outbox.Port.{
  Error, Outcomes, plain, wrapped, retry_after, abort, batch, nil, just, no_outcomes, outcome,
  aborts, retries, has, as_target, matches,
}
use pg_outbox.Port.Search.{Within, as_target_iff}

-- An entry that succeeded, and one that asks for an abort.
abbrev outcomes : Outcomes
outcomes = outcome "a" nil (outcome "b" (just (abort (just (plain "broker gone")))) no_outcomes)

as_target_iff_example :
    ((has aborts (wrapped "adapter" (batch outcomes nil)) ≡ true) ↔ (
      (x : Error) × Within (wrapped "adapter" (batch outcomes nil)) x × (matches aborts x ≡ true)))
    × ((x : Error)
        → as_target aborts (wrapped "adapter" (batch outcomes nil)) ≡ some x
        → Within (wrapped "adapter" (batch outcomes nil)) x × (matches aborts x ≡ true))
as_target_iff_example = as_target_iff aborts (wrapped "adapter" (batch outcomes nil))

-- A delay behind a wrapping is found.
finds_delay :
    as_target retries (wrapped "adapter" (retry_after nil (pos 60)))
    ≡ some (retry_after nil (pos 60))
unfolding as_target
finds_delay = refl
