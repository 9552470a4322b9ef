-- ===== src/Relay/Verdict.antt =====
-- What engine/relay.go promises of a batch that was published: the outcome of a message in the answer
-- of the publisher, and the state that it leads to.
pub mod Settled
pub mod Done
pub mod Completes
pub mod Whole
pub mod Each
pub mod Complete
pub mod Pass
pub mod Published
use pg_outbox.Base.{◌≡◌, Option, none, some, if◌then◌else◌}
use pg_outbox.Base.Int.{ℤ, pos, leb_ℤ}
use pg_outbox.Config.{Settings}
use pg_outbox.Message.{Message, Status, pending, published, dead, discarded}
use pg_outbox.Port.{Error, MaybeError, Outcomes, batch, permanents, discards, has, entry}
use pg_outbox.Relay.Settle.{maybe_of, reason_of}
use pg_outbox.Relay.Batch.{batch_in}
use pg_outbox.Store.Lease.{Completion}

-- The message's own outcome in a batch error, or else the one of the rest.
abbrev pub outcome_in : Outcomes → MaybeError → Message → Option Error
outcome_in os others m = elim (entry m.id os) [ none ↦ maybe_of others | some e ↦ maybe_of e ]

-- The outcome of a message: a batch error that the answer holds has one for each, any other answer is
-- the outcome of all.
abbrev pub outcome_by : Option Error → Option Error → Message → Option Error
outcome_by perr (some (batch os others)) m = outcome_in os others m
outcome_by perr _ m = perr

abbrev pub outcome_of : Option Error → Message → Option Error
outcome_of perr = outcome_by perr (batch_in perr)

abbrev pub own_limit : Settings → Message → ℤ
own_limit set m = elim m.max_attempts [ none ↦ set.max_attempts | some own ↦ own ]

-- The state after the outcome.
unfoldable pub verdict : Settings → Option Error → Message → Status
verdict set none m = published
verdict set (some e) m =
    if has permanents e
    then dead
    else if has discards e
    then discarded
    else if leb_ℤ (own_limit set m) (pos m.attempts)
    then dead
    else pending

-- The completion gives the message the state and the reason of its outcome.
abbrev pub IsRight : Settings → Option Error → Message → Completion → Type 0
IsRight set outcome m c = (c.status ≡ verdict set outcome m) × (c.reason ≡ reason_of outcome)
