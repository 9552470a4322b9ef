-- ===== src/Outbox/Run.antt =====
-- outbox.go: `Outbox.Run`, with the relay and the cleaner beside it. Each sends what it returns to a
-- channel, from which `Run` takes two answers.
pub mod First
pub mod Returns
use pg_outbox.Base.{
  ℕ, suc, ◌≡◌, Bool, true, false, not, ◌||◌, Option, none, some, List, [], ◌∷◌, ◌++◌,
}
use pg_outbox.Message.{is_nil}
use pg_outbox.Port.{Error, or_else}
use pg_outbox.Config.{Settings}
use pg_outbox.Cleaner.{enabled}
use pg_outbox.Relay.Run.{Running, cancel_parent, run_started, all_ended}
use pg_outbox.Relay.Run

-- `outer` is what `ctx.Err()` gives; the context of both parts is done where the relay's parent is.
pub record Whole : Type 0 where
  pub outer : Option Error
  pub relay : Running
  pub relay_sent : Bool
  pub cleaner_sent : Bool
  pub channel : List (Option Error)
  pub received : ℕ
  pub failure : Option Error

unfoldable pub started : Settings → Bool → Option Error → Whole
started set pool outer = record {
  outer = outer;
  relay = run_started set pool (not (is_nil outer));
  relay_sent = false;
  cleaner_sent = false;
  channel = [];
  received = 0;
  failure = none;
}

-- What the cleaner can return: nil only where it has nothing to do or the context is done.
abbrev pub cleaner_returns : Settings → Bool → Option Error → Bool
cleaner_returns set done none = not (enabled set) || done
cleaner_returns set done (some e) = enabled set

-- The body of the loop over the two answers.
unfoldable pub receive : Option Error → Whole → Whole
receive none s = s
receive (some e) s = elim s.failure [
  | none ↦ record s { failure = some e; relay = cancel_parent s.relay }
  | some first ↦ s
]

pub data Step (set : Settings) : Whole → Whole → Type 0 where
  outer_done :
      (s : Whole) (why : Error)
      → s.outer ≡ none
      → Step set s (record s { outer = some why; relay = cancel_parent s.relay })
  relay_goes : (s : Whole) {r : Running} → Run.Step s.relay r → Step set s (record s { relay = r })
  relay_ends :
      (s : Whole)
      → s.relay_sent ≡ false
      → all_ended s.relay.goroutines ≡ true
      → Step set s (record s { relay_sent = true; channel = s.channel ++ s.relay.failure ∷ [] })
  cleaner_ends :
      (s : Whole) (e : Option Error)
      → s.cleaner_sent ≡ false
      → cleaner_returns set s.relay.parent e ≡ true
      → Step set s (record s { cleaner_sent = true; channel = s.channel ++ e ∷ [] })
  receives :
      (s : Whole) {e : Option Error} {rest : List (Option Error)}
      → s.channel ≡ e ∷ rest
      → Step set s (receive e (record s { channel = rest; received = suc s.received }))

pub data Reaches (set : Settings) (s : Whole) : Whole → Type 0 where
  starts : Reaches set s s
  steps : {t u : Whole} → Reaches set s t → Step set t u → Reaches set s u

-- What `Run` returns after the two answers.
unfoldable pub returned : Whole → Option Error
returned s = or_else s.failure s.outer
