-- ===== src/Relay/Run.antt =====
-- engine/relay.go: `Run`, `worker`, `listen` and `listenOnce`. Their goroutines take turns; a pass is
-- one turn from its start to its end, whatever it answers.
pub mod First
pub mod Ending
use pg_outbox.Base.{
  ◌≡◌, ℕ, zero, suc, Bool, true, false, ◌&&◌, Option, none, some, List, [], ◌∷◌, if◌then◌else◌,
}
use pg_outbox.Base.Int.{pos_part}
use pg_outbox.Port.{Error, PanicValue, panicked}
use pg_outbox.Config.{Settings}

-- Where a goroutine of the relay is.
pub data Goroutine : Type 0 where
  waiting : Goroutine  -- a worker in its select
  draining : Goroutine  -- a worker in a pass
  looping : Goroutine  -- the listener at the head of its loop
  connecting : Goroutine
  connected : Goroutine  -- in `WaitForNotification`
  lost : Goroutine  -- `listenOnce` has returned its error
  pausing : Goroutine  -- in the select with `time.After`
  returning : Option Error → Goroutine  -- what `recovered` returned, on its way to `fail`
  ended : Goroutine

abbrev pub is_listener : Goroutine → Bool
is_listener looping = true
is_listener connecting = true
is_listener connected = true
is_listener lost = true
is_listener pausing = true
is_listener _ = false

-- What the goroutines share: the contexts, the error, and the buffer of `wake`.
pub record Running : Type 0 where
  pub parent : Bool  -- whether the caller's context is done
  pub cancelled : Bool  -- whether the relay's own context is done
  pub failure : Option Error
  pub wake : Bool
  pub goroutines : List Goroutine

-- The turns of one goroutine: whether the context is done, and `wake` before and after.
pub data Turn : Bool → Bool → Goroutine → Goroutine → Bool → Type 0 where
  worker_done : {w : Bool} → Turn true w waiting (returning none) w
  ticked : {c w : Bool} → Turn c w waiting draining w
  woken : {c : Bool} → Turn c true waiting draining false
  pass_ended : {c w : Bool} → Turn c w draining waiting w
  pass_failed : {c w : Bool} (e : Error) → Turn c w draining (returning (some e)) w
  listen_done : {w : Bool} → Turn true w looping (returning none) w
  listen_once : {w : Bool} → Turn false w looping connecting w
  refused : {c w : Bool} → Turn c w connecting lost w
  listens : {c w : Bool} → Turn c w connecting connected w
  notified : {c w : Bool} → Turn c w connected connected true
  disconnected : {c w : Bool} → Turn c w connected lost w
  lost_at_end : {w : Bool} → Turn true w lost looping w
  lost_warned : {w : Bool} → Turn false w lost pausing w
  paused : {c w : Bool} → Turn c w pausing looping w
  listen_panicked :
      {c w : Bool} {g : Goroutine} (v : PanicValue)
      → is_listener g ≡ true
      → Turn c w g (returning (some (panicked v))) w

-- One goroutine of a list goes from one place to another.
pub data Moved (g h : Goroutine) : List Goroutine → List Goroutine → Type 0 where
  this_one : {gs : List Goroutine} → Moved g h (g ∷ gs) (h ∷ gs)
  later_one :
      {k : Goroutine} {gs hs : List Goroutine} → Moved g h gs hs → Moved g h (k ∷ gs) (k ∷ hs)

-- `fail`: the first error is kept, and cancels the context.
unfoldable pub fail : Option Error → Running → Running
fail none s = s
fail (some e) s = elim s.failure [
  | none ↦ record s { failure = some e; cancelled = true }
  | some first ↦ s
]

-- The caller's context is done, and with it the relay's.
unfoldable pub cancel_parent : Running → Running
cancel_parent s = record s { parent = true; cancelled = true }

-- A goroutine's turn, or the end of one with its `fail`.
pub data Step : Running → Running → Type 0 where
  turns :
      (s : Running) {g h : Goroutine} {w : Bool} {gs : List Goroutine}
      → Turn s.cancelled s.wake g h w
      → Moved g h s.goroutines gs
      → Step s (record s { wake = w; goroutines = gs })
  fails :
      (s : Running) {e : Option Error} {gs : List Goroutine}
      → Moved (returning e) ended s.goroutines gs
      → Step s (fail e (record s { goroutines = gs }))

pub data Reaches (s : Running) : Running → Type 0 where
  starts : Reaches s s
  steps : {t u : Running} → Reaches s t → Step t u → Reaches s u
  parent_done : {t : Running} → Reaches s t → Reaches s (cancel_parent t)

unfoldable pub workers : ℕ → List Goroutine
workers zero = []
workers (suc n) = waiting ∷ workers n

-- The goroutines that `Run` starts; `pool` is whether the store has one.
unfoldable pub run_started : Settings → Bool → Bool → Running
run_started set pool parent = record {
  parent = parent;
  cancelled = parent;
  failure = none;
  wake = false;
  goroutines =
      if set.notify && pool
      then looping ∷ workers (pos_part set.concurrency)
      else workers (pos_part set.concurrency);
}

abbrev pub has_ended : Goroutine → Bool
has_ended ended = true
has_ended _ = false

-- `wg.Wait()` returns when all have ended, and `Run` then returns what `failure` holds.
unfoldable pub all_ended : List Goroutine → Bool
all_ended [] = true
all_ended (g ∷ gs) = has_ended g && all_ended gs
