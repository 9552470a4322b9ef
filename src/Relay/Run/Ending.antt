-- ===== src/Relay/Run/Ending.antt =====
-- The relay comes to its end once its context is done.
use pg_outbox.Base.{ℕ, zero, suc, Bool, true, Option, List, ◌∷◌}
use pg_outbox.Port.{Error}
use pg_outbox.Relay.Run.{Goroutine, returning, ended, Running, Turn, Moved, fail}

-- A state whose context is done.
abbrev done : Bool → Option Error → Bool → List Goroutine → Running
done parent failure wake gs = record {
  parent = parent;
  cancelled = true;
  failure = failure;
  wake = wake;
  goroutines = gs;
}

-- Some ended goroutines before the others.
abbrev behind_ended : ℕ → List Goroutine → List Goroutine
behind_ended zero gs = gs
behind_ended (suc n) gs = behind_ended n (ended ∷ gs)

-- The turns that start nothing: the end of a pass, of a wait or of a connection, and the turns that the
-- done context brings. No pass fails in them and the listener does not panic.
abbrev pub IsCalm : {c w v : Bool} {g h : Goroutine} → Turn c w g h v → Type 0
IsCalm Turn.worker_done = Unit {0}
IsCalm Turn.pass_ended = Unit {0}
IsCalm Turn.listen_done = Unit {0}
IsCalm Turn.refused = Unit {0}
IsCalm Turn.disconnected = Unit {0}
IsCalm Turn.lost_at_end = Unit {0}
IsCalm Turn.paused = Unit {0}
IsCalm Turn.ticked = ⊥
IsCalm Turn.woken = ⊥
IsCalm (Turn.pass_failed e) = ⊥
IsCalm Turn.listen_once = ⊥
IsCalm Turn.listens = ⊥
IsCalm Turn.notified = ⊥
IsCalm Turn.lost_warned = ⊥
IsCalm (Turn.listen_panicked v k) = ⊥

-- The states that calm turns and the ends of goroutines lead to.
pub data Closing (s : Running) : Running → Type 0 where
  starts : Closing s s
  turns :
      {t : Running} {g h : Goroutine} {w : Bool} {gs : List Goroutine}
      → Closing s t
      → (turn : Turn t.cancelled t.wake g h w) → IsCalm turn
      → Moved g h t.goroutines gs
      → Closing s (record t { wake = w; goroutines = gs })
  fails :
      {t : Running} {e : Option Error} {gs : List Goroutine}
      → Closing s t
      → Moved (returning e) ended t.goroutines gs
      → Closing s (fail e (record t { goroutines = gs }))

module _ (start : Running) (parent : Bool) (n : ℕ) (gs : List Goroutine) where
  -- The goroutine behind the ended ones is at `g`.
  abbrev At : Option Error → Bool → Goroutine → Type 0
  At f w g = Closing start (done parent f w (behind_ended n (g ∷ gs)))

  abbrev Closes : Type 0
  Closes = (f : Option Error) × (w : Bool) × At f w ended
