-- ===== src/Relay/Run/First.antt =====
-- What stops the relay, and which error `Run` returns.
use pg_outbox.Base.Int.{negsuc, ℤ, pos, pos_part, ◌≤ℤ◌}
use pg_outbox.Base.{
  ℕ, zero, suc, ◌≤◌, ◌≡◌, refl, ◌⊎◌, inl, inr, Bool, true, false, ◌&&◌, Option, none, some, List,
  [], ◌∷◌, arith, All, Bool-cases,
}
use pg_outbox.Port.{Error}
use pg_outbox.Config.{Settings}
use pg_outbox.Config.Bounds.{IsRunnable}
use pg_outbox.Relay.Run.{
  Goroutine, waiting, draining, looping, connecting, connected, lost, pausing, returning, ended,
  Running, Turn, Moved, this_one, later_one, fail, cancel_parent, Step, Reaches, workers,
  run_started, all_ended,
}

-- A goroutine that ends without an error, or has ended.
abbrev is_quiet : Goroutine → Bool
is_quiet (returning none) = true
is_quiet ended = true
is_quiet _ = false

abbrev is_empty : List Goroutine → Bool
is_empty [] = true
is_empty (g ∷ gs) = false

abbrev Quiet : Bool → List Goroutine → Type 0
Quiet c = All (λ (g : Goroutine). is_quiet g ≡ true → c ≡ true)

-- The context is done where there is a failure or a goroutine has ended, and it is done for a reason.
record IsSound (s : Running) : Type 0 where
  failed : (e : Error) → s.failure ≡ some e → s.cancelled ≡ true
  cancelled_by : s.cancelled ≡ true → (s.parent ≡ true) ⊎ ((e : Error) × s.failure ≡ some e)
  quiet : Quiet s.cancelled s.goroutines
  present : is_empty s.goroutines ≡ false

Turn-quiet : {c w v : Bool} {g h : Goroutine} → Turn c w g h v → is_quiet h ≡ true → c ≡ true
Turn-quiet Turn.worker_done k = refl
Turn-quiet Turn.listen_done k = refl
Turn-quiet Turn.ticked k = cc
Turn-quiet Turn.woken k = cc
Turn-quiet Turn.pass_ended k = cc
Turn-quiet (Turn.pass_failed e) k = cc
Turn-quiet Turn.listen_once k = cc
Turn-quiet Turn.refused k = cc
Turn-quiet Turn.listens k = cc
Turn-quiet Turn.notified k = cc
Turn-quiet Turn.disconnected k = cc
Turn-quiet Turn.lost_at_end k = refl
Turn-quiet Turn.lost_warned k = cc
Turn-quiet Turn.paused k = cc
Turn-quiet (Turn.listen_panicked v l) k = cc

Moved-Quiet :
    {c : Bool} {g h : Goroutine} {gs hs : List Goroutine}
    → Moved g h gs hs
    → (is_quiet h ≡ true → c ≡ true)
    → Quiet c gs
    → Quiet c hs
Moved-Quiet this_one p qs = (p, qs.1)
Moved-Quiet (later_one m) p qs = (qs.0, Moved-Quiet m p qs.1)

Moved-source :
    {c : Bool} {g h : Goroutine} {gs hs : List Goroutine}
    → Moved g h gs hs
    → Quiet c gs
    → is_quiet g ≡ true
    → c ≡ true
Moved-source this_one qs = qs.0
Moved-source (later_one m) qs = Moved-source m qs.1

Moved-present : {g h : Goroutine} {gs hs : List Goroutine} → Moved g h gs hs → is_empty hs ≡ false
Moved-present this_one = refl
Moved-present (later_one m) = refl

Quiet-true : {c : Bool} → c ≡ true → (gs : List Goroutine) → Quiet c gs
Quiet-true k [] = tt
Quiet-true k (g ∷ gs) = (λ q. k, Quiet-true k gs)

Step-IsSound : {s t : Running} → Step s t → IsSound s → IsSound t
unfolding fail
Step-IsSound (Step.turns s {g} {h} {w} {gs} turn move) v = record {
  failed = v.failed;
  cancelled_by = v.cancelled_by;
  quiet = Moved-Quiet move (Turn-quiet turn) v.quiet;
  present = Moved-present move;
}
Step-IsSound (Step.fails s {e = none} {gs} move) v = record {
  failed = v.failed;
  cancelled_by = v.cancelled_by;
  quiet = Moved-Quiet move (λ k. Moved-source move v.quiet refl) v.quiet;
  present = Moved-present move;
}
Step-IsSound (Step.fails s {e = some e} {gs} move) v = split s.failure refl
  where
    split :
        (f : Option Error) → s.failure ≡ f → IsSound (fail (some e) (record s { goroutines = gs }))
    split none k = rw k (record {
      failed = λ x j. refl;
      cancelled_by = λ j. inr (e, refl);
      quiet = Quiet-true refl gs;
      present = Moved-present move;
    })
    split (some first) k = rw k (record {
      failed = v.failed;
      cancelled_by = v.cancelled_by;
      quiet = Quiet-true (v.failed first k) gs;
      present = Moved-present move;
    })

Reaches-IsSound : {s t : Running} → Reaches s t → IsSound s → IsSound t
unfolding cancel_parent
Reaches-IsSound Reaches.starts v = v
Reaches-IsSound (Reaches.steps r x) v = Step-IsSound x (Reaches-IsSound r v)
Reaches-IsSound (Reaches.parent_done {t} r) v =
    let u : IsSound t = Reaches-IsSound r v in
    record {
      failed = λ e k. refl;
      cancelled_by = λ k. inl refl;
      quiet = Quiet-true refl t.goroutines;
      present = u.present;
    }

-- The error that `fail` has kept stays.
Step-failure : {s t : Running} (e : Error) → Step s t → s.failure ≡ some e → t.failure ≡ some e
unfolding fail
Step-failure e (Step.turns s turn move) k = k
Step-failure e (Step.fails s {e = none} move) k = k
Step-failure e (Step.fails s {e = some x} move) k = rw k refl

-- `Run` returns the first error that was given to `fail`: once an error is kept, whatever goroutines
-- fail later and whether the caller's context is done, it stays the one.
pub Reaches-failure :
    {s t : Running} (e : Error) → Reaches s t → s.failure ≡ some e → t.failure ≡ some e
unfolding cancel_parent
Reaches-failure e Reaches.starts k = k
Reaches-failure e (Reaches.steps r x) k = Step-failure e x (Reaches-failure e r k)
Reaches-failure e (Reaches.parent_done r) k = Reaches-failure e r k

workers-Quiet : (c : Bool) (n : ℕ) → Quiet c (workers n)
unfolding workers
workers-Quiet c zero = tt
workers-Quiet c (suc n) = (λ k. cc, workers-Quiet c n)

workers-present : (n : ℕ) → 1 ≤ n → is_empty (workers n) ≡ false
unfolding workers
workers-present zero h = absurd (omega arith)
workers-present (suc n) h = refl

run_started-IsSound :
    (set : Settings) (pool parent : Bool) → IsRunnable set → IsSound (run_started set pool parent)
unfolding run_started
run_started-IsSound set pool parent runs = record {
  failed = λ e k. cc;
  cancelled_by = λ k. inl k;
  quiet = elim (Bool-cases (set.notify && pool)) [
    | inl k ↦ rw k (λ q. cc, workers-Quiet parent n)
    | inr k ↦ rw k (workers-Quiet parent n)
  ];
  present = elim (Bool-cases (set.notify && pool)) [
    | inl k ↦ rw k refl
    | inr k ↦ rw k (workers-present n (at_least_one set.concurrency runs.works))
  ];
}
  where
    n : ℕ
    n = pos_part set.concurrency

    at_least_one : (c : ℤ) → pos 1 ≤ℤ c → 1 ≤ pos_part c
    at_least_one (pos m) h = omega arith
    at_least_one (negsuc m) h = omega arith

ended-cancelled :
    (c : Bool) (gs : List Goroutine)
    → is_empty gs ≡ false
    → all_ended gs ≡ true
    → Quiet c gs
    → c ≡ true
unfolding all_ended
ended-cancelled c [] k h q = cc
ended-cancelled c (ended ∷ gs) k h q = q.0 refl
ended-cancelled c (waiting ∷ gs) k h q = cc
ended-cancelled c (draining ∷ gs) k h q = cc
ended-cancelled c (looping ∷ gs) k h q = cc
ended-cancelled c (connecting ∷ gs) k h q = cc
ended-cancelled c (connected ∷ gs) k h q = cc
ended-cancelled c (lost ∷ gs) k h q = cc
ended-cancelled c (pausing ∷ gs) k h q = cc
ended-cancelled c (returning e ∷ gs) k h q = cc

-- `Run` returns nil only after the caller's context is done: whatever the goroutines do, when all of
-- them have ended, the caller's context is done or `Run` has an error to return. The settings are
-- ones that the engine can run on, so that there is at least one worker.
pub run_returns :
    (set : Settings) (pool parent : Bool) (t : Running)
    → IsRunnable set
    → Reaches (run_started set pool parent) t
    → all_ended t.goroutines ≡ true
    → (t.parent ≡ true) ⊎ ((e : Error) × t.failure ≡ some e)
run_returns set pool parent t runs r h =
    let v : IsSound t = Reaches-IsSound r (run_started-IsSound set pool parent runs) in
    v.cancelled_by (ended-cancelled t.cancelled t.goroutines v.present h v.quiet)
