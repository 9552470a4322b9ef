-- ===== src/Cleaner.antt =====
-- engine/cleaner.go: the loop of cleanup statements, and the runs of it at the ticks.
pub mod Sweep
pub mod Spares
pub mod Examples
use pg_outbox.Base.{
  ℕ, zero, suc, Bool, true, false, not, ◌&&◌, ◌||◌, Option, none, some, List, [], ◌∷◌, ◌++◌,
  if◌then◌else◌,
}
use pg_outbox.Base.Int.{pos, ltb_ℤ, leb_ℤ}
use pg_outbox.Config.{Settings}
use pg_outbox.Port.{Error, panicked}
use pg_outbox.Store.{ok, err, panic, Result}
use pg_outbox.Store.Upkeep.{cleanup}
use pg_outbox.Relay.{
  Env, World, M, Exit, returns, raises, return, raise, exec, observe, on_cleanup, context_live,
  nil_call, log_error, ◌>>=◌, ◌>>◌,
}
use pg_outbox.Relay.Batch.{is_fatal}

-- What the select of `run` took: the context that is done, or a tick.
pub data Turn : Type 0 where
  done tick : Turn

-- Whether `run` does anything.
unfoldable pub enabled : Settings → Bool
enabled set = not (
    leb_ℤ set.cleanup_interval (pos 0)
    || (leb_ℤ set.retention (pos 0)
        && leb_ℤ set.dead_retention (pos 0)
        && leb_ℤ set.discard_retention (pos 0)))

module _ (env : Env) (set : Settings) where
  abbrev pub log : Error → M (Unit {0})
  log e w =
      (returns tt, record w { events = w.events ++ log_error "outbox: cleanup failed" e ∷ [] })

  -- `if n > 0 { set.Hooks.OnCleanup(ctx, n) }`
  abbrev pub tell : ℕ → M (Unit {0})
  tell zero = return tt
  tell (suc n) = elim set.hooks [
    | none ↦ raise nil_call
    | some h ↦ observe env (on_cleanup (suc n))
  ]

  -- What follows the statement: the end of the loop with what it returns, or `none` for one more
  -- statement.
  abbrev pub after_cleanup : Result ℕ → M (Option (Option Error))
  after_cleanup (err e) = do
    stop ← is_fatal env set e
    if stop then return (some (some e)) else do log e; return (some none)
  after_cleanup (panic v) = raise v
  after_cleanup (ok n) = do
    tell n
    return (if ltb_ℤ (pos n) set.batch_size then some none else none)

  -- The body of the inner loop.
  unfoldable pub clean_once : M (Option (Option Error))
  clean_once = exec env (λ db t. cleanup db set t) >>= after_cleanup

  abbrev pub go_on : M (Option (Option Error)) → Option (Option Error) → M (Option (Option Error))
  go_on again none = again
  go_on again (some end) = return (some end)

  -- The inner loop, with fuel for its statements; `none` means that the fuel ran out.
  unfoldable pub sweep : ℕ → M (Option (Option Error))
  sweep zero = return none
  sweep (suc fuel) = do
    live ← context_live env
    elim live [ false ↦ return (some none) | true ↦ clean_once >>= go_on (sweep fuel) ]

  abbrev pub next_turn :
      M (Option (Option Error)) → Option (Option Error) → M (Option (Option Error))
  next_turn again (some none) = again
  next_turn again end = return end

  -- The outer loop over the turns that the select takes.
  unfoldable pub turns_of : ℕ → List Turn → M (Option (Option Error))
  turns_of fuel [] = return (some none)
  turns_of fuel (done ∷ turns) = return (some none)
  turns_of fuel (tick ∷ turns) = sweep fuel >>= next_turn (turns_of fuel turns)

  abbrev pub recover_run :
      Exit (Option (Option Error)) × World → Exit (Option (Option Error)) × World
  recover_run (returns e, w) = (returns e, w)
  recover_run (raises v, w) = (returns (some (some (panicked v))), w)

  -- `Cleaner.Run`
  unfoldable pub run : ℕ → List Turn → M (Option (Option Error))
  run fuel turns w =
      recover_run (if enabled set then turns_of fuel turns w else (returns (some none), w))
