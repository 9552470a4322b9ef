-- ===== src/Relay/Batch.antt =====
-- engine/relay.go: `processBatch`, `publish`, `heartbeat`, `isFatal`, `recovered` and `drain`.
use pg_outbox.Base.{
  ℕ, zero, suc, Bool, true, false, ◌||◌, Option, none, some, List, [], ◌∷◌, ◌++◌, if◌then◌else◌,
  length,
}
use pg_outbox.Config.{Settings}
use pg_outbox.Message.{Message}
use pg_outbox.Port.{
  Error, wrapped, panicked, fatal, batch, aborts, panics, batches, fatals, as_target, has,
}
use pg_outbox.Store.{ok, err, panic}
use pg_outbox.Store.Claim.{claim}
use pg_outbox.Store.Lease.{renew}
use pg_outbox.Relay.{
  Env, World, Beat, stops, cancels, ticks, M, Exit, returns, raises, return, raise, exec, next_call,
  context_live, nil_call, log_error, ◌>>=◌, ◌>>◌, Result,
}
use pg_outbox.Relay.Settle.{settle, settle_each}

-- `recovered`: a panic becomes a *PanicError.
abbrev pub recover : Exit (Option Error) × World → Exit (Option Error) × World
recover (returns e, w) = (returns e, w)
recover (raises v, w) = (returns (some (panicked v)), w)

abbrev pub recovered : M (Option Error) → M (Option Error)
recovered m w = recover (m w)

abbrev pub batch_in : Option Error → Option Error
batch_in none = none
batch_in (some e) = as_target batches e

abbrev pub fatal_of : Option Error → Option Error
fatal_of none = none
fatal_of (some e) = some (fatal e)

abbrev pub log : Error → M (Unit {0})
log e w =
    (returns tt, record w { events = w.events ++ log_error "outbox: relay batch failed" e ∷ [] })

abbrev pub unclassified : Option Error → Option Error
unclassified (some (fatal e)) = some e
unclassified _ = none

module _ (env : Env) (set : Settings) where
  -- What `heartbeat` does after a renewal: it goes on, or ends with the error. After a renewal that
  -- fails on a cancelled context it returns as well.
  abbrev pub after_renew : M (Option Error) → Result (Unit {0}) → M (Option Error)
  after_renew again (ok u) = again
  after_renew again (panic v) = raise v
  after_renew again (err e) = do
    n ← next_call
    return (if env.publisher_live n then some (wrapped "outbox: renew claims" e) else none)

  -- `heartbeat` over the turns of its select; it ends at a stop, a cancelled context or an error.
  unfoldable pub heartbeat : List Message → List Beat → M (Option Error)
  heartbeat msgs [] = return none
  heartbeat msgs (stops ∷ beats) = return none
  heartbeat msgs (cancels ∷ beats) = return none
  heartbeat msgs (ticks ∷ beats) =
      exec env (λ db t. renew db msgs set.lease_duration t) >>= after_renew (heartbeat msgs beats)

  -- The call of the publisher, which gets a copy of the batch.
  abbrev pub call_publisher : List Message → M (Option Error)
  call_publisher msgs = do
    n ← next_call
    elim (env.publishes n msgs) [ ok e ↦ return e | err e ↦ return (some e) | panic v ↦ raise v ]

  -- `publish`: the publisher's error, and the error of the heartbeat that ran beside it.
  unfoldable pub publish : List Message → M (Option Error × Option Error)
  publish msgs = do
    n ← next_call
    lease_err ← recovered (heartbeat msgs (env.beats n))
    perr ← call_publisher msgs
    return (perr, lease_err)

  -- `set.Fatal(err)`
  abbrev pub classify : Error → M Bool
  classify e = elim set.fatal [ none ↦ raise nil_call | some f ↦ return (f e) ]

  -- `isFatal`
  unfoldable pub is_fatal : Error → M Bool
  is_fatal e =
      if has aborts e || has panics e
      then return true
      else do live ← context_live env; if live then classify e else return false

  abbrev pub is_fatal_maybe : Option Error → M Bool
  is_fatal_maybe none = return false
  is_fatal_maybe (some e) = is_fatal e

  -- `errors.As(perr, &batch)`, and the completion that follows.
  abbrev pub settle_batch : List Message → Option Error → Option Error → M (Option Error)
  settle_batch msgs perr (some (batch os others)) = settle_each env set msgs os others
  settle_batch msgs perr _ = settle env set msgs perr

  -- A lease that was lost leaves the batch as it is.
  abbrev pub settle_unless : Option Error → List Message → Option Error → M (ℕ × Option Error)
  settle_unless (some e) msgs perr = return (length msgs, some e)
  settle_unless none msgs perr = do
    e ← settle_batch msgs perr (batch_in perr)
    return (length msgs, e)

  -- `processBatch` once the rows are published.
  unfoldable pub conclude : List Message → Option Error → Option Error → M (ℕ × Option Error)
  conclude msgs perr lease_err = do
    stop ← is_fatal_maybe perr
    if stop then return (length msgs, fatal_of perr) else settle_unless lease_err msgs perr

  -- `processBatch` once the claim has answered.
  abbrev pub after_claim : Result (List Message) → M (ℕ × Option Error)
  after_claim (err e) = return (0, some e)
  after_claim (panic v) = raise v
  after_claim (ok []) = return (0, none)
  after_claim (ok (m ∷ ms)) = do
    (perr, lease_err) ← publish (m ∷ ms)
    conclude (m ∷ ms) perr lease_err

  -- `processBatch`
  unfoldable pub process_batch : M (ℕ × Option Error)
  process_batch = exec env (λ db t. claim env.json db set t) >>= after_claim

  -- What `drain` does with an error of a pass.
  unfoldable pub drain_error : Error → M (Option Error)
  drain_error e = elim (unclassified (as_target fatals e)) [
    | some inner ↦ return (some inner)
    | none ↦ do stop ← is_fatal e; if stop then return (some e) else do log e; return none
  ]

  -- What follows a pass: an error, an empty queue, or the next pass.
  abbrev pub after_pass : M (Option (Option Error)) → ℕ × Option Error → M (Option (Option Error))
  after_pass again (n, some e) = do r ← drain_error e; return (some r)
  after_pass again (zero, none) = return (some none)
  after_pass again (suc n, none) = again

  -- `drain`, with fuel for the passes; `none` outside means that the fuel ran out.
  unfoldable pub drain : ℕ → M (Option (Option Error))
  drain zero = return none
  drain (suc fuel) = do
    live ← context_live env
    elim live [ false ↦ return (some none) | true ↦ process_batch >>= after_pass (drain fuel) ]
