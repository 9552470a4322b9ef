-- ===== src/Relay/Settle.antt =====
-- engine/relay.go: `settleEach`, `settle` and `complete`.
use pg_outbox.Base.{
  ℕ, Bool, true, false, Option, none, some, List, [], ◌∷◌, ◌==◌, if◌then◌else◌, length, select,
}
use pg_outbox.Config.{BackoffFunc, Settings, HookSet}
use pg_outbox.Base.Int.{ℤ, pos, ltb_ℤ, leb_ℤ}
use Prim.Native.String.{String}
use pg_outbox.Backoff.{Duration}
use pg_outbox.Message.{Message, Status, pending, processing, published, dead, discarded}
use pg_outbox.Port.{
  any, Error, MaybeError, Errors, Outcomes, nil, just, no_errors, more, joined, retry_after,
  lease_lost, permanents, retries, discards, as_target, has, entry,
}
use pg_outbox.Port.Text.{text}
use pg_outbox.Store.{ok, err, panic}
use pg_outbox.Store.Lease.{finish}
use pg_outbox.Relay.{
  Env, Event, M, return, raise, exec, observe, next_call, nil_call, ◌>>=◌, ◌>>◌, on_published,
  on_discarded, on_dead, on_failed, Result,
}

-- `errors.Join`: nil errors are dropped, and nothing is left if all are nil.
abbrev pub push : Option Error → Errors → Errors
push none es = es
push (some e) es = more e es

abbrev pub join_errors : Errors → Option Error
join_errors no_errors = none
join_errors (more e es) = some (joined (more e es))

abbrev pub maybe_of : MaybeError → Option Error
maybe_of nil = none
maybe_of (just e) = some e

-- `cause.Error()`, or the empty text.
abbrev pub reason_of : Option Error → String
reason_of none = ""
reason_of (some e) = text e

-- The delay of a retry, from the configured backoff and the minimum that the outcome asks for.
unfoldable pub retry_delay : Duration → Option Duration → Duration
retry_delay backoff least =
    let delay = if ltb_ℤ backoff (pos 0) then pos 0 else backoff in
    elim least [ none ↦ delay | some d ↦ if ltb_ℤ delay d then d else delay ]

-- `retry.Delay` of the RetryAfterError that `errors.As` finds.
abbrev pub delay_in : Option Error → Option Duration
delay_in (some (retry_after e d)) = some d
delay_in _ = none

-- What `settleEach` does with one message.
pub data Share : Type 0 where
  publishes_it : Share
  takes_batch : Share
  has_own : Error → Share

-- `outcome, ok := batch.Outcomes[m.ID]`, and the switch.
abbrev pub share_of : Outcomes → MaybeError → Message → Share
share_of outcomes others m = elim (entry m.id outcomes) [
  | none ↦ elim others [ nil ↦ publishes_it | just e ↦ takes_batch ]
  | some nil ↦ publishes_it
  | some (just e) ↦ has_own e
]

abbrev pub is_published_share : Share → Bool
is_published_share publishes_it = true
is_published_share _ = false

abbrev pub is_batch_share : Share → Bool
is_batch_share takes_batch = true
is_batch_share _ = false

abbrev pub append_errors : Errors → Errors → Errors
append_errors no_errors fs = fs
append_errors (more e es) fs = more e (append_errors es fs)

module _ (env : Env) (set : Settings) where
  -- One call of a hook for each row.
  unfoldable pub each : (Message → Event) → List Message → M (Unit {0})
  each f [] = return tt
  each f (m ∷ ms) = do observe env (f m); each f ms

  -- The hooks that `complete` calls, each with the rows that were committed.
  unfoldable pub report : HookSet → Status → Option Error → List Message → M (Unit {0})
  unfolding each
  report h published cause ms = observe env (on_published ms)
  report h discarded cause ms =
      if h.observes_discards then observe env (on_discarded ms cause) else return tt
  report h dead cause ms = each on_dead ms
  report h pending cause ms = each (λ m. on_failed m cause) ms
  report h processing cause ms = return tt

  abbrev pub report_with : Option HookSet → Status → Option Error → List Message → M (Unit {0})
  report_with none status cause ms = raise nil_call
  report_with (some h) status cause ms = report h status cause ms

  -- `if len(completed) > 0 { switch status ... }`
  unfoldable pub report_all : Status → Option Error → List Message → M (Unit {0})
  report_all status cause [] = return tt
  report_all status cause (m ∷ ms) = report_with set.hooks status cause (m ∷ ms)

  -- The statement of `complete`.
  abbrev pub finish_batch :
      List Message → Status → Option Error → Duration → M (Result (List Message))
  finish_batch msgs status cause delay = exec env λ db t.
      finish env.json db msgs
        (record {
          status = status;
          reason = reason_of cause;
          delay = delay;
          clear = set.clear_payload_on_complete;
        })
        t

  -- What `complete` does with the committed rows.
  abbrev pub after_finish :
      List Message → Status → Option Error → Result (List Message) → M (Option Error)
  after_finish msgs status cause (err e) = return (some e)
  after_finish msgs status cause (panic v) = raise v
  after_finish msgs status cause (ok completed) = do
    report_all status cause completed
    return (if length completed == length msgs then none else some lease_lost)

  -- `complete`
  unfoldable pub complete : List Message → Status → Option Error → Duration → M (Option Error)
  complete msgs status cause delay =
      finish_batch msgs status cause delay >>= after_finish msgs status cause

  -- `max` for a message: its own limit, or the relay's.
  abbrev pub limit_of : Message → ℤ
  limit_of m = elim m.max_attempts [ none ↦ set.max_attempts | some own ↦ own ]

  abbrev pub call_backoff : Option BackoffFunc → Message → ℕ → M Duration
  call_backoff none m n = raise nil_call
  call_backoff (some b) m n = elim (b (env.draws n) (pos m.attempts)) [
    | none ↦ raise (any "invalid argument to Int64N")
    | some d ↦ return d
  ]

  -- `set.Backoff(m.Attempts)`
  abbrev pub backoff_at : Message → M Duration
  backoff_at m = next_call >>= call_backoff set.backoff m

  -- One round of the loop of `settle`: dead at the attempt limit, and a retry below it.
  unfoldable pub settle_one : Error → Option Duration → Message → M (Option Error)
  settle_one perr least m =
      if leb_ℤ (limit_of m) (pos m.attempts)
      then complete (m ∷ []) dead (some perr) (pos 0)
      else do d ← backoff_at m; complete (m ∷ []) pending (some perr) (retry_delay d least)

  unfoldable pub settle_loop : Error → Option Duration → List Message → M Errors
  settle_loop perr least [] = return no_errors
  settle_loop perr least (m ∷ ms) = do
    e ← settle_one perr least m
    es ← settle_loop perr least ms
    return (push e es)

  -- The switch of `settle` for an error, on a batch that is not empty.
  unfoldable pub settle_error : List Message → Error → M (Option Error)
  unfolding settle_loop
  settle_error msgs perr =
      if has permanents perr
      then complete msgs dead (some perr) (pos 0)
      else if has discards perr
      then complete msgs discarded (some perr) (pos 0)
      else do
        es ← settle_loop perr (delay_in (as_target retries perr)) msgs
        return (join_errors es)

  -- `settle`
  unfoldable pub settle : List Message → Option Error → M (Option Error)
  settle [] perr = return none
  settle (m ∷ ms) none = complete (m ∷ ms) published none (pos 0)
  settle (m ∷ ms) (some perr) = settle_error (m ∷ ms) perr

  -- The switch of `settleEach` for a message, with the rounds that follow.
  abbrev pub settle_share : Share → Message → M Errors → M Errors
  settle_share publishes_it m rest = rest
  settle_share takes_batch m rest = rest
  settle_share (has_own e) m rest = do r ← settle (m ∷ []) (some e); es ← rest; return (push r es)

  -- The loop of `settleEach`, which settles each message with an outcome of its own.
  unfoldable pub settle_own : Outcomes → MaybeError → List Message → M Errors
  settle_own os others [] = return no_errors
  settle_own os others (m ∷ ms) = settle_share (share_of os others m) m (settle_own os others ms)

  -- `settleEach`
  unfoldable pub settle_each : List Message → Outcomes → MaybeError → M (Option Error)
  unfolding settle_own
  settle_each msgs outcomes others = do
    errs ← settle_own outcomes others msgs
    a ← settle (select (λ m. is_published_share (share_of outcomes others m)) msgs) none
    b ← settle (select (λ m. is_batch_share (share_of outcomes others m)) msgs) (maybe_of others)
    return (join_errors (append_errors errs (push a (push b no_errors))))
