-- ===== src/Relay/Keeps/Settling.antt =====
-- `complete`, `settle` and `settleEach` keep to every relation that the right completions of the batch's
-- messages keep to.
use mathlib.Core.List.{Memᴰ}
use pg_outbox.Base.{
  ◌≡◌, refl, sym, ap, false, All, All-imp, ℕ, Option, none, some, List, [], ◌∷◌, ◌==◌,
  if◌then◌else◌, length,
}
use pg_outbox.Relay.Verdict.{verdict, IsRight}
use pg_outbox.Base.Int.{pos, leb_ℤ}
use pg_outbox.Backoff.{Duration}
use pg_outbox.Relay.Settle.{
  each, report, report_all, report_with, call_backoff, backoff_at, finish_batch, complete,
  settle_one, settle_loop, settle_error, settle, limit_of, delay_in, push, join_errors, retry_delay,
  after_finish, reason_of,
}
use pg_outbox.Config.{Settings, HookSet, BackoffFunc}
use pg_outbox.Message.{Message, Status, pending, processing, published, dead, discarded}
use pg_outbox.Port.{
  Error, any, lease_lost, no_errors, has, as_target, permanents, discards, retries,
}
use pg_outbox.Table.{Table}
use pg_outbox.Store.{Db, Result, ok, err, panic}
use pg_outbox.Store.Lease.{Completion, finish}
use pg_outbox.Relay.{nil_call, Env, Event, M, return, raise, observe, next_call, ◌>>=◌}
use pg_outbox.Relay.Stale.{completion}
use pg_outbox.Relay.Keeps.{
  TableOrder, Keeps-cases, Keeps, OthersKeep, Keeps-return, Keeps-raise, Keeps-if, Keeps-bind,
  Keeps-next_call, Keeps-exec, Keeps-observe,
}

module _ (env : Env) (set : Settings) (o : TableOrder) where
  Keeps-each : (f : Message → Event) (ms : List Message) → Keeps o (each env set f ms)
  unfolding each
  Keeps-each f [] = Keeps-return tt
  Keeps-each f (m ∷ ms) =
      Keeps-bind (observe env (f m)) (λ _. each env set f ms) (Keeps-observe env o (f m))
        (λ _. Keeps-each f ms)

  Keeps-report :
      (h : HookSet) (status : Status) (cause : Option Error) (ms : List Message)
      → Keeps o (report env set h status cause ms)
  unfolding report
  Keeps-report h published cause ms = Keeps-observe env o _
  Keeps-report h discarded cause ms =
      Keeps-if h.observes_discards (Keeps-observe env o _) (Keeps-return tt)
  Keeps-report h dead cause ms = Keeps-each _ ms
  Keeps-report h pending cause ms = Keeps-each _ ms
  Keeps-report h processing cause ms = Keeps-return tt

  pub Keeps-report_all :
      (status : Status) (cause : Option Error) (ms : List Message)
      → Keeps o (report_all env set status cause ms)
  unfolding report_all
  Keeps-report_all status cause [] = Keeps-return tt
  Keeps-report_all status cause (m ∷ ms) = with_hooks set.hooks
    where
      with_hooks :
          (hooks : Option HookSet) → Keeps o (report_with env set hooks status cause (m ∷ ms))
      with_hooks none = Keeps-raise nil_call
      with_hooks (some h) = Keeps-report h status cause (m ∷ ms)

  Keeps-after_finish :
      (msgs : List Message) (status : Status) (cause : Option Error) (r : Result (List Message))
      → Keeps o (after_finish env set msgs status cause r)
  Keeps-after_finish msgs status cause (ok completed) =
      Keeps-bind (report_all env set status cause completed)
        (λ _. return (if length completed == length msgs then none else some lease_lost))
        (Keeps-report_all status cause completed) (λ _. Keeps-return _)
  Keeps-after_finish msgs status cause (err e) = Keeps-return _
  Keeps-after_finish msgs status cause (panic v) = Keeps-raise v

  pub Keeps-backoff_at : (m : Message) → Keeps o (backoff_at env set m)
  Keeps-backoff_at m =
      Keeps-bind next_call (call_backoff env set set.backoff m) Keeps-next_call (asked set.backoff)
    where
      answered :
          (n : ℕ) (delay : Option Duration)
          → Keeps o (elim delay as (λ _. M Duration) [
            | none ↦ raise (any "invalid argument to Int64N")
            | some d ↦ return d
          ])
      answered n none = Keeps-raise _
      answered n (some d) = Keeps-return d

      asked : (b : Option BackoffFunc) (n : ℕ) → Keeps o (call_backoff env set b m n)
      asked none n = Keeps-raise nil_call
      asked (some b) n = answered n (b (env.draws n) (pos m.attempts))

-- The rows of a completion of messages of the batch, each with the state and reason of its outcome, keep
-- to the relation.
abbrev pub RightKeeps :
    Env → Settings → TableOrder → List Message → (Message → Option Error) → Type 0
RightKeeps env set o batch outcome =
    (ms : List Message) (c : Completion) (db : Db) (t : Table)
    → All (λ m. Memᴰ m batch × IsRight set (outcome m) m c) ms
    → o.Rel t (finish env.json db ms c t).0

-- Messages of the batch with one outcome.
abbrev pub AllHave : List Message → (Message → Option Error) → Option Error → List Message → Type 0
AllHave batch outcome perr = All (λ m. Memᴰ m batch × (outcome m ≡ perr))

module _ (env : Env) (set : Settings) (o : TableOrder) (batch : List Message)
    (outcome : Message → Option Error) (others_keep : OthersKeep env o)
    (right_keeps : RightKeeps env set o batch outcome) where
  Keeps-complete :
      (msgs : List Message) (status : Status) (cause : Option Error) (delay : Duration)
      → All (λ m. Memᴰ m batch × IsRight set (outcome m) m (completion set status cause delay)) msgs
      → Keeps o (complete env set msgs status cause delay)
  unfolding complete
  Keeps-complete msgs status cause delay right =
      Keeps-bind (finish_batch env set msgs status cause delay)
        (after_finish env set msgs status cause)
        (Keeps-exec env o (λ db t. finish env.json db msgs (completion set status cause delay) t)
          others_keep (λ db t. right_keeps msgs (completion set status cause delay) db t right))
        (Keeps-after_finish env set o msgs status cause)

  -- One state for all, the verdict on each of them.
  Keeps-complete_all :
      (msgs : List Message) (status : Status) (perr : Option Error) (delay : Duration)
      → ((m : Message) → verdict set perr m ≡ status)
      → AllHave batch outcome perr msgs
      → Keeps o (complete env set msgs status perr delay)
  Keeps-complete_all msgs status perr delay v h =
      Keeps-complete msgs status perr delay
        (All-imp (λ m q. (q.0, (rw (q.1) (sym (v m)), ap reason_of (sym (q.1))))) msgs h)

  pub Keeps-settle_one :
      (perr : Error) (least : Option Duration) (m : Message)
      → has permanents perr ≡ false
      → has discards perr ≡ false
      → Memᴰ m batch × (outcome m ≡ some perr)
      → Keeps o (settle_one env set perr least m)
  unfolding settle_one verdict
  Keeps-settle_one perr least m np nd h =
      Keeps-cases (leb_ℤ (limit_of env set m) (pos m.attempts))
        (λ spent.
          Keeps-complete (m ∷ []) dead (some perr) (pos 0)
            ((h.0, (rw (h.1, np, nd, spent) refl, ap reason_of (sym (h.1)))), tt))
        (λ unspent.
          Keeps-bind (backoff_at env set m)
            (λ d. complete env set (m ∷ []) pending (some perr) (retry_delay d least))
            (Keeps-backoff_at env set o m)
            (λ d.
              Keeps-complete (m ∷ []) pending (some perr) (retry_delay d least)
                ((h.0, (rw (h.1, np, nd, unspent) refl, ap reason_of (sym (h.1)))), tt)))

  pub Keeps-settle_loop :
      (perr : Error) (least : Option Duration) (ms : List Message)
      → has permanents perr ≡ false
      → has discards perr ≡ false
      → AllHave batch outcome (some perr) ms
      → Keeps o (settle_loop env set perr least ms)
  unfolding settle_loop
  Keeps-settle_loop perr least [] np nd h = Keeps-return no_errors
  Keeps-settle_loop perr least (m ∷ ms) np nd h =
      Keeps-bind (settle_one env set perr least m)
        (λ e. settle_loop env set perr least ms >>= λ es. return (push e es))
        (Keeps-settle_one perr least m np nd h.0)
        (λ e.
          Keeps-bind (settle_loop env set perr least ms) (λ es. return (push e es))
            (Keeps-settle_loop perr least ms np nd h.1) (λ es. Keeps-return (push e es)))

  pub Keeps-settle :
      (msgs : List Message) (perr : Option Error)
      → AllHave batch outcome perr msgs
      → Keeps o (settle env set msgs perr)
  unfolding settle settle_error verdict
  Keeps-settle [] perr h = Keeps-return none
  Keeps-settle (m ∷ ms) none h = Keeps-complete_all (m ∷ ms) published none (pos 0) (λ x. refl) h
  Keeps-settle (m ∷ ms) (some perr) h =
      Keeps-cases (has permanents perr)
        (λ p. Keeps-complete_all (m ∷ ms) dead (some perr) (pos 0) (λ x. rw p refl) h)
        (λ np.
          Keeps-cases (has discards perr)
            (λ d.
              Keeps-complete_all (m ∷ ms) discarded (some perr) (pos 0) (λ x. rw (np, d) refl) h)
            (λ nd.
              Keeps-bind (settle_loop env set perr (delay_in (as_target retries perr)) (m ∷ ms))
                (λ es. return (join_errors es))
                (Keeps-settle_loop perr (delay_in (as_target retries perr)) (m ∷ ms) np nd h)
                (λ es. Keeps-return (join_errors es))))
