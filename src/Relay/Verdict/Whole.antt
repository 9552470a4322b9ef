-- ===== src/Relay/Verdict/Whole.antt =====
-- `complete` and `settle` settle all of their messages whenever they report no error.
use mathlib.Core.List.{Memᴰ}
use pg_outbox.Base.{
  ℕ, ◌≡◌, refl, ap, ◌∙◌, subst, sym, ◌⊎◌, inl, inr, false, Option, none, some, List, [], ◌∷◌, All,
  All-imp,
}
use pg_outbox.Base.Int.{pos, leb_ℤ}
use pg_outbox.Backoff.{Duration}
use pg_outbox.Config.{Settings}
use pg_outbox.Message.{Message, Status, pending, published, dead, discarded}
use pg_outbox.Port.{Error, Errors, has, permanents, discards, as_target, retries}
use pg_outbox.Table.{Table}
use pg_outbox.Table.Rows.{UniqueIds, All-mem}
use pg_outbox.Store.Lease.{claim_keys, finish}
use pg_outbox.Store.Lease.Count.{UniqueKeys}
use pg_outbox.Store.Lease.Renewal.{HasLease, length-owned_full}
use pg_outbox.Relay.{Env, World, returns}
use pg_outbox.Relay.Settle.{
  finish_batch, after_finish, complete, settle_one, settle_loop, settle_error, settle, limit_of,
  delay_in, push, join_errors, retry_delay, backoff_at, reason_of,
}
use pg_outbox.Relay.Stale.{completion}
use pg_outbox.Relay.Returns.{>>=-returns, exec-returns, push-none}
use pg_outbox.Relay.Keeps.Reporting.{finish-ran, after_finish-returns}
use pg_outbox.Relay.Verdict.{IsRight, verdict}
use pg_outbox.Relay.Verdict.Done.{
  DoneIn, progress, finish_rows-Done, alone-progress, right_progress,
}
use pg_outbox.Relay.Verdict.Completes.{
  Completes, NoError, Completes-nothing, Completes-cases, Completes-then, Completes-both,
  Completes-after,
}
use pg_outbox.Relay.Keeps.Settling.{AllHave, Keeps-backoff_at, Keeps-settle_one, Keeps-settle_loop}

abbrev pub NoErrors : Errors → Type 0
NoErrors es = join_errors es ≡ none

module _ (env : Env) (set : Settings) (batch : List Message) (outcome : Message → Option Error)
    (alone : (n : ℕ) (t : Table) → env.between n t ≡ t) where
  pub Completes-complete :
      (m : Message) (ms : List Message) (status : Status) (cause : Option Error) (delay : Duration)
      → UniqueKeys (claim_keys (m ∷ ms))
      → All (λ x. IsRight set (outcome x) x (completion set status cause delay)) (m ∷ ms)
      → Completes set outcome NoError
          (λ x. Memᴰ x (m ∷ ms))
          (complete env set (m ∷ ms) status cause delay)
  unfolding complete
  Completes-complete m ms status cause delay keys right = record { at = run }
    where
      run :
          (w u : World) (e : Option Error)
          → complete env set (m ∷ ms) status cause delay w ≡ (returns e, u)
          → NoError e
          → UniqueIds w.table.rows
          → (x : Message) → Memᴰ x (m ∷ ms)
          → DoneIn set outcome w.table u.table x
      run w u e h c unique x inside =
          let (r, v, ran, rest) =
            >>=-returns (finish_batch env set (m ∷ ms) status cause delay)
              (after_finish env set (m ∷ ms) status cause) w u h in
          let (completed, done, full, told) =
            after_finish-returns env set (m ∷ ms) status cause r v u
              (rest ∙ ap (λ (o : Option Error). (returns o, u)) c) in
          let (answer, left) =
            exec-returns env
              (λ db t. finish env.json db (m ∷ ms) (completion set status cause delay) t) w v ran in
          let (whole, many) =
            finish-ran env.json (env.db w.calls) m ms (completion set status cause delay)
              (env.between w.calls w.table) completed (answer ∙ done) full in
          let leases =
            (length-owned_full (env.db w.calls) (env.between w.calls w.table) (m ∷ ms)
                (subst (λ (t : Table). UniqueIds t.rows) (sym (alone w.calls w.table)) unique)
                keys).0
              many in
          let settled =
            finish_rows-Done env set batch outcome (m ∷ ms) (completion set status cause delay)
              (env.db w.calls) (env.between w.calls w.table) x inside
              (All-mem (λ x. IsRight set (outcome x) x (completion set status cause delay)) right
                inside)
              (All-mem (HasLease (env.db w.calls) (env.between w.calls w.table)) leases inside) in
          subst (λ (t : Table). DoneIn set outcome t u.table x) (alone w.calls w.table)
            (subst (λ (t : Table). DoneIn set outcome (env.between w.calls w.table) t x)
              (sym (told ∙ left ∙ whole)) settled)

  -- One state for all, the verdict on each of them.
  Completes-complete_all :
      (m : Message) (ms : List Message) (status : Status) (perr : Option Error) (delay : Duration)
      → UniqueKeys (claim_keys (m ∷ ms))
      → ((x : Message) → verdict set perr x ≡ status)
      → AllHave batch outcome perr (m ∷ ms)
      → Completes set outcome NoError
          (λ x. Memᴰ x (m ∷ ms))
          (complete env set (m ∷ ms) status perr delay)
  Completes-complete_all m ms status perr delay keys v h =
      Completes-complete m ms status perr delay keys
        (All-imp (λ x q. (rw (q.1) (sym (v x)), ap reason_of (sym (q.1)))) (m ∷ ms) h)

  pub Completes-settle_one :
      (perr : Error) (least : Option Duration) (m : Message)
      → has permanents perr ≡ false
      → has discards perr ≡ false
      → outcome m ≡ some perr
      → Completes set outcome NoError (λ x. Memᴰ x (m ∷ [])) (settle_one env set perr least m)
  unfolding settle_one verdict
  Completes-settle_one perr least m np nd h =
      Completes-cases (leb_ℤ (limit_of env set m) (pos m.attempts))
        (λ spent.
          Completes-complete m [] dead (some perr) (pos 0) (refl, tt)
            ((rw (h, np, nd, spent) refl, ap reason_of (sym h)), tt))
        (λ unspent.
          Completes-after env set batch outcome (backoff_at env set m)
            (λ d. complete env set (m ∷ []) pending (some perr) (retry_delay d least))
            (Keeps-backoff_at env set (progress env set batch outcome) m)
            (λ d.
              Completes-complete m [] pending (some perr) (retry_delay d least) (refl, tt)
                ((rw (h, np, nd, unspent) refl, ap reason_of (sym h)), tt)))

  pub first_or_later :
      (m : Message) (ms : List Message) (x : Message)
      → Memᴰ x (m ∷ ms)
      → Memᴰ x (m ∷ []) ⊎ Memᴰ x ms
  first_or_later m ms x (Memᴰ.head e) = inl (Memᴰ.head e)
  first_or_later m ms x (Memᴰ.tail n) = inr n

  pub Completes-settle_loop :
      (perr : Error) (least : Option Duration) (ms : List Message)
      → has permanents perr ≡ false
      → has discards perr ≡ false
      → AllHave batch outcome (some perr) ms
      → Completes set outcome NoErrors (λ x. Memᴰ x ms) (settle_loop env set perr least ms)
  unfolding settle_loop
  Completes-settle_loop perr least [] np nd h = Completes-nothing (λ x m. elim m [ ])
  Completes-settle_loop perr least (m ∷ ms) np nd h =
      Completes-both env set batch outcome (settle_one env set perr least m)
        (settle_loop env set perr least ms) push
        (Keeps-settle_one env set (progress env set batch outcome) batch outcome
          (alone-progress env set batch outcome alone) (right_progress env set batch outcome) perr
          least m np nd h.0)
        (Keeps-settle_loop env set (progress env set batch outcome) batch outcome
          (alone-progress env set batch outcome alone) (right_progress env set batch outcome) perr
          least ms np nd h.1)
        (Completes-settle_one perr least m np nd h.0.1)
        (Completes-settle_loop perr least ms np nd h.1) push-none (first_or_later m ms)

  pub Completes-settle :
      (msgs : List Message) (perr : Option Error)
      → UniqueKeys (claim_keys msgs)
      → AllHave batch outcome perr msgs
      → Completes set outcome NoError (λ x. Memᴰ x msgs) (settle env set msgs perr)
  unfolding settle settle_error verdict
  Completes-settle [] perr keys h = Completes-nothing (λ x m. elim m [ ])
  Completes-settle (m ∷ ms) none keys h =
      Completes-complete_all m ms published none (pos 0) keys (λ x. refl) h
  Completes-settle (m ∷ ms) (some perr) keys h =
      Completes-cases (has permanents perr)
        (λ p. Completes-complete_all m ms dead (some perr) (pos 0) keys (λ x. rw p refl) h)
        (λ np.
          Completes-cases (has discards perr)
            (λ d.
              Completes-complete_all m ms discarded (some perr) (pos 0) keys (λ x. rw (np, d) refl)
                h)
            (λ nd.
              Completes-then (settle_loop env set perr (delay_in (as_target retries perr)) (m ∷ ms))
                join_errors
                (Completes-settle_loop perr (delay_in (as_target retries perr)) (m ∷ ms) np nd h)
                (λ es c. c)))
