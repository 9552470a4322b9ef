-- ===== src/Relay/Drain/Empty.antt =====
-- Why `drain` comes to its end without an error.
use mathlib.Core.List.{Memᴰ}
use pg_outbox.Base.{
  ℕ, zero, suc, ◌<◌, ◌≡◌, sym, ap, ◌∙◌, subst, ◌⊎◌, inl, inr, Bool, true, false, Option, none, some,
  List, [], ◌∷◌, ◌+◌, ◌++◌, arith, Bool-cases, if◌then◌else◌, length,
}
use pg_outbox.Base.Int.{pos_part}
use pg_outbox.Config.{Settings}
use pg_outbox.Message.{Message}
use pg_outbox.Port.{Error, fatals, as_target}
use pg_outbox.Table.{Row, Table}
use pg_outbox.Store.{Result, ok, err, panic}
use pg_outbox.Store.Claim.{claim, claimed, claim_rows, eligible}
use pg_outbox.Store.Claim.Nothing.{claim_rows-nothing, claimed-nothing}
use pg_outbox.Store.Claim.Scanned.{claimed-empty}
use pg_outbox.Relay.{Env, World, Event, M, Exit, returns, return, exec, log_error, ◌>>=◌, ◌>>◌}
use pg_outbox.Relay.Batch.{
  is_fatal, is_fatal_maybe, fatal_of, settle_batch, batch_in, settle_unless, conclude, publish,
  after_claim, process_batch, unclassified, drain_error, after_pass, drain, log,
}
use pg_outbox.Relay.Returns.{>>=-returns, return-returns, exec-returns}
use pg_outbox.Relay.Drain.Claims.{claim-ran}

-- The last event.
abbrev pub EndsWith : Event → World → Type 0
EndsWith e u = (es : List Event) × (u.events ≡ es ++ e ∷ [])

module _ (env : Env) (set : Settings) where
  settle_unless-count :
      (lease_err : Option Error) (msgs : List Message) (perr : Option Error) (v u : World) (n : ℕ)
      (e : Option Error)
      → settle_unless env set lease_err msgs perr v ≡ (returns (n, e), u)
      → n ≡ length msgs
  settle_unless-count (some x) msgs perr v u n e h =
      let q = return-returns (length msgs, some x) (n, e) v u h in
      sym (ap (λ (y : ℕ × Option Error). y.0) q.0)
  settle_unless-count none msgs perr v u n e h =
      let (x, v', _, k) =
        >>=-returns (settle_batch env set msgs perr (batch_in perr)) (λ e. return (length msgs, e))
          v u h in
      let q = return-returns (length msgs, x) (n, e) v' u k in
      sym (ap (λ (y : ℕ × Option Error). y.0) q.0)

  -- The end of a pass reports the size of the batch.
  conclude-count :
      (msgs : List Message) (perr lease_err : Option Error) (v u : World) (n : ℕ) (e : Option Error)
      → conclude env set msgs perr lease_err v ≡ (returns (n, e), u)
      → n ≡ length msgs
  unfolding conclude
  conclude-count msgs perr lease_err v u n e h =
      let (stop, v', _, k) = >>=-returns (is_fatal_maybe env set perr) finish v u h in
      by_stop stop v' k
    where
      finish : Bool → M (ℕ × Option Error)
      finish stop =
          if stop
          then return (length msgs, fatal_of perr)
          else settle_unless env set lease_err msgs perr

      by_stop : (stop : Bool) (v' : World) → finish stop v' ≡ (returns (n, e), u) → n ≡ length msgs
      by_stop true v' k =
          let q = return-returns (length msgs, fatal_of perr) (n, e) v' u k in
          sym (ap (λ (y : ℕ × Option Error). y.0) q.0)
      by_stop false v' k = settle_unless-count lease_err msgs perr v' u n e k

  -- A pass that finds nothing.
  process_batch-nothing :
      (w u : World)
      → process_batch env set w ≡ (returns (0, none), u)
      → (claimed (env.db w.calls) set (env.between w.calls w.table) ≡ [])
        × (u.table ≡ claim_rows (env.db w.calls) set (env.between w.calls w.table))
        × (u.calls ≡ w.calls + 1)
  unfolding process_batch
  process_batch-nothing w u h =
      let (r, v, ran, rest) =
        >>=-returns (exec env (λ db t. claim env.json db set t)) (after_claim env set) w u h in
      let (answer, left) = exec-returns env (λ db t. claim env.json db set t) w v ran in
      by_claim r v answer left
        (ap (λ (x : Exit (Result (List Message)) × World). x.1.calls) (sym ran)) rest
    where
      t : Table
      t = env.between w.calls w.table

      by_claim :
          (r : Result (List Message)) (v : World)
          → (claim env.json (env.db w.calls) set t).1 ≡ r
          → v.table ≡ (claim env.json (env.db w.calls) set t).0
          → v.calls ≡ w.calls + 1
          → after_claim env set r v ≡ (returns (0, none), u)
          → (claimed (env.db w.calls) set t ≡ [])
            × (u.table ≡ claim_rows (env.db w.calls) set t)
            × (u.calls ≡ w.calls + 1)
      by_claim (err e) v answer left one k = cc
      by_claim (panic p) v answer left one k = cc
      by_claim (ok []) v answer left one k =
          let (ended, scanned) = claim-ran env.json (env.db w.calls) set t [] answer in
          let q = return-returns (0, none) (0, none) v u k in
          (
            claimed-empty env.json (claimed (env.db w.calls) set t) scanned,
            ap (λ (x : World). x.table) (sym (q.1)) ∙ left ∙ ended,
            ap (λ (x : World). x.calls) (sym (q.1)) ∙ one,
          )
      by_claim (ok (m ∷ ms)) v answer left one k =
          let (p, v', _, l) =
            >>=-returns (publish env set (m ∷ ms)) (λ p. conclude env set (m ∷ ms) p.0 p.1) v u k in
          absurd (omega (arith, conclude-count (m ∷ ms) p.0 p.1 v' u 0 none l))

  -- An error that does not end the loop of the worker has been logged.
  drain_error-logs :
      (e : Error) (w u : World)
      → drain_error env set e w ≡ (returns none, u)
      → EndsWith (log_error "outbox: relay batch failed" e) u
  unfolding drain_error
  drain_error-logs e w u h = by_class (unclassified (as_target fatals e)) h
    where
      logs : Bool → M (Option Error)
      logs stop = if stop then return (some e) else (log e >> return none)

      by_stop :
          (stop : Bool) (v : World)
          → logs stop v ≡ (returns none, u)
          → EndsWith (log_error "outbox: relay batch failed" e) u
      by_stop true v k = cc
      by_stop false v k = (v.events, ap (λ (x : Exit (Option Error) × World). x.1.events) (sym k))

      by_class :
          (c : Option Error)
          → elim c as (λ _. M (Option Error)) [
            | some inner ↦ return (some inner)
            | none ↦ is_fatal env set e >>= logs
          ]
              w
            ≡ (returns none, u)
          → EndsWith (log_error "outbox: relay batch failed" e) u
      by_class (some inner) k = cc
      by_class none k =
          let (stop, v, _, l) = >>=-returns (is_fatal env set e) logs w u k in by_stop stop v l

  -- Why the loop has ended, by its last call where that was a look at the context or a claim.
  abbrev pub Ending : World → Type 0
  Ending u =
      ((k : ℕ) × (u.calls ≡ k + 1) × (env.live k ≡ false))
      ⊎ (((e : Error) × EndsWith (log_error "outbox: relay batch failed" e) u)
          ⊎ ((k : ℕ) × (u.calls ≡ k + 1)
              × ((r : Row)
                  → Memᴰ r u.table.rows
                  → eligible (env.db k) set.ordered u.table.rows r ≡ false)))

  pass-Ending :
      (fuel : ℕ) (w u v : World) (n : ℕ) (failed : Option Error)
      → 0 < pos_part set.batch_size
      → process_batch env set w ≡ (returns (n, failed), v)
      → after_pass env set (drain env set fuel) (n, failed) v ≡ (returns (some none), u)
      → (drain env set fuel v ≡ (returns (some none), u) → Ending u)
      → Ending u
  pass-Ending fuel w u v n (some e) room ran k again =
      let (r, v', stopped, l) = >>=-returns (drain_error env set e) (λ r. return (some r)) v u k in
      let q = return-returns (some r) (some none) v' u l in
      let silent : r ≡ none =
        ap
          (λ (x : Option (Option Error)). elim x as (λ _. Option Error) [
            | none ↦ none
            | some y ↦ y
          ])
          (q.0) in
      inr (
        inl (
          e,
          drain_error-logs e v u (
              stopped
              ∙ ap (λ (x : Option Error). (returns x, v')) silent
              ∙ ap (λ (x : World). (returns none, x)) (q.1)),
        ))
  pass-Ending fuel w u v zero none room ran k again =
      let (empty, left, one) = process_batch-nothing w v ran in
      let q = return-returns (some none) (some none) v u k in
      let t : Table = env.between w.calls w.table in
      let same : t ≡ u.table = sym (
        ap (λ (x : World). x.table) (sym (q.1))
        ∙ left
        ∙ claim_rows-nothing (env.db w.calls) set t empty) in
      inr (
        inr (
          w.calls,
          ap (λ (x : World). x.calls) (sym (q.1)) ∙ one,
          subst
              (λ (x : Table).
                (r : Row) → Memᴰ r x.rows → eligible (env.db w.calls) set.ordered x.rows r ≡ false)
              same (λ r m. claimed-nothing (env.db w.calls) set t empty room m),
        ))
  pass-Ending fuel w u v (suc n) none room ran k again = again k

  -- When `drain` returns without an error, its last call was a look at a context that was done, or the
  -- last event was to log the error of a pass, or else its last call was a claim that has found no row in
  -- the table, as it stands at the end, that is due, that no earlier row of its key holds up and that
  -- nobody else has locked. The batch size is taken to be positive, as the settings make it.
  pub drain_empties :
      (fuel : ℕ) (w u : World)
      → 0 < pos_part set.batch_size
      → drain env set fuel w ≡ (returns (some none), u)
      → Ending u
  unfolding drain
  drain_empties zero w u room h = cc
  drain_empties (suc fuel) w u room h = elim (Bool-cases (env.live w.calls)) [
    | inr over ↦ inl (
      w.calls,
      ap (λ (x : Exit (Option (Option Error)) × World). x.1.calls) (sym (rw over at h)),
      over,
    )
    | inl live ↦
        let ((n, failed), v, ran, rest) =
          >>=-returns (process_batch env set) (after_pass env set (drain env set fuel))
            (record w { calls = w.calls + 1 }) u (rw live at h) in
        pass-Ending fuel (record w { calls = w.calls + 1 }) u v n failed room ran rest
          (drain_empties fuel v u room)
  ]
