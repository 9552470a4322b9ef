-- ===== src/Relay/Drain/Passes.antt =====
-- A pass that claims something and reports no error spends effort, so `drain` ends.

use pg_outbox.Relay.Drain.Settling.{OthersSettle}
use pg_outbox.Base.{
  ◌≢◌, zero, ℕ, suc, ◌+◌, ◌<◌, ◌≡◌, refl, sym, ap, subst, ◌∙◌, inl, inr, Option, none, some, List,
  [], ◌∷◌, arith, Bool-cases,
}
use pg_outbox.Relay.{raises, Env, World, returns, return, exec, Exit, continue}
use pg_outbox.Relay.Drain.Effort.{
  effort, claim-Settles, claim-Spends, Settles, Spends, Settles-Spends, Spends-Settles,
}
use pg_outbox.Base.Int.{pos, leb_ℤ}
use pg_outbox.Config.{Settings}
use pg_outbox.Message.{Message}
use pg_outbox.Port.{Error}
use pg_outbox.Table.{Table}
use pg_outbox.Table.Rows.{UniqueIds}
use pg_outbox.Store.{Result, ok, err, panic}
use pg_outbox.Store.Claim.{claim, claim_rows}
use pg_outbox.Relay.Settle.{limit_of}
use pg_outbox.Relay.Batch.{after_claim, process_batch, drain, after_pass, drain_error}
use pg_outbox.Relay.Returns.{exec-returns, >>=-returns, return-returns}
use pg_outbox.Relay.Keeps.{Keeps-returns}
use pg_outbox.Relay.Drain.Claims.{first-claimed, claim-ran, below_row}
use pg_outbox.Relay.Drain.Conclusion.{Keeps-delivery, delivery-spends}

module _ (env : Env) (set : Settings) where
  -- A pass that claims something and returns no error spends effort: the first row of the batch has
  -- lost an attempt, or it had none left and is terminal now.
  process_batch-spends :
      (w u : World) (n : ℕ)
      → OthersSettle env set
      → process_batch env set w ≡ (returns (suc n, none), u)
      → Spends set w.table u.table
  unfolding process_batch
  process_batch-spends w u n o h =
      let (r, v, ran, rest) =
        >>=-returns (exec env (λ db t. claim env.json db set t)) (after_claim env set) w u h in
      let (answer, left) = exec-returns env (λ db t. claim env.json db set t) w v ran in
      after r v answer left rest
    where
      after :
          (r : Result (List Message)) (v : World)
          → (claim env.json (env.db w.calls) set (env.between w.calls w.table)).1 ≡ r
          → v.table ≡ (claim env.json (env.db w.calls) set (env.between w.calls w.table)).0
          → after_claim env set r v ≡ (returns (suc n, none), u)
          → Spends set w.table u.table
      after (err e) v answer left k =
          cc (
            ap (λ (x : ℕ × Option Error). x.1) ((return-returns (0, some e) (suc n, none) v u k).0))
      after (panic p) v answer left k = cc
      after (ok []) v answer left k = absurd (
          omega (
            arith,
            ap (λ (x : ℕ × Option Error). x.0) ((return-returns (0, none) (suc n, none) v u k).0),
          ))
      after (ok (m ∷ ms)) v answer left k =
          let db = env.db w.calls in
          let t = env.between w.calls w.table in
          let (ended, scanned) = claim-ran env.json db set t (m ∷ ms) answer in
          let (row, mem, pick, spent, limit) = first-claimed env.json db set t m ms scanned in
          let now : v.table ≡ claim_rows db set t = left ∙ ended in
          elim (Bool-cases (leb_ℤ (limit_of env set m) (pos m.attempts))) [
            | inl out ↦ Settles-Spends (o.others w.calls w.table) (
                Settles-Spends
                  (subst (λ (x : Table). Settles set t x) (sym now) (claim-Settles db set t))
                  (delivery-spends env set m ms v u (suc n) o out k))
            | inr more ↦ Settles-Spends (o.others w.calls w.table) (
                Spends-Settles
                  (subst (λ (x : Table). Spends set t x) (sym now)
                    (claim-Spends db set t mem pick (below_row env set m row spent limit more)))
                  (Keeps-returns v u (suc n, none) (Keeps-delivery env set (m ∷ ms) o) k))
          ]

  drain_error-ends :
      (x : Exit (Option Error) × World) → (continue x (λ r. return (some r))).0 ≢ returns none
  drain_error-ends (returns r, v) h = ground arith
  drain_error-ends (raises p, v) h = ground arith

  after_pass-ends :
      (fuel : ℕ) (x : Exit (ℕ × Option Error) × World)
      → ((n : ℕ) (u : World)
          → x ≡ (returns (suc n, none), u)
          → (drain env set fuel u).0 ≢ returns none)
      → (continue x (after_pass env set (drain env set fuel))).0 ≢ returns none
  after_pass-ends fuel (returns (n, some e), u) again = drain_error-ends (drain_error env set e u)
  after_pass-ends fuel (returns (zero, none), u) again = λ h. ground arith
  after_pass-ends fuel (returns (suc n, none), u) again = again n u refl
  after_pass-ends fuel (raises v, u) again = λ h. ground arith

  -- `drain` ends: with unique ids, and while other transactions enqueue and requeue nothing, as many
  -- passes are enough as the open rows have attempts left, one more for each of them, and one pass
  -- that finds nothing. It needs no backoff: a row that a retry makes due at once has one attempt
  -- less, and whatever the database, the publisher, the hooks and the classifier answer, a pass
  -- either reports an error, which ends the loop, or uses up an attempt or a row.
  pub drain_ends :
      (fuel : ℕ) (w : World)
      → OthersSettle env set
      → UniqueIds w.table.rows
      → effort set w.table.rows < fuel
      → (drain env set fuel w).0 ≢ returns none
  unfolding drain
  drain_ends zero w o ids enough = absurd (omega arith)
  drain_ends (suc fuel) w o ids enough =
      let w' : World = record w { calls = w.calls + 1 } in
      elim (Bool-cases (env.live w.calls)) [
        | inr over ↦ rw over (λ h. ground arith)
        | inl live ↦ rw live (
            after_pass-ends fuel (process_batch env set w') (λ n u h.
              let (fresh, less) = (process_batch-spends w' u n o h).step ids in
              drain_ends fuel u o fresh (omega (arith, less, enough))))
      ]
