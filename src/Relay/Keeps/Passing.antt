-- ===== src/Relay/Keeps/Passing.antt =====
-- `processBatch` and `drain` keep to every relation that the statements keep to.
use pg_outbox.Base.{
  ℕ, zero, suc, Bool, true, false, Option, none, some, List, [], ◌∷◌, if◌then◌else◌,
}
use pg_outbox.Config.{Settings}
use pg_outbox.Message.{Message}
use pg_outbox.Port.{Error, fatals, as_target}
use pg_outbox.Table.{Table}
use pg_outbox.Store.{Db, Result, ok, err, panic}
use pg_outbox.Store.Claim.{claim}
use pg_outbox.Store.Lease.{renew}
use pg_outbox.Relay.{Env, M, return, exec, context_live, ◌>>=◌, ◌>>◌}
use pg_outbox.Relay.Batch.{
  publish, conclude, after_claim, process_batch, is_fatal, log, unclassified, drain_error,
  after_pass, drain,
}
use pg_outbox.Relay.Keeps.{
  TableOrder, Keeps, OthersKeep, Keeps-return, Keeps-raise, Keeps-if, Keeps-bind, Keeps-exec,
}
use pg_outbox.Relay.Keeps.Settling.{RightKeeps}
use pg_outbox.Relay.Keeps.Publishing.{Keeps-publish}
use pg_outbox.Relay.Keeps.Concluding.{Keeps-conclude, Keeps-is_fatal}
use pg_outbox.Relay.Verdict.{outcome_of}

-- The statements of a pass keep to the relation: other transactions, a claim, a renewal, and the
-- completion of messages in the state that their outcome leads to.
pub record StatementsKeep (env : Env) (set : Settings) (o : TableOrder) : Type 0 where
  pub others_keep : OthersKeep env o
  pub claims : (db : Db) (t : Table) → o.Rel t (claim env.json db set t).0
  pub renews :
      (msgs : List Message) (db : Db) (t : Table) → o.Rel t (renew db msgs set.lease_duration t).0
  pub completes :
      (batch : List Message) (outcome : Message → Option Error) → RightKeeps env set o batch outcome

module _ (env : Env) (set : Settings) (o : TableOrder) (k : StatementsKeep env set o) where
  Keeps-after_claim : (r : Result (List Message)) → Keeps o (after_claim env set r)
  Keeps-after_claim (err e) = Keeps-return (0, some e)
  Keeps-after_claim (panic v) = Keeps-raise v
  Keeps-after_claim (ok []) = Keeps-return (0, none)
  Keeps-after_claim (ok (m ∷ ms)) =
      Keeps-bind (publish env set (m ∷ ms)) (λ p. conclude env set (m ∷ ms) p.0 p.1)
        (Keeps-publish env set o k.others_keep k.renews (m ∷ ms))
        (λ p.
          Keeps-conclude env set o (m ∷ ms) p.0 k.others_keep
            (k.completes (m ∷ ms) (outcome_of p.0)) p.1)

  pub Keeps-process_batch : Keeps o (process_batch env set)
  unfolding process_batch
  Keeps-process_batch =
      Keeps-bind (exec env (λ db t. claim env.json db set t)) (after_claim env set)
        (Keeps-exec env o (λ db t. claim env.json db set t) k.others_keep k.claims)
        Keeps-after_claim

  Keeps-log : (e : Error) → Keeps o (log e)
  Keeps-log e = record { at = λ w. o.reflexive w.table }

  Keeps-drain_error : (e : Error) → Keeps o (drain_error env set e)
  unfolding drain_error
  Keeps-drain_error e = by_class (unclassified (as_target fatals e))
    where
      stops : Bool → M (Option Error)
      stops stop = if stop then return (some e) else (log e >> return none)

      by_class :
          (c : Option Error)
          → Keeps o (elim c as (λ _. M (Option Error)) [
            | some inner ↦ return (some inner)
            | none ↦ is_fatal env set e >>= stops
          ])
      by_class (some inner) = Keeps-return (some inner)
      by_class none = Keeps-bind (is_fatal env set e) stops (Keeps-is_fatal env set o e) (λ stop.
          Keeps-if stop (Keeps-return (some e))
            (Keeps-bind (log e) (λ u. return none) (Keeps-log e) (λ u. Keeps-return none)))

  Keeps-after_pass :
      (again : M (Option (Option Error)))
      → Keeps o again
      → (p : ℕ × Option Error) → Keeps o (after_pass env set again p)
  Keeps-after_pass again q (n, some e) =
      Keeps-bind (drain_error env set e) (λ r. return (some r)) (Keeps-drain_error e)
        (λ r. Keeps-return (some r))
  Keeps-after_pass again q (zero, none) = Keeps-return (some none)
  Keeps-after_pass again q (suc n, none) = q

  pub Keeps-drain : (fuel : ℕ) → Keeps o (drain env set fuel)
  unfolding drain
  Keeps-drain zero = Keeps-return none
  Keeps-drain (suc fuel) =
      Keeps-bind (context_live env) looked (record { at = λ w. o.reflexive w.table })
        (by_look (Keeps-drain fuel))
    where
      looked : Bool → M (Option (Option Error))
      looked live = elim live as (λ _. M (Option (Option Error))) [
        | false ↦ return (some none)
        | true ↦ process_batch env set >>= after_pass env set (drain env set fuel)
      ]

      by_look : Keeps o (drain env set fuel) → (live : Bool) → Keeps o (looked live)
      by_look q false = Keeps-return (some none)
      by_look q true =
          Keeps-bind (process_batch env set) (after_pass env set (drain env set fuel))
            Keeps-process_batch (Keeps-after_pass (drain env set fuel) q)
