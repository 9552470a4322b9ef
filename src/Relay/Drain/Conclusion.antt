-- ===== src/Relay/Drain/Conclusion.antt =====
-- What follows a publish call raises no effort, and spends some on a batch that is out of attempts.

use pg_outbox.Relay.Keeps.{Keeps-returns, Keeps, Keeps-bind}
use pg_outbox.Relay.Verdict.{outcome_of}
use pg_outbox.Relay.Drain.Settling.{all_settle, settling, OthersSettle}
use pg_outbox.Relay.Keeps.Concluding.{Keeps-conclude, Keeps-is_fatal, settle_batch-cases}
use pg_outbox.Base.{
  ℕ, ◌≡◌, ap, subst, ◌∙◌, Bool, true, false, Option, none, some, List, ◌∷◌, if◌then◌else◌, length,
}
use pg_outbox.Relay.{Env, World, M, returns, return, ◌>>=◌}
use pg_outbox.Relay.Drain.Effort.{Spends, Settles-Spends}
use pg_outbox.Config.{Settings}
use pg_outbox.Message.{Message}
use pg_outbox.Port.{Error, fatal}
use pg_outbox.Relay.Batch.{
  publish, is_fatal, settle_batch, batch_in, fatal_of, settle_unless, conclude,
}
use pg_outbox.Relay.Drain.Sending.{Keeps-publish}
use pg_outbox.Relay.Drain.Spending.{Uses}
use pg_outbox.Relay.Returns.{>>=-returns, return-returns}
use pg_outbox.Relay.Drain.Uses.{IsSpent, Uses-settle, Uses-settle_each}

module _ (env : Env) (set : Settings) where
  settle_unless-spends :
      (lease_err : Option Error) (m : Message) (ms : List Message) (perr : Option Error)
      (w u : World) (n : ℕ)
      → OthersSettle env set
      → IsSpent env set m
      → settle_unless env set lease_err (m ∷ ms) perr w ≡ (returns (n, none), u)
      → Spends set w.table u.table
  settle_unless-spends (some e) m ms perr w u n o spent h = cc (
      ap (λ (x : ℕ × Option Error). x.1)
        ((return-returns (length (m ∷ ms), some e) (n, none) w u h).0))
  settle_unless-spends none m ms perr w u n o spent h =
      let (e, v, settled, ends) =
        >>=-returns (settle_batch env set (m ∷ ms) perr (batch_in perr))
          (λ e. return (length (m ∷ ms), e)) w u h in
      let (verdict, same) = return-returns (length (m ∷ ms), e) (n, none) v u ends in
      let uses : Uses set (settle_batch env set (m ∷ ms) perr (batch_in perr)) =
        settle_batch-cases env set
          (λ (_ : Message → Option Error) (a : M (Option Error)). Uses set a) (m ∷ ms) perr
          (λ os others. Uses-settle_each env set m ms os others o spent)
          (Uses-settle env set m ms perr o spent) (batch_in perr) in
      subst (λ (x : World). Spends set w.table x.table) same
        (uses.at w v (settled ∙ ap (λ (x : ℕ × Option Error). (returns (x.1), v)) verdict))

  conclude-spends :
      (m : Message) (ms : List Message) (perr lease_err : Option Error) (w u : World) (n : ℕ)
      → OthersSettle env set
      → IsSpent env set m
      → conclude env set (m ∷ ms) perr lease_err w ≡ (returns (n, none), u)
      → Spends set w.table u.table
  unfolding conclude
  conclude-spends m ms none lease_err w u n o spent h =
      settle_unless-spends lease_err m ms none w u n o spent h
  conclude-spends m ms (some perr) lease_err w u n o spent h =
      let (stop, v, asked, rest) =
        >>=-returns (is_fatal env set perr)
          (λ stop.
            if stop
            then return (length (m ∷ ms), fatal_of (some perr))
            else settle_unless env set lease_err (m ∷ ms) (some perr))
          w u h in
      Settles-Spends (Keeps-returns w v stop (Keeps-is_fatal env set (settling set) perr) asked)
        (go_on stop v rest)
    where
      go_on :
          (stop : Bool) (v : World)
          → (if stop
                then return (length (m ∷ ms), fatal_of (some perr))
                else settle_unless env set lease_err (m ∷ ms) (some perr))
              v
            ≡ (returns (n, none), u)
          → Spends set v.table u.table
      go_on true v k = cc (
          ap (λ (x : ℕ × Option Error). x.1)
            ((return-returns (length (m ∷ ms), some (fatal perr)) (n, none) v u k).0))
      go_on false v k = settle_unless-spends lease_err m ms (some perr) v u n o spent k

  pub Keeps-delivery :
      (msgs : List Message)
      → OthersSettle env set
      → Keeps (settling set) (publish env set msgs >>= λ p. conclude env set msgs p.0 p.1)
  Keeps-delivery msgs o =
      Keeps-bind (publish env set msgs) (λ p. conclude env set msgs p.0 p.1)
        (Keeps-publish env set msgs o)
        (λ p.
          Keeps-conclude env set (settling set) msgs p.0 o
            (all_settle env set msgs (outcome_of p.0)) p.1)

  pub delivery-spends :
      (m : Message) (ms : List Message) (w u : World) (n : ℕ)
      → OthersSettle env set
      → IsSpent env set m
      → (publish env set (m ∷ ms) >>= λ p. conclude env set (m ∷ ms) p.0 p.1) w
        ≡ (returns (n, none), u)
      → Spends set w.table u.table
  delivery-spends m ms w u n o spent h =
      let (p, v, sent, rest) =
        >>=-returns (publish env set (m ∷ ms)) (λ p. conclude env set (m ∷ ms) p.0 p.1) w u h in
      Settles-Spends (Keeps-returns w v p (Keeps-publish env set (m ∷ ms) o) sent)
        (conclude-spends m ms p.0 p.1 v u n o spent rest)
