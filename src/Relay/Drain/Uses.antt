-- ===== src/Relay/Drain/Uses.antt =====
-- `settle` and `settleEach` spend effort on a batch whose first message is out of attempts.
use pg_outbox.Relay.Drain.Settling.{OthersSettle, Keeps-settle, Keeps-settle_own, Keeps-settle_loop}
use pg_outbox.Base.{
  ◌≡◌, refl, sym, ap, subst, ◌∙◌, Bool, true, false, Option, none, some, List, [], ◌∷◌,
  if◌then◌else◌, select,
}
use pg_outbox.Base.Int.{ℤ, pos, leb_ℤ}
use mathlib.Core.Bool.{false≢true}
use pg_outbox.Relay.Settle.{
  settle_each, settle_own, Share, share_of, publishes_it, takes_batch, has_own, is_published_share,
  is_batch_share, maybe_of, append_errors, settle_share, settle_one, settle_loop, settle_error,
  settle, limit_of, delay_in, push, join_errors,
}
use pg_outbox.Relay.Keeps.{Keeps-returns}
use pg_outbox.Relay.Drain.Effort.{Settles-Spends, Settles-trans, Settles, Spends, Spends-Settles}
use pg_outbox.Port.{
  Outcomes, MaybeError, Error, Errors, no_errors, has, as_target, permanents, discards, retries,
}
use pg_outbox.Config.{Settings}
use pg_outbox.Message.{Message, published, dead, discarded}
use pg_outbox.Relay.{Env, World, M, returns, return, ◌>>=◌}
use pg_outbox.Relay.Drain.Spending.{Uses, Uses-complete}
use pg_outbox.Relay.Returns.{>>=-returns, return-returns, push-none, append-none}

Uses-if :
    {set : Settings} (b : Bool) {m n : M (Option Error)}
    → (b ≡ true → Uses set m)
    → (b ≡ false → Uses set n)
    → Uses set (if b then m else n)
Uses-if true um un = um refl
Uses-if false um un = un refl

-- The message has used up its attempts.
abbrev pub IsSpent : Env → Settings → Message → Type 0
IsSpent env set m = leb_ℤ (limit_of env set m) (pos m.attempts) ≡ true

module _ (env : Env) (set : Settings) where
  Uses-settle_one :
      (perr : Error) (least : Option ℤ) (m : Message)
      → OthersSettle env set
      → IsSpent env set m
      → Uses set (settle_one env set perr least m)
  unfolding settle_one
  Uses-settle_one perr least m o spent =
      Uses-if (leb_ℤ (limit_of env set m) (pos m.attempts))
        (λ _. Uses-complete env set m [] dead (some perr) (pos 0) o refl)
        (λ e. absurd (false≢true (sym e ∙ spent)))

  settle_loop-spends :
      (perr : Error) (least : Option ℤ) (m : Message) (ms : List Message) (w u : World)
      (es : Errors)
      → has permanents perr ≡ false
      → has discards perr ≡ false
      → OthersSettle env set
      → IsSpent env set m
      → settle_loop env set perr least (m ∷ ms) w ≡ (returns es, u)
      → join_errors es ≡ none
      → Spends set w.table u.table
  unfolding settle_loop
  settle_loop-spends perr least m ms w u es np nd o spent h clean =
      let (e, v, first, rest) =
        >>=-returns (settle_one env set perr least m)
          (λ e. settle_loop env set perr least ms >>= λ es. return (push e es)) w u h in
      let (fs, v', others, ends) =
        >>=-returns (settle_loop env set perr least ms) (λ es. return (push e es)) v u rest in
      let (all, same) = return-returns (push e fs) es v' u ends in
      let (fine, _) = push-none e fs (ap join_errors all ∙ clean) in
      Spends-Settles
        ((Uses-settle_one perr least m o spent).at w v
          (first ∙ ap (λ (x : Option Error). (returns x, v)) fine))
        (subst (λ (x : World). Settles set v.table x.table) same
          (Keeps-returns v v' fs (Keeps-settle_loop env set perr least ms np nd o) others))

  Uses-loop :
      (perr : Error) (least : Option ℤ) (m : Message) (ms : List Message)
      → has permanents perr ≡ false
      → has discards perr ≡ false
      → OthersSettle env set
      → IsSpent env set m
      → Uses set (settle_loop env set perr least (m ∷ ms) >>= λ es. return (join_errors es))
  Uses-loop perr least m ms np nd o spent = record {
    at = λ w u h.
        let (es, v, looped, ends) =
          >>=-returns (settle_loop env set perr least (m ∷ ms)) (λ es. return (join_errors es)) w u
            h in
        let (clean, same) = return-returns (join_errors es) none v u ends in
        subst (λ (x : World). Spends set w.table x.table) same
          (settle_loop-spends perr least m ms w v es np nd o spent looped clean);
  }

  pub Uses-settle :
      (m : Message) (ms : List Message) (perr : Option Error)
      → OthersSettle env set
      → IsSpent env set m
      → Uses set (settle env set (m ∷ ms) perr)
  unfolding settle settle_error
  Uses-settle m ms none o spent = Uses-complete env set m ms published none (pos 0) o refl
  Uses-settle m ms (some perr) o spent =
      Uses-if (has permanents perr)
        (λ _. Uses-complete env set m ms dead (some perr) (pos 0) o refl)
        (λ np.
          Uses-if (has discards perr)
            (λ _. Uses-complete env set m ms discarded (some perr) (pos 0) o refl)
            (λ nd. Uses-loop perr (delay_in (as_target retries perr)) m ms np nd o spent))

  own-spends :
      (os : Outcomes) (others : MaybeError) (m : Message) (ms : List Message) (e : Error)
      (w u : World) (errs : Errors)
      → OthersSettle env set
      → IsSpent env set m
      → share_of os others m ≡ has_own e
      → settle_own env set os others (m ∷ ms) w ≡ (returns errs, u)
      → join_errors errs ≡ none
      → Spends set w.table u.table
  unfolding settle_own
  own-spends os others m ms e w u errs o spent own h clean =
      let (r, v, first, rest) =
        >>=-returns (settle env set (m ∷ []) (some e))
          (λ r. settle_own env set os others ms >>= λ es. return (push r es)) w u
          (ap (λ (x : Share). settle_share env set x m (settle_own env set os others ms) w)
              (sym own)
            ∙ h) in
      let (fs, v', later, ends) =
        >>=-returns (settle_own env set os others ms) (λ es. return (push r es)) v u rest in
      let (all, same) = return-returns (push r fs) errs v' u ends in
      let (fine, _) = push-none r fs (ap join_errors all ∙ clean) in
      Spends-Settles
        ((Uses-settle m [] (some e) o spent).at w v
          (first ∙ ap (λ (x : Option Error). (returns x, v)) fine))
        (subst (λ (x : World). Settles set v.table x.table) same
          (Keeps-returns v v' fs (Keeps-settle_own env set os others ms o) later))

  -- The groups of `settleEach`.
  abbrev pub published_share : Outcomes → MaybeError → List Message → List Message
  published_share os others = select (λ m. is_published_share (share_of os others m))

  abbrev pub batch_share : Outcomes → MaybeError → List Message → List Message
  batch_share os others = select (λ m. is_batch_share (share_of os others m))

  group-spends :
      (group : List Message) (m : Message) (rest : List Message) (perr : Option Error) (w u : World)
      → OthersSettle env set
      → IsSpent env set m
      → group ≡ m ∷ rest
      → settle env set group perr w ≡ (returns none, u)
      → Spends set w.table u.table
  group-spends group m rest perr w u o spent e h =
      (Uses-settle m rest perr o spent).at w u
        (subst (λ (l : List Message). settle env set l perr w ≡ (returns none, u)) e h)

  pub Uses-settle_each :
      (m : Message) (ms : List Message) (os : Outcomes) (others : MaybeError)
      → OthersSettle env set
      → IsSpent env set m
      → Uses set (settle_each env set (m ∷ ms) os others)
  unfolding settle_each
  Uses-settle_each m ms os others o spent = record {
    at = λ w u h.
        let (errs, v1, h1, r1) = >>=-returns (settle_own env set os others (m ∷ ms)) _ w u h in
        let (a, v2, h2, r2) =
          >>=-returns (settle env set (published_share os others (m ∷ ms)) none) _ v1 u r1 in
        let (b, v3, h3, r3) =
          >>=-returns (settle env set (batch_share os others (m ∷ ms)) (maybe_of others)) _ v2 u
            r2 in
        let (clean, same) =
          return-returns (join_errors (append_errors errs (push a (push b no_errors)))) none v3 u
            r3 in
        let (own_fine, groups) = append-none errs (push a (push b no_errors)) clean in
        let (a_fine, b_groups) = push-none a (push b no_errors) groups in
        let (b_fine, _) = push-none b no_errors b_groups in
        let k1 = Keeps-returns w v1 errs (Keeps-settle_own env set os others (m ∷ ms) o) h1 in
        let k2 =
          Keeps-returns v1 v2 a (Keeps-settle env set (published_share os others (m ∷ ms)) none o)
            h2 in
        let k3 =
          Keeps-returns v2 v3 b
            (Keeps-settle env set (batch_share os others (m ∷ ms)) (maybe_of others) o) h3 in
        let g2 : settle env set (published_share os others (m ∷ ms)) none v1 ≡ (returns none, v2) =
          h2 ∙ ap (λ (x : Option Error). (returns x, v2)) a_fine in
        let g3 : settle env set (batch_share os others (m ∷ ms)) (maybe_of others) v2
            ≡ (returns none, v3) =
          h3 ∙ ap (λ (x : Option Error). (returns x, v3)) b_fine in
        let by_share : (s : Share) → share_of os others m ≡ s → Spends set w.table v3.table = λ s.
          elim s as (λ x. share_of os others m ≡ x → Spends set w.table v3.table) [
            | publishes_it ↦ λ e. Settles-Spends k1 (
                Spends-Settles
                  (group-spends (published_share os others (m ∷ ms)) m
                    (published_share os others ms) none v1 v2 o spent (rw e refl) g2)
                  k3)
            | takes_batch ↦ λ e. Settles-Spends k1 (
                Settles-Spends k2 (
                  group-spends (batch_share os others (m ∷ ms)) m (batch_share os others ms)
                    (maybe_of others) v2 v3 o spent (rw e refl) g3))
            | has_own x ↦ λ e.
                Spends-Settles (own-spends os others m ms x w v1 errs o spent e h1 own_fine)
                  (Settles-trans k2 k3)
          ] in
        subst (λ (x : World). Spends set w.table x.table) same
          (by_share (share_of os others m) refl);
  }
