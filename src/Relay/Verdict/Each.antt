-- ===== src/Relay/Verdict/Each.antt =====
-- `settleEach` settles all messages of the batch whenever it reports no error.
use mathlib.Core.List.{Memᴰ}
use pg_outbox.Base.{
  ℕ, ◌≡◌, refl, ap, ◌∙◌, subst, ◌⊎◌, inl, inr, true, Bool, Option, none, some, List, [], ◌∷◌, All,
  select,
}
use pg_outbox.Config.{Settings}
use pg_outbox.Message.{Message}
use pg_outbox.Port.{Error, Errors, MaybeError, Outcomes, entry, no_errors}
use pg_outbox.Table.{Table}
use pg_outbox.Table.Rows.{All-of_mem, mem-select, mem_select}
use pg_outbox.Store.Lease.{claim_keys}
use pg_outbox.Store.Lease.Count.{UniqueKeys, select-UniqueKeys}
use pg_outbox.Relay.{Env, World, M, returns, return, ◌>>=◌}
use pg_outbox.Relay.Settle.{
  settle, settle_own, settle_each, settle_share, Share, publishes_it, takes_batch, has_own,
  share_of, is_published_share, is_batch_share, maybe_of, push, join_errors, append_errors,
}
use pg_outbox.Relay.Returns.{>>=-returns, return-returns, push-none, append-none}
use pg_outbox.Relay.Keeps.{Keeps, Keeps-bind, Keeps-return, OthersKeep}
use pg_outbox.Relay.Keeps.Settling.{RightKeeps, Keeps-settle, AllHave}
use pg_outbox.Relay.Keeps.Each.{
  own-outcome, published-outcome, batch-outcome, Keeps-settle_own, Keeps-group,
}
use pg_outbox.Relay.Verdict.{outcome_in}
use pg_outbox.Relay.Verdict.Done.{progress, alone-progress, right_progress}
use pg_outbox.Relay.Verdict.Completes.{
  Completes, NoError, Completes-nothing, Completes-fewer, Completes-bind, Completes-both,
}
use pg_outbox.Relay.Verdict.Whole.{NoErrors, Completes-settle}

module _ (env : Env) (set : Settings) (batch : List Message) (os : Outcomes) (others : MaybeError)
    (alone : (n : ℕ) (t : Table) → env.between n t ≡ t) where
  abbrev HasOwn : Message → Type 0
  HasOwn x = (e : Error) × (share_of os others x ≡ has_own e)

  abbrev kept : OthersKeep env (progress env set batch (outcome_in os others))
  kept = alone-progress env set batch (outcome_in os others) alone

  abbrev right :
      RightKeeps env set
        (progress env set batch (outcome_in os others))
        batch
        (outcome_in os others)
  right = right_progress env set batch (outcome_in os others)

  Completes-settle_own :
      (ms : List Message)
      → All (λ m. Memᴰ m batch) ms
      → Completes set
          (outcome_in os others)
          NoErrors
          (λ x. Memᴰ x ms × HasOwn x)
          (settle_own env set os others ms)
  unfolding settle_own
  Completes-settle_own [] h = Completes-nothing (λ x q. elim q.0 [ ])
  Completes-settle_own (m ∷ ms) h =
      by_share (share_of os others m) refl (Completes-settle_own ms h.1)
    where
      later :
          (x : Message)
          → ((e : Error) → share_of os others m ≡ has_own e → ⊥)
          → Memᴰ x (m ∷ ms) × HasOwn x
          → Memᴰ x ms × HasOwn x
      later x other (Memᴰ.head e, (own, q)) =
          absurd (other own (subst (λ (y : Message). share_of os others y ≡ has_own own) e q))
      later x other (Memᴰ.tail n, own) = (n, own)

      first : (x : Message) → Memᴰ x (m ∷ ms) × HasOwn x → Memᴰ x (m ∷ []) ⊎ (Memᴰ x ms × HasOwn x)
      first x (Memᴰ.head e, own) = inl (Memᴰ.head e)
      first x (Memᴰ.tail n, own) = inr (n, own)

      by_share :
          (s : Share)
          → share_of os others m ≡ s
          → Completes set
              (outcome_in os others)
              NoErrors
              (λ x. Memᴰ x ms × HasOwn x)
              (settle_own env set os others ms)
          → Completes set
              (outcome_in os others)
              NoErrors
              (λ x. Memᴰ x (m ∷ ms) × HasOwn x)
              (settle_share env set s m (settle_own env set os others ms))
      by_share publishes_it q k = Completes-fewer k (λ x. later x (λ e r. cc))
      by_share takes_batch q k = Completes-fewer k (λ x. later x (λ e r. cc))
      by_share (has_own e) q k =
          let one : AllHave batch (outcome_in os others) (some e) (m ∷ []) =
            ((h.0, own-outcome (entry m.id os) others e q), tt) in
          Completes-both env set batch (outcome_in os others) (settle env set (m ∷ []) (some e))
            (settle_own env set os others ms) push
            (Keeps-settle env set (progress env set batch (outcome_in os others)) batch
              (outcome_in os others) kept right (m ∷ []) (some e) one)
            (Keeps-settle_own env set (progress env set batch (outcome_in os others)) batch os
              others kept right ms h.1)
            (Completes-settle env set batch (outcome_in os others) alone (m ∷ []) (some e)
              (refl, tt) one)
            k push-none first

  -- The messages that pass a test of their shares, as one group.
  Completes-group :
      (p : Share → Bool) (perr : Option Error)
      → UniqueKeys (claim_keys batch)
      → ((m : Message) → p (share_of os others m) ≡ true → outcome_in os others m ≡ perr)
      → Completes set
          (outcome_in os others)
          NoError
          (λ x. Memᴰ x (select (λ m. p (share_of os others m)) batch))
          (settle env set (select (λ m. p (share_of os others m)) batch) perr)
  Completes-group p perr keys h =
      Completes-settle env set batch (outcome_in os others) alone
        (select (λ m. p (share_of os others m)) batch) perr
        (select-UniqueKeys (λ m. p (share_of os others m)) batch keys)
        (All-of_mem _ (λ m n.
          let (inside, q) = mem-select (λ m. p (share_of os others m)) batch n in (inside, h m q)))

  clean_each :
      (es : Errors) (a b : Option Error)
      → NoError (join_errors (append_errors es (push a (push b no_errors))))
      → NoErrors es × NoError a × NoError b
  clean_each es a b c =
      let (own, rest) = append-none es (push a (push b no_errors)) c in
      let (first, last) = push-none a (push b no_errors) rest in
      (own, first, (push-none b no_errors last).0)

  abbrev group : (Share → Bool) → List Message
  group p = select (λ m. p (share_of os others m)) batch

  -- The end of `settleEach`, the two groups that share an outcome.
  abbrev rest_each : Errors → M (Option Error)
  rest_each errs = settle env set (group is_published_share) none >>= λ a.
      settle env set (group is_batch_share) (maybe_of others) >>= λ b.
      return (join_errors (append_errors errs (push a (push b no_errors))))

  published_keep :
      Keeps
        (progress env set batch (outcome_in os others))
        (settle env set (group is_published_share) none)
  published_keep =
      Keeps-group env set (progress env set batch (outcome_in os others)) batch os others kept right
        is_published_share none (λ m q. published-outcome (entry m.id os) others q)

  batch_keep :
      Keeps
        (progress env set batch (outcome_in os others))
        (settle env set (group is_batch_share) (maybe_of others))
  batch_keep =
      Keeps-group env set (progress env set batch (outcome_in os others)) batch os others kept right
        is_batch_share (maybe_of others) (λ m q. batch-outcome (entry m.id os) others q)

  Completes-rest_each :
      (errs : Errors)
      → UniqueKeys (claim_keys batch)
      → Completes set
          (outcome_in os others)
          NoError
          (λ x. Memᴰ x (group is_published_share) ⊎ Memᴰ x (group is_batch_share))
          (rest_each errs)
  Completes-rest_each errs keys =
      Completes-both env set batch (outcome_in os others)
        (settle env set (group is_published_share) none)
        (settle env set (group is_batch_share) (maybe_of others))
        (λ a b. join_errors (append_errors errs (push a (push b no_errors)))) published_keep
        batch_keep
        (Completes-group is_published_share none keys
          (λ m q. published-outcome (entry m.id os) others q))
        (Completes-group is_batch_share (maybe_of others) keys
          (λ m q. batch-outcome (entry m.id os) others q))
        (λ a b c. let (_, first, last) = clean_each errs a b c in (first, last)) (λ x q. q)

  rest-clean :
      (errs : Errors) (e : Option Error) (v u : World)
      → rest_each errs v ≡ (returns e, u)
      → NoError e
      → NoErrors errs
  rest-clean errs e v u h c =
      let (a, v', _, k) = >>=-returns (settle env set (group is_published_share) none) _ v u h in
      let (b, u', _, l) =
        >>=-returns (settle env set (group is_batch_share) (maybe_of others)) _ v' u k in
      let (own, _, _) = clean_each errs a b ((return-returns _ e u' u l).0 ∙ c) in own

  -- Each message is in one of the three parts.
  part_of :
      (x : Message)
      → Memᴰ x batch
      → (Memᴰ x batch × HasOwn x)
        ⊎ (Memᴰ x (group is_published_share) ⊎ Memᴰ x (group is_batch_share))
  part_of x m = by_share (share_of os others x) refl
    where
      by_share :
          (s : Share)
          → share_of os others x ≡ s
          → (Memᴰ x batch × ((e : Error) × (share_of os others x ≡ has_own e)))
            ⊎ (Memᴰ x (group is_published_share) ⊎ Memᴰ x (group is_batch_share))
      by_share publishes_it q = inr (inl (mem_select _ batch m (ap is_published_share q)))
      by_share takes_batch q = inr (inr (mem_select _ batch m (ap is_batch_share q)))
      by_share (has_own e) q = inl (m, (e, q))

  pub Completes-settle_each :
      UniqueKeys (claim_keys batch)
      → Completes set
          (outcome_in os others)
          NoError
          (λ x. Memᴰ x batch)
          (settle_each env set batch os others)
  unfolding settle_each
  Completes-settle_each keys =
      Completes-bind env set batch (outcome_in os others) (settle_own env set os others batch)
        rest_each
        (Keeps-settle_own env set (progress env set batch (outcome_in os others)) batch os others
          kept right batch (All-of_mem batch (λ m n. n)))
        (λ errs. Keeps-bind (settle env set (group is_published_share) none) _ published_keep (λ a.
          Keeps-bind (settle env set (group is_batch_share) (maybe_of others)) _ batch_keep
            (λ b. Keeps-return _)))
        (Completes-settle_own batch (All-of_mem batch (λ m n. n)))
        (λ errs. Completes-rest_each errs keys) rest-clean part_of
