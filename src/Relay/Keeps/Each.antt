-- ===== src/Relay/Keeps/Each.antt =====
-- `settleEach` keeps to every relation that the right completions of the batch's messages keep to.
use mathlib.Core.List.{Memᴰ}
use pg_outbox.Base.{◌≡◌, refl, ap, Bool, true, All, Option, none, some, List, [], ◌∷◌, select}
use pg_outbox.Table.Rows.{All-of_mem, mem-select}
use pg_outbox.Relay.Verdict.{outcome_in}
use pg_outbox.Relay.Settle.{
  settle_share, settle, push, join_errors, Share, share_of, publishes_it, takes_batch, has_own,
  settle_own, settle_each, is_published_share, is_batch_share, maybe_of, append_errors,
}
use pg_outbox.Config.{Settings}
use pg_outbox.Message.{Message}
use pg_outbox.Port.{nil, just, entry, Error, Outcomes, MaybeError, no_errors}
use pg_outbox.Relay.{Env, return, ◌>>=◌}
use pg_outbox.Relay.Keeps.{TableOrder, Keeps, OthersKeep, Keeps-return, Keeps-bind}
use pg_outbox.Relay.Keeps.Settling.{RightKeeps, Keeps-settle}

-- The share of a message tells its outcome.
abbrev share_at : Option MaybeError → MaybeError → Share
share_at x others = elim x [
  | none ↦ elim others [ nil ↦ publishes_it | just e ↦ takes_batch ]
  | some nil ↦ publishes_it
  | some (just e) ↦ has_own e
]

abbrev outcome_at : Option MaybeError → MaybeError → Option Error
outcome_at x others = elim x [ none ↦ maybe_of others | some e ↦ maybe_of e ]

pub own-outcome :
    (x : Option MaybeError) (others : MaybeError) (e : Error)
    → share_at x others ≡ has_own e
    → outcome_at x others ≡ some e
own-outcome none nil e h = cc
own-outcome none (just f) e h = cc
own-outcome (some nil) others e h = cc
own-outcome (some (just f)) others e h = ap as_outcome h
  where
    as_outcome : Share → Option Error
    as_outcome publishes_it = none
    as_outcome takes_batch = none
    as_outcome (has_own f) = some f

pub published-outcome :
    (x : Option MaybeError) (others : MaybeError)
    → is_published_share (share_at x others) ≡ true
    → outcome_at x others ≡ none
published-outcome none nil h = refl
published-outcome none (just f) h = cc
published-outcome (some nil) others h = refl
published-outcome (some (just f)) others h = cc

pub batch-outcome :
    (x : Option MaybeError) (others : MaybeError)
    → is_batch_share (share_at x others) ≡ true
    → outcome_at x others ≡ maybe_of others
batch-outcome none others h = refl
batch-outcome (some nil) others h = cc
batch-outcome (some (just f)) others h = cc

module _ (env : Env) (set : Settings) (o : TableOrder) (batch : List Message) (os : Outcomes)
    (others : MaybeError) (others_keep : OthersKeep env o)
    (right_keeps : RightKeeps env set o batch (outcome_in os others)) where
  pub Keeps-settle_own :
      (ms : List Message) → All (λ m. Memᴰ m batch) ms → Keeps o (settle_own env set os others ms)
  unfolding settle_own
  Keeps-settle_own [] h = Keeps-return no_errors
  Keeps-settle_own (m ∷ ms) h = by_share (share_of os others m) refl (Keeps-settle_own ms h.1)
    where
      by_share :
          (s : Share)
          → share_of os others m ≡ s
          → Keeps o (settle_own env set os others ms)
          → Keeps o (settle_share env set s m (settle_own env set os others ms))
      by_share publishes_it q k = k
      by_share takes_batch q k = k
      by_share (has_own e) q k =
          Keeps-bind (settle env set (m ∷ []) (some e))
            (λ r. settle_own env set os others ms >>= λ es. return (push r es))
            (Keeps-settle env set o batch (outcome_in os others) others_keep right_keeps (m ∷ [])
              (some e) ((h.0, own-outcome (entry m.id os) others e q), tt))
            (λ r.
              Keeps-bind (settle_own env set os others ms) (λ es. return (push r es)) k
                (λ es. Keeps-return (push r es)))

  -- The messages that pass a test of their shares, as one group.
  pub Keeps-group :
      (p : Share → Bool) (perr : Option Error)
      → ((m : Message) → p (share_of os others m) ≡ true → outcome_in os others m ≡ perr)
      → Keeps o (settle env set (select (λ m. p (share_of os others m)) batch) perr)
  Keeps-group p perr h =
      Keeps-settle env set o batch (outcome_in os others) others_keep right_keeps
        (select (λ m. p (share_of os others m)) batch) perr
        (All-of_mem _ (λ m n.
          let (inside, q) = mem-select (λ m. p (share_of os others m)) batch n in (inside, h m q)))

  pub Keeps-settle_each : Keeps o (settle_each env set batch os others)
  unfolding settle_each
  Keeps-settle_each =
      Keeps-bind (settle_own env set os others batch) _
        (Keeps-settle_own batch (All-of_mem batch (λ m n. n)))
        (λ errs.
          Keeps-bind
            (settle env set (select (λ m. is_published_share (share_of os others m)) batch) none) _
            (Keeps-group is_published_share none
              (λ m q. published-outcome (entry m.id os) others q))
            (λ a.
              Keeps-bind
                (settle env set (select (λ m. is_batch_share (share_of os others m)) batch)
                  (maybe_of others))
                _
                (Keeps-group is_batch_share (maybe_of others)
                  (λ m q. batch-outcome (entry m.id os) others q))
                (λ b. Keeps-return (join_errors (append_errors errs (push a (push b no_errors)))))))
