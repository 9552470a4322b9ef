-- ===== src/Publishers/Loop.antt =====
-- What the answer of an adapter's loop says of the messages.
use pg_outbox.Base.{◌≡◌, ◌≢◌, ◌⊎◌, inl, inr, refl, List, [], ◌∷◌}
use pg_outbox.Message.{Message}
use pg_outbox.Store.{Result, ok, err, panic}
use pg_outbox.Publishers.{Call, and_then, for_each}

-- The calls for the messages, one after another, all of which returned a nil error.
pub data Accepted {S : Type 0} (send : Message → Call S) : List Message → S → S → Type 0 where
  all_sent : {s : S} → Accepted send [] s s
  one_sent :
      {m : Message} {ms : List Message} {s t u : S}
      → send m s ≡ (ok tt, t)
      → Accepted send ms t u
      → Accepted send (m ∷ ms) s u

-- The calls up to the first that did not return a nil error, with what it returned.
pub data Stopped {S : Type 0} (send : Message → Call S)
    : List Message → S → Result (Unit {0}) → S → Type 0 where
  stopped_here :
      {m : Message} {ms : List Message} {s t : S} {r : Result (Unit {0})}
      → send m s ≡ (r, t)
      → r ≢ ok tt
      → Stopped send (m ∷ ms) s r t
  stopped_later :
      {m : Message} {ms : List Message} {s t u : S} {r : Result (Unit {0})}
      → send m s ≡ (ok tt, t)
      → Stopped send ms t r u
      → Stopped send (m ∷ ms) s r u

-- A loop over the messages ends after all of them with a nil error, or at the first failure with
-- that failure.
pub for_each-cases :
    {S : Type 0} (send : Message → Call S) (ms : List Message) (s : S)
    → ((u : S) × (for_each send ms s ≡ (ok tt, u)) × Accepted send ms s u)
      ⊎ ((r : Result (Unit {0})) × (u : S) × (for_each send ms s ≡ (r, u)) × Stopped send ms s r u)
unfolding for_each
for_each-cases {S} send [] s = inl (s, refl, all_sent)
for_each-cases {S} send (m ∷ ms) s = split (send m s) refl (for_each-cases send ms)
  where
    split :
        (x : Result (Unit {0}) × S)
        → send m s ≡ x
        → ((t : S)
            → ((u : S) × (for_each send ms t ≡ (ok tt, u)) × Accepted send ms t u)
              ⊎ ((r : Result (Unit {0})) × (u : S) × (for_each send ms t ≡ (r, u))
                  × Stopped send ms t r u))
        → ((u : S) × (and_then (send m s) (for_each send ms) ≡ (ok tt, u))
            × Accepted send (m ∷ ms) s u)
          ⊎ ((r : Result (Unit {0})) × (u : S) × (and_then (send m s) (for_each send ms) ≡ (r, u))
              × Stopped send (m ∷ ms) s r u)
    split (ok tt, t) e rest = elim (rest t) [
      | inl (u, f, all) ↦ inl (u, rw e f, one_sent e all)
      | inr (r, u, f, stop) ↦ inr (r, u, rw e f, stopped_later e stop)
    ]
    split (err v, t) e rest = inr (err v, t, rw e refl, stopped_here e (λ k. cc))
    split (panic v, t) e rest = inr (panic v, t, rw e refl, stopped_here e (λ k. cc))
