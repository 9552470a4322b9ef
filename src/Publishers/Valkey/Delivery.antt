-- ===== src/Publishers/Valkey/Delivery.antt =====
-- What the answer of `StreamPublisher.Publish` says of the messages.
use Prim.Native.String.{String}
use pg_outbox.Base.{◌≡◌, ◌≢◌, refl, sym, subst, ◌⊎◌, inl, inr, List, [], ◌∷◌}
use pg_outbox.Port.{Error, PanicValue}
use pg_outbox.Message.{Message}
use pg_outbox.Store.{Result, ok, err, panic}
use pg_outbox.Publishers.Loop.{
  Accepted, all_sent, one_sent, Stopped, stopped_here, stopped_later, for_each-cases,
}
use pg_outbox.Publishers.Valkey.{Client, StreamField, StreamPublisher, send_stream, publish_stream}

-- The XADD command of a mapped message, whose id the server generates.
abbrev pub Xadd :
    {S : Type 0} → Client S → String × List StreamField → S → Result (Unit {0}) × S → Type 0
Xadd c out s answer = c.do_command (c.xadd_command out.0 "*" out.1) s ≡ answer

-- Each message has been mapped and its entry added by one XADD, in order.
pub data Added {S : Type 0} (p : StreamPublisher) (c : Client S)
    : List Message → S → S → Type 0 where
  none_left : {s : S} → Added p c [] s s
  added :
      {m : Message} {ms : List Message} {s t u : S} {out : String × List StreamField}
      → p.mapper m ≡ ok out
      → Xadd c out s (ok tt, t)
      → Added p c ms t u
      → Added p c (m ∷ ms) s u

-- The entries up to the first message whose mapper or XADD fails, with that failure: a message that
-- is not mapped sends no command.
pub data Ended {S : Type 0} (p : StreamPublisher) (c : Client S)
    : List Message → S → Result (Unit {0}) → S → Type 0 where
  unmapped :
      {m : Message} {ms : List Message} {s : S} {e : Error}
      → p.mapper m ≡ err e
      → Ended p c (m ∷ ms) s (err e) s
  panicked :
      {m : Message} {ms : List Message} {s : S} {v : PanicValue}
      → p.mapper m ≡ panic v
      → Ended p c (m ∷ ms) s (panic v) s
  refused :
      {m : Message} {ms : List Message} {s t : S} {r : Result (Unit {0})}
      {out : String × List StreamField}
      → p.mapper m ≡ ok out
      → Xadd c out s (r, t)
      → r ≢ ok tt
      → Ended p c (m ∷ ms) s r t
  behind :
      {m : Message} {ms : List Message} {s t u : S} {r : Result (Unit {0})}
      {out : String × List StreamField}
      → p.mapper m ≡ ok out
      → Xadd c out s (ok tt, t)
      → Ended p c ms t r u
      → Ended p c (m ∷ ms) s r u

module _ {S : Type 0} (p : StreamPublisher) (c : Client S) where
  abbrev Sent : Message → S → Result (Unit {0}) × S → Type 0
  Sent m s answer =
      ((out : String × List StreamField) × (p.mapper m ≡ ok out) × Xadd c out s answer)
      ⊎ ((e : Error) × (p.mapper m ≡ err e) × (answer ≡ (err e, s)))
      ⊎ ((v : PanicValue) × (p.mapper m ≡ panic v) × (answer ≡ (panic v, s)))

  send_stream-Sent :
      (m : Message) (s : S) (answer : Result (Unit {0}) × S)
      → send_stream p c m s ≡ answer
      → Sent m s answer
  send_stream-Sent m s answer h = split (p.mapper m) refl
    where
      split : (x : Result (String × List StreamField)) → p.mapper m ≡ x → Sent m s answer
      split (ok out) e = inl (out, e, rw e at h)
      split (err x) e = inr (inl (x, e, sym (rw e at h)))
      split (panic v) e = inr (inr (v, e, sym (rw e at h)))

  Accepted-Added :
      {ms : List Message} {s u : S} → Accepted (send_stream p c) ms s u → Added p c ms s u
  Accepted-Added all_sent = none_left
  Accepted-Added (one_sent {m} {ms} {s} {t} {u} e rest) = elim (send_stream-Sent m s (ok tt, t) e) [
    | inl (out, k, x) ↦ added k x (Accepted-Added rest)
    | inr (inl (x, k, bad)) ↦ cc bad
    | inr (inr (v, k, bad)) ↦ cc bad
  ]

  Stopped-Ended :
      {ms : List Message} {s u : S} {r : Result (Unit {0})}
      → Stopped (send_stream p c) ms s r u
      → Ended p c ms s r u
  Stopped-Ended (stopped_here {m} {ms} {s} {t} {r} e bad) = elim (send_stream-Sent m s (r, t) e) [
    | inl (out, k, x) ↦ refused k x bad
    | inr (inl (x, k, same)) ↦
        subst (λ (a : Result (Unit {0}) × S). Ended p c (m ∷ ms) s a.0 a.1) (sym same) (unmapped k)
    | inr (inr (v, k, same)) ↦
        subst (λ (a : Result (Unit {0}) × S). Ended p c (m ∷ ms) s a.0 a.1) (sym same) (panicked k)
  ]
  Stopped-Ended (stopped_later {m} {ms} {s} {t} e rest) = elim (send_stream-Sent m s (ok tt, t) e) [
    | inl (out, k, x) ↦ behind k x (Stopped-Ended rest)
    | inr (inl (x, k, bad)) ↦ cc bad
    | inr (inr (v, k, bad)) ↦ cc bad
  ]

-- `StreamPublisher.Publish` returns a nil error exactly after it has mapped each message of the batch
-- and added its entry by one XADD with the id "*", in order. Otherwise it returns the first failure,
-- of the mapper or of the command, after it has added the entries for the messages before it and for
-- none behind it; for the message that fails to map no command is sent.
pub publish_stream-cases :
    {S : Type 0} (p : StreamPublisher) (c : Client S) (msgs : List Message) (s : S)
    → ((u : S) × (publish_stream p c msgs s ≡ (ok tt, u)) × Added p c msgs s u)
      ⊎ ((r : Result (Unit {0})) × (u : S) × (publish_stream p c msgs s ≡ (r, u))
          × Ended p c msgs s r u)
unfolding publish_stream
publish_stream-cases p c msgs s = elim (for_each-cases (send_stream p c) msgs s) [
  | inl (u, e, all) ↦ inl (u, e, Accepted-Added p c all)
  | inr (r, u, e, stop) ↦ inr (r, u, e, Stopped-Ended p c stop)
]
