-- ===== src/Publishers/Kafka/Whole.antt =====
-- The Kafka adapter hands over a batch in one call, or not at all.
use mathlib.Core.Path.{ap₂, ap}
use pg_outbox.Base.{◌≡◌, refl, ◌∙◌, ◌⊎◌, inl, inr, List, [], ◌∷◌}
use pg_outbox.Port.{Error, PanicValue}
use pg_outbox.Message.{Message}
use pg_outbox.Store.{Result, ok, err, panic}
use pg_outbox.Publishers.{Call, with_mapped}
use pg_outbox.Publishers.Kafka.{KafkaMessage, Mapper, Publisher, cons_mapped, map_all, publish}

-- The mapper's outputs for the messages, one for each and in order.
pub data Mapped (mapper : Mapper) : List Message → List KafkaMessage → Type 0 where
  none_left : Mapped mapper [] []
  mapped :
      {m : Message} {ms : List Message} {k : KafkaMessage} {ks : List KafkaMessage}
      → mapper m ≡ ok k
      → Mapped mapper ms ks
      → Mapped mapper (m ∷ ms) (k ∷ ks)

-- The answer of the first mapper call that does not map its message.
pub data Failed (mapper : Mapper) {B : Type 0} : List Message → Result B → Type 0 where
  fails_here :
      {m : Message} {ms : List Message} {e : Error}
      → mapper m ≡ err e
      → Failed mapper (m ∷ ms) (err e)
  panics_here :
      {m : Message} {ms : List Message} {v : PanicValue}
      → mapper m ≡ panic v
      → Failed mapper (m ∷ ms) (panic v)
  fails_later :
      {m : Message} {ms : List Message} {k : KafkaMessage} {r : Result B}
      → mapper m ≡ ok k
      → Failed mapper ms r
      → Failed mapper (m ∷ ms) r

cons_mapped-Failed :
    {mapper : Mapper} (k : KafkaMessage) {ms : List Message} {r : Result (List KafkaMessage)}
    → Failed mapper ms r
    → cons_mapped (ok k) r ≡ r
cons_mapped-Failed k (fails_here e) = refl
cons_mapped-Failed k (panics_here e) = refl
cons_mapped-Failed k (fails_later e f) = cons_mapped-Failed k f

map_all-cases :
    (mapper : Mapper) (msgs : List Message)
    → ((ks : List KafkaMessage) × Mapped mapper msgs ks × (map_all mapper msgs ≡ ok ks))
      ⊎ ((r : Result (List KafkaMessage)) × Failed mapper msgs r × (map_all mapper msgs ≡ r))
unfolding map_all
map_all-cases mapper [] = inl ([], none_left, refl)
map_all-cases mapper (m ∷ ms) = step (mapper m) refl (map_all-cases mapper ms)
  where
    step :
        (x : Result KafkaMessage)
        → mapper m ≡ x
        → ((ks : List KafkaMessage) × Mapped mapper ms ks × (map_all mapper ms ≡ ok ks))
          ⊎ ((r : Result (List KafkaMessage)) × Failed mapper ms r × (map_all mapper ms ≡ r))
        → ((ks : List KafkaMessage) × Mapped mapper (m ∷ ms) ks
            × (cons_mapped (mapper m) (map_all mapper ms) ≡ ok ks))
          ⊎ ((r : Result (List KafkaMessage)) × Failed mapper (m ∷ ms) r
              × (cons_mapped (mapper m) (map_all mapper ms) ≡ r))
    step (ok k) e (inl (ks, all, g)) = inl (k ∷ ks, mapped e all, ap₂ cons_mapped e g)
    step (ok k) e (inr (r, f, g)) =
        inr (r, fails_later e f, ap₂ cons_mapped e g ∙ cons_mapped-Failed k f)
    step (err x) e rest = inr (err x, fails_here e, rw e refl)
    step (panic x) e rest = inr (panic x, panics_here e, rw e refl)

-- What a failed mapping answers, without the call behind it.
with_mapped-Failed :
    {mapper : Mapper} {S : Type 0} (call : List KafkaMessage → Call S) (s : S) {ms : List Message}
    {r : Result (List KafkaMessage)}
    → Failed mapper ms r
    → (q : Result (Unit {0})) × Failed mapper ms q × (with_mapped r call s ≡ (q, s))
with_mapped-Failed call s (fails_here {e = e} h) = (err e, fails_here h, refl)
with_mapped-Failed call s (panics_here {v = v} h) = (panic v, panics_here h, refl)
with_mapped-Failed call s (fails_later h f) =
    let (q, g, w) = with_mapped-Failed call s f in (q, fails_later h g, w)

-- `Publish` calls the writer once, with the outputs of the mapper for all messages of the batch in
-- order, and returns what the writer does; or, where the mapper fails on some message, it calls the
-- writer not at all and answers with the error or the panic of the first message that it fails on.
pub publish_whole :
    {S : Type 0} (p : Publisher) (write_messages : List KafkaMessage → Call S) (msgs : List Message)
    (s : S)
    → ((ks : List KafkaMessage) × Mapped p.mapper msgs ks
        × (publish p write_messages msgs s ≡ write_messages ks s))
      ⊎ ((r : Result (Unit {0})) × Failed p.mapper msgs r
          × (publish p write_messages msgs s ≡ (r, s)))
unfolding publish
publish_whole {S} p write_messages msgs s = elim (map_all-cases p.mapper msgs) [
  | inl (ks, all, g) ↦
      inl (ks, all, ap (λ (x : Result (List KafkaMessage)). with_mapped x write_messages s) g)
  | inr (r, f, g) ↦
      let (q, h, w) = with_mapped-Failed write_messages s f in
      inr (q, h, ap (λ (x : Result (List KafkaMessage)). with_mapped x write_messages s) g ∙ w)
]
