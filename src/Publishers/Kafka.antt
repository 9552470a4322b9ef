-- ===== src/Publishers/Kafka.antt =====
-- contrib/publishers/kafka/kafka.go. The bytes of a text stand as the text.
pub mod Whole
use pg_outbox.Base.{ℕ, Option, none, some, List, [], ◌∷◌, ◌++◌, if◌then◌else◌}
use Prim.Native.String.{String}
use pg_outbox.Message.{Message}
use pg_outbox.Store.{Result, ok, err, panic}
use pg_outbox.Publishers.{Call, with_mapped, entries, when_set}

-- kafkago.Message, as far as the adapter fills it in.
pub record KafkaMessage : Type 0 where
  pub topic : String
  pub key : String
  pub value : Option (List ℕ)
  pub headers : List (String × String)

abbrev pub header_outbox_id : String
header_outbox_id = "pg-outbox-id"

abbrev pub header_content_type : String
header_content_type = "content-type"

abbrev pub header_message_type : String
header_message_type = "message-type"

abbrev pub Mapper : Type 0
Mapper = Message → Result KafkaMessage

-- `appendMetadata`
abbrev pub append_metadata : List (String × String) → Message → List (String × String)
append_metadata headers m =
    headers
    ++ (when_set m.id (header_outbox_id, m.id)
        ++ (when_set m.content_type (header_content_type, m.content_type)
            ++ when_set m.message_type (header_message_type, m.message_type)))

-- `DefaultMapper`
unfoldable pub default_mapper : Mapper
default_mapper m = ok (record {
  topic = m.topic;
  key = m.partition_key;
  value = m.payload;
  headers = append_metadata (entries m) m;
})

-- A Publisher: the writer is a parameter of its calls.
pub record Publisher : Type 0 where
  pub mapper : Mapper

-- `WithMapper`; a nil mapper changes nothing.
abbrev pub with_mapper : Option Mapper → Publisher → Publisher
with_mapper none p = p
with_mapper (some mapper) p = record p { mapper = mapper }

-- `New`
unfoldable pub new : List (Publisher → Publisher) → Publisher
new opts = apply opts (record { mapper = default_mapper })
  where
    apply : List (Publisher → Publisher) → Publisher → Publisher
    apply [] p = p
    apply (opt ∷ rest) p = apply rest (opt p)

abbrev pub cons_mapped :
    Result KafkaMessage → Result (List KafkaMessage) → Result (List KafkaMessage)
cons_mapped (ok k) (ok ks) = ok (k ∷ ks)
cons_mapped (ok k) (err e) = err e
cons_mapped (ok k) (panic v) = panic v
cons_mapped (err e) rest = err e
cons_mapped (panic v) rest = panic v

-- The loop of `Publish`, which maps the whole batch.
unfoldable pub map_all : Mapper → List Message → Result (List KafkaMessage)
map_all mapper [] = ok []
map_all mapper (m ∷ ms) = cons_mapped (mapper m) (map_all mapper ms)

-- `Publish`
unfoldable pub publish :
    {S : Type 0} → Publisher → (List KafkaMessage → Call S) → List Message → Call S
publish p write_messages msgs = with_mapped (map_all p.mapper msgs) write_messages
