-- ===== src/Publishers/Nats.antt =====
-- contrib/publishers/nats/nats.go. The client and the header type are the library's.
pub mod Metadata
use pg_outbox.Base.{ℕ, Bool, true, false, Option, none, some, List, [], ◌∷◌, if◌then◌else◌}
use Prim.Native.String.{String}
use pg_outbox.Base.Text.{◌==◌ as ◌=s=◌}
use pg_outbox.Message.{Message, Headers}
use pg_outbox.Store.{Result, ok}
use pg_outbox.Publishers.{Call, and_then, for_each, with_mapped, entries}

abbrev pub header_outbox_id : String
header_outbox_id = "pg-outbox-id"

abbrev pub header_content_type : String
header_content_type = "content-type"

abbrev pub header_message_type : String
header_message_type = "message-type"

abbrev pub header_partition_key : String
header_partition_key = "partition-key"

-- natsgo.Header: an empty one, `Set`, and the value that a reader gets for a key.
pub record HeaderType : Type 1 where
  pub Header : Type 0
  pub empty : Header
  pub set : String → String → Header → Header
  pub get : String → Header → Option String

module _ (lib : HeaderType) where
  pub record NatsMessage : Type 0 where
    pub subject : String
    pub payload : Option (List ℕ)
    pub header : lib.Header

  abbrev pub Mapper : Type 0
  Mapper = Message → Result NatsMessage

  abbrev pub set_when : String → String → lib.Header → lib.Header
  set_when key text h = if text =s= "" then h else lib.set key text h

  -- `setMetadata`
  abbrev pub set_metadata : Message → lib.Header → lib.Header
  set_metadata m h = set_when header_partition_key m.partition_key (
      set_when header_message_type m.message_type
        (set_when header_content_type m.content_type (set_when header_outbox_id m.id h)))

  -- `for k, v := range m.Headers { msg.Header.Set(k, v) }`
  unfoldable pub set_all : Headers → lib.Header → lib.Header
  set_all [] h = h
  set_all ((k, v) ∷ rest) h = set_all rest (lib.set k v h)

  -- `DefaultMapper`
  unfoldable pub default_mapper : Mapper
  default_mapper m = ok (record {
    subject = m.topic;
    payload = m.payload;
    header = set_metadata m (set_all (entries m) lib.empty);
  })

  -- The calls of the client.
  pub record Client (S : Type 0) : Type 0 where
    pub publish_msg : NatsMessage → Call S
    pub flush : Call S

  pub record Publisher : Type 0 where
    pub mapper : Mapper
    pub flush : Bool

  -- `WithMapper`; a nil mapper changes nothing.
  abbrev pub with_mapper : Option Mapper → Publisher → Publisher
  with_mapper none p = p
  with_mapper (some mapper) p = record p { mapper = mapper }

  -- `WithoutFlush`
  abbrev pub without_flush : Publisher → Publisher
  without_flush p = record p { flush = false }

  -- `New`
  unfoldable pub new : List (Publisher → Publisher) → Publisher
  new opts = apply opts (record { mapper = default_mapper; flush = true })
    where
      apply : List (Publisher → Publisher) → Publisher → Publisher
      apply [] p = p
      apply (opt ∷ rest) p = apply rest (opt p)

  -- One round of the loop of `Publish`.
  abbrev pub send : {S : Type 0} → Publisher → Client S → Message → Call S
  send p c m = with_mapped (p.mapper m) c.publish_msg

  -- `Publish`
  unfoldable pub publish : {S : Type 0} → Publisher → Client S → List Message → Call S
  publish p c msgs s =
      and_then (for_each (send p c) msgs s) (λ t. if p.flush then c.flush t else (ok tt, t))
