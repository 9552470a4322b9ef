-- ===== src/Publishers/Valkey.antt =====
-- contrib/publishers/valkey/valkey.go. The commands of the client library are a type with the two
-- builders that the adapter uses. A bulk string is bytes or a text.
pub mod Delivery
pub mod Fields
pub mod Prefix
use pg_outbox.Base.{ℕ, Bool, Option, none, some, List, [], ◌∷◌, ◌++◌, map, if◌then◌else◌}
use Prim.Native.String.{String, ◌++◌ as ◌<>◌}
use pg_outbox.Message.{Message}
use pg_outbox.Store.{Result, ok}
use pg_outbox.Store.Enqueue.{bytes_of}
use pg_outbox.Publishers.{Call, for_each, with_mapped, entries, when_set}

pub data Bulk : Type 0 where
  raw : List ℕ → Bulk
  textual : String → Bulk

abbrev pub field_payload : String
field_payload = "payload"

abbrev pub field_outbox_id : String
field_outbox_id = "pg_outbox_id"

abbrev pub field_partition_key : String
field_partition_key = "partition_key"

abbrev pub field_content_type : String
field_content_type = "content_type"

abbrev pub field_message_type : String
field_message_type = "message_type"

abbrev pub field_created_at : String
field_created_at = "created_at_unix_nano"

abbrev pub header_prefix : String
header_prefix = "header."

-- StreamField
pub record StreamField : Type 0 where
  pub name : String
  pub value : Bulk

abbrev pub PubSubMapper : Type 0
PubSubMapper = Message → Result (String × Bulk)

abbrev pub StreamMapper : Type 0
StreamMapper = Message → Result (String × List StreamField)

-- `DefaultPubSubMapper`
unfoldable pub default_pub_sub_mapper : PubSubMapper
default_pub_sub_mapper m = ok (m.topic, raw (bytes_of m.payload))

-- Times, as the `time` package has them.
pub record Clock : Type 0 where
  pub is_zero : ℕ → Bool
  pub unix_nano : ℕ → String  -- in decimal

abbrev pub when_created : Clock → Message → List StreamField
when_created clock m =
    if clock.is_zero m.created_at
    then []
    else record { name = field_created_at; value = textual (clock.unix_nano m.created_at) } ∷ []

abbrev pub text_field : String → String → List StreamField
text_field name value = when_set value (record { name = name; value = textual value })

abbrev pub header_field : String × String → StreamField
header_field (k, v) = record { name = header_prefix <> k; value = textual v }

-- The fields of `DefaultStreamMapper`.
abbrev pub fields_of : Clock → Message → List StreamField
fields_of clock m =
    record { name = field_payload; value = raw (bytes_of m.payload) }
    ∷ (text_field field_outbox_id m.id
        ++ (text_field field_partition_key m.partition_key
            ++ (text_field field_content_type m.content_type
                ++ (text_field field_message_type m.message_type
                    ++ (when_created clock m ++ map header_field (entries m))))))

-- `DefaultStreamMapper`
unfoldable pub default_stream_mapper : Clock → StreamMapper
default_stream_mapper clock m = ok (m.topic, fields_of clock m)

-- The client: how it builds the two commands, and `Do`.
pub record Client (S : Type 0) : Type 1 where
  pub Command : Type 0
  pub publish_command : String → Bulk → Command
  pub xadd_command : String → String → List StreamField → Command
  pub do_command : Command → Call S

pub record PubSubPublisher : Type 0 where
  pub mapper : PubSubMapper

pub record StreamPublisher : Type 0 where
  pub mapper : StreamMapper

-- `WithPubSubMapper` and `WithStreamMapper`; a nil mapper changes nothing.
abbrev pub with_pub_sub_mapper : Option PubSubMapper → PubSubPublisher → PubSubPublisher
with_pub_sub_mapper none p = p
with_pub_sub_mapper (some mapper) p = record p { mapper = mapper }

abbrev pub with_stream_mapper : Option StreamMapper → StreamPublisher → StreamPublisher
with_stream_mapper none p = p
with_stream_mapper (some mapper) p = record p { mapper = mapper }

abbrev pub apply_options {ℓ} : {P : Type ℓ} → List (P → P) → P → P
apply_options [] p = p
apply_options (opt ∷ rest) p = apply_options rest (opt p)

-- `NewPubSub` and `NewStream`
unfoldable pub new_pub_sub : List (PubSubPublisher → PubSubPublisher) → PubSubPublisher
new_pub_sub opts = apply_options opts (record { mapper = default_pub_sub_mapper })

unfoldable pub new_stream : Clock → List (StreamPublisher → StreamPublisher) → StreamPublisher
new_stream clock opts = apply_options opts (record { mapper = default_stream_mapper clock })

-- One round of the loop of `PubSubPublisher.Publish`.
abbrev pub send_pub_sub : {S : Type 0} → PubSubPublisher → Client S → Message → Call S
send_pub_sub p c m = with_mapped (p.mapper m) (λ out. c.do_command (c.publish_command out.0 out.1))

-- `PubSubPublisher.Publish`
unfoldable pub publish_pub_sub : {S : Type 0} → PubSubPublisher → Client S → List Message → Call S
publish_pub_sub p c = for_each (send_pub_sub p c)

-- One round of the loop of `StreamPublisher.Publish`; the entry id is "*".
abbrev pub send_stream : {S : Type 0} → StreamPublisher → Client S → Message → Call S
send_stream p c m = with_mapped (p.mapper m) (λ out. c.do_command (c.xadd_command out.0 "*" out.1))

-- `StreamPublisher.Publish`
unfoldable pub publish_stream : {S : Type 0} → StreamPublisher → Client S → List Message → Call S
publish_stream p c = for_each (send_stream p c)
