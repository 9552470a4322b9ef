-- ===== src/Publishers/Examples.antt =====
-- The adapters with clients that keep what they are given.
use pg_outbox.Publishers.Valkey.{
  raw, textual, fields_of, field_payload, field_outbox_id, field_partition_key, field_content_type,
  field_message_type, Bulk, StreamField, new_stream, send_stream, publish_stream, Clock,
}
use pg_outbox.Publishers.Valkey.Fields.{field, fields_of-read}
use pg_outbox.Base.{◌≡◌, ◌⊎◌, refl, Option, none, some, List, [], ◌∷◌, ◌++◌, if◌then◌else◌, true}
use Prim.Native.String.{String}
use pg_outbox.Base.Text.{String-discrete, ◌==◌ as ◌=s=◌}
use pg_outbox.Port.{plain}
use pg_outbox.Message.{Message, Headers}
use pg_outbox.Outbox.{value_message}
use pg_outbox.Store.{Result, ok, err}
use pg_outbox.Publishers.{Call}
use pg_outbox.Publishers.Kafka.{KafkaMessage}
use pg_outbox.Publishers.Kafka
use pg_outbox.Publishers.Kafka.Whole.{Mapped, Failed, publish_whole}
use pg_outbox.Publishers.Nats.{HeaderType}
use pg_outbox.Publishers.Nats
use pg_outbox.Publishers.Nats.Metadata.{IsHeaderType, default_mapper-get}
use pg_outbox.Publishers.Valkey
use pg_outbox.Publishers.Valkey.Delivery.{Added, Ended, publish_stream-cases}

abbrev order : Message
order = record (value_message "orders" "k" "created" (some (1 ∷ 2 ∷ [])) "text/plain") {
  id = "m";
  headers = some (("message-type", "forged") ∷ ("trace", "t1") ∷ []);
}

abbrev batch : List Message
batch = order ∷ record order { id = "n" } ∷ []

abbrev write : List KafkaMessage → Call (List KafkaMessage)
write ks sent = (ok tt, sent ++ ks)

publish_whole_example :
    ((ks : List KafkaMessage) × Mapped (Kafka.new []).mapper batch ks
      × (Kafka.publish (Kafka.new []) write batch [] ≡ write ks []))
    ⊎ ((r : Result (Unit {0})) × Failed (Kafka.new []).mapper batch r
        × (Kafka.publish (Kafka.new []) write batch [] ≡ (r, [])))
publish_whole_example = publish_whole (Kafka.new []) write batch []

abbrev first_value : String → Headers → Option String
first_value j [] = none
first_value j ((k, v) ∷ rest) = if k =s= j then some v else first_value j rest

-- Headers as the pairs that were set, the latest first.
abbrev pairs : HeaderType
pairs = record { Header = Headers; empty = []; set = λ k v h. (k, v) ∷ h; get = first_value }

pairs_lawful : IsHeaderType pairs
pairs_lawful = record { get-empty = λ j. refl; get-set = λ k j v h. refl }

default_mapper-get_example :
    (out : Nats.NatsMessage pairs) × (Nats.default_mapper pairs order ≡ ok out)
    × (out.subject ≡ "orders")
    × (out.payload ≡ some (1 ∷ 2 ∷ []))
    × (first_value "message-type" out.header ≡ some "created")
unfolding String-discrete
default_mapper-get_example = default_mapper-get pairs pairs_lawful order "message-type"

abbrev clock : Clock
clock = record { is_zero = λ t. true; unix_nano = λ t. "0" }

-- A server that takes one entry and then fails.
abbrev small_server : Valkey.Client (List (String × List StreamField))
small_server = record {
  Command = String × List StreamField;
  publish_command = λ channel message. (channel, []);
  xadd_command = λ stream id fields. (stream, fields);
  do_command = once;
}
  where
    once : String × List StreamField → Call (List (String × List StreamField))
    once c [] = (ok tt, c ∷ [])
    once c (d ∷ ds) = (err (plain "full"), d ∷ ds)

publish_stream-cases_example :
    ((u : List (String × List StreamField)) × (publish_stream
          (new_stream clock [])
          small_server
          batch
          []
        ≡ (ok tt, u))
      × Added (new_stream clock []) small_server batch [] u)
    ⊎ ((r : Result (Unit {0})) × (u : List (String × List StreamField)) × (publish_stream
            (new_stream clock [])
            small_server
            batch
            []
          ≡ (r, u))
        × Ended (new_stream clock []) small_server batch [] r u)
publish_stream-cases_example = publish_stream-cases (new_stream clock []) small_server batch []

-- A caller's header with the name of a reserved field stands behind the prefix.
abbrev shadowing : Message
shadowing = record order {
  headers = some (("payload", "forged") ∷ ("pg_outbox_id", "forged") ∷ []);
}

fields_of-read_example :
    (field field_payload (fields_of clock shadowing) ≡ some (raw (1 ∷ 2 ∷ [])))
    × (field field_outbox_id (fields_of clock shadowing) ≡ some (textual "m"))
    × (field field_partition_key (fields_of clock shadowing) ≡ some (textual "k"))
    × (field field_content_type (fields_of clock shadowing) ≡ some (textual "text/plain"))
    × (field field_message_type (fields_of clock shadowing) ≡ some (textual "created"))
    × (field "header.payload" (fields_of clock shadowing) ≡ some (textual "forged"))
unfolding String-discrete
fields_of-read_example = fields_of-read clock shadowing "payload"
