-- ===== src/Publishers/Valkey/Fields.antt =====
-- The fields of a stream entry: what a consumer reads back from them.
use pg_outbox.Base.{
  ◌≡◌, refl, ap, ◌∙◌, ◌≢◌, inl, inr, false, Option, none, some, List, [], ◌∷◌, ◌++◌, map,
  if◌then◌else◌, Bool-cases, arith,
}
use Prim.Native.String.{String, ◌++◌ as ◌<>◌}
use pg_outbox.Base.Text.{◌==◌ as ◌=s=◌, ==_self}
use text.Mathlib.TextEquality.{eq_iff}
use pg_outbox.Message.{Message, Headers}
use pg_outbox.Store.Enqueue.{bytes_of}
use pg_outbox.Publishers.{entries}
use pg_outbox.Publishers.Valkey.Prefix.{head_code, prefix_apart, prefix_eq, prefix_apart_rev}
use pg_outbox.Publishers.Valkey.{
  Bulk, raw, textual, StreamField, Clock, header_prefix, text_field, header_field, when_created,
  fields_of, field_payload, field_outbox_id, field_partition_key, field_content_type,
  field_message_type, field_created_at,
}

-- The first field of a name.
unfoldable pub field : String → List StreamField → Option Bulk
field name [] = none
field name (f ∷ fs) = if f.name =s= name then some f.value else field name fs

field-header_field :
    (name : String) (hs : Headers) → head_code name ≢ 104 → field name (map header_field hs) ≡ none
unfolding field
field-header_field name [] other = refl
field-header_field name ((k, v) ∷ hs) other =
    rw (prefix_apart k name other) (field-header_field name hs other)

-- What a text of the message reads back as: an empty one has no field.
abbrev pub set_text : String → Option Bulk
set_text value = if value =s= "" then none else some (textual value)

-- A field of another name.
skip_text :
    (name key value : String) (fs : List StreamField)
    → (key =s= name) ≡ false
    → field name (text_field key value ++ fs) ≡ field name fs
unfolding field
skip_text name key value fs e = elim (Bool-cases (value =s= "")) [
  | inl k ↦ rw k refl
  | inr k ↦ rw k (rw e refl)
]

skip_created :
    (clock : Clock) (m : Message) (name : String) (fs : List StreamField)
    → (field_created_at =s= name) ≡ false
    → field name (when_created clock m ++ fs) ≡ field name fs
unfolding field
skip_created clock m name fs e = elim (Bool-cases (clock.is_zero m.created_at)) [
  | inl k ↦ rw k refl
  | inr k ↦ rw k (rw e refl)
]

own_text :
    (name value : String) (fs : List StreamField)
    → field name fs ≡ none
    → field name (text_field name value ++ fs) ≡ set_text value
unfolding field
own_text name value fs e = elim (Bool-cases (value =s= "")) [
  | inl k ↦ rw k e
  | inr k ↦ rw k (rw (==_self name) refl)
]

module _ (clock : Clock) (m : Message) where
  -- The fields from a place on.
  abbrev from_created : List StreamField
  from_created = when_created clock m ++ map header_field (entries m)

  abbrev from_type : List StreamField
  from_type = text_field field_message_type m.message_type ++ from_created

  abbrev from_content : List StreamField
  from_content = text_field field_content_type m.content_type ++ from_type

  abbrev from_key : List StreamField
  from_key = text_field field_partition_key m.partition_key ++ from_content

  past_payload :
      (name : String)
      → (field_payload =s= name) ≡ false
      → field name (fields_of clock m) ≡ field name (text_field field_outbox_id m.id ++ from_key)
  unfolding field
  past_payload name e = rw e refl

  -- No other field has one of the reserved names.
  unset :
      (name : String)
      → (field_created_at =s= name) ≡ false
      → head_code name ≢ 104
      → field name from_created ≡ none
  unset name e other =
      skip_created clock m name (map header_field (entries m)) e
      ∙ field-header_field name (entries m) other

  read_id : field field_outbox_id (fields_of clock m) ≡ set_text m.id
  read_id =
      past_payload field_outbox_id (ground (arith, eq_iff field_payload field_outbox_id))
      ∙ own_text field_outbox_id m.id from_key (
          skip_text field_outbox_id field_partition_key m.partition_key from_content
            (ground (arith, eq_iff field_partition_key field_outbox_id))
          ∙ skip_text field_outbox_id field_content_type m.content_type from_type
              (ground (arith, eq_iff field_content_type field_outbox_id))
          ∙ skip_text field_outbox_id field_message_type m.message_type from_created
              (ground (arith, eq_iff field_message_type field_outbox_id))
          ∙ unset field_outbox_id (ground (arith, eq_iff field_created_at field_outbox_id))
              (λ k. absurd (omega arith)))

  read_partition_key : field field_partition_key (fields_of clock m) ≡ set_text m.partition_key
  read_partition_key =
      past_payload field_partition_key (ground (arith, eq_iff field_payload field_partition_key))
      ∙ skip_text field_partition_key field_outbox_id m.id from_key
          (ground (arith, eq_iff field_outbox_id field_partition_key))
      ∙ own_text field_partition_key m.partition_key from_content (
          skip_text field_partition_key field_content_type m.content_type from_type
            (ground (arith, eq_iff field_content_type field_partition_key))
          ∙ skip_text field_partition_key field_message_type m.message_type from_created
              (ground (arith, eq_iff field_message_type field_partition_key))
          ∙ unset field_partition_key (ground (arith, eq_iff field_created_at field_partition_key))
              (λ k. absurd (omega arith)))

  read_content_type : field field_content_type (fields_of clock m) ≡ set_text m.content_type
  read_content_type =
      past_payload field_content_type (ground (arith, eq_iff field_payload field_content_type))
      ∙ skip_text field_content_type field_outbox_id m.id from_key
          (ground (arith, eq_iff field_outbox_id field_content_type))
      ∙ skip_text field_content_type field_partition_key m.partition_key from_content
          (ground (arith, eq_iff field_partition_key field_content_type))
      ∙ own_text field_content_type m.content_type from_type (
          skip_text field_content_type field_message_type m.message_type from_created
            (ground (arith, eq_iff field_message_type field_content_type))
          ∙ unset field_content_type (ground (arith, eq_iff field_created_at field_content_type))
              (λ k. absurd (omega arith)))

  read_message_type : field field_message_type (fields_of clock m) ≡ set_text m.message_type
  read_message_type =
      past_payload field_message_type (ground (arith, eq_iff field_payload field_message_type))
      ∙ skip_text field_message_type field_outbox_id m.id from_key
          (ground (arith, eq_iff field_outbox_id field_message_type))
      ∙ skip_text field_message_type field_partition_key m.partition_key from_content
          (ground (arith, eq_iff field_partition_key field_message_type))
      ∙ skip_text field_message_type field_content_type m.content_type from_type
          (ground (arith, eq_iff field_content_type field_message_type))
      ∙ own_text field_message_type m.message_type from_created (
          unset field_message_type (ground (arith, eq_iff field_created_at field_message_type))
            (λ k. absurd (omega arith)))

-- The first value of a header.
abbrev pub first_header : String → Headers → Option Bulk
first_header j [] = none
first_header j ((k, v) ∷ rest) = if k =s= j then some (textual v) else first_header j rest

field-headers :
    (j : String) (hs : Headers)
    → field (header_prefix <> j) (map header_field hs) ≡ first_header j hs
unfolding field
field-headers j [] = refl
field-headers j ((k, v) ∷ rest) =
    rw (prefix_eq k j)
      (ap (λ (z : Option Bulk). if k =s= j then some (textual v) else z) (field-headers j rest))

read_header :
    (clock : Clock) (m : Message) (j : String)
    → field (header_prefix <> j) (fields_of clock m) ≡ first_header j (entries m)
read_header clock m j =
    past_payload clock m name (prefix_apart_rev field_payload j (λ k. absurd (omega arith)))
    ∙ skip_text name field_outbox_id m.id (from_key clock m)
        (prefix_apart_rev field_outbox_id j (λ k. absurd (omega arith)))
    ∙ skip_text name field_partition_key m.partition_key (from_content clock m)
        (prefix_apart_rev field_partition_key j (λ k. absurd (omega arith)))
    ∙ skip_text name field_content_type m.content_type (from_type clock m)
        (prefix_apart_rev field_content_type j (λ k. absurd (omega arith)))
    ∙ skip_text name field_message_type m.message_type (from_created clock m)
        (prefix_apart_rev field_message_type j (λ k. absurd (omega arith)))
    ∙ skip_created clock m name (map header_field (entries m))
        (prefix_apart_rev field_created_at j (λ k. absurd (omega arith)))
    ∙ field-headers j (entries m)
  where
    name : String
    name = header_prefix <> j

-- A consumer finds in a stream entry what the message had: the payload, the outbox id, the partition
-- key, the content type and the message type under their names, the last four where they are not
-- empty, and each header of the caller under its name behind the prefix. No header, whatever its
-- name, hides one of the others.
pub fields_of-read :
    (clock : Clock) (m : Message) (j : String)
    → (field field_payload (fields_of clock m) ≡ some (raw (bytes_of m.payload)))
      × (field field_outbox_id (fields_of clock m) ≡ set_text m.id)
      × (field field_partition_key (fields_of clock m) ≡ set_text m.partition_key)
      × (field field_content_type (fields_of clock m) ≡ set_text m.content_type)
      × (field field_message_type (fields_of clock m) ≡ set_text m.message_type)
      × (field (header_prefix <> j) (fields_of clock m) ≡ first_header j (entries m))
unfolding field
fields_of-read clock m j = (
  rw (==_self field_payload) refl,
  read_id clock m,
  read_partition_key clock m,
  read_content_type clock m,
  read_message_type clock m,
  read_header clock m j,
)
