-- ===== src/Publishers/Nats/Metadata.antt =====
-- Which headers a NATS message of the default mapper has.
use pg_outbox.Base.{
  ◌≡◌, refl, ap, ◌∙◌, inl, inr, not, ◌&&◌, Option, none, some, [], ◌∷◌, if◌then◌else◌, Bool-cases,
}
use Prim.Native.String.{String}
use pg_outbox.Base.Text.{◌==◌ as ◌=s=◌}
use pg_outbox.Message.{Message, Headers}
use pg_outbox.Store.{ok}
use pg_outbox.Publishers.{entries}
use pg_outbox.Publishers.Nats.{
  NatsMessage, set_metadata, default_mapper, HeaderType, header_outbox_id, header_content_type,
  header_message_type, header_partition_key, set_when, set_all,
}

-- What natsgo.Header documents: `Set` replaces the value of one key.
pub record IsHeaderType (lib : HeaderType) : Type 0 where
  pub get-empty : (j : String) → lib.get j lib.empty ≡ none
  pub get-set :
      (k j v : String) (h : lib.Header)
      → lib.get j (lib.set k v h) ≡ (if k =s= j then some v else lib.get j h)

-- The last value of a key among the caller's headers.
abbrev pub last_value : String → Headers → Option String → Option String
last_value j [] found = found
last_value j ((k, v) ∷ rest) found = last_value j rest (if k =s= j then some v else found)

-- The value of a reserved key, where the message has it.
abbrev pub value_in : String → Headers → Option String → Option String
value_in j [] other = other
value_in j ((k, text) ∷ rest) other =
    if not (text =s= "") && k =s= j then some text else value_in j rest other

abbrev pub reserved : Message → Headers
reserved m =
    (header_partition_key, m.partition_key)
    ∷ (header_message_type, m.message_type)
    ∷ (header_content_type, m.content_type)
    ∷ (header_outbox_id, m.id)
    ∷ []

module _ (lib : HeaderType) (laws : IsHeaderType lib) where
  get-set_all :
      (j : String) (hs : Headers) (h : lib.Header)
      → lib.get j (set_all lib hs h) ≡ last_value j hs (lib.get j h)
  unfolding set_all
  get-set_all j [] h = refl
  get-set_all j ((k, v) ∷ rest) h =
      get-set_all j rest (lib.set k v h) ∙ ap (last_value j rest) (laws.get-set k j v h)

  get-set_when :
      (k j text : String) (h : lib.Header)
      → lib.get j (set_when lib k text h)
        ≡ (if not (text =s= "") && k =s= j then some text else lib.get j h)
  get-set_when k j text h = elim (Bool-cases (text =s= "")) [
    | inl e ↦ rw e refl
    | inr e ↦ rw e (laws.get-set k j text h)
  ]

  get-set_metadata :
      (j : String) (m : Message) (h : lib.Header)
      → lib.get j (set_metadata lib m h) ≡ value_in j (reserved m) (lib.get j h)
  get-set_metadata j m h =
      let h1 : lib.Header = set_when lib header_outbox_id m.id h in
      let h2 : lib.Header = set_when lib header_content_type m.content_type h1 in
      let h3 : lib.Header = set_when lib header_message_type m.message_type h2 in
      get-set_when header_partition_key j m.partition_key h3
      ∙ under header_partition_key m.partition_key (
          get-set_when header_message_type j m.message_type h2
          ∙ under header_message_type m.message_type (
              get-set_when header_content_type j m.content_type h1
              ∙ under header_content_type m.content_type (get-set_when header_outbox_id j m.id h)))
    where
      under :
          (k text : String) {x y : Option String}
          → x ≡ y
          → (if not (text =s= "") && k =s= j then some text else x)
            ≡ (if not (text =s= "") && k =s= j then some text else y)
      under k text e =
          ap (λ (z : Option String). if not (text =s= "") && k =s= j then some text else z) e

  -- The default mapper never fails. A reader of the NATS message finds for each key the value that
  -- the outbox reserves it for, where the message has one, even if the caller has set that header;
  -- for every other key, the caller's last value for it; and nothing else.
  pub default_mapper-get :
      (m : Message) (j : String)
      → (out : NatsMessage lib) × (default_mapper lib m ≡ ok out)
        × (out.subject ≡ m.topic)
        × (out.payload ≡ m.payload)
        × (lib.get j out.header ≡ value_in j (reserved m) (last_value j (entries m) none))
  unfolding default_mapper
  default_mapper-get m j = (
    _,
    refl,
    refl,
    refl,
    get-set_metadata j m (set_all lib (entries m) lib.empty)
        ∙ ap (value_in j (reserved m)) (
            get-set_all j (entries m) lib.empty ∙ ap (last_value j (entries m)) (laws.get-empty j)),
  )
