-- ===== src/Store/Enqueue.antt =====
-- engine/store.go: `Enqueue`.
pub mod Dedupe
use pg_outbox.Base.{
  ℕ, zero, suc, ◌+◌, ◌-◌, ◌*◌, ◌/◌, ◌%◌, ◌^◌, ◌≤◌, ◌<◌, ◌≡◌, refl, sym, ap, subst, ◌∙◌, ◌≢◌, ◌↔◌,
  ◌⊎◌, inl, inr, ite, Bool, true, false, not, ◌&&◌, ◌||◌, Option, none, some, List, [], ◌∷◌, ◌++◌,
  map, arith, dec_lt, ℕ_discrete, ltb, leb, if◌then◌else◌, tests, Bool-cases, Option-cases, length,
  take, select, All, length-append,
}
use pg_outbox.Base.Int.{
  ℤ, pos, negsuc, pos_part, neg_part, ◌≤ℤ◌, ◌<ℤ◌, ltb_ℤ, leb_ℤ, to_bits, of_bits, shl64, IsInt64,
}
use Prim.Native.String.{String}
use pg_outbox.Base.Text.{◌==◌ as ◌=s=◌}
use pg_outbox.Message.{is_nil, Message, Headers, pending}
use pg_outbox.Port.{Error, wrapped}
use pg_outbox.Table.{Row, Table, contains, ids}
use pg_outbox.Store.{max_int4, Db, Json, Result, ok, err, panic, run, null_str}

-- A message with its headers marshalled: one row of the VALUES list, before or after its casts. After
-- them the id and the headers are in the text that the columns give back; an id of no text is NULL.
pub record Values : Type 0 where
  pub message : Message
  pub header_text : String

-- `$1::uuid`
abbrev pub cast_id : Db → String → Option String
cast_id db id = if id =s= "" then some "" else db.read_uuid id

-- Whether the column max_attempts can hold the number.
abbrev pub fits_int4 : Option ℤ → Bool
fits_int4 none = true
fits_int4 (some n) = leb_ℤ (negsuc max_int4) n && leb_ℤ n (pos max_int4)

-- `$1::uuid`, `$5::jsonb` and the int of `$8`; `none` where the server refuses one.
abbrev pub cast_value : Db → Values → Option Values
cast_value db v = elim (cast_id db v.message.id) [
  | none ↦ none
  | some id ↦ elim (db.jsonb v.header_text) [
    | none ↦ none
    | some text ↦
        if fits_int4 v.message.max_attempts
        then some (record { message = record v.message { id = id }; header_text = text })
        else none
  ]
]

unfoldable pub cast_values : Db → List Values → Option (List Values)
cast_values db [] = some []
cast_values db (v ∷ vs) = elim (cast_value db v) [
  | none ↦ none
  | some w ↦ elim (cast_values db vs) [ none ↦ none | some ws ↦ some (w ∷ ws) ]
]

-- COALESCE($1::uuid, gen_random_uuid()), of a cast id.
abbrev pub new_id : Db → ℕ → String → String
new_id db seq id = if id =s= "" then db.uuid seq else id

-- A nil payload is NULL; the column refuses it, so the value here is never read.
abbrev pub bytes_of : Option (List ℕ) → List ℕ
bytes_of none = []
bytes_of (some bytes) = bytes

-- The row that is inserted for a cast value: the given columns, and the defaults of migrations/*.sql for the others.
unfoldable pub new_row : Db → ℕ → Values → Row
new_row db seq v = record {
  id = new_id db seq v.message.id;
  topic = v.message.topic;
  partition_key = null_str v.message.partition_key;
  payload = bytes_of v.message.payload;
  headers = v.header_text;
  content_type = null_str v.message.content_type;
  message_type = null_str v.message.message_type;
  status = pending;
  attempts = 0;
  max_attempts = v.message.max_attempts;
  locked_by = none;
  locked_until = none;
  next_attempt_at = db.now;
  last_error = none;
  created_at = db.now;
  published_at = none;
  lease_token = none;
  finished_at = none;
  seq = seq;
}

-- ON CONFLICT (id) DO NOTHING; the sequence moves on either way.
unfoldable pub insert_row : Db → Values → Table → Table
insert_row db v t =
    let row = new_row db t.next_seq v in
    record {
      rows = if contains (ids t.rows) row.id then t.rows else t.rows ++ row ∷ [];
      next_seq = t.next_seq + 1;
    }

-- Whether a value would put NULL into the payload column, which fails the whole statement.
abbrev pub null_payloads : List Values → Bool
null_payloads [] = false
null_payloads (v ∷ vs) = is_nil v.message.payload || null_payloads vs

abbrev pub insert_rows : Db → List Values → Table → Table
insert_rows db [] t = t
insert_rows db (v ∷ vs) t = insert_rows db vs (insert_row db v t)

-- The statement of `Enqueue` on the cast values; a value that is refused fails it as a whole.
abbrev pub insert_cast : Db → Table → Option (List Values) → Table × Result (Unit {0})
insert_cast db t none = (t, err db.malformed)
insert_cast db t (some vs) =
    if null_payloads vs then (t, err db.null_payload) else (insert_rows db vs t, ok tt)

-- The statement of `Enqueue`, once all headers are marshalled.
abbrev pub insert_values : Db → Table → Result (List Values) → Table × Result (Unit {0})
insert_values db t (err e) = (t, err e)
insert_values db t (panic v) = (t, panic v)
insert_values db t (ok vs) = run db.reply t (insert_cast db t (cast_values db vs))

module _ (json : Json) where
  -- The loop over the messages; nil headers are marshalled as the empty map.
  unfoldable pub values_of : List Message → Result (List Values)
  values_of [] = ok []
  values_of (m ∷ ms) = elim (json.marshal (elim m.headers [ none ↦ [] | some h ↦ h ])) [
    | none ↦ err (wrapped "outbox: marshal headers" json.marshal_error)
    | some text ↦ elim (values_of ms) [
      | ok vs ↦ ok (record { message = m; header_text = text } ∷ vs)
      | err e ↦ err e
      | panic v ↦ panic v
    ]
  ]

  -- `Enqueue`. An empty batch makes no call.
  unfoldable pub enqueue : Db → List Message → Table → Table × Result (Unit {0})
  enqueue db [] t = (t, ok tt)
  enqueue db (m ∷ ms) t = insert_values db t (values_of (m ∷ ms))
