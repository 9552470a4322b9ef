-- ===== src/Outbox/Roundtrip.antt =====
-- From `Enqueue` of outbox.go to what the publisher gets: the row keeps the message.
use mathlib.Core.List.{Memᴰ}
use mathlib.Core.List.Memᴰ as Members
use pg_outbox.Base.{
  ℕ, ◌≡◌, refl, sym, ap, subst, inl, inr, false, Option, none, some, List, [], ◌∷◌, Bool-cases,
  true,
}
use pg_outbox.Base.Text.{◌==◌ as ◌=s=◌, eq_of_==}
use Prim.Native.String.{String}
use pg_outbox.Config.{Settings}
use pg_outbox.Message.{Message, Headers, is_nil, validate}
use pg_outbox.Table.{Row, Table, contains, ids}
use pg_outbox.Store.{
  Db, Json, answers, Result, ok, null_str, deref_str, message_of, scan_row, answered,
}
use pg_outbox.Store.Enqueue.{
  Values, new_row, insert_row, insert_rows, null_payloads, values_of, fits_int4, cast_values,
}
use pg_outbox.Store.Enqueue
use pg_outbox.Outbox.Validation.{validate_iff}
use pg_outbox.Store.Claim.{lease}
use pg_outbox.Outbox.{enqueue}

-- Nil headers are stored as the empty map.
abbrev pub headers_of : Message → Headers
headers_of m = elim m.headers [ none ↦ [] | some h ↦ h ]

-- `d` has all that the caller of `Enqueue` sets in `m`.
pub record Carries (m d : Message) : Type 0 where
  pub id : d.id ≡ m.id
  pub topic : d.topic ≡ m.topic
  pub partition_key : d.partition_key ≡ m.partition_key
  pub payload : d.payload ≡ m.payload
  pub headers : d.headers ≡ some (headers_of m)
  pub content_type : d.content_type ≡ m.content_type
  pub message_type : d.message_type ≡ m.message_type
  pub max_attempts : d.max_attempts ≡ m.max_attempts

deref_str-null_str : (s : String) → deref_str (null_str s) ≡ s
deref_str-null_str s = elim (Bool-cases (s =s= "")) [
  | inl e ↦ rw e (sym (eq_of_== s "" e))
  | inr e ↦ rw e refl
]

stored : (o : Option (List ℕ)) → is_nil o ≡ false → some (Enqueue.bytes_of o) ≡ o
stored (some bytes) h = refl
stored none h = cc

claimed_row :
    (json : Json) (db later : Db) (set : Settings) (seq : ℕ) (m : Message) (text : String)
    → json.unmarshal text ≡ some (headers_of m)
    → (text =s= "") ≡ false
    → (m.id =s= "") ≡ false
    → is_nil m.payload ≡ false
    → (d : Message) × (scan_row json
          (lease later set (new_row db seq (record { message = m; header_text = text })))
        ≡ ok d)
      × Carries m d
      × (d.attempts ≡ 1)
      × (d.lease_token
          ≡ later.uuid (new_row db seq (record { message = m; header_text = text })).seq)
unfolding new_row lease
claimed_row json db later set seq m text decodes full named filled = (
  message_of (lease later set (new_row db seq (record { message = m; header_text = text })))
      (some (headers_of m)),
  rw (full, decodes),
  record {
    id = rw named refl;
    topic = refl;
    partition_key = deref_str-null_str m.partition_key;
    payload = stored m.payload filled;
    headers = refl;
    content_type = deref_str-null_str m.content_type;
    message_type = deref_str-null_str m.message_type;
    max_attempts = refl;
  },
  refl,
  refl,
)

new_row_inserted :
    (db : Db) (m : Message) (t : Table) (text : String)
    → (m.id =s= "") ≡ false
    → contains (ids t.rows) m.id ≡ false
    → Memᴰ
        (new_row db t.next_seq (record { message = m; header_text = text }))
        (insert_row db (record { message = m; header_text = text }) t).rows
unfolding new_row insert_row
new_row_inserted db m t text named fresh =
    rw (named, fresh) (Members.append_right t.rows (Memᴰ.head refl))

one_value :
    (json : Json) (m : Message) (text : String)
    → json.marshal (headers_of m) ≡ some text
    → values_of json (m ∷ []) ≡ ok (record { message = m; header_text = text } ∷ [])
unfolding values_of
one_value json m text encodes = rw (encodes, values_of)

-- The message as the row has it: under the canonical text of its id.
abbrev pub under : String → Message → Message
under id m = record m { id = id }

one_cast :
    (db : Db) (m : Message) {text kept id : String}
    → (m.id =s= "") ≡ false
    → db.read_uuid m.id ≡ some id
    → db.jsonb text ≡ some kept
    → fits_int4 m.max_attempts ≡ true
    → cast_values db (record { message = m; header_text = text } ∷ [])
      ≡ some (record { message = under id m; header_text = kept } ∷ [])
unfolding cast_values
one_cast db m named reads keeps fit = rw (named, reads, keeps, fit, cast_values) refl

enqueued_row :
    (json : Json) (db : Db) (m : Message) (t : Table) (text : String) {kept id : String}
    → json.marshal (headers_of m) ≡ some text
    → (m.id =s= "") ≡ false
    → db.read_uuid m.id ≡ some id
    → db.jsonb text ≡ some kept
    → fits_int4 m.max_attempts ≡ true
    → validate m ≡ none
    → db.reply ≡ answers
    → enqueue json db m t
      ≡ (insert_row db (record { message = under id m; header_text = kept }) t, ok tt)
unfolding enqueue Enqueue.enqueue
enqueued_row json db m t text encodes named reads keeps fit valid up =
    let (_, filled) = (validate_iff m).0 valid in
    rw (valid, one_value json m text encodes, enqueue)
      (answered db.reply t up (rw (one_cast db m named reads keeps fit, filled) refl))

-- What is enqueued is delivered. A valid message whose id is a uuid that no row has, and whose limit is
-- in the range of its column, gets a row, and whoever claims that row, at any later time, reads from it a
-- message with the same topic, key, payload, headers (nil as empty), types and limit, in its first attempt
-- and under the token of the claim. Its id is the canonical text of the uuid that the caller has given.
-- The JSON of the headers must still be read back as they were in the text that the jsonb column makes of
-- it, which is not empty.
pub enqueue-scan_row :
    (json : Json) (db later : Db) (set : Settings) (m : Message) (t : Table) (text kept id : String)
    → json.marshal (headers_of m) ≡ some text
    → db.jsonb text ≡ some kept
    → json.unmarshal kept ≡ some (headers_of m)
    → (kept =s= "") ≡ false
    → validate m ≡ none
    → (m.id =s= "") ≡ false
    → db.read_uuid m.id ≡ some id
    → (id =s= "") ≡ false
    → contains (ids t.rows) id ≡ false
    → fits_int4 m.max_attempts ≡ true
    → db.reply ≡ answers
    → (r : Row) × Memᴰ r (enqueue json db m t).0.rows
      × (d : Message) × (scan_row json (lease later set r) ≡ ok d)
      × Carries (under id m) d
      × (d.attempts ≡ 1)
      × (d.lease_token ≡ later.uuid r.seq)
enqueue-scan_row json db later set m t text kept id encodes keeps decodes full valid named reads
      canonical fresh fit up =
    let (_, filled) = (validate_iff m).0 valid in
    let (d, scanned, carries, once, token) =
      claimed_row json db later set t.next_seq (under id m) kept decodes full canonical filled in
    let row : Row = new_row db t.next_seq (record { message = under id m; header_text = kept }) in
    let inserted : (enqueue json db m t).0
        ≡ insert_row db (record { message = under id m; header_text = kept }) t =
      ap (λ (x : Table × Result (Unit {0})). x.0)
        (enqueued_row json db m t text encodes named reads keeps fit valid up) in
    (
      row,
      subst (λ (u : Table). Memᴰ row u.rows) (sym inserted)
          (new_row_inserted db (under id m) t kept canonical fresh),
      d,
      scanned,
      carries,
      once,
      token,
    )
