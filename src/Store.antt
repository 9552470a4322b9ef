-- ===== src/Store.antt =====
-- engine/store.go: what the queries share. PostgreSQL runs a statement as one step on the table; what
-- it and the Executor contribute to a call is a `Db`, a parameter.
pub mod Enqueue
pub mod Claim
pub mod Lease
pub mod Upkeep
pub mod Invariant
pub mod Lifecycle
pub mod Samples
pub mod Examples
use pg_outbox.Base.{
  ◌≡◌, ℕ, zero, suc, ◌+◌, ◌-◌, ◌*◌, ◌/◌, ◌%◌, ◌^◌, ◌≤◌, ◌<◌, refl, sym, ap, subst, ◌∙◌, ◌≢◌, ◌↔◌,
  ◌⊎◌, inl, inr, ite, Bool, true, false, not, ◌&&◌, ◌||◌, Option, none, some, List, [], ◌∷◌, ◌++◌,
  map, arith, dec_lt, ℕ_discrete, ltb, leb, if◌then◌else◌, tests, Bool-cases, Option-cases, length,
  take, select, All, length-append,
}
use pg_outbox.Base.Int.{
  ℤ, pos, negsuc, pos_part, neg_part, ◌≤ℤ◌, ◌<ℤ◌, ltb_ℤ, leb_ℤ, to_bits, of_bits, shl64, IsInt64,
}
use Prim.Native.String.{String, ◌++◌ as ◌<>◌}
use pg_outbox.Base.Text.{◌==◌ as ◌=s=◌}
use pg_outbox.Backoff.{Duration}
use pg_outbox.Message.{Message, Status, Headers}
use pg_outbox.Port.{Error, PanicValue, wrapped}
use pg_outbox.Table.{Row, Table}

-- What the Executor does with a statement: it runs and answers; it fails with nothing run; it runs
-- but the answer is lost; or the call panics.
pub data Reply : Type 0 where
  answers : Reply
  fails loses : Error → Reply
  panics : PanicValue → Reply

pub record Db : Type 0 where
  pub now : ℕ  -- now(), the start of the transaction
  pub clock : ℕ  -- clock_timestamp()
  pub locked : String → Bool  -- the rows, by id, that other transactions hold locked
  pub uuid : ℕ → String  -- gen_random_uuid(), evaluated for the row with that `seq`
  pub interval : Duration → ℕ  -- make_interval(secs => d.Seconds()), in units of a timestamp
  pub id_before : String → String → Bool  -- the order of uuid values
  pub read_uuid : String → Option String  -- ::uuid, to the canonical text; none of a malformed one
  pub jsonb : String → Option String  -- ::jsonb, to the text that it is read back as
  pub malformed : Error  -- the refusal of such a cast
  pub integer_range : Error  -- a value that an int column cannot hold
  pub null_payload : Error  -- the violation of NOT NULL on the payload column
  pub reply : Reply

-- The largest number of an int column.
abbrev pub max_int4 : ℕ
max_int4 = 2147483647

-- json.Marshal and json.Unmarshal of a header map; `none` is an error, with the error given beside.
pub record Json : Type 0 where
  pub marshal : Headers → Option String
  pub unmarshal : String → Option Headers
  pub marshal_error : Error
  pub unmarshal_error : Error

pub data Result {ℓ} (A : Type ℓ) : Type ℓ where
  ok : A → Result A
  err : Error → Result A
  panic : PanicValue → Result A

abbrev pub run {ℓ} : {A : Type ℓ} → Reply → Table → Table × Result A → Table × Result A
run answers t done = done
run (fails e) t done = (t, err e)
run (loses e) t (t', r) = (t', err e)
run (panics v) t done = (t, panic v)

pub answered {ℓ} :
    {A : Type ℓ} (reply : Reply) (t : Table) {x y : Table × Result A}
    → reply ≡ answers
    → x ≡ y
    → run reply t x ≡ y
answered reply t e h = rw (e, h)

-- `nullStr`, `nullInt` (an `Option` already) and `derefStr`.
abbrev pub null_str : String → Option String
null_str s = if s =s= "" then none else some s

abbrev pub deref_str : Option String → String
deref_str none = ""
deref_str (some s) = s

-- One round of the loop of `scanMessages`.
abbrev pub message_of : Row → Option Headers → Message
message_of r headers = record {
  id = r.id;
  topic = r.topic;
  partition_key = deref_str r.partition_key;
  payload = some r.payload;
  headers = headers;
  content_type = deref_str r.content_type;
  message_type = deref_str r.message_type;
  max_attempts = r.max_attempts;
  status = some r.status;
  attempts = r.attempts;
  lease_token = deref_str r.lease_token;
  locked_by = deref_str r.locked_by;
  locked_until = r.locked_until;
  next_attempt_at = r.next_attempt_at;
  last_error = deref_str r.last_error;
  created_at = r.created_at;
  published_at = r.published_at;
  finished_at = r.finished_at;
}

-- `out = append(out, m)`, unless the row or a later one failed.
abbrev pub append_scanned : Result Message → Result (List Message) → Result (List Message)
append_scanned (err e) rest = err e
append_scanned (panic v) rest = panic v
append_scanned (ok m) (ok ms) = ok (m ∷ ms)
append_scanned (ok m) (err e) = err e
append_scanned (ok m) (panic v) = panic v

module _ (json : Json) where
  -- Headers of no bytes are left nil.
  abbrev pub scan_row : Row → Result Message
  scan_row r =
      if r.headers =s= "" then ok (message_of r none) else elim (json.unmarshal r.headers) [
        | none ↦ err (wrapped "outbox: unmarshal headers" json.unmarshal_error)
        | some h ↦ ok (message_of r (some h))
      ]

  -- `scanMessages`: the first row that fails ends the scan.
  unfoldable pub scan_messages : List Row → Result (List Message)
  scan_messages [] = ok []
  scan_messages (r ∷ rs) = append_scanned (scan_row r) (scan_messages rs)
