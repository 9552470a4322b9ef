-- ===== src/Outbox.antt =====
-- outbox.go: the facade's operations on messages.
pub mod Create
pub mod Run
pub mod Validation
pub mod Roundtrip
pub mod Examples
use pg_outbox.Base.{
  ℕ, zero, suc, ◌+◌, ◌-◌, ◌*◌, ◌/◌, ◌%◌, ◌^◌, ◌≤◌, ◌<◌, ◌≡◌, refl, sym, ap, subst, ◌∙◌, ◌≢◌, ◌↔◌,
  ◌⊎◌, inl, inr, ite, Bool, true, false, not, ◌&&◌, ◌||◌, Option, none, some, List, [], ◌∷◌, ◌++◌,
  ◌==◌, map, arith, dec_lt, ℕ_discrete, ltb, leb, if◌then◌else◌, tests, Bool-cases, Option-cases,
  length, take, select, All, length-append,
}
use Prim.Native.String.{String}
use pg_outbox.Message.{Message, Headers, validate}
use pg_outbox.Port.{Error, plain}
use pg_outbox.Table.{Table}
use pg_outbox.Store.{Db, Json, Result, ok, err, panic}
use pg_outbox.Store.Enqueue
use pg_outbox.Store.Upkeep

-- The loop of `EnqueueBatch`: the error of the first message that is not valid.
abbrev pub first_invalid : List Message → Option Error
first_invalid [] = none
first_invalid (m ∷ ms) = elim (validate m) [ some e ↦ some e | none ↦ first_invalid ms ]

-- `EnqueueBatch`
unfoldable pub enqueue_batch : Json → Db → List Message → Table → Table × Result (Unit {0})
enqueue_batch json db ms t = elim (first_invalid ms) [
  | some e ↦ (t, err e)
  | none ↦ Enqueue.enqueue json db ms t
]

-- `Enqueue`
unfoldable pub enqueue : Json → Db → Message → Table → Table × Result (Unit {0})
enqueue json db m t = elim (validate m) [
  | some e ↦ (t, err e)
  | none ↦ Enqueue.enqueue json db (m ∷ []) t
]

pub err_no_codec : Error
err_no_codec = plain "outbox: no codec configured (use WithCodec)"

-- The message that `EnqueueValue` builds.
abbrev pub value_message : String → String → String → Option (List ℕ) → String → Message
value_message topic partition_key message_type payload content_type = record {
  id = "";
  topic = topic;
  partition_key = partition_key;
  payload = payload;
  headers = none;
  content_type = content_type;
  message_type = message_type;
  max_attempts = none;
  status = none;
  attempts = 0;
  lease_token = "";
  locked_by = "";
  locked_until = none;
  next_attempt_at = 0;
  last_error = "";
  created_at = 0;
  published_at = none;
  finished_at = none;
}

-- `EnqueueValue`. The codec is a function of the value to a payload and a content type, or an error;
-- there may be none.
unfoldable pub enqueue_value :
    {V : Type 0}
    → Option (V → Result (Option (List ℕ) × String))
    → Json
    → Db
    → String
    → String
    → String
    → V
    → Table
    → Table × Result (Unit {0})
enqueue_value none json db topic key kind v t = (t, err err_no_codec)
enqueue_value (some marshal) json db topic key kind v t = elim (marshal v) [
  | err e ↦ (t, err e)
  | panic p ↦ (t, panic p)
  | ok (payload, content_type) ↦
      enqueue json db (value_message topic key kind payload content_type) t
]

-- `Requeue`
unfoldable pub requeue : Db → String → Table → Table × Result Bool
requeue db id t = Upkeep.requeue db id t
