-- ===== src/Message.antt =====
-- message/message.go: the data model of the outbox.
use pg_outbox.Base.{ℕ, Bool, true, false, Option, none, some, List, if◌then◌else◌}
use pg_outbox.Base.Int.{ℤ}
use Prim.Native.String.{String}
use pg_outbox.Base.Text.{◌==◌}
use pg_outbox.Port.{Error, plain}

pub data Status : Type 0 where
  pending processing published dead discarded : Status

-- Texts, numbers and decisions for the states, as SQL compares them.
abbrev pub is_status : Status → Status → Bool
is_status pending pending = true
is_status processing processing = true
is_status published published = true
is_status dead dead = true
is_status discarded discarded = true
is_status _ _ = false

-- A Go map with text keys, in the order that its iteration takes.
abbrev pub Headers : Type 0
Headers = List (String × String)

-- A Go `[]byte` or map may be nil (`none`). Timestamps are natural numbers.
pub record Message : Type 0 where
  pub id : String
  pub topic : String
  pub partition_key : String
  pub payload : Option (List ℕ)
  pub headers : Option Headers
  pub content_type : String
  pub message_type : String
  pub max_attempts : Option ℤ
  pub status : Option Status  -- `none` is the empty text
  pub attempts : ℕ
  pub lease_token : String
  pub locked_by : String
  pub locked_until : Option ℕ
  pub next_attempt_at : ℕ
  pub last_error : String
  pub created_at : ℕ
  pub published_at : Option ℕ
  pub finished_at : Option ℕ

pub err_empty_topic : Error
err_empty_topic = plain "outbox: message topic is empty"

pub err_nil_payload : Error
err_nil_payload = plain "outbox: message payload is nil"

abbrev pub is_nil {ℓ} : {A : Type ℓ} → Option A → Bool
is_nil none = true
is_nil (some a) = false

-- `Validate`; `none` is the nil error.
unfoldable pub validate : Message → Option Error
validate m =
    if m.topic == ""
    then some err_empty_topic
    else if is_nil m.payload
    then some err_nil_payload
    else none
