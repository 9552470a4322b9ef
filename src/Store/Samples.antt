-- ===== src/Store/Samples.antt =====
-- A small table for the tests: one row that is due, one under a live lease, one dead.

use pg_outbox.Store.Invariant.{IsValid}
use pg_outbox.Base.{arith, ℕ, ◌≡◌, refl, true, false, none, some, [], ◌∷◌}
use pg_outbox.Base.Int.{pos_part}
use pg_outbox.Base.Text.{String-discrete}
use pg_outbox.Config.{Settings, default}
use pg_outbox.Message.{pending, processing, dead}
use pg_outbox.Port.{plain}
use pg_outbox.Table.{Row, Table}
use pg_outbox.Table.Rows.{UniqueIds}
use pg_outbox.Store.{Db, Json, answers}
use pg_outbox.Store.Claim.{eligible, picks, picked}

abbrev pub due_row : Row
due_row = record {
  id = "a";
  topic = "orders";
  partition_key = some "k";
  payload = 1 ∷ [];
  headers = "{}";
  content_type = none;
  message_type = none;
  status = pending;
  attempts = 0;
  max_attempts = none;
  locked_by = none;
  locked_until = none;
  next_attempt_at = 5;
  last_error = none;
  created_at = 5;
  published_at = none;
  lease_token = none;
  finished_at = none;
  seq = 0;
}

abbrev pub held_row : Row
held_row = record due_row {
  id = "b";
  partition_key = none;
  status = processing;
  attempts = 1;
  locked_by = some "pod";
  locked_until = some 20;
  lease_token = some "old";
  seq = 1;
}

abbrev pub dead_row : Row
dead_row = record due_row {
  id = "c";
  partition_key = none;
  status = dead;
  attempts = 3;
  finished_at = some 9;
  seq = 2;
}

abbrev pub small : Table
small = record { rows = due_row ∷ held_row ∷ dead_row ∷ []; next_seq = 3 }

-- The database at a time, with no locks; every uuid it generates is "fresh".
abbrev pub at : ℕ → Db
at time = record {
  now = time;
  clock = time;
  locked = λ id. false;
  uuid = λ seq. "fresh";
  interval = pos_part;
  id_before = λ a b. false;
  read_uuid = λ id. some id;
  jsonb = λ text. some text;
  malformed = plain "invalid input syntax";
  integer_range = plain "integer out of range";
  null_payload = plain "null value in column payload";
  reply = answers;
}

abbrev pub json : Json
json = record {
  marshal = λ h. some "{}";
  unmarshal = λ s. some [];
  marshal_error = plain "json";
  unmarshal_error = plain "json";
}

abbrev pub ordered_default : Settings
ordered_default = record default { ordered = true }

pub small-UniqueIds : UniqueIds small.rows
unfolding String-discrete
small-UniqueIds = (refl, (refl, (refl, tt)))

pub due_picked : picked (at 10) default small.rows due_row ≡ true
unfolding picks eligible default String-discrete
due_picked = refl

pub small-IsValid : IsValid small
small-IsValid = record {
  unique = small-UniqueIds;
  fit = (
    ((refl, refl, refl), refl, refl),
    (((refl, refl, refl), refl, refl, omega arith), (((refl, refl, refl), refl, refl), tt)),
  );
  rising = (omega arith, (omega arith, (omega arith, omega arith)));
}
