-- ===== src/Outbox/Validation.antt =====
-- What the facade of outbox.go promises about the messages that reach the table.
use pg_outbox.Base.{◌≡◌, ◌↔◌, false, none, some, List, arith}
use pg_outbox.Base.Text.{◌==◌ as ◌=s=◌}
use pg_outbox.Message.{Message, is_nil, validate}
use pg_outbox.Port.{Error}
use pg_outbox.Table.{Table}
use pg_outbox.Store.{Db, Json, err}
use pg_outbox.Outbox.{first_invalid, enqueue_batch}

-- A message passes exactly when its topic is not empty and its payload is not nil.
pub validate_iff :
    (m : Message) → (validate m ≡ none) ↔ (((m.topic =s= "") ≡ false) × (is_nil m.payload ≡ false))
unfolding validate
validate_iff m = (λ h. ground arith, λ h. ground arith)

-- An invalid message anywhere in a batch stops the whole batch before any statement is run.
pub enqueue_batch_invalid :
    (json : Json) (db : Db) (ms : List Message) (t : Table) (e : Error)
    → first_invalid ms ≡ some e
    → enqueue_batch json db ms t ≡ (t, err e)
unfolding enqueue_batch
enqueue_batch_invalid json db ms t e h = rw (h, enqueue_batch)
