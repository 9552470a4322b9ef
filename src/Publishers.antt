-- ===== src/Publishers.antt =====
-- contrib/publishers/*: what the adapters share. A transport client is a state with its calls: an
-- answer is `ok` where Go returns a nil error, and the state is what the transport has been given.
pub mod Loop
pub mod Kafka
pub mod Nats
pub mod Valkey
pub mod Examples
use pg_outbox.Base.{Option, none, some, List, [], ◌∷◌, ◌++◌, if◌then◌else◌}
use Prim.Native.String.{String}
use pg_outbox.Base.Text.{◌==◌ as ◌=s=◌}
use pg_outbox.Message.{Message, Headers}
use pg_outbox.Store.{Result, ok, err, panic}

-- A call on a client.
abbrev pub Call : Type 0 → Type 0
Call S = S → Result (Unit {0}) × S

-- What follows a call that returned: the next one after a nil error only.
abbrev pub and_then : {S : Type 0} → Result (Unit {0}) × S → Call S → Result (Unit {0}) × S
and_then (ok u, s) next = next s
and_then (err e, s) next = (err e, s)
and_then (panic v, s) next = (panic v, s)

-- `for _, m := range msgs { if err := send(m); err != nil { return err } }`
unfoldable pub for_each : {S : Type 0} → (Message → Call S) → List Message → Call S
for_each send [] s = (ok tt, s)
for_each send (m ∷ ms) s = and_then (send m s) (for_each send ms)

-- `out, err := mapper(m)`, and the call with its output.
abbrev pub with_mapped : {S K : Type 0} → Result K → (K → Call S) → Call S
with_mapped (ok k) call s = call k s
with_mapped (err e) call s = (err e, s)
with_mapped (panic v) call s = (panic v, s)

-- `range m.Headers`: a nil map has no entries. The order of a map is any order.
abbrev pub entries : Message → Headers
entries m = elim m.headers [ none ↦ [] | some h ↦ h ]

-- `if text != "" { out = append(out, entry) }`
abbrev pub when_set : {A : Type 0} → String → A → List A
when_set text entry = if text =s= "" then [] else entry ∷ []
