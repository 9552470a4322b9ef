-- ===== src/Store/Lifecycle.antt =====
-- What the statements of engine/store.go promise of one message: a state machine on its id, which
-- forgets the order of the rows and all their columns but the status and the lease.
pub mod Updates
pub mod Refinement
use pg_outbox.Base.{Option, List, [], ◌∷◌, if◌then◌else◌}
use Prim.Native.String.{String}
use pg_outbox.Base.Text.{◌==◌ as ◌=s=◌}
use pg_outbox.Message.{Status, pending, processing, published, dead, discarded}
use pg_outbox.Table.{Row, Table}

-- The state of a message: no row, to be delivered, in flight under a token, or over.
pub data Phase : Type 0 where
  gone queued : Phase
  in_flight : Option String → Phase
  delivered dropped buried : Phase

abbrev pub phase_of_status : Status → Option String → Phase
phase_of_status pending token = queued
phase_of_status processing token = in_flight token
phase_of_status published token = delivered
phase_of_status discarded token = dropped
phase_of_status dead token = buried

abbrev pub phase_of_row : Row → Phase
phase_of_row r = phase_of_status r.status r.lease_token

abbrev pub phase : List Row → String → Phase
phase [] id = gone
phase (r ∷ rs) id = if r.id =s= id then phase_of_row r else phase rs id

-- The abstract state machine.
pub data Moves : Phase → Phase → Type 0 where
  stays : {p : Phase} → Moves p p
  enters : Moves gone queued
  leases : {fresh : Option String} → Moves queued (in_flight fresh)
  leases_again : {old fresh : Option String} → Moves (in_flight old) (in_flight fresh)
  retries : {token : Option String} → Moves (in_flight token) queued
  delivers : {token : Option String} → Moves (in_flight token) delivered
  drops : {token : Option String} → Moves (in_flight token) dropped
  buries : {token : Option String} → Moves (in_flight token) buried
  reopens : Moves buried queued
  removes_delivered : Moves delivered gone
  removes_dropped : Moves dropped gone
  removes_buried : Moves buried gone
