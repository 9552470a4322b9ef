-- ===== src/Store/Lifecycle/Refinement.antt =====
-- The statements on the table refine the state machine of every single message.

use Prim.Native.String.{String}
use pg_outbox.Base.Text.{◌==◌ as ◌=s=◌}
use pg_outbox.Base.{
  ◌≡◌, refl, sym, subst, ◌∙◌, ◌≢◌, ◌⊎◌, inl, inr, true, not, ◌&&◌, ◌||◌, Option, none, some, List,
  [], ◌∷◌, arith,
}
use pg_outbox.Config.{Settings}
use pg_outbox.Message.{Status, is_status, pending, processing, published, dead, discarded}
use pg_outbox.Table.{Row, Table, contains, ids}
use pg_outbox.Table.Rows.{&&-both}
use pg_outbox.Store.{Db}
use pg_outbox.Store.Enqueue.{Values, new_row, insert_row, insert_rows}
use pg_outbox.Store.Claim.{eligible, lease, picked}
use pg_outbox.Store.Claim.Picks.{picked-eligible, eligible-parts}
use pg_outbox.Store.Lease.{owned, extend, Completion, complete_row}
use pg_outbox.Store.Lease.Fencing.{owned-parts}
use pg_outbox.Store.Upkeep.{is_dead_row, reopen, expired, victims}
use pg_outbox.Store.Upkeep.Terminal.{victim-expired}
use pg_outbox.Store.Invariant.{IsValid}
use pg_outbox.Store.Invariant.Steps.{Step, enqueues, claims, renews, finishes, requeues, cleans}
use pg_outbox.Store.Lifecycle.{
  Phase, gone, queued, in_flight, Moves, stays, enters, leases, leases_again, retries, delivers,
  drops, buries, reopens, removes_delivered, removes_dropped, removes_buried, phase, phase_of_row,
  phase_of_status,
}
use pg_outbox.Store.Lifecycle.Updates.{update-Moves, select-Moves, phase-absent, phase-append}

-- An id keeps its phase, or it had no row and is queued now.
abbrev Enters : Phase → Phase → Type 0
Enters p q = (q ≡ p) ⊎ ((p ≡ gone) × (q ≡ queued))

insert_row-Enters :
    (db : Db) (v : Values) (t : Table) (id : String)
    → Enters (phase t.rows id) (phase (insert_row db v t).rows id)
unfolding insert_row new_row
insert_row-Enters db v t id =
    ground (arith, phase-append t.rows (new_row db t.next_seq v) id, phase-absent t.rows id)

Enters-trans : (p q r : Phase) → Enters p q → Enters q r → Enters p r
Enters-trans p q r (inl e) (inl f) = inl (f ∙ e)
Enters-trans p q r (inl e) (inr (f, g)) = inr (sym e ∙ f, g)
Enters-trans p q r (inr (e, f)) (inl g) = inr (e, g ∙ f)
Enters-trans p q r (inr (e, f)) (inr (g, h)) = inr (e, h)

insert_rows-Enters :
    (db : Db) (vs : List Values) (t : Table) (id : String)
    → Enters (phase t.rows id) (phase (insert_rows db vs t).rows id)
insert_rows-Enters db [] t id = inl refl
insert_rows-Enters db (v ∷ vs) t id =
    Enters-trans (phase t.rows id) (phase (insert_row db v t).rows id) _
      (insert_row-Enters db v t id) (insert_rows-Enters db vs (insert_row db v t) id)

Enters-Moves : (p q : Phase) → Enters p q → Moves p q
Enters-Moves p q (inl e) = subst (λ (x : Phase). Moves p x) (sym e) stays
Enters-Moves p q (inr (e, f)) = rw (e, f) enters

open-leases :
    (s : Status) (old fresh : Option String)
    → (is_status s pending || is_status s processing) ≡ true
    → Moves (phase_of_status s old) (in_flight fresh)
open-leases pending old fresh h = leases
open-leases processing old fresh h = leases_again
open-leases published old fresh h = cc
open-leases dead old fresh h = cc
open-leases discarded old fresh h = cc

lease-Moves :
    (db : Db) (set : Settings) (rows : List Row) (r : Row)
    → eligible db set.ordered rows r ≡ true
    → Moves (phase_of_row r) (phase_of_row (lease db set r))
unfolding lease
lease-Moves db set rows r h =
    let (due, _, _) = eligible-parts db set.ordered rows r h in
    open-leases r.status r.lease_token (some (db.uuid r.seq)) (ground arith)

ends-Moves :
    (s c : Status) (token : Option String)
    → is_status s processing ≡ true
    → c ≢ processing
    → Moves (phase_of_status s token) (phase_of_status c none)
ends-Moves processing pending token h ne = retries
ends-Moves processing published token h ne = delivers
ends-Moves processing discarded token h ne = drops
ends-Moves processing dead token h ne = buries
ends-Moves processing processing token h ne = absurd (ne refl)
ends-Moves pending c token h ne = cc
ends-Moves published c token h ne = cc
ends-Moves dead c token h ne = cc
ends-Moves discarded c token h ne = cc

complete-Moves :
    (db : Db) (keys : List (String × String)) (c : Completion) (r : Row)
    → c.status ≢ processing
    → owned db keys r ≡ true
    → Moves (phase_of_row r) (phase_of_row (complete_row db c r))
unfolding complete_row
complete-Moves db keys c r ne h =
    let (token, _, _, busy, _) = owned-parts db keys r h in
    ends-Moves r.status c.status r.lease_token busy ne

reopen-Moves :
    (s : Status) (token : Option String)
    → is_status s dead ≡ true
    → Moves (phase_of_status s token) queued
reopen-Moves dead token h = reopens
reopen-Moves pending token h = cc
reopen-Moves processing token h = cc
reopen-Moves published token h = cc
reopen-Moves discarded token h = cc

removes-Moves :
    (s : Status) (token : Option String)
    → (is_status s published || is_status s dead || is_status s discarded) ≡ true
    → Moves (phase_of_status s token) gone
removes-Moves published token h = removes_delivered
removes-Moves dead token h = removes_buried
removes-Moves discarded token h = removes_dropped
removes-Moves pending token h = cc
removes-Moves processing token h = cc

expired-ended :
    (db : Db) (set : Settings) (r : Row)
    → (expired db set r && not (db.locked r.id)) ≡ true
    → (is_status r.status published || is_status r.status dead || is_status r.status discarded)
      ≡ true
unfolding expired
expired-ended db set r h = ground arith

-- Refinement. Whatever a statement does to the table, to each message it does one step of the state
-- machine, or none: a message is delivered, dropped or buried only out of a flight, it comes back
-- to the queue only from a flight or by a requeue of a buried one, and it is removed only once it
-- is over.
pub Step-Moves :
    {t u : Table} → Step t u → IsValid t → (id : String) → Moves (phase t.rows id) (phase u.rows id)
unfolding extend reopen lease complete_row
Step-Moves {t} (enqueues db vs) v id = Enters-Moves _ _ (insert_rows-Enters db vs t id)
Step-Moves {t} (claims db set) v id =
    update-Moves (picked db set t.rows) (lease db set) t.rows id (λ r. refl)
      (λ r m p. lease-Moves db set t.rows r (picked-eligible db set t.rows v.unique m p))
Step-Moves {t} (renews db keys d) v id =
    update-Moves (owned db keys) (extend db d) t.rows id (λ r. refl) (λ r m p. stays)
Step-Moves {t} (finishes db keys c ne) v id =
    update-Moves (owned db keys) (complete_row db c) t.rows id (λ r. refl)
      (λ r m p. complete-Moves db keys c r ne p)
Step-Moves {t} (requeues db which) v id =
    update-Moves (is_dead_row which) (reopen db) t.rows id (λ r. refl)
      (λ r m p.
        reopen-Moves r.status r.lease_token
          ((&&-both (r.id =s= which) (is_status r.status dead) p).1))
Step-Moves {t} (cleans db set) v id =
    select-Moves (λ r. not (contains (ids (victims db set t.rows)) r.id)) t.rows id v.unique
      (λ r m cut.
        removes-Moves r.status r.lease_token
          (expired-ended db set r (victim-expired db set t.rows v.unique m (ground arith))))
