-- ===== src/Store/Examples.antt =====
-- The laws of the store at a small table.
use pg_outbox.Port.{lease_lost}
use pg_outbox.Store.Upkeep.{requeue_rows, is_dead_row, requeue, cleanup_rows}
use pg_outbox.Store.{err, ok, message_of, scan_messages}
use pg_outbox.Store.Lease.{
  renew, claim_keys, Completion, complete_row, finish_rows, finished, renew_rows,
}
use pg_outbox.Store.Lease.Exclusive.{ForeignHistory, nothing, also, leased_stays}
use pg_outbox.Store.Lease.Renewal.{HasLease, renew_iff}
use pg_outbox.Store.Invariant.Steps.{
  renews, finishes, requeues, claims, enqueues, start, next, Step-IsValid, History-IsValid,
  empty_table, empty_table-IsValid,
}
use mathlib.Core.List.{Memᴰ}
use pg_outbox.Store.Lifecycle.{Moves, phase}
use pg_outbox.Store.Lifecycle.Refinement.{Step-Moves}
use pg_outbox.Base.{
  ◌↔◌, ◌≡◌, refl, ◌≢◌, ◌⊎◌, inl, inr, true, false, some, List, [], ◌∷◌, map, arith, All,
}
use pg_outbox.Store.Upkeep.Requeue.{requeue_iff}
use pg_outbox.Base.Int.{pos}
use Prim.Native.String.{String}
use text.Mathlib.TextEquality.{eq_iff}
use pg_outbox.Base.Text.{String-discrete}
use pg_outbox.Config.{Settings, default}
use pg_outbox.Message.{Message, published}
use pg_outbox.Table.{Row, Table}
use pg_outbox.Store.Enqueue.{Values, insert_rows}
use pg_outbox.Store.Enqueue.Dedupe.{HasId, insert_rows_twice}
use pg_outbox.Store.Claim.{unresolved, eligible, picks, picked, lease, claim_rows, claimed}
use pg_outbox.Store.Claim.Picks.{IsLeaseOf, claim_rows-mem}
use pg_outbox.Store.Claim.Ordered.{ordered_claims_head, ordered_claims_one}
use pg_outbox.Store.Lease.Fencing.{stale_batch_fenced, expired_lease_fenced}
use pg_outbox.Store.Lease.Outcome.{finished-claimed}
use pg_outbox.Store.Upkeep.Terminal.{cleanup_retains}
use pg_outbox.Store.Invariant.{IsValid}
use pg_outbox.Store.Samples.{
  small-IsValid, due_row, held_row, dead_row, small, at, json, ordered_default, small-UniqueIds,
}

claim_rows-mem_example :
    Memᴰ (lease (at 10) default due_row) small.rows
    ⊎ ((o : Row) × Memᴰ o small.rows × IsLeaseOf (at 10) default o (lease (at 10) default due_row))
unfolding picks eligible default String-discrete
claim_rows-mem_example =
    claim_rows-mem (at 10) default small {r = lease (at 10) default due_row} small-UniqueIds
      (Memᴰ.head refl)

-- A row of the same key that comes before the due row, and is published.
abbrev first_row : Row
first_row = record due_row {
  id = "z";
  created_at = 4;
  status = published;
  published_at = some 6;
  finished_at = some 6;
  seq = 3;
}

abbrev keyed : List Row
keyed = due_row ∷ first_row ∷ []

ordered_claims_head_example : unresolved first_row ≡ false
unfolding picks eligible default String-discrete
ordered_claims_head_example =
    ordered_claims_head (at 10) ordered_default keyed {r = due_row} {e = first_row} "k" refl
      (refl, (refl, tt)) (Memᴰ.head refl) refl (Memᴰ.tail (Memᴰ.head refl)) refl refl refl

-- Behind the due row of the key stands a younger one.
abbrev second_row : Row
second_row = record due_row { id = "y"; seq = 1 }

abbrev queued : Table
queued = record { rows = due_row ∷ second_row ∷ []; next_seq = 2 }

queued-IsValid : IsValid queued
unfolding String-discrete
queued-IsValid = record {
  unique = (refl, (refl, tt));
  fit = (((refl, refl, refl), refl, refl), (((refl, refl, refl), refl, refl), tt));
  rising = (omega arith, (omega arith, omega arith));
}

due_first : picked (at 10) ordered_default queued.rows due_row ≡ true
unfolding picks eligible default String-discrete
due_first = refl

ordered_claims_one_example : picked (at 10) ordered_default queued.rows second_row ≡ false
ordered_claims_one_example =
    ordered_claims_one (at 10) ordered_default queued {a = due_row} {b = second_row} "k" refl
      queued-IsValid (Memᴰ.head refl) due_first (Memᴰ.tail (Memᴰ.head refl)) refl refl not_a
  where
    not_a : ◌≢◌ {A = String} "y" "a"
    not_a = ground (arith, eq_iff "y" "a")

abbrev to_published : Completion
to_published = record { status = published; reason = ""; delay = pos 0; clear = true }

-- The held row expires at 20; at 30 it is claimed again, and the first holder comes back.
old_keys : List (String × String)
old_keys = ("b", "old") ∷ []

stale_batch_fenced_example :
    Memᴰ
      (lease (at 30) default held_row)
      (finish_rows (at 31) old_keys to_published (claim_rows (at 30) default small)).rows
    × Memᴰ
        (lease (at 30) default held_row)
        (renew_rows (at 31) old_keys (pos 9) (claim_rows (at 30) default small)).rows
unfolding picks eligible default String-discrete old_keys
stale_batch_fenced_example =
    stale_batch_fenced (at 30) (at 31) default small old_keys to_published (pos 9) {o = held_row}
      (Memᴰ.tail (Memᴰ.head refl)) refl (old_not_fresh, tt)
  where
    old_not_fresh : ◌≢◌ {A = String} "old" "fresh"
    old_not_fresh = ground (arith, eq_iff "old" "fresh")

expired_lease_fenced_example :
    Memᴰ held_row (finish_rows (at 20) old_keys to_published small).rows
    × Memᴰ held_row (renew_rows (at 20) old_keys (pos 9) small).rows
expired_lease_fenced_example =
    expired_lease_fenced (at 20) small old_keys to_published (pos 9) {r = held_row}
      (Memᴰ.tail (Memᴰ.head refl)) refl

finished-claimed_example :
    finished
      (at 11)
      (claim_keys (message_of (lease (at 10) default due_row) (some []) ∷ []))
      to_published
      (claim_rows (at 10) default small)
    ≡ map (complete_row (at 11) to_published) (claimed (at 10) default small)
unfolding picks eligible lease default scan_messages String-discrete
finished-claimed_example =
    finished-claimed json (at 10) (at 11) default small to_published
      {ms = message_of (lease (at 10) default due_row) (some []) ∷ []} refl (omega arith)

-- Dead rows are deleted after 90; the dead row has ended at 9.
abbrev retaining : Settings
retaining = record default { dead_retention = pos 90 }

cleanup_retains_example : Memᴰ dead_row (cleanup_rows (at 99) retaining small).rows
cleanup_retains_example =
    cleanup_retains (at 99) retaining small {r = dead_row} small-UniqueIds
      (Memᴰ.tail (Memᴰ.tail (Memᴰ.head refl))) (inl (inr (omega arith)))

-- A message with the id of the due row, and one with a new id, twice.
abbrev message_with : String → Message
message_with id = record (message_of due_row (some [])) { id = id }

abbrev batch : List Values
batch =
    record { message = message_with "a"; header_text = "{}" }
    ∷ record { message = message_with "n"; header_text = "{}" }
    ∷ record { message = message_with "n"; header_text = "{}" }
    ∷ []

batch-HasId : All HasId batch
unfolding String-discrete
batch-HasId = (refl, (refl, (refl, tt)))

insert_rows_twice_example :
    (insert_rows (at 50) batch (insert_rows (at 40) batch small)).rows
    ≡ (insert_rows (at 40) batch small).rows
insert_rows_twice_example = insert_rows_twice (at 40) (at 50) batch small batch-HasId

abbrev enqueued : Table
enqueued = insert_rows (at 1) batch empty_table

Step-IsValid_example : IsValid enqueued
Step-IsValid_example = Step-IsValid (enqueues (at 1) batch) empty_table-IsValid

History-IsValid_example : IsValid (claim_rows (at 2) default enqueued)
History-IsValid_example =
    History-IsValid empty_table-IsValid
      (next (next start (enqueues (at 1) batch)) (claims (at 2) default))

requeue_iff_example :
    ((requeue (at 30) "c" small).1 ≡ ok true)
    ↔ ((r : Row) × Memᴰ r small.rows × (is_dead_row "c" r ≡ true))
requeue_iff_example = requeue_iff (at 30) "c" small refl small-UniqueIds

Step-Moves_example :
    Moves (phase enqueued.rows "a") (phase (claim_rows (at 2) default enqueued).rows "a")
Step-Moves_example =
    Step-Moves (claims (at 2) default) (Step-IsValid (enqueues (at 1) batch) empty_table-IsValid)
      "a"

-- While the held row's lease lives, a worker claims at 10, renews what it claimed and completes it, and
-- the dead row is requeued.
abbrev claimed_at_10 : Table
claimed_at_10 = claim_rows (at 10) default small

abbrev fresh_keys : List (String × String)
fresh_keys = ("a", "fresh") ∷ []

abbrev completed_at_12 : Table
completed_at_12 =
    finish_rows (at 12) fresh_keys to_published
      (renew_rows (at 11) fresh_keys (pos 40) claimed_at_10)

by_others : ForeignHistory "old" 20 small (requeue_rows (at 13) "c" completed_at_12)
by_others =
    also
      (also
        (also (also nothing (claims (at 10) default) (omega arith))
          (renews (at 11) fresh_keys (pos 40)) (not_old, tt))
        (finishes (at 12) fresh_keys to_published (λ q. cc)) (not_old, tt))
      (requeues (at 13) "c") tt
  where
    not_old : ◌≢◌ {A = String} "fresh" "old"
    not_old = ground (arith, eq_iff "fresh" "old")

leased_stays_example : Memᴰ held_row (requeue_rows (at 13) "c" completed_at_12).rows
leased_stays_example =
    leased_stays "old" 20 small (requeue_rows (at 13) "c" completed_at_12) held_row small-IsValid
      (Memᴰ.tail (Memᴰ.head refl)) (record { busy = refl; held = refl; expires = refl }) by_others

-- The message of the held row.
abbrev held : Message
held = message_of held_row (some [])

renew_iff_example :
    (((renew (at 30) (held ∷ []) (pos 40) small).1 ≡ ok tt)
      ↔ All (HasLease (at 30) small) (held ∷ []))
    × (((renew (at 30) (held ∷ []) (pos 40) small).1 ≡ err lease_lost)
        ↔ ¬ (All (HasLease (at 30) small) (held ∷ [])))
renew_iff_example = renew_iff (at 30) (held ∷ []) (pos 40) small refl small-UniqueIds (refl, tt)
