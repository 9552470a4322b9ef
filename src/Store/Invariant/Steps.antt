-- ===== src/Store/Invariant/Steps.antt =====
-- Every statement of engine/store.go keeps the table valid, so every history does.
use pg_outbox.Base.{◌≡◌, refl, ◌≢◌, inl, inr, true, List, [], ◌∷◌, arith, Bool-cases}
use Prim.Native.String.{String}
use pg_outbox.Backoff.{Duration}
use pg_outbox.Config.{Settings}
use pg_outbox.Message.{Status, pending, processing, published, dead, discarded, is_status}
use pg_outbox.Table.{Row, Table, contains, ids}
use pg_outbox.Store.{Db}
use pg_outbox.Store.Enqueue.{Values, new_row, insert_row, insert_rows}
use pg_outbox.Store.Claim.{ready, picked, lease, claim_rows}
use pg_outbox.Store.Claim.Picks.{picked-eligible, eligible-parts}
use pg_outbox.Store.Lease.{owned, extend, complete_row, Completion, renew_rows, finish_rows}
use pg_outbox.Store.Lease.Fencing.{owned-parts}
use pg_outbox.Store.Upkeep.{is_dead_row, reopen, requeue_rows, cleanup_rows}
use pg_outbox.Store.Invariant.{
  IsFit, Fits, IsValid, update-IsValid, select-IsValid, snoc-IsValid, skip-IsValid,
}

insert_row-IsValid : (db : Db) (v : Values) (t : Table) → IsValid t → IsValid (insert_row db v t)
unfolding insert_row new_row
insert_row-IsValid db v t h =
    elim (Bool-cases (contains (ids t.rows) (new_row db t.next_seq v).id)) [
      | inl e ↦ rw e (skip-IsValid t h)
      | inr e ↦
          rw e (snoc-IsValid (new_row db t.next_seq v) t e refl ((refl, refl, refl), refl, refl) h)
    ]

insert_rows-IsValid :
    (db : Db) (vs : List Values) (t : Table) → IsValid t → IsValid (insert_rows db vs t)
insert_rows-IsValid db [] t h = h
insert_rows-IsValid db (v ∷ vs) t h =
    insert_rows-IsValid db vs (insert_row db v t) (insert_row-IsValid db v t h)

lease-IsFit :
    (db : Db) (set : Settings) (r : Row) → ready db.now r ≡ true → IsFit r → IsFit (lease db set r)
unfolding lease
lease-IsFit db set r due h = ground arith

claim_rows-IsValid :
    (db : Db) (set : Settings) (t : Table) → IsValid t → IsValid (claim_rows db set t)
unfolding lease
claim_rows-IsValid db set t h =
    update-IsValid (picked db set t.rows) (lease db set) t (λ r. refl) (λ r. refl)
      (λ r m p fit.
        let ok = picked-eligible db set t.rows h.unique m p in
        lease-IsFit db set r (eligible-parts db set.ordered t.rows r ok).0 fit)
      h

extend-IsFit :
    (db : Db) (d : Duration) (r : Row)
    → is_status r.status processing ≡ true
    → IsFit r
    → IsFit (extend db d r)
unfolding extend
extend-IsFit db d r held h = ground arith

renew_rows-IsValid :
    (db : Db) (keys : List (String × String)) (d : Duration) (t : Table)
    → IsValid t
    → IsValid (renew_rows db keys d t)
unfolding extend
renew_rows-IsValid db keys d t h =
    update-IsValid (owned db keys) (extend db d) t (λ r. refl) (λ r. refl)
      (λ r _ p fit.
        let (_, _, _, held, _) = owned-parts db keys r p in extend-IsFit db d r held fit)
      h

complete-IsFit :
    (db : Db) (c : Completion) (r : Row) → c.status ≢ processing → IsFit (complete_row db c r)
unfolding complete_row
complete-IsFit db c r ne = fits c.status refl
  where
    fits : (s : Status) → c.status ≡ s → Fits c.status (complete_row db c r)
    fits pending e = rw e ((refl, refl, refl), refl, refl)
    fits processing e = absurd (ne e)
    fits published e = rw e ((refl, refl, refl), refl, refl)
    fits dead e = rw e ((refl, refl, refl), refl, refl)
    fits discarded e = rw e ((refl, refl, refl), refl, refl)

finish_rows-IsValid :
    (db : Db) (keys : List (String × String)) (c : Completion) (t : Table)
    → c.status ≢ processing
    → IsValid t
    → IsValid (finish_rows db keys c t)
unfolding complete_row
finish_rows-IsValid db keys c t ne h =
    update-IsValid (owned db keys) (complete_row db c) t (λ r. refl) (λ r. refl)
      (λ r _ _ _. complete-IsFit db c r ne) h

requeue_rows-IsValid :
    (db : Db) (id : String) (t : Table) → IsValid t → IsValid (requeue_rows db id t)
unfolding reopen
requeue_rows-IsValid db id t h =
    update-IsValid (is_dead_row id) (reopen db) t (λ r. refl) (λ r. refl)
      (λ r _ _ _. ((refl, refl, refl), refl, refl)) h

-- One statement, at a time and with locks that the environment chooses.
pub data Step (t : Table) : Table → Type 0 where
  enqueues : (db : Db) (vs : List Values) → Step t (insert_rows db vs t)
  claims : (db : Db) (set : Settings) → Step t (claim_rows db set t)
  renews :
      (db : Db) (keys : List (String × String)) (d : Duration) → Step t (renew_rows db keys d t)
  finishes :
      (db : Db) (keys : List (String × String)) (c : Completion)
      → c.status ≢ processing
      → Step t (finish_rows db keys c t)
  requeues : (db : Db) (id : String) → Step t (requeue_rows db id t)
  cleans : (db : Db) (set : Settings) → Step t (cleanup_rows db set t)

pub data History : Table → Table → Type 0 where
  start : {t : Table} → History t t
  next : {t u v : Table} → History t u → Step u v → History t v

-- Every statement keeps the table valid: unique ids, sequence numbers that rise along the rows, and
-- in each row a lease exactly while it is processing, `finished_at` exactly when it is terminal and
-- `published_at` exactly when it is published.
pub Step-IsValid : {t u : Table} → Step t u → IsValid t → IsValid u
Step-IsValid {t} (enqueues db vs) h = insert_rows-IsValid db vs t h
Step-IsValid {t} (claims db set) h = claim_rows-IsValid db set t h
Step-IsValid {t} (renews db keys d) h = renew_rows-IsValid db keys d t h
Step-IsValid {t} (finishes db keys c ne) h = finish_rows-IsValid db keys c t ne h
Step-IsValid {t} (requeues db id) h = requeue_rows-IsValid db id t h
Step-IsValid {t} (cleans db set) h = select-IsValid _ t h

-- Whatever statements any clients make in any order, a table that is valid before them is valid after
-- them.
pub History-IsValid : {t u : Table} → IsValid t → History t u → IsValid u
History-IsValid v start = v
History-IsValid v (next h s) = Step-IsValid s (History-IsValid v h)

pub empty_table : Table
empty_table = record { rows = []; next_seq = 0 }

pub empty_table-IsValid : IsValid empty_table
unfolding empty_table
empty_table-IsValid = omega arith
