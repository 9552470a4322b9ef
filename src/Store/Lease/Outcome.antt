-- ===== src/Store/Lease/Outcome.antt =====
-- Completing a batch: all of it while the leases live, and only once.
use mathlib.Core.List.{Memᴰ}
use mathlib.Core.Bool.{false≢true}
use pg_outbox.Base.{
  lt→ltb, sym, ap, ◌∙◌, ℕ, ◌+◌, ◌≤◌, ◌<◌, ◌≡◌, refl, inl, inr, true, false, ◌&&◌, Option, none,
  some, List, [], ◌∷◌, map, arith, if◌then◌else◌, Bool-cases, All,
}
use pg_outbox.Table.Rows.{
  &&-intro, &&-both, mem_map, mem-map, mem_select, select-skipped, update-skipped, All-update,
  All-of_mem, mem-select, select-update,
}
use pg_outbox.Base.Text.{◌==◌ as ◌=s=◌}
use Prim.Native.String.{String}
use pg_outbox.Config.{Settings}
use pg_outbox.Message.{Message, is_status, processing}
use pg_outbox.Table.{Row, Table, after, contains, ids}
use pg_outbox.Store.{
  Db, Json, Result, ok, err, panic, scan_row, append_scanned, scan_messages, deref_str,
}
use pg_outbox.Store.Claim.{picks, picked, lease, claim_rows, claimed}
use pg_outbox.Store.Lease.{
  claim_keys, has_key, owned, Completion, complete_row, finish_rows, finished,
}
use pg_outbox.Store.Lease.Fencing.{has_key_of_mem, owned-parts}

-- The keys of a row that was scanned.
abbrev pub row_key : Row → String × String
row_key r = (r.id, deref_str r.lease_token)

scan_row-key :
    (json : Json) (r : Row) {m : Message}
    → scan_row json r ≡ ok m
    → (m.id, m.lease_token) ≡ row_key r
scan_row-key json r {m} h = elim (Bool-cases (r.headers =s= "")) [
  | inl e ↦ ground arith
  | inr e ↦ ground arith
]

pub append_scanned-ok :
    (a : Result Message) (b : Result (List Message)) {ms : List Message}
    → append_scanned a b ≡ ok ms
    → (m : Message) × (l : List Message) × (a ≡ ok m) × (b ≡ ok l) × (ms ≡ m ∷ l)
append_scanned-ok (ok m) (ok l) h = (m, l, refl, refl, ground arith)
append_scanned-ok (ok m) (err e) h = cc
append_scanned-ok (ok m) (panic v) h = cc
append_scanned-ok (err e) b h = cc
append_scanned-ok (panic v) b h = cc

-- The keys of a scanned batch are those of its rows, in order.
pub claim_keys-scan_messages :
    (json : Json) (rs : List Row) {ms : List Message}
    → scan_messages json rs ≡ ok ms
    → claim_keys ms ≡ map row_key rs
unfolding scan_messages
claim_keys-scan_messages json [] h = ground arith
claim_keys-scan_messages json (r ∷ rs) {ms} h =
    let (m, l, p, q, e) = append_scanned-ok (scan_row json r) (scan_messages json rs) h in
    rw e (cc (scan_row-key json r p, claim_keys-scan_messages json rs q))

abbrev batch_keys : Db → Settings → Table → List (String × String)
batch_keys db set t = map row_key (claimed db set t)

own_key :
    (db : Db) (set : Settings) (t : Table) (r : Row)
    → Memᴰ r t.rows
    → picked db set t.rows r ≡ true
    → Memᴰ (r.id, db.uuid r.seq) (batch_keys db set t)
unfolding lease
own_key db set t r m p =
    mem_map row_key (claimed db set t)
      (mem_map (lease db set) _ (mem_select (picked db set t.rows) t.rows m p))

key_picked :
    (db : Db) (set : Settings) (t : Table) (id token : String)
    → Memᴰ (id, token) (batch_keys db set t)
    → contains (ids (picks db set t.rows)) id ≡ true
unfolding lease
key_picked db set t id token m =
    let (x, n, e) = mem-map row_key (claimed db set t) m in
    let (y, k, f) = mem-map (lease db set) _ n in
    let (_, p) = mem-select (picked db set t.rows) t.rows k in
    let same : id ≡ y.id = ap (λ (q : String × String). q.0) e ∙ ap (λ (r : Row). r.id) f in
    rw same p

owned-leased :
    (db later : Db) (set : Settings) (keys : List (String × String)) (r : Row)
    → later.clock < db.clock + db.interval set.lease_duration
    → Memᴰ (r.id, db.uuid r.seq) keys
    → owned later keys (lease db set r) ≡ true
unfolding owned lease
owned-leased db later set keys r live m =
    &&-intro (&&-intro (has_key_of_mem keys r.id (db.uuid r.seq) m) refl)
      (lt→ltb later.clock (db.clock + db.interval set.lease_duration) live)

-- After a claim the batch's keys reach the claimed rows and no others.
reached :
    (db later : Db) (set : Settings) (t : Table) (r : Row)
    → later.clock < db.clock + db.interval set.lease_duration
    → Memᴰ r t.rows
    → owned later (batch_keys db set t) (if picked db set t.rows r then lease db set r else r)
      ≡ picked db set t.rows r
reached db later set t r live m = elim (Bool-cases (picked db set t.rows r)) [
  | inl p ↦ rw p (owned-leased db later set (batch_keys db set t) r live (own_key db set t r m p))
  | inr p ↦ rw p (elim (Bool-cases (owned later (batch_keys db set t) r)) [
    | inl q ↦
        let (token, e, k, _, _) = owned-parts later (batch_keys db set t) r q in
        absurd (false≢true (sym p ∙ key_picked db set t r.id token k))
    | inr q ↦ q
  ])
]

-- A batch can be completed in full while its leases live: the rows that a claim leased are, in
-- order, exactly those that a later completion with the batch's keys reaches, if no other statement
-- came between and the clock has not passed the lease.
pub finished-claimed :
    (json : Json) (db later : Db) (set : Settings) (t : Table) (c : Completion) {ms : List Message}
    → scan_messages json (claimed db set t) ≡ ok ms
    → later.clock < db.clock + db.interval set.lease_duration
    → finished later (claim_keys ms) c (claim_rows db set t)
      ≡ map (complete_row later c) (claimed db set t)
finished-claimed json db later set t c {ms} h live = ap (map (complete_row later c)) (
    select-update (picked db set t.rows) (owned later (claim_keys ms)) (lease db set) t.rows
      (All-of_mem t.rows λ r m. rw keys (reached db later set t r live m)))
  where
    keys : claim_keys ms ≡ map row_key (claimed db set t)
    keys = claim_keys-scan_messages json (claimed db set t) h

after_mono : {m n : ℕ} (t : Option ℕ) → m ≤ n → after t n ≡ true → after t m ≡ true
after_mono none le h = h
after_mono {m} {n} (some t) le h = ground arith

has_key-none : (keys : List (String × String)) (id : String) → has_key keys id none ≡ false
has_key-none [] id = refl
has_key-none (k ∷ keys) id = refl

owned-earlier :
    (db later : Db) (keys : List (String × String)) (r : Row)
    → db.clock ≤ later.clock
    → owned later keys r ≡ true
    → owned db keys r ≡ true
unfolding owned
owned-earlier db later keys r le h =
    let (ab, live) =
      &&-both (has_key keys r.id r.lease_token && is_status r.status processing) _ h in
    &&-intro ab (after_mono r.locked_until le live)

owned-completed :
    (db later : Db) (keys : List (String × String)) (c : Completion) (r : Row)
    → owned later keys (complete_row db c r) ≡ false
unfolding owned complete_row
owned-completed db later keys c r = rw (has_key-none keys r.id)

settled :
    (db later : Db) (keys : List (String × String)) (c : Completion)
    → db.clock ≤ later.clock
    → (r : Row) → owned later keys (if owned db keys r then complete_row db c r else r) ≡ false
settled db later keys c le r = elim (Bool-cases (owned db keys r)) [
  | inl p ↦ rw p (owned-completed db later keys c r)
  | inr p ↦ rw p (elim (Bool-cases (owned later keys r)) [
    | inl q ↦ absurd (false≢true (sym p ∙ owned-earlier db later keys r le q))
    | inr q ↦ q
  ])
]

-- Once is enough: after a completion, at no earlier time, the same batch completes nothing more and
-- leaves the table as it is.
pub finish_rows_twice :
    (db later : Db) (keys : List (String × String)) (c d : Completion) (t : Table)
    → db.clock ≤ later.clock
    → (finish_rows later keys d (finish_rows db keys c t) ≡ finish_rows db keys c t)
      × (finished later keys d (finish_rows db keys c t) ≡ [])
finish_rows_twice db later keys c d t le = (
  ap (λ (rs : List Row). record t { rows = rs }) (update-skipped (owned later keys) _ _ none_left),
  ap (map (complete_row later d)) (select-skipped (owned later keys) _ none_left),
)
  where
    none_left : All (λ r. owned later keys r ≡ false) (finish_rows db keys c t).rows
    none_left = All-update (owned db keys) _ (complete_row db c) t.rows (settled db later keys c le)
