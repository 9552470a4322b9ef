-- ===== src/Store/Enqueue/Dedupe.antt =====
-- `Enqueue` as an idempotent insertion: the message id is the key, and the first row stays.
use mathlib.Core.List.{append-nil, append_assoc}
use pg_outbox.Base.{
  sym, ◌∙◌, ℕ, ◌≡◌, refl, inl, inr, Bool, true, false, ◌||◌, List, [], ◌∷◌, ◌++◌, arith,
  if◌then◌else◌, Bool-cases, All,
}
use pg_outbox.Base.Text.{◌==◌ as ◌=s=◌, ==_self}
use Prim.Native.String.{String}
use pg_outbox.Table.{Row, Table, contains, ids}
use pg_outbox.Store.{Db}
use pg_outbox.Store.Enqueue.{Values, new_id, new_row, insert_row, insert_rows}

-- The rows that a batch adds behind the table.
abbrev pub added : Db → List Values → Table → List Row
added db [] t = []
added db (v ∷ vs) t =
    let row = new_row db t.next_seq v in
    let rest = added db vs (insert_row db v t) in
    if contains (ids t.rows) row.id then rest else row ∷ rest

-- Enqueuing keeps every row that was there, unchanged and in its place: new rows stand behind.
pub rows-insert_rows :
    (db : Db) (vs : List Values) (t : Table) → (insert_rows db vs t).rows ≡ t.rows ++ added db vs t
unfolding insert_row
rows-insert_rows db [] t = sym (append-nil t.rows)
rows-insert_rows db (v ∷ vs) t =
    rw (rows-insert_rows db vs (insert_row db v t))
      (elim (Bool-cases (contains (ids t.rows) (new_row db t.next_seq v).id)) [
        | inl e ↦ rw e refl
        | inr e ↦ rw e (append_assoc t.rows (new_row db t.next_seq v ∷ []) _)
      ])

contains-append :
    (id : String) (rs ss : List Row)
    → contains (ids (rs ++ ss)) id ≡ (contains (ids rs) id || contains (ids ss) id)
contains-append id [] ss = refl
contains-append id (r ∷ rs) ss = ground (arith, contains-append id rs ss)

contains-insert_row :
    (db : Db) (v : Values) (t : Table) (id : String)
    → contains (ids t.rows) id ≡ true
    → contains (ids (insert_row db v t).rows) id ≡ true
unfolding insert_row
contains-insert_row db v t id h =
    ground (arith, contains-append id t.rows (new_row db t.next_seq v ∷ []))

contains-insert_rows :
    (db : Db) (vs : List Values) (t : Table) (id : String)
    → contains (ids t.rows) id ≡ true
    → contains (ids (insert_rows db vs t).rows) id ≡ true
contains-insert_rows db [] t id h = h
contains-insert_rows db (v ∷ vs) t id h =
    contains-insert_rows db vs (insert_row db v t) id (contains-insert_row db v t id h)

-- The message has an id of its own.
abbrev pub HasId : Values → Type 0
HasId v = (v.message.id =s= "") ≡ false

new_id-given : (db : Db) (seq : ℕ) (id : String) → (id =s= "") ≡ false → new_id db seq id ≡ id
new_id-given db seq id h = rw h refl

||-true : (a : Bool) → (a || true) ≡ true
||-true true = refl
||-true false = refl

contains-insert_row_self :
    (db : Db) (v : Values) (t : Table)
    → HasId v
    → contains (ids (insert_row db v t).rows) v.message.id ≡ true
unfolding insert_row new_row
contains-insert_row_self db v t h =
    rw (new_id-given db t.next_seq v.message.id h)
      (elim (Bool-cases (contains (ids t.rows) v.message.id)) [
        | inl e ↦ rw e e
        | inr e ↦ rw (e, contains-append, ==_self v.message.id) (||-true _)
      ])

-- Every message that names its id has a row with that id afterwards.
pub insert_rows-present :
    (db : Db) (vs : List Values) (t : Table)
    → All HasId vs
    → All (λ v. contains (ids (insert_rows db vs t).rows) v.message.id ≡ true) vs
insert_rows-present db [] t h = tt
insert_rows-present db (v ∷ vs) t h = (
  contains-insert_rows db vs (insert_row db v t) v.message.id (contains-insert_row_self db v t h.0),
  insert_rows-present db vs (insert_row db v t) h.1,
)

insert_row_known :
    (db : Db) (v : Values) (t : Table)
    → HasId v
    → contains (ids t.rows) v.message.id ≡ true
    → (insert_row db v t).rows ≡ t.rows
unfolding insert_row new_row
insert_row_known db v t h known = rw (new_id-given db t.next_seq v.message.id h, known) refl

insert_rows_known :
    (db : Db) (vs : List Values) (t : Table)
    → All HasId vs
    → All (λ v. contains (ids t.rows) v.message.id ≡ true) vs
    → (insert_rows db vs t).rows ≡ t.rows
insert_rows_known db [] t h k = refl
insert_rows_known db (v ∷ vs) t h k =
    let same : (insert_row db v t).rows ≡ t.rows = insert_row_known db v t h.0 k.0 in
    insert_rows_known db vs (insert_row db v t) h.1 (rw same k.1) ∙ same

-- Enqueuing a batch of messages with ids once more, at any time, adds no row and changes none.
pub insert_rows_twice :
    (db later : Db) (vs : List Values) (t : Table)
    → All HasId vs
    → (insert_rows later vs (insert_rows db vs t)).rows ≡ (insert_rows db vs t).rows
insert_rows_twice db later vs t h =
    insert_rows_known later vs (insert_rows db vs t) h (insert_rows-present db vs t h)
