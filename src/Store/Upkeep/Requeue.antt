-- ===== src/Store/Upkeep/Requeue.antt =====
-- What `Requeue` reports.
use mathlib.Core.List.{Memᴰ}
use mathlib.Core.Bool.{false≢true}
use pg_outbox.Base.{
  subst, ◌≤◌, ◌≡◌, refl, ◌↔◌, inl, inr, Bool, true, false, List, [], ◌∷◌, ◌==◌, arith, Bool-cases,
  length, select,
}
use Prim.Native.String.{String}
use pg_outbox.Base.Text.{◌==◌ as ◌=s=◌, eq_of_==}
use pg_outbox.Table.{Row, Table, contains, ids}
use pg_outbox.Table.Rows.{UniqueIds, mem-select, mem_select}
use pg_outbox.Store.{Db, answers, ok}
use pg_outbox.Store.Upkeep.{is_dead_row, requeue}

length-select-dead_absent :
    (id : String) (rs : List Row)
    → contains (ids rs) id ≡ false
    → length (select (is_dead_row id) rs) ≡ 0
length-select-dead_absent id [] h = refl
length-select-dead_absent id (r ∷ rs) h = ground (arith, length-select-dead_absent id rs)

length-select-dead :
    (id : String) (rs : List Row) → UniqueIds rs → length (select (is_dead_row id) rs) ≤ 1
length-select-dead id [] u = omega arith
length-select-dead id (r ∷ rs) u = elim (Bool-cases (r.id =s= id)) [
  | inl same ↦
      let absent : contains (ids rs) id ≡ false =
        subst (λ (x : String). contains (ids rs) x ≡ false) (eq_of_== r.id id same) u.0 in
      ground (arith, length-select-dead_absent id rs absent)
  | inr other ↦ ground (arith, length-select-dead id rs u.1)
]

of_count :
    (id : String) (rs : List Row)
    → (length (select (is_dead_row id) rs) == 1) ≡ true
    → (r : Row) × Memᴰ r rs × (is_dead_row id r ≡ true)
of_count id rs h = first (select (is_dead_row id) rs) refl
  where
    first :
        (found : List Row)
        → found ≡ select (is_dead_row id) rs
        → (r : Row) × Memᴰ r rs × (is_dead_row id r ≡ true)
    first [] e = absurd (false≢true (rw (← e) at h))
    first (r ∷ found) e =
        let m : Memᴰ r (select (is_dead_row id) rs) = rw (← e) (Memᴰ.head refl) in
        let (here, dead) = mem-select (is_dead_row id) rs m in (r, here, dead)

count_of :
    (id : String) (rs : List Row) {r : Row}
    → UniqueIds rs
    → Memᴰ r rs
    → is_dead_row id r ≡ true
    → (length (select (is_dead_row id) rs) == 1) ≡ true
count_of id rs u m dead =
    some_row (select (is_dead_row id) rs) (mem_select (is_dead_row id) rs m dead)
      (length-select-dead id rs u)
  where
    some_row :
        (found : List Row) {r : Row} → Memᴰ r found → length found ≤ 1 → (length found == 1) ≡ true
    some_row [] n h = elim n [ ]
    some_row (x ∷ found) n h = ground arith

-- `Requeue` reports true exactly when a dead row has the id, given that the executor answers and
-- that ids are unique.
pub requeue_iff :
    (db : Db) (id : String) (t : Table)
    → db.reply ≡ answers
    → UniqueIds t.rows
    → ((requeue db id t).1 ≡ ok true) ↔ ((r : Row) × Memᴰ r t.rows × (is_dead_row id r ≡ true))
unfolding requeue
requeue_iff db id t live u = (
  λ h. of_count id t.rows (reported (length (select (is_dead_row id) t.rows) == 1) (rw live at h)),
  λ (r, m, dead). rw (live, count_of id t.rows u m dead),
)
  where
    reported : (b : Bool) → ok b ≡ ok true → b ≡ true
    reported b e = ground arith
