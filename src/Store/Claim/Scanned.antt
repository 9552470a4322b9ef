-- ===== src/Store/Claim/Scanned.antt =====
-- The batch that a claim returns: one message for each row it leased, and no two with one id.
use mathlib.Core.List.{Memᴰ}
use pg_outbox.Base.{
  ◌≡◌, refl, sym, ap, subst, inl, inr, ◌+◌, Bool, true, false, List, [], ◌∷◌, map, arith, select,
  Bool-cases,
}
use Prim.Native.String.{String}
use pg_outbox.Config.{Settings}
use pg_outbox.Message.{Message}
use pg_outbox.Table.{Row, Table, contains, ids, returning}
use pg_outbox.Table.Rows.{UniqueIds, mem_select, mem_map}
use pg_outbox.Store.{Db, Json, ok, scan_row, scan_messages}
use pg_outbox.Store.Claim.{claimed, picked, lease}
use pg_outbox.Store.Lease.{claim_keys}
use pg_outbox.Store.Lease.Count.{UniqueKeys}
use pg_outbox.Store.Lease.Outcome.{row_key, append_scanned-ok, claim_keys-scan_messages}

absent-returning :
    (p : Row → Bool) (f : Row → Row) (id : String) (rs : List Row)
    → ((r : Row) → (f r).id ≡ r.id)
    → contains (ids rs) id ≡ false
    → contains (ids (returning p f rs)) id ≡ false
absent-returning p f id [] same h = refl
absent-returning p f id (r ∷ rs) same h = elim (Bool-cases (p r)) [
  | inl e ↦ rw (e, same r) (ground (arith, absent-returning p f id rs same))
  | inr e ↦ rw e (absent-returning p f id rs same (ground arith))
]

returning-UniqueIds :
    (p : Row → Bool) (f : Row → Row) (rs : List Row)
    → ((r : Row) → (f r).id ≡ r.id)
    → UniqueIds rs
    → UniqueIds (returning p f rs)
returning-UniqueIds p f [] same u = tt
returning-UniqueIds p f (r ∷ rs) same u = elim (Bool-cases (p r)) [
  | inl e ↦
      rw (e, same r) (absent-returning p f r.id rs same u.0, returning-UniqueIds p f rs same u.1)
  | inr e ↦ rw e (returning-UniqueIds p f rs same u.1)
]

ids-row_key : (rs : List Row) → map (λ (q : String × String). q.0) (map row_key rs) ≡ ids rs
ids-row_key [] = refl
ids-row_key (r ∷ rs) = ap (λ (l : List String). r.id ∷ l) (ids-row_key rs)

UniqueKeys-row_key : (rs : List Row) → UniqueIds rs → UniqueKeys (map row_key rs)
UniqueKeys-row_key [] u = tt
UniqueKeys-row_key (r ∷ rs) u = (rw (ids-row_key rs) (u.0), UniqueKeys-row_key rs u.1)

pub claimed-UniqueKeys :
    (json : Json) (db : Db) (set : Settings) (t : Table) {ms : List Message}
    → UniqueIds t.rows
    → scan_messages json (claimed db set t) ≡ ok ms
    → UniqueKeys (claim_keys ms)
unfolding lease
claimed-UniqueKeys json db set t u h =
    subst UniqueKeys (sym (claim_keys-scan_messages json (claimed db set t) h)) (
      UniqueKeys-row_key (claimed db set t)
        (returning-UniqueIds (picked db set t.rows) (lease db set) t.rows (λ r. refl) u))

scanned-mem :
    (json : Json) (rs : List Row) {ms : List Message} {r : Row}
    → scan_messages json rs ≡ ok ms
    → Memᴰ r rs
    → (m : Message) × Memᴰ m ms × (scan_row json r ≡ ok m)
unfolding scan_messages
scanned-mem json [] h n = elim n [ ]
scanned-mem json (x ∷ rs) h (Memᴰ.head e) =
    let (m, l, p, q, same) = append_scanned-ok (scan_row json x) (scan_messages json rs) h in
    (
      m,
      subst (λ (l : List Message). Memᴰ m l) (sym same) (Memᴰ.head refl),
      subst (λ (y : Row). scan_row json y ≡ ok m) (sym e) p,
    )
scanned-mem json (x ∷ rs) h (Memᴰ.tail n) =
    let (m, l, p, q, same) = append_scanned-ok (scan_row json x) (scan_messages json rs) h in
    let (k, there, scanned) = scanned-mem json rs q n in
    (k, subst (λ (l : List Message). Memᴰ k l) (sym same) (Memᴰ.tail there), scanned)

scan_row-columns :
    (json : Json) (r : Row) {m : Message}
    → scan_row json r ≡ ok m
    → (m.id ≡ r.id) × (m.attempts ≡ r.attempts) × (m.max_attempts ≡ r.max_attempts)
scan_row-columns json r h = ground arith

-- The message of a row that was leased: it counts the attempt.
pub claimed-mem :
    (json : Json) (db : Db) (set : Settings) (t : Table) {ms : List Message} (o : Row)
    → scan_messages json (claimed db set t) ≡ ok ms
    → Memᴰ o t.rows
    → picked db set t.rows o ≡ true
    → (m : Message) × Memᴰ m ms
      × (m.id ≡ o.id)
      × (m.attempts ≡ o.attempts + 1)
      × (m.max_attempts ≡ o.max_attempts)
unfolding lease
claimed-mem json db set t o h n p =
    let (m, inside, scanned) = scanned-mem json (claimed db set t) h (
      mem_map (lease db set) (select (picked db set t.rows) t.rows)
        (mem_select (picked db set t.rows) t.rows n p)) in
    let (id, attempts, limit) = scan_row-columns json (lease db set o) scanned in
    (m, inside, id, attempts, limit)

pub claimed-empty : (json : Json) (rs : List Row) → scan_messages json rs ≡ ok [] → rs ≡ []
unfolding scan_messages
claimed-empty json [] h = refl
claimed-empty json (r ∷ rs) h =
    let (_, _, _, _, same) = append_scanned-ok (scan_row json r) (scan_messages json rs) h in cc
