-- ===== src/Relay/Drain/Claims.antt =====
-- What a claim that answers says of the first row of its batch.
use mathlib.Core.List.{Memᴰ}
use pg_outbox.Base.{
  Bool, if◌then◌else◌, ℕ, ◌+◌, ◌<◌, ◌≡◌, refl, sym, ap, subst, ◌∙◌, true, false, Option, none, some,
  List, [], ◌∷◌, map, arith, select,
}
use pg_outbox.Relay.{Env}
use mathlib.Core.Path.{ap₂}
use pg_outbox.Relay.Drain.Effort.{row_limit}
use pg_outbox.Base.Int.{ℤ, pos, negsuc, pos_part, leb_ℤ}
use pg_outbox.Config.{Settings}
use pg_outbox.Message.{Message}
use pg_outbox.Table.{Row, Table}
use pg_outbox.Table.Rows.{mem-select}
use pg_outbox.Store.{
  Db, Json, Reply, answers, fails, loses, panics, Result, ok, err, run, scan_row, scan_messages,
}
use pg_outbox.Store.Claim.{out_of_range, claim, claimed, claim_rows, picked, lease}
use pg_outbox.Store.Lease.Outcome.{append_scanned-ok}
use pg_outbox.Relay.Settle.{limit_of}

pub scan_row-limits :
    (json : Json) (r : Row) {m : Message}
    → scan_row json r ≡ ok m
    → (m.attempts ≡ r.attempts) × (m.max_attempts ≡ r.max_attempts)
scan_row-limits json r h = ground arith

-- The first message of a claimed batch is that of a row that the claim leased.
pub first-claimed :
    (json : Json) (db : Db) (set : Settings) (t : Table) (m : Message) (ms : List Message)
    → scan_messages json (claimed db set t) ≡ ok (m ∷ ms)
    → (o : Row) × Memᴰ o t.rows
      × (picked db set t.rows o ≡ true)
      × (m.attempts ≡ o.attempts + 1)
      × (m.max_attempts ≡ o.max_attempts)
unfolding scan_messages lease
first-claimed json db set t m ms h = first (select (picked db set t.rows) t.rows) refl
  where
    first :
        (found : List Row)
        → found ≡ select (picked db set t.rows) t.rows
        → (o : Row) × Memᴰ o t.rows
          × (picked db set t.rows o ≡ true)
          × (m.attempts ≡ o.attempts + 1)
          × (m.max_attempts ≡ o.max_attempts)
    first [] e = cc (e, h)
    first (o ∷ found) e =
        let (n, p) =
          mem-select (picked db set t.rows) t.rows
            (subst (λ (l : List Row). Memᴰ o l) e (Memᴰ.head refl)) in
        let (x, l, q, _, same) =
          append_scanned-ok (scan_row json (lease db set o))
            (scan_messages json (map (lease db set) found))
            (subst (λ (l : List Row). scan_messages json (map (lease db set) l) ≡ ok (m ∷ ms))
              (sym e) h) in
        let (a, b) = scan_row-limits json (lease db set o) q in
        let head : m ≡ x =
          ap (λ (l : List Message). elim l as (λ _. Message) [ [] ↦ m | y ∷ _ ↦ y ]) same in
        (
          o,
          n,
          p,
          ap (λ (y : Message). y.attempts) head ∙ a,
          ap (λ (y : Message). y.max_attempts) head ∙ b,
        )

pub claim-ran :
    (json : Json) (db : Db) (set : Settings) (t : Table) (ms : List Message)
    → (claim json db set t).1 ≡ ok ms
    → ((claim json db set t).0 ≡ claim_rows db set t)
      × (scan_messages json (claimed db set t) ≡ ok ms)
unfolding claim
claim-ran json db set t ms h = ran db.reply (out_of_range db set t) h
  where
    fits : Bool → Table × Result (List Message)
    fits over =
        if over
        then (t, err db.integer_range)
        else (claim_rows db set t, scan_messages json (claimed db set t))

    ran :
        (reply : Reply) (over : Bool)
        → (run reply t (fits over)).1 ≡ ok ms
        → ((run reply t (fits over)).0 ≡ claim_rows db set t)
          × (scan_messages json (claimed db set t) ≡ ok ms)
    ran answers false e = (refl, e)
    ran answers true e = cc
    ran (fails x) over e = cc
    ran (loses x) over e = cc
    ran (panics v) over e = cc

below_limit : (limit : ℤ) (a : ℕ) → leb_ℤ limit (pos a) ≡ false → a < pos_part limit
below_limit (pos k) a h = ground arith
below_limit (negsuc k) a h = ground arith

module _ (env : Env) (set : Settings) where
  pub below_row :
      (m : Message) (o : Row)
      → m.attempts ≡ o.attempts + 1
      → m.max_attempts ≡ o.max_attempts
      → leb_ℤ (limit_of env set m) (pos m.attempts) ≡ false
      → o.attempts + 1 < pos_part (row_limit set o)
  below_row m o spent limit more =
      let same : limit_of env set m ≡ row_limit set o =
        ap (λ (x : Option ℤ). elim x as (λ _. ℤ) [ none ↦ set.max_attempts | some own ↦ own ])
          limit in
      below_limit (row_limit set o) (o.attempts + 1)
        (sym (ap₂ (λ (l : ℤ) (a : ℕ). leb_ℤ l (pos a)) same spent) ∙ more)
