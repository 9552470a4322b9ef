-- ===== src/Store/Claim/Ordered.antt =====
-- The ordered mode of `claim`: only the head of a partition key is leased.
use mathlib.Core.List.{Memᴰ}
use mathlib.Core.Bool.{false≢true}
use pg_outbox.Base.{
  sym, ap, ◌∙◌, ◌≢◌, ℕ, suc, ◌≤◌, ◌≡◌, true, false, some, List, [], ◌∷◌, arith, inl, inr,
  Bool-cases,
}
use pg_outbox.Base.Text.{==_self}
use Prim.Native.String.{String}
use pg_outbox.Config.{Settings}
use pg_outbox.Table.{Row, Table}
use pg_outbox.Table.Rows.{UniqueIds, exists-false, All-mem}
use pg_outbox.Store.{Db}
use pg_outbox.Store.Invariant.{IsValid, Rising}
use pg_outbox.Store.Claim.{earlier, ready, unresolved, blocks, blocked, picked}
use pg_outbox.Store.Claim.Picks.{picked-eligible, eligible-parts}

blocks-unresolved :
    (r e : Row) (key : String)
    → r.partition_key ≡ some key
    → e.partition_key ≡ some key
    → earlier e r ≡ true
    → blocks r e ≡ false
    → unresolved e ≡ false
blocks-unresolved r e key kr ke before h = ground (arith, ==_self key)

ready-unresolved : (now : ℕ) (r : Row) → ready now r ≡ true → unresolved r ≡ true
ready-unresolved now r h = ground arith

-- In the ordered mode a row is leased only when every earlier row of its partition key, by creation
-- time and then by sequence number, is published or discarded. So a dead, pending or processing
-- row, also one that another transaction holds, keeps the later rows of its key unclaimed.
pub ordered_claims_head :
    (db : Db) (set : Settings) (rows : List Row) {r e : Row} (key : String)
    → set.ordered ≡ true
    → UniqueIds rows
    → Memᴰ r rows
    → picked db set rows r ≡ true
    → Memᴰ e rows
    → r.partition_key ≡ some key
    → e.partition_key ≡ some key
    → earlier e r ≡ true
    → unresolved e ≡ false
ordered_claims_head db set rows {r} {e} key on u m p n kr ke before =
    let (a, b, c) = eligible-parts db set.ordered rows r (picked-eligible db set rows u m p) in
    let free : blocked rows r ≡ false = rw on at b in
    let none_blocks : blocks r e ≡ false = All-mem _ (exists-false (blocks r) rows free) n in
    blocks-unresolved r e key kr ke before none_blocks

earlier-total :
    (a b : Row)
    → earlier a b ≢ true
    → earlier b a ≢ true
    → (a.created_at ≡ b.created_at) × (a.seq ≡ b.seq)
earlier-total a b p q = ground arith

below-Rising :
    (lo hi : ℕ) (rows : List Row) {r : Row} → Rising lo hi rows → Memᴰ r rows → lo ≤ r.seq
below-Rising lo hi [] h m = elim m [ ]
below-Rising lo hi (x ∷ rows) h (Memᴰ.head e) = rw e h.0
below-Rising lo hi (x ∷ rows) h (Memᴰ.tail m) =
    let l : suc x.seq ≤ _ = below-Rising (suc x.seq) hi rows h.1 m in omega (arith, h.0)

-- The sequence number of a row tells which row it is.
eq_of_seq :
    (lo hi : ℕ) (rows : List Row) {a b : Row}
    → Rising lo hi rows
    → Memᴰ a rows
    → Memᴰ b rows
    → a.seq ≡ b.seq
    → a ≡ b
eq_of_seq lo hi [] h m n same = elim m [ ]
eq_of_seq lo hi (x ∷ rows) h (Memᴰ.head e) (Memᴰ.head f) same = e ∙ sym f
eq_of_seq lo hi (x ∷ rows) {a} {b} h (Memᴰ.head e) (Memᴰ.tail n) same =
    let l : suc x.seq ≤ b.seq = below-Rising (suc x.seq) hi rows h.1 n in
    let k : a.seq ≡ x.seq = ap (λ (r : Row). r.seq) e in absurd (omega arith)
eq_of_seq lo hi (x ∷ rows) {a} {b} h (Memᴰ.tail m) (Memᴰ.head f) same =
    let l : suc x.seq ≤ a.seq = below-Rising (suc x.seq) hi rows h.1 m in
    let k : b.seq ≡ x.seq = ap (λ (r : Row). r.seq) f in absurd (omega arith)
eq_of_seq lo hi (x ∷ rows) h (Memᴰ.tail m) (Memᴰ.tail n) same =
    eq_of_seq (suc x.seq) hi rows h.1 m n same

-- Two rows of one key that are both picked in the ordered mode tie in the order of the key.
picked-tie :
    (db : Db) (set : Settings) (rows : List Row) {a b : Row} (key : String)
    → set.ordered ≡ true
    → UniqueIds rows
    → Memᴰ a rows
    → picked db set rows a ≡ true
    → Memᴰ b rows
    → picked db set rows b ≡ true
    → a.partition_key ≡ some key
    → b.partition_key ≡ some key
    → (a.created_at ≡ b.created_at) × (a.seq ≡ b.seq)
picked-tie db set rows {a} {b} key on u ma pa mb pb ka kb =
    let (ra, _, _) = eligible-parts db set.ordered rows a (picked-eligible db set rows u ma pa) in
    let (rb, _, _) = eligible-parts db set.ordered rows b (picked-eligible db set rows u mb pb) in
    let open_a : unresolved a ≡ true = ready-unresolved db.now a ra in
    let open_b : unresolved b ≡ true = ready-unresolved db.now b rb in
    let not_before : earlier b a ≢ true =
      λ h. false≢true (sym (ordered_claims_head db set rows key on u ma pa mb ka kb h) ∙ open_b) in
    let not_after : earlier a b ≢ true =
      λ h. false≢true (sym (ordered_claims_head db set rows key on u mb pb ma kb ka h) ∙ open_a) in
    earlier-total a b not_after not_before

-- Of one partition key the ordered mode leases one row at most in a pass: where a row of a valid table
-- is picked, no row with another id of the same key is.
pub ordered_claims_one :
    (db : Db) (set : Settings) (t : Table) {a b : Row} (key : String)
    → set.ordered ≡ true
    → IsValid t
    → Memᴰ a t.rows
    → picked db set t.rows a ≡ true
    → Memᴰ b t.rows
    → a.partition_key ≡ some key
    → b.partition_key ≡ some key
    → b.id ≢ a.id
    → picked db set t.rows b ≡ false
ordered_claims_one db set t {a} {b} key on v ma pa mb ka kb other =
    elim (Bool-cases (picked db set t.rows b)) [
      | inr e ↦ e
      | inl pb ↦
          let tie : (a.created_at ≡ b.created_at) × (a.seq ≡ b.seq) =
            picked-tie db set t.rows key on v.unique ma pa mb pb ka kb in
          let one : a ≡ b = eq_of_seq 0 t.next_seq t.rows v.rising ma mb (tie.1) in
          absurd (other (sym (ap (λ (r : Row). r.id) one)))
    ]
