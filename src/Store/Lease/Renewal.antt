-- ===== src/Store/Lease/Renewal.antt =====
-- When `renew` succeeds.
use mathlib.Core.List.{Memᴰ}
use pg_outbox.Base.{
  ℕ, ◌≡◌, refl, sym, ap, ◌∙◌, ◌↔◌, inl, inr, Bool, true, false, some, List, [], ◌∷◌, arith,
  if◌then◌else◌, length, select, All, ◌==◌, length-map, subst,
}
use Prim.Native.String.{String}
use pg_outbox.Backoff.{Duration}
use pg_outbox.Message.{Message, is_status, processing}
use pg_outbox.Port.{lease_lost}
use pg_outbox.Table.{Row, Table, after, exists}
use pg_outbox.Table.Rows.{UniqueIds, &&-intro, ||-cases}
use pg_outbox.Store.{answered, Db, Result, ok, err, answers}
use pg_outbox.Store.Lease.Fencing.{owned-parts, has_key_of_mem}
use pg_outbox.Store.Lease.{claim_keys, owned, renew}
use pg_outbox.Store.Lease.Count.{UniqueKeys, opens, holds, opens-id, full-select, length-owned}

-- The message's row is processing under its token, and the lease lives.
pub record HasLease (db : Db) (t : Table) (m : Message) : Type 0 where
  pub row : Row
  pub there : Memᴰ row t.rows
  pub same_message : row.id ≡ m.id
  pub same_attempt : row.lease_token ≡ some m.lease_token
  pub busy : is_status row.status processing ≡ true
  pub live : after row.locked_until db.clock ≡ true

exists-mem {ℓ} :
    {A : Type ℓ} (p : A → Bool) (xs : List A)
    → exists p xs ≡ true
    → (x : A) × Memᴰ x xs × (p x ≡ true)
exists-mem p [] h = cc
exists-mem p (x ∷ xs) h = elim (||-cases (p x) (exists p xs) h) [
  | inl e ↦ (x, Memᴰ.head refl, e)
  | inr e ↦ let (y, m, f) = exists-mem p xs e in (y, Memᴰ.tail m, f)
]

exists_of_mem {ℓ} :
    {A : Type ℓ} (p : A → Bool) (xs : List A) {x : A} → Memᴰ x xs → p x ≡ true → exists p xs ≡ true
exists_of_mem p [] m e = elim m [ ]
exists_of_mem p (y ∷ xs) (Memᴰ.head q) e = ground (arith, ap p q)
exists_of_mem p (y ∷ xs) (Memᴰ.tail m) e = ground (arith, exists_of_mem p xs m e)

holds-HasLease :
    (db : Db) (t : Table) (m : Message)
    → (holds db t.rows (m.id, m.lease_token) ≡ true) ↔ HasLease db t m
unfolding owned
holds-HasLease db t m = (
  λ h.
      let (r, n, e) = exists-mem (opens db (m.id, m.lease_token)) t.rows h in
      let (token, held, key, busy, live) = owned-parts db ((m.id, m.lease_token) ∷ []) r e in
      record {
        row = r;
        there = n;
        same_message = opens-id db (m.id, m.lease_token) r e;
        same_attempt = held ∙ ap some (own_token key);
        busy = busy;
        live = live;
      },
  λ l. exists_of_mem (opens db (m.id, m.lease_token)) t.rows l.there (
      &&-intro
        (&&-intro
          (rw (l.same_attempt, l.same_message)
            (has_key_of_mem ((m.id, m.lease_token) ∷ []) m.id m.lease_token (Memᴰ.head refl)))
          l.busy)
        l.live),
)
  where
    own_token :
        {id token : String}
        → Memᴰ {A = String × String} (id, token) ((m.id, m.lease_token) ∷ [])
        → token ≡ m.lease_token
    own_token (Memᴰ.head e) = ap (λ (q : String × String). q.1) e
    own_token (Memᴰ.tail n) = elim n [ ]

All-holds :
    (db : Db) (t : Table) (msgs : List Message)
    → All (λ k. holds db t.rows k ≡ true) (claim_keys msgs) ↔ All (HasLease db t) msgs
All-holds db t [] = (λ h. tt, λ h. tt)
All-holds db t (m ∷ ms) = (
  λ h. ((holds-HasLease db t m).0 h.0, (All-holds db t ms).0 h.1),
  λ h. ((holds-HasLease db t m).1 h.0, (All-holds db t ms).1 h.1),
)

-- The statement reaches as many rows as the batch has messages exactly when every lease lives.
pub length-owned_full :
    (db : Db) (t : Table) (msgs : List Message)
    → UniqueIds t.rows
    → UniqueKeys (claim_keys msgs)
    → (length (select (owned db (claim_keys msgs)) t.rows) ≡ length msgs) ↔ All (HasLease db t) msgs
length-owned_full db t msgs u v = (
  λ h.
      (All-holds db t msgs).0
        ((full-select (holds db t.rows) (claim_keys msgs)).0 (sym same ∙ h ∙ sym keys)),
  λ h.
      same ∙ (full-select (holds db t.rows) (claim_keys msgs)).1 ((All-holds db t msgs).1 h) ∙ keys,
)
  where
    same :
        length (select (owned db (claim_keys msgs)) t.rows)
        ≡ length (select (holds db t.rows) (claim_keys msgs))
    same = length-owned db (claim_keys msgs) t.rows u v

    keys : length (claim_keys msgs) ≡ length msgs
    keys = length-map (λ (m : Message). (m.id, m.lease_token)) msgs

abbrev answer_of : Bool → Result (Unit {0})
answer_of all = if all then ok tt else err lease_lost

renew-answer :
    (db : Db) (msgs : List Message) (d : Duration) (t : Table)
    → db.reply ≡ answers
    → (renew db msgs d t).1
      ≡ answer_of (length (select (owned db (claim_keys msgs)) t.rows) == length msgs)
unfolding renew
renew-answer db msgs d t up =
    ap (λ (x : Table × Result (Unit {0})). x.1) (answered db.reply t up refl)

-- `renew` answers nil exactly when every message of the batch still has its lease, and ErrLeaseLost when
-- one has lost it, given that the executor answers and that ids are unique in the table and in the batch.
pub renew_iff :
    (db : Db) (msgs : List Message) (d : Duration) (t : Table)
    → db.reply ≡ answers
    → UniqueIds t.rows
    → UniqueKeys (claim_keys msgs)
    → (((renew db msgs d t).1 ≡ ok tt) ↔ All (HasLease db t) msgs)
      × (((renew db msgs d t).1 ≡ err lease_lost) ↔ ¬ (All (HasLease db t) msgs))
renew_iff db msgs d t up u v =
    subst
      (λ (x : Result (Unit {0})).
        ((x ≡ ok tt) ↔ All (HasLease db t) msgs)
        × ((x ≡ err lease_lost) ↔ ¬ (All (HasLease db t) msgs)))
      (sym (renew-answer db msgs d t up)) (go (n == length msgs) refl)
  where
    n : ℕ
    n = length (select (owned db (claim_keys msgs)) t.rows)

    full : (n ≡ length msgs) ↔ All (HasLease db t) msgs
    full = length-owned_full db t msgs u v

    go :
        (b : Bool)
        → (n == length msgs) ≡ b
        → ((answer_of b ≡ ok tt) ↔ All (HasLease db t) msgs)
          × ((answer_of b ≡ err lease_lost) ↔ ¬ (All (HasLease db t) msgs))
    go true e = (
      (λ h. full.0 (ground arith), λ h. refl),
      (λ h. cc, λ h. absurd (h (full.0 (ground arith)))),
    )
    go false e = (
      (λ h. cc, λ h. absurd (ground (arith, full.1 h))),
      (λ h all. absurd (ground (arith, full.1 all)), λ h. refl),
    )
