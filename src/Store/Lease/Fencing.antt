-- ===== src/Store/Lease/Fencing.antt =====
-- Fencing: what `finish` and `renew` cannot reach, and what they do to the rows that they reach.
use mathlib.Core.List.{Memᴰ}
use pg_outbox.Base.{
  subst, sym, ap, ◌+◌, ◌≡◌, refl, ◌≢◌, ◌⊎◌, inl, inr, Bool, true, false, ◌&&◌, Option, none, some,
  List, [], ◌∷◌, arith, if◌then◌else◌, Bool-cases, All,
}
use pg_outbox.Base.Text.{◌==◌ as ◌=s=◌, eq_of_==, ==_self}
use Prim.Native.String.{String}
use pg_outbox.Backoff.{Duration}
use pg_outbox.Config.{Settings}
use pg_outbox.Message.{is_status, pending, processing, published}
use pg_outbox.Table.{Row, Table, update, after}
use pg_outbox.Table.Rows.{||-cases, &&-both, mem-update}
use pg_outbox.Store.{Db, null_str}
use pg_outbox.Store.Claim.{picked, lease, claim_rows}
use pg_outbox.Store.Lease.{
  has_key, owned, renew_rows, Completion, complete_row, clears, finish_rows,
}

-- A row that the test passes over stays in the updated table.
pub mem_update-skipped {ℓ} :
    {A : Type ℓ} (p : A → Bool) (f : A → A) {x : A} (xs : List A)
    → Memᴰ x xs
    → p x ≡ false
    → Memᴰ x (update p f xs)
mem_update-skipped p f {x} [] m h = elim m [ ]
mem_update-skipped p f {x} (y ∷ xs) (Memᴰ.head e) h = Memᴰ.head (rw (← e) (rw h))
mem_update-skipped p f {x} (y ∷ xs) (Memᴰ.tail m) h = Memᴰ.tail (mem_update-skipped p f xs m h)

pub mem_update-hit {ℓ} :
    {A : Type ℓ} (p : A → Bool) (f : A → A) {x : A} (xs : List A)
    → Memᴰ x xs
    → p x ≡ true
    → Memᴰ (f x) (update p f xs)
mem_update-hit p f {x} [] m h = elim m [ ]
mem_update-hit p f {x} (y ∷ xs) (Memᴰ.head e) h = Memᴰ.head (rw (← e) (rw h))
mem_update-hit p f {x} (y ∷ xs) (Memᴰ.tail m) h = Memᴰ.tail (mem_update-hit p f xs m h)

-- A key of the list names both the id and the token.
pub has_key-mem :
    (keys : List (String × String)) (id token : String)
    → has_key keys id (some token) ≡ true
    → Memᴰ (id, token) keys
has_key-mem [] id token h = cc
has_key-mem ((i, k) ∷ keys) id token h = elim (||-cases (i =s= id && k =s= token) _ h) [
  | inl e ↦
      let (a, b) = &&-both (i =s= id) (k =s= token) e in
      Memᴰ.head (λ j. (sym (eq_of_== i id a) j, sym (eq_of_== k token b) j))
  | inr e ↦ Memᴰ.tail (has_key-mem keys id token e)
]

pub has_key_of_mem :
    (keys : List (String × String)) (id token : String)
    → Memᴰ (id, token) keys
    → has_key keys id (some token) ≡ true
has_key_of_mem [] id token m = elim m [ ]
has_key_of_mem ((i, k) ∷ keys) id token (Memᴰ.head e) = ground (
  arith,
  ==_self id,
  ==_self token,
  ap (λ (q : String × String). q.0) e,
  ap (λ (q : String × String). q.1) e,
)
has_key_of_mem ((i, k) ∷ keys) id token (Memᴰ.tail m) =
    ground (arith, has_key_of_mem keys id token m)

-- A token that no key carries opens no lease.
abbrev pub NoToken : String → List (String × String) → Type 0
NoToken token = All (λ k. k.1 ≢ token)

not-has_key :
    (keys : List (String × String)) (id token : String)
    → NoToken token keys
    → has_key keys id (some token) ≡ false
not-has_key [] id token h = refl
not-has_key ((i, k) ∷ keys) id token h = ground (arith, h.0, not-has_key keys id token h.1)

pub not-owned_of_NoToken :
    (db : Db) (keys : List (String × String)) (r : Row) (token : String)
    → r.lease_token ≡ some token
    → NoToken token keys
    → owned db keys r ≡ false
unfolding owned
not-owned_of_NoToken db keys r token e none_has = rw (e, not-has_key keys r.id token none_has) refl

pub has_key-some :
    (keys : List (String × String)) (id : String) (o : Option String)
    → has_key keys id o ≡ true
    → (token : String) × (o ≡ some token) × Memᴰ (id, token) keys
has_key-some [] id none h = cc
has_key-some (k ∷ keys) id none h = cc
has_key-some keys id (some token) h = (token, refl, has_key-mem keys id token h)

&&-false : (a b : Bool) → b ≡ false → (a && b) ≡ false
&&-false true b h = h
&&-false false b h = refl

not-owned_of_late :
    (db : Db) (keys : List (String × String)) (r : Row)
    → after r.locked_until db.clock ≡ false
    → owned db keys r ≡ false
unfolding owned
not-owned_of_late db keys r late =
    &&-false (has_key keys r.id r.lease_token && is_status r.status processing) _ late

-- The parts of the test of a row.
pub owned-parts :
    (db : Db) (keys : List (String × String)) (r : Row)
    → owned db keys r ≡ true
    → (token : String) × (r.lease_token ≡ some token)
      × Memᴰ (r.id, token) keys
      × (is_status r.status processing ≡ true)
      × (after r.locked_until db.clock ≡ true)
unfolding owned
owned-parts db keys r h =
    let (ab, live) =
      &&-both (has_key keys r.id r.lease_token && is_status r.status processing) _ h in
    let (a, b) = &&-both (has_key keys r.id r.lease_token) (is_status r.status processing) ab in
    let (token, e, m) = has_key-some keys r.id r.lease_token a in (token, e, m, b, live)

-- Fencing. Once a row was claimed again, under a token that an older batch does not carry, neither
-- the completion nor the renewal of that batch changes it, at any later time.
pub stale_batch_fenced :
    (db later : Db) (set : Settings) (t : Table) (keys : List (String × String)) (c : Completion)
    (d : Duration) {o : Row}
    → Memᴰ o t.rows
    → picked db set t.rows o ≡ true
    → NoToken (db.uuid o.seq) keys
    → Memᴰ (lease db set o) (finish_rows later keys c (claim_rows db set t)).rows
      × Memᴰ (lease db set o) (renew_rows later keys d (claim_rows db set t)).rows
unfolding lease
stale_batch_fenced db later set t keys c d {o} m p none_has =
    let held : Memᴰ (lease db set o) (claim_rows db set t).rows =
      mem_update-hit (picked db set t.rows) (lease db set) t.rows m p in
    let out : owned later keys (lease db set o) ≡ false =
      not-owned_of_NoToken later keys (lease db set o) (db.uuid o.seq) refl none_has in
    (
      mem_update-skipped (owned later keys) _ _ held out,
      mem_update-skipped (owned later keys) _ _ held out,
    )

-- A lease that has run out is dead: neither its own holder nor anybody else can complete, retry or
-- renew it, even if no other worker has claimed the row yet.
pub expired_lease_fenced :
    (db : Db) (t : Table) (keys : List (String × String)) (c : Completion) (d : Duration) {r : Row}
    → Memᴰ r t.rows
    → after r.locked_until db.clock ≡ false
    → Memᴰ r (finish_rows db keys c t).rows × Memᴰ r (renew_rows db keys d t).rows
expired_lease_fenced db t keys c d {r} m late =
    let out : owned db keys r ≡ false = not-owned_of_late db keys r late in
    (mem_update-skipped (owned db keys) _ _ m out, mem_update-skipped (owned db keys) _ _ m out)

-- `r` is what a completion makes of the row `o`: a processing row under a live lease whose id and
-- token one key names together; now it has the given status and reason and no lease.
abbrev pub IsOutcomeOf : Db → List (String × String) → Completion → Row → Row → Type 0
IsOutcomeOf db keys c o r =
    ((token : String) × (o.lease_token ≡ some token) × Memᴰ (o.id, token) keys)
    × (is_status o.status processing ≡ true)
    × (after o.locked_until db.clock ≡ true)
    × (r ≡ record o {
      status = c.status;
      next_attempt_at =
          if is_status c.status pending then db.clock + db.interval c.delay else o.next_attempt_at;
      last_error = null_str c.reason;
      published_at = if is_status c.status published then some db.clock else none;
      finished_at = if is_status c.status pending then none else some db.clock;
      payload = if clears c then [] else o.payload;
      headers = if clears c then "{}" else o.headers;
      locked_by = none;
      locked_until = none;
      lease_token = none;
    })

-- A row of the table after a completion is a row from before that was left as it was, or the
-- outcome of a processing row whose id and token the batch names together and whose lease is live:
-- it has the given status and reason and no lease; only a retry sets the time of the next attempt;
-- `published_at` is set exactly for a published row and `finished_at` for every row but a retried
-- one; payload and headers are emptied exactly where clearing is on and the row is published or
-- discarded.
pub finish_rows-mem :
    (db : Db) (keys : List (String × String)) (c : Completion) (t : Table) {r : Row}
    → Memᴰ r (finish_rows db keys c t).rows
    → Memᴰ r t.rows ⊎ ((o : Row) × Memᴰ o t.rows × IsOutcomeOf db keys c o r)
unfolding complete_row
finish_rows-mem db keys c t {r} m =
    let (o, n, e) = mem-update (owned db keys) (complete_row db c) t.rows m in
    elim (Bool-cases (owned db keys o)) [
      | inl p ↦
          let (token, a, b, d, f) = owned-parts db keys o p in
          inr (o, n, ((token, a, b), d, f, rw p at e))
      | inr p ↦
          let same : r ≡ o = rw p at e in inl (subst (λ (x : Row). Memᴰ x t.rows) (sym same) n)
    ]
