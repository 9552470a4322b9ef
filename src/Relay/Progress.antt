-- ===== src/Relay/Progress.antt =====
-- What the loop of a worker leaves of the rows that it finds.
use mathlib.Core.List.{Memᴰ}
use pg_outbox.Base.{
  sym, ◌∙◌, ◌≢◌, ◌≡◌, ◌≤◌, refl, ℕ, Bool, true, false, ◌||◌, Option, none, some, List, [], ◌∷◌,
  arith, ◌⊎◌, inl, inr, Bool-cases,
}
use pg_outbox.Base.Int.{ℤ}
use Prim.Native.String.{String}
use pg_outbox.Config.{Settings}
use pg_outbox.Message.{Message, is_status, processing, published, dead, discarded}
use pg_outbox.Port.{Error}
use pg_outbox.Table.{Row, Table, update}
use pg_outbox.Store.{Db}
use pg_outbox.Store.Claim.{out_of_range, claim, claim_rows, picked, lease, ready}
use pg_outbox.Store.Claim.Picks.{picked-eligible, eligible-parts}
use pg_outbox.Store.Lease.{
  claim_keys, Completion, clears, renew, renew_rows, finish, finish_rows, owned, extend,
  complete_row,
}
use pg_outbox.Store.Lease.Fencing.{owned-parts, mem_update-hit, mem_update-skipped}
use pg_outbox.Store.Invariant.{IsValid}
use pg_outbox.Store.Invariant.Steps.{claims, renews, finishes, Step-IsValid}
use pg_outbox.Relay.{Env, World}
use pg_outbox.Relay.Batch.{drain}
use pg_outbox.Relay.Verdict.{verdict}
use pg_outbox.Relay.Keeps.{TableOrder, run-keeps}
use pg_outbox.Relay.Keeps.Settling.{RightKeeps}
use pg_outbox.Relay.Keeps.Passing.{Keeps-drain}

abbrev pub has_settled : Row → Bool
has_settled r =
    is_status r.status published || is_status r.status dead || is_status r.status discarded

-- The columns that an enqueue has given the row, apart from the contents and its state.
abbrev pub origin :
    Row → String × String × Option String × Option String × Option String × Option ℤ × ℕ × ℕ
origin r = (
  r.id, r.topic, r.partition_key, r.content_type, r.message_type, r.max_attempts, r.created_at,
  r.seq,
)

-- What may become of the row `o`: its message and its place in the order stay, the payload and
-- the headers until it is settled; its attempts do not fall, and once it has settled it stays as it is.
pub record Follows (o r : Row) : Type 0 where
  pub same_origin : origin r ≡ origin o
  pub holds : ((r.payload ≡ o.payload) × (r.headers ≡ o.headers)) ⊎ (has_settled r ≡ true)
  pub counts : o.attempts ≤ r.attempts
  pub stays : has_settled o ≡ true → r ≡ o

pub Follows-refl : (o : Row) → Follows o o
Follows-refl o = record {
  same_origin = refl;
  holds = inl (refl, refl);
  counts = omega arith;
  stays = λ h. refl;
}

pub Follows-trans : {a b c : Row} → Follows a b → Follows b c → Follows a c
Follows-trans {a} {b} {c} f g = record {
  same_origin = g.same_origin ∙ f.same_origin;
  holds = elim g.holds [
    | inr h ↦ inr h
    | inl e ↦ elim f.holds [
      | inl d ↦ inl (e.0 ∙ d.0, e.1 ∙ d.1)
      | inr h ↦ inr (rw (g.stays h, h) refl)
    ]
  ];
  counts = omega (arith, f.counts, g.counts);
  stays = λ h. let e : b ≡ a = f.stays h in g.stays (rw (e, h) refl) ∙ e;
}

-- Every row of a table has a row of the other that follows it.
abbrev pub AllFollow : Table → Table → Type 0
AllFollow t u = (o : Row) → Memᴰ o t.rows → (r : Row) × Memᴰ r u.rows × Follows o r

-- A valid table stays valid and loses no row.
abbrev pub progress : TableOrder
progress = record {
  Rel = λ t u. IsValid t → IsValid u × AllFollow t u;
  reflexive = λ t v. (v, λ o m. (o, m, Follows-refl o));
  transitive = λ f g v.
      let (v', first) = f v in
      let (v'', second) = g v' in
      (
        v'',
        λ o m. let (r, n, a) = first o m in let (s, k, b) = second r n in (s, k, Follows-trans a b),
      );
}

update-AllFollow :
    (p : Row → Bool) (f : Row → Row) (t : Table)
    → ((r : Row) → Memᴰ r t.rows → p r ≡ true → Follows r (f r))
    → AllFollow t (record t { rows = update p f t.rows })
update-AllFollow p f t follows o m = elim (Bool-cases (p o)) [
  | inl h ↦ (f o, mem_update-hit p f t.rows m h, follows o m h)
  | inr h ↦ (o, mem_update-skipped p f t.rows m h, Follows-refl o)
]

-- Settling ends the processing of a message.
verdict-ends :
    (set : Settings) (outcome : Option Error) (m : Message) → verdict set outcome m ≢ processing
unfolding verdict
verdict-ends set none m h = cc
verdict-ends set (some e) m h = ground arith

ready-live : (now : ℕ) (r : Row) → ready now r ≡ true → has_settled r ≡ false
ready-live now r h = ground arith

processing-live : (r : Row) → is_status r.status processing ≡ true → has_settled r ≡ false
processing-live r h = ground arith

owned-live :
    (db : Db) (keys : List (String × String)) (r : Row)
    → owned db keys r ≡ true
    → has_settled r ≡ false
unfolding owned
owned-live db keys r h = let (_, _, _, busy, _) = owned-parts db keys r h in processing-live r busy

lease-Follows :
    (db : Db) (set : Settings) (r : Row) → has_settled r ≡ false → Follows r (lease db set r)
unfolding lease
lease-Follows db set r live = record {
  same_origin = refl;
  holds = inl (refl, refl);
  counts = omega arith;
  stays = λ h. cc (live, h);
}

extend-Follows :
    (db : Db) (set : Settings) (r : Row)
    → has_settled r ≡ false
    → Follows r (extend db set.lease_duration r)
unfolding extend
extend-Follows db set r live = record {
  same_origin = refl;
  holds = inl (refl, refl);
  counts = omega arith;
  stays = λ h. cc (live, h);
}

clears-settled :
    (c : Completion)
    → clears c ≡ true
    → is_status c.status published || is_status c.status dead || is_status c.status discarded ≡ true
clears-settled c h = ground arith

complete_row-Follows :
    (db : Db) (c : Completion) (r : Row) → has_settled r ≡ false → Follows r (complete_row db c r)
unfolding complete_row
complete_row-Follows db c r live = record {
  same_origin = refl;
  holds = elim (Bool-cases (clears c)) [
    | inl e ↦ inr (clears-settled c e)
    | inr e ↦ inl (rw e refl, rw e refl)
  ];
  counts = omega arith;
  stays = λ h. cc (live, h);
}

-- A claim makes progress.
pub claim_rows-progress :
    (db : Db) (set : Settings) (t : Table) → progress.Rel t (claim_rows db set t)
claim_rows-progress db set t v = (
  Step-IsValid (claims db set) v,
  update-AllFollow (picked db set t.rows) (lease db set) t λ r m h. lease-Follows db set r (
      ready-live db.now r
        ((eligible-parts db set.ordered t.rows r (picked-eligible db set t.rows v.unique m h)).0)),
)

claim-progress :
    (env : Env) (set : Settings) (db : Db) (t : Table) → progress.Rel t (claim env.json db set t).0
unfolding claim
claim-progress env set db t = elim (Bool-cases (out_of_range db set t)) [
  | inl over ↦ rw over (run-keeps progress db.reply t t _ (progress.reflexive t))
  | inr fits ↦
      rw fits (run-keeps progress db.reply t (claim_rows db set t) _ (claim_rows-progress db set t))
]

renew-progress :
    (set : Settings) (msgs : List Message) (db : Db) (t : Table)
    → progress.Rel t (renew db msgs set.lease_duration t).0
unfolding renew
renew-progress set msgs db t =
    run-keeps progress db.reply t (renew_rows db (claim_keys msgs) set.lease_duration t) _ λ v. (
      Step-IsValid (renews db (claim_keys msgs) set.lease_duration) v,
      update-AllFollow (owned db (claim_keys msgs)) (extend db set.lease_duration) t
          λ r m h. extend-Follows db set r (owned-live db (claim_keys msgs) r h),
    )

finish-progress :
    (env : Env) (set : Settings) (batch : List Message) (outcome : Message → Option Error)
    → RightKeeps env set progress batch outcome
unfolding finish
finish-progress env set batch outcome [] c db t right = progress.reflexive t
finish-progress env set batch outcome (m ∷ ms) c db t right =
    run-keeps progress db.reply t (finish_rows db (claim_keys (m ∷ ms)) c t) _ λ v. (
      Step-IsValid
          (finishes db (claim_keys (m ∷ ms)) c
            (λ h. verdict-ends set (outcome m) m (sym (right.0.1.0) ∙ h)))
          v,
      update-AllFollow (owned db (claim_keys (m ∷ ms))) (complete_row db c) t
          λ r k h. complete_row-Follows db c r (owned-live db (claim_keys (m ∷ ms)) r h),
    )

-- However the loop of a worker runs, whatever the database, the publisher, the hooks and the classifier
-- answer, also when it unwinds in a panic or is cut off between two passes, a valid table stays valid
-- and no row is lost: each row keeps its message and its place in the order, and its payload and headers
-- until it is settled, its attempts do not fall, and a published, dead or discarded row stands as it was found. The transactions that run meanwhile
-- are taken to do the same, as the claims of other workers do.
pub drain_progresses :
    (env : Env) (set : Settings) (fuel : ℕ) (w : World) {o : Row}
    → ((n : ℕ) (t : Table) → progress.Rel t (env.between n t))
    → IsValid w.table
    → Memᴰ o w.table.rows
    → IsValid (drain env set fuel w).1.table
      × ((r : Row) × Memᴰ r (drain env set fuel w).1.table.rows × Follows o r)
drain_progresses env set fuel w {o} others valid m =
    let (later, follow) =
      (Keeps-drain env set progress
          (record {
            others_keep = record { others = others };
            claims = claim-progress env set;
            renews = renew-progress set;
            completes = finish-progress env set;
          })
          fuel).at
        w valid in
    (later, follow o m)
