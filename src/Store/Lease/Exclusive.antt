-- ===== src/Store/Lease/Exclusive.antt =====
-- What others can do to a row whose lease lives.
use mathlib.Core.List.{Memᴰ}
use mathlib.Core.List.Memᴰ
use mathlib.Core.Bool.{false≢true}
use pg_outbox.Base.{
  ℕ, ◌≤◌, ◌≡◌, sym, ◌∙◌, inr, true, false, some, List, arith, Bool-cases, inl, subst,
}
use Prim.Native.String.{String}
use pg_outbox.Config.{Settings}
use pg_outbox.Message.{is_status, processing}
use pg_outbox.Table.{Row, Table}
use pg_outbox.Store.{Db}
use pg_outbox.Store.Enqueue.Dedupe.{added, rows-insert_rows}
use pg_outbox.Store.Claim.{ready, picked, lease}
use pg_outbox.Store.Claim.Picks.{picked-eligible, eligible-parts}
use pg_outbox.Store.Lease.{owned}
use pg_outbox.Store.Lease.Fencing.{NoToken, not-owned_of_NoToken, mem_update-skipped}
use pg_outbox.Store.Upkeep.{is_dead_row}
use pg_outbox.Store.Upkeep.Terminal.{cleanup_keeps_live}
use pg_outbox.Store.Invariant.{IsValid}
use pg_outbox.Store.Invariant.Steps.{
  Step, enqueues, claims, renews, finishes, requeues, cleans, Step-IsValid,
}

-- A row that is leased under a token until a time.
pub record IsLeased (token : String) (until : ℕ) (r : Row) : Type 0 where
  pub busy : is_status r.status processing ≡ true
  pub held : r.lease_token ≡ some token
  pub expires : r.locked_until ≡ some until

-- A statement of somebody else, before that time: a claim by a clock that has not passed it, a renewal
-- or a completion without the token, or any other statement.
abbrev pub IsForeign : {t u : Table} → String → ℕ → Step t u → Type 0
IsForeign token until (enqueues db vs) = Unit
IsForeign token until (claims db set) = db.now ≤ until
IsForeign token until (renews db keys d) = NoToken token keys
IsForeign token until (finishes db keys c ne) = NoToken token keys
IsForeign token until (requeues db id) = Unit
IsForeign token until (cleans db set) = Unit

pub data ForeignHistory (token : String) (until : ℕ) (t : Table) : Table → Type 0 where
  nothing : ForeignHistory token until t t
  also :
      {u v : Table}
      → ForeignHistory token until t u
      → (s : Step u v) → IsForeign token until s
      → ForeignHistory token until t v

not-ready_of_leased :
    (now until : ℕ) (token : String) (r : Row)
    → IsLeased token until r
    → now ≤ until
    → ready now r ≡ false
not-ready_of_leased now until token r l le = ground (arith, l.busy, l.expires, le)

not-picked_of_leased :
    (db : Db) (set : Settings) (t : Table) (until : ℕ) (token : String) {r : Row}
    → IsValid t
    → Memᴰ r t.rows
    → IsLeased token until r
    → db.now ≤ until
    → picked db set t.rows r ≡ false
not-picked_of_leased db set t until token {r} v m l le =
    elim (Bool-cases (picked db set t.rows r)) [
      | inr p ↦ p
      | inl p ↦
          let may = picked-eligible db set t.rows v.unique m p in
          absurd (
            false≢true (
              sym (not-ready_of_leased db.now until token r l le)
              ∙ (eligible-parts db set.ordered t.rows r may).0))
    ]

Step-keeps :
    {t u : Table} (token : String) (until : ℕ) {r : Row} (s : Step t u)
    → IsForeign token until s
    → IsValid t
    → IsLeased token until r
    → Memᴰ r t.rows
    → Memᴰ r u.rows
Step-keeps {t} token until {r} (enqueues db vs) f v l m =
    subst (λ (rows : List Row). Memᴰ r rows) (sym (rows-insert_rows db vs t))
      (Memᴰ.append_left (added db vs t) m)
Step-keeps {t} token until {r} (claims db set) f v l m =
    mem_update-skipped (picked db set t.rows) (lease db set) t.rows m
      (not-picked_of_leased db set t until token v m l f)
Step-keeps {t} token until {r} (renews db keys d) f v l m =
    mem_update-skipped (owned db keys) _ t.rows m (not-owned_of_NoToken db keys r token l.held f)
Step-keeps {t} token until {r} (finishes db keys c ne) f v l m =
    mem_update-skipped (owned db keys) _ t.rows m (not-owned_of_NoToken db keys r token l.held f)
Step-keeps {t} token until {r} (requeues db id) f v l m =
    mem_update-skipped (is_dead_row id) _ t.rows m (ground (arith, l.busy))
Step-keeps {t} token until {r} (cleans db set) f v l m =
    cleanup_keeps_live db set t v.unique m (inr l.busy)

History-IsValid_of_foreign :
    (token : String) (until : ℕ) {t u : Table}
    → ForeignHistory token until t u
    → IsValid t
    → IsValid u
History-IsValid_of_foreign token until nothing v = v
History-IsValid_of_foreign token until (also h s f) v =
    Step-IsValid s (History-IsValid_of_foreign token until h v)

-- Mutual exclusion. While a row is leased, nobody but its holder changes or removes it: it stands as it
-- was after any sequence of statements of others, enqueues, claims of any worker before the lease runs
-- out, renewals and completions of batches that do not carry its token, requeues and cleanups, in any
-- order and under any settings.
pub leased_stays :
    (token : String) (until : ℕ) (t u : Table) (r : Row)
    → IsValid t
    → Memᴰ r t.rows
    → IsLeased token until r
    → ForeignHistory token until t u
    → Memᴰ r u.rows
leased_stays token until t u r v m l nothing = m
leased_stays token until t u r v m l (also {u = w} h s f) =
    Step-keeps token until s f (History-IsValid_of_foreign token until h v) l
      (leased_stays token until t w r v m l h)
