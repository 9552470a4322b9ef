-- ===== src/Relay/Drain/Spending.antt =====
-- A settling of a row that is out of attempts, or published, or discarded, spends effort where it
-- reports no error.
use pg_outbox.Relay.Returns.{>>=-returns, exec-returns}
use pg_outbox.Relay.Drain.Settling.{OthersSettle}
use mathlib.Core.List.{Memᴰ}
use pg_outbox.Base.{
  ℕ, suc, ◌≡◌, refl, sym, subst, ◌∙◌, Bool, true, Option, none, List, [], ◌∷◌, arith, length,
  select,
}
use pg_outbox.Backoff.{Duration}
use pg_outbox.Config.{Settings}
use pg_outbox.Message.{Message, Status}
use pg_outbox.Port.{Error}
use pg_outbox.Table.{Row, Table}
use pg_outbox.Table.Rows.{mem-select}
use pg_outbox.Store.Lease.{claim_keys, owned, finish}
use pg_outbox.Relay.{Env, World, M, returns}
use pg_outbox.Relay.Settle.{finish_batch, after_finish, complete}
use pg_outbox.Relay.Stale.{completion}
use pg_outbox.Relay.Drain.Effort.{Spends, Settles-Spends, is_terminal, finish-Spends}
use pg_outbox.Relay.Keeps.Reporting.{finish-ran, after_finish-returns}

-- A selection that is not empty has a row that passes the test.
selected-nonempty :
    (p : Row → Bool) (rs : List Row) (k : ℕ)
    → length (select p rs) ≡ suc k
    → (x : Row) × Memᴰ x rs × (p x ≡ true)
selected-nonempty p rs k h = first (select p rs) refl
  where
    first : (found : List Row) → found ≡ select p rs → (x : Row) × Memᴰ x rs × (p x ≡ true)
    first [] e = absurd (omega (arith, rw (← e) at h))
    first (x ∷ found) e =
        let m : Memᴰ x (select p rs) = rw (← e) (Memᴰ.head refl) in
        let (n, t) = mem-select p rs m in (x, n, t)

-- `m` spends effort wherever it returns no error.
pub record Uses (set : Settings) (m : M (Option Error)) : Type 0 where
  pub at : (w u : World) → m w ≡ (returns none, u) → Spends set w.table u.table

module _ (env : Env) (set : Settings) where
  pub Uses-complete :
      (m : Message) (ms : List Message) (status : Status) (cause : Option Error) (delay : Duration)
      → OthersSettle env set
      → is_terminal status ≡ true
      → Uses set (complete env set (m ∷ ms) status cause delay)
  unfolding complete
  Uses-complete m ms status cause delay o final = record {
    at = λ w u h.
        let (r, v, ran, rest) =
          >>=-returns (finish_batch env set (m ∷ ms) status cause delay)
            (after_finish env set (m ∷ ms) status cause) w u h in
        let (completed, done, full, told) =
          after_finish-returns env set (m ∷ ms) status cause r v u rest in
        let (answer, left) =
          exec-returns env
            (λ db t. finish env.json db (m ∷ ms) (completion set status cause delay) t) w v ran in
        let (whole, many) =
          finish-ran env.json (env.db w.calls) m ms (completion set status cause delay)
            (env.between w.calls w.table) completed (answer ∙ done) full in
        let (x, n, e) =
          selected-nonempty (owned (env.db w.calls) (claim_keys (m ∷ ms)))
            (env.between w.calls w.table).rows (length ms) many in
        Settles-Spends (o.others w.calls w.table) (
          subst (λ (y : Table). Spends set (env.between w.calls w.table) y)
            (sym (told ∙ left ∙ whole))
            (finish-Spends (env.db w.calls) set (claim_keys (m ∷ ms))
              (completion set status cause delay) (env.between w.calls w.table) final n e));
  }
