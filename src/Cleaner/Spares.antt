-- ===== src/Cleaner/Spares.antt =====
-- What a run of the cleaner leaves in the table.
use mathlib.Core.List.{Memᴰ}
use pg_outbox.Base.{
  ◌≡◌, ◌⊎◌, ℕ, zero, suc, Bool, true, false, Option, none, some, List, [], ◌∷◌, if◌then◌else◌,
}
use pg_outbox.Config.{Settings, HookSet}
use pg_outbox.Message.{is_status, pending, processing}
use pg_outbox.Port.{Error}
use pg_outbox.Table.{Row, Table}
use pg_outbox.Table.Rows.{UniqueIds, mem-select}
use pg_outbox.Store.{Db, Result, ok, err, panic}
use pg_outbox.Store.Upkeep.{cleanup, cleanup_rows}
use pg_outbox.Store.Upkeep.Terminal.{cleanup_keeps_live}
use pg_outbox.Store.Invariant.{select-UniqueIds}
use pg_outbox.Relay.{
  Env, World, M, Exit, returns, raises, return, raise, observe, nil_call, on_cleanup, exec,
  context_live, ◌>>=◌,
}
use pg_outbox.Relay.Batch.{is_fatal}
use pg_outbox.Relay.Keeps.{
  TableOrder, Keeps, OthersKeep, Keeps-return, Keeps-raise, Keeps-if, Keeps-bind, Keeps-exec,
  Keeps-observe, run-keeps,
}
use pg_outbox.Relay.Keeps.Concluding.{Keeps-is_fatal}
use pg_outbox.Cleaner.{
  Turn, done, tick, enabled, log, tell, after_cleanup, clean_once, go_on, sweep, next_turn,
  turns_of, recover_run, run,
}

abbrev IsLive : Row → Type 0
IsLive r = (is_status r.status pending ≡ true) ⊎ (is_status r.status processing ≡ true)

-- Between two tables nothing was added or changed, and no live row was removed.
pub record Spares (t u : Table) : Type 0 where
  pub only : (r : Row) → Memᴰ r u.rows → Memᴰ r t.rows
  pub live_stays : (r : Row) → IsLive r → Memᴰ r t.rows → Memᴰ r u.rows

-- The same, with the ids unique all along.
abbrev sparing : TableOrder
sparing = record {
  Rel = λ t u. UniqueIds t.rows → UniqueIds u.rows × Spares t u;
  reflexive = λ t unique. (unique, record { only = λ r m. m; live_stays = λ r l m. m });
  transitive = λ p q unique.
      let (between, first) = p unique in
      let (after, second) = q between in
      (
        after,
        record {
          only = λ r m. first.only r (second.only r m);
          live_stays = λ r l m. second.live_stays r l (first.live_stays r l m);
        },
      );
}

cleanup-Spares : (db : Db) (set : Settings) (t : Table) → sparing.Rel t (cleanup db set t).0
unfolding cleanup
cleanup-Spares db set t = run-keeps sparing db.reply t (cleanup_rows db set t) _ (λ unique. (
  select-UniqueIds _ t.rows unique,
  record {
    only = λ r m. (mem-select _ t.rows m).0;
    live_stays = λ r l m. cleanup_keeps_live db set t unique m l;
  },
))

module _ (env : Env) (set : Settings) (q : OthersKeep env sparing) where
  Keeps-tell : (n : ℕ) → Keeps sparing (tell env set n)
  Keeps-tell zero = Keeps-return tt
  Keeps-tell (suc n) = with_hooks set.hooks
    where
      with_hooks :
          (h : Option HookSet)
          → Keeps sparing (elim h as (λ _. M (Unit {0})) [
            | none ↦ raise nil_call
            | some h ↦ observe env (on_cleanup (suc n))
          ])
      with_hooks none = Keeps-raise nil_call
      with_hooks (some h) = Keeps-observe env sparing (on_cleanup (suc n))

  Keeps-after_cleanup : (r : Result ℕ) → Keeps sparing (after_cleanup env set r)
  Keeps-after_cleanup (err e) =
      Keeps-bind (is_fatal env set e) _ (Keeps-is_fatal env set sparing e) (λ stop.
        Keeps-if stop (Keeps-return (some (some e))) (
          Keeps-bind (log env set e) (λ u. return (some none))
            (record { at = λ w. sparing.reflexive w.table }) (λ u. Keeps-return (some none))))
  Keeps-after_cleanup (panic v) = Keeps-raise v
  Keeps-after_cleanup (ok n) = Keeps-bind (tell env set n) _ (Keeps-tell n) (λ u. Keeps-return _)

  Keeps-sweep : (fuel : ℕ) → Keeps sparing (sweep env set fuel)
  unfolding sweep clean_once
  Keeps-sweep zero = Keeps-return none
  Keeps-sweep (suc fuel) =
      Keeps-bind (context_live env) looked (record { at = λ w. sparing.reflexive w.table })
        (by_look (Keeps-sweep fuel))
    where
      looked : Bool → M (Option (Option Error))
      looked live = elim live as (λ _. M (Option (Option Error))) [
        | false ↦ return (some none)
        | true ↦ clean_once env set >>= go_on env set (sweep env set fuel)
      ]

      goes_on :
          Keeps sparing (sweep env set fuel)
          → (end : Option (Option Error)) → Keeps sparing (go_on env set (sweep env set fuel) end)
      goes_on k none = k
      goes_on k (some e) = Keeps-return (some e)

      by_look : Keeps sparing (sweep env set fuel) → (live : Bool) → Keeps sparing (looked live)
      by_look k false = Keeps-return (some none)
      by_look k true =
          Keeps-bind (clean_once env set) (go_on env set (sweep env set fuel))
            (Keeps-bind (exec env (λ db t. cleanup db set t)) (after_cleanup env set)
              (Keeps-exec env sparing (λ db t. cleanup db set t) q
                (λ db t. cleanup-Spares db set t))
              Keeps-after_cleanup)
            (goes_on k)

  Keeps-turns_of : (fuel : ℕ) (turns : List Turn) → Keeps sparing (turns_of env set fuel turns)
  unfolding turns_of
  Keeps-turns_of fuel [] = Keeps-return (some none)
  Keeps-turns_of fuel (done ∷ turns) = Keeps-return (some none)
  Keeps-turns_of fuel (tick ∷ turns) =
      Keeps-bind (sweep env set fuel) (next_turn env set (turns_of env set fuel turns))
        (Keeps-sweep fuel) (by_end (Keeps-turns_of fuel turns))
    where
      by_end :
          Keeps sparing (turns_of env set fuel turns)
          → (end : Option (Option Error))
          → Keeps sparing (next_turn env set (turns_of env set fuel turns) end)
      by_end k (some none) = k
      by_end k (some (some e)) = Keeps-return (some (some e))
      by_end k none = Keeps-return none

  run-sparing :
      (fuel : ℕ) (turns : List Turn) (w : World)
      → sparing.Rel w.table (run env set fuel turns w).1.table
  unfolding run
  run-sparing fuel turns w = by_enabled (enabled set)
    where
      caught :
          (x : Exit (Option (Option Error)) × World)
          → sparing.Rel w.table x.1.table
          → sparing.Rel w.table (recover_run env set x).1.table
      caught (returns e, v) k = k
      caught (raises p, v) k = k

      by_enabled :
          (b : Bool)
          → sparing.Rel w.table
              (recover_run env set
                (if b then turns_of env set fuel turns w else (returns (some none), w))).1.table
      by_enabled true = caught (turns_of env set fuel turns w) ((Keeps-turns_of fuel turns).at w)
      by_enabled false = caught (returns (some none), w) (sparing.reflexive w.table)

-- However a run of the cleaner goes, over any number of ticks, with statements that fail and hooks that
-- panic, it adds and changes no row and removes no row that is pending or processing; ids are taken to be
-- unique, and other transactions to do no more than that either.
pub run-Spares :
    (env : Env) (set : Settings) (fuel : ℕ) (turns : List Turn) (w : World)
    → ((n : ℕ) (t : Table)
        → UniqueIds t.rows
        → UniqueIds (env.between n t).rows × Spares t (env.between n t))
    → UniqueIds w.table.rows
    → Spares w.table (run env set fuel turns w).1.table
run-Spares env set fuel turns w others unique =
    (run-sparing env set (record { others = others }) fuel turns w unique).1
