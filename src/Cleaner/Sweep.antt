-- ===== src/Cleaner/Sweep.antt =====
-- The loop of engine/cleaner.go ends.
use mathlib.Core.Path.{ap₂}
use pg_outbox.Base.{
  ℕ, zero, suc, ◌+◌, ◌≤◌, ◌<◌, ◌≡◌, refl, ap, ◌≢◌, inl, inr, Bool, false, not, Option, none, some,
  List, [], ◌∷◌, arith, length, select, Bool-cases,
}
use pg_outbox.Base.Int.{pos, ◌≤ℤ◌, ltb_ℤ}
use pg_outbox.Config.{Settings}
use pg_outbox.Port.{Error}
use pg_outbox.Table.{Table, contains, ids}
use pg_outbox.Store.{Db, Reply, answers, fails, loses, panics, Result, ok, err, panic, run}
use pg_outbox.Store.Upkeep.{victims, cleanup_rows, cleanup}
use pg_outbox.Relay.{Env, World, Exit, returns, raises, exit_of, continue}
use pg_outbox.Relay.Batch.{is_fatal}
use pg_outbox.Cleaner.{after_cleanup, clean_once, go_on, sweep}

-- What a test takes and what it leaves are together the whole list.
length-select-not {ℓ} :
    {A : Type ℓ} (p : A → Bool) (xs : List A)
    → length (select (λ x. not (p x)) xs) + length (select p xs) ≡ length xs
length-select-not p [] = refl
length-select-not p (x ∷ xs) = ground (arith, length-select-not p xs)

-- A statement that answers leaves its table.
run-ok :
    {A : Type 0} (reply : Reply) (t t' u : Table) (a b : A)
    → run reply t (t', ok a) ≡ (u, ok b)
    → (t' ≡ u) × (a ≡ b)
run-ok answers t t' u a b h = ground arith
run-ok (fails e) t t' u a b h = ground arith
run-ok (loses e) t t' u a b h = ground arith
run-ok (panics v) t t' u a b h = ground arith

-- The statement's count is the number of rows that the table lost.
cleanup-count :
    (db : Db) (set : Settings) (t u : Table) (n : ℕ)
    → cleanup db set t ≡ (u, ok n)
    → length u.rows + n ≡ length t.rows
unfolding cleanup
cleanup-count db set t u n h =
    let parts = length-select-not (λ r. contains (ids (victims db set t.rows)) r.id) t.rows in
    let (left, count) =
      run-ok db.reply t (cleanup_rows db set t) u
        (length (select (λ r. contains (ids (victims db set t.rows)) r.id) t.rows)) n h in
    omega (arith, parts, count, ap (λ (x : Table). length x.rows) left)

-- One more statement follows only a count that fills a batch.
go_on-count :
    (env : Env) (set : Settings) (r : Result ℕ) (v u : World)
    → continue (exit_of r, v) (after_cleanup env set) ≡ (returns none, u)
    → (n : ℕ) × (r ≡ ok n) × (v.table ≡ u.table) × (ltb_ℤ (pos n) set.batch_size ≡ false)
unfolding is_fatal
go_on-count env set (ok zero) v u h = (zero, refl, ground arith, ground arith)
go_on-count env set (ok (suc n)) v u h = (suc n, refl, ground arith, ground arith)
go_on-count env set (err e) v u h = ground arith
go_on-count env set (panic x) v u h = ground arith

clean_once_shrinks :
    (env : Env) (set : Settings) (w u : World)
    → pos 1 ≤ℤ set.batch_size
    → ((n : ℕ) (t : Table) → length (env.between n t).rows ≤ length t.rows)
    → clean_once env set w ≡ (returns none, u)
    → length u.table.rows < length w.table.rows
unfolding clean_once
clean_once_shrinks env set w u big quiet h =
    let t = env.between w.calls w.table in
    let (n, answer, same, full) =
      go_on-count env set (cleanup (env.db w.calls) set t).1
        (record w { table = (cleanup (env.db w.calls) set t).0; calls = w.calls + 1 }) u h in
    let lost =
      cleanup-count (env.db w.calls) set t u.table n
        (ap₂ (λ (x : Table) (y : Result ℕ). (x, y)) same answer) in
    ground (arith, lost, quiet w.calls w.table)

go_on-end :
    (env : Env) (set : Settings) (fuel : ℕ) (x : Exit (Option (Option Error)) × World)
    → ((u : World) → x ≡ (returns none, u) → (sweep env set fuel u).0 ≢ returns none)
    → (continue x (go_on env set (sweep env set fuel))).0 ≢ returns none
go_on-end env set fuel (returns none, u) again = again u refl
go_on-end env set fuel (returns (some e), u) again = λ h. ground arith
go_on-end env set fuel (raises v, u) again = λ h. ground arith

-- The loop of cleanup statements ends: where the batch size is at least 1, as Resolve makes it, and
-- no other transaction adds rows meanwhile, one statement more than there are rows is fuel enough,
-- whatever the executor answers and whatever hooks and classifier do.
pub sweep_ends :
    (env : Env) (set : Settings) (fuel : ℕ) (w : World)
    → pos 1 ≤ℤ set.batch_size
    → ((n : ℕ) (t : Table) → length (env.between n t).rows ≤ length t.rows)
    → length w.table.rows < fuel
    → (sweep env set fuel w).0 ≢ returns none
unfolding sweep
sweep_ends env set zero w big quiet enough = absurd (omega arith)
sweep_ends env set (suc fuel) w big quiet enough =
    let w' : World = record w { calls = w.calls + 1 } in
    elim (Bool-cases (env.live w.calls)) [
      | inr over ↦ rw over (λ h. ground arith)
      | inl live ↦ rw live (
          go_on-end env set fuel (clean_once env set w') (λ u h.
            sweep_ends env set fuel u big quiet
              (omega (arith, clean_once_shrinks env set w' u big quiet h, enough))))
    ]
