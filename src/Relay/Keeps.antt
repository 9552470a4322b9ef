-- ===== src/Relay/Keeps.antt =====
-- What every step that an action of engine/relay.go makes on the table keeps to: one rule for each way
-- to build an action.
pub mod Settling
pub mod Reporting
pub mod Publishing
pub mod Each
pub mod Concluding
pub mod Passing
use pg_outbox.Base.{
  subst, ◌≡◌, refl, ℕ, ◌+◌, Bool, true, false, Option, none, some, [], ◌∷◌, ◌++◌, if◌then◌else◌,
}
use pg_outbox.Port.{PanicValue}
use pg_outbox.Table.{Table}
use pg_outbox.Store.{Db, Reply, answers, fails, loses, panics, Result, run}
use pg_outbox.Relay.{
  Env, World, Event, M, Exit, returns, raises, continue, return, raise, exec, observe, next_call,
  ◌>>=◌,
}

-- A relation between a table and a later one that a sequence of steps keeps to.
pub record TableOrder : Type 1 where
  pub Rel : Table → Table → Type 0
  pub reflexive : (t : Table) → Rel t t
  pub transitive : {t u v : Table} → Rel t u → Rel u v → Rel t v

-- Whether it returns or unwinds, `m` keeps to the relation.
pub record Keeps {A : Type 0} (o : TableOrder) (m : M A) : Type 0 where
  pub at : (w : World) → o.Rel w.table (m w).1.table

-- Other transactions keep to it too.
pub record OthersKeep (env : Env) (o : TableOrder) : Type 0 where
  pub others : (n : ℕ) (t : Table) → o.Rel t (env.between n t)

module _ {A : Type 0} {o : TableOrder} where
  pub Keeps-return : (a : A) → Keeps o (return a)
  Keeps-return a = record { at = λ w. o.reflexive w.table }

  pub Keeps-raise : (v : PanicValue) → Keeps o (raise {A = A} v)
  Keeps-raise v = record { at = λ w. o.reflexive w.table }

  pub Keeps-if : (b : Bool) {m n : M A} → Keeps o m → Keeps o n → Keeps o (if b then m else n)
  Keeps-if true km kn = km
  Keeps-if false km kn = kn

  pub Keeps-cases :
      (b : Bool) {m n : M A}
      → (b ≡ true → Keeps o m)
      → (b ≡ false → Keeps o n)
      → Keeps o (if b then m else n)
  Keeps-cases true km kn = km refl
  Keeps-cases false km kn = kn refl

module _ {A B : Type 0} {o : TableOrder} where
  continue-keeps :
      (t : Table) (x : Exit A × World) (f : A → M B)
      → o.Rel t x.1.table
      → ((a : A) → Keeps o (f a))
      → o.Rel t (continue x f).1.table
  continue-keeps t (returns a, w) f s k = o.transitive s ((k a).at w)
  continue-keeps t (raises v, w) f s k = s

  pub Keeps-bind :
      (m : M A) (f : A → M B) → Keeps o m → ((a : A) → Keeps o (f a)) → Keeps o (m >>= f)
  Keeps-bind m f km kf = record { at = λ w. continue-keeps w.table (m w) f (km.at w) kf }

pub Keeps-returns :
    {A : Type 0} {o : TableOrder} {m : M A} (w u : World) (a : A)
    → Keeps o m
    → m w ≡ (returns a, u)
    → o.Rel w.table u.table
Keeps-returns {A} {o} w u a k h = subst (λ (x : Exit A × World). o.Rel w.table x.1.table) h (k.at w)

pub Keeps-next_call : {o : TableOrder} → Keeps o next_call
Keeps-next_call {o} = record { at = λ w. o.reflexive w.table }

pub run-keeps :
    {A : Type 0} (o : TableOrder) (reply : Reply) (t t' : Table) (r : Result A)
    → o.Rel t t'
    → o.Rel t (run reply t (t', r)).0
run-keeps o answers t t' r s = s
run-keeps o (fails e) t t' r s = o.reflexive t
run-keeps o (loses e) t t' r s = s
run-keeps o (panics v) t t' r s = o.reflexive t

module _ (env : Env) (o : TableOrder) where
  pub Keeps-exec :
      {A : Type 0} (f : Db → Table → Table × Result A)
      → OthersKeep env o
      → ((db : Db) (t : Table) → o.Rel t (f db t).0)
      → Keeps o (exec env f)
  Keeps-exec f q h = record {
    at = λ w.
        o.transitive (q.others w.calls w.table) (h (env.db w.calls) (env.between w.calls w.table));
  }

  pub Keeps-observe : (e : Event) → Keeps o (observe env e)
  Keeps-observe e = record { at = λ w. told (env.hook_panics w.calls) w }
    where
      told :
          (p : Option PanicValue) (w : World)
          → o.Rel w.table
              (elim p as (λ _. Exit (Unit {0}) × World) [
                | none ↦ (returns tt, record w { calls = w.calls + 1; events = w.events ++ e ∷ [] })
                | some v ↦ (raises v, record w { calls = w.calls + 1; events = w.events ++ e ∷ [] })
              ]).1.table
      told none w = o.reflexive w.table
      told (some v) w = o.reflexive w.table
