-- ===== src/Relay/Returns.antt =====
-- Actions that return: what their parts have returned.
use pg_outbox.Base.{◌≡◌, refl, sym, ap, Option, none, some, arith}
use pg_outbox.Table.{Table}
use pg_outbox.Port.{Error, Errors, no_errors, more}
use pg_outbox.Store.{Db, Result, ok, err, panic}
use pg_outbox.Relay.{Env, World, M, Exit, returns, raises, continue, return, exec, exit_of, ◌>>=◌}
use pg_outbox.Relay.Settle.{push, join_errors, append_errors}

-- A bind that returns is two actions that return.
pub >>=-returns :
    {A B : Type 0} (m : M A) (f : A → M B) (w u : World) {b : B}
    → (m >>= f) w ≡ (returns b, u)
    → (a : A) × (v : World) × (m w ≡ (returns a, v)) × (f a v ≡ (returns b, u))
>>=-returns {A} {B} m f w u {b} h = split (m w) refl h
  where
    split :
        (x : Exit A × World)
        → m w ≡ x
        → continue x f ≡ (returns b, u)
        → (a : A) × (v : World) × (m w ≡ (returns a, v)) × (f a v ≡ (returns b, u))
    split (returns a, v) e k = (a, v, e, k)
    split (raises p, v) e k = cc

pub return-returns :
    {B : Type 0} (a b : B) (v u : World) → return a v ≡ (returns b, u) → (a ≡ b) × (v ≡ u)
return-returns {B} a b v u h = (ground arith, ap (λ (x : Exit B × World). x.1) h)

-- What a statement that returns has answered, and the table that it left.
pub exec-returns :
    {A : Type 0} (env : Env) (f : Db → Table → Table × Result A) (w v : World) {r : Result A}
    → exec env f w ≡ (returns r, v)
    → ((f (env.db w.calls) (env.between w.calls w.table)).1 ≡ r)
      × (v.table ≡ (f (env.db w.calls) (env.between w.calls w.table)).0)
exec-returns {A} env f w v {r} h = (
  answer (f (env.db w.calls) (env.between w.calls w.table)).1
      (ap (λ (x : Exit (Result A) × World). x.0) h),
  ap (λ (x : Exit (Result A) × World). x.1.table) (sym h),
)
  where
    answer : (x : Result A) → exit_of x ≡ returns r → x ≡ r
    answer (ok a) e = ground arith
    answer (err a) e = ground arith
    answer (panic p) e = cc

pub push-none :
    (e : Option Error) (es : Errors)
    → join_errors (push e es) ≡ none
    → (e ≡ none) × (join_errors es ≡ none)
push-none none es h = (refl, h)
push-none (some e) es h = cc

pub append-none :
    (es fs : Errors)
    → join_errors (append_errors es fs) ≡ none
    → (join_errors es ≡ none) × (join_errors fs ≡ none)
append-none no_errors fs h = (refl, h)
append-none (more e es) fs h = cc
