-- ===== src/Relay.antt =====
-- engine/relay.go: the state that a worker acts on, and what surrounds it. Every call that leaves
-- the program (a statement, a hook, Publish, a look at the context) takes the next number, and the
-- environment `Env` says what happens at each number.
pub mod Settle
pub mod Batch
pub mod Retries
pub mod Stale
pub mod Delivery
pub mod Returns
pub mod Keeps
pub mod Verdict
pub mod Drain
pub mod Progress
pub mod Run
pub mod Examples
use pg_outbox.Base.{
  ℕ, zero, suc, ◌+◌, ◌-◌, ◌*◌, ◌/◌, ◌%◌, ◌^◌, ◌≤◌, ◌<◌, ◌≡◌, refl, sym, ap, subst, ◌∙◌, ◌≢◌, ◌↔◌,
  ◌⊎◌, inl, inr, ite, Bool, true, false, not, ◌&&◌, ◌||◌, Option, none, some, List, [], ◌∷◌, ◌++◌,
  ◌==◌, map, arith, dec_lt, ℕ_discrete, ltb, leb, if◌then◌else◌, tests, Bool-cases, Option-cases,
  length, take, select, All, length-append,
}
use pg_outbox.Base.Int.{
  ℤ, pos, negsuc, pos_part, neg_part, ◌≤ℤ◌, ◌<ℤ◌, ltb_ℤ, leb_ℤ, to_bits, of_bits, shl64, IsInt64,
}
use Prim.Native.String.{String}
use pg_outbox.Backoff.{Duration}
use pg_outbox.Message.{Message}
use pg_outbox.Port.{Error, PanicValue, plain, error}
use pg_outbox.Table.{Row, Table}
use pg_outbox.Store.{Db, Json, Reply, Result, ok, err, panic}

-- What the hooks and the logger are told.
pub data Event : Type 0 where
  on_published : List Message → Event
  on_discarded : List Message → Option Error → Event
  on_dead : Message → Event
  on_failed : Message → Option Error → Event
  on_cleanup : ℕ → Event
  log_error : String → Error → Event

pub record World : Type 0 where
  pub table : Table
  pub calls : ℕ
  pub events : List Event

-- One turn of the heartbeat's select.
pub data Beat : Type 0 where
  stops cancels ticks : Beat

pub record Env : Type 0 where
  pub json : Json
  pub db : ℕ → Db
  pub between : ℕ → Table → Table  -- what other transactions commit before that call
  pub live : ℕ → Bool  -- ctx.Err() == nil
  pub publisher_live : ℕ → Bool  -- the same of the context given to Publish
  pub publishes : ℕ → List Message → Result (Option Error)  -- Publish; never `err`
  pub beats : ℕ → List Beat  -- the turns of the heartbeat while Publish runs
  pub hook_panics : ℕ → Option PanicValue
  pub draws : ℕ → ℕ → ℕ  -- the generator's draws during that call

-- A call returns, or unwinds with a panic.
pub data Exit {ℓ} (A : Type ℓ) : Type ℓ where
  returns : A → Exit A
  raises : PanicValue → Exit A

abbrev pub M : Type 0 → Type 0
M A = World → Exit A × World

abbrev pub continue : {A B : Type 0} → Exit A × World → (A → M B) → Exit B × World
continue (returns a, w) f = f a w
continue (raises v, w) f = (raises v, w)

infixl 5 ◌>>=◌ ◌>>◌
abbrev pub ◌>>=◌ : {A B : Type 0} → M A → (A → M B) → M B
◌>>=◌ m f w = continue (m w) f

abbrev pub ◌>>◌ : {A B : Type 0} → M A → M B → M B
m >> k = m >>= λ _. k

abbrev pub return : {A : Type 0} → A → M A
return a w = (returns a, w)

abbrev pub raise : {A : Type 0} → PanicValue → M A
raise v w = (raises v, w)

-- A call of a nil function or interface.
abbrev pub nil_call : PanicValue
nil_call = error (plain "runtime error: invalid memory address or nil pointer dereference")

abbrev pub exit_of : {A : Type 0} → Result A → Exit (Result A)
exit_of (ok a) = returns (ok a)
exit_of (err e) = returns (err e)
exit_of (panic v) = raises v

-- The number of the next call.
abbrev pub next_call : M ℕ
next_call w = (returns w.calls, record w { calls = w.calls + 1 })

module _ (env : Env) where
  -- A statement, on the table as other transactions have left it.
  abbrev pub exec : {A : Type 0} → (Db → Table → Table × Result A) → M (Result A)
  exec f w =
      let (t, r) = f (env.db w.calls) (env.between w.calls w.table) in
      (exit_of r, record w { table = t; calls = w.calls + 1 })

  -- A call of a hook.
  abbrev pub observe : Event → M (Unit {0})
  observe e w =
      let w' : World = record w { calls = w.calls + 1; events = w.events ++ e ∷ [] } in
      elim (env.hook_panics w.calls) [ none ↦ (returns tt, w') | some v ↦ (raises v, w') ]

  -- `ctx.Err() == nil`
  abbrev pub context_live : M Bool
  context_live w = (returns (env.live w.calls), record w { calls = w.calls + 1 })
