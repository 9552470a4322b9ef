-- ===== src/Outbox/Create.antt =====
-- outbox.go: `New`, with the store, relay and cleaner that it puts together; engine/store.go: `NewStore`.
use pg_outbox.Base.{
  ◌≡◌, refl, ◌⊎◌, inl, inr, Bool, true, false, Option, none, some, List, if◌then◌else◌, Bool-cases,
  not,
}
use Prim.Native.Char.{Char}
use Prim.Native.String.{String, ◌++◌ as ◌<>◌}
use pg_outbox.Port.{Error, plain}
use pg_outbox.Store.{Result, ok, err}
use pg_outbox.Config.{Settings}
use pg_outbox.Config.Resolve.{Host, Change, resolve}
use pg_outbox.Config.Bounds.{IsRunnable, resolve-IsRunnable}
use pg_outbox.Config.Schema.{valid_schema, table_base, table_of}
use pg_outbox.Config.Schema.Quoting.{read_identifier, read_identifier-table_of}

pub err_invalid_schema : Error
err_invalid_schema = plain "outbox: invalid schema identifier"

pub err_no_executor : Error
err_no_executor = plain "outbox: a relay executor is required"

-- An executor as `New` looks at it: nil, a `*pgxpool.Pool`, or another.
pub data Executor : Type 0 where
  no_executor pool_executor other_executor : Executor

-- Where the pool for LISTEN comes from.
pub data ListenPool : Type 0 where
  given_pool detected_pool : ListenPool

-- engine.Store
pub record EngineStore : Type 0 where
  pub exec : Executor
  pub enq : Executor
  pub pool : Option ListenPool
  pub table : String

-- The relay and the cleaner hold the same store and settings; `P` is the publisher's type.
pub record Outbox (P : Type 0) : Type 0 where
  pub store : EngineStore
  pub publisher : P
  pub set : Settings

-- `NewStore`
abbrev pub new_store :
    (Char → String) → Executor → Executor → Option ListenPool → String → EngineStore
new_store other exec enq pool schema = record {
  exec = exec;
  enq = enq;
  pool = pool;
  table = table_of other schema;
}

-- The pool of the option first, else an executor that is one.
abbrev pub listen_pool_of : Bool → Executor → Option ListenPool
listen_pool_of true exec = some given_pool
listen_pool_of false pool_executor = some detected_pool
listen_pool_of false _ = none

abbrev pub is_nil_executor : Executor → Bool
is_nil_executor no_executor = true
is_nil_executor _ = false

-- `New` after `Resolve`.
abbrev pub create_with :
    {P : Type 0} → (Char → String) → Executor → Executor → P → Settings → Result (Outbox P)
create_with other exec enq publisher set =
    if not (valid_schema set.schema)
    then err err_invalid_schema
    else if is_nil_executor exec
    then err err_no_executor
    else ok (record {
      store = new_store other exec enq (listen_pool_of set.listen_pool exec) set.schema;
      publisher = publisher;
      set = set;
    })

-- `New`
unfoldable pub create :
    {P : Type 0}
    → Host
    → (Char → String)
    → Executor
    → Executor
    → P
    → List Change
    → Result (Outbox P)
create host other exec enq publisher opts = create_with other exec enq publisher (resolve host opts)

-- `New` succeeds exactly where the resolved schema is a valid identifier and there is an executor, and
-- else returns the error that says which is missing, the schema first. An outbox that it returns has
-- settings that the engine can run on, and a table name that is the schema as one quoted identifier
-- before the dot and the fixed name.
pub create-cases :
    {P : Type 0} (host : Host) (other : Char → String) (exec enq : Executor) (publisher : P)
    (opts : List Change)
    → ((o : Outbox P) × (create host other exec enq publisher opts ≡ ok o)
        × (is_nil_executor exec ≡ false)
        × (valid_schema (resolve host opts).schema ≡ true)
        × (o.set ≡ resolve host opts)
        × (o.publisher ≡ publisher)
        × (read_identifier o.store.table ≡ some (o.set.schema, "." <> table_base))
        × IsRunnable o.set)
      ⊎ ((valid_schema (resolve host opts).schema ≡ false)
          × (create host other exec enq publisher opts ≡ err err_invalid_schema))
      ⊎ ((valid_schema (resolve host opts).schema ≡ true)
          × (is_nil_executor exec ≡ true)
          × (create host other exec enq publisher opts ≡ err err_no_executor))
unfolding create
create-cases {P} host other exec enq publisher opts =
    elim (Bool-cases (valid_schema (resolve host opts).schema)) [
      | inr k ↦ inr (inl (k, rw k refl))
      | inl k ↦ elim (Bool-cases (is_nil_executor exec)) [
        | inl n ↦ inr (inr (k, n, rw k (rw n refl)))
        | inr n ↦ inl (
          made,
          rw k (rw n refl),
          n,
          k,
          refl,
          refl,
          read_identifier-table_of other (resolve host opts).schema k,
          resolve-IsRunnable host opts,
        )
      ]
    ]
  where
    set : Settings
    set = resolve host opts

    made : Outbox P
    made = record {
      store = new_store other exec enq (listen_pool_of set.listen_pool exec) set.schema;
      publisher = publisher;
      set = set;
    }
