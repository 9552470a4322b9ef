-- ===== src/Config.antt =====
-- config/config.go: the resolved settings. A field that Go may leave nil is an `Option`.
pub mod Schema
pub mod Resolve
pub mod Bounds
pub mod Options
pub mod Examples
use pg_outbox.Base.{ℕ, ◌*◌, Bool, true, false, Option, some}
use pg_outbox.Base.Int.{ℤ, pos}
use Prim.Native.String.{String}
use pg_outbox.Port.{Error}
use pg_outbox.Backoff.{Duration}
use pg_outbox.Backoff

-- The Hooks interface: whether the value has `OnDiscarded` too. Its calls are recorded as events.
pub record HookSet : Type 0 where
  pub observes_discards : Bool

-- A `backoff.Backoff`: the delay at an attempt, where the first argument stands for the draws of the
-- generator during the call. `none` is a panic.
abbrev pub BackoffFunc : Type 0
BackoffFunc = (ℕ → ℕ) → ℤ → Option Duration

pub record Settings : Type 0 where
  pub instance_id : String
  pub schema : String
  pub poll_interval : Duration
  pub batch_size : ℤ
  pub lease_duration : Duration
  pub concurrency : ℤ
  pub max_attempts : ℤ
  pub backoff : Option BackoffFunc
  pub retention : Duration
  pub dead_retention : Duration
  pub discard_retention : Duration
  pub clear_payload_on_complete : Bool
  pub publish_timeout : Duration
  pub cleanup_interval : Duration
  pub ordered : Bool
  pub notify : Bool
  pub listen_pool : Bool  -- whether a pool was given
  pub fatal : Option (Error → Bool)
  pub hooks : Option HookSet
  pub codec : Bool  -- whether a codec was given
  pub logger : Bool  -- whether a logger was given

abbrev pub second : ℕ
second = 1_000_000_000

-- `neverFatal`
abbrev pub never_fatal : Error → Bool
never_fatal e = false

-- `port.NoopHooks`
abbrev pub noop_hooks : HookSet
noop_hooks = record { observes_discards = false }

-- `Default`
unfoldable pub default : Settings
default = record {
  instance_id = "";
  schema = "public";
  poll_interval = pos second;
  batch_size = pos 100;
  lease_duration = pos (30 * second);
  concurrency = pos 1;
  max_attempts = pos 10;
  backoff = some Backoff.default;
  retention = pos 0;
  dead_retention = pos 0;
  discard_retention = pos 0;
  clear_payload_on_complete = false;
  publish_timeout = pos 0;
  cleanup_interval = pos 0;
  ordered = false;
  notify = true;
  listen_pool = false;
  fatal = some never_fatal;
  hooks = some noop_hooks;
  codec = false;
  logger = true;
}
