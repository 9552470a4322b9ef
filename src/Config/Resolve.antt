-- ===== src/Config/Resolve.antt =====
-- config/config.go: `Resolve`, `WithConfig` and the other options.
use pg_outbox.Base.{Bool, not, ◌||◌, Option, none, some, List, [], ◌∷◌, if◌then◌else◌}
use pg_outbox.Base.Int.{ℤ, pos, ltb_ℤ, leb_ℤ}
use Prim.Native.String.{String, ◌++◌ as ◌<>◌}
use pg_outbox.Base.Text.{◌==◌ as ◌=s=◌}
use pg_outbox.Port.{Error}
use pg_outbox.Backoff.{Duration}
use pg_outbox.Config.{Settings, HookSet, BackoffFunc, default}

-- What the process gives `generateInstanceID`: the host's name, if there is one, and the eight random
-- bytes in hexadecimal.
pub record Host : Type 0 where
  pub hostname : Option String
  pub suffix : String

-- `generateInstanceID`
unfoldable pub generate_instance_id : Host → String
generate_instance_id h = elim h.hostname [
  | none ↦ "outbox-" <> h.suffix
  | some host ↦ if host =s= "" then "outbox-" <> h.suffix else host <> "-" <> h.suffix
]

abbrev pub Change : Type 0
Change = Settings → Settings

abbrev pub apply : List Change → Settings → Settings
apply [] s = s
apply (o ∷ os) s = apply os (o s)

abbrev pub or_default {ℓ} : {A : Type ℓ} → Option A → Option A → Option A
or_default none d = d
or_default (some a) d = some a

-- The fallbacks of `Resolve`, in its order; `d` is a fresh `Default()`.
unfoldable pub normalize : Host → Settings → Settings → Settings
normalize host d s = record s {
  schema = if s.schema =s= "" then d.schema else s.schema;
  poll_interval = if leb_ℤ s.poll_interval (pos 0) then d.poll_interval else s.poll_interval;
  lease_duration = if leb_ℤ s.lease_duration (pos 0) then d.lease_duration else s.lease_duration;
  batch_size = if ltb_ℤ s.batch_size (pos 1) then d.batch_size else s.batch_size;
  concurrency = if ltb_ℤ s.concurrency (pos 1) then d.concurrency else s.concurrency;
  max_attempts = if ltb_ℤ s.max_attempts (pos 1) then d.max_attempts else s.max_attempts;
  backoff = or_default s.backoff d.backoff;
  fatal = or_default s.fatal d.fatal;
  hooks = or_default s.hooks d.hooks;
  logger = s.logger || d.logger;
  instance_id = if s.instance_id =s= "" then generate_instance_id host else s.instance_id;
}

-- `Resolve`
unfoldable pub resolve : Host → List Change → Settings
resolve host opts = normalize host default (apply opts default)

-- The `Config` struct.
pub record Config : Type 0 where
  pub schema : String
  pub poll_interval : Duration
  pub batch_size : ℤ
  pub lease_duration : Duration
  pub concurrency : ℤ
  pub max_attempts : ℤ
  pub retention : Duration
  pub dead_retention : Duration
  pub discard_retention : Duration
  pub clear_payload_on_complete : Bool
  pub publish_timeout : Duration
  pub cleanup_interval : Duration
  pub ordered : Bool
  pub disable_notify : Bool

-- `WithConfig`
unfoldable pub with_config : Config → Change
with_config c s = record s {
  schema = c.schema;
  poll_interval = c.poll_interval;
  batch_size = c.batch_size;
  lease_duration = c.lease_duration;
  concurrency = c.concurrency;
  max_attempts = c.max_attempts;
  retention = c.retention;
  dead_retention = c.dead_retention;
  discard_retention = c.discard_retention;
  clear_payload_on_complete = c.clear_payload_on_complete;
  publish_timeout = c.publish_timeout;
  cleanup_interval = c.cleanup_interval;
  ordered = c.ordered;
  notify = not c.disable_notify;
}

abbrev pub with_instance_id : String → Change
with_instance_id id s = record s { instance_id = id }

abbrev pub with_batch_size : ℤ → Change
with_batch_size n s = record s { batch_size = n }

abbrev pub with_lease_duration : Duration → Change
with_lease_duration d s = record s { lease_duration = d }

-- `WithRetryBackoff`, which ignores nil.
abbrev pub with_retry_backoff : Option BackoffFunc → Change
with_retry_backoff none s = s
with_retry_backoff (some b) s = record s { backoff = some b }

-- `WithFatal`, which ignores nil.
abbrev pub with_fatal : Option (Error → Bool) → Change
with_fatal none s = s
with_fatal (some f) s = record s { fatal = some f }

-- `WithHooks`, which ignores nil.
abbrev pub with_hooks : Option HookSet → Change
with_hooks none s = s
with_hooks (some h) s = record s { hooks = some h }
