-- ===== src/Config/Options.antt =====
-- config/config.go: the options that set one field whatever they are given.
use pg_outbox.Base.{Bool, true, false}
use pg_outbox.Base.Int.{ℤ}
use Prim.Native.String.{String}
use pg_outbox.Backoff.{Duration}
use pg_outbox.Config.Resolve.{Change}

abbrev pub with_schema : String → Change
with_schema schema s = record s { schema = schema }

abbrev pub with_poll_interval : Duration → Change
with_poll_interval d s = record s { poll_interval = d }

abbrev pub with_concurrency : ℤ → Change
with_concurrency n s = record s { concurrency = n }

abbrev pub with_max_attempts : ℤ → Change
with_max_attempts n s = record s { max_attempts = n }

abbrev pub with_retention : Duration → Change
with_retention ttl s = record s { retention = ttl }

abbrev pub with_cleanup_interval : Duration → Change
with_cleanup_interval d s = record s { cleanup_interval = d }

abbrev pub with_ordered : Bool → Change
with_ordered v s = record s { ordered = v }

abbrev pub with_dead_retention : Duration → Change
with_dead_retention ttl s = record s { dead_retention = ttl }

abbrev pub with_discard_retention : Duration → Change
with_discard_retention ttl s = record s { discard_retention = ttl }

abbrev pub with_clear_payload_on_complete : Bool → Change
with_clear_payload_on_complete enabled s = record s { clear_payload_on_complete = enabled }

abbrev pub with_publish_timeout : Duration → Change
with_publish_timeout d s = record s { publish_timeout = d }

abbrev pub without_notify : Change
without_notify s = record s { notify = false }

-- The three that take a pool, a codec or a logger: the argument says whether one is given.
abbrev pub with_listen_pool : Bool → Change
with_listen_pool given s = record s { listen_pool = given }

abbrev pub with_codec : Bool → Change
with_codec given s = record s { codec = given }

-- `WithLogger`, which ignores nil.
abbrev pub with_logger : Bool → Change
with_logger false s = s
with_logger true s = record s { logger = true }
