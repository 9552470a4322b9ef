-- ===== src/Config/Bounds.antt =====
-- `Resolve` yields settings that the engine can run on, whatever the options did.
use pg_outbox.Base.{◌≡◌, refl, true, false, List, arith}
use pg_outbox.Base.Int.{pos, ◌≤ℤ◌, ◌<ℤ◌}
use text.Mathlib.TextEquality.{eq_iff}
use pg_outbox.Base.Text.{◌==◌ as ◌=s=◌}
use pg_outbox.Message.{is_nil}
use pg_outbox.Config.{Settings, default}
use pg_outbox.Config.Resolve.{Host, Change, apply, normalize, resolve}

-- Settings that the engine can run on: positive intervals and counts, and no nil function.
pub record IsRunnable (s : Settings) : Type 0 where
  pub named : (s.schema =s= "") ≡ false
  pub polls : pos 0 <ℤ s.poll_interval
  pub leases : pos 0 <ℤ s.lease_duration
  pub batches : pos 1 ≤ℤ s.batch_size
  pub works : pos 1 ≤ℤ s.concurrency
  pub attempts : pos 1 ≤ℤ s.max_attempts
  pub backs_off : is_nil s.backoff ≡ false
  pub classifies : is_nil s.fatal ≡ false
  pub observes : is_nil s.hooks ≡ false
  pub logs : s.logger ≡ true

public_named : ("public" =s= "") ≡ false
public_named = ground (arith, eq_iff "public" "")

pub default-IsRunnable : IsRunnable default
unfolding default
default-IsRunnable = record {
  named = public_named;
  polls = omega arith;
  leases = omega arith;
  batches = omega arith;
  works = omega arith;
  attempts = omega arith;
  backs_off = refl;
  classifies = refl;
  observes = refl;
  logs = refl;
}

normalize-IsRunnable :
    (host : Host) (d s : Settings) → IsRunnable d → IsRunnable (normalize host d s)
unfolding normalize
normalize-IsRunnable host d s v = record {
  named = ground arith;
  polls = ground arith;
  leases = ground arith;
  batches = ground arith;
  works = ground arith;
  attempts = ground arith;
  backs_off = ground arith;
  classifies = ground arith;
  observes = ground arith;
  logs = ground arith;
}

-- Whatever the options do, also a zero configuration, the resolved settings can be run on.
pub resolve-IsRunnable : (host : Host) (opts : List Change) → IsRunnable (resolve host opts)
unfolding resolve
resolve-IsRunnable host opts =
    normalize-IsRunnable host default (apply opts default) default-IsRunnable

-- Normalizing settings that can be run on, and that have an instance id, changes nothing.
pub normalize_runnable :
    (host : Host) (d s : Settings)
    → IsRunnable s
    → (s.instance_id =s= "") ≡ false
    → normalize host d s ≡ s
unfolding normalize
normalize_runnable host d s v named = ground arith
