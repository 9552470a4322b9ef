-- ===== src/Config/Examples.antt =====
-- Settings resolved from concrete options.
use pg_outbox.Base.{◌≡◌, refl, none, some, List, [], ◌∷◌}
use pg_outbox.Base.Int.{pos, negsuc}
use pg_outbox.Config.{default}
use pg_outbox.Config.Resolve.{Host, Change, resolve, normalize, with_batch_size, with_fatal}
use pg_outbox.Config.Bounds.{IsRunnable, resolve-IsRunnable}

abbrev host : Host
host = record { hostname = some "pod"; suffix = "00ff" }

abbrev options : List Change
options = with_batch_size (negsuc 4) ∷ with_fatal none ∷ []

resolve-IsRunnable_example : IsRunnable (resolve host options)
resolve-IsRunnable_example = resolve-IsRunnable host options

-- A batch size below one falls back to the default.
batch_size_falls_back : (resolve host options).batch_size ≡ pos 100
unfolding resolve normalize default
batch_size_falls_back = refl
