-- ===== src/Cleaner/Examples.antt =====
-- The loop of engine/cleaner.go on a small table: one dead row whose retention has run out.
use pg_outbox.Base.{◌≡◌, refl, ◌≢◌, none, some, [], ◌∷◌, arith, ◌+◌, true}
use pg_outbox.Base.Int.{pos}
use pg_outbox.Config.{Settings, default}
use pg_outbox.Store.{ok}
use pg_outbox.Store.Samples.{small-UniqueIds, small, json, dead_row, due_row, held_row}
use pg_outbox.Store.Samples
use pg_outbox.Relay.{Env, World, returns}
use pg_outbox.Base.Text.{String-discrete}
use pg_outbox.Store.Upkeep.{victims, expired, cleanup}
use pg_outbox.Cleaner.Spares.{Spares, run-Spares}
use pg_outbox.Cleaner.{tick, done, run, clean_once, sweep, cleanup, on_cleanup}
use pg_outbox.Cleaner.Sweep.{sweep_ends}

abbrev calm : Env
calm = record {
  json = json;
  db = λ n. Samples.at (n + 30);
  between = λ n t. t;
  live = λ n. true;
  publisher_live = λ n. true;
  publishes = λ n msgs. ok none;
  beats = λ n. [];
  hook_panics = λ n. none;
  draws = λ n m. 0;
}

abbrev before_sweep : World
before_sweep = record { table = small; calls = 0; events = [] }

-- Dead rows are kept for five units of time, and a batch is one row.
abbrev one_by_one : Settings
one_by_one = record default { dead_retention = pos 5; batch_size = pos 1 }

sweep_ends_example : (sweep calm one_by_one 4 before_sweep).0 ≢ returns none
sweep_ends_example =
    sweep_ends calm one_by_one 4 before_sweep (omega arith) (λ n t. omega arith) (omega arith)

-- The loop deletes the row, tells the hook, and ends with the statement that finds nothing more.
sweeps_dead_row : sweep calm one_by_one 4 before_sweep ≡ (
  returns (some none),
  record {
    table = record small { rows = due_row ∷ held_row ∷ [] };
    calls = 5;
    events = on_cleanup 1 ∷ [];
  },
)
unfolding sweep clean_once cleanup victims expired default String-discrete
sweeps_dead_row = refl

run-Spares_example :
    Spares small (run calm one_by_one 4 (tick ∷ tick ∷ done ∷ []) before_sweep).1.table
run-Spares_example =
    run-Spares calm one_by_one 4 (tick ∷ tick ∷ done ∷ []) before_sweep
      (λ n t unique. (unique, record { only = λ r m. m; live_stays = λ r l m. m })) small-UniqueIds
