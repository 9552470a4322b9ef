-- ===== src/Relay/Examples.antt =====
-- The laws of the relay in a concrete environment: the database answers, nothing else writes, hooks
-- do not panic and the context is live.
use mathlib.Core.List.{Memᴰ}
use pg_outbox.Store.Invariant.{IsValid}
use pg_outbox.Store.Samples.{
  small-IsValid, small-UniqueIds, small, json, held_row, due_row, dead_row,
}
use pg_outbox.Relay.Progress.{Follows, claim_rows-progress, drain_progresses}
use pg_outbox.Relay.Drain.Empty.{Ending, drain_empties}
use pg_outbox.Relay.Verdict.Pass.{IsDelivered, process_batch_delivers}
use pg_outbox.Relay.Verdict.{outcome_of}
use pg_outbox.Relay.Verdict.Settled.{IsSettledAs, conclude-settles}
use pg_outbox.Port.{plain, Error, abort, nil, lease_lost, fatal, as_target}
use pg_outbox.Relay.Run.{
  Running, run_started, workers, fail, ended, this_one, connected, draining, returning, waiting,
}
use pg_outbox.Relay.Run
use pg_outbox.Base.{◌⊎◌, inl, false, arith, ◌+◌, ◌≡◌, refl, true, none, some, [], ◌∷◌, ◌≢◌}
use pg_outbox.Base.Int.{pos}
use pg_outbox.Base.Text.{String-discrete}
use pg_outbox.Relay.Batch.{publish, heartbeat, drain, process_batch, conclude}
use pg_outbox.Relay.Drain.Effort.{Settles-refl, row_effort}
use pg_outbox.Relay.Drain.Settling.{OthersSettle}
use pg_outbox.Relay.Drain.Passes.{drain_ends}
use pg_outbox.Config.{default}
use pg_outbox.Message.{Message, published}
use pg_outbox.Store.{ok, fails, message_of, scan_messages}
use pg_outbox.Store.Lease.{finish, owned, complete_row}
use pg_outbox.Store.Samples
use pg_outbox.Table.{Row}
use pg_outbox.Store.Claim.{out_of_range, claim, picked, lease, picks, eligible, claim_rows}
use pg_outbox.Relay.{on_published, Env, World, returns}
use pg_outbox.Relay.Stale.{completion, complete_stale}
use pg_outbox.Relay.Delivery.{IsQuiet}
use pg_outbox.Relay.Verdict.Published.{IsSent, process_batch_sends}
use pg_outbox.Relay.Settle.{complete, settle, report_all, report}
use pg_outbox.Relay.Retries.{fatal_pass}

abbrev quiet : Env
quiet = record {
  json = json;
  db = λ n. Samples.at (n + 30);
  between = λ n t. t;
  live = λ n. true;
  publisher_live = λ n. true;
  publishes = λ n msgs. ok none;
  beats = λ n. [];
  hook_panics = λ n. none;
  draws = λ n m. 0;
}

abbrev world : World
world = record { table = small; calls = 0; events = [] }

abbrev held_message : Message
held_message = message_of held_row (some [])

complete_stale_example :
    complete quiet default (held_message ∷ []) published none (pos 0) world
    ≡ (returns (some lease_lost), record world { calls = 1 })
unfolding owned default String-discrete
complete_stale_example =
    complete_stale quiet default held_message [] published none (pos 0) world refl refl

abbrev broken : Env
broken = record quiet { db = λ n. record (Samples.at 30) { reply = fails (plain "db down") } }

quiet-IsQuiet : IsQuiet quiet
quiet-IsQuiet = record { alone = λ n t. refl; up = λ n. refl; brief = λ n. refl; calm = λ n. refl }

-- The message of a row that the sample's database scans.
abbrev scanned : Row → Message
scanned r = message_of r (some [])

abbrev leased : Row → Row
leased = lease (Samples.at 30) default

abbrev sent : Row → Row
sent r = complete_row (Samples.at 33) (completion default published none (pos 0)) (leased r)

all_fit : out_of_range (Samples.at 30) default small ≡ false
unfolding out_of_range picks eligible default String-discrete
all_fit = refl

due_first : picked (Samples.at 30) default small.rows due_row ≡ true
unfolding picks eligible default String-discrete
due_first = refl

process_batch_sends_example :
    IsSent due_row (process_batch quiet default world).1.table
    × ((process_batch quiet default world).0 ≡ returns (2, none))
    × ((process_batch quiet default world).1.events
        ≡ on_published (scanned (sent due_row) ∷ scanned (sent held_row) ∷ []) ∷ [])
unfolding scan_messages picks eligible default String-discrete lease complete_row
process_batch_sends_example =
    process_batch_sends quiet default world (scanned (leased due_row))
      (scanned (leased held_row) ∷ []) (scanned (sent due_row) ∷ scanned (sent held_row) ∷ [])
      {o = due_row} quiet-IsQuiet small-UniqueIds (λ n copy. refl) refl all_fit (omega arith) refl
      refl (Memᴰ.head refl) due_first

-- The publisher cannot reach its transport.
abbrev aborting : Env
aborting = record quiet { publishes = λ n msgs. ok (some (abort nil)) }

aborting-IsQuiet : IsQuiet aborting
aborting-IsQuiet = record {
  alone = λ n t. refl;
  up = λ n. refl;
  brief = λ n. refl;
  calm = λ n. refl;
}

fatal_pass_example : process_batch aborting default world ≡ (
  returns (2, some (fatal (abort nil))),
  record world { table = claim_rows (Samples.at 30) default small; calls = 3 },
)
unfolding scan_messages picks eligible default String-discrete lease as_target
fatal_pass_example =
    fatal_pass aborting default world (scanned (leased due_row)) (scanned (leased held_row) ∷ [])
      (abort nil) aborting-IsQuiet (λ n copy. refl) (inl refl) all_fit refl

quiet-settles : OthersSettle quiet default
quiet-settles = record { others = λ n t. Settles-refl }

drain_ends_example : (drain quiet default 100 world).0 ≢ returns none
unfolding default row_effort
drain_ends_example = drain_ends quiet default 100 world quiet-settles small-UniqueIds (omega arith)

-- One worker, whose first pass fails.
abbrev boom : Error
boom = plain "boom"

-- The listener waits for a notification, one worker is in a pass, and one has failed.
abbrev busy : Running
busy = record {
  parent = true;
  cancelled = true;
  failure = none;
  wake = false;
  goroutines = connected ∷ draining ∷ returning (some boom) ∷ waiting ∷ [];
}

-- The held row's lease still lives at 10, and the publisher has no error for it.
abbrev early : Env
early = record quiet { db = λ n. Samples.at 10 }

abbrev held_sent : Row
held_sent = complete_row (Samples.at 10) (completion default published none (pos 0)) held_row

conclude-settles_example :
    Memᴰ held_sent world.table.rows
    ⊎ ((o : Row) × Memᴰ o world.table.rows
        × ((m : Message) × Memᴰ m (held_message ∷ [])
            × IsSettledAs default (outcome_of none m) m o held_sent))
unfolding default String-discrete conclude settle complete finish scan_messages owned complete_row
    report_all report
conclude-settles_example =
    conclude-settles early default (held_message ∷ []) none none world held_sent (λ n t. refl)
      (Memᴰ.tail (Memᴰ.head refl))

process_batch_delivers_example :
    IsDelivered quiet default due_row (process_batch quiet default world).1.table
unfolding scan_messages picks eligible default String-discrete lease complete_row process_batch
    claim out_of_range publish heartbeat conclude settle complete finish owned report_all report
process_batch_delivers_example =
    process_batch_delivers quiet default world (process_batch quiet default world).1 2 due_row
      (λ n t. refl) small-UniqueIds refl (Memᴰ.head refl) refl

drain_empties_example : Ending quiet default (drain quiet default 3 world).1
unfolding scan_messages picks eligible default String-discrete lease complete_row process_batch
    claim out_of_range publish heartbeat conclude settle complete finish owned report_all report
    drain
drain_empties_example =
    drain_empties quiet default 3 world (drain quiet default 3 world).1 (omega arith) refl

-- Another worker claims all the time; the dead row is not touched.
abbrev shared : Env
shared = record quiet { between = λ n t. claim_rows (Samples.at n) default t }

drain_progresses_example :
    IsValid (drain shared default 7 world).1.table
    × ((r : Row) × Memᴰ r (drain shared default 7 world).1.table.rows × Follows dead_row r)
drain_progresses_example =
    drain_progresses shared default 7 world {o = dead_row}
      (λ n t. claim_rows-progress (Samples.at n) default t) small-IsValid
      (Memᴰ.tail (Memᴰ.tail (Memᴰ.head refl)))
