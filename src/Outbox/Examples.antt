-- ===== src/Outbox/Examples.antt =====
-- The facade of outbox.go on concrete messages.
use Prim.Native.Char.{Char}
use Prim.Native.String.{String}
use pg_outbox.Base.{if◌then◌else◌, true, List, ◌≡◌, ◌⊎◌, refl, some, [], ◌∷◌, arith, false, none}
use pg_outbox.Base.Int.{pos}
use pg_outbox.Config.Resolve.{Host, Change, resolve}
use pg_outbox.Config.Options.{with_schema, with_listen_pool, with_concurrency}
use pg_outbox.Config.Schema.{valid_schema, table_of, quoted}
use pg_outbox.Config.Schema.Quoting.{read_identifier}
use pg_outbox.Config.Bounds.{IsRunnable, default-IsRunnable}
use pg_outbox.Port.{Error, or_else, plain}
use pg_outbox.Store.{Db, err, ok, scan_row}
use pg_outbox.Cleaner.{enabled}
use pg_outbox.Relay.Run.{
  Running, workers, ended, waiting, returning, run_started, fail, cancel_parent, all_ended,
  this_one,
}
use pg_outbox.Relay.Run as Relay_run
use pg_outbox.Outbox.Run.{Whole, started, receive, returned}
use pg_outbox.Outbox.Run
use pg_outbox.Outbox.Run.Returns.{returned-some}
use pg_outbox.Outbox.Run.First.{first_error, answers_taken}
use pg_outbox.Outbox.Create.{
  Outbox, pool_executor, other_executor, create, create-cases, err_invalid_schema, err_no_executor,
}
use mathlib.Core.List.{Memᴰ}
use text.Mathlib.TextEquality.{eq_iff}
use pg_outbox.Config.{default}
use pg_outbox.Message.{Message, validate}
use pg_outbox.Table.{Row, contains, ids}
use pg_outbox.Base.Text.{String-discrete, ◌==◌ as ◌=s=◌}
use pg_outbox.Store.Claim.{lease}
use pg_outbox.Store.Samples.{small, json}
use pg_outbox.Store.Samples
use pg_outbox.Outbox.{enqueue, value_message}
use pg_outbox.Outbox.Roundtrip.{under, Carries, enqueue-scan_row}

abbrev order : Message
order = record (value_message "orders" "k" "created" (some (1 ∷ 2 ∷ [])) "text/plain") {
  id = "6BA7B810-9DAD-11D1-80B4-00C04FD430C8";
}

abbrev order_id : String
order_id = "6ba7b810-9dad-11d1-80b4-00c04fd430c8"

-- A database that reads the uuid in capitals, and gives it back in small letters.
abbrev database : Db
database = record (Samples.at 5) {
  read_uuid = λ id. if id =s= order.id then some order_id else none;
}

order_valid : validate order ≡ none
unfolding validate String-discrete
order_valid = refl

order_read : database.read_uuid order.id ≡ some order_id
unfolding String-discrete
order_read = refl

order_new : contains (ids small.rows) order_id ≡ false
unfolding String-discrete
order_new = refl

enqueue-scan_row_example :
    (r : Row) × Memᴰ r (enqueue json database order small).0.rows
    × (d : Message) × (scan_row json (lease (Samples.at 6) default r) ≡ ok d)
    × Carries (under order_id order) d
    × (d.attempts ≡ 1)
    × (d.lease_token ≡ "fresh")
enqueue-scan_row_example =
    enqueue-scan_row json database (Samples.at 6) default order small "{}" "{}" order_id refl refl
      refl (ground (arith, eq_iff "{}" "")) order_valid (ground (arith, eq_iff order.id ""))
      order_read (ground (arith, eq_iff order_id "")) order_new refl refl

abbrev hex : Char → String
hex c = "\\x"

abbrev app_options : List Change
app_options = with_schema "app_1" ∷ with_listen_pool false ∷ with_concurrency (pos 2) ∷ []

abbrev pod : Host
pod = record { hostname = some "pod"; suffix = "00ff" }

create-cases_example :
    ((o : Outbox String) × (create {P = String} pod hex pool_executor other_executor "bus"
          app_options
        ≡ ok o)
      × (false ≡ false)
      × (valid_schema (resolve pod app_options).schema ≡ true)
      × (o.set ≡ resolve pod app_options)
      × (o.publisher ≡ "bus")
      × (read_identifier o.store.table ≡ some (o.set.schema, ".outbox_messages"))
      × IsRunnable o.set)
    ⊎ ((valid_schema (resolve pod app_options).schema ≡ false)
        × (create {P = String} pod hex pool_executor other_executor "bus" app_options
            ≡ err err_invalid_schema))
    ⊎ ((valid_schema (resolve pod app_options).schema ≡ true)
        × (false ≡ true)
        × (create {P = String} pod hex pool_executor other_executor "bus" app_options
            ≡ err err_no_executor))
create-cases_example = create-cases pod hex pool_executor other_executor "bus" app_options

-- The name of the table, and the pool that is found in the executor.
app_table : table_of hex "app_1" ≡ "\"app_1\".outbox_messages"
unfolding table_of quoted
app_table = refl

-- A relay of one worker, whose first pass fails, beside a cleaner with nothing to do.
abbrev boom : Error
boom = plain "boom"

abbrev last : Whole
last = record {
  outer = none;
  relay = record {
    parent = true;
    cancelled = true;
    failure = some boom;
    wake = false;
    goroutines = ended ∷ [];
  };
  relay_sent = true;
  cleaner_sent = true;
  channel = [];
  received = 2;
  failure = some boom;
}

last_reached : Run.Reaches default (started default false none) last
unfolding default started run_started workers receive fail all_ended enabled cancel_parent
last_reached =
    Run.Reaches.steps
      (Run.Reaches.steps
        (Run.Reaches.steps
          (Run.Reaches.steps
            (Run.Reaches.steps
              (Run.Reaches.steps
                (Run.Reaches.steps Run.Reaches.starts
                  (Run.Step.relay_goes _ (Relay_run.Step.turns _ Relay_run.Turn.ticked this_one)))
                (Run.Step.relay_goes _
                  (Relay_run.Step.turns _ (Relay_run.Turn.pass_failed boom) this_one)))
              (Run.Step.relay_goes _ (Relay_run.Step.fails _ this_one)))
            (Run.Step.relay_ends _ refl refl))
          (Run.Step.cleaner_ends _ none refl refl))
        (Run.Step.receives _ refl))
      (Run.Step.receives _ refl)

returned-some_example :
    (e : Error) × (returned last ≡ some e)
    × (or_else (first_error (answers_taken last_reached)) none ≡ some e)
returned-some_example = returned-some default false none last default-IsRunnable last_reached refl
