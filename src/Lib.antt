-- ===== src/Lib.antt =====
-- A verification library for pg-outbox, a transactional outbox on PostgreSQL. Callers enqueue
-- messages in their own transactions; relay workers claim batches of rows under a lease, publish
-- them, and record each outcome; a cleaner deletes old rows. The statements are fenced by lease
-- tokens, so that a late worker cannot touch newer work.
--
-- Files, and the code that each models:
-- - Backoff (backoff/backoff.go): `exp` is Exp, `default` is Default, Backoff/Adapters has
--   FromNextBackOff and FromNexter; theorems in Backoff/Bounds and Backoff/Adapters.
-- - Port (port/outcome.go): the outcome errors as trees; `as_target` is errors.As through the Unwrap
--   methods, `has` whether it finds anything; Port/Text has the Error methods, Port/Search the
--   theorems.
-- - Message (message/message.go): Status, Message, Validate.
-- - Config (config/config.go): Settings and Default; Config/Resolve has Resolve and the options,
--   Config/Bounds the theorems; Config/Options has the options that set one field, Config/Schema
--   ValidSchema and the quoting of the table's name, which Config/Schema/Quoting reads back.
-- - Table (migrations/*.sql): a row of outbox_messages, the table, and the SQL constructs of the
--   queries (UPDATE, RETURNING, NOT EXISTS, ORDER BY, IN) as functions on lists; laws in Table/Rows.
-- - Store (engine/store.go): the calls on the executor and scanMessages. Store/Enqueue has Enqueue,
--   Store/Claim claim, Store/Lease claimKeys, renew and finish, Store/Upkeep Requeue and cleanup.
--   Each statement comes twice: its effect on the table (`claim_rows`, `finish_rows`, ...) and the Go
--   method around it, with the replies of the executor (`claim`, `finish`, ...).
--   Store/Lease/Fencing and Store/Lease/Exclusive say what a lease protects, Store/Lease/Renewal
--   when `renew` succeeds, by the count of rows in Store/Lease/Count. Store/Invariant is the
--   invariant of the table, Store/Invariant/Steps the histories of statements, and Store/Lifecycle
--   the state machine of one message, which the statements refine.
-- - Relay (engine/relay.go): Relay/Settle has complete, settle and settleEach; Relay/Batch has
--   recovered, heartbeat, publish, isFatal, processBatch and drain; theorems in Relay/Retries,
--   Relay/Stale and Relay/Delivery. Relay/Keeps has one rule for each construct of an action, for
--   any relation between the table before and after it. Relay/Verdict states what becomes of each
--   message of a batch, by the outcome that the publisher has answered for it:
--   Relay/Verdict/Settled for every run, Relay/Verdict/Complete and Relay/Verdict/Pass for a run
--   that reports no error. Relay/Drain is about the end of `drain`: Relay/Drain/Effort measures
--   the table by the attempts left in it; Relay/Drain/Empty has the reasons for which it ends.
--   Relay/Verdict/Published is a pass in which nothing goes wrong; Relay/Progress follows each row
--   through a whole run of `drain`.
-- - Cleaner (engine/cleaner.go): `sweep` is the inner loop, `run` is Run; Cleaner/Sweep is
--   about the end of the loop, Cleaner/Spares about what a run leaves.
-- - Relay/Run (engine/relay.go): Run, worker, listen and listenOnce as turns of goroutines that share
--   the context, the first error and the wake buffer; theorems in Relay/Run/First, Relay/Run/Ending.
-- - Outbox (outbox.go): Enqueue, EnqueueBatch, EnqueueValue and Requeue of the facade;
--   Outbox/Roundtrip follows a message from Enqueue to the claim. Outbox/Create has New and NewStore,
--   Outbox/Run is Run, which is built on the turns of Relay/Run; Outbox/Run/First follows the
--   answers that it takes, Outbox/Run/Returns says what it returns.
-- - Publishers (contrib/publishers/*): Publishers/Kafka, Publishers/Nats and Publishers/Valkey have the
--   mappers, the options and Publish; theorems in their child modules, Publishers/Loop is what the
--   loops over a batch share.
-- - Migrations (migrations/migrations.go): Up, with the embedded files as a parameter; the sorting of
--   the names in Migrations/Sorting and Migrations/Order, the theorems in Migrations/Contents.
--   Migrations/Backfill has the UPDATE of migrations/0002_delivery_control.sql.
-- - Base: the library names that all files share, Boolean tests, lists measured by native numbers,
--   signed integers with the wrap-around of an int64, decidable equality of texts. The Examples
--   modules run the theorems on concrete data.
--
-- How the model stands to the code. A statement of PostgreSQL is one step on the table. What the
-- server adds to a call (now(), clock_timestamp(), generated uuids, the rows that other transactions
-- hold locked, the reply or the failure) is a record `Db`, an argument. A timestamp is a number, a
-- uuid is its canonical text, as in the rows that the queries return and in the argument of Requeue;
-- the values of an Enqueue are cast first, by `read_uuid` and `jsonb` of `Db` and to the range of an
-- int column. `attempts` is a natural number, and a claim that would count past the int column fails
-- as a whole. A duration is an int64 of nanoseconds as an integer. The JSON encoder is a parameter,
-- `Json`. The relay is written in a state monad over `World`, the table with what hooks and logger
-- were told; each call that leaves the program takes the next number, and `Env` says what happens at
-- it: what other transactions commit before it, what the publisher returns, whether a hook panics,
-- whether the context is done. A panic is a value of `Exit`. The heartbeat runs beside Publish in
-- the code; the model runs its renewals, any number of them, before the call. Run is a step
-- relation: any goroutine may take the next turn, a pass of a worker is one turn with any answer,
-- and the caller's context may end between two turns. The client of a publisher is a state with its
-- calls; the header type of NATS, the escapes of `%q` outside printable ASCII and the clock are
-- parameters.
--
-- Fuel: `drain` takes the number of passes and `sweep` the number of cleanup statements, and the result
-- `none` says that the fuel ran out. For `sweep`, one more than the number of rows is enough; for
-- `drain`, one more than the attempts that the open rows have left, with one for each of them. Every
-- other loop is structural recursion.
--
-- Not modelled: the text of the SQL statements, the tickers, the log lines of Run and listen, the
-- indexes and triggers of the migrations, and the Unmarshal half of a codec, which only callers use.
pub mod Base
pub mod Backoff
pub mod Port
pub mod Message
pub mod Config
pub mod Table
pub mod Store
pub mod Relay
pub mod Cleaner
pub mod Outbox
pub mod Publishers
pub mod Migrations
