-- ===== src/Relay/Delivery.antt =====
-- A pass of engine/relay.go in which nothing goes wrong.
use pg_outbox.Base.{
  false, refl, ◌∙◌, Option, ◌<◌, map, ℕ, suc, ◌+◌, ◌≡◌, ap, none, some, List, [], ◌∷◌, ◌++◌, arith,
  length, length-map,
}
use pg_outbox.Port.{Error}
use pg_outbox.Relay.Settle.{settle, report, report_all, complete}
use pg_outbox.Base.Int.{pos}
use pg_outbox.Config.{Settings, HookSet}
use pg_outbox.Message.{Message, published}
use pg_outbox.Table.{Row, Table}
use pg_outbox.Store.{answered, Db, Json, answers, Result, ok, scan_row, scan_messages}
use pg_outbox.Store.Lease.{Completion, claim_keys, finish_rows, finished, finish, complete_row}
use pg_outbox.Store.Lease.Outcome.{append_scanned-ok, finished-claimed}
use pg_outbox.Relay.{Env, World, returns, on_published, exec}
use pg_outbox.Relay.Stale.{completion}
use pg_outbox.Relay.Batch.{heartbeat, publish, conclude, process_batch}
use pg_outbox.Store.Claim.{out_of_range, claim, claimed, claim_rows}

-- A scan loses no row.
pub length-scan_messages :
    (json : Json) (rs : List Row) {ms : List Message}
    → scan_messages json rs ≡ ok ms
    → length ms ≡ length rs
unfolding scan_messages
length-scan_messages json [] h = ground arith
length-scan_messages json (r ∷ rs) h =
    let (m, l, p, q, e) = append_scanned-ok (scan_row json r) (scan_messages json rs) h in
    rw e (ap suc (length-scan_messages json rs q))

-- The environment is quiet: nobody else writes, the database answers, no renewal falls due, and no
-- hook panics.
pub record IsQuiet (env : Env) : Type 0 where
  pub alone : (n : ℕ) (t : Table) → env.between n t ≡ t
  pub up : (n : ℕ) → (env.db n).reply ≡ answers
  pub brief : (n : ℕ) → env.beats n ≡ []
  pub calm : (n : ℕ) → env.hook_panics n ≡ none

finish_answers :
    (json : Json) (db : Db) (m : Message) (ms : List Message) (c : Completion) (t : Table)
    {told : List Message}
    → db.reply ≡ answers
    → scan_messages json (finished db (claim_keys (m ∷ ms)) c t) ≡ ok told
    → finish json db (m ∷ ms) c t ≡ (finish_rows db (claim_keys (m ∷ ms)) c t, ok told)
unfolding finish
finish_answers json db m ms c t up scanned =
    answered db.reply t up
      (ap (λ (r : Result (List Message)). (finish_rows db (claim_keys (m ∷ ms)) c t, r)) scanned)

report_all-published :
    (env : Env) (set : Settings) (w : World) {h : HookSet} (x : Message) (told : List Message)
    → IsQuiet env
    → set.hooks ≡ some h
    → report_all env set published none (x ∷ told) w ≡ (
      returns tt,
      record w { calls = w.calls + 1; events = w.events ++ on_published (x ∷ told) ∷ [] },
    )
unfolding report_all report
report_all-published env set w x told q hooked = ground (arith, q.calm w.calls, hooked)

complete_reports :
    (env : Env) (set : Settings) (w : World) {h : HookSet} (m : Message) (ms told : List Message)
    → IsQuiet env
    → set.hooks ≡ some h
    → scan_messages env.json (
        finished
          (env.db w.calls)
          (claim_keys (m ∷ ms))
          (completion set published none (pos 0))
          w.table)
      ≡ ok told
    → length told ≡ length (m ∷ ms)
    → complete env set (m ∷ ms) published none (pos 0) w ≡ (
      returns none,
      record {
        table =
            finish_rows
              (env.db w.calls)
              (claim_keys (m ∷ ms))
              (completion set published none (pos 0))
              w.table;
        calls = w.calls + 1 + 1;
        events = w.events ++ on_published told ∷ [];
      },
    )
unfolding complete report_all
complete_reports env set w m ms [] q hooked scanned all = ground arith
complete_reports env set w m ms (x ∷ told) q hooked scanned all =
    rw
      (
        q.alone w.calls w.table,
        finish_answers env.json (env.db w.calls) m ms (completion set published none (pos 0))
            w.table (q.up w.calls) scanned,
        report_all-published env set
            (record {
              table =
                  finish_rows (env.db w.calls) (claim_keys (m ∷ ms))
                    (completion set published none (pos 0)) w.table;
              calls = w.calls + 1;
              events = w.events;
            })
            x told q hooked,
        complete,
      )
      (ground (arith, all))

publish_quiet :
    (env : Env) (set : Settings) (w : World) (msgs : List Message)
    → IsQuiet env
    → ((n : ℕ) (copy : List Message) → env.publishes n copy ≡ ok none)
    → publish env set msgs w ≡ (returns (none, none), record w { calls = w.calls + 1 + 1 })
unfolding publish heartbeat
publish_quiet env set w msgs q accepts =
    let brief = q.brief w.calls in
    let accepted = accepts (w.calls + 1) msgs in ground (arith, brief, accepted)

claim_up :
    (json : Json) (db : Db) (set : Settings) (t : Table) {ms : List Message}
    → db.reply ≡ answers
    → out_of_range db set t ≡ false
    → scan_messages json (claimed db set t) ≡ ok ms
    → claim json db set t ≡ (claim_rows db set t, ok ms)
unfolding claim
claim_up json db set t up fits scanned =
    answered db.reply t up
      (rw fits (ap (λ (r : Result (List Message)). (claim_rows db set t, r)) scanned))

pub claim_answers :
    (env : Env) (set : Settings) (w : World) {ms : List Message}
    → IsQuiet env
    → out_of_range (env.db w.calls) set w.table ≡ false
    → scan_messages env.json (claimed (env.db w.calls) set w.table) ≡ ok ms
    → exec env (λ db t. claim env.json db set t) w ≡ (
      returns (ok ms),
      record w { table = claim_rows (env.db w.calls) set w.table; calls = w.calls + 1 },
    )
claim_answers env set w q fits scanned =
    rw
      (
        q.alone w.calls w.table,
        claim_up env.json (env.db w.calls) set w.table (q.up w.calls) fits scanned,
        exec,
      )
      refl

-- With no error of the publisher and of the heartbeat the batch is completed as published.
conclude-complete :
    (env : Env) (set : Settings) (w : World) (m : Message) (ms : List Message) {e : Option Error}
    {u : World}
    → complete env set (m ∷ ms) published none (pos 0) w ≡ (returns e, u)
    → conclude env set (m ∷ ms) none none w ≡ (returns (length (m ∷ ms), e), u)
unfolding conclude settle
conclude-complete env set w m ms h = rw (conclude, settle, h) refl

-- The whole pass when nothing goes wrong: it claims a batch, the publisher accepts it, and while
-- the leases live every claimed row is published, in one statement. OnPublished is told of all of
-- them at once, after the statement, and no other hook is called; the pass returns the size of the
-- batch and no error.
pub process_batch-published :
    (env : Env) (set : Settings) (w : World) {h : HookSet} (m : Message) (ms told : List Message)
    → IsQuiet env
    → ((n : ℕ) (copy : List Message) → env.publishes n copy ≡ ok none)
    → set.hooks ≡ some h
    → out_of_range (env.db w.calls) set w.table ≡ false
    → (env.db (w.calls + 3)).clock
      < (env.db w.calls).clock + (env.db w.calls).interval set.lease_duration
    → scan_messages env.json (claimed (env.db w.calls) set w.table) ≡ ok (m ∷ ms)
    → scan_messages env.json (
        map
          (complete_row (env.db (w.calls + 3)) (completion set published none (pos 0)))
          (claimed (env.db w.calls) set w.table))
      ≡ ok told
    → process_batch env set w ≡ (
      returns (length (m ∷ ms), none),
      record {
        table =
            finish_rows
              (env.db (w.calls + 3))
              (claim_keys (m ∷ ms))
              (completion set published none (pos 0))
              (claim_rows (env.db w.calls) set w.table);
        calls = w.calls + 5;
        events = w.events ++ on_published told ∷ [];
      },
    )
unfolding process_batch
process_batch-published env set w m ms told q accepts hooked fits live scanned finishes =
    let c = completion set published none (pos 0) in
    let w1 : World = record w {
      table = claim_rows (env.db w.calls) set w.table;
      calls = w.calls + 1;
    } in
    let w2 : World = record w1 { calls = w.calls + 3 } in
    let reached =
      finished-claimed env.json (env.db w.calls) (env.db (w.calls + 3)) set w.table c scanned
        live in
    let all : length told ≡ length (m ∷ ms) = omega (
      arith,
      length-scan_messages env.json (claimed (env.db w.calls) set w.table) scanned,
      length-scan_messages env.json
          (map (complete_row (env.db (w.calls + 3)) c) (claimed (env.db w.calls) set w.table))
          finishes,
      length-map (complete_row (env.db (w.calls + 3)) c) (claimed (env.db w.calls) set w.table),
    ) in
    let to_finish : w.calls + 1 + 1 + 1 ≡ w.calls + 3 = omega arith in
    let to_end : w.calls + 3 + 1 + 1 ≡ w.calls + 5 = omega arith in
    let settled = conclude-complete env set w2 m ms (
      complete_reports env set w2 m ms told q hooked
        (ap (scan_messages env.json) reached ∙ finishes) all) in
    rw
      (
        claim_answers env set w q fits scanned,
        publish_quiet env set w1 (m ∷ ms) q accepts,
        to_finish,
        process_batch,
      )
      (rw to_end at settled)
