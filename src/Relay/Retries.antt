-- ===== src/Relay/Retries.antt =====
-- How `settle` decides between a retry and the dead state, and what `isFatal` overrides.
use pg_outbox.Base.{
  ◌≡◌, refl, ◌⊎◌, inl, inr, ℕ, ◌+◌, Bool, true, false, Option, none, some, List, ◌∷◌, arith, length,
  Bool-cases,
}
use pg_outbox.Base.Int.{pos, ◌≤ℤ◌}
use pg_outbox.Backoff.{Duration}
use pg_outbox.Config.{Settings}
use pg_outbox.Message.{Message}
use pg_outbox.Port.{Error, MaybeError, Outcomes, batch, aborts, panics, fatal, has}
use pg_outbox.Port.Search.{InOutcomes, abort_in_batch}
use pg_outbox.Relay.{Env, World, Exit, returns}
use pg_outbox.Relay.Settle.{retry_delay}
use pg_outbox.Relay.Batch.{is_fatal, conclude, publish, heartbeat, process_batch}
use pg_outbox.Relay.Delivery.{IsQuiet, claim_answers}
use pg_outbox.Store.{ok, scan_messages}
use pg_outbox.Store.Claim.{out_of_range, claimed, claim_rows}

-- The delay of a retry is the largest of zero, the configured backoff and the minimum that a
-- RetryAfter asks for: it is none below them, and it is one of them.
pub retry_delay_max :
    (backoff least : Duration)
    → let d = retry_delay backoff (some least) in
      (pos 0 ≤ℤ d) × (backoff ≤ℤ d) × (least ≤ℤ d) × ((d ≡ pos 0) ⊎ (d ≡ backoff) ⊎ (d ≡ least))
unfolding retry_delay
retry_delay_max backoff least = ground arith

-- An abort in any entry of a batch outcome, at any depth, is fatal whatever the classifier
-- says and whether or not the context is done.
pub abort_is_fatal :
    (env : Env) (set : Settings) (os : Outcomes) (others : MaybeError) (w : World) {e : Error}
    → InOutcomes e os
    → has aborts e ≡ true
    → is_fatal env set (batch os others) w ≡ (returns true, w)
unfolding is_fatal
abort_is_fatal env set os others w i h = rw (abort_in_batch os others i h)

pub is_fatal_frame :
    (env : Env) (set : Settings) (e : Error) (w : World) {r : Exit Bool} {u : World}
    → is_fatal env set e w ≡ (r, u)
    → (u.table ≡ w.table) × (u.events ≡ w.events)
unfolding is_fatal
is_fatal_frame env set e w h = ground arith

-- A fatal publish error settles nothing, also when the heartbeat failed as well.
fatal_leaves_claimed :
    (env : Env) (set : Settings) (msgs : List Message) (perr : Error) (lease_err : Option Error)
    (w u : World)
    → is_fatal env set perr w ≡ (returns true, u)
    → (conclude env set msgs (some perr) lease_err w
        ≡ (returns (length msgs, some (fatal perr)), u))
      × (u.table ≡ w.table)
      × (u.events ≡ w.events)
unfolding conclude
fatal_leaves_claimed env set msgs perr lease_err w u h =
    let (same_table, same_events) = is_fatal_frame env set perr w h in
    (rw (h, conclude), same_table, same_events)

-- In a quiet environment the publisher's error comes back from `publish`.
publish_answers :
    (env : Env) (set : Settings) (w : World) (msgs : List Message) (perr : Error)
    → IsQuiet env
    → ((n : ℕ) (copy : List Message) → env.publishes n copy ≡ ok (some perr))
    → publish env set msgs w ≡ (returns (some perr, none), record w { calls = w.calls + 1 + 1 })
unfolding publish heartbeat
publish_answers env set w msgs perr q answer =
    let brief = q.brief w.calls in
    let answered = answer (w.calls + 1) msgs in ground (arith, brief, answered)

stops_relay :
    (env : Env) (set : Settings) (perr : Error) (w : World)
    → (has aborts perr ≡ true) ⊎ (has panics perr ≡ true)
    → is_fatal env set perr w ≡ (returns true, w)
unfolding is_fatal
stops_relay env set perr w (inl h) = rw h refl
stops_relay env set perr w (inr h) = elim (Bool-cases (has aborts perr)) [
  | inl a ↦ rw a refl
  | inr a ↦ rw (a, h) refl
]

-- A pass whose publisher answers with an error that has an Abort or a PanicError in it leaves the batch
-- claimed: the table is what the claim made of it, no hook is called and nothing is logged, and the pass
-- returns the size of the batch and the error as fatal. Nothing else writes meanwhile, the database
-- answers, no picked row has as many attempts as its column can count, and no renewal falls due.
pub fatal_pass :
    (env : Env) (set : Settings) (w : World) (m : Message) (ms : List Message) (perr : Error)
    → IsQuiet env
    → ((n : ℕ) (copy : List Message) → env.publishes n copy ≡ ok (some perr))
    → (has aborts perr ≡ true) ⊎ (has panics perr ≡ true)
    → out_of_range (env.db w.calls) set w.table ≡ false
    → scan_messages env.json (claimed (env.db w.calls) set w.table) ≡ ok (m ∷ ms)
    → process_batch env set w ≡ (
      returns (length (m ∷ ms), some (fatal perr)),
      record w { table = claim_rows (env.db w.calls) set w.table; calls = w.calls + 1 + 1 + 1 },
    )
unfolding process_batch
fatal_pass env set w m ms perr q answer stopping fits scanned =
    let w1 : World = record w {
      table = claim_rows (env.db w.calls) set w.table;
      calls = w.calls + 1;
    } in
    let w2 : World = record w1 { calls = w.calls + 1 + 1 + 1 } in
    rw
      (
        claim_answers env set w q fits scanned,
        publish_answers env set w1 (m ∷ ms) perr q answer,
        process_batch,
      )
      ((fatal_leaves_claimed env set (m ∷ ms) perr none w2 w2
        (stops_relay env set perr w2 stopping)).0)
