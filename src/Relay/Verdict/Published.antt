-- ===== src/Relay/Verdict/Published.antt =====
-- A pass in which nothing goes wrong, for the rows that it picks.
use mathlib.Core.List.{Memᴰ}
use pg_outbox.Base.{
  ℕ, ◌+◌, ◌≡◌, ◌<◌, refl, sym, ap, false, ◌∙◌, true, Option, none, some, List, [], ◌∷◌, ◌++◌, map,
  length,
}
use pg_outbox.Base.Int.{pos}
use pg_outbox.Base.Text.{String-discrete}
use pg_outbox.Config.{Settings, HookSet}
use pg_outbox.Message.{Message, published}
use pg_outbox.Port.{Error}
use pg_outbox.Table.{Row, Table}
use pg_outbox.Table.Rows.{UniqueIds}
use pg_outbox.Store.{ok, scan_messages}
use pg_outbox.Store.Claim.{out_of_range, claimed, picked}
use pg_outbox.Store.Lease.{complete_row}
use pg_outbox.Relay.{Env, World, Exit, returns, on_published}
use pg_outbox.Relay.Stale.{completion}
use pg_outbox.Relay.Batch.{process_batch}
use pg_outbox.Relay.Delivery.{IsQuiet, process_batch-published}
use pg_outbox.Relay.Verdict.{verdict}
use pg_outbox.Relay.Verdict.Pass.{IsDelivered, process_batch_delivers, said}

-- The row `o` is in the table as a published row that has no error and that nobody leases.
abbrev pub IsSent : Row → Table → Type 0
IsSent o t =
    (r : Row) × Memᴰ r t.rows
    × (r.id ≡ o.id)
    × (r.status ≡ published)
    × (r.last_error ≡ none)
    × (r.lease_token ≡ none)

-- A row whose message was answered with no error has been sent.
delivered-IsSent :
    (env : Env) (set : Settings) (o : Row) (t : Table)
    → ((n : ℕ) (copy : List Message) → env.publishes n copy ≡ ok none)
    → IsDelivered env set o t
    → IsSent o t
unfolding verdict String-discrete
delivered-IsSent env set o t accepts d = by_answer d.answer refl
  where
    by_answer : (a : Option Error) → d.answer ≡ a → IsSent o t
    by_answer none e =
        (d.after, d.is_there, d.same_row, rw e at d.has_verdict, rw e at d.has_reason, d.is_free)
    by_answer (some x) e = cc (sym (ap said (accepts d.call d.batch)) ∙ d.was_answered, e)

-- What a pass does for a row that it picks when nothing goes wrong: once the publisher has accepted the
-- batch while the leases live, the row is published, with no error and no lease. The pass returns the
-- size of the batch and no error, and it has called one hook, OnPublished, once, with the rows of the
-- whole batch as the completion returned them. Ids are taken to be unique, no picked row to have as many
-- attempts as its column can count, and nothing else writes.
pub process_batch_sends :
    (env : Env) (set : Settings) (w : World) {h : HookSet} (m : Message) (ms told : List Message)
    {o : Row}
    → IsQuiet env
    → UniqueIds w.table.rows
    → ((n : ℕ) (copy : List Message) → env.publishes n copy ≡ ok none)
    → set.hooks ≡ some h
    → out_of_range (env.db w.calls) set w.table ≡ false
    → (env.db (w.calls + 3)).clock
      < (env.db w.calls).clock + (env.db w.calls).interval set.lease_duration
    → scan_messages env.json (claimed (env.db w.calls) set w.table) ≡ ok (m ∷ ms)
    → scan_messages env.json (
        map
          (complete_row (env.db (w.calls + 3)) (completion set published none (pos 0)))
          (claimed (env.db w.calls) set w.table))
      ≡ ok told
    → Memᴰ o w.table.rows
    → picked (env.db w.calls) set w.table.rows o ≡ true
    → IsSent o (process_batch env set w).1.table
      × ((process_batch env set w).0 ≡ returns (length (m ∷ ms), none))
      × ((process_batch env set w).1.events ≡ w.events ++ on_published told ∷ [])
process_batch_sends env set w m ms told {o} q unique accepts hooked fits live scanned finishes there
      pick =
    let run =
      process_batch-published env set w m ms told q accepts hooked fits live scanned finishes in
    let answer : (process_batch env set w).0 ≡ returns (length (m ∷ ms), none) =
      ap (λ (x : Exit (ℕ × Option Error) × World). x.0) run in
    (
      delivered-IsSent env set o (process_batch env set w).1.table accepts (
          process_batch_delivers env set w (process_batch env set w).1 (length (m ∷ ms)) o q.alone
            unique (ap (λ (x : Exit (ℕ × Option Error)). (x, (process_batch env set w).1)) answer)
            there pick),
      answer,
      ap (λ (x : Exit (ℕ × Option Error) × World). x.1.events) run,
    )
