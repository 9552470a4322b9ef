-- ===== src/Relay/Verdict/Complete.antt =====
-- The end of `processBatch` settles the whole batch whenever it reports no error.
use mathlib.Core.List.{Memᴰ}
use pg_outbox.Base.{
  ℕ, ◌≡◌, refl, sym, ap, ◌∙◌, subst, Bool, true, false, Option, none, some, List, if◌then◌else◌,
  length,
}
use pg_outbox.Config.{Settings}
use pg_outbox.Message.{Message}
use pg_outbox.Port.{Error}
use pg_outbox.Table.{Row, Table}
use pg_outbox.Table.Rows.{UniqueIds, All-of_mem}
use pg_outbox.Store.Lease.{claim_keys}
use pg_outbox.Store.Lease.Count.{UniqueKeys}
use pg_outbox.Relay.{Env, World, M, returns, return}
use pg_outbox.Relay.Batch.{
  is_fatal_maybe, fatal_of, settle_batch, batch_in, settle_unless, conclude,
}
use pg_outbox.Relay.Returns.{>>=-returns, return-returns}
use pg_outbox.Relay.Keeps.{Keeps-returns}
use pg_outbox.Relay.Keeps.Reporting.{same_table}
use pg_outbox.Relay.Keeps.Concluding.{settle_batch-cases, Keeps-is_fatal_maybe}
use pg_outbox.Relay.Verdict.{outcome_of}
use pg_outbox.Relay.Verdict.Done.{DoneIn}
use pg_outbox.Relay.Verdict.Settled.{IsSettledAs}
use pg_outbox.Relay.Verdict.Completes.{Completes, NoError, Completes-then}
use pg_outbox.Relay.Verdict.Whole.{Completes-settle}
use pg_outbox.Relay.Verdict.Each.{Completes-settle_each}

-- A pass that stops for a fatal error returns an error.
never_stops :
    (env : Env) (set : Settings) (perr : Option Error) (w v : World)
    → is_fatal_maybe env set perr w ≡ (returns true, v)
    → fatal_of perr ≡ none
    → ⊥
never_stops env set none w v asked h = cc
never_stops env set (some e) w v asked h = cc

-- The pass reports no error.
abbrev Silent : ℕ × Option Error → Type 0
Silent x = x.1 ≡ none

Silent-some : (n : ℕ) (e : Error) (a : ℕ × Option Error) → (n, some e) ≡ a → Silent a → ⊥
Silent-some n e a q c = cc (sym (ap (λ (y : ℕ × Option Error). y.1) q ∙ c))

module _ (env : Env) (set : Settings) (msgs : List Message) (perr : Option Error)
    (alone : (n : ℕ) (t : Table) → env.between n t ≡ t) (keys : UniqueKeys (claim_keys msgs)) where
  Completes-settle_batch :
      Completes set
        (outcome_of perr)
        NoError
        (λ x. Memᴰ x msgs)
        (settle_batch env set msgs perr (batch_in perr))
  Completes-settle_batch =
      settle_batch-cases env set
        (λ (outcome : Message → Option Error) (m : M (Option Error)).
          Completes set outcome NoError (λ x. Memᴰ x msgs) m)
        msgs perr (λ os others. Completes-settle_each env set msgs os others alone keys)
        (Completes-settle env set msgs (λ _. perr) alone msgs perr keys
          (All-of_mem msgs (λ m n. (n, refl))))
        (batch_in perr)

  Completes-settle_unless :
      (lease_err : Option Error)
      → Completes set
          (outcome_of perr)
          Silent
          (λ x. Memᴰ x msgs)
          (settle_unless env set lease_err msgs perr)
  Completes-settle_unless (some e) = record {
    at = λ w u a h c unique x inside.
        absurd (Silent-some (length msgs) e a (return-returns (length msgs, some e) a w u h).0 c);
  }
  Completes-settle_unless none =
      Completes-then (settle_batch env set msgs perr (batch_in perr)) (λ e. (length msgs, e))
        Completes-settle_batch (λ e c. c)

  Completes-conclude :
      (lease_err : Option Error)
      → Completes set
          (outcome_of perr)
          Silent
          (λ x. Memᴰ x msgs)
          (conclude env set msgs perr lease_err)
  unfolding conclude
  Completes-conclude lease_err = record { at = run }
    where
      run :
          (w u : World) (a : ℕ × Option Error)
          → conclude env set msgs perr lease_err w ≡ (returns a, u)
          → Silent a
          → UniqueIds w.table.rows
          → (x : Message) → Memᴰ x msgs
          → DoneIn set (outcome_of perr) w.table u.table x
      run w u a h c unique x inside =
          let (stop, v, asked, rest) =
            >>=-returns (is_fatal_maybe env set perr)
              (λ stop.
                if stop
                then return (length msgs, fatal_of perr)
                else settle_unless env set lease_err msgs perr)
              w u h in
          by_stop stop v asked rest
        where
          by_stop :
              (stop : Bool) (v : World)
              → is_fatal_maybe env set perr w ≡ (returns stop, v)
              → (if stop
                    then return (length msgs, fatal_of perr)
                    else settle_unless env set lease_err msgs perr)
                  v
                ≡ (returns a, u)
              → DoneIn set (outcome_of perr) w.table u.table x
          by_stop true v asked rest = absurd (
              never_stops env set perr w v asked (
                ap (λ (y : ℕ × Option Error). y.1)
                  (return-returns (length msgs, fatal_of perr) a v u rest).0
                ∙ c))
          by_stop false v asked rest =
              let same : v.table ≡ w.table =
                Keeps-returns w v false (Keeps-is_fatal_maybe env set same_table perr) asked in
              subst (λ (t : Table). DoneIn set (outcome_of perr) t u.table x) same
                ((Completes-settle_unless lease_err).at v u a rest c
                  (subst (λ (t : Table). UniqueIds t.rows) (sym same) unique) x inside)

-- When a pass returns with no error, every message of its batch has been settled, whatever the publisher
-- has answered: its row was processing under its token, and at the end it is there in the state that the
-- message's own outcome leads to, with the outcome's text and no lease. A message whose lease was lost, a
-- statement that failed or reached fewer rows than messages, and a fatal outcome all show as an error.
-- Ids are taken to be unique in the table and in the batch, and other transactions to write nothing
-- meanwhile.
pub conclude_settles_all :
    (env : Env) (set : Settings) (msgs : List Message) (perr lease_err : Option Error) (w u : World)
    (n : ℕ) (m : Message)
    → ((n : ℕ) (t : Table) → env.between n t ≡ t)
    → UniqueIds w.table.rows
    → UniqueKeys (claim_keys msgs)
    → conclude env set msgs perr lease_err w ≡ (returns (n, none), u)
    → Memᴰ m msgs
    → (o : Row) × (r : Row) × Memᴰ o w.table.rows
      × Memᴰ r u.table.rows
      × IsSettledAs set (outcome_of perr m) m o r
conclude_settles_all env set msgs perr lease_err w u n m alone unique keys h inside =
    let d =
      (Completes-conclude env set msgs perr alone keys lease_err).at w u (n, none) h refl unique m
        inside in
    (d.before, d.after, d.was_there, d.is_there, d.settled)
