-- ===== src/Relay/Verdict/Pass.antt =====
-- `processBatch` from the claim to the last completion.
use mathlib.Core.List.{Memᴰ}
use pg_outbox.Base.{ℕ, ◌+◌, ◌≡◌, refl, sym, ap, ◌∙◌, subst, true, Option, none, some, List, [], ◌∷◌}
use pg_outbox.Config.{Settings}
use pg_outbox.Message.{Message}
use pg_outbox.Port.{Error}
use pg_outbox.Table.{Row, Table}
use pg_outbox.Table.Rows.{UniqueIds, update-UniqueIds}
use pg_outbox.Store.{scan_messages, Db, Result, ok, err, panic, null_str}
use pg_outbox.Store.Claim.{claim, claim_rows, claimed, picked, lease}
use pg_outbox.Store.Claim.Scanned.{claimed-UniqueKeys, claimed-mem}
use pg_outbox.Store.Lease.{claim_keys, owned, extend, renew_rows, renew}
use pg_outbox.Relay.{Env, World, returns, exec, next_call, return, raise, M, ◌>>=◌}
use pg_outbox.Relay.Settle.{reason_of}
use pg_outbox.Relay.Batch.{
  after_claim, process_batch, publish, conclude, recovered, heartbeat, call_publisher,
}
use pg_outbox.Relay.Returns.{>>=-returns, return-returns, exec-returns}
use pg_outbox.Relay.Keeps.{TableOrder, OthersKeep, Keeps-returns, run-keeps}
use pg_outbox.Relay.Keeps.Publishing.{Keeps-publish}
use pg_outbox.Relay.Drain.Claims.{claim-ran}
use pg_outbox.Relay.Verdict.{outcome_of, verdict}
use pg_outbox.Relay.Verdict.Complete.{conclude_settles_all}

-- What the call of the publisher has answered, when it has not panicked.
abbrev pub said : Result (Option Error) → Option (Option Error)
said (ok e) = some e
said (err e) = some (some e)
said (panic v) = none

-- The way of a due row through a pass: a message of the batch that the publisher was given stands for it,
-- with this attempt counted, and the row is in the state of the outcome that the publisher has answered
-- for that message.
pub record IsDelivered (env : Env) (set : Settings) (before : Row) (t : Table) : Type 0 where
  pub batch : List Message
  pub message : Message
  pub call : ℕ
  pub answer : Option Error
  pub after : Row
  pub was_sent : Memᴰ message batch
  pub was_answered : said (env.publishes call batch) ≡ some answer
  pub same_message : message.id ≡ before.id
  pub counts_attempt : message.attempts ≡ before.attempts + 1
  pub same_limit : message.max_attempts ≡ before.max_attempts
  pub is_there : Memᴰ after t.rows
  pub same_row : after.id ≡ before.id
  pub has_verdict : after.status ≡ verdict set (outcome_of answer message) message
  pub has_reason : after.last_error ≡ null_str (reason_of (outcome_of answer message))
  pub is_free : after.lease_token ≡ none

-- Ids stay unique.
abbrev unique_ids : TableOrder
unique_ids = record {
  Rel = λ t u. UniqueIds t.rows → UniqueIds u.rows;
  reflexive = λ t u. u;
  transitive = λ p q u. q (p u);
}

module _ (env : Env) (set : Settings) where
  renews-unique :
      (msgs : List Message) (db : Db) (t : Table)
      → unique_ids.Rel t (renew db msgs set.lease_duration t).0
  unfolding renew extend
  renews-unique msgs db t =
      run-keeps unique_ids db.reply t (renew_rows db (claim_keys msgs) set.lease_duration t) _ (
        update-UniqueIds (owned db (claim_keys msgs)) (extend db set.lease_duration) t.rows
          (λ r. refl))

  -- The error that `publish` returns is the one that a call of the publisher has answered.
  publish-answer :
      (msgs : List Message) (w u : World) (p : Option Error × Option Error)
      → publish env set msgs w ≡ (returns p, u)
      → (k : ℕ) × (said (env.publishes k msgs) ≡ some p.0)
  unfolding publish
  publish-answer msgs w u p h =
      let (n, v, _, k) = >>=-returns next_call beside w u h in
      let (lease_err, v', _, l) =
        >>=-returns (recovered (heartbeat env set msgs (env.beats n))) asks v u k in
      let (perr, u', asked, e) =
        >>=-returns (call_publisher env set msgs) (λ perr. return (perr, lease_err)) v' u l in
      let same : perr ≡ p.0 =
        ap (λ (q : Option Error × Option Error). q.0)
          (return-returns (perr, lease_err) p u' u e).0 in
      (
        v'.calls,
        answered (env.publishes v'.calls msgs) (record v' { calls = v'.calls + 1 }) u' perr asked
            ∙ ap some same,
      )
    where
      asks : Option Error → M (Option Error × Option Error)
      asks lease_err = call_publisher env set msgs >>= λ perr. return (perr, lease_err)

      beside : ℕ → M (Option Error × Option Error)
      beside n = recovered (heartbeat env set msgs (env.beats n)) >>= asks

      answered :
          (r : Result (Option Error)) (x y : World) (perr : Option Error)
          → elim r as (λ _. M (Option Error)) [
            | ok e ↦ return e
            | err e ↦ return (some e)
            | panic v ↦ raise v
          ]
              x
            ≡ (returns perr, y)
          → said r ≡ some perr
      answered (ok e) x y perr q = ap some (return-returns e perr x y q).0
      answered (err e) x y perr q = ap some (return-returns (some e) perr x y q).0
      answered (panic v) x y perr q = cc

  module _ (alone : (n : ℕ) (t : Table) → env.between n t ≡ t) where
    unique_alone : OthersKeep env unique_ids
    unique_alone = record {
      others = λ n t u. subst (λ (x : Table). UniqueIds x.rows) (sym (alone n t)) u;
    }

    -- The part of the pass that follows a claim with messages.
    delivers :
        (db : Db) (t : Table) (m : Message) (ms : List Message) (v u : World) (n : ℕ) (o : Row)
        → UniqueIds t.rows
        → scan_messages env.json (claimed db set t) ≡ ok (m ∷ ms)
        → v.table ≡ claim_rows db set t
        → after_claim env set (ok (m ∷ ms)) v ≡ (returns (n, none), u)
        → Memᴰ o t.rows
        → picked db set t.rows o ≡ true
        → IsDelivered env set o u.table
    unfolding lease
    delivers db t m ms v u n o unique scanned left h there pick =
        let (p, v', sent, rest) =
          >>=-returns (publish env set (m ∷ ms)) (λ p. conclude env set (m ∷ ms) p.0 p.1) v u h in
        let (k, answered) = publish-answer (m ∷ ms) v v' p sent in
        let (x, inside, id, attempts, limit) = claimed-mem env.json db set t o scanned there pick in
        let leased : UniqueIds v.table.rows =
          subst (λ (x : Table). UniqueIds x.rows) (sym left)
            (update-UniqueIds (picked db set t.rows) (lease db set) t.rows (λ r. refl) unique) in
        let (before, after, _, is_there, settled) =
          conclude_settles_all env set (m ∷ ms) p.0 p.1 v' u n x alone
            (Keeps-returns v v' p
              (Keeps-publish env set unique_ids unique_alone renews-unique (m ∷ ms)) sent leased)
            (claimed-UniqueKeys env.json db set t unique scanned) rest inside in
        record {
          batch = m ∷ ms;
          message = x;
          call = k;
          answer = p.0;
          after = after;
          was_sent = inside;
          was_answered = answered;
          same_message = id;
          counts_attempt = attempts;
          same_limit = limit;
          is_there = is_there;
          same_row = settled.keeps_id ∙ settled.same_message ∙ id;
          has_verdict = settled.has_verdict;
          has_reason = settled.has_reason;
          is_free = settled.is_free;
        }

-- A pass that returns with no error has delivered every row that its claim picked: the row was in the
-- batch that a call of the publisher was given, as a message that counts this attempt, and at the end it
-- is there, leased to nobody, in the state and with the text of the outcome that the publisher's answer
-- holds for that message. Ids are taken to be unique, and other transactions to write nothing meanwhile.
pub process_batch_delivers :
    (env : Env) (set : Settings) (w u : World) (n : ℕ) (o : Row)
    → ((n : ℕ) (t : Table) → env.between n t ≡ t)
    → UniqueIds w.table.rows
    → process_batch env set w ≡ (returns (n, none), u)
    → Memᴰ o w.table.rows
    → picked (env.db w.calls) set w.table.rows o ≡ true
    → IsDelivered env set o u.table
unfolding process_batch
process_batch_delivers env set w u n o alone unique h there pick =
    let (r, v, ran, rest) =
      >>=-returns (exec env (λ db t. claim env.json db set t)) (after_claim env set) w u h in
    let (answer, left) = exec-returns env (λ db t. claim env.json db set t) w v ran in
    claimed_by r v answer left rest
  where
    t : Table
    t = env.between w.calls w.table

    due : UniqueIds t.rows × Memᴰ o t.rows × (picked (env.db w.calls) set t.rows o ≡ true)
    due =
        subst
          (λ (x : Table).
            UniqueIds x.rows × Memᴰ o x.rows × (picked (env.db w.calls) set x.rows o ≡ true))
          (sym (alone w.calls w.table)) (unique, there, pick)

    claimed_by :
        (r : Result (List Message)) (v : World)
        → (claim env.json (env.db w.calls) set t).1 ≡ r
        → v.table ≡ (claim env.json (env.db w.calls) set t).0
        → after_claim env set r v ≡ (returns (n, none), u)
        → IsDelivered env set o u.table
    claimed_by (err e) v answer left k = cc
    claimed_by (panic p) v answer left k = cc
    claimed_by (ok []) v answer left k =
        let (_, scanned) = claim-ran env.json (env.db w.calls) set t [] answer in
        let (_, none_there, _, _, _) =
          claimed-mem env.json (env.db w.calls) set t o scanned due.1 due.2 in
        elim none_there [ ]
    claimed_by (ok (m ∷ ms)) v answer left k =
        let (ended, scanned) = claim-ran env.json (env.db w.calls) set t (m ∷ ms) answer in
        delivers env set alone (env.db w.calls) t m ms v u n o due.0 scanned (left ∙ ended) k due.1
          due.2
