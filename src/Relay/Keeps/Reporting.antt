-- ===== src/Relay/Keeps/Reporting.antt =====
-- What `complete` knows when it returns no error: the statement has run and has answered with as many
-- rows as there are messages, and the hooks have left the table alone.
use pg_outbox.Base.{
  ◌≡◌, refl, sym, ap, ◌∙◌, Bool, true, false, Option, none, some, List, ◌∷◌, ◌==◌, arith, length,
  select, if◌then◌else◌, length-map,
}
use pg_outbox.Config.{Settings}
use pg_outbox.Message.{Message, Status}
use pg_outbox.Port.{Error, lease_lost}
use pg_outbox.Table.{Table}
use pg_outbox.Store.{
  Db, Json, Reply, answers, fails, loses, panics, Result, ok, err, panic, run, scan_messages,
}
use pg_outbox.Store.Lease.{
  Completion, claim_keys, owned, complete_row, finish, finish_rows, finished,
}
use pg_outbox.Relay.{Env, World, returns, return}
use pg_outbox.Relay.Settle.{report_all, after_finish}
use pg_outbox.Relay.Delivery.{length-scan_messages}
use pg_outbox.Relay.Returns.{>>=-returns, return-returns}
use pg_outbox.Relay.Keeps.{TableOrder, Keeps-returns}
use pg_outbox.Relay.Keeps.Settling.{Keeps-report_all}

-- The table is left alone.
abbrev pub same_table : TableOrder
same_table = record { Rel = λ t u. u ≡ t; reflexive = λ t. refl; transitive = λ p q. q ∙ p }

-- A completion that answers has run, and where it answers with as many rows as there are messages
-- it has reached as many.
pub finish-ran :
    (json : Json) (db : Db) (m : Message) (ms : List Message) (c : Completion) (t : Table)
    (completed : List Message)
    → (finish json db (m ∷ ms) c t).1 ≡ ok completed
    → (length completed == length (m ∷ ms)) ≡ true
    → ((finish json db (m ∷ ms) c t).0 ≡ finish_rows db (claim_keys (m ∷ ms)) c t)
      × (length (select (owned db (claim_keys (m ∷ ms))) t.rows) ≡ length (m ∷ ms))
unfolding finish
finish-ran json db m ms c t completed h full =
    let (left, scanned) = ran db.reply h in
    let many = length-scan_messages json (finished db (claim_keys (m ∷ ms)) c t) scanned in
    let reached = length-map (complete_row db c) (select (owned db (claim_keys (m ∷ ms))) t.rows) in
    (left, ground (arith, many, reached, full))
  where
    ran :
        (reply : Reply)
        → (run reply t (
          finish_rows db (claim_keys (m ∷ ms)) c t,
          scan_messages json (finished db (claim_keys (m ∷ ms)) c t),
        )).1
          ≡ ok completed
        → ((run reply t (
          finish_rows db (claim_keys (m ∷ ms)) c t,
          scan_messages json (finished db (claim_keys (m ∷ ms)) c t),
        )).0
            ≡ finish_rows db (claim_keys (m ∷ ms)) c t)
          × (scan_messages json (finished db (claim_keys (m ∷ ms)) c t) ≡ ok completed)
    ran answers e = (refl, e)
    ran (fails x) e = cc
    ran (loses x) e = cc
    ran (panics v) e = cc

no_error_full : (b : Bool) → (if b then none else some lease_lost) ≡ none → b ≡ true
no_error_full true h = refl
no_error_full false h = cc

pub after_finish-returns :
    (env : Env) (set : Settings) (msgs : List Message) (status : Status) (cause : Option Error)
    (r : Result (List Message)) (v u : World)
    → after_finish env set msgs status cause r v ≡ (returns none, u)
    → (completed : List Message) × (r ≡ ok completed)
      × ((length completed == length msgs) ≡ true)
      × (u.table ≡ v.table)
after_finish-returns env set msgs status cause (err e) v u h = cc
after_finish-returns env set msgs status cause (panic p) v u h = cc
after_finish-returns env set msgs status cause (ok completed) v u h =
    let (_, v', told, ends) =
      >>=-returns (report_all env set status cause completed)
        (λ _. return (if length completed == length msgs then none else some lease_lost)) v u h in
    let (verdict, same) = return-returns _ none v' u ends in
    (
      completed,
      refl,
      no_error_full (length completed == length msgs) verdict,
      ap (λ (x : World). x.table) (sym same)
          ∙ Keeps-returns v v' _ (Keeps-report_all env set same_table status cause completed) told,
    )
