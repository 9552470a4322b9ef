-- ===== src/Relay/Keeps/Concluding.antt =====
-- What follows a publish call keeps to every relation that the right completions of the batch keep to.
use pg_outbox.Base.{refl, sym, subst, false, Option, none, some, List, if◌then◌else◌, length}
use pg_outbox.Relay.{Env, M, return}
use pg_outbox.Config.{Settings}
use pg_outbox.Message.{Message}
use pg_outbox.Port.{
  Error, Outcomes, MaybeError, plain, wrapped, joined, permanent, retry_after, discard, batch,
  abort, panicked, lease_lost, fatal,
}
use pg_outbox.Table.{Table}
use pg_outbox.Relay.Settle.{settle, settle_each}
use pg_outbox.Relay.Batch.{
  is_fatal, is_fatal_maybe, settle_batch, batch_in, fatal_of, settle_unless, conclude,
}
use pg_outbox.Relay.Keeps.{TableOrder, Keeps, OthersKeep, Keeps-return, Keeps-if, Keeps-bind}
use pg_outbox.Relay.Keeps.Settling.{RightKeeps, Keeps-settle}
use pg_outbox.Relay.Keeps.Each.{Keeps-settle_each}
use pg_outbox.Relay.Verdict.{outcome_in, outcome_by, outcome_of}
use pg_outbox.Table.Rows.{All-of_mem}
use pg_outbox.Relay.Retries.{is_fatal_frame}

-- `settleEach` for a batch error, and `settle` for any other.
pub settle_batch-cases :
    (env : Env) (set : Settings) (P : (Message → Option Error) → M (Option Error) → Type 0)
    (msgs : List Message) (perr : Option Error)
    → ((os : Outcomes) (others : MaybeError)
        → P (outcome_in os others) (settle_each env set msgs os others))
    → P (λ _. perr) (settle env set msgs perr)
    → (b : Option Error) → P (outcome_by perr b) (settle_batch env set msgs perr b)
settle_batch-cases env set P msgs perr each whole none = whole
settle_batch-cases env set P msgs perr each whole (some (batch os others)) = each os others
settle_batch-cases env set P msgs perr each whole (some (plain s)) = whole
settle_batch-cases env set P msgs perr each whole (some (wrapped s e)) = whole
settle_batch-cases env set P msgs perr each whole (some (joined es)) = whole
settle_batch-cases env set P msgs perr each whole (some (permanent e)) = whole
settle_batch-cases env set P msgs perr each whole (some (retry_after e d)) = whole
settle_batch-cases env set P msgs perr each whole (some (discard e)) = whole
settle_batch-cases env set P msgs perr each whole (some (abort e)) = whole
settle_batch-cases env set P msgs perr each whole (some (panicked v)) = whole
settle_batch-cases env set P msgs perr each whole (some lease_lost) = whole
settle_batch-cases env set P msgs perr each whole (some (fatal e)) = whole

pub Keeps-is_fatal :
    (env : Env) (set : Settings) (o : TableOrder) (e : Error) → Keeps o (is_fatal env set e)
Keeps-is_fatal env set o e = record {
  at = λ w.
      subst (λ (t : Table). o.Rel w.table t) (sym ((is_fatal_frame env set e w refl).0))
        (o.reflexive w.table);
}

pub Keeps-is_fatal_maybe :
    (env : Env) (set : Settings) (o : TableOrder) (e : Option Error)
    → Keeps o (is_fatal_maybe env set e)
Keeps-is_fatal_maybe env set o none = Keeps-return false
Keeps-is_fatal_maybe env set o (some e) = Keeps-is_fatal env set o e

module _ (env : Env) (set : Settings) (o : TableOrder) (msgs : List Message) (perr : Option Error)
    (others_keep : OthersKeep env o)
    (right_keeps : RightKeeps env set o msgs (outcome_of perr)) where
  Keeps-settle_batch : Keeps o (settle_batch env set msgs perr (batch_in perr))
  Keeps-settle_batch =
      settle_batch-cases env set
        (λ (outcome : Message → Option Error) (m : M (Option Error)).
          RightKeeps env set o msgs outcome → Keeps o m)
        msgs perr (λ os others right. Keeps-settle_each env set o msgs os others others_keep right)
        (λ right.
          Keeps-settle env set o msgs (λ _. perr) others_keep right msgs perr
            (All-of_mem msgs (λ m n. (n, refl))))
        (batch_in perr) right_keeps

  Keeps-settle_unless :
      (lease_err : Option Error) → Keeps o (settle_unless env set lease_err msgs perr)
  Keeps-settle_unless (some e) = Keeps-return (length msgs, some e)
  Keeps-settle_unless none =
      Keeps-bind (settle_batch env set msgs perr (batch_in perr)) (λ e. return (length msgs, e))
        Keeps-settle_batch (λ e. Keeps-return (length msgs, e))

  pub Keeps-conclude : (lease_err : Option Error) → Keeps o (conclude env set msgs perr lease_err)
  unfolding conclude
  Keeps-conclude lease_err =
      Keeps-bind (is_fatal_maybe env set perr)
        (λ stop.
          if stop
          then return (length msgs, fatal_of perr)
          else settle_unless env set lease_err msgs perr)
        (Keeps-is_fatal_maybe env set o perr)
        (λ stop.
          Keeps-if stop (Keeps-return (length msgs, fatal_of perr)) (Keeps-settle_unless lease_err))
