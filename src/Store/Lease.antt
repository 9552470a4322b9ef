-- ===== src/Store/Lease.antt =====
-- engine/store.go: `claimKeys`, `renew` and `finish`, the statements that only the holder of a lease
-- can make.
pub mod Fencing
pub mod Outcome
pub mod Exclusive
pub mod Count
pub mod Renewal
use pg_outbox.Base.{
  ℕ, zero, suc, ◌+◌, ◌-◌, ◌*◌, ◌/◌, ◌%◌, ◌^◌, ◌≤◌, ◌<◌, ◌≡◌, refl, sym, ap, subst, ◌∙◌, ◌≢◌, ◌↔◌,
  ◌⊎◌, inl, inr, ite, Bool, true, false, not, ◌&&◌, ◌||◌, Option, none, some, List, [], ◌∷◌, ◌++◌,
  map, arith, dec_lt, ℕ_discrete, ltb, leb, if◌then◌else◌, tests, Bool-cases, Option-cases, length,
  take, select, All, length-append, ◌==◌,
}
use pg_outbox.Base.Int.{
  ℤ, pos, negsuc, pos_part, neg_part, ◌≤ℤ◌, ◌<ℤ◌, ltb_ℤ, leb_ℤ, to_bits, of_bits, shl64, IsInt64,
}
use Prim.Native.String.{String}
use pg_outbox.Base.Text.{◌==◌ as ◌=s=◌}
use pg_outbox.Backoff.{Duration}
use pg_outbox.Message.{Message, Status, is_status, pending, processing, published, discarded}
use pg_outbox.Port.{Error, lease_lost}
use pg_outbox.Table.{Row, Table, update, returning, after}
use pg_outbox.Store.{Db, Json, Result, ok, err, run, null_str, scan_messages}

-- `claimKeys`: the ids with the tokens of the attempts.
abbrev pub claim_keys : List Message → List (String × String)
claim_keys = map (λ m. (m.id, m.lease_token))

-- (id, lease_token) IN (SELECT * FROM unnest(...)); a NULL token is in no list.
abbrev pub has_key : List (String × String) → String → Option String → Bool
has_key keys id none = false
has_key [] id (some token) = false
has_key ((i, k) ∷ keys) id (some token) = (i =s= id && k =s= token) || has_key keys id (some token)

-- The WHERE clause of both statements: a live lease of one of these attempts.
unfoldable pub owned : Db → List (String × String) → Row → Bool
owned db keys r =
    has_key keys r.id r.lease_token
    && is_status r.status processing
    && after r.locked_until db.clock

unfoldable pub extend : Db → Duration → Row → Row
extend db duration r = record r { locked_until = some (db.clock + db.interval duration) }

abbrev pub renew_rows : Db → List (String × String) → Duration → Table → Table
renew_rows db keys duration t = record t {
  rows = update (owned db keys) (extend db duration) t.rows;
}

-- `renew`: an error unless every message of the batch was renewed.
unfoldable pub renew : Db → List Message → Duration → Table → Table × Result (Unit {0})
renew db msgs duration t = run db.reply t (
  renew_rows db (claim_keys msgs) duration t,
  if length (select (owned db (claim_keys msgs)) t.rows) == length msgs
      then ok tt
      else err lease_lost,
)

-- The arguments of `finish` that the statement takes.
pub record Completion : Type 0 where
  pub status : Status
  pub reason : String
  pub delay : Duration
  pub clear : Bool

-- `$6 AND $3 IN ('published','discarded')`
abbrev pub clears : Completion → Bool
clears c = c.clear && (is_status c.status published || is_status c.status discarded)

-- The SET clause of `finish`.
unfoldable pub complete_row : Db → Completion → Row → Row
complete_row db c r = record r {
  status = c.status;
  next_attempt_at =
      if is_status c.status pending then db.clock + db.interval c.delay else r.next_attempt_at;
  last_error = null_str c.reason;
  published_at = if is_status c.status published then some db.clock else none;
  finished_at = if is_status c.status pending then none else some db.clock;
  payload = if clears c then [] else r.payload;
  headers = if clears c then "{}" else r.headers;
  locked_by = none;
  locked_until = none;
  lease_token = none;
}

abbrev pub finish_rows : Db → List (String × String) → Completion → Table → Table
finish_rows db keys c t = record t { rows = update (owned db keys) (complete_row db c) t.rows }

abbrev pub finished : Db → List (String × String) → Completion → Table → List Row
finished db keys c t = returning (owned db keys) (complete_row db c) t.rows

-- `finish`. An empty batch makes no call.
unfoldable pub finish :
    Json → Db → List Message → Completion → Table → Table × Result (List Message)
finish json db [] c t = (t, ok [])
finish json db (m ∷ ms) c t =
    let keys = claim_keys (m ∷ ms) in
    run db.reply t (finish_rows db keys c t, scan_messages json (finished db keys c t))
