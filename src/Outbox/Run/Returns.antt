-- ===== src/Outbox/Run/Returns.antt =====
-- What `Outbox.Run` returns.
use pg_outbox.Base.{
  ℕ, suc, ◌+◌, ◌≡◌, refl, sym, ap, ◌∙◌, ◌⊎◌, inl, inr, Bool, true, false, Option, none, some, List,
  [], ◌∷◌, ◌++◌, arith, length, length-append, not,
}
use pg_outbox.Message.{is_nil}
use pg_outbox.Port.{Error, or_else}
use pg_outbox.Config.{Settings}
use pg_outbox.Config.Bounds.{IsRunnable}
use pg_outbox.Relay.Run.{Running, fail, cancel_parent, run_started, all_ended}
use pg_outbox.Relay.Run
use pg_outbox.Relay.Run.First.{run_returns}
use pg_outbox.Outbox.Run.{Whole, started, receive, Step, Reaches, returned}
use pg_outbox.Outbox.Run.First.{answers_taken, first_error, failure-first}

abbrev has_error : List (Option Error) → Bool
has_error [] = false
has_error (none ∷ rest) = has_error rest
has_error (some e ∷ rest) = true

has_error-append : (es fs : List (Option Error)) → has_error es ≡ true → has_error (es ++ fs) ≡ true
has_error-append [] fs h = cc
has_error-append (none ∷ es) fs h = has_error-append es fs h
has_error-append (some e ∷ es) fs h = refl

has_error-last :
    (es : List (Option Error)) (f : Option Error) (e : Error)
    → f ≡ some e
    → has_error (es ++ f ∷ []) ≡ true
has_error-last [] f e h = rw h refl
has_error-last (none ∷ es) f e h = has_error-last es f e h
has_error-last (some x ∷ es) f e h = refl

abbrev count : Bool → ℕ
count false = 0
count true = 1

-- `Run` has an error to return.
abbrev Explained : Option Error → Option Error → Type 0
Explained failure outer = (e : Error) × (or_else failure outer ≡ some e)

record IsSound (set : Settings) (start : Running) (s : Whole) : Type 0 where
  reached : Run.Reaches start s.relay
  explained : s.relay.parent ≡ true → Explained s.failure s.outer
  answered : s.relay_sent ≡ true → Explained s.failure s.outer ⊎ (has_error s.channel ≡ true)
  counted : s.received + length s.channel ≡ count s.relay_sent + count s.cleaner_sent

Step-parent : {s t : Running} → Run.Step s t → t.parent ≡ s.parent
unfolding fail
Step-parent (Run.Step.turns s turn move) = refl
Step-parent (Run.Step.fails s {e = none} move) = refl
Step-parent (Run.Step.fails s {e = some e} {gs} move) = split s.failure refl
  where
    split :
        (f : Option Error)
        → s.failure ≡ f
        → (fail (some e) (record s { goroutines = gs })).parent ≡ s.parent
    split none k = rw k refl
    split (some first) k = rw k refl

known_now : (f : Option Error) (why : Error) → Explained f (some why)
known_now none why = (why, refl)
known_now (some e) why = (e, refl)

module _ (set : Settings) (pool parent : Bool) (runs : IsRunnable set) where
  abbrev Sound : Whole → Type 0
  Sound = IsSound set (run_started set pool parent)

  one_less :
      (s : Whole) {e : Option Error} {rest : List (Option Error)}
      → s.channel ≡ e ∷ rest
      → Sound s
      → suc s.received + length rest ≡ count s.relay_sent + count s.cleaner_sent
  one_less s {e} {rest} k v =
      let l : length s.channel ≡ suc (length rest) = ap length k in
      let n : s.received + length s.channel ≡ count s.relay_sent + count s.cleaner_sent =
        v.counted in
      omega arith

  Step-IsSound : {s t : Whole} → Step set s t → Sound s → Sound t
  unfolding receive
  Step-IsSound (Step.outer_done s why k) v = record {
    reached = Run.Reaches.parent_done v.reached;
    explained = λ h. known_now s.failure why;
    answered = λ h. inl (known_now s.failure why);
    counted = v.counted;
  }
  Step-IsSound (Step.relay_goes s x) v = record {
    reached = Run.Reaches.steps v.reached x;
    explained = λ h. v.explained (sym (Step-parent x) ∙ h);
    answered = v.answered;
    counted = v.counted;
  }
  Step-IsSound (Step.relay_ends s k h) v = record {
    reached = v.reached;
    explained = v.explained;
    answered = λ sent. elim (run_returns set pool parent s.relay runs v.reached h) [
      | inl done ↦ inl (v.explained done)
      | inr (e, f) ↦ inr (has_error-last s.channel s.relay.failure e f)
    ];
    counted =
        let c : count s.relay_sent ≡ 0 = ap count k in
        let l : length (s.channel ++ s.relay.failure ∷ []) ≡ length s.channel + 1 =
          length-append s.channel (s.relay.failure ∷ []) in
        let n : s.received + length s.channel ≡ count s.relay_sent + count s.cleaner_sent =
          v.counted in
        omega arith;
  }
  Step-IsSound (Step.cleaner_ends s e k h) v = record {
    reached = v.reached;
    explained = v.explained;
    answered = λ sent. elim (v.answered sent) [
      | inl x ↦ inl x
      | inr x ↦ inr (has_error-append s.channel (e ∷ []) x)
    ];
    counted =
        let c : count s.cleaner_sent ≡ 0 = ap count k in
        let l : length (s.channel ++ e ∷ []) ≡ length s.channel + 1 =
          length-append s.channel (e ∷ []) in
        let n : s.received + length s.channel ≡ count s.relay_sent + count s.cleaner_sent =
          v.counted in
        omega arith;
  }
  Step-IsSound (Step.receives s {e = none} {rest} k) v = record {
    reached = v.reached;
    explained = v.explained;
    answered =
        λ sent. elim (v.answered sent) [ inl x ↦ inl x | inr x ↦ inr (sym (ap has_error k) ∙ x) ];
    counted = one_less s k v;
  }
  Step-IsSound (Step.receives s {e = some e} {rest} k) v = split s.failure refl
    where
      split :
          (f : Option Error)
          → s.failure ≡ f
          → Sound (receive (some e) (record s { channel = rest; received = suc s.received }))
      split none j = rw j (record {
        reached = Run.Reaches.parent_done v.reached;
        explained = λ h. (e, refl);
        answered = λ sent. inl (e, refl);
        counted = one_less s k v;
      })
      split (some first) j = rw j (record {
        reached = v.reached;
        explained = λ h. (first, rw j refl);
        answered = λ sent. inl (first, rw j refl);
        counted = one_less s k v;
      })

  Reaches-IsSound : {s t : Whole} → Reaches set s t → Sound s → Sound t
  Reaches-IsSound Reaches.starts v = v
  Reaches-IsSound (Reaches.steps r x) v = Step-IsSound x (Reaches-IsSound r v)

started-IsSound :
    (set : Settings) (pool : Bool) (outer : Option Error)
    → IsSound set (run_started set pool (not (is_nil outer))) (started set pool outer)
unfolding started run_started
started-IsSound set pool none = record {
  reached = Run.Reaches.starts;
  explained = λ h. cc;
  answered = λ h. cc;
  counted = refl;
}
started-IsSound set pool (some why) = record {
  reached = Run.Reaches.starts;
  explained = λ h. (why, refl);
  answered = λ h. cc;
  counted = refl;
}

both_answered :
    (set : Settings) (start : Running) (s : Whole)
    → IsSound set start s
    → s.received ≡ 2
    → Explained s.failure s.outer
both_answered set start s v two = go s.channel s.relay_sent s.cleaner_sent refl refl v.counted
  where
    go :
        (es : List (Option Error)) (r c : Bool)
        → s.channel ≡ es
        → s.relay_sent ≡ r
        → s.received + length es ≡ count r + count c
        → Explained s.failure s.outer
    go [] true c k j n = elim (v.answered j) [ inl x ↦ x | inr x ↦ cc (ap has_error k) ]
    go [] false false k j n = absurd (omega arith)
    go [] false true k j n = absurd (omega arith)
    go (e ∷ es) false false k j n = absurd (omega arith)
    go (e ∷ es) false true k j n = absurd (omega arith)
    go (e ∷ es) true false k j n = absurd (omega arith)
    go (e ∷ es) true true k j n = absurd (omega arith)

-- `Outbox.Run` never returns nil: when the relay and the cleaner have both answered, in whatever
-- order they and the caller's context came to an end, it returns the first error among the answers in
-- the order in which it took them, or else the error of the caller's context, which is then done. The
-- settings are ones that the engine can run on; the cleaner may have had nothing to do.
pub returned-some :
    (set : Settings) (pool : Bool) (outer : Option Error) (s : Whole)
    → IsRunnable set
    → (r : Reaches set (started set pool outer) s) → s.received ≡ 2
    → (e : Error) × (returned s ≡ some e)
      × (or_else (first_error (answers_taken r)) s.outer ≡ some e)
unfolding returned
returned-some set pool outer s runs r two =
    let (e, h) =
      both_answered set (run_started set pool (not (is_nil outer))) s
        (Reaches-IsSound set pool (not (is_nil outer)) runs r (started-IsSound set pool outer))
        two in
    (e, h, ap (λ (f : Option Error). or_else f s.outer) (sym (failure-first pool outer r)) ∙ h)
