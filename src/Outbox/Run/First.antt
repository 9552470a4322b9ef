-- ===== src/Outbox/Run/First.antt =====
-- The first error that `Outbox.Run` takes from the channel.
use pg_outbox.Base.{
  suc, ◌≡◌, refl, sym, ap, ◌∙◌, inl, inr, Bool, Option, none, some, List, [], ◌∷◌, ◌++◌,
  Option-cases,
}
use pg_outbox.Port.{Error}
use pg_outbox.Config.{Settings}
use pg_outbox.Outbox.Run.{Whole, started, receive, Step, Reaches}

-- The answer that a step takes from the channel, if it takes one.
abbrev pub taken : {set : Settings} {s t : Whole} → Step set s t → List (Option Error)
taken (Step.receives s {e = e} k) = e ∷ []
taken _ = []

-- The answers that `Run` has taken, in order.
abbrev pub answers_taken : {set : Settings} {s t : Whole} → Reaches set s t → List (Option Error)
answers_taken Reaches.starts = []
answers_taken (Reaches.steps r x) = answers_taken r ++ taken x

abbrev pub first_error : List (Option Error) → Option Error
first_error [] = none
first_error (none ∷ rest) = first_error rest
first_error (some e ∷ rest) = some e

first_error-none :
    (es : List (Option Error)) (fs : List (Option Error))
    → first_error es ≡ none
    → first_error (es ++ fs) ≡ first_error fs
first_error-none [] fs h = refl
first_error-none (none ∷ es) fs h = first_error-none es fs h
first_error-none (some e ∷ es) fs h = cc

first_error-some :
    (es fs : List (Option Error)) (e : Error)
    → first_error es ≡ some e
    → first_error (es ++ fs) ≡ some e
first_error-some [] fs e h = cc
first_error-some (none ∷ es) fs e h = first_error-some es fs e h
first_error-some (some x ∷ es) fs e h = h

append_nothing : (es : List (Option Error)) → es ++ [] ≡ es
append_nothing [] = refl
append_nothing (e ∷ es) = ap (λ (rest : List (Option Error)). e ∷ rest) (append_nothing es)

receive-first :
    (es : List (Option Error)) (e : Option Error) (s : Whole)
    → s.failure ≡ first_error es
    → (receive e s).failure ≡ first_error (es ++ e ∷ [])
unfolding receive
receive-first es none s h = elim (Option-cases (first_error es)) [
  | inl k ↦ h ∙ (k ∙ sym (first_error-none es (none ∷ []) k))
  | inr (x, k) ↦ h ∙ (k ∙ sym (first_error-some es (none ∷ []) x k))
]
receive-first es (some e) s h = elim (Option-cases (first_error es)) [
  | inl k ↦ let q : s.failure ≡ none = h ∙ k in rw q (sym (first_error-none es (some e ∷ []) k))
  | inr (x, k) ↦
      let q : s.failure ≡ some x = h ∙ k in rw q (sym (first_error-some es (some e ∷ []) x k))
]

taken-first :
    {set : Settings} {s t : Whole} (es : List (Option Error)) (x : Step set s t)
    → s.failure ≡ first_error es
    → t.failure ≡ first_error (es ++ taken x)
taken-first es (Step.outer_done s why k) h = h ∙ ap first_error (sym (append_nothing es))
taken-first es (Step.relay_goes s x) h = h ∙ ap first_error (sym (append_nothing es))
taken-first es (Step.relay_ends s k j) h = h ∙ ap first_error (sym (append_nothing es))
taken-first es (Step.cleaner_ends s e k j) h = h ∙ ap first_error (sym (append_nothing es))
taken-first es (Step.receives s {e = e} {rest} k) h =
    receive-first es e (record s { channel = rest; received = suc s.received }) h

-- `Run` holds the first error that it has taken.
pub failure-first :
    {set : Settings} (pool : Bool) (outer : Option Error) {s : Whole}
    (r : Reaches set (started set pool outer) s)
    → s.failure ≡ first_error (answers_taken r)
unfolding started
failure-first pool outer Reaches.starts = refl
failure-first pool outer (Reaches.steps r x) =
    taken-first (answers_taken r) x (failure-first pool outer r)
