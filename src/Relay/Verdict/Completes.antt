-- ===== src/Relay/Verdict/Completes.antt =====
-- Parts of a pass that settle all of their messages whenever they report no error.

use pg_outbox.Base.{
  ◌≡◌, refl, subst, sym, ◌⊎◌, inl, inr, Bool, true, false, Option, none, List, if◌then◌else◌,
}
use pg_outbox.Config.{Settings}
use pg_outbox.Message.{Message}
use pg_outbox.Port.{Error}
use pg_outbox.Table.Rows.{UniqueIds}
use pg_outbox.Relay.{Env, World, M, returns, return, ◌>>=◌}
use pg_outbox.Relay.Returns.{>>=-returns, return-returns}
use pg_outbox.Relay.Keeps.{Keeps, Keeps-returns, Keeps-bind, Keeps-return}
use pg_outbox.Relay.Verdict.Done.{DoneIn, progress, Done-later, Done-earlier}

-- Whenever `m` returns a result that is clean, each message that it is about has been settled.
pub record Completes {A : Type 0} (set : Settings) (outcome : Message → Option Error)
    (Clean : A → Type 0) (About : Message → Type 0) (m : M A) : Type 0 where
  pub at :
      (w u : World) (a : A)
      → m w ≡ (returns a, u)
      → Clean a
      → UniqueIds w.table.rows
      → (x : Message) → About x
      → DoneIn set outcome w.table u.table x

abbrev pub NoError : Option Error → Type 0
NoError e = e ≡ none

-- Nothing to settle.
pub Completes-nothing :
    {A : Type 0} {set : Settings} {outcome : Message → Option Error} {Clean : A → Type 0}
    {About : Message → Type 0} {m : M A}
    → ((x : Message) → ¬ (About x))
    → Completes set outcome Clean About m
Completes-nothing empty = record { at = λ w u a h c unique x about. absurd (empty x about) }

pub Completes-fewer :
    {A : Type 0} {set : Settings} {outcome : Message → Option Error} {Clean : A → Type 0}
    {About Fewer : Message → Type 0} {m : M A}
    → Completes set outcome Clean About m
    → ((x : Message) → Fewer x → About x)
    → Completes set outcome Clean Fewer m
Completes-fewer c f = record {
  at = λ w u a h clean unique x few. c.at w u a h clean unique x (f x few);
}

pub Completes-cases :
    {A : Type 0} {set : Settings} {outcome : Message → Option Error} {Clean : A → Type 0}
    {About : Message → Type 0} (b : Bool) {m n : M A}
    → (b ≡ true → Completes set outcome Clean About m)
    → (b ≡ false → Completes set outcome Clean About n)
    → Completes set outcome Clean About (if b then m else n)
Completes-cases true cm cn = cm refl
Completes-cases false cm cn = cn refl

-- The result is made of the one of the first part.
pub Completes-then :
    {A B : Type 0} {set : Settings} {outcome : Message → Option Error} {Clean : B → Type 0}
    {Part : A → Type 0} {About : Message → Type 0} (m : M A) (g : A → B)
    → Completes set outcome Part About m
    → ((a : A) → Clean (g a) → Part a)
    → Completes set outcome Clean About (m >>= λ a. return (g a))
Completes-then {set} {outcome} {Clean} m g cm clean = record {
  at = λ w u b h c unique x about.
      let (a, v, ran, rest) = >>=-returns m (λ a. return (g a)) w u h in
      let (same, left) = return-returns (g a) b v u rest in
      subst (λ (y : World). DoneIn set outcome w.table y.table x) left
        (cm.at w v a ran (clean a (subst Clean (sym same) c)) unique x about);
}

module _ (env : Env) (set : Settings) (batch : List Message)
    (outcome : Message → Option Error) where
  pub Completes-bind :
      {A B : Type 0} {Clean : B → Type 0} {Part : A → Type 0}
      {About First Second : Message → Type 0} (m : M A) (f : A → M B)
      → Keeps (progress env set batch outcome) m
      → ((a : A) → Keeps (progress env set batch outcome) (f a))
      → Completes set outcome Part First m
      → ((a : A) → Completes set outcome Clean Second (f a))
      → ((a : A) (b : B) (v u : World) → f a v ≡ (returns b, u) → Clean b → Part a)
      → ((x : Message) → About x → First x ⊎ Second x)
      → Completes set outcome Clean About (m >>= f)
  Completes-bind m f km kf cm cf clean parts = record {
    at = λ w u b h c unique x about.
        let (a, v, ran, rest) = >>=-returns m f w u h in
        let before = Keeps-returns w v a km ran in
        elim (parts x about) [
          | inl first ↦
              Done-later env set batch outcome
                (cm.at w v a ran (clean a b v u rest c) unique x first)
                (Keeps-returns v u b (kf a) rest)
          | inr second ↦
              Done-earlier env set batch outcome before
                ((cf a).at v u b rest c (before.unique unique) x second)
        ];
  }

  -- Two parts, whose results make the result.
  pub Completes-both :
      {A B C : Type 0} {Clean : C → Type 0} {Part : A → Type 0} {Rest : B → Type 0}
      {About First Second : Message → Type 0} (m : M A) (n : M B) (g : A → B → C)
      → Keeps (progress env set batch outcome) m
      → Keeps (progress env set batch outcome) n
      → Completes set outcome Part First m
      → Completes set outcome Rest Second n
      → ((a : A) (b : B) → Clean (g a b) → Part a × Rest b)
      → ((x : Message) → About x → First x ⊎ Second x)
      → Completes set outcome Clean About (m >>= λ a. n >>= λ b. return (g a b))
  Completes-both {Clean} m n g km kn cm cn clean parts =
      Completes-bind m (λ a. n >>= λ b. return (g a b)) km
        (λ a. Keeps-bind n (λ b. return (g a b)) kn (λ b. Keeps-return (g a b))) cm
        (λ a. Completes-then n (g a) cn (λ b c. (clean a b c).1))
        (λ a c v u h is_clean.
          let (b, v', _, rest) = >>=-returns n (λ b. return (g a b)) v u h in
          (clean a b (subst Clean (sym (return-returns (g a b) c v' u rest).0) is_clean)).0)
        parts

  -- A first part that settles nothing.
  pub Completes-after :
      {A B : Type 0} {Clean : B → Type 0} {About : Message → Type 0} (m : M A) (f : A → M B)
      → Keeps (progress env set batch outcome) m
      → ((a : A) → Completes set outcome Clean About (f a))
      → Completes set outcome Clean About (m >>= f)
  Completes-after m f km cf = record {
    at = λ w u b h c unique x about.
        let (a, v, ran, rest) = >>=-returns m f w u h in
        let before = Keeps-returns w v a km ran in
        Done-earlier env set batch outcome before
          ((cf a).at v u b rest c (before.unique unique) x about);
  }
