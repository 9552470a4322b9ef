-- ===== src/Migrations/Order.antt =====
-- The order of the file names is total.
use mathlib.Core.Path.{ap₂}
use pg_outbox.Base.{◌≡◌, refl, inl, inr, true, false, arith, Bool-cases, ltb}
use Prim.Native.Char.{Char, code}
use Prim.Native.String.{String}
use text.Mathlib.TextEquality.{Char-path}
use pg_outbox.Migrations.{text_le}
use pg_outbox.Migrations.Sorting.{TotalOrder}

pub text_le_total : (s t : String) → text_le s t ≡ false → text_le t s ≡ true
unfolding text_le
text_le_total String.[] t h = cc
text_le_total (String.◌∷◌ c s) String.[] h = refl
text_le_total (String.◌∷◌ c s) (String.◌∷◌ d t) h = ground (arith, text_le_total s t)

same_code : (c d : Char) → ltb (code c) (code d) ≡ false → ltb (code d) (code c) ≡ false → c ≡ d
same_code c d h k = Char-path c d (ground arith)

pub text_le_antisym : (s t : String) → text_le s t ≡ true → text_le t s ≡ true → s ≡ t
unfolding text_le
text_le_antisym String.[] String.[] h k = refl
text_le_antisym String.[] (String.◌∷◌ d t) h k = cc
text_le_antisym (String.◌∷◌ c s) String.[] h k = cc
text_le_antisym (String.◌∷◌ c s) (String.◌∷◌ d t) h k = elim (Bool-cases (ltb (code c) (code d))) [
  | inl e ↦ absurd (ground arith)
  | inr e ↦ elim (Bool-cases (ltb (code d) (code c))) [
    | inl f ↦ absurd (ground arith)
    | inr f ↦ ap₂ String.◌∷◌ (same_code c d e f) (text_le_antisym s t (ground arith) (ground arith))
  ]
]

pub text_le_trans : (s t u : String) → text_le s t ≡ true → text_le t u ≡ true → text_le s u ≡ true
unfolding text_le
text_le_trans String.[] t u h k = refl
text_le_trans (String.◌∷◌ c s) String.[] u h k = cc
text_le_trans (String.◌∷◌ c s) (String.◌∷◌ d t) String.[] h k = cc
text_le_trans (String.◌∷◌ c s) (String.◌∷◌ d t) (String.◌∷◌ e u) h k =
    ground (arith, text_le_trans s t u)

abbrev pub text_order : TotalOrder String
text_order = record {
  le = text_le;
  total = text_le_total;
  antisym = text_le_antisym;
  trans = text_le_trans;
}
