-- ===== src/Publishers/Valkey/Prefix.antt =====
-- The names of the fields for a message's headers: a prefix before the header's name.
use pg_outbox.Base.{ℕ, ◌≡◌, sym, ap, ◌∙◌, ◌≢◌, inl, inr, false, Bool-cases, arith}
use Prim.Native.Char.{code}
use Prim.Native.String.{String, ◌++◌ as ◌<>◌}
use Prim.Native.String.append as Append
use text.Mathlib.TextEquality.{eq_iff}
use pg_outbox.Base.Text.{◌==◌ as ◌=s=◌, eq_of_==, ==_self}
use pg_outbox.Publishers.Valkey.{header_prefix}

abbrev pub head_code : String → ℕ
head_code String.[] = 0
head_code (String.◌∷◌ c s) = code c

-- A name that does not start with an "h" is no name of a header's field.
pub prefix_apart :
    (k name : String) → head_code name ≢ 104 → ((header_prefix <> k) =s= name) ≡ false
prefix_apart k name other = elim (Bool-cases ((header_prefix <> k) =s= name)) [
  | inr e ↦ e
  | inl e ↦ absurd (
      other (
        sym (ap head_code (eq_of_== (header_prefix <> k) name e))
        ∙ ap head_code (Append.cons _ "eader." k)))
]

abbrev tail_of : String → String
tail_of String.[] = String.[]
tail_of (String.◌∷◌ c s) = s

abbrev without_prefix : String → String
without_prefix s = tail_of (tail_of (tail_of (tail_of (tail_of (tail_of (tail_of s))))))

without_prefix_lem : (k : String) → without_prefix (header_prefix <> k) ≡ k
without_prefix_lem k =
    ap without_prefix (Append.cons _ "eader." k)
    ∙ ap (λ (s : String). tail_of (tail_of (tail_of (tail_of (tail_of (tail_of s))))))
        (Append.cons _ "ader." k)
    ∙ ap (λ (s : String). tail_of (tail_of (tail_of (tail_of (tail_of s)))))
        (Append.cons _ "der." k)
    ∙ ap (λ (s : String). tail_of (tail_of (tail_of (tail_of s)))) (Append.cons _ "er." k)
    ∙ ap (λ (s : String). tail_of (tail_of (tail_of s))) (Append.cons _ "r." k)
    ∙ ap (λ (s : String). tail_of (tail_of s)) (Append.cons _ "." k)
    ∙ ap tail_of (Append.cons _ "" k)
    ∙ Append.nil k

apart_of : (j k : String) → (j =s= k) ≡ false → j ≢ k
apart_of j k e r = cc (e, ap (λ (x : String). j =s= x) (sym r) ∙ ==_self j)

pub prefix_eq : (j k : String) → ((header_prefix <> j) =s= (header_prefix <> k)) ≡ (j =s= k)
prefix_eq j k = elim (Bool-cases (j =s= k)) [
  | inl e ↦
      ap (λ (x : String). (header_prefix <> j) =s= (header_prefix <> x)) (sym (eq_of_== j k e))
      ∙ ==_self (header_prefix <> j)
      ∙ sym e
  | inr e ↦ elim (Bool-cases ((header_prefix <> j) =s= (header_prefix <> k))) [
    | inr f ↦ f ∙ sym e
    | inl f ↦ absurd (
        apart_of j k e (
          sym (without_prefix_lem j)
          ∙ ap without_prefix (eq_of_== (header_prefix <> j) (header_prefix <> k) f)
          ∙ without_prefix_lem k))
  ]
]

pub prefix_apart_rev :
    (name k : String) → head_code name ≢ 104 → (name =s= (header_prefix <> k)) ≡ false
prefix_apart_rev name k other = ground (
  arith,
  eq_iff name (header_prefix <> k),
  eq_iff (header_prefix <> k) name,
  prefix_apart k name other,
)
