-- ===== src/Config/Schema/Quoting.antt =====
-- The quoted name of the table, as PostgreSQL reads a quoted identifier.
use pg_outbox.Base.{
  ℕ, ◌≡◌, refl, ap, ◌∙◌, Bool, true, false, ◌&&◌, Option, none, some, arith, if◌then◌else◌, ◌==◌,
}
use Prim.Native.Char.{Char, code}
use Prim.Native.String.{String, ◌++◌ as ◌<>◌}
use Prim.Native.String.append as Append
use pg_outbox.Config.Schema.{
  starts_name, continues_name, all_continue, valid_schema, write_quoted, quoted, table_base,
  table_of,
}

&&-true : (a b : Bool) → (a && b) ≡ true → (a ≡ true) × (b ≡ true)
&&-true true b h = (refl, h)
&&-true false b h = cc

abbrev push_char : Char → Option (String × String) → Option (String × String)
push_char c none = none
push_char c (some (s, rest)) = some (String.◌∷◌ c s, rest)

-- The text up to the closing quote, where two quotes stand for one, and what follows it. The flag
-- says whether the last character was a quote.
unfoldable pub read_quoted : Bool → String → Option (String × String)
read_quoted true String.[] = some ("", "")
read_quoted false String.[] = none
read_quoted true (String.◌∷◌ c s) =
    if code c == 34 then push_char c (read_quoted false s) else some ("", String.◌∷◌ c s)
read_quoted false (String.◌∷◌ c s) =
    if code c == 34 then read_quoted true s else push_char c (read_quoted false s)

-- A quoted identifier at the start of a text, and what follows it.
unfoldable pub read_identifier : String → Option (String × String)
read_identifier String.[] = none
read_identifier (String.◌∷◌ c s) = if code c == 34 then read_quoted false s else none

continues_plain : (n : ℕ) → continues_name n ≡ true → (n == 34) ≡ false
unfolding continues_name
continues_plain n h = ground arith

starts_continues : (n : ℕ) → starts_name n ≡ true → continues_name n ≡ true
unfolding starts_name continues_name
starts_continues n h = ground arith

valid_schema-all_continue : (s : String) → valid_schema s ≡ true → all_continue s ≡ true
unfolding valid_schema all_continue
valid_schema-all_continue String.[] h = refl
valid_schema-all_continue (String.◌∷◌ c s) h = ground (arith, starts_continues (code c))

write_plain :
    (other : Char → String) (c : Char) (rest : String)
    → continues_name (code c) ≡ true
    → write_quoted other c rest ≡ String.◌∷◌ c rest
unfolding continues_name
write_plain other c rest h = ground arith

read_quoted-quoted :
    (other : Char → String) (s : String)
    → all_continue s ≡ true
    → read_quoted false (quoted other s ("\"." <> table_base)) ≡ some (s, "." <> table_base)
unfolding read_quoted quoted all_continue
read_quoted-quoted other String.[] h = refl
read_quoted-quoted other (String.◌∷◌ c s) h =
    let first : continues_name (code c) ≡ true =
      (&&-true (continues_name (code c)) (all_continue s) h).0 in
    let later : all_continue s ≡ true = (&&-true (continues_name (code c)) (all_continue s) h).1 in
    ap (read_quoted false) (write_plain other c (quoted other s ("\"." <> table_base)) first)
    ∙ rw (continues_plain (code c) first) (ap (push_char c) (read_quoted-quoted other s later))

-- The table's name is the schema as one quoted identifier, followed by a dot and the fixed name, for
-- every schema that `ValidSchema` accepts: no such schema ends the identifier early or is changed by
-- the quoting.
pub read_identifier-table_of :
    (other : Char → String) (schema : String)
    → valid_schema schema ≡ true
    → read_identifier (table_of other schema) ≡ some (schema, "." <> table_base)
unfolding table_of read_identifier
read_identifier-table_of other schema h =
    ap read_identifier (Append.cons _ "" (quoted other schema ("\"." <> table_base)))
    ∙ ap (read_quoted false) (Append.nil (quoted other schema ("\"." <> table_base)))
    ∙ read_quoted-quoted other schema (valid_schema-all_continue schema h)
