-- ===== src/Config/Schema.antt =====
-- config/config.go: `ValidSchema`; engine/store.go: `NewStore`, which quotes the schema. What a text is
-- made of is read by its characters.
pub mod Quoting
use pg_outbox.Base.{
  ℕ, ◌≡◌, refl, ap, ◌∙◌, Bool, true, false, ◌&&◌, ◌||◌, Option, none, some, arith, leb, inl, inr,
  if◌then◌else◌, Bool-cases, ◌==◌,
}
use Prim.Native.Char.{Char, code}
use Prim.Native.String.{String, ◌++◌ as ◌<>◌}
use Prim.Native.String.append as Append

abbrev is_letter : ℕ → Bool
is_letter n = leb 65 n && leb n 90 || leb 97 n && leb n 122

abbrev is_digit : ℕ → Bool
is_digit n = leb 48 n && leb n 57

-- `[A-Za-z_]` and `[A-Za-z0-9_]`
unfoldable pub starts_name : ℕ → Bool
starts_name n = is_letter n || n == 95

unfoldable pub continues_name : ℕ → Bool
continues_name n = is_letter n || is_digit n || n == 95

-- `[A-Za-z0-9_]*$`
unfoldable pub all_continue : String → Bool
all_continue String.[] = true
all_continue (String.◌∷◌ c s) = continues_name (code c) && all_continue s

-- `ValidSchema`
unfoldable pub valid_schema : String → Bool
valid_schema String.[] = false
valid_schema (String.◌∷◌ c s) = starts_name (code c) && all_continue s

-- How the verb `%q` writes one character; `other` writes those that are not printable ASCII.
abbrev pub write_quoted : (Char → String) → Char → String → String
write_quoted other c rest =
    if code c == 34
    then "\\\"" <> rest
    else if code c == 92
    then "\\\\" <> rest
    else if leb 32 (code c) && leb (code c) 126
    then String.◌∷◌ c rest
    else other c <> rest

unfoldable pub quoted : (Char → String) → String → String → String
quoted other String.[] rest = rest
quoted other (String.◌∷◌ c s) rest = write_quoted other c (quoted other s rest)

abbrev pub table_base : String
table_base = "outbox_messages"

-- `fmt.Sprintf("%q.%s", schema, message.TableName)`
unfoldable pub table_of : (Char → String) → String → String
table_of other schema = "\"" <> quoted other schema ("\"." <> table_base)
