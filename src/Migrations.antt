-- ===== src/Migrations.antt =====
-- migrations/migrations.go: `Up`. The embedded file system is filled by the build, so its two operations
-- are parameters.
pub mod Sorting
pub mod Order
pub mod Contents
pub mod Backfill
pub mod Examples
use pg_outbox.Base.{
  Bool, true, false, ◌||◌, ◌⊎◌, inl, inr, List, [], ◌∷◌, ltb, if◌then◌else◌, select,
}
use pg_outbox.Base.Text.{◌==◌ as ◌=s=◌}
use Prim.Native.Char.{code}
use Prim.Native.String.{String}
use pg_outbox.Port.{Error, PanicValue, error}
use pg_outbox.Table.{sort}

-- `embed.FS`: the names of the entries, and the contents of a file.
pub record Files : Type 0 where
  pub read_dir : Error ⊎ List String
  pub read_file : String → Error ⊎ String

-- `strings.HasSuffix`
unfoldable pub has_suffix : String → String → Bool
has_suffix String.[] suffix = "" =s= suffix
has_suffix (String.◌∷◌ c s) suffix = String.◌∷◌ c s =s= suffix || has_suffix s suffix

-- `s <= t` of Go, which compares bytes: for UTF-8 that is the order of the code points.
unfoldable pub text_le : String → String → Bool
text_le String.[] t = true
text_le (String.◌∷◌ c s) String.[] = false
text_le (String.◌∷◌ c s) (String.◌∷◌ d t) =
    if ltb (code c) (code d) then true else if ltb (code d) (code c) then false else text_le s t

abbrev pub is_sql : String → Bool
is_sql name = has_suffix name ".sql"

-- The loop over the entries, and `sort.Strings`.
abbrev pub sql_names : List String → List String
sql_names entries = sort text_le (select is_sql entries)

abbrev pub with_contents : Error ⊎ String → PanicValue ⊎ List String → PanicValue ⊎ List String
with_contents (inl e) rest = inl (error e)
with_contents (inr b) (inl v) = inl v
with_contents (inr b) (inr out) = inr (b ∷ out)

-- The loop that reads the files, which panics at the first error.
unfoldable pub read_all : (String → Error ⊎ String) → List String → PanicValue ⊎ List String
read_all read_file [] = inr []
read_all read_file (n ∷ names) = with_contents (read_file n) (read_all read_file names)

-- `Up`: a panic, or the contents.
unfoldable pub up : Files → PanicValue ⊎ List String
up files = elim files.read_dir [
  | inl e ↦ inl (error e)
  | inr entries ↦ read_all files.read_file (sql_names entries)
]
