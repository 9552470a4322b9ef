-- ===== src/Migrations/Contents.antt =====
-- What `Up` returns.
use mathlib.Core.List.{Memᴰ, Permᴰ}
use pg_outbox.Base.{◌≡◌, refl, ap, ◌⊎◌, inl, inr, List, [], ◌∷◌, map, select}
use Prim.Native.String.{String}
use pg_outbox.Port.{Error, PanicValue, error}
use pg_outbox.Migrations.{Files, is_sql, sql_names, with_contents, read_all, up}
use pg_outbox.Migrations.Sorting.{Sorted, sort-Perm, sort-Sorted, sort-unordered, select-Perm}
use pg_outbox.Migrations.Order.{text_order}

-- All files are read, in their order, or one cannot be.
abbrev pub AllOrFailed : Files → List String → PanicValue ⊎ List String → Type 0
AllOrFailed files names result =
    ((out : List String) × (result ≡ inr out) × (map files.read_file names ≡ map inr out))
    ⊎ ((n : String) × (e : Error) × Memᴰ n names
        × (files.read_file n ≡ inl e)
        × (result ≡ inl (error e)))

read_all-cases :
    (files : Files) (names : List String) → AllOrFailed files names (read_all files.read_file names)
unfolding read_all
read_all-cases files [] = inl ([], refl, refl)
read_all-cases files (n ∷ names) = split (files.read_file n) refl (read_all-cases files names)
  where
    split :
        (r : Error ⊎ String)
        → files.read_file n ≡ r
        → AllOrFailed files names (read_all files.read_file names)
        → AllOrFailed files
            (n ∷ names)
            (with_contents (files.read_file n) (read_all files.read_file names))
    split (inl e) h all = inr (n, e, Memᴰ.head refl, h, rw h refl)
    split (inr b) h (inl (out, done, same)) = inl (b ∷ out, rw (h, done) refl, rw (h, same) refl)
    split (inr b) h (inr (m, e, there, failed, done)) =
        inr (m, e, Memᴰ.tail there, failed, rw (h, done) refl)

-- `Up` returns the contents of exactly the `.sql` files of the directory, each once, in the order of
-- their names; if the directory or one of these files cannot be read it panics with that error.
pub up-cases :
    (files : Files)
    → ((e : Error) × (files.read_dir ≡ inl e) × (up files ≡ inl (error e)))
      ⊎ ((entries names : List String) × (files.read_dir ≡ inr entries)
          × Sorted text_order names
          × Permᴰ names (select is_sql entries)
          × AllOrFailed files names (up files))
unfolding up
up-cases files = split files.read_dir refl
  where
    split :
        (r : Error ⊎ List String)
        → files.read_dir ≡ r
        → ((e : Error) × (files.read_dir ≡ inl e) × (up files ≡ inl (error e)))
          ⊎ ((entries names : List String) × (files.read_dir ≡ inr entries)
              × Sorted text_order names
              × Permᴰ names (select is_sql entries)
              × AllOrFailed files names (up files))
    split (inl e) h = inl (e, h, rw h refl)
    split (inr entries) h = inr (
      entries,
      sql_names entries,
      h,
      sort-Sorted text_order (select is_sql entries),
      sort-Perm text_order (select is_sql entries),
      rw h (read_all-cases files (sql_names entries)),
    )

-- The order in which the directory lists its files does not matter.
pub up_unordered :
    (files : Files) (entries listed : List String)
    → Permᴰ entries listed
    → up (record files { read_dir = inr entries }) ≡ up (record files { read_dir = inr listed })
unfolding up
up_unordered files entries listed p =
    ap (read_all files.read_file) (sort-unordered text_order (select-Perm is_sql p))
