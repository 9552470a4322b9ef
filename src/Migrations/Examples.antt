-- ===== src/Migrations/Examples.antt =====
-- `Up` on a small directory.
use pg_outbox.Base.{arith, some, ◌≡◌, refl, ◌⊎◌, inl, inr, List, [], ◌∷◌, select, if◌then◌else◌}
use pg_outbox.Config.{Settings, default}
use pg_outbox.Base.Int.{pos}
use pg_outbox.Message.{dead}
use pg_outbox.Table.{Row, Table}
use pg_outbox.Store.Samples.{at, due_row, held_row}
use pg_outbox.Store.Upkeep.{cleanup_rows}
use pg_outbox.Migrations.Backfill.{give_end, backfill_rows, backfill_keeps_dead}
use mathlib.Core.List.{Memᴰ, Permᴰ}
use pg_outbox.Base.Text.{◌==◌ as ◌=s=◌, String-discrete}
use Prim.Native.String.{String}
use pg_outbox.Port.{Error, plain, error}
use pg_outbox.Migrations.{Files, has_suffix, text_le, is_sql, read_all, up}
use pg_outbox.Migrations.Sorting.{Sorted}
use pg_outbox.Migrations.Order.{text_order}
use pg_outbox.Migrations.Contents.{AllOrFailed, up-cases}

abbrev directory : List String
directory = "0002_b.sql" ∷ "README.md" ∷ "0001_a.sql" ∷ []

abbrev files : Files
files = record {
  read_dir = inr directory;
  read_file = λ name.
      if name =s= "0001_a.sql"
      then inr "CREATE TABLE a"
      else if name =s= "0002_b.sql"
      then inr "CREATE TABLE b"
      else inl (plain "file does not exist");
}

-- The other files are left out, and the rest is in order.
in_order : up files ≡ inr ("CREATE TABLE a" ∷ "CREATE TABLE b" ∷ [])
unfolding up read_all has_suffix text_le String-discrete
in_order = refl

up-cases_example :
    ((e : Error) × (files.read_dir ≡ inl e) × (up files ≡ inl (error e)))
    ⊎ ((entries names : List String) × (files.read_dir ≡ inr entries)
        × Sorted text_order names
        × Permᴰ names (select is_sql entries)
        × AllOrFailed files names (up files))
up-cases_example = up-cases files

-- A dead row of an earlier version, which is old.
abbrev old_dead : Row
old_dead = record due_row { status = dead; attempts = 9; created_at = 1 }

abbrev old_table : Table
old_table = record { rows = old_dead ∷ held_row ∷ []; next_seq = 2 }

abbrev keeps_a_while : Settings
keeps_a_while = record default { dead_retention = pos 50 }

backfill_keeps_dead_example :
    Memᴰ
      (give_end (at 100) old_dead)
      (cleanup_rows (at 140) keeps_a_while (backfill_rows (at 100) old_table)).rows
    × ((give_end (at 100) old_dead).finished_at ≡ some 100)
unfolding String-discrete
backfill_keeps_dead_example =
    backfill_keeps_dead (at 100) (at 140) keeps_a_while old_table old_dead (refl, (refl, tt))
      (Memᴰ.head refl) refl refl refl (omega arith)
