-- ===== src/Database/Migration.antt =====
-- include/migration.hpp: `Migration` and `Migrator`, over the in-memory connection. A step says whether
-- it returned; where it is false it threw, with the connection as it was then.
pub mod Rerun
use mathlib.Core.List.{reverse}
use mathlib.Core.Option
use public_cpp_laravel.Prelude.{
  Bool, true, false, not, List, [], ◌∷◌, ◌++◌, Option, none, some, if◌then◌else◌, is_empty, Text,
  codes, insert, text_key,
}
use public_cpp_laravel.Prelude.Int.{pos}
use public_cpp_laravel.Database.Value.{Float, Value, str, Row}
use public_cpp_laravel.Database.Memory.{Connection, insert_row}
use public_cpp_laravel.Database.Select.{Op, WhereClause, Query, select}
use public_cpp_laravel.Database.Schema.{statement}

abbrev pub Step : Type 0 → Type 0
Step D = Connection D → Bool × Connection D

-- What a `Migration` provides.
pub record Migration (D : Type 0) : Type 0 where
  pub name : Text
  pub up : Step D
  pub down : Step D

abbrev pub migrations_table : Text
migrations_table = codes "migrations"

abbrev pub name_is : {D : Type 0} → Text → WhereClause D
name_is name = record { column = codes "name"; op = Op.eq; value = str name; values = [] }

unfoldable pub ensure_table : {D : Type 0} → Connection D → Connection D
unfolding statement
ensure_table c =
    statement
      (codes "CREATE TABLE IF NOT EXISTS migrations (id INTEGER PRIMARY KEY "
        ++ codes "AUTOINCREMENT, name TEXT NOT NULL DEFAULT '')")
      c

module _ {D : Type 0} (fl : Float D) where
  unfoldable pub applied : Connection D → Text → Option Bool
  unfolding select
  applied c name =
      Option.map (λ rows. not (is_empty rows))
        (select fl c migrations_table
          (record { wheres = name_is name ∷ []; order = none; limit = none; offset = none }))

  -- `record`, a word of the language.
  unfoldable pub record_name : Text → Connection D → Connection D
  unfolding insert_row insert
  record_name name c = (insert_row fl c migrations_table (insert (codes "name") (str name) [])).1

  unfoldable pub forget : Text → Connection D → Connection D
  unfolding statement
  forget name c = statement (codes "DELETE FROM migrations WHERE name = '" ++ name ++ codes "'") c

  -- The rest of a loop's round, behind a step: the exception ends the loop.
  abbrev pub then_go : Step D → Bool × Connection D → Bool × Connection D
  then_go rest (false, c) = (false, c)
  then_go rest (true, c) = rest c

  abbrev pub run_one : Migration D → Step D → Option Bool → Step D
  run_one m rest none c = (false, c)
  run_one m rest (some true) c = rest c
  run_one m rest (some false) c = then_go (λ c'. rest (record_name m.name c')) (m.up c)

  unfoldable pub run_each : List (Migration D) → Step D
  unfolding applied record_name
  run_each [] c = (true, c)
  run_each (m ∷ ms) c = run_one m (run_each ms) (applied c m.name) c

  unfoldable pub run : List (Migration D) → Step D
  unfolding run_each ensure_table
  run ms c = run_each ms (ensure_table c)

  abbrev pub rollback_one : Migration D → Step D → Option Bool → Step D
  rollback_one m rest none c = (false, c)
  rollback_one m rest (some false) c = rest c
  rollback_one m rest (some true) c = then_go (λ c'. rest (forget m.name c')) (m.down c)

  unfoldable pub rollback_each : List (Migration D) → Step D
  unfolding applied forget
  rollback_each [] c = (true, c)
  rollback_each (m ∷ ms) c = rollback_one m (rollback_each ms) (applied c m.name) c

  unfoldable pub rollback : List (Migration D) → Step D
  unfolding rollback_each ensure_table
  rollback ms c = rollback_each (reverse ms) (ensure_table c)
