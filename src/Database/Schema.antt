-- ===== src/Database/Schema.antt =====
-- include/schema.hpp: `Blueprint` and `Schema`, over the in-memory connection, whose `statement` does
-- nothing.
use public_cpp_laravel.Prelude.{
  Bool, true, false, List, [], ◌∷◌, ◌++◌, Option, none, some, if◌then◌else◌, Text, codes,
}
use public_cpp_laravel.Database.Memory.{Connection}

-- `cols_`.
abbrev pub Blueprint : Type 0
Blueprint = List Text

unfoldable pub id_col : Blueprint → Blueprint
id_col cols = cols ++ (codes "id INTEGER PRIMARY KEY AUTOINCREMENT" ∷ [])

unfoldable pub integer_col : Text → Blueprint → Blueprint
integer_col name cols = cols ++ ((name ++ codes " INTEGER NOT NULL DEFAULT 0") ∷ [])

unfoldable pub boolean_col : Text → Blueprint → Blueprint
boolean_col name cols = cols ++ ((name ++ codes " INTEGER NOT NULL DEFAULT 0") ∷ [])

unfoldable pub string_col : Text → Blueprint → Blueprint
string_col name cols = cols ++ ((name ++ codes " TEXT NOT NULL DEFAULT ''") ∷ [])

unfoldable pub real_col : Text → Blueprint → Blueprint
real_col name cols = cols ++ ((name ++ codes " REAL NOT NULL DEFAULT 0") ∷ [])

-- The loop's columns from the second on.
abbrev more_cols : Blueprint → Text
more_cols [] = []
more_cols (col ∷ cols) = codes ", " ++ col ++ more_cols cols

abbrev join_cols : Blueprint → Text
join_cols [] = []
join_cols (col ∷ cols) = col ++ more_cols cols

unfoldable pub create_sql : Blueprint → Text → Bool → Text
create_sql cols table if_not_exists =
    codes "CREATE TABLE "
    ++ (if if_not_exists then codes "IF NOT EXISTS " else [])
    ++ table
    ++ codes " ("
    ++ join_cols cols
    ++ codes ")"

module _ {D : Type 0} where
  unfoldable pub statement : Text → Connection D → Connection D
  statement sql c = c

  -- `define` may throw.
  abbrev run_create : Text → Bool → Option Blueprint → Connection D → Bool × Connection D
  unfolding statement create_sql
  run_create table if_not_exists none c = (false, c)
  run_create table if_not_exists (some cols) c =
      (true, statement (create_sql cols table if_not_exists) c)

  unfoldable pub create : Text → (Blueprint → Option Blueprint) → Connection D → Bool × Connection D
  unfolding statement create_sql
  create table define c = run_create table false (define []) c

  unfoldable pub create_if_not_exists :
      Text → (Blueprint → Option Blueprint) → Connection D → Bool × Connection D
  unfolding statement create_sql
  create_if_not_exists table define c = run_create table true (define []) c

  unfoldable pub drop_if_exists : Text → Connection D → Connection D
  unfolding statement
  drop_if_exists table c = statement (codes "DROP TABLE IF EXISTS " ++ table) c
