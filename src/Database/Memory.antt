-- ===== src/Database/Memory.antt =====
-- src/database.cpp: `MemoryConnection` but its queries. Each operation holds the connection's mutex
-- for its whole body, so it is one step on the state.
pub mod Claim
pub mod Rows
use public_cpp_laravel.Prelude.{
  ℕ, Bool, true, false, not, ◌&&◌, List, [], ◌∷◌, ◌++◌, Option, none, some, ◌==◌, length,
  if◌then◌else◌, Text, codes, Dict, lookup, insert, text_key,
}
use public_cpp_laravel.Prelude.Int.{ℤ, pos, ◌+ℤ◌}
use public_cpp_laravel.Database.Value.{Float, Value, int, Row, value_eq, cell_is}

pub record Connection (D : Type 0) : Type 0 where
  pub tables : Dict Text (List (Row D))
  pub next_id : Dict Text ℤ
  pub snapshot : Option (Dict Text (List (Row D)) × Dict Text ℤ)

abbrev pub id_column : Text
id_column = codes "id"

abbrev pub with_id : {D : Type 0} → ℤ → Row D → Row D
with_id id row = insert id_column (int id) row

abbrev pub or_zero : Option ℤ → ℤ
or_zero none = pos 0
or_zero (some n) = n

abbrev pub rows_or_empty : {D : Type 0} → Option (List (Row D)) → List (Row D)
rows_or_empty none = []
rows_or_empty (some rows) = rows

module _ {D : Type 0} (fl : Float D) where
  abbrev pub has_id : ℤ → Row D → Bool
  has_id id r = cell_is fl (lookup id_column r) id

  -- `if (t == tables_.end()) return false`, then a loop over the table, which is written back.
  unfoldable pub in_table :
      Connection D
      → Text
      → (List (Row D) → Bool × List (Row D))
      → Option (List (Row D))
      → Bool × Connection D
  in_table c table loop none = (false, c)
  in_table c table loop (some rows) =
      let (hit, rows') = loop rows in (hit, record c { tables = insert table rows' c.tables })

  -- Returns the new id.
  unfoldable pub insert_row : Connection D → Text → Row D → ℤ × Connection D
  insert_row c table row =
      let id : ℤ = or_zero (lookup table c.next_id) +ℤ pos 1 in
      (
        id,
        record c {
          next_id = insert table id c.next_id;
          tables =
              insert table (rows_or_empty (lookup table c.tables) ++ (with_id id row ∷ []))
                c.tables;
        },
      )

  unfoldable pub find_row : ℤ → List (Row D) → Option (Row D)
  find_row id [] = none
  find_row id (r ∷ rows) = if has_id id r then some r else find_row id rows

  unfoldable pub find : Connection D → Text → ℤ → Option (Row D)
  unfolding find_row
  find c table id = find_row id (rows_or_empty (lookup table c.tables))

  unfoldable pub all : Connection D → Text → List (Row D)
  all c table = rows_or_empty (lookup table c.tables)

  -- The loop of `update`: the rows and whether one was replaced.
  unfoldable pub update_rows : ℤ → Row D → List (Row D) → Bool × List (Row D)
  update_rows id row [] = (false, [])
  update_rows id row (r ∷ rows) =
      let (hit, rest) = update_rows id row rows in
      if has_id id r then (true, with_id id row ∷ rows) else (hit, r ∷ rest)

  unfoldable pub update : Connection D → Text → ℤ → Row D → Bool × Connection D
  unfolding update_rows in_table
  update c table id row = in_table c table (update_rows id row) (lookup table c.tables)

  unfoldable pub remove_rows : ℤ → List (Row D) → Bool × List (Row D)
  remove_rows id [] = (false, [])
  remove_rows id (r ∷ rows) =
      let (hit, rest) = remove_rows id rows in if has_id id r then (true, rest) else (hit, r ∷ rest)

  unfoldable pub remove : Connection D → Text → ℤ → Bool × Connection D
  unfolding remove_rows in_table
  remove c table id = in_table c table (remove_rows id) (lookup table c.tables)

  -- `g == end || !(g->second == guard_value)`, negated.
  unfoldable pub guard_holds : Option (Value D) → Value D → Bool
  guard_holds none v = false
  guard_holds (some cell) v = value_eq fl cell v

  -- The loop of `update_if`; the first row with the id decides.
  unfoldable pub update_if_rows : ℤ → Text → Value D → Row D → List (Row D) → Bool × List (Row D)
  unfolding guard_holds
  update_if_rows id col guard row [] = (false, [])
  update_if_rows id col guard row (r ∷ rows) =
      let (hit, rest) = update_if_rows id col guard row rows in
      if has_id id r
      then (if guard_holds (lookup col r) guard
          then (true, with_id id row ∷ rows)
          else (false, r ∷ rows))
      else (hit, r ∷ rest)

  unfoldable pub update_if : Connection D → Text → ℤ → Text → Value D → Row D → Bool × Connection D
  unfolding update_if_rows in_table
  update_if c table id col guard row =
      in_table c table (update_if_rows id col guard row) (lookup table c.tables)

  unfoldable pub begin : Connection D → Connection D
  begin c = record c { snapshot = some (c.tables, c.next_id) }

  unfoldable pub commit : Connection D → Connection D
  commit c = record c { snapshot = none }

  unfoldable pub restore :
      Option (Dict Text (List (Row D)) × Dict Text ℤ) → Connection D → Connection D
  restore none c = c
  restore (some (tables, ids)) c = record { tables = tables; next_id = ids; snapshot = none }

  unfoldable pub rollback : Connection D → Connection D
  unfolding restore
  rollback c = restore c.snapshot c
