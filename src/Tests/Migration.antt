-- ===== src/Tests/Migration.antt =====
-- A migration that is run, run again, and rolled back.
use public_cpp_laravel.Prelude.{
  ℕ, ◌≡◌, refl, true, [], ◌∷◌, ◌++◌, none, codes, lookup, insert, lookup-insert, text_key,
}
use public_cpp_laravel.Prelude.Int.{pos, ◌+ℤ◌}
use public_cpp_laravel.Tests.Database.{whole, nothing}
use public_cpp_laravel.Database.Value.{int, str, value_eq}
use public_cpp_laravel.Database.Memory.{Connection, or_zero, with_id, insert_row, rows_or_empty}
use public_cpp_laravel.Database.Select.{
  passes, cell_passes, matches, order_rows, skip_rows, cut_rows, select,
}
use public_cpp_laravel.Database.Schema.{statement}
use public_cpp_laravel.Database.Migration.{
  Step, Migration, migrations_table, ensure_table, applied, record_name, forget, run_each, run,
  rollback_each, rollback,
}
use public_cpp_laravel.Database.Migration.Rerun.{Keeps, undo, run-rollback}

abbrev seed : Step ℕ
seed c = (true, (insert_row whole c (codes "u") ((codes "a", int (pos 1)) ∷ [])).1)

-- Empties the table.
abbrev unseed : Step ℕ
unseed c = (true, record c { tables = insert (codes "u") [] c.tables })

abbrev seeding : Migration ℕ
seeding = record { name = codes "m"; up = seed; down = unseed }

seed-Keeps : Keeps whole seed
unfolding applied select order_rows skip_rows cut_rows insert_row
seed-Keeps c name h =
    let id = or_zero (lookup (codes "u") c.next_id) +ℤ pos 1 in
    rw
      (lookup-insert (codes "u") migrations_table
        (rows_or_empty (lookup (codes "u") c.tables)
          ++ (with_id id ((codes "a", int (pos 1)) ∷ []) ∷ []))
        c.tables)
      h

unseed-Keeps : Keeps whole unseed
unfolding applied select order_rows skip_rows cut_rows
unseed-Keeps c name h = rw (lookup-insert (codes "u") migrations_table [] c.tables) h

abbrev unseeded : Connection ℕ
unseeded = record {
  tables =
      (codes "u", [])
      ∷ (migrations_table, ((codes "name", str (codes "m")) ∷ (codes "id", int (pos 1)) ∷ []) ∷ [])
      ∷ [];
  next_id = (codes "u", pos 1) ∷ (migrations_table, pos 1) ∷ [];
  snapshot = none;
}

abbrev seeded : Connection ℕ
seeded = record {
  tables =
      (codes "u", ((codes "a", int (pos 1)) ∷ (codes "id", int (pos 1)) ∷ []) ∷ [])
      ∷ (migrations_table, ((codes "name", str (codes "m")) ∷ (codes "id", int (pos 1)) ∷ []) ∷ [])
      ∷ [];
  next_id = (codes "u", pos 1) ∷ (migrations_table, pos 1) ∷ [];
  snapshot = none;
}

ran : run whole (seeding ∷ []) nothing ≡ (true, seeded)
unfolding run run_each ensure_table applied record_name statement select order_rows skip_rows
    cut_rows insert_row insert lookup passes cell_passes matches value_eq ◌+ℤ◌
ran = refl

rolled_back : rollback whole (seeding ∷ []) seeded ≡ (true, unseeded)
unfolding rollback rollback_each ensure_table applied forget statement select order_rows skip_rows
    cut_rows insert lookup passes cell_passes matches value_eq
rolled_back = refl

run-rollback_example :
    (unseeded ≡ undo whole (seeding ∷ []) seeded)
    × (run whole (seeding ∷ []) unseeded ≡ (true, unseeded))
run-rollback_example =
    run-rollback whole (seeding ∷ []) nothing seeded unseeded (seed-Keeps, tt) (unseed-Keeps, tt)
      ran rolled_back
