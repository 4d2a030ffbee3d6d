-- ===== src/Database/Memory/Claim.antt =====
-- The compare-and-set: of several workers that saw the same row, one claims it.
use public_cpp_laravel.Prelude.{
  ◌≡◌, refl, ap, sym, ◌∙◌, inl, inr, Bool, true, false, List, [], ◌∷◌, Option, none, some, arith,
  Text, Dict, lookup, insert, text_key, lookup-insert, text_eq_refl, Bool-cases,
}
use public_cpp_laravel.Prelude.Int.{ℤ, eqb_ℤ_iff}
use public_cpp_laravel.Database.Value.{Float, Value, int, Row, cell_is, as_int}
use public_cpp_laravel.Database.Memory.{
  Connection, id_column, with_id, has_id, guard_holds, update_if_rows, update_if, in_table,
  find_row, find,
}

lookup-insert_self :
    {V : Type 0} (k : Text) (v : V) (m : Dict Text V) → lookup k (insert k v m) ≡ some v
lookup-insert_self k v m = ground (arith, lookup-insert k k v m, text_eq_refl k)

module _ {D : Type 0} (fl : Float D) where
  has_id-with_id : (id : ℤ) (row : Row D) → has_id fl id (with_id id row) ≡ true
  unfolding cell_is as_int
  has_id-with_id id row = ground (
    arith,
    lookup-insert id_column id_column (int id) row,
    text_eq_refl id_column,
    eqb_ℤ_iff id id,
  )

  -- A row whose guard column, if any, differs from the guard.
  abbrev Excludes : Text → Value D → ℤ → Row D → Type 0
  Excludes col guard id row = guard_holds fl (lookup col (with_id id row)) guard ≡ false

  update_if_rows_twice :
      (id : ℤ) (col : Text) (guard : Value D) (row row' : Row D) (rows : List (Row D))
      → Excludes col guard id row
      → (update_if_rows fl id col guard row rows).0 ≡ true
      → (update_if_rows fl id col guard row' (update_if_rows fl id col guard row rows).1).0 ≡ false
  unfolding update_if_rows
  update_if_rows_twice id col guard row row' [] h e = cc
  update_if_rows_twice id col guard row row' (r ∷ rows) h e = elim (Bool-cases (has_id fl id r)) [
    | inl same ↦ elim (Bool-cases (guard_holds fl (lookup col r) guard)) [
      | inl ok ↦ rw (same, ok, has_id-with_id id row, h)
      | inr bad ↦ absurd (ground arith)
    ]
    | inr other ↦
        rw (other, other) (update_if_rows_twice id col guard row row' rows h (ground arith))
  ]

  -- The first row with the id, before and after.
  find_row-update_if :
      (id : ℤ) (col : Text) (guard : Value D) (row : Row D) (rows : List (Row D))
      → (update_if_rows fl id col guard row rows).0 ≡ true
      → ((r : Row D) × (find_row fl id rows ≡ some r)
          × (guard_holds fl (lookup col r) guard ≡ true))
        × (find_row fl id (update_if_rows fl id col guard row rows).1 ≡ some (with_id id row))
  unfolding update_if_rows find_row
  find_row-update_if id col guard row [] e = absurd (cc)
  find_row-update_if id col guard row (r ∷ rows) e = elim (Bool-cases (has_id fl id r)) [
    | inl same ↦ elim (Bool-cases (guard_holds fl (lookup col r) guard)) [
      | inl ok ↦ rw (same, ok, has_id-with_id id row) ((r, refl, ok), refl)
      | inr bad ↦ absurd (ground arith)
    ]
    | inr other ↦ rw (other, other) (find_row-update_if id col guard row rows (ground arith))
  ]

  -- What a successful `in_table` says.
  in_table-true :
      (c c' : Connection D) (table : Text) (loop : List (Row D) → Bool × List (Row D))
      (o : Option (List (Row D)))
      → in_table fl c table loop o ≡ (true, c')
      → (rows : List (Row D)) × (o ≡ some rows)
        × ((loop rows).0 ≡ true)
        × (lookup table c'.tables ≡ some (loop rows).1)
  unfolding in_table
  in_table-true c c' table loop none e = absurd (cc)
  in_table-true c c' table loop (some rows) e = (
    rows,
    refl,
    ap (λ p. p.0) e,
    ap (λ p. lookup table p.1.tables) (sym e) ∙ lookup-insert_self table (loop rows).1 c.tables,
  )

  -- A worker that claims a row by `update_if`, writing a value that differs from the guard it saw,
  -- shuts out another worker that saw the same value: its `update_if` of that row, next on the
  -- connection, fails whatever it wants to write.
  pub update_if_once :
      (c c' : Connection D) (table col : Text) (id : ℤ) (guard : Value D) (row row' : Row D)
      → guard_holds fl (lookup col (with_id id row)) guard ≡ false
      → update_if fl c table id col guard row ≡ (true, c')
      → (update_if fl c' table id col guard row').0 ≡ false
  unfolding update_if in_table
  update_if_once c c' table col id guard row row' h e =
      let (rows, there, hit, now_) =
        in_table-true c c' table (update_if_rows fl id col guard row) (lookup table c.tables) e in
      ap (λ o. (in_table fl c' table (update_if_rows fl id col guard row') o).0) now_
      ∙ update_if_rows_twice id col guard row row' rows h hit

  -- A successful `update_if` found the guard's value in the row that it replaced, and the row with that id is the
  -- new one.
  pub find-update_if :
      (c c' : Connection D) (table col : Text) (id : ℤ) (guard : Value D) (row : Row D)
      → update_if fl c table id col guard row ≡ (true, c')
      → ((r : Row D) × (find fl c table id ≡ some r) × (guard_holds fl (lookup col r) guard ≡ true))
        × (find fl c' table id ≡ some (with_id id row))
  unfolding update_if find
  find-update_if c c' table col id guard row e =
      let (rows, there, hit, now_) =
        in_table-true c c' table (update_if_rows fl id col guard row) (lookup table c.tables) e in
      rw (there, now_) (find_row-update_if id col guard row rows hit)
