-- ===== src/Database/Memory/Rows.antt =====
-- Ids, transactions and what the other operations keep.
use mathlib.Core.Bool.{false≢true}
use public_cpp_laravel.Prelude.{
  ◌≡◌, refl, ap, sym, subst, ◌∙◌, inl, inr, Bool, true, false, List, [], ◌∷◌, ◌++◌, Option, none,
  some, arith, Text, lookup, text_key, lookup-insert, text_eq, text_eq→≡, text_eq_refl, Bool-cases,
  if◌then◌else◌,
}
use public_cpp_laravel.Prelude.Int.{ℤ, pos, +ℤ_parts, ◌<ℤ◌, eqb_ℤ, eqb_ℤ_iff}
use public_cpp_laravel.Database.Value.{Float, int, Row, cell_is, as_int}
use public_cpp_laravel.Database.Memory.{
  Connection, id_column, with_id, has_id, insert_row, find_row, find, update, update_rows, remove,
  remove_rows, in_table, begin, rollback, restore, or_zero, rows_or_empty,
}

module _ {D : Type 0} (fl : Float D) where
  -- What a run of operations does to the store; `begin` and the two ends of a transaction are none of them.
  pub data Op : Type 0 where
    inserts : Text → Row D → Op
    updates : Text → ℤ → Row D → Op
    removes : Text → ℤ → Op

  abbrev pub apply : Op → Connection D → Connection D
  apply (inserts t r) c = (insert_row fl c t r).1
  apply (updates t id r) c = (update fl c t id r).1
  apply (removes t id) c = (remove fl c t id).1

  abbrev pub apply_all : List Op → Connection D → Connection D
  apply_all [] c = c
  apply_all (o ∷ os) c = apply_all os (apply o c)

  in_table-snapshot :
      (c : Connection D) (t : Text) (loop : List (Row D) → Bool × List (Row D))
      (o : Option (List (Row D)))
      → (in_table fl c t loop o).1.snapshot ≡ c.snapshot
  unfolding in_table
  in_table-snapshot c t loop none = refl
  in_table-snapshot c t loop (some rows) = refl

  apply-snapshot : (o : Op) (c : Connection D) → (apply o c).snapshot ≡ c.snapshot
  unfolding insert_row update remove
  apply-snapshot (inserts t r) c = refl
  apply-snapshot (updates t id r) c =
      in_table-snapshot c t (update_rows fl id r) (lookup t c.tables)
  apply-snapshot (removes t id) c = in_table-snapshot c t (remove_rows fl id) (lookup t c.tables)

  apply_all-snapshot : (os : List Op) (c : Connection D) → (apply_all os c).snapshot ≡ c.snapshot
  apply_all-snapshot [] c = refl
  apply_all-snapshot (o ∷ os) c = apply_all-snapshot os (apply o c) ∙ apply-snapshot o c

  -- Whatever was inserted, updated and removed since `begin`, a rollback gives back the rows and the
  -- next ids of then, with no transaction open.
  pub rollback-begin :
      (os : List Op) (c : Connection D)
      → rollback fl (apply_all os (begin fl c)) ≡ record c { snapshot = none }
  unfolding rollback restore begin
  rollback-begin os c =
      ap (λ o. restore fl o (apply_all os (begin fl c))) (apply_all-snapshot os (begin fl c))

  -- No row has an id that the table has not given out yet.
  abbrev pub IsFresh : Connection D → Type 0
  IsFresh c =
      (t : Text) (id : ℤ)
      → or_zero (lookup t c.next_id) <ℤ id
      → find_row fl id (rows_or_empty (lookup t c.tables)) ≡ none

  has_id-with_id : (id id' : ℤ) (row : Row D) → has_id fl id' (with_id id row) ≡ eqb_ℤ id id'
  unfolding cell_is as_int
  has_id-with_id id id' row =
      ground (arith, lookup-insert id_column id_column (int id) row, text_eq_refl id_column)

  find_row-append :
      (id : ℤ) (xs ys : List (Row D))
      → find_row fl id xs ≡ none
      → find_row fl id (xs ++ ys) ≡ find_row fl id ys
  unfolding find_row
  find_row-append id [] ys h = refl
  find_row-append id (x ∷ xs) ys h = ground (arith, find_row-append id xs ys)

  find_row-with_id :
      (id id' : ℤ) (row : Row D)
      → find_row fl id' (with_id id row ∷ [])
        ≡ (if eqb_ℤ id id' then some (with_id id row) else none)
  unfolding find_row
  find_row-with_id id id' row = rw (has_id-with_id id id' row)

  -- The table and the counter after an insert.
  insert_row-tables :
      (c : Connection D) (t t' : Text) (row : Row D)
      → lookup t' (insert_row fl c t row).1.tables ≡ (
          if text_eq t t'
          then some
              (rows_or_empty (lookup t c.tables) ++ (with_id (insert_row fl c t row).0 row ∷ []))
          else lookup t' c.tables)
  unfolding insert_row
  insert_row-tables c t t' row = lookup-insert t t' _ c.tables

  insert_row-next_id :
      (c : Connection D) (t t' : Text) (row : Row D)
      → lookup t' (insert_row fl c t row).1.next_id
        ≡ (if text_eq t t' then some (insert_row fl c t row).0 else lookup t' c.next_id)
  unfolding insert_row
  insert_row-next_id c t t' row = lookup-insert t t' _ c.next_id

  insert_row-lt :
      (c : Connection D) (t : Text) (row : Row D)
      → or_zero (lookup t c.next_id) <ℤ (insert_row fl c t row).0
  unfolding insert_row
  insert_row-lt c t row = omega (arith, +ℤ_parts (or_zero (lookup t c.next_id)) (pos 1))

  -- Where no row has an id that its table has not given out, an insert gives out an id that no row of
  -- the table had, and the row is found under it.
  pub find-insert_row :
      (c : Connection D) (t : Text) (row : Row D)
      → IsFresh c
      → (find fl c t (insert_row fl c t row).0 ≡ none)
        × (find fl (insert_row fl c t row).1 t (insert_row fl c t row).0
            ≡ some (with_id (insert_row fl c t row).0 row))
  unfolding find
  find-insert_row c t row h =
      let id : ℤ = (insert_row fl c t row).0 in
      let rows : List (Row D) = rows_or_empty (lookup t c.tables) in
      let absent : find_row fl id rows ≡ none = h t id (insert_row-lt c t row) in
      let same : lookup t (insert_row fl c t row).1.tables ≡ some (rows ++ (with_id id row ∷ [])) =
        insert_row-tables c t t row
        ∙ ap (λ b. if b then some (rows ++ (with_id id row ∷ [])) else lookup t c.tables)
            (text_eq_refl t) in
      (
        absent,
        ap (λ o. find_row fl id (rows_or_empty o)) same
            ∙ find_row-append id rows (with_id id row ∷ []) absent
            ∙ find_row-with_id id id row
            ∙ ap (λ b. if b then some (with_id id row) else none) ((eqb_ℤ_iff id id).1 refl),
      )

  has_id_differs :
      (id id' : ℤ) (r : Row D)
      → has_id fl id r ≡ true
      → has_id fl id' r ≡ false
      → eqb_ℤ id id' ≡ false
  has_id_differs id id' r a b = elim (Bool-cases (eqb_ℤ id id')) [
    | inl same ↦ absurd (clash id id' r a b ((eqb_ℤ_iff id id').0 same))
    | inr e ↦ e
  ]
    where
      clash :
          (id id' : ℤ) (r : Row D) → has_id fl id r ≡ true → has_id fl id' r ≡ false → id ≡ id' → ⊥
      clash id id' r a b e = false≢true (sym b ∙ ap (λ k. has_id fl k r) (sym e) ∙ a)

  update_rows-none :
      (id id' : ℤ) (row : Row D) (rows : List (Row D))
      → find_row fl id' rows ≡ none
      → find_row fl id' (update_rows fl id row rows).1 ≡ none
  unfolding update_rows find_row
  update_rows-none id id' row [] h = refl
  update_rows-none id id' row (r ∷ rows) h = elim (Bool-cases (has_id fl id r)) [
    | inl hit ↦ elim (Bool-cases (has_id fl id' r)) [
      | inl bad ↦ absurd (ground arith)
      | inr good ↦ rw hit (ground (arith, has_id-with_id id id' row, has_id_differs id id' r))
    ]
    | inr miss ↦ rw miss (ground (arith, update_rows-none id id' row rows))
  ]

  remove_rows-none :
      (id id' : ℤ) (rows : List (Row D))
      → find_row fl id' rows ≡ none
      → find_row fl id' (remove_rows fl id rows).1 ≡ none
  unfolding remove_rows find_row
  remove_rows-none id id' [] h = refl
  remove_rows-none id id' (r ∷ rows) h = ground (arith, remove_rows-none id id' rows)

  in_table-IsFresh :
      (c : Connection D) (t : Text) (loop : List (Row D) → Bool × List (Row D))
      → ((id : ℤ) (rows : List (Row D))
          → find_row fl id rows ≡ none
          → find_row fl id (loop rows).1 ≡ none)
      → IsFresh c
      → (o : Option (List (Row D))) → lookup t c.tables ≡ o
      → IsFresh (in_table fl c t loop o).1
  unfolding in_table
  in_table-IsFresh c t loop keep h none e t' id lt = h t' id lt
  in_table-IsFresh c t loop keep h (some rows) e t' id lt = elim (Bool-cases (text_eq t t')) [
    | inl same ↦
        rw (lookup-insert t t' (loop rows).1 c.tables, same)
          (keep id rows (
            rw e at (
              h t id
                (subst (λ k. or_zero (lookup k c.next_id) <ℤ id) (sym (text_eq→≡ t t' same)) lt))))
    | inr other ↦ rw (lookup-insert t t' (loop rows).1 c.tables, other) (h t' id lt)
  ]

  insert_row-IsFresh :
      (c : Connection D) (t : Text) (row : Row D) → IsFresh c → IsFresh (insert_row fl c t row).1
  insert_row-IsFresh c t row h t' id lt = elim (Bool-cases (text_eq t t')) [
    | inl same ↦
        let new : ℤ = (insert_row fl c t row).0 in
        let rows : List (Row D) = rows_or_empty (lookup t c.tables) in
        let above : new <ℤ id = rw (insert_row-next_id c t t' row, same) at lt in
        let absent : find_row fl id rows ≡ none = h t id (omega (arith, insert_row-lt c t row)) in
        rw (insert_row-tables c t t' row, same)
          (find_row-append id rows (with_id new row ∷ []) absent
            ∙ find_row-with_id new id row
            ∙ ground (arith, eqb_ℤ_iff new id))
    | inr other ↦
        let lt' : or_zero (lookup t' c.next_id) <ℤ id =
          rw (insert_row-next_id c t t' row, other) at lt in
        rw (insert_row-tables c t t' row, other) (h t' id lt')
  ]

  -- Inserts, updates and removals keep every row's id among those that its table has given out.
  pub apply-IsFresh : (o : Op) (c : Connection D) → IsFresh c → IsFresh (apply o c)
  unfolding update remove
  apply-IsFresh (inserts t r) c h = insert_row-IsFresh c t r h
  apply-IsFresh (updates t id r) c h =
      in_table-IsFresh c t (update_rows fl id r) (λ id'. update_rows-none id id' r) h
        (lookup t c.tables) refl
  apply-IsFresh (removes t id) c h =
      in_table-IsFresh c t (remove_rows fl id) (remove_rows-none id) h (lookup t c.tables) refl
