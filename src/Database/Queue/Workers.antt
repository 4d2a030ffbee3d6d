-- ===== src/Database/Queue/Workers.antt =====
-- Several workers on one connection: who saw a job before it was claimed passes it over.
use public_cpp_laravel.Prelude.{
  ◌≡◌, ◌≢◌, refl, ap, sym, ◌∙◌, inl, inr, true, false, List, [], ◌∷◌, Option, none, some, arith,
  Text, lookup, insert, text_key, lookup-insert, text_eq, text_eq→≡, codes, Dict, Bool-cases,
}
use public_cpp_laravel.Prelude.Int.{ℤ, pos, -ℤ_parts, ◌<ℤ◌, eqb_ℤ, eqb_ℤ_iff}
use public_cpp_laravel.Database.Value.{Float, Texts, Value, int, Row, get_int, value_eq}
use public_cpp_laravel.Database.Memory.{
  Connection, id_column, with_id, guard_holds, update_if_rows, update_if, in_table, find_row, find,
  all, rows_or_empty,
}
use public_cpp_laravel.Database.Memory.Claim.{find-update_if}
use public_cpp_laravel.Database.Queue.{
  World, DbQueue, skipped, jobs, reserved_at, time_of, is_due, claim, with_conn, attempt, work_row,
  after_claim,
}

pub eqb_ℤ-ne : (a b : ℤ) → a ≢ b → eqb_ℤ a b ≡ false
eqb_ℤ-ne a b h = elim (Bool-cases (eqb_ℤ a b)) [
  | inl same ↦ absurd (h ((eqb_ℤ_iff a b).0 same))
  | inr other ↦ other
]

module _ {D : Type 0} (fl : Float D) where
  update_if_rows-refused :
      (id : ℤ) (col : Text) (guard : Value D) (row r : Row D) (rows : List (Row D))
      → find_row fl id rows ≡ some r
      → guard_holds fl (lookup col r) guard ≡ false
      → update_if_rows fl id col guard row rows ≡ (false, rows)
  unfolding update_if_rows find_row
  update_if_rows-refused id col guard row r [] e h = absurd (cc)
  update_if_rows-refused id col guard row r (x ∷ rows) e h =
      ground (arith, update_if_rows-refused id col guard row r rows)

  -- A table that is written back as it was.
  all-insert_same :
      (table t : Text) (rows : List (Row D)) (m : Dict Text (List (Row D)))
      → lookup table m ≡ some rows
      → rows_or_empty (lookup t (insert table rows m)) ≡ rows_or_empty (lookup t m)
  all-insert_same table t rows m e = elim (Bool-cases (text_eq table t)) [
    | inl same ↦
        rw (lookup-insert table t rows m, same)
          (ap rows_or_empty (sym e) ∙ ap (λ k. rows_or_empty (lookup k m)) (text_eq→≡ table t same))
    | inr other ↦ rw (lookup-insert table t rows m, other) refl
  ]

  in_table-refused :
      (c : Connection D) (table col : Text) (id : ℤ) (guard : Value D) (row r : Row D)
      (o : Option (List (Row D)))
      → lookup table c.tables ≡ o
      → find_row fl id (rows_or_empty o) ≡ some r
      → guard_holds fl (lookup col r) guard ≡ false
      → ((in_table fl c table (update_if_rows fl id col guard row) o).0 ≡ false)
        × ((t : Text)
            → all fl (in_table fl c table (update_if_rows fl id col guard row) o).1 t ≡ all fl c t)
  unfolding in_table all
  in_table-refused c table col id guard row r none l e h = absurd (no_row e)
    where
      no_row : find_row fl id [] ≡ some r → ⊥
      no_row e = unfold find_row in cc
  in_table-refused c table col id guard row r (some rows) l e h =
      rw (update_if_rows-refused id col guard row r rows e h)
        (refl, λ t. all-insert_same table t rows c.tables l)

  -- Where the guard does not hold, nothing that can be read changes.
  update_if-refused :
      (c : Connection D) (table col : Text) (id : ℤ) (guard : Value D) (row r : Row D)
      → find fl c table id ≡ some r
      → guard_holds fl (lookup col r) guard ≡ false
      → ((update_if fl c table id col guard row).0 ≡ false)
        × ((t : Text) → all fl (update_if fl c table id col guard row).1 t ≡ all fl c t)
  unfolding update_if find
  update_if-refused c table col id guard row r e h =
      in_table-refused c table col id guard row r (lookup table c.tables) refl e h

  -- The stamp that the first row with an id bears.
  abbrev pub Stamped : Connection D → ℤ → ℤ → Type 0
  Stamped c id stamp =
      (r : Row D) × (find fl c jobs id ≡ some r) × (lookup reserved_at r ≡ some (int stamp))

  claim-Stamped :
      (now id : ℤ) (row : Row D) (c c' : Connection D)
      → claim fl now id row c ≡ (true, c')
      → Stamped c' id now
  unfolding claim
  claim-Stamped now id row c c' e = (
    with_id id (insert reserved_at (int now) row),
    (find-update_if fl c c' jobs reserved_at id (int (time_of fl reserved_at row))
        (insert reserved_at (int now) row) e).1,
    lookup-insert id_column reserved_at (int id) (insert reserved_at (int now) row)
        ∙ lookup-insert reserved_at reserved_at (int now) row,
  )

  claim-refused :
      (now id stamp : ℤ) (row : Row D) (c : Connection D)
      → Stamped c id stamp
      → stamp ≢ time_of fl reserved_at row
      → ((claim fl now id row c).0 ≡ false)
        × ((t : Text) → all fl (claim fl now id row c).1 t ≡ all fl c t)
  unfolding claim guard_holds value_eq
  claim-refused now id stamp row c (r, found, stamped) other =
      update_if-refused c jobs reserved_at id (int (time_of fl reserved_at row))
        (insert reserved_at (int now) row) r found
        (rw stamped (eqb_ℤ-ne stamp (time_of fl reserved_at row) other))

module _ {D S : Type 0} (fl : Float D) (texts : Texts D) where
  -- The row is passed over: its handler is not called, and the tables read as before.
  abbrev pub PassedOver : DbQueue D S → ℤ → Row D → World D S → Type 0
  PassedOver q now row w =
      (c : Connection D) × (work_row fl texts q now row w ≡ skipped (with_conn w c))
      × ((t : Text) → all fl c t ≡ all fl w.conn t)

  attempt-Stamped :
      (q : DbQueue D S) (now id stamp : ℤ) (row : Row D) (w : World D S)
      → get_int fl (codes "id") row ≡ some id
      → Stamped fl w.conn id stamp
      → stamp ≢ time_of fl reserved_at row
      → PassedOver q now row w
  unfolding work_row attempt
  attempt-Stamped q now id stamp row w i s other =
      let (refused, same) = claim-refused fl now id stamp row w.conn s other in
      elim (Bool-cases (is_due fl texts q now row)) [
        | inl due ↦ ((claim fl now id row w.conn).1, rw (i, due, refused, after_claim) refl, same)
        | inr idle ↦ (w.conn, rw (i, idle) refl, λ t. refl)
      ]

  -- A due job's stamp is not the time of the claim.
  is_due-ne :
      (q : DbQueue D S) (now : ℤ) (row : Row D)
      → is_due fl texts q now row ≡ true
      → pos 0 <ℤ q.retry_after
      → now ≢ pos 0
      → now ≢ time_of fl reserved_at row
  unfolding is_due
  is_due-ne q now row due after nonzero e =
      ground (arith, -ℤ_parts now (time_of fl reserved_at row))

  -- A worker that has claimed a due job, under a positive `retry_after`, shuts every other worker out
  -- that saw the job as it did: whatever that worker's clock and settings, it passes the job over next
  -- on the connection, calls no handler and changes nothing.
  pub claim-PassedOver :
      (q q' : DbQueue D S) (now now' id : ℤ) (row : Row D) (c c' : Connection D) (s : S)
      → pos 0 <ℤ q.retry_after
      → now ≢ pos 0
      → get_int fl (codes "id") row ≡ some id
      → is_due fl texts q now row ≡ true
      → claim fl now id row c ≡ (true, c')
      → PassedOver q' now' row (record { conn = c'; outer = s })
  claim-PassedOver q q' now now' id row c c' s after nonzero i due e =
      attempt-Stamped q' now' id now row (record { conn = c'; outer = s }) i
        (claim-Stamped fl now id row c c' e) (is_due-ne q now row due after nonzero)
