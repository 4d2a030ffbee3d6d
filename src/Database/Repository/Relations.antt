-- ===== src/Database/Repository/Relations.antt =====
-- Eager loading: one query for many parents is the same as a query for each.
use public_cpp_laravel.Prelude.{
  ◌>>=◌, ◌≡◌, refl, ap, sym, ◌∙◌, Bool, true, false, ◌&&◌, ◌||◌, List, [], ◌∷◌, ◌++◌, Option, none,
  some, arith, append-nil, append_assoc, Bool-cases, Option-cases, inl, inr, Text, Dict, lookup,
  insert, lookup-insert, text_key,
}
use public_cpp_laravel.Prelude.Int.{ℤ, pos, eqb_ℤ, eqb_ℤ_iff}
use public_cpp_laravel.Database.Value.{Float, Value, int, Row, value_eq, is_sql_identifier}
use public_cpp_laravel.Database.Memory.{Connection, all}
use public_cpp_laravel.Database.Select.{
  Op, keep, passes, cell_passes, among, matches, order_rows, skip_rows, cut_rows, select,
}
use public_cpp_laravel.Database.Repository.Hydrated.{hydrated, hydrate_all-cons}
use public_cpp_laravel.Database.Repository.{
  Mapper, int_key, checked, push_where, where_op, where_eq, where_in, hydrate_all, get, has_many,
  or_nil, ids_in, group, load_has_many,
}

abbrev pub one_of : ℤ → List ℤ → Bool
one_of k [] = false
one_of k (id ∷ ids) = eqb_ℤ k id || one_of k ids

module _ {T : Type 0} (key_of : T → ℤ) where
  abbrev with_key : ℤ → List T → List T
  with_key id = keep (λ t. eqb_ℤ (key_of t) id)

  -- Each key's children are grouped in order, behind those that are there.
  lookup-group :
      (id : ℤ) (ts : List T) (grouped : Dict ℤ (List T))
      → or_nil (lookup id (group key_of ts grouped)) ≡ or_nil (lookup id grouped) ++ with_key id ts
  unfolding group
  lookup-group id [] grouped = sym (append-nil (or_nil (lookup id grouped)))
  lookup-group id (t ∷ ts) grouped =
      lookup-group id ts
        (insert (key_of t) (or_nil (lookup (key_of t) grouped) ++ (t ∷ [])) grouped)
      ∙ elim (Bool-cases (eqb_ℤ (key_of t) id)) [
        | inl same ↦
            let here : key_of t ≡ id = (eqb_ℤ_iff (key_of t) id).0 same in
            rw
              (
                lookup-insert (key_of t) id (or_nil (lookup (key_of t) grouped) ++ (t ∷ []))
                    grouped,
                same,
              )
              (ap (λ k. (or_nil (lookup k grouped) ++ (t ∷ [])) ++ with_key id ts) here
                ∙ append_assoc (or_nil (lookup id grouped)) (t ∷ []) (with_key id ts))
        | inr apart ↦
            rw
              (
                lookup-insert (key_of t) id (or_nil (lookup (key_of t) grouped) ++ (t ∷ []))
                    grouped,
                apart,
              )
              refl
      ]

module _ {D T : Type 0} (fl : Float D) (mapper : Mapper D T) (c : Connection D) (column : Text)
    (key_of : T → ℤ)
    (reads : (r : Row D) (t : T)
      → mapper.hydrate r ≡ some t
      → lookup column r ≡ some (int (key_of t))) where
  among-ids : (k : ℤ) (ids : List ℤ) → among fl (int k) (ids_in ids) ≡ one_of k ids
  unfolding among value_eq
  among-ids k [] = refl
  among-ids k (id ∷ ids) = ap (λ b. eqb_ℤ k id || b) (among-ids k ids)

  abbrev in_ids : List ℤ → Row D → Bool
  in_ids ids =
      passes fl
        (record { column = column; op = Op.in_list; value = int (pos 0); values = ids_in ids } ∷ [])

  abbrev has_id : ℤ → Row D → Bool
  has_id id = passes fl (record { column = column; op = Op.eq; value = int id; values = [] } ∷ [])

  in_ids-key :
      (ids : List ℤ) (r : Row D) (t : T)
      → mapper.hydrate r ≡ some t
      → in_ids ids r ≡ (one_of (key_of t) ids && true)
  unfolding passes cell_passes
  in_ids-key ids r t h = rw (reads r t h, among-ids (key_of t) ids) refl

  has_id-key :
      (id : ℤ) (r : Row D) (t : T)
      → mapper.hydrate r ≡ some t
      → has_id id r ≡ (eqb_ℤ (key_of t) id && true)
  unfolding passes cell_passes matches value_eq
  has_id-key id r t h = rw (reads r t h) refl

  -- A row of one parent is a row of the parents.
  has_id-in_ids :
      (id : ℤ) (ids : List ℤ) (r : Row D)
      → one_of id ids ≡ true
      → in_ids ids r ≡ false
      → has_id id r ≡ false
  unfolding passes cell_passes matches value_eq
  has_id-in_ids id ids r member out = elim (Option-cases (lookup column r)) [
    | inl none_there ↦ rw none_there refl
    | inr (cell, there) ↦ rw (there) (cell_apart cell (rw (there) at out))
  ]
    where
      cell_apart :
          (cell : Value D)
          → (among fl cell (ids_in ids) && true) ≡ false
          → (value_eq fl cell (int id) && true) ≡ false
      cell_apart (int n) h = elim (Bool-cases (eqb_ℤ n id)) [
        | inl same ↦
            let there : among fl (int n) (ids_in ids) ≡ true =
              among-ids n ids ∙ ap (λ k. one_of k ids) ((eqb_ℤ_iff n id).0 same) ∙ member in
            absurd (ground (arith, there, h))
        | inr apart ↦ rw apart refl
      ]
      cell_apart cell h = refl

  -- The rows of one parent, among those of all of them.
  hydrate_all-has_id :
      (id : ℤ) (ids : List ℤ) (rows : List (Row D)) (ts : List T)
      → one_of id ids ≡ true
      → hydrate_all mapper (keep (in_ids ids) rows) ≡ some ts
      → hydrate_all mapper (keep (has_id id) rows) ≡ some (with_key key_of id ts)
  hydrate_all-has_id id ids [] ts member h = unfold hydrate_all in (cc)
  hydrate_all-has_id id ids (r ∷ rows) ts member h = elim (Bool-cases (in_ids ids r)) [
    | inr out ↦
        rw (has_id-in_ids id ids r member out)
          (hydrate_all-has_id id ids rows ts member (rw out at h))
    | inl kept ↦
        let (t, ts', made, rest, e) =
          hydrated mapper r (keep (in_ids ids) rows) ts (rw kept at h) in
        let ih = hydrate_all-has_id id ids rows ts' member rest in
        elim (Bool-cases (eqb_ℤ (key_of t) id)) [
          | inl same ↦
              rw (e, has_id-key id r t made, same)
                (hydrate_all-cons mapper r (keep (has_id id) rows) t (with_key key_of id ts') made
                  ih)
          | inr apart ↦ rw (e, has_id-key id r t made, apart) ih
        ]
  ]

  abbrev children : (Row D → Bool) → Option (List T)
  children p = hydrate_all mapper (keep p (all fl c mapper.table))

  load_has_many-safe :
      (ids : List ℤ)
      → is_sql_identifier column ≡ true
      → load_has_many fl mapper c column ids key_of
        ≡ (children (in_ids ids) >>= λ ts. some (group key_of ts []))
  unfolding load_has_many where_in get checked push_where select order_rows skip_rows cut_rows all
  load_has_many-safe ids safe = rw safe refl

  load_has_many-unsafe :
      (ids : List ℤ)
      → is_sql_identifier column ≡ false
      → load_has_many fl mapper c column ids key_of ≡ none
  unfolding load_has_many where_in checked
  load_has_many-unsafe ids unsafe = rw unsafe refl

  has_many-safe :
      (id : ℤ)
      → is_sql_identifier column ≡ true
      → (has_many fl mapper c column id >>= get fl mapper c) ≡ children (has_id id)
  unfolding has_many where_eq where_op get checked push_where select order_rows skip_rows cut_rows
      all
  has_many-safe id safe = rw safe refl

  group_all :
      (o : Option (List T)) (grouped : Dict ℤ (List T))
      → (o >>= λ ts. some (group key_of ts [])) ≡ some grouped
      → (ts : List T) × (o ≡ some ts) × (grouped ≡ group key_of ts [])
  group_all none grouped h = absurd (cc)
  group_all (some ts) grouped h = (ts, refl, cc)

  -- Where the models' key is the cell of the foreign key, what `load_has_many` gives for the parents
  -- holds for each of them what a query for that parent alone gives, in the same order, and nothing
  -- where the parent has no children.
  pub load_has_many-has_many :
      (ids : List ℤ) (grouped : Dict ℤ (List T)) (id : ℤ)
      → load_has_many fl mapper c column ids key_of ≡ some grouped
      → one_of id ids ≡ true
      → (has_many fl mapper c column id >>= get fl mapper c) ≡ some (or_nil (lookup id grouped))
  unfolding lookup
  load_has_many-has_many ids grouped id h member = elim (Bool-cases (is_sql_identifier column)) [
    | inr unsafe ↦ let thrown = load_has_many-unsafe ids unsafe in absurd (cc)
    | inl safe ↦
        let (ts, made, e) =
          group_all (children (in_ids ids)) grouped (sym (load_has_many-safe ids safe) ∙ h) in
        has_many-safe id safe
        ∙ hydrate_all-has_id id ids (all fl c mapper.table) ts member made
        ∙ ap some (sym (lookup-group key_of id ts []) ∙ ap (λ g. or_nil (lookup id g)) (sym e))
  ]
