-- ===== src/Database/Migration/Rerun.antt =====
-- Running the migrations again, and after a rollback.
use mathlib.Core.List.{reverse, reverse-cons}
use public_cpp_laravel.Prelude.{
  ◌≡◌, refl, ap, sym, ◌∙◌, Bool, true, false, not, List, [], ◌∷◌, ◌++◌, Option, some, Bool-cases,
  inl, inr, is_empty, Text, All, All-append, ◌⊎◌, subst, codes, lookup, insert, lookup-insert,
  text_key, text_eq, text_eq_iff,
}
use public_cpp_laravel.Database.Value.{Float, Row, str, value_eq}
use public_cpp_laravel.Database.Memory.{Connection, insert_row, or_zero, with_id, rows_or_empty}
use public_cpp_laravel.Prelude.Int.{ℤ, pos, ◌+ℤ◌}
use public_cpp_laravel.Database.Select.{
  select, passes, cell_passes, matches, keep, order_rows, skip_rows, cut_rows,
}
use public_cpp_laravel.Database.Schema.{statement}
use public_cpp_laravel.Database.Migration.{
  Step, Migration, migrations_table, name_is, ensure_table, applied, record_name, forget, then_go,
  run_each, run, rollback_each, rollback,
}

not_empty-append :
    {A : Type 0} (p : A → Bool) (xs ys : List A)
    → not (is_empty (keep p xs)) ≡ true
    → not (is_empty (keep p (xs ++ ys))) ≡ true
not_empty-append p [] ys h = absurd (cc)
not_empty-append p (x ∷ xs) ys h = elim (Bool-cases (p x)) [
  | inl kept ↦ rw kept refl
  | inr out ↦ rw out (not_empty-append p xs ys (rw out at h))
]

not_empty-last :
    {A : Type 0} (p : A → Bool) (xs : List A) (y : A)
    → p y ≡ true
    → not (is_empty (keep p (xs ++ (y ∷ [])))) ≡ true
not_empty-last p [] y h = rw h refl
not_empty-last p (x ∷ xs) y h = elim (Bool-cases (p x)) [
  | inl kept ↦ rw kept refl
  | inr out ↦ rw out (not_empty-last p xs y h)
]

module _ {D : Type 0} (fl : Float D) where
  abbrev with_name : Text → Row D → Bool
  with_name name = passes fl (name_is name ∷ [])

  abbrev rows : Connection D → List (Row D)
  rows c = rows_or_empty (lookup migrations_table c.tables)

  applied-rows :
      (c : Connection D) (name : Text)
      → applied fl c name ≡ some (not (is_empty (keep (with_name name) (rows c))))
  unfolding applied select order_rows skip_rows cut_rows
  applied-rows c name = refl

  abbrev pub IsApplied : Text → Connection D → Type 0
  IsApplied name c = applied fl c name ≡ some true

  -- A step that leaves every migration applied that was.
  abbrev pub Keeps : Step D → Type 0
  Keeps step = (c : Connection D) (name : Text) → IsApplied name c → IsApplied name (step c).1

  some_inj : (a b : Bool) → ◌≡◌ {A = Option Bool} (some a) (some b) → a ≡ b
  some_inj a b h = cc

  rows-record_name :
      (name : Text) (c : Connection D)
      → (r : Row D) × (rows (record_name fl name c) ≡ rows c ++ (r ∷ []))
        × (with_name name r ≡ true)
  unfolding record_name insert_row passes cell_passes matches value_eq insert lookup
  rows-record_name name c =
      let id : ℤ = or_zero (lookup migrations_table c.next_id) +ℤ pos 1 in
      let r : Row D = with_id id (insert (codes "name") (str name) []) in
      let same : text_eq name name ≡ true = (text_eq_iff name name).1 refl in
      (
        r,
        ap rows_or_empty
            (lookup-insert migrations_table migrations_table (rows c ++ (r ∷ [])) c.tables),
        rw same refl,
      )

  record_name-IsApplied : (name : Text) (c : Connection D) → IsApplied name (record_name fl name c)
  record_name-IsApplied name c =
      let (r, there, named) = rows-record_name name c in
      applied-rows (record_name fl name c) name
      ∙ ap some (
          ap (λ rs. not (is_empty (keep (with_name name) rs))) there
          ∙ not_empty-last (with_name name) (rows c) r named)

  record_name-Keeps :
      (other : Text) (c : Connection D) (name : Text)
      → IsApplied name c
      → IsApplied name (record_name fl other c)
  record_name-Keeps other c name h =
      let (r, there, named) = rows-record_name other c in
      applied-rows (record_name fl other c) name
      ∙ ap some (
          ap (λ rs. not (is_empty (keep (with_name name) rs))) there
          ∙ not_empty-append (with_name name) (rows c) (r ∷ [])
              (some_inj _ _ (sym (applied-rows c name) ∙ h)))

  -- Which way a round goes.
  applied-cases :
      (c : Connection D) (name : Text)
      → (applied fl c name ≡ some true) ⊎ (applied fl c name ≡ some false)
  applied-cases c name = elim (Bool-cases (not (is_empty (keep (with_name name) (rows c))))) [
    | inl there ↦ inl (applied-rows c name ∙ ap some there)
    | inr missing ↦ inr (applied-rows c name ∙ ap some missing)
  ]

  -- The second half of a round that goes on from a step that did not throw.
  went_on :
      (rest : Step D) (o : Bool × Connection D) (c' : Connection D)
      → then_go fl rest o ≡ (true, c')
      → rest o.1 ≡ (true, c')
  went_on rest (false, c) c' h = absurd (cc)
  went_on rest (true, c) c' h = h

  abbrev KeepsWhenDone : Step D → Type 0
  KeepsWhenDone step =
      (c c' : Connection D) (name : Text)
      → step c ≡ (true, c')
      → IsApplied name c
      → IsApplied name c'

  run_each-KeepsWhenDone :
      (ms : List (Migration D)) → All (λ m. Keeps m.up) ms → KeepsWhenDone (run_each fl ms)
  unfolding run_each
  run_each-KeepsWhenDone [] keeps c c' name h k = subst (IsApplied name) (ap (λ o. o.1) h) k
  run_each-KeepsWhenDone (m ∷ ms) keeps c c' name h k = elim (applied-cases c m.name) [
    | inl there ↦ run_each-KeepsWhenDone ms keeps.1 c c' name (rw there at h) k
    | inr missing ↦
        run_each-KeepsWhenDone ms keeps.1 (record_name fl m.name (m.up c).1) c' name
          (went_on (λ d. run_each fl ms (record_name fl m.name d)) (m.up c) c' (rw missing at h))
          (record_name-Keeps m.name (m.up c).1 name (keeps.0 c name k))
  ]

  run_each-All :
      (ms : List (Migration D)) (c c' : Connection D)
      → All (λ m. Keeps m.up) ms
      → run_each fl ms c ≡ (true, c')
      → All (λ m. IsApplied m.name c') ms
  unfolding run_each
  run_each-All [] c c' keeps h = tt
  run_each-All (m ∷ ms) c c' keeps h = elim (applied-cases c m.name) [
    | inl there ↦
        let later = rw there at h in
        (
          run_each-KeepsWhenDone ms keeps.1 c c' m.name later there,
          run_each-All ms c c' keeps.1 later,
        )
    | inr missing ↦
        let d : Connection D = record_name fl m.name (m.up c).1 in
        let later : run_each fl ms d ≡ (true, c') =
          went_on (λ d. run_each fl ms (record_name fl m.name d)) (m.up c) c' (rw missing at h) in
        (
          run_each-KeepsWhenDone ms keeps.1 d c' m.name later
              (record_name-IsApplied m.name (m.up c).1),
          run_each-All ms d c' keeps.1 later,
        )
  ]

  -- Nothing runs where all is applied.
  run_each-applied :
      (ms : List (Migration D)) (c : Connection D)
      → All (λ m. IsApplied m.name c) ms
      → run_each fl ms c ≡ (true, c)
  unfolding run_each
  run_each-applied [] c h = refl
  run_each-applied (m ∷ ms) c h = rw (h.0) (run_each-applied ms c h.1)

  ensure_table-same : (c : Connection D) → ensure_table c ≡ c
  unfolding ensure_table statement
  ensure_table-same c = refl

  run-run_each : (ms : List (Migration D)) (c : Connection D) → run fl ms c ≡ run_each fl ms c
  unfolding run ensure_table statement
  run-run_each ms c = refl

  -- Where no migration's `up` takes rows out of the table of migrations, a run that finishes leaves all
  -- of them applied, and a second run then calls nothing and changes nothing.
  pub run-run :
      (ms : List (Migration D)) (c c' : Connection D)
      → All (λ m. Keeps m.up) ms
      → run fl ms c ≡ (true, c')
      → All (λ m. IsApplied m.name c') ms × (run fl ms c' ≡ (true, c'))
  run-run ms c c' keeps h =
      let all_applied = run_each-All ms c c' keeps (sym (run-run_each ms c) ∙ h) in
      (all_applied, run-run_each ms c' ∙ run_each-applied ms c' all_applied)

  rollback_each-KeepsWhenDone :
      (ms : List (Migration D)) → All (λ m. Keeps m.down) ms → KeepsWhenDone (rollback_each fl ms)
  unfolding rollback_each forget statement
  rollback_each-KeepsWhenDone [] keeps c c' name h k = subst (IsApplied name) (ap (λ o. o.1) h) k
  rollback_each-KeepsWhenDone (m ∷ ms) keeps c c' name h k = elim (applied-cases c m.name) [
    | inr missing ↦ rollback_each-KeepsWhenDone ms keeps.1 c c' name (rw missing at h) k
    | inl there ↦
        rollback_each-KeepsWhenDone ms keeps.1 (m.down c).1 c' name
          (went_on (rollback_each fl ms) (m.down c) c' (rw there at h)) (keeps.0 c name k)
  ]

  All-reverse : (P : Migration D → Type 0) (ms : List (Migration D)) → All P ms → All P (reverse ms)
  All-reverse P [] h = tt
  All-reverse P (m ∷ ms) h =
      subst (All P) (sym (reverse-cons m ms))
        (All-append P (reverse ms) (m ∷ []) (All-reverse P ms h.1) (h.0, tt))

  map_All :
      (P Q : Migration D → Type 0) (f : (m : Migration D) → P m → Q m) (ms : List (Migration D))
      → All P ms
      → All Q ms
  map_All P Q f [] h = tt
  map_All P Q f (m ∷ ms) h = (f m h.0, map_All P Q f ms h.1)

  -- What the `down` of each migration makes of a connection, the last migration's first.
  abbrev pub undo : List (Migration D) → Connection D → Connection D
  undo [] c = c
  undo (m ∷ ms) c = (m.down (undo ms c)).1

  -- The same, in the order of the list.
  abbrev downs : List (Migration D) → Connection D → Connection D
  downs [] c = c
  downs (m ∷ ms) c = downs ms (m.down c).1

  downs-append :
      (ms : List (Migration D)) (m : Migration D) (c : Connection D)
      → downs (ms ++ (m ∷ [])) c ≡ (m.down (downs ms c)).1
  downs-append [] m c = refl
  downs-append (n ∷ ms) m c = downs-append ms m (n.down c).1

  downs-reverse : (ms : List (Migration D)) (c : Connection D) → downs (reverse ms) c ≡ undo ms c
  downs-reverse [] c = refl
  downs-reverse (m ∷ ms) c =
      ap (λ ns. downs ns c) (reverse-cons m ms)
      ∙ downs-append (reverse ms) m c
      ∙ ap (λ d. (m.down d).1) (downs-reverse ms c)

  rollback_each-downs :
      (ms : List (Migration D)) (c back : Connection D)
      → All (λ m. Keeps m.down) ms
      → All (λ m. IsApplied m.name c) ms
      → rollback_each fl ms c ≡ (true, back)
      → back ≡ downs ms c
  unfolding rollback_each forget statement
  rollback_each-downs [] c back keeps h k = sym (ap (λ o. o.1) k)
  rollback_each-downs (m ∷ ms) c back keeps h k =
      rollback_each-downs ms (m.down c).1 back keeps.1
        (map_All (λ n. IsApplied n.name c) (λ n. IsApplied n.name (m.down c).1)
          (λ n there. keeps.0 c n.name there) ms h.1)
        (went_on (rollback_each fl ms) (m.down c) back (rw (h.0) at k))

  -- On the in-memory connection a rollback forgets nothing. After a run and a rollback that finish, of
  -- migrations none of which takes rows out of the table of migrations, the rollback has called the
  -- `down` of every one of them, the last one's first, each on the connection that the one before left,
  -- and done nothing else; yet the next run calls no `up` and changes nothing.
  pub run-rollback :
      (ms : List (Migration D)) (c applied_c back : Connection D)
      → All (λ m. Keeps m.up) ms
      → All (λ m. Keeps m.down) ms
      → run fl ms c ≡ (true, applied_c)
      → rollback fl ms applied_c ≡ (true, back)
      → (back ≡ undo ms applied_c) × (run fl ms back ≡ (true, back))
  unfolding rollback
  run-rollback ms c applied_c back ups downs_keep h k =
      let done = (run-run ms c applied_c ups h).0 in
      let keep = All-reverse (λ m. Keeps m.down) ms downs_keep in
      let ended : rollback_each fl (reverse ms) applied_c ≡ (true, back) =
        sym (ap (rollback_each fl (reverse ms)) (ensure_table-same applied_c)) ∙ k in
      let still = rollback_each-KeepsWhenDone (reverse ms) keep applied_c back in
      (
        rollback_each-downs (reverse ms) applied_c back keep
              (All-reverse (λ m. IsApplied m.name applied_c) ms done) ended
            ∙ downs-reverse ms applied_c,
        run-run_each ms back
            ∙ run_each-applied ms back (
                map_All (λ m. IsApplied m.name applied_c) (λ m. IsApplied m.name back)
                  (λ m done_m. still m.name ended done_m) ms done),
      )
