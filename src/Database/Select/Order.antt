-- ===== src/Database/Select/Order.antt =====
-- What `select` gives back with an order: the rows that pass, sorted, equal ones in their old order.
use mathlib.Core.List.{Perm}
use mathlib.Core.List.Perm
use public_cpp_laravel.Prelude.{
  ℕ, ◌⊎◌, ◌↔◌, ◌<◌, ◌||◌, ltb, ◌≡◌, refl, inl, inr, Bool, true, false, List, [], ◌∷◌, Option, some,
  none, arith, length, Text, text_lt, text_lt_asymm, lookup, text_key, Bool-cases,
}
use public_cpp_laravel.Prelude.Int.{◌<ℤ◌}
use public_cpp_laravel.Database.Value.{Float, Value, int, real, str, bool, Row}
use public_cpp_laravel.Database.Memory.{Connection, all}
use public_cpp_laravel.Database.Select.{
  OrderClause, WhereClause, value_lt, cell_lt, before, keep, passes, insert_sorted, stable_sort,
  all_have, Query, order_rows, skip_rows, cut_rows, select,
}

value_lt_asymm :
    {D : Type 0} (fl : Float D) (a b : Value D) → value_lt fl a b ≡ true → value_lt fl b a ≡ false
unfolding value_lt
value_lt_asymm fl (int a) (int b) h = ground arith
value_lt_asymm fl (real a) (real b) h = fl.flt_asymm a b h
value_lt_asymm fl (str a) (str b) h = text_lt_asymm a b h
value_lt_asymm fl (bool a) (bool b) h = ground arith
value_lt_asymm fl a b h = ground arith

-- No element stands directly before one that sorts before it.
abbrev pub Sorted : {A : Type 0} → (A → A → Bool) → List A → Type 0
Sorted lt [] = Unit
Sorted lt (x ∷ []) = Unit
Sorted lt (x ∷ y ∷ ys) = (lt y x ≡ false) × Sorted lt (y ∷ ys)

module _ {A : Type 0} (lt : A → A → Bool) where
  insert_sorted-perm : (x : A) (ys : List A) → Perm (insert_sorted lt x ys) (x ∷ ys)
  unfolding insert_sorted
  insert_sorted-perm x [] = Perm.refl (x ∷ [])
  insert_sorted-perm x (y ∷ ys) = elim (Bool-cases (lt y x)) [
    | inl later ↦ rw later (Perm.trans (Perm.cons y (insert_sorted-perm x ys)) (Perm.swap x y ys))
    | inr here ↦ rw here (Perm.refl (x ∷ y ∷ ys))
  ]

  stable_sort-perm : (xs : List A) → Perm (stable_sort lt xs) xs
  unfolding stable_sort
  stable_sort-perm [] = Perm.refl []
  stable_sort-perm (x ∷ xs) =
      Perm.trans (insert_sorted-perm x (stable_sort lt xs)) (Perm.cons x (stable_sort-perm xs))

  module _ (asymm : (a b : A) → lt a b ≡ true → lt b a ≡ false) where
    insert_sorted-Sorted : (x : A) (ys : List A) → Sorted lt ys → Sorted lt (insert_sorted lt x ys)
    unfolding insert_sorted
    insert_sorted-Sorted x [] s = tt
    insert_sorted-Sorted x (y ∷ []) s = ground (arith, asymm y x)
    insert_sorted-Sorted x (y ∷ z ∷ zs) s = elim (Bool-cases (lt y x)) [
      | inl later ↦ elim (Bool-cases (lt z x)) [
        | inl after ↦ rw (later, after) (s.0, rw after at (insert_sorted-Sorted x (z ∷ zs) s.1))
        | inr next ↦ rw (later, next) (asymm y x later, (next, s.1))
      ]
      | inr here ↦ rw here (here, s)
    ]

    stable_sort-Sorted : (xs : List A) → Sorted lt (stable_sort lt xs)
    unfolding stable_sort
    stable_sort-Sorted [] = tt
    stable_sort-Sorted (x ∷ xs) = insert_sorted-Sorted x (stable_sort lt xs) (stable_sort-Sorted xs)

  -- Elements between which the order says nothing keep their order.
  module _ (p : A → Bool) (equal : (a b : A) → p a ≡ true → p b ≡ true → lt a b ≡ false) where
    keep-insert_sorted : (x : A) (ys : List A) → keep p (insert_sorted lt x ys) ≡ keep p (x ∷ ys)
    unfolding insert_sorted
    keep-insert_sorted x [] = refl
    keep-insert_sorted x (y ∷ ys) = ground (arith, equal y x, keep-insert_sorted x ys)

    keep-stable_sort : (xs : List A) → keep p (stable_sort lt xs) ≡ keep p xs
    unfolding stable_sort
    keep-stable_sort [] = refl
    keep-stable_sort (x ∷ xs) =
        ground (arith, keep-insert_sorted x (stable_sort lt xs), keep-stable_sort xs)

cell_lt_asymm :
    {D : Type 0} (fl : Float D) (a b : Option (Value D))
    → cell_lt fl a b ≡ true
    → cell_lt fl b a ≡ false
unfolding cell_lt
cell_lt_asymm fl none b h = absurd (cc)
cell_lt_asymm fl (some a) none h = absurd (cc)
cell_lt_asymm fl (some a) (some b) h = value_lt_asymm fl a b h

before_asymm :
    {D : Type 0} (fl : Float D) (o : OrderClause) (a b : Row D)
    → before fl o a b ≡ true
    → before fl o b a ≡ false
unfolding before
before_asymm fl o a b h = elim (Bool-cases o.descending) [
  | inl down ↦ rw down (cell_lt_asymm fl (lookup o.column b) (lookup o.column a) (rw down at h))
  | inr up ↦ rw up (cell_lt_asymm fl (lookup o.column a) (lookup o.column b) (rw up at h))
]

-- The place of a value's type among the alternatives of the variant.
abbrev pub rank : {D : Type 0} → Value D → ℕ
rank (int n) = 0
rank (real d) = 1
rank (str s) = 2
rank (bool b) = 3

-- The order of values: within a type its own, and types in the order of the variant.
abbrev pub IsLess : {D : Type 0} → Float D → Value D → Value D → Type 0
IsLess fl (int a) (int b) = a <ℤ b
IsLess fl (real a) (real b) = fl.flt a b ≡ true
IsLess fl (str a) (str b) = text_lt a b ≡ true
IsLess fl (bool a) (bool b) = (a ≡ false) × (b ≡ true)
IsLess fl a b = rank a < rank b

value_lt-IsLess :
    {D : Type 0} (fl : Float D) (a b : Value D) → (value_lt fl a b ≡ true) ↔ IsLess fl a b
unfolding value_lt
value_lt-IsLess fl (int a) (int b) = (λ h. ground (arith, h), λ h. ground (arith, h))
value_lt-IsLess fl (real a) (real b) = (λ h. h, λ h. h)
value_lt-IsLess fl (str a) (str b) = (λ h. h, λ h. h)
value_lt-IsLess fl (bool true) (bool b) = (λ h. absurd (cc), λ h. absurd (ground (arith, h)))
value_lt-IsLess fl (bool false) (bool b) = (λ h. (refl, h), λ h. h.1)
value_lt-IsLess fl a b = (λ h. ground (arith, h), λ h. ground (arith, h))

abbrev pub CellLess : {D : Type 0} → Float D → Option (Value D) → Option (Value D) → Type 0
CellLess fl none b = ⊥
CellLess fl (some a) none = ⊥
CellLess fl (some a) (some b) = IsLess fl a b

cell_lt-CellLess :
    {D : Type 0} (fl : Float D) (a b : Option (Value D)) → (cell_lt fl a b ≡ true) ↔ CellLess fl a b
unfolding cell_lt
cell_lt-CellLess fl none b = (λ h. absurd (cc), λ h. absurd h)
cell_lt-CellLess fl (some a) none = (λ h. absurd (cc), λ h. absurd h)
cell_lt-CellLess fl (some a) (some b) = value_lt-IsLess fl a b

-- `a` belongs before `b`: its cell is the lesser one, or the greater one in a descending order.
abbrev pub Belongs : {D : Type 0} → Float D → Text → Bool → Row D → Row D → Type 0
Belongs fl column false a b = CellLess fl (lookup column a) (lookup column b)
Belongs fl column true a b = CellLess fl (lookup column b) (lookup column a)

before-Belongs :
    {D : Type 0} (fl : Float D) (column : Text) (descending : Bool) (a b : Row D)
    → (before fl (record { column = column; descending = descending }) a b ≡ true)
      ↔ Belongs fl column descending a b
unfolding before
before-Belongs fl column false a b = cell_lt-CellLess fl (lookup column a) (lookup column b)
before-Belongs fl column true a b = cell_lt-CellLess fl (lookup column b) (lookup column a)

-- No row stands directly before one that belongs before it.
abbrev pub InOrder : {A : Type 0} → (A → A → Type 0) → List A → Type 0
InOrder R [] = Unit
InOrder R (x ∷ []) = Unit
InOrder R (x ∷ y ∷ ys) = (¬ R y x) × InOrder R (y ∷ ys)

Sorted-InOrder :
    {A : Type 0} (lt : A → A → Bool) (R : A → A → Type 0)
    → ((a b : A) → R a b → lt a b ≡ true)
    → (xs : List A) → Sorted lt xs
    → InOrder R xs
Sorted-InOrder lt R h [] s = tt
Sorted-InOrder lt R h (x ∷ []) s = tt
Sorted-InOrder lt R h (x ∷ y ∷ ys) s =
    (λ r. absurd (ground (arith, h y x r, s.0)), Sorted-InOrder lt R h (y ∷ ys) s.1)

module _ {D : Type 0} (fl : Float D) (c : Connection D) (table : Text)
    (wheres : List (WhereClause D)) (column : Text) (descending : Bool) where
  -- The rows that pass the where clauses.
  abbrev pub passing : List (Row D)
  passing = keep (passes fl wheres) (all fl c table)

  abbrev pub by_column : OrderClause
  by_column = record { column = column; descending = descending }

  abbrev pub ordered : Query D
  ordered = record { wheres = wheres; order = some by_column; limit = none; offset = none }

  can_sort :
      (all_have column passing ≡ true) ⊎ (length passing < 2)
      → (ltb (length passing) 2 || all_have column passing) ≡ true
  can_sort h = ground arith

  before-tie : (a b : Row D) → ¬ Belongs fl column descending a b → before fl by_column a b ≡ false
  before-tie a b h = elim (Bool-cases (before fl by_column a b)) [
    | inl less ↦ absurd (h ((before-Belongs fl column descending a b).0 less))
    | inr not_less ↦ not_less
  ]

  -- Where every row that passes the where clauses has the order's column, or fewer than two pass,
  -- and the doubles among the cells are numbers, `select` with an order by that column, ascending or
  -- descending, and no page gives the rows that pass, each as often as the table has it, and no row
  -- directly before one that belongs before it; and any rows none of which belongs before another keep
  -- their old order.
  pub select-Sorted :
      (all_have column passing ≡ true) ⊎ (length passing < 2)
      → (p : Row D → Bool)
      → ((a b : Row D) → p a ≡ true → p b ≡ true → ¬ Belongs fl column descending a b)
      → (rows : List (Row D)) × (select fl c table ordered ≡ some rows)
        × Perm rows passing
        × InOrder (Belongs fl column descending) rows
        × (keep p rows ≡ keep p passing)
  unfolding select order_rows all skip_rows cut_rows
  select-Sorted h p tie = (
    stable_sort (before fl by_column) passing,
    rw (can_sort h),
    stable_sort-perm (before fl by_column) passing,
    Sorted-InOrder (before fl by_column) (Belongs fl column descending)
        (λ a b r. (before-Belongs fl column descending a b).1 r)
        (stable_sort (before fl by_column) passing)
        (stable_sort-Sorted (before fl by_column) (before_asymm fl by_column) passing),
    keep-stable_sort (before fl by_column) p (λ a b pa pb. before-tie a b (tie a b pa pb)) passing,
  )
