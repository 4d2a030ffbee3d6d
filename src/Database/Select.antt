-- ===== src/Database/Select.antt =====
-- include/database.hpp: `Op`, `WhereClause`, `OrderClause`, `Query`, `Connection::count` and
-- `transaction`; src/database.cpp: `matches` and `MemoryConnection::select`. `select` is `none` where
-- the order's `at` throws, for a row with no such column.
pub mod Order
pub mod Pages
use public_cpp_laravel.Prelude.{
  ℕ, Bool, true, false, not, ◌&&◌, ◌||◌, List, [], ◌∷◌, Option, none, some, is_some, leb, ltb, ◌==◌,
  length, take, drop, if◌then◌else◌, Text, text_lt, Dict, lookup, text_key,
}
use public_cpp_laravel.Prelude.Int.{ltb_ℤ, leb_ℤ}
use public_cpp_laravel.Database.Value.{Float, Value, int, real, str, bool, Row, value_eq}
use public_cpp_laravel.Database.Memory.{Connection, rows_or_empty, begin, commit, rollback}

pub data Op : Type 0 where
  eq ne lt lte gt gte in_list : Op

pub record WhereClause (D : Type 0) : Type 0 where
  pub column : Text
  pub op : Op
  pub value : Value D
  pub values : List (Value D)

pub record OrderClause : Type 0 where
  pub column : Text
  pub descending : Bool

pub record Query (D : Type 0) : Type 0 where
  pub wheres : List (WhereClause D)
  pub order : Option OrderClause
  pub limit : Option ℕ
  pub offset : Option ℕ

abbrev pub index_of : {D : Type 0} → Value D → ℕ
index_of (int n) = 0
index_of (real d) = 1
index_of (str s) = 2
index_of (bool b) = 3

module _ {D : Type 0} (fl : Float D) where
  -- `operator<` of the variant.
  unfoldable pub value_lt : Value D → Value D → Bool
  value_lt (int a) (int b) = ltb_ℤ a b
  value_lt (real a) (real b) = fl.flt a b
  value_lt (str a) (str b) = text_lt a b
  value_lt (bool a) (bool b) = not a && b
  value_lt a b = ltb (index_of a) (index_of b)

  -- `operator<=` of the variant.
  unfoldable pub value_le : Value D → Value D → Bool
  value_le (int a) (int b) = leb_ℤ a b
  value_le (real a) (real b) = fl.fle a b
  value_le (str a) (str b) = not (text_lt b a)
  value_le (bool a) (bool b) = not a || b
  value_le a b = leb (index_of a) (index_of b)

  unfoldable pub matches : Value D → Op → Value D → Bool
  unfolding value_lt value_le
  matches cell eq v = value_eq fl cell v
  matches cell ne v = not (value_eq fl cell v)
  matches cell lt v = value_lt cell v
  matches cell lte v = value_le cell v
  matches cell gt v = value_lt v cell
  matches cell gte v = value_le v cell
  matches cell in_list v = false

  unfoldable pub among : Value D → List (Value D) → Bool
  among cell [] = false
  among cell (v ∷ vs) = value_eq fl cell v || among cell vs

  abbrev pub test_cell : Op → Value D → List (Value D) → Value D → Bool
  test_cell in_list value values cell = among cell values
  test_cell op value values cell = matches cell op value

  -- A cell that a row may lack.
  unfoldable pub cell_passes : WhereClause D → Option (Value D) → Bool
  unfolding among matches
  cell_passes w none = false
  cell_passes w (some cell) = test_cell w.op w.value w.values cell

  unfoldable pub passes : List (WhereClause D) → Row D → Bool
  unfolding cell_passes
  passes [] r = true
  passes (w ∷ ws) r = cell_passes w (lookup w.column r) && passes ws r

  unfoldable pub cell_lt : Option (Value D) → Option (Value D) → Bool
  unfolding value_lt
  cell_lt none b = false
  cell_lt (some a) none = false
  cell_lt (some a) (some b) = value_lt a b

  -- The comparison that sorts, where both rows have the column.
  unfoldable pub before : OrderClause → Row D → Row D → Bool
  unfolding cell_lt
  before o a b =
      if o.descending
      then cell_lt (lookup o.column b) (lookup o.column a)
      else cell_lt (lookup o.column a) (lookup o.column b)

abbrev pub keep : {A : Type 0} → (A → Bool) → List A → List A
keep p [] = []
keep p (x ∷ xs) = if p x then x ∷ keep p xs else keep p xs

-- `std::stable_sort`, whose result is this one where the comparison is a strict weak order, as it is on
-- cells without NaN.
module _ {A : Type 0} (before : A → A → Bool) where
  unfoldable pub insert_sorted : A → List A → List A
  insert_sorted x [] = x ∷ []
  insert_sorted x (y ∷ ys) =
      let later = y ∷ insert_sorted x ys in if before y x then later else x ∷ y ∷ ys

  unfoldable pub stable_sort : List A → List A
  unfolding insert_sorted
  stable_sort [] = []
  stable_sort (x ∷ xs) = insert_sorted x (stable_sort xs)

unfoldable pub all_have : {D : Type 0} → Text → List (Row D) → Bool
all_have column [] = true
all_have column (r ∷ rows) = is_some (lookup column r) && all_have column rows

-- From two rows on every row is compared.
unfoldable pub order_rows :
    {D : Type 0} → Float D → Option OrderClause → List (Row D) → Option (List (Row D))
unfolding stable_sort all_have
order_rows fl none rows = some rows
order_rows fl (some o) rows =
    if ltb (length rows) 2 || all_have o.column rows
    then some (stable_sort (before fl o) rows)
    else none

unfoldable pub skip_rows : {A : Type 0} → Option ℕ → List A → List A
skip_rows none rows = rows
skip_rows (some n) rows = if leb (length rows) n then [] else drop n rows

unfoldable pub cut_rows : {A : Type 0} → Option ℕ → List A → List A
cut_rows none rows = rows
cut_rows (some n) rows = if ltb n (length rows) then take n rows else rows

abbrev pub page : {A : Type 0} → Option ℕ → Option ℕ → Option (List A) → Option (List A)
page offset limit none = none
page offset limit (some rows) = some (cut_rows limit (skip_rows offset rows))

module _ {D : Type 0} (fl : Float D) where
  unfoldable pub select : Connection D → Text → Query D → Option (List (Row D))
  unfolding passes order_rows skip_rows cut_rows
  select c table q =
      page q.offset q.limit
        (order_rows fl q.order (keep (passes fl q.wheres) (rows_or_empty (lookup table c.tables))))

  abbrev count_rows : Option (List (Row D)) → Option ℕ
  count_rows none = none
  count_rows (some rows) = some (length rows)

  unfoldable pub count : Connection D → Text → Query D → Option ℕ
  unfolding select
  count c table q =
      count_rows
        (select c table (record { wheres = q.wheres; order = none; limit = none; offset = none }))

  -- `fn` says whether it returned; where it threw, so does this.
  unfoldable pub transaction :
      (Connection D → Bool × Connection D) → Connection D → Bool × Connection D
  unfolding begin commit rollback
  transaction fn c =
      let (returned, c') = fn (begin fl c) in
      if returned then (true, commit fl c') else (false, rollback fl c')
