-- ===== src/Database/Select/Pages.antt =====
-- Paging: what the limit and the offset of a `select` cut out.
use native.Mathlib.Nat.{zero-add, suc-add}
use public_cpp_laravel.Prelude.{
  lookup, text_key, ℕ, zero, suc, ◌+◌, ◌≤◌, ◌≡◌, refl, ap, List, [], ◌∷◌, ◌++◌, Option, some, none,
  arith, length, take, take-all, drop, Text,
}
use public_cpp_laravel.Database.Value.{Float, Row}
use public_cpp_laravel.Database.Memory.{Connection, rows_or_empty}
use public_cpp_laravel.Database.Select.{
  OrderClause, WhereClause, Query, keep, passes, order_rows, skip_rows, cut_rows, page, select,
}

module _ {A : Type 0} where
  drop-all : (n : ℕ) (xs : List A) → length xs ≤ n → drop n xs ≡ []
  drop-all zero [] h = refl
  drop-all zero (x ∷ xs) h = absurd (omega arith)
  drop-all (suc n) [] h = refl
  drop-all (suc n) (x ∷ xs) h = drop-all n xs (omega arith)

  take_nil : (m : ℕ) → ◌≡◌ {A = List A} [] (take m [])
  take_nil zero = refl
  take_nil (suc m) = refl

  drop_nil : (m : ℕ) → ◌≡◌ {A = List A} [] (drop m [])
  drop_nil zero = refl
  drop_nil (suc m) = refl

  cut_rows-take : (n : ℕ) (xs : List A) → cut_rows (some n) xs ≡ take n xs
  unfolding cut_rows
  cut_rows-take n xs = ground (arith, take-all n xs)

  skip_rows-drop : (n : ℕ) (xs : List A) → skip_rows (some n) xs ≡ drop n xs
  unfolding skip_rows
  skip_rows-drop n xs = ground (arith, drop-all n xs)

  pub take-add : (n m : ℕ) (xs : List A) → take (n + m) xs ≡ take n xs ++ take m (drop n xs)
  take-add zero m xs = rw zero-add
  take-add (suc n) m [] = rw suc-add (take_nil m)
  take-add (suc n) m (x ∷ xs) = rw suc-add (ap (◌∷◌ x) (take-add n m xs))

  drop-add : (n m : ℕ) (xs : List A) → drop (n + m) xs ≡ drop m (drop n xs)
  drop-add zero m xs = rw zero-add
  drop-add (suc n) m [] = rw suc-add (drop_nil m)
  drop-add (suc n) m (x ∷ xs) = rw suc-add (drop-add n m xs)

  pages :
      (k n m : ℕ) (xs : List A)
      → take (n + m) (drop k xs) ≡ take n (drop k xs) ++ take m (drop (k + n) xs)
  pages k n m xs = rw (drop-add k n xs) (take-add n m (drop k xs))

pub cut_page :
    {A : Type 0} (k n : ℕ) (xs : List A)
    → cut_rows (some n) (skip_rows (some k) xs) ≡ take n (drop k xs)
cut_page k n xs = rw (skip_rows-drop k xs) (cut_rows-take n (drop k xs))

pages_of :
    {A : Type 0} (o : Option (List A)) (k n m : ℕ) (first second : List A)
    → page (some k) (some n) o ≡ some first
    → page (some (k + n)) (some m) o ≡ some second
    → page (some k) (some (n + m)) o ≡ some (first ++ second)
pages_of none k n m first second p q = absurd (cc)
pages_of (some xs) k n m first second p q =
    cc (cut_page k n xs, cut_page (k + n) m xs, cut_page k (n + m) xs, pages k n m xs)

module _ {D : Type 0} (fl : Float D) (c : Connection D) (table : Text)
    (wheres : List (WhereClause D)) (order : Option OrderClause) where
  abbrev pub page_at : ℕ → ℕ → Query D
  page_at offset limit = record {
    wheres = wheres;
    order = order;
    limit = some limit;
    offset = some offset;
  }

  -- Two pages of a query that follow one another are the longer page, in order: no row is skipped
  -- and none is given twice.
  pub select-append :
      (k n m : ℕ) (first second : List (Row D))
      → select fl c table (page_at k n) ≡ some first
      → select fl c table (page_at (k + n) m) ≡ some second
      → select fl c table (page_at k (n + m)) ≡ some (first ++ second)
  unfolding select
  select-append k n m first second p q =
      pages_of
        (order_rows fl order (keep (passes fl wheres) (rows_or_empty (lookup table c.tables)))) k n
        m first second p q
