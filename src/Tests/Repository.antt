-- ===== src/Tests/Repository.antt =====
-- Children of two parents, loaded at once and page by page.
use public_cpp_laravel.Prelude.{
  ◌>>=◌, ℕ, ◌≡◌, refl, [], ◌∷◌, List, Option, none, some, arith, Text, Dict, codes, lookup, insert,
  text_key,
}
use public_cpp_laravel.Prelude.Int.{ℤ, pos}
use public_cpp_laravel.Tests.Database.{whole}
use public_cpp_laravel.Database.Value.{
  Value, int, real, str, bool, Row, value_eq, is_sql_identifier,
}
use public_cpp_laravel.Database.Memory.{Connection}
use public_cpp_laravel.Database.Select.{
  passes, cell_passes, among, order_rows, skip_rows, cut_rows, select,
}
use public_cpp_laravel.Database.Repository.{
  Mapper, int_key, all_rows, checked, push_where, where_in, hydrate_all, get, has_many, group,
  load_has_many, last_page_of,
}
use public_cpp_laravel.Database.Repository.Relations.{load_has_many-has_many}
use public_cpp_laravel.Database.Repository.Pages.{pages_upto, pages_upto-last_page}

abbrev parent_column : Text
parent_column = codes "p"

-- A child is the id of its parent.
abbrev parent_in : Option (Value ℕ) → Option ℤ
parent_in (some (int n)) = some n
parent_in _ = none

abbrev parents : Mapper ℕ ℤ
parents = record {
  table = codes "c";
  hydrate = λ r. parent_in (lookup parent_column r);
  to_row = λ t. (parent_column, int t) ∷ [];
  id = λ t. t;
  set_id = λ t id. id;
}

abbrev child : ℕ → ℕ → Row ℕ
child id parent = (codes "id", int (pos id)) ∷ (parent_column, int (pos parent)) ∷ []

abbrev children : Connection ℕ
children = record {
  tables = (codes "c", child 1 7 ∷ child 2 8 ∷ child 3 7 ∷ []) ∷ [];
  next_id = (codes "c", pos 3) ∷ [];
  snapshot = none;
}

parent_in-some : (o : Option (Value ℕ)) (t : ℤ) → parent_in o ≡ some t → o ≡ some (int t)
parent_in-some none t h = absurd (cc)
parent_in-some (some (int n)) t h = cc
parent_in-some (some (real d)) t h = absurd (cc)
parent_in-some (some (str s)) t h = absurd (cc)
parent_in-some (some (bool b)) t h = absurd (cc)

abbrev grouped : Dict ℤ (List ℤ)
grouped = (pos 7, pos 7 ∷ pos 7 ∷ []) ∷ (pos 8, pos 8 ∷ []) ∷ []

loaded :
    load_has_many whole parents children parent_column (pos 7 ∷ pos 8 ∷ []) (λ t. t) ≡ some grouped
unfolding load_has_many where_in get checked push_where select order_rows skip_rows cut_rows group
    hydrate_all passes cell_passes among value_eq is_sql_identifier insert lookup
loaded = refl

load_has_many-has_many_example :
    (has_many whole parents children parent_column (pos 7) >>= get whole parents children)
    ≡ some (pos 7 ∷ pos 7 ∷ [])
unfolding lookup
load_has_many-has_many_example =
    load_has_many-has_many whole parents children parent_column (λ t. t)
      (λ r t h. parent_in-some (lookup parent_column r) t h) (pos 7 ∷ pos 8 ∷ []) grouped (pos 7)
      loaded refl

all_got : get whole parents children all_rows ≡ some (pos 7 ∷ pos 8 ∷ pos 7 ∷ [])
unfolding get select order_rows skip_rows cut_rows hydrate_all passes lookup
all_got = refl

pages_upto-last_page_example :
    pages_upto whole parents children all_rows 2 2 ≡ some (pos 7 ∷ pos 8 ∷ pos 7 ∷ [])
unfolding last_page_of
pages_upto-last_page_example =
    pages_upto-last_page whole parents children all_rows (pos 7 ∷ pos 8 ∷ pos 7 ∷ []) 2 all_got
      (omega arith) (omega arith)
