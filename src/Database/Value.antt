-- ===== src/Database/Value.antt =====
-- include/database.hpp: `Value`, `value_as` for integers and texts, `Row` and `is_sql_identifier`. `double` is
-- a parameter with its comparisons and its conversion to an integer. It stands for the doubles that are
-- numbers: NaN, which is not less than any and not equal to itself, is left out.
use mathlib.Core.Option
use public_cpp_laravel.Prelude.{
  ℕ, ◌≡◌, Bool, true, false, not, ◌&&◌, ◌||◌, [], ◌∷◌, Option, none, some, leb, ◌==◌, if◌then◌else◌,
  Text, codes, text_eq, Dict, lookup, text_key,
}
use public_cpp_laravel.Prelude.Int.{ℤ, pos, eqb_ℤ}

pub record Float (D : Type 0) : Type 0 where
  pub feq : D → D → Bool
  pub flt : D → D → Bool
  pub fle : D → D → Bool
  pub flt_asymm : (a b : D) → flt a b ≡ true → flt b a ≡ false
  pub flt_cotrans : (a b c : D) → flt a b ≡ false → flt b c ≡ false → flt a c ≡ false
  pub to_int : D → ℤ

pub data Value (D : Type 0) : Type 0 where
  int : ℤ → Value D
  real : D → Value D
  str : Text → Value D
  bool : Bool → Value D

abbrev pub Row : Type 0 → Type 0
Row D = Dict Text (Value D)

abbrev pub bool_eq : Bool → Bool → Bool
bool_eq true b = b
bool_eq false b = not b

module _ {D : Type 0} (fl : Float D) where
  -- `operator==` of the variant.
  unfoldable pub value_eq : Value D → Value D → Bool
  value_eq (int a) (int b) = eqb_ℤ a b
  value_eq (real a) (real b) = fl.feq a b
  value_eq (str a) (str b) = text_eq a b
  value_eq (bool a) (bool b) = bool_eq a b
  value_eq _ _ = false

  unfoldable pub as_int : Value D → ℤ
  as_int (int n) = n
  as_int (real d) = fl.to_int d
  as_int (str s) = pos 0
  as_int (bool b) = pos (if b then 1 else 0)

  -- `r.has("id") && r.get<std::int64_t>("id") == id`
  unfoldable pub cell_is : Option (Value D) → ℤ → Bool
  unfolding as_int
  cell_is none id = false
  cell_is (some v) id = eqb_ℤ (as_int v) id

-- The texts that the C++ library gives: `std::to_string` of a number, and `what()` of the exception
-- that `at` throws.
pub record Texts (D : Type 0) : Type 0 where
  pub of_int : ℤ → Text
  pub of_real : D → Text
  pub no_such_key : Text

unfoldable pub as_text : {D : Type 0} → Texts D → Value D → Text
as_text t (int n) = t.of_int n
as_text t (real d) = t.of_real d
as_text t (str s) = s
as_text t (bool b) = if b then codes "1" else codes "0"

-- `r.get<std::int64_t>(key)` and `r.get<std::string>(key)`, `none` where `at` throws.
unfoldable pub get_int : {D : Type 0} → Float D → Text → Row D → Option ℤ
unfolding as_int
get_int fl key r = Option.map (as_int fl) (lookup key r)

unfoldable pub get_text : {D : Type 0} → Texts D → Text → Row D → Option Text
unfolding as_text
get_text t key r = Option.map (as_text t) (lookup key r)

abbrev word : ℕ → Bool
word c = (leb b'a' c && leb c b'z') || (leb b'A' c && leb c b'Z') || c == b'_'

abbrev word_or_digit : ℕ → Bool
word_or_digit c = word c || (leb b'0' c && leb c b'9')

abbrev all_words : Text → Bool
all_words [] = true
all_words (c ∷ s) = word_or_digit c && all_words s

unfoldable pub is_sql_identifier : Text → Bool
is_sql_identifier [] = false
is_sql_identifier (c ∷ s) = word c && all_words s
