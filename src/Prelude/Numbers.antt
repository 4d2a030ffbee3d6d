-- ===== src/Prelude/Numbers.antt =====
-- Numbers in text: `std::to_string` and `std::stoll`, which the code takes from the C++ library.
use Prim.Native.Nat.{ℕ}
use mathlib.Core.Path.{◌≡◌}
use mathlib.Core.Bool.{Bool, true, ◌&&◌}
use mathlib.Core.Option.{Option, some}
use mathlib.Core.List.{◌∷◌}
use public_cpp_laravel.Prelude.Tests.{leb}
use public_cpp_laravel.Prelude.Lists.{All}
use public_cpp_laravel.Prelude.Bytes.{Text}
use public_cpp_laravel.Prelude.Int.{ℤ, IsInt64}

abbrev pub is_digit : ℕ → Bool
is_digit c = leb b'0' c && leb c b'9'

-- A numeral of `std::to_string`: digits, at least one, maybe behind a minus.
pub data IsNumeral : Text → Type 0 where
  plain :
      (c : ℕ) (s : Text) → is_digit c ≡ true → All (λ d. is_digit d ≡ true) s → IsNumeral (c ∷ s)
  minus : (s : Text) → All (λ d. is_digit d ≡ true) s → IsNumeral (b'-' ∷ s)

-- `std::to_string` of an `std::int64_t`, and `std::stoll`, `none` where it throws.
pub record Numbers : Type 0 where
  pub to_string : ℤ → Text
  pub stoll : Text → Option ℤ
  pub stoll-to_string : (n : ℤ) → IsInt64 n → stoll (to_string n) ≡ some n
  pub to_string-IsNumeral : (n : ℤ) → IsNumeral (to_string n)
