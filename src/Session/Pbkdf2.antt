-- ===== src/Session/Pbkdf2.antt =====
-- include/pbkdf2_hash.hpp. The derivation of OpenSSL, the conversions of the C++ library and the random
-- salt are parameters; `none` is an exception.
pub mod Accepted
use public_cpp_laravel.Prelude.{
  ℕ, ◌+◌, ◌-◌, ◌*◌, ◌/◌, ◌%◌, ◌^◌, ◌<◌, ◌≤◌, ◌≡◌, Bool, true, false, not, List, [], ◌∷◌, ◌++◌,
  Option, none, some, ◌>>=◌, get_or, if◌then◌else◌, Text, codes, text_eq, split_on,
}
use public_cpp_laravel.Prelude.Int.{ℤ, pos, negsuc, pos_part, neg_part}
use public_cpp_laravel.Prelude.Bits.{constant_time_equal}
use public_cpp_laravel.Prelude.Numbers.{IsNumeral}

abbrev pub hex_digit : ℕ → ℕ
hex_digit n = get_or (codes "0123456789abcdef") n 0

abbrev pub IsInt : ℤ → Type 0
IsInt n = (pos_part n < 2 ^ 31) × (neg_part n ≤ 2 ^ 31)

-- `std::to_string` of an `int`, `std::stoi`, and `std::stoi` to the base 16.
pub record IntNumbers : Type 0 where
  pub to_string : ℤ → Text
  pub stoi : Text → Option ℤ
  pub stoi_hex : Text → Option ℤ
  pub stoi-to_string : (n : ℤ) → IsInt n → stoi (to_string n) ≡ some n
  pub to_string-IsNumeral : (n : ℤ) → IsNumeral (to_string n)
  pub stoi_hex_digits :
      (a b : ℕ)
      → a < 16
      → b < 16
      → stoi_hex (hex_digit a ∷ hex_digit b ∷ []) ≡ some (pos (a * 16 + b))

-- `PKCS5_PBKDF2_HMAC` of a password, a salt and a number of rounds.
abbrev pub Derive : Type 0
Derive = Text → Text → ℤ → Text

unfoldable pub hex : Text → Text
hex [] = []
hex (c ∷ s) = hex_digit (c / 2 ^ 4) ∷ hex_digit (c % 16) ∷ hex s

-- The cast to `unsigned char`.
abbrev pub to_byte : ℤ → ℕ
to_byte (pos n) = n % 256
to_byte (negsuc n) = 255 - n % 256

module _ (num : IntNumbers) where
  unfoldable pub unhex : Text → Option Text
  unhex [] = some []
  unhex (c ∷ []) = some []
  unhex (c ∷ d ∷ s) =
      let rest = unhex s in
      num.stoi_hex (c ∷ d ∷ []) >>= λ n. rest >>= λ bytes. some (to_byte n ∷ bytes)

  module _ (derive : Derive) where
    unfoldable pub pbkdf2_make : ℤ → Text → Text → Text
    unfolding hex
    pbkdf2_make iterations salt plain =
        codes "pbkdf2"
        ++ (b'$'
            ∷ (num.to_string iterations
                ++ (b'$' ∷ (hex salt ++ (b'$' ∷ hex (derive plain salt iterations))))))

    -- With the number of rounds read, `none` where `stoi` threw.
    abbrev pub compare_key : Text → Text → Text → Option ℤ → Option Bool
    compare_key plain salt_hex key_hex none = some false
    compare_key plain salt_hex key_hex (some iterations) = do
      salt ← unhex salt_hex
      expected ← unhex key_hex
      some (constant_time_equal (derive plain salt iterations) expected)

    abbrev pub check_parts : Text → List Text → Option Bool
    check_parts plain (scheme ∷ rounds ∷ salt_hex ∷ key_hex ∷ []) =
        if text_eq scheme (codes "pbkdf2")
        then compare_key plain salt_hex key_hex (num.stoi rounds)
        else some false
    check_parts plain _ = some false

    unfoldable pub pbkdf2_check : Text → Text → Option Bool
    unfolding unhex split_on constant_time_equal
    pbkdf2_check plain hashed = check_parts plain (split_on b'$' hashed)
