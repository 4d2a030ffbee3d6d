-- ===== src/Tests/Pbkdf2.antt =====
-- A password that is hashed and checked, with a short stand-in for the derivation.
use public_cpp_laravel.Prelude.{
  ℕ, ◌+◌, ◌-◌, ◌*◌, ◌%◌, ◌<◌, ◌≡◌, refl, true, false, [], ◌∷◌, Option, none, some, Text, codes, leb,
  ◌==◌, ==_iff, if◌then◌else◌, length, arith,
}
use public_cpp_laravel.Prelude.Int.{ℤ, pos}
use public_cpp_laravel.Prelude.Bits.{holds_under, holds_at}
use public_cpp_laravel.Tests.Strokes.{
  stroke_text, read_strokes, read_strokes-stroke_text, stroke_text-IsNumeral,
}
use public_cpp_laravel.Session.Pbkdf2.{hex_digit, IntNumbers, Derive, pbkdf2_make, pbkdf2_check}
use public_cpp_laravel.Session.Pbkdf2.Accepted.{pbkdf2_check-pbkdf2_make}

abbrev value : ℕ → ℕ
value c = if leb c b'9' then c - 48 else c - 87

every_value : holds_under (λ a. value (hex_digit a) == a) 16 ≡ true
unfolding holds_under
every_value = refl

value-hex_digit : (a : ℕ) → a < 16 → value (hex_digit a) ≡ a
value-hex_digit a h =
    (==_iff (value (hex_digit a)) a).0 (holds_at (λ a. value (hex_digit a) == a) 16 a h every_value)

abbrev read_two : Text → Option ℤ
read_two (c ∷ d ∷ []) = some (pos (value c * 16 + value d))
read_two s = none

abbrev stroke_ints : IntNumbers
stroke_ints = record {
  to_string = stroke_text;
  stoi = read_strokes;
  stoi_hex = read_two;
  stoi-to_string = λ n h. read_strokes-stroke_text n (omega (arith, h.0), omega (arith, h.1));
  to_string-IsNumeral = stroke_text-IsNumeral;
  stoi_hex_digits = λ a b ha hb. rw (value-hex_digit a ha, value-hex_digit b hb) refl;
}

abbrev length_key : Derive
length_key password salt rounds = length password % 256 ∷ []

pbkdf2_check-pbkdf2_make_example :
    pbkdf2_check stroke_ints length_key
      (codes "guess")
      (pbkdf2_make stroke_ints length_key (pos 3) (7 ∷ 200 ∷ []) (codes "secret"))
    ≡ some false
pbkdf2_check-pbkdf2_make_example =
    pbkdf2_check-pbkdf2_make stroke_ints length_key (pos 3) (7 ∷ 200 ∷ []) (codes "secret")
      (codes "guess") (omega arith, omega arith) (omega arith, (omega arith, tt)) (omega arith, tt)
      (omega arith, tt)
