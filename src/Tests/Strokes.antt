-- ===== src/Tests/Strokes.antt =====
-- Numbers in strokes, which stand in for those of the C++ library.
use public_cpp_laravel.Prelude.{
  ℕ, zero, suc, ◌≡◌, refl, ap, true, false, [], ◌∷◌, Option, none, some, Text, length, All, leb,
}
use public_cpp_laravel.Prelude.Int.{ℤ, pos, negsuc, IsInt64}
use public_cpp_laravel.Prelude.Numbers.{Numbers, IsNumeral, is_digit}

abbrev pub strokes : ℕ → Text
strokes zero = []
strokes (suc n) = b'1' ∷ strokes n

abbrev pub stroke_text : ℤ → Text
stroke_text (pos n) = b'1' ∷ strokes n
stroke_text (negsuc n) = b'-' ∷ strokes n

abbrev pub read_strokes : Text → Option ℤ
read_strokes [] = none
read_strokes (c ∷ s) = elim (leb c b'-') [
  | true ↦ some (negsuc (length s))
  | false ↦ some (pos (length s))
]

length-strokes : (n : ℕ) → length (strokes n) ≡ n
length-strokes zero = refl
length-strokes (suc n) = ap suc (length-strokes n)

pub read_strokes-stroke_text : (n : ℤ) → IsInt64 n → read_strokes (stroke_text n) ≡ some n
read_strokes-stroke_text (pos n) h = ap (λ k. some (pos k)) (length-strokes n)
read_strokes-stroke_text (negsuc n) h = ap (λ k. some (negsuc k)) (length-strokes n)

strokes_digits : (n : ℕ) → All (λ d. is_digit d ≡ true) (strokes n)
strokes_digits zero = tt
strokes_digits (suc n) = (refl, strokes_digits n)

pub stroke_text-IsNumeral : (n : ℤ) → IsNumeral (stroke_text n)
stroke_text-IsNumeral (pos n) = IsNumeral.plain b'1' (strokes n) refl (strokes_digits n)
stroke_text-IsNumeral (negsuc n) = IsNumeral.minus (strokes n) (strokes_digits n)

abbrev pub stroke_numbers : Numbers
stroke_numbers = record {
  to_string = stroke_text;
  stoll = read_strokes;
  stoll-to_string = read_strokes-stroke_text;
  to_string-IsNumeral = stroke_text-IsNumeral;
}
