-- ===== src/Tests/Unary.antt =====
-- A concrete way to write numbers down, for the tests.
use public_cpp_laravel.Prelude.{
  ℕ, zero, suc, ap, ◌≡◌, ◌≢◌, refl, true, false, [], ◌∷◌, Option, some, none, arith, All, Text,
  codes, text_eq, length,
}
use public_cpp_laravel.Prelude.Int.{ℤ, pos, negsuc}
use public_cpp_laravel.Session.Auth.{Decimal}
use public_cpp_laravel.Cache.Throttle.{Counting}

-- Integers in unary behind a sign.
unfoldable pub strokes : ℕ → Text
strokes zero = []
strokes (suc n) = b'1' ∷ strokes n

pub length-strokes : (n : ℕ) → length (strokes n) ≡ n
unfolding strokes
length-strokes zero = refl
length-strokes (suc n) = ap suc (length-strokes n)

abbrev pub write_unary : ℤ → Text
write_unary (pos n) = b'+' ∷ strokes n
write_unary (negsuc n) = b'-' ∷ strokes n

abbrev pub read_unary : Text → Option ℤ
read_unary [] = none
read_unary (sign ∷ digits) = some (elim (text_eq (sign ∷ []) (codes "-")) [
  | true ↦ negsuc (length digits)
  | false ↦ pos (length digits)
])

pub read-write_unary : (n : ℤ) → read_unary (write_unary n) ≡ some n
read-write_unary (pos n) = ap (λ k. some (pos k)) (length-strokes n)
read-write_unary (negsuc n) = ap (λ k. some (negsuc k)) (length-strokes n)

abbrev pub unary : Decimal
unary = record {
  to_string = write_unary;
  stoll = read_unary;
  stoll-to_string = λ n r. read-write_unary n;
}

strokes_no_bar : (n : ℕ) → All (λ c. c ≢ b'|') (strokes n)
unfolding strokes
strokes_no_bar zero = tt
strokes_no_bar (suc n) = (ground arith, strokes_no_bar n)

pub unary_no_bar : (n : ℤ) → All (λ c. c ≢ b'|') (write_unary n)
unary_no_bar (pos n) = (ground arith, strokes_no_bar n)
unary_no_bar (negsuc n) = (ground arith, strokes_no_bar n)

abbrev pub counting : Counting unary
counting = record {
  stoi = read_unary;
  stoi-to_string = λ n h. read-write_unary (pos n);
  to_string_no_bar = unary_no_bar;
}
