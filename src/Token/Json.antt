-- ===== src/Token/Json.antt =====
-- include/token.hpp: `json_escape` and the extractors `extract_string`, `extract_int` and
-- `extract_string_array`. A position in the text is the text from there on.
use public_cpp_laravel.Prelude.{
  ℕ, zero, suc, ◌-◌, ◌||◌, List, [], ◌∷◌, ◌++◌, Option, none, some, ltb, ◌==◌, length, is_empty,
  if◌then◌else◌, Text, codes, split_at, find_text,
}
use public_cpp_laravel.Prelude.Int.{ℤ, pos}
use public_cpp_laravel.Prelude.Numbers.{is_digit}

unfoldable pub json_escape : Text → Text
json_escape [] = []
json_escape (c ∷ s) =
    let rest = json_escape s in if c == b'"' || c == b'\\' then b'\\' ∷ c ∷ rest else c ∷ rest

abbrev pub quoted : Text → Text
quoted key = b'"' ∷ (key ++ codes "\"")

-- What is read up to the closing quote, and what stands behind that quote.
unfoldable pub scan_string : Text → Text × Text
scan_string [] = ([], [])
scan_string (c ∷ []) = if c == b'"' then ([], []) else (c ∷ [], [])
scan_string (c ∷ d ∷ s) =
    let (escaped, behind) = scan_string s in
    let (plain, behind') = scan_string (d ∷ s) in
    if c == b'\\'
    then (d ∷ escaped, behind)
    else if c == b'"'
    then ([], d ∷ s)
    else (c ∷ plain, behind')

abbrev pub then_at : {A : Type 0} → Option (Text × Text) → A → (Text → A) → A
then_at none missing next = missing
then_at (some (before, rest)) missing next = next rest

unfoldable pub extract_string : Text → Text → Text
unfolding scan_string find_text split_at
extract_string j key = then_at (find_text (quoted key) j) [] λ from_key.
    then_at (split_at b':' from_key) []
      λ from_colon. then_at (split_at b'"' from_colon) [] λ body. (scan_string body).0

unfoldable pub skip_spaces : Text → Text
skip_spaces [] = []
skip_spaces (c ∷ s) = if c == b' ' then skip_spaces s else c ∷ s

unfoldable pub take_digits : Text → Text
take_digits [] = []
take_digits (c ∷ s) = if is_digit c then c ∷ take_digits s else []

-- The sign, if any, and the digits.
unfoldable pub take_number : Text → Text
unfolding take_digits
take_number [] = []
take_number (c ∷ s) = if c == b'-' || c == b'+' then c ∷ take_digits s else take_digits (c ∷ s)

abbrev pub or_zero : Option ℤ → ℤ
or_zero none = pos 0
or_zero (some n) = n

unfoldable pub number_of : (Text → Option ℤ) → Text → ℤ
number_of stoll num = if is_empty num then pos 0 else or_zero (stoll num)

unfoldable pub extract_int : (Text → Option ℤ) → Text → Text → ℤ
unfolding take_number skip_spaces number_of find_text split_at
extract_int stoll j key = then_at (find_text (quoted key) j) (pos 0) λ from_key.
    then_at (split_at b':' from_key) (pos 0)
      λ from_colon. number_of stoll (take_number (skip_spaces from_colon))

-- Behind an opening quote that stands `before` bytes on, `next` is the rest of the loop.
unfoldable pub read_item : ℕ → Text → Option (Text × Text) → (ℕ → Text → List Text) → List Text
unfolding scan_string
read_item left text none next = []
read_item left text (some (before, body)) next =
    let (item, behind) = scan_string body in
    if ltb (length before) left
    then item ∷ next (left - (length text - length behind)) behind
    else []

-- The loop of `extract_string_array` from `i` on; `left` is `rb - i`, and as much fuel is enough.
unfoldable pub read_items : ℕ → ℕ → Text → List Text
unfolding read_item
read_items zero left text = []
read_items (suc fuel) left text =
    let items = read_item left text (split_at b'"' text) (read_items fuel) in
    if left == 0 then [] else items

abbrev pub items_before : Option (Text × Text) → Text → List Text
items_before none text = []
items_before (some (inside, behind)) text = read_items (length inside) (length inside) text

unfoldable pub extract_string_array : Text → Text → List Text
unfolding read_items find_text split_at
extract_string_array j key = then_at (find_text (quoted key) j) [] λ from_key.
    then_at (split_at b'[' from_key) []
      λ from_bracket. items_before (split_at b']' from_bracket) from_bracket
