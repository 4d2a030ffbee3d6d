-- ===== src/Validation/Rules.antt =====
-- The rules as they are meant, by which the validator is measured.
use public_cpp_laravel.Prelude.{
  ◌≡◌, Bool, false, not, ◌&&◌, ◌||◌, List, [], ◌∷◌, Option, none, some, length, is_empty,
  if◌then◌else◌, Text, codes, text_eq, split_on, Dict, lookup, text_key,
}
use public_cpp_laravel.Prelude.Int.{ℤ, pos, leb_ℤ}
use public_cpp_laravel.Validation.{rule_named}
use public_cpp_laravel.Validation.Errors.{one_of, fulfils}
use public_cpp_laravel.Validation.Parts.{before_first, behind_first, is_whole_number, is_address}

-- `std::stol`, or 0 where it throws.
abbrev pub number_or_zero : Option ℤ → ℤ
number_or_zero none = pos 0
number_or_zero (some n) = n

abbrev pub is_boolean : Text → Bool
is_boolean value =
    text_eq value (codes "0")
    || text_eq value (codes "1")
    || text_eq value (codes "true")
    || text_eq value (codes "false")

module _ (stol : Text → Option ℤ) where
  -- The number that a value is, or the length of its text.
  abbrev pub size_of : Text → ℤ
  size_of value = if is_whole_number value then number_or_zero (stol value) else pos (length value)

  -- What the rule `name` demands of a value that is not empty; other names demand nothing.
  abbrev pub demand : Text → Text → Text → Bool
  demand name param value =
      (not (text_eq name (codes "integer")) || is_whole_number value)
      && (not (text_eq name (codes "boolean")) || is_boolean value)
      && (not (text_eq name (codes "email")) || is_address value)
      && (not (text_eq name (codes "min")) || leb_ℤ (number_or_zero (stol param)) (size_of value))
      && (not (text_eq name (codes "max")) || leb_ℤ (size_of value) (number_or_zero (stol param)))
      && (not (text_eq name (codes "in")) || one_of (split_on b',' param) value)

  -- A value obeys `required` where it is not empty, and any other rule where it is empty or meets
  -- the demand. The parameter stands behind the first colon.
  abbrev pub obeys : Text → Text → Bool
  obeys value rule =
      (not (text_eq (before_first b':' rule) (codes "required")) || not (is_empty value))
      && (is_empty value || demand (before_first b':' rule) (behind_first b':' rule) value)

  abbrev pub breaks_any : Text → List Text → Bool
  breaks_any value [] = false
  breaks_any value (rule ∷ rules) = not (obeys value rule) || breaks_any value rules

  abbrev pub value_or_empty : Option Text → Text
  value_or_empty none = []
  value_or_empty (some value) = value

  -- A field that breaks one of the rules written for it; a field that is missing is empty.
  abbrev pub is_invalid : Dict Text Text → Text → List (Text × Text) → Bool
  is_invalid fields f [] = false
  is_invalid fields f ((field, spec) ∷ rules) =
      (text_eq field f && breaks_any (value_or_empty (lookup field fields)) (split_on b'|' spec))
      || is_invalid fields f rules

  -- The two ways of telling what a rule asks agree on the name.
  abbrev Agrees : Text → Text → Text → Type 0
  Agrees name param value = fulfils stol (rule_named name) param value ≡ (
      (not (text_eq name (codes "required")) || not (is_empty value))
      && (is_empty value || demand name param value))
