-- ===== src/Validation.antt =====
-- include/validation.hpp: `Validator`. `std::stol` is a parameter, `none` where it throws.
pub mod Errors
pub mod Parts
pub mod Rules
use public_cpp_laravel.Prelude.{
  ℕ, Bool, true, false, not, ◌&&◌, ◌||◌, List, [], ◌∷◌, ◌++◌, Option, none, some, ◌==◌, leb, length,
  is_empty, if◌then◌else◌, Text, codes, text_eq, split_at, split_on, Dict, lookup, insert, text_key,
}
use public_cpp_laravel.Prelude.Int.{ℤ, pos, ltb_ℤ}
use public_cpp_laravel.Prelude.Numbers.{is_digit}

abbrev pub Errors : Type 0
Errors = Dict Text (List Text)

abbrev messages : Option (List Text) → List Text
messages none = []
messages (some ms) = ms

unfoldable pub add : Text → Text → Errors → Errors
unfolding insert lookup
add field msg errors = insert field (messages (lookup field errors) ++ (msg ∷ [])) errors

unfoldable pub all_digits : Text → Bool
all_digits [] = true
all_digits (c ∷ s) = is_digit c && all_digits s

unfoldable pub without_sign : Text → Text
without_sign [] = []
without_sign (c ∷ s) = if c == b'-' || c == b'+' then s else c ∷ s

unfoldable pub is_integer : Text → Bool
unfolding all_digits without_sign
is_integer v = not (is_empty (without_sign v)) && all_digits (without_sign v)

abbrev pub or_zero : Option ℤ → ℤ
or_zero none = pos 0
or_zero (some n) = n

abbrev pub to_long : (Text → Option ℤ) → Text → ℤ
to_long stol v = or_zero (stol v)

unfoldable pub measure : (Text → Option ℤ) → Text → ℤ
unfolding is_integer
measure stol v = if is_integer v then to_long stol v else pos (length v)

abbrev dot_behind : Option (Text × Text) → Bool
dot_behind none = false
dot_behind (some (before, behind)) = true

abbrev dot_behind_at : Option (Text × Text) → Bool
dot_behind_at none = false
dot_behind_at (some (before, behind)) = dot_behind (split_at b'.' behind)

unfoldable pub is_email : Text → Bool
unfolding split_at
is_email value = dot_behind_at (split_at b'@' value)

-- The loop over the options.
unfoldable pub found_in : Bool → List Text → Text → Bool
found_in found [] value = found
found_in found (opt ∷ opts) value = found_in (found || text_eq opt value) opts value

-- The rules' names.
pub data Rule : Type 0 where
  required integer boolean email min max in_list unknown : Rule

unfoldable pub rule_named : Text → Rule
rule_named name =
    if text_eq name (codes "required")
    then required
    else if text_eq name (codes "integer")
    then integer
    else if text_eq name (codes "boolean")
    then boolean
    else if text_eq name (codes "email")
    then email
    else if text_eq name (codes "min")
    then min
    else if text_eq name (codes "max")
    then max
    else if text_eq name (codes "in")
    then in_list
    else unknown

abbrev the_field : Text → Text → Text
the_field field rest = codes "The " ++ (field ++ rest)

abbrev pub param_of : Text → Option (Text × Text) → Text × Text
param_of rule none = (rule, [])
param_of rule (some (name, param)) = (name, param)

unfoldable pub split_param : Text → Text × Text
unfolding split_at
split_param rule = param_of rule (split_at b':' rule)

abbrev pub or_empty : Option Text → Text
or_empty none = []
or_empty (some s) = s

unfoldable pub value_in : Dict Text Text → Text → Text
unfolding lookup
value_in fields field = or_empty (lookup field fields)

module _ (stol : Text → Option ℤ) where
  unfoldable pub check : Text → Text → Rule → Text → Errors → Errors
  unfolding add is_integer is_email measure found_in split_on
  check field value integer param errors =
      if not (is_integer value)
      then add field (the_field field (codes " must be an integer.")) errors
      else errors
  check field value boolean param errors =
      if not (text_eq value (codes "0"))
        && not (text_eq value (codes "1"))
        && not (text_eq value (codes "true"))
        && not (text_eq value (codes "false"))
      then add field (the_field field (codes " must be true or false.")) errors
      else errors
  check field value email param errors =
      if not (is_email value)
      then add field (the_field field (codes " must be a valid email address.")) errors
      else errors
  check field value min param errors =
      if ltb_ℤ (measure stol value) (to_long stol param)
      then add field (the_field field (codes " is too small (min " ++ (param ++ codes ")."))) errors
      else errors
  check field value max param errors =
      if ltb_ℤ (to_long stol param) (measure stol value)
      then add field (the_field field (codes " is too large (max " ++ (param ++ codes ")."))) errors
      else errors
  check field value in_list param errors =
      if not (found_in false (split_on b',' param) value)
      then add field (codes "The selected " ++ (field ++ codes " is invalid.")) errors
      else errors
  check field value _ param errors = errors

  unfoldable pub apply_rule : Text → Text → Rule → Text → Errors → Errors
  unfolding check add
  apply_rule field value required param errors =
      if is_empty value
      then add field (the_field field (codes " field is required.")) errors
      else errors
  apply_rule field value rule param errors =
      if is_empty value then errors else check field value rule param errors

  -- The loop over the rules of one field.
  unfoldable pub apply_rules : Text → Text → List Text → Errors → Errors
  unfolding apply_rule split_param rule_named
  apply_rules field value [] errors = errors
  apply_rules field value (rule ∷ rules) errors =
      let (name, param) = split_param rule in
      apply_rules field value rules (apply_rule field value (rule_named name) param errors)

  -- The loop of `validate`, which begins with no errors.
  unfoldable pub validate_from : Dict Text Text → List (Text × Text) → Errors → Errors
  unfolding apply_rules value_in split_on
  validate_from fields [] errors = errors
  validate_from fields ((field, spec) ∷ rules) errors =
      validate_from fields rules
        (apply_rules field (value_in fields field) (split_on b'|' spec) errors)

  -- The result, and `errors()`.
  unfoldable pub validate : Dict Text Text → List (Text × Text) → Bool × Errors
  unfolding validate_from
  validate fields rules =
      let errors : Errors = validate_from fields rules [] in (is_empty errors, errors)
