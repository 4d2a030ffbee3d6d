-- ===== src/Validation/Errors.antt =====
-- Which fields `validate` reports, by the tests of the code.
use public_cpp_laravel.Prelude.{
  ◌≡◌, refl, ap, ◌∙◌, Bool, true, false, not, ◌&&◌, ◌||◌, List, [], ◌∷◌, Option, is_some, arith,
  is_empty, if◌then◌else◌, Bool-cases, inl, inr, Text, codes, text_eq, split_on, Dict, lookup,
  text_key, lookup-insert,
}
use public_cpp_laravel.Prelude.Int.{ℤ, leb_ℤ}
use public_cpp_laravel.Validation.{
  Errors, add, is_integer, measure, to_long, is_email, found_in, Rule, rule_named, check,
  apply_rule, split_param, apply_rules, value_in, validate_from, validate,
}

abbrev pub one_of : List Text → Text → Bool
one_of [] value = false
one_of (opt ∷ opts) value = text_eq opt value || one_of opts value

abbrev reported : Text → Errors → Bool
reported f errors = is_some (lookup f errors)

reported-add :
    (f field msg : Text) (errors : Errors)
    → reported f (add field msg errors) ≡ (text_eq field f || reported f errors)
unfolding add
reported-add f field msg errors = elim (Bool-cases (text_eq field f)) [
  | inl same ↦ rw (lookup-insert field f _ errors, same) refl
  | inr apart ↦ rw (lookup-insert field f _ errors, apart) refl
]

-- An error where the test `b` holds.
reported_if :
    (b good : Bool) (f field msg : Text) (errors : Errors)
    → b ≡ not good
    → reported f (if b then add field msg errors else errors)
      ≡ (reported f errors || (text_eq field f && not good))
reported_if true true f field msg errors e = absurd (cc)
reported_if true false f field msg errors e = reported-add f field msg errors ∙ ground arith
reported_if false true f field msg errors e = ground arith
reported_if false false f field msg errors e = absurd (cc)

found_in-one_of :
    (found : Bool) (opts : List Text) (value : Text)
    → found_in found opts value ≡ (found || one_of opts value)
unfolding found_in
found_in-one_of found [] value = ground arith
found_in-one_of found (opt ∷ opts) value =
    found_in-one_of (found || text_eq opt value) opts value ∙ ground arith

not-not : (b : Bool) → b ≡ not (not b)
not-not true = refl
not-not false = refl

or_and : (a t b c : Bool) → ((a || (t && b)) || (t && c)) ≡ (a || (t && (b || c)))
or_and true t b c = refl
or_and false true b c = refl
or_and false false b c = refl

or_assoc : (a b c : Bool) → ((a || b) || c) ≡ (a || (b || c))
or_assoc true b c = refl
or_assoc false b c = refl

module _ (stol : Text → Option ℤ) where
  -- What each rule asks of a value that is not empty.
  abbrev pub meets : Rule → Text → Text → Bool
  meets Rule.required param value = true
  meets Rule.integer param value = is_integer value
  meets Rule.boolean param value =
      text_eq value (codes "0")
      || text_eq value (codes "1")
      || text_eq value (codes "true")
      || text_eq value (codes "false")
  meets Rule.email param value = is_email value
  meets Rule.min param value = leb_ℤ (to_long stol param) (measure stol value)
  meets Rule.max param value = leb_ℤ (measure stol value) (to_long stol param)
  meets Rule.in_list param value = one_of (split_on b',' param) value
  meets Rule.unknown param value = true

  -- An empty value breaks only `required`.
  abbrev pub fulfils : Rule → Text → Text → Bool
  fulfils Rule.required param value = not (is_empty value)
  fulfils rule param value = is_empty value || meets rule param value

  abbrev pub breaks : Text → Text → Bool
  breaks value rule =
      let (name, param) = split_param rule in not (fulfils (rule_named name) param value)

  abbrev pub breaks_one : Text → List Text → Bool
  breaks_one value [] = false
  breaks_one value (rule ∷ rules) = breaks value rule || breaks_one value rules

  -- A field that breaks one of the rules written for it.
  abbrev pub is_refused : Dict Text Text → Text → List (Text × Text) → Bool
  is_refused fields f [] = false
  is_refused fields f ((field, spec) ∷ rules) =
      (text_eq field f && breaks_one (value_in fields field) (split_on b'|' spec))
      || is_refused fields f rules

  reported-check :
      (f field value : Text) (rule : Rule) (param : Text) (errors : Errors)
      → reported f (check stol field value rule param errors)
        ≡ (reported f errors || (text_eq field f && not (meets rule param value)))
  unfolding check
  reported-check f field value Rule.integer param errors =
      reported_if _ (is_integer value) f field _ errors refl
  reported-check f field value Rule.boolean param errors =
      reported_if _ (meets Rule.boolean param value) f field _ errors (ground arith)
  reported-check f field value Rule.email param errors =
      reported_if _ (is_email value) f field _ errors refl
  reported-check f field value Rule.min param errors =
      reported_if _ (meets Rule.min param value) f field _ errors (ground arith)
  reported-check f field value Rule.max param errors =
      reported_if _ (meets Rule.max param value) f field _ errors (ground arith)
  reported-check f field value Rule.in_list param errors =
      reported_if _ (meets Rule.in_list param value) f field _ errors
        (ap not (found_in-one_of false (split_on b',' param) value))
  reported-check f field value Rule.required param errors = ground arith
  reported-check f field value Rule.unknown param errors = ground arith

  abbrev both : Text → Text → Errors → Bool → Bool
  both f field errors good = reported f errors || (text_eq field f && not good)

  -- An empty value is not looked at further.
  reported_unless :
      (empty good : Bool) (f field : Text) (old new : Errors)
      → reported f new ≡ both f field old good
      → reported f (if empty then old else new) ≡ both f field old (empty || good)
  reported_unless true good f field old new e = ground arith
  reported_unless false good f field old new e = e

  unless_empty :
      (f field value : Text) (rule : Rule) (param : Text) (errors : Errors)
      → reported f (if is_empty value then errors else check stol field value rule param errors)
        ≡ both f field errors (is_empty value || meets rule param value)
  unless_empty f field value rule param errors =
      reported_unless (is_empty value) (meets rule param value) f field errors
        (check stol field value rule param errors) (reported-check f field value rule param errors)

  reported-apply_rule :
      (f field value : Text) (rule : Rule) (param : Text) (errors : Errors)
      → reported f (apply_rule stol field value rule param errors)
        ≡ both f field errors (fulfils rule param value)
  unfolding apply_rule
  reported-apply_rule f field value Rule.required param errors =
      reported_if (is_empty value) (not (is_empty value)) f field _ errors
        (not-not (is_empty value))
  reported-apply_rule f field value Rule.integer param errors =
      unless_empty f field value Rule.integer param errors
  reported-apply_rule f field value Rule.boolean param errors =
      unless_empty f field value Rule.boolean param errors
  reported-apply_rule f field value Rule.email param errors =
      unless_empty f field value Rule.email param errors
  reported-apply_rule f field value Rule.min param errors =
      unless_empty f field value Rule.min param errors
  reported-apply_rule f field value Rule.max param errors =
      unless_empty f field value Rule.max param errors
  reported-apply_rule f field value Rule.in_list param errors =
      unless_empty f field value Rule.in_list param errors
  reported-apply_rule f field value Rule.unknown param errors =
      unless_empty f field value Rule.unknown param errors

  reported-apply_rules :
      (f field value : Text) (rules : List Text) (errors : Errors)
      → reported f (apply_rules stol field value rules errors)
        ≡ (reported f errors || (text_eq field f && breaks_one value rules))
  unfolding apply_rules
  reported-apply_rules f field value [] errors = ground arith
  reported-apply_rules f field value (rule ∷ rules) errors =
      let (name, param) = split_param rule in
      let errors' : Errors = apply_rule stol field value (rule_named name) param errors in
      reported-apply_rules f field value rules errors'
      ∙ ap (λ b. b || (text_eq field f && breaks_one value rules))
          (reported-apply_rule f field value (rule_named name) param errors)
      ∙ or_and (reported f errors) (text_eq field f) (breaks value rule) (breaks_one value rules)

  reported-validate_from :
      (fields : Dict Text Text) (f : Text) (rules : List (Text × Text)) (errors : Errors)
      → reported f (validate_from stol fields rules errors)
        ≡ (reported f errors || is_refused fields f rules)
  unfolding validate_from
  reported-validate_from fields f [] errors = ground arith
  reported-validate_from fields f ((field, spec) ∷ rules) errors =
      let errors' : Errors =
        apply_rules stol field (value_in fields field) (split_on b'|' spec) errors in
      reported-validate_from fields f rules errors'
      ∙ ap (λ b. b || is_refused fields f rules)
          (reported-apply_rules f field (value_in fields field) (split_on b'|' spec) errors)
      ∙ or_assoc (reported f errors) _ (is_refused fields f rules)

  -- What is reported, by the rules as the code tells them apart.
  pub validate_lem :
      (fields : Dict Text Text) (rules : List (Text × Text)) (f : Text)
      → is_some (lookup f (validate stol fields rules).1) ≡ is_refused fields f rules
  unfolding validate
  validate_lem fields rules f = reported-validate_from fields f rules []
