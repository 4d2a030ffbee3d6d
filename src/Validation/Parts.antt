-- ===== src/Validation/Parts.antt =====
-- The parts of rules and values as they are meant, and that the code finds them.
use public_cpp_laravel.Prelude.{
  ℕ, ◌≡◌, refl, ap, Bool, true, false, not, ◌&&◌, ◌||◌, [], ◌∷◌, none, some, arith, ◌==◌, leb,
  is_empty, if◌then◌else◌, Bool-cases, inl, inr, Text, split_at, text_key,
}
use public_cpp_laravel.Validation.{all_digits, without_sign, is_integer, is_email, split_param}

-- What stands before the first `c`, and what stands behind it.
abbrev pub before_first : ℕ → Text → Text
before_first c [] = []
before_first c (d ∷ s) = if d == c then [] else d ∷ before_first c s

abbrev pub behind_first : ℕ → Text → Text
behind_first c [] = []
behind_first c (d ∷ s) = if d == c then s else behind_first c s

abbrev pub has : ℕ → Text → Bool
has c [] = false
has c (d ∷ s) = d == c || has c s

-- Digits, at least one, behind a sign or none.
abbrev pub only_digits : Text → Bool
only_digits [] = true
only_digits (c ∷ s) = leb b'0' c && leb c b'9' && only_digits s

abbrev pub some_digits : Text → Bool
some_digits s = not (is_empty s) && only_digits s

abbrev pub is_whole_number : Text → Bool
is_whole_number [] = false
is_whole_number (c ∷ s) = if c == b'-' || c == b'+' then some_digits s else some_digits (c ∷ s)

split_at-first :
    (c : ℕ) (s : Text)
    → split_at c s ≡ (if has c s then some (before_first c s, behind_first c s) else none)
unfolding split_at
split_at-first c [] = refl
split_at-first c (d ∷ s) = elim (Bool-cases (d == c)) [
  | inl here ↦ rw here refl
  | inr later ↦ elim (Bool-cases (has c s)) [
    | inl there ↦ rw (later, split_at-first c s, there) refl
    | inr missing ↦ rw (later, split_at-first c s, missing) refl
  ]
]

first_missing :
    (c : ℕ) (s : Text) → has c s ≡ false → (before_first c s ≡ s) × (behind_first c s ≡ [])
first_missing c [] h = (refl, refl)
first_missing c (d ∷ s) h = elim (Bool-cases (d == c)) [
  | inl here ↦ absurd (ground (arith, h, here))
  | inr later ↦
      let (before, behind) = first_missing c s (ground (arith, h, later)) in
      rw later (ap (λ t. d ∷ t) before, behind)
]

pub split_param-first :
    (rule : Text) → split_param rule ≡ (before_first b':' rule, behind_first b':' rule)
unfolding split_param
split_param-first rule = elim (Bool-cases (has b':' rule)) [
  | inl there ↦ rw (split_at-first b':' rule, there) refl
  | inr missing ↦
      let (before, behind) = first_missing b':' rule missing in
      rw (split_at-first b':' rule, missing, before, behind) refl
]

-- A dot somewhere behind the first `@`.
abbrev pub is_address : Text → Bool
is_address value = has b'.' (behind_first b'@' value)

pub is_email_lem : (value : Text) → is_email value ≡ is_address value
unfolding is_email
is_email_lem value = elim (Bool-cases (has b'@' value)) [
  | inl there ↦ elim (Bool-cases (has b'.' (behind_first b'@' value))) [
    | inl dot ↦
        rw (split_at-first b'@' value, there, split_at-first b'.' (behind_first b'@' value), dot)
          refl
    | inr none_left ↦
        rw
          (
            split_at-first b'@' value,
            there,
            split_at-first b'.' (behind_first b'@' value),
            none_left,
          )
          refl
  ]
  | inr missing ↦ rw (split_at-first b'@' value, missing, (first_missing b'@' value missing).1) refl
]

all_digits_lem : (s : Text) → all_digits s ≡ only_digits s
unfolding all_digits
all_digits_lem [] = refl
all_digits_lem (c ∷ s) = ground (arith, all_digits_lem s)

pub is_integer_lem : (s : Text) → is_integer s ≡ is_whole_number s
unfolding is_integer without_sign
is_integer_lem [] = refl
is_integer_lem (c ∷ s) = elim (Bool-cases (c == b'-' || c == b'+')) [
  | inl sign ↦ rw sign (ap (λ b. not (is_empty s) && b) (all_digits_lem s))
  | inr no_sign ↦ rw no_sign (all_digits_lem (c ∷ s))
]
