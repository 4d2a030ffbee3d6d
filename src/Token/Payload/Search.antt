-- ===== src/Token/Payload/Search.antt =====
-- How the extractors find a key, and read a string and a number.
use public_cpp_laravel.Prelude.{
  ℕ, ◌≡◌, ◌≢◌, refl, ap, sym, ◌∙◌, inl, inr, true, false, [], ◌∷◌, ◌++◌, some, arith, Bool-cases,
  ◌==◌, ==_iff, Text, All, Lacks, starts_with, find_text,
}
use public_cpp_laravel.Prelude.Numbers.{IsNumeral, is_digit}
use public_cpp_laravel.Token.Json.{
  json_escape, quoted, scan_string, skip_spaces, take_digits, take_number,
}

-- The first `p` in `s` begins at `rest`.
abbrev pub Found : Text → Text → Text → Type 0
Found p s rest = (before : Text) × (find_text p s ≡ some (before, rest))

pub Found-skip :
    (p : Text) (c : ℕ) (s rest : Text)
    → starts_with p (c ∷ s) ≡ false
    → Found p s rest
    → Found p (c ∷ s) rest
unfolding find_text
Found-skip p c s rest h (before, e) = (c ∷ before, rw (h, e) refl)

pub Found-here :
    (p : Text) (c : ℕ) (s : Text) → starts_with p (c ∷ s) ≡ true → Found p (c ∷ s) (c ∷ s)
unfolding find_text
Found-here p c s h = ([], rw h refl)

-- A text with no quote is passed over.
pub Found-skip_all :
    (key s t rest : Text)
    → Lacks b'"' s
    → Found (quoted key) t rest
    → Found (quoted key) (s ++ t) rest
unfolding starts_with
Found-skip_all key [] t rest h f = f
Found-skip_all key (c ∷ s) t rest h f =
    Found-skip (quoted key) c (s ++ t) rest (ground (arith, h.0))
      (Found-skip_all key s t rest h.1 f)

-- A text without quotes or backslashes is its own escape.
abbrev pub IsPlain : Text → Type 0
IsPlain s = All (λ c. (c ≢ b'"') × (c ≢ b'\\') × (c ≢ b']')) s

pub plain_quote : (s : Text) → IsPlain s → Lacks b'"' s
plain_quote [] h = tt
plain_quote (c ∷ s) h = (h.0.0, plain_quote s h.1)

pub plain_bracket : (s : Text) → IsPlain s → Lacks b']' s
plain_bracket [] h = tt
plain_bracket (c ∷ s) h = (h.0.2, plain_bracket s h.1)

pub json_escape-IsPlain : (s : Text) → IsPlain s → json_escape s ≡ s
unfolding json_escape
json_escape-IsPlain [] h = refl
json_escape-IsPlain (c ∷ s) h = ground (arith, h.0.0, h.0.1, json_escape-IsPlain s h.1)

scan_step :
    (c d : ℕ) (w : Text)
    → c ≢ b'"'
    → c ≢ b'\\'
    → scan_string (c ∷ d ∷ w) ≡ (c ∷ (scan_string (d ∷ w)).0, (scan_string (d ∷ w)).1)
unfolding scan_string
scan_step c d w quote escape = ground arith

pub scan_string-IsPlain : (s t : Text) → IsPlain s → scan_string (s ++ (b'"' ∷ t)) ≡ (s, t)
unfolding scan_string
scan_string-IsPlain [] [] h = refl
scan_string-IsPlain [] (c ∷ t) h = refl
scan_string-IsPlain (c ∷ []) t h =
    scan_step c b'"' t h.0.0 h.0.1 ∙ ap (λ r. (c ∷ r.0, r.1)) (scan_string-IsPlain [] t tt)
scan_string-IsPlain (c ∷ d ∷ s) t h =
    scan_step c d (s ++ (b'"' ∷ t)) h.0.0 h.0.1
    ∙ ap (λ r. (c ∷ r.0, r.1)) (scan_string-IsPlain (d ∷ s) t h.1)

-- A quoted text that is another word than the key is not the key.
pub starts_with-quoted :
    (key s t : Text)
    → Lacks b'"' key
    → Lacks b'"' s
    → s ≢ key
    → starts_with (quoted key) (b'"' ∷ (s ++ (b'"' ∷ t))) ≡ false
unfolding starts_with
starts_with-quoted [] [] t hk hs ne = absurd (ne refl)
starts_with-quoted [] (c ∷ s) t hk hs ne = ground (arith, hs.0)
starts_with-quoted (k ∷ key) [] t hk hs ne = ground (arith, hk.0)
starts_with-quoted (k ∷ key) (c ∷ s) t hk hs ne = elim (Bool-cases (k == c)) [
  | inl same ↦
      rw same
        (starts_with-quoted key s t hk.1 hs.1 (λ e. ne (λ i. sym ((==_iff k c).0 same) i ∷ e i)))
  | inr other ↦ rw other refl
]

-- What a number's text must leave alone.
digits_taken :
    (s t : Text) (c : ℕ)
    → All (λ d. is_digit d ≡ true) s
    → is_digit c ≡ false
    → take_digits (s ++ (c ∷ t)) ≡ s
unfolding take_digits
digits_taken [] t c h e = rw e refl
digits_taken (d ∷ s) t c h e = rw h.0 (ap (◌∷◌ d) (digits_taken s t c h.1 e))

digit_apart :
    (d : ℕ)
    → is_digit d ≡ true
    → ((d == b' ') ≡ false) × ((d == b'-') ≡ false) × ((d == b'+') ≡ false)
digit_apart d h = (ground arith, ground arith, ground arith)

pub number_taken :
    (s t : Text) (c : ℕ)
    → IsNumeral s
    → is_digit c ≡ false
    → take_number (skip_spaces (s ++ (c ∷ t))) ≡ s
unfolding take_number skip_spaces
number_taken _ t c (IsNumeral.plain d s hd hs) e =
    let (space, minus, plus) = digit_apart d hd in
    rw (space, minus, plus, hd) (ap (◌∷◌ d) (digits_taken s t c hs e))
number_taken _ t c (IsNumeral.minus s hs) e = ap (◌∷◌ b'-') (digits_taken s t c hs e)

digits_quote : (s : Text) → All (λ d. is_digit d ≡ true) s → Lacks b'"' s
digits_quote [] h = tt
digits_quote (d ∷ s) h = (ground (arith, h.0), digits_quote s h.1)

pub numeral_quote : (s : Text) → IsNumeral s → Lacks b'"' s
numeral_quote _ (IsNumeral.plain d s hd hs) = (ground arith, digits_quote s hs)
numeral_quote _ (IsNumeral.minus s hs) = (ground arith, digits_quote s hs)

-- A quoted text that is not the key is passed over, with what does not go on as the key does.
pub skip_quoted :
    (k x : ℕ) (key s t rest : Text)
    → Lacks b'"' (k ∷ key)
    → Lacks b'"' s
    → s ≢ k ∷ key
    → (k == x) ≡ false
    → Found (quoted (k ∷ key)) (x ∷ t) rest
    → Found (quoted (k ∷ key)) (b'"' ∷ (s ++ (b'"' ∷ x ∷ t))) rest
unfolding starts_with
skip_quoted k x key s t rest hk hs ne apart f =
    Found-skip (quoted (k ∷ key)) b'"' (s ++ (b'"' ∷ x ∷ t)) rest
      (starts_with-quoted (k ∷ key) s (x ∷ t) hk hs ne)
      (Found-skip_all (k ∷ key) s (b'"' ∷ x ∷ t) rest hs
        (Found-skip (quoted (k ∷ key)) b'"' (x ∷ t) rest (rw apart refl) f))

pub skip_char :
    (key : Text) (c : ℕ) (s rest : Text)
    → (b'"' == c) ≡ false
    → Found (quoted key) s rest
    → Found (quoted key) (c ∷ s) rest
unfolding starts_with
skip_char key c s rest h f = Found-skip (quoted key) c s rest (rw h refl) f
