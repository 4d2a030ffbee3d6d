-- ===== src/Prelude/Strings.antt =====
-- Searches and cuts of texts: `find` of a text, `trim`, `tolower`, and the pieces between separators.
use Prim.Native.Nat.{ℕ, ◌+◌, ◌≤◌, ◌<◌}
use mathlib.Core.Path.{◌≡◌, refl, ap}
use mathlib.Core.Logic.{◌≢◌, inl, inr}
use mathlib.Core.Bool.{Bool, true, false, ◌&&◌}
use mathlib.Core.Option
use mathlib.Core.Option.{Option, none, some}
use mathlib.Core.List.{List, [], ◌∷◌, ◌++◌}
use native.Mathlib.Omega.{arith}
use public_cpp_laravel.Prelude.Tests.{◌==◌, leb, if◌then◌else◌, is_some, Bool-cases, Option-cases}
use public_cpp_laravel.Prelude.Lists.{is_empty, drop, length, All}
use public_cpp_laravel.Prelude.Bytes.{Text}

-- `s.compare(0, p.size(), p) == 0`
unfoldable pub starts_with : Text → Text → Bool
starts_with [] s = true
starts_with (c ∷ p) [] = false
starts_with (c ∷ p) (d ∷ s) = c == d && starts_with p s

-- `s.find(p)`: what stands before the first `p`, and what stands from there on.
unfoldable pub find_text : Text → Text → Option (Text × Text)
unfolding starts_with
find_text p [] = if is_empty p then some ([], []) else none
find_text p (c ∷ s) =
    let rest = Option.map (λ r. (c ∷ r.0, r.1)) (find_text p s) in
    if starts_with p (c ∷ s) then some ([], c ∷ s) else rest

unfoldable pub contains_text : Text → Text → Bool
unfolding find_text
contains_text p s = is_some (find_text p s)

-- What stands before the first `p` and behind it; `none` where there is no `p`.
unfoldable pub cut_text : Text → Text → Option (Text × Text)
unfolding find_text
cut_text p s = Option.map (λ r. (r.0, drop (length p) r.1)) (find_text p s)

-- From `s.find_first_not_of(...)` on.
unfoldable pub strip_left : (ℕ → Bool) → Text → Text
strip_left blank [] = []
strip_left blank (c ∷ s) = if blank c then strip_left blank s else c ∷ s

-- Up to `s.find_last_not_of(...)`.
unfoldable pub strip_right : (ℕ → Bool) → Text → Text
strip_right blank [] = []
strip_right blank (c ∷ s) =
    let rest = strip_right blank s in if is_empty rest && blank c then [] else c ∷ rest

unfoldable pub trim : (ℕ → Bool) → Text → Text
unfolding strip_left strip_right
trim blank s = strip_right blank (strip_left blank s)

-- `std::tolower` in the C locale.
unfoldable pub to_lower : ℕ → ℕ
to_lower c = if leb b'A' c && leb c b'Z' then c + 32 else c

unfoldable pub lower : Text → Text
unfolding to_lower
lower [] = []
lower (c ∷ s) = to_lower c ∷ lower s

unfoldable pub add_to_first : ℕ → List Text → List Text
add_to_first c [] = (c ∷ []) ∷ []
add_to_first c (p ∷ ps) = (c ∷ p) ∷ ps

-- The pieces between the separators; one more than there are separators.
unfoldable pub split_on : ℕ → Text → List Text
unfolding add_to_first
split_on d [] = [] ∷ []
split_on d (c ∷ s) = let rest = split_on d s in if c == d then [] ∷ rest else add_to_first c rest

-- The pieces between the line ends `\r\n`.
unfoldable pub split_lines : Text → List Text
unfolding add_to_first
split_lines [] = [] ∷ []
split_lines (c ∷ []) = (c ∷ []) ∷ []
split_lines (c ∷ d ∷ s) =
    let next = add_to_first c (split_lines (d ∷ s)) in
    let behind = [] ∷ split_lines s in if c == 13 && d == 10 then behind else next

abbrev pub Lacks : ℕ → Text → Type 0
Lacks c s = All (λ d. d ≢ c) s

pub Lacks-append : (c : ℕ) (s t : Text) → Lacks c s → Lacks c t → Lacks c (s ++ t)
Lacks-append c [] t h k = k
Lacks-append c (d ∷ s) t h k = (h.0, Lacks-append c s t h.1 k)

pub split_on-append :
    (d : ℕ) (s t : Text) → Lacks d s → split_on d (s ++ (d ∷ t)) ≡ s ∷ split_on d t
unfolding split_on
split_on-append d [] t h = ground arith
split_on-append d (c ∷ s) t h = ground (arith, split_on-append d s t h.1)

pub split_on-Lacks : (d : ℕ) (s : Text) → Lacks d s → split_on d s ≡ s ∷ []
unfolding split_on
split_on-Lacks d [] h = refl
split_on-Lacks d (c ∷ s) h = ground (arith, split_on-Lacks d s h.1)

-- A text with nothing to strip stays as it is.
abbrev pub NoBlank : (ℕ → Bool) → Text → Type 0
NoBlank blank s = All (λ c. blank c ≡ false) s

strip_left-NoBlank : (blank : ℕ → Bool) (s : Text) → NoBlank blank s → strip_left blank s ≡ s
unfolding strip_left
strip_left-NoBlank blank [] h = refl
strip_left-NoBlank blank (c ∷ s) h = rw h.0

strip_right-NoBlank : (blank : ℕ → Bool) (s : Text) → NoBlank blank s → strip_right blank s ≡ s
unfolding strip_right
strip_right-NoBlank blank [] h = refl
strip_right-NoBlank blank (c ∷ s) h = ground (arith, strip_right-NoBlank blank s h.1)

pub trim-NoBlank : (blank : ℕ → Bool) (s : Text) → NoBlank blank s → trim blank s ≡ s
unfolding trim
trim-NoBlank blank s h = rw (strip_left-NoBlank blank s h) (strip_right-NoBlank blank s h)

starts_with-append : (p s t : Text) → length p ≤ length s → starts_with p (s ++ t) ≡ starts_with p s
unfolding starts_with
starts_with-append [] s t h = refl
starts_with-append (c ∷ p) [] t h = absurd (omega arith)
starts_with-append (c ∷ p) (d ∷ s) t h = ap (◌&&◌ (c == d)) (starts_with-append p s t (omega arith))

starts_with-le : (p s : Text) → starts_with p s ≡ true → length p ≤ length s
unfolding starts_with
starts_with-le [] s h = omega arith
starts_with-le (c ∷ p) [] h = absurd (cc)
starts_with-le (c ∷ p) (d ∷ s) h = ground (arith, starts_with-le p s)

find_text-le : (p s a b : Text) → find_text p s ≡ some (a, b) → length a + length p ≤ length s
unfolding find_text
find_text-le [] [] a b e = ground arith
find_text-le (x ∷ p) [] a b e = absurd (cc)
find_text-le p (c ∷ s) a b e = elim (Option-cases (find_text p s)) [
  | inl missing ↦ ground (arith, starts_with-le p (c ∷ s))
  | inr ((a', b'), found) ↦ ground (arith, starts_with-le p (c ∷ s), find_text-le p s a' b' found)
]

-- An occurrence is found at the same place when more text follows.
pub find_text-more :
    (p s t a b : Text)
    → 0 < length p
    → find_text p s ≡ some (a, b)
    → find_text p (s ++ t) ≡ some (a, b ++ t)
unfolding find_text
find_text-more [] s t a b h e = absurd (omega arith)
find_text-more (x ∷ p) [] t a b h e = absurd (cc)
find_text-more (x ∷ p) (c ∷ s) t a b h e =
    let fits : length (x ∷ p) ≤ length (c ∷ s) =
      omega (arith, find_text-le (x ∷ p) (c ∷ s) a b e) in
    elim (Bool-cases (starts_with (x ∷ p) (c ∷ s))) [
      | inl here ↦ rw (starts_with-append (x ∷ p) (c ∷ s) t fits, here) (ground arith)
      | inr later ↦ elim (Option-cases (find_text (x ∷ p) s)) [
        | inl missing ↦ absurd (ground arith)
        | inr ((a', b'), found) ↦
            rw (starts_with-append (x ∷ p) (c ∷ s) t fits, later)
              (ground (arith, find_text-more (x ∷ p) s t a' b' h found))
      ]
    ]

-- Before its first occurrence has arrived whole, a text is not found; by then it is.
pub find_text-none :
    (p s t a b : Text)
    → 0 < length p
    → find_text p (s ++ t) ≡ some (a, b)
    → find_text p s ≡ none
    → length s < length a + length p
unfolding find_text
find_text-none p [] t a b h e k = omega arith
find_text-none p (c ∷ s) t a b h e k = elim (Bool-cases (starts_with p (c ∷ (s ++ t)))) [
  | inl here ↦ ground (arith, starts_with-append p (c ∷ s) t)
  | inr later ↦ elim (Option-cases (find_text p (s ++ t))) [
    | inl missing ↦ absurd (ground arith)
    | inr ((a', b'), found) ↦ ground (arith, find_text-none p s t a' b' h found)
  ]
]
