-- ===== src/Prelude/Bytes.antt =====
-- A `std::string` as the list of its bytes, with the comparisons and searches that the code uses.
use Prim.Native.Nat.{ℕ, zero, suc, ◌<◌, ◌≤◌}
use Prim.Native.Char.{code}
use Prim.Native.String.{String}
use mathlib.Core.Path.{◌≡◌, refl, ap}
use mathlib.Core.Logic.{◌↔◌, ◌≢◌}
use mathlib.Core.Bool.{Bool, true, false, ◌&&◌, ◌||◌}
use mathlib.Core.Option
use mathlib.Core.Option.{Option, none, some}
use mathlib.Core.List.{List, [], ◌∷◌, ◌++◌}
use native.Mathlib.Omega.{arith}
use public_cpp_laravel.Prelude.Tests.{◌==◌, ltb, if◌then◌else◌}
use public_cpp_laravel.Prelude.Lists.{All, length, take}

abbrev pub Text : Type 0
Text = List ℕ

-- The bytes of an ASCII literal.
abbrev pub codes : String → Text
codes String.[] = []
codes (String.◌∷◌ c s) = code c ∷ codes s

abbrev pub IsByte : ℕ → Type 0
IsByte c = c < 256

abbrev pub IsBytes : Text → Type 0
IsBytes s = All IsByte s

-- `a == b` on strings.
abbrev pub text_eq : Text → Text → Bool
text_eq [] [] = true
text_eq [] (d ∷ t) = false
text_eq (c ∷ s) [] = false
text_eq (c ∷ s) (d ∷ t) = (c == d) && text_eq s t

-- `a < b` on strings, whose bytes compare as unsigned.
abbrev pub text_lt : Text → Text → Bool
text_lt [] [] = false
text_lt [] (d ∷ t) = true
text_lt (c ∷ s) [] = false
text_lt (c ∷ s) (d ∷ t) = ltb c d || (c == d && text_lt s t)

pub text_lt_asymm : (s t : Text) → text_lt s t ≡ true → text_lt t s ≡ false
text_lt_asymm [] [] h = refl
text_lt_asymm [] (d ∷ t) h = refl
text_lt_asymm (c ∷ s) [] h = cc
text_lt_asymm (c ∷ s) (d ∷ t) h = ground (arith, text_lt_asymm s t)

pub text_eq→≡ : (s t : Text) → text_eq s t ≡ true → s ≡ t
text_eq→≡ [] [] h = refl
text_eq→≡ [] (d ∷ t) h = cc
text_eq→≡ (c ∷ s) [] h = cc
text_eq→≡ (c ∷ s) (d ∷ t) h = ground (arith, text_eq→≡ s t)

pub text_eq_refl : (s : Text) → text_eq s s ≡ true
text_eq_refl [] = refl
text_eq_refl (c ∷ s) = ground (arith, text_eq_refl s)

pub text_eq_iff : (s t : Text) → (text_eq s t ≡ true) ↔ (s ≡ t)
text_eq_iff s t = (text_eq→≡ s t, λ e. rw e (text_eq_refl t))

-- `s.find(c)`: the index of the first `c`, `none` for `npos`.
unfoldable pub find_byte : ℕ → Text → Option ℕ
find_byte c [] = none
find_byte c (d ∷ s) = let rest = Option.map suc (find_byte c s) in if d == c then some 0 else rest

-- What stands before and after the first `c`; `none` where there is no `c`.
unfoldable pub split_at : ℕ → Text → Option (Text × Text)
split_at c [] = none
split_at c (d ∷ s) =
    let rest = Option.map (λ p. (d ∷ p.0, p.1)) (split_at c s) in
    if d == c then some ([], s) else rest

pub split_at-append :
    (c : ℕ) (s t : Text) → All (λ d. d ≢ c) s → split_at c (s ++ (c ∷ t)) ≡ some (s, t)
unfolding split_at
split_at-append c [] t h = ground arith
split_at-append c (d ∷ s) t h = ground (arith, split_at-append c s t h.1)

-- The first `n` bytes, filled up with zeros: what `resize(n, '\0')` leaves of a text of at most `n`
-- bytes, and what a read of `n` bytes leaves in a buffer of zeros.
unfoldable pub pad_zeros : ℕ → Text → Text
pad_zeros zero s = []
pad_zeros (suc n) [] = 0 ∷ pad_zeros n []
pad_zeros (suc n) (c ∷ s) = c ∷ pad_zeros n s

pub pad_zeros-take : (n : ℕ) (s : Text) → n ≤ length s → pad_zeros n s ≡ take n s
unfolding pad_zeros
pad_zeros-take zero s h = refl
pad_zeros-take (suc n) [] h = absurd (omega arith)
pad_zeros-take (suc n) (c ∷ s) h = ap (◌∷◌ c) (pad_zeros-take n s (omega arith))
