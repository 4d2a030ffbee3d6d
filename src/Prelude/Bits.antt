-- ===== src/Prelude/Bits.antt =====
-- Facts about bit operations on bytes, by evaluation of every pair, and the comparison of two secrets
-- without an early exit.
use Prim.Native.Nat.{ℕ, zero, suc, ◌<◌, bit_or, bit_xor}
use mathlib.Core.Path.{◌≡◌, refl, ap, sym, ◌∙◌}
use mathlib.Core.Logic.{inl, inr}
use mathlib.Core.Bool.{Bool, true, false, ◌&&◌}
use mathlib.Core.List.{[], ◌∷◌}
use native.Mathlib.Omega.{arith}
use public_cpp_laravel.Prelude.Tests.{◌==◌, ==_iff, ltb, ltb→lt, Bool-cases, if◌then◌else◌}
use public_cpp_laravel.Prelude.Lists.{length}
use public_cpp_laravel.Prelude.Bytes.{Text, IsByte, IsBytes, text_eq}

-- Whether a test holds of every number under a bound.
unfoldable pub holds_under : (ℕ → Bool) → ℕ → Bool
holds_under test zero = true
holds_under test (suc bound) = if test bound then holds_under test bound else false

pub holds_at :
    (test : ℕ → Bool) (bound k : ℕ) → k < bound → holds_under test bound ≡ true → test k ≡ true
unfolding holds_under
holds_at test zero k below all = absurd (omega arith)
holds_at test (suc bound) k below all = ground (arith, holds_at test bound k)

and_assoc : (a b c : Bool) → ((a && b) && c) ≡ (a && (b && c))
and_assoc true b c = refl
and_assoc false b c = refl

-- A test of every pair of bytes, by evaluation.
abbrev on_bytes : (ℕ → ℕ → Bool) → Bool
on_bytes test = holds_under (λ c. holds_under (test c) 256) 256

at_bytes :
    (test : ℕ → ℕ → Bool) (c d : ℕ) → IsByte c → IsByte d → on_bytes test ≡ true → test c d ≡ true
at_bytes test c d hc hd all =
    holds_at (test c) 256 d hd (holds_at (λ k. holds_under (test k) 256) 256 c hc all)

abbrev survives : ℕ → ℕ → Bool
survives c m = bit_xor (bit_xor c m) m == c

every_survives : on_bytes survives ≡ true
unfolding holds_under
every_survives = refl

pub xor_twice : (c m : ℕ) → IsByte c → IsByte m → bit_xor (bit_xor c m) m ≡ c
xor_twice c m hc hm = (==_iff _ c).0 (at_bytes survives c m hc hm every_survives)

abbrev agree : Bool → Bool → Bool
agree true b = b
agree false b = if b then false else true

agree→≡ : (a b : Bool) → agree a b ≡ true → a ≡ b
agree→≡ true b h = sym h
agree→≡ false b h = ground arith

abbrev or_small : ℕ → ℕ → Bool
or_small r x = ltb (bit_or r x) 256

abbrev or_zero : ℕ → ℕ → Bool
or_zero r x = agree (bit_or r x == 0) (r == 0 && x == 0)

abbrev xor_small : ℕ → ℕ → Bool
xor_small c d = ltb (bit_xor c d) 256

abbrev xor_zero : ℕ → ℕ → Bool
xor_zero c d = agree (bit_xor c d == 0) (c == d)

every_or_small : on_bytes or_small ≡ true
unfolding holds_under
every_or_small = refl

every_or_zero : on_bytes or_zero ≡ true
unfolding holds_under
every_or_zero = refl

every_xor_small : on_bytes xor_small ≡ true
unfolding holds_under
every_xor_small = refl

every_xor_zero : on_bytes xor_zero ≡ true
unfolding holds_under
every_xor_zero = refl

-- `diff |= a[i] ^ b[i]` over two texts of one length.
unfoldable pub difference : ℕ → Text → Text → ℕ
difference diff [] t = diff
difference diff (c ∷ s) [] = diff
difference diff (c ∷ s) (d ∷ t) = difference (bit_or diff (bit_xor c d)) s t

unfoldable pub constant_time_equal : Text → Text → Bool
unfolding difference
constant_time_equal a b = if length a == length b then difference 0 a b == 0 else false

difference-zero :
    (diff : ℕ) (s t : Text)
    → diff < 256
    → IsBytes s
    → IsBytes t
    → length s ≡ length t
    → (difference diff s t == 0) ≡ (diff == 0 && text_eq s t)
unfolding difference
difference-zero diff [] [] h hs ht e = ground arith
difference-zero diff [] (d ∷ t) h hs ht e = absurd (omega arith)
difference-zero diff (c ∷ s) [] h hs ht e = absurd (omega arith)
difference-zero diff (c ∷ s) (d ∷ t) h hs ht e =
    let x : bit_xor c d < 256 = ltb→lt _ _ (at_bytes xor_small c d hs.0 ht.0 every_xor_small) in
    let small : bit_or diff (bit_xor c d) < 256 =
      ltb→lt _ _ (at_bytes or_small diff (bit_xor c d) h x every_or_small) in
    let both : (bit_or diff (bit_xor c d) == 0) ≡ (diff == 0 && bit_xor c d == 0) =
      agree→≡ _ _ (at_bytes or_zero diff (bit_xor c d) h x every_or_zero) in
    let same : (bit_xor c d == 0) ≡ (c == d) =
      agree→≡ _ _ (at_bytes xor_zero c d hs.0 ht.0 every_xor_zero) in
    difference-zero (bit_or diff (bit_xor c d)) s t small hs.1 ht.1 (omega arith)
    ∙ ap (λ b. b && text_eq s t) both
    ∙ ap (λ b. (diff == 0 && b) && text_eq s t) same
    ∙ and_assoc (diff == 0) (c == d) (text_eq s t)

text_eq-length : (s t : Text) → (length s == length t) ≡ false → text_eq s t ≡ false
text_eq-length [] [] h = absurd (cc)
text_eq-length [] (d ∷ t) h = refl
text_eq-length (c ∷ s) [] h = refl
text_eq-length (c ∷ s) (d ∷ t) h = ground (arith, text_eq-length s t)

-- The comparison without an early exit is the equality of texts of bytes.
pub constant_time_equal-text_eq :
    (a b : Text) → IsBytes a → IsBytes b → constant_time_equal a b ≡ text_eq a b
unfolding constant_time_equal
constant_time_equal-text_eq a b ha hb = elim (Bool-cases (length a == length b)) [
  | inl same ↦
      rw same (difference-zero 0 a b (omega arith) ha hb ((==_iff (length a) (length b)).0 same))
  | inr apart ↦ rw apart (sym (text_eq-length a b apart))
]
