-- ===== src/Websocket/Frame/Masking.antt =====
-- The mask of a client frame: applying it twice gives the payload back.
use Prim.Native.Nat.{bit_xor}
use public_cpp_laravel.Prelude.{
  ℕ, zero, suc, ◌*◌, ◌∙◌, sym, ◌%◌, ◌≡◌, refl, ap, Bool, true, false, [], ◌∷◌, arith, length,
  get_or, Text, IsByte, IsBytes,
}
use public_cpp_laravel.Prelude.Bits.{xor_twice}
use public_cpp_laravel.Websocket.Frame.{unmask}
use public_cpp_laravel.Websocket.Frame.Wire.{apply_mask, body_text}

get_or-IsByte : (s : Text) (i : ℕ) → IsBytes s → IsByte (get_or s i 0)
get_or-IsByte [] i h = omega arith
get_or-IsByte (c ∷ s) zero h = h.0
get_or-IsByte (c ∷ s) (suc i) h = get_or-IsByte s i h.1

pub unmask-unmask :
    (masked : Bool) (mask : Text) (j : ℕ) (s : Text)
    → IsBytes mask
    → IsBytes s
    → unmask masked mask j (unmask masked mask j s) ≡ s
unfolding unmask
unmask-unmask masked mask j [] hm h = refl
unmask-unmask true mask j (c ∷ s) hm h = cc (
  xor_twice c (get_or mask (j % 4) 0) h.0 (get_or-IsByte mask (j % 4) hm),
  unmask-unmask true mask (suc j) s hm h.1,
)
unmask-unmask false mask j (c ∷ s) hm h = ap (◌∷◌ c) (unmask-unmask false mask (suc j) s hm h.1)

-- A server's frame is sent as it is.
pub unmask-false : (mask : Text) (j : ℕ) (s : Text) → unmask false mask j s ≡ s
unfolding unmask
unmask-false mask j [] = refl
unmask-false mask j (c ∷ s) = ap (◌∷◌ c) (unmask-false mask (suc j) s)

pub length-unmask :
    (masked : Bool) (mask : Text) (j : ℕ) (s : Text) → length (unmask masked mask j s) ≡ length s
unfolding unmask
length-unmask masked mask j [] = refl
length-unmask masked mask j (c ∷ s) = ap suc (length-unmask masked mask (suc j) s)

at_zero : (q : ℕ) → q * 4 % 4 ≡ 0
at_zero q = omega arith

at_one : (q : ℕ) → suc (q * 4) % 4 ≡ 1
at_one q = omega arith

at_two : (q : ℕ) → suc (suc (q * 4)) % 4 ≡ 2
at_two q = omega arith

at_three : (q : ℕ) → suc (suc (suc (q * 4))) % 4 ≡ 3
at_three q = omega arith

next_four : (q : ℕ) → suc (suc (suc (suc (q * 4)))) ≡ suc q * 4
next_four q = omega arith

-- What the code does from a multiple of four on.
module _ (a b c d : ℕ) where
  abbrev mask_bytes : Text
  mask_bytes = a ∷ b ∷ c ∷ d ∷ []

  abbrev masked_at : ℕ → ℕ → ℕ
  masked_at x n = bit_xor x (get_or mask_bytes n 0)

  unmask-apply_mask :
      (q : ℕ) (s : Text) → unmask true mask_bytes (q * 4) s ≡ apply_mask mask_bytes s
  unfolding unmask apply_mask
  unmask-apply_mask q [] = refl
  unmask-apply_mask q (w ∷ []) = λ i. masked_at w (at_zero q i) ∷ []
  unmask-apply_mask q (w ∷ x ∷ []) = λ i. masked_at w (at_zero q i) ∷ masked_at x (at_one q i) ∷ []
  unmask-apply_mask q (w ∷ x ∷ y ∷ []) =
      λ i. masked_at w (at_zero q i) ∷ masked_at x (at_one q i) ∷ masked_at y (at_two q i) ∷ []
  unmask-apply_mask q (w ∷ x ∷ y ∷ z ∷ s) =
      (λ i.
        masked_at w (at_zero q i)
        ∷ masked_at x (at_one q i)
        ∷ masked_at y (at_two q i)
        ∷ masked_at z (at_three q i)
        ∷ unmask true mask_bytes (next_four q i) s)
      ∙ ap (λ t. masked_at w 0 ∷ masked_at x 1 ∷ masked_at y 2 ∷ masked_at z 3 ∷ t)
          (unmask-apply_mask (suc q) s)

pub unmask-body_text :
    (masked : Bool) (mask s : Text)
    → length mask ≡ 4
    → body_text masked mask s ≡ unmask masked mask 0 s
unmask-body_text true [] s h = absurd (omega arith)
unmask-body_text true (a ∷ []) s h = absurd (omega arith)
unmask-body_text true (a ∷ b ∷ []) s h = absurd (omega arith)
unmask-body_text true (a ∷ b ∷ c ∷ []) s h = absurd (omega arith)
unmask-body_text true (a ∷ b ∷ c ∷ d ∷ e ∷ rest) s h = absurd (omega arith)
unmask-body_text true (a ∷ b ∷ c ∷ d ∷ []) s h = sym (unmask-apply_mask a b c d 0 s)
unmask-body_text false mask s h = sym (unmask-false mask 0 s)
