-- ===== src/Session/Pbkdf2/Accepted.antt =====
-- A hash made by the PBKDF2 hasher is accepted for its password.
use public_cpp_laravel.Prelude.{
  ℕ, ◌+◌, ◌*◌, ◌/◌, ◌%◌, ◌^◌, ◌≡◌, ◌≢◌, refl, ap, ◌∙◌, true, false, [], ◌∷◌, ◌++◌, some, ◌==◌, Text,
  IsBytes, codes, text_eq, split_on, split_on-append, split_on-Lacks, Lacks, All, arith,
}
use public_cpp_laravel.Prelude.Int.{ℤ}
use public_cpp_laravel.Prelude.Bits.{constant_time_equal-text_eq}
use public_cpp_laravel.Prelude.Numbers.{IsNumeral, is_digit}
use public_cpp_laravel.Session.Hash.Verify.{hex_digit-ne}
use public_cpp_laravel.Session.Pbkdf2.{
  IsInt, IntNumbers, Derive, hex, unhex, pbkdf2_make, pbkdf2_check,
}

hex-Lacks : (s : Text) → IsBytes s → Lacks b'$' (hex s)
unfolding hex
hex-Lacks [] h = tt
hex-Lacks (c ∷ s) h = (
  hex_digit-ne (c / 2 ^ 4) (omega (arith, h.0)),
  (hex_digit-ne (c % 16) (omega arith), hex-Lacks s h.1),
)

byte-ne : (c : ℕ) → (c == b'$') ≡ false → c ≢ b'$'
byte-ne c h e = absurd (ground (arith, h, e))

scheme_bytes : Lacks b'$' (codes "pbkdf2")
scheme_bytes = (
  byte-ne b'p' refl,
  (
    byte-ne b'b' refl,
    (byte-ne b'k' refl, (byte-ne b'd' refl, (byte-ne b'f' refl, (byte-ne b'2' refl, tt)))),
  ),
)

digit-ne : (c : ℕ) → is_digit c ≡ true → c ≢ b'$'
digit-ne c h e = absurd (ground (arith, h, e))

digits-Lacks : (s : Text) → All (λ d. is_digit d ≡ true) s → Lacks b'$' s
digits-Lacks [] h = tt
digits-Lacks (c ∷ s) h = (digit-ne c h.0, digits-Lacks s h.1)

numeral-Lacks : (s : Text) → IsNumeral s → Lacks b'$' s
numeral-Lacks _ (IsNumeral.plain c s h k) = (digit-ne c h, digits-Lacks s k)
numeral-Lacks _ (IsNumeral.minus s k) = (minus_ne, digits-Lacks s k)
  where
    minus_ne : ◌≢◌ {A = ℕ} b'-' b'$'
    minus_ne e = absurd (omega (arith, e))

module _ (num : IntNumbers) where
  unhex-hex : (s : Text) → IsBytes s → unhex num (hex s) ≡ some s
  unfolding unhex hex
  unhex-hex [] h = refl
  unhex-hex (c ∷ s) h =
      let digits = num.stoi_hex_digits (c / 2 ^ 4) (c % 16) (omega (arith, h.0)) (omega arith) in
      let byte : (c / 2 ^ 4 * 16 + c % 16) % 256 ≡ c = omega (arith, h.0) in
      rw (digits, unhex-hex s h.1, byte) refl

  module _ (derive : Derive) where
    parts :
        (iterations : ℤ) (salt plain : Text)
        → IsBytes salt
        → IsBytes (derive plain salt iterations)
        → split_on b'$' (pbkdf2_make num derive iterations salt plain)
          ≡ codes "pbkdf2"
            ∷ num.to_string iterations
            ∷ hex salt
            ∷ hex (derive plain salt iterations)
            ∷ []
    unfolding pbkdf2_make
    parts iterations salt plain h k =
        let key : Text = hex (derive plain salt iterations) in
        let rounds : Text = num.to_string iterations in
        let scheme : Lacks b'$' (codes "pbkdf2") = scheme_bytes in
        split_on-append b'$' (codes "pbkdf2") (rounds ++ (b'$' ∷ (hex salt ++ (b'$' ∷ key)))) scheme
        ∙ ap (◌∷◌ (codes "pbkdf2")) (
            split_on-append b'$' rounds (hex salt ++ (b'$' ∷ key))
              (numeral-Lacks rounds (num.to_string-IsNumeral iterations))
            ∙ ap (◌∷◌ rounds) (
                split_on-append b'$' (hex salt) key (hex-Lacks salt h)
                ∙ ap (◌∷◌ (hex salt))
                    (split_on-Lacks b'$' key (hex-Lacks (derive plain salt iterations) k))))

    -- A password is checked against a hash that `make` gave, whatever its salt and its number of
    -- rounds, an `int`, without an exception, and is accepted exactly where the keys that are derived
    -- from it and from the hashed password are the same; the keys are of bytes.
    pub pbkdf2_check-pbkdf2_make :
        (iterations : ℤ) (salt plain guess : Text)
        → IsInt iterations
        → IsBytes salt
        → IsBytes (derive plain salt iterations)
        → IsBytes (derive guess salt iterations)
        → pbkdf2_check num derive guess (pbkdf2_make num derive iterations salt plain)
          ≡ some (text_eq (derive guess salt iterations) (derive plain salt iterations))
    unfolding pbkdf2_check
    pbkdf2_check-pbkdf2_make iterations salt plain guess int h k l =
        rw
          (
            parts iterations salt plain h k,
            num.stoi-to_string iterations int,
            unhex-hex salt h,
            unhex-hex (derive plain salt iterations) k,
          )
          (ap some (
            constant_time_equal-text_eq (derive guess salt iterations)
              (derive plain salt iterations) l k))
