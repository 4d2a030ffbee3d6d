-- ===== src/Token/Verify/Hmac.antt =====
-- HMAC as RFC 2104 has it, by which `hmac_sha256` and the signature are measured.
use Prim.Native.Nat.{bit_xor}
use public_cpp_laravel.Prelude.{
  ℕ, zero, suc, ◌≤◌, ◌≡◌, refl, ap, ◌∙◌, [], ◌∷◌, ◌++◌, arith, length, ltb, if◌then◌else◌, take,
  map, pad_zeros, Text,
}
use public_cpp_laravel.Token.{Sha256, xor_all, hmac_sha256, signature}
use public_cpp_laravel.Token.Base64.{b64url_encode}

abbrev pub zeros : ℕ → Text
zeros zero = []
zeros (suc n) = 0 ∷ zeros n

abbrev pub xor_with : ℕ → Text → Text
xor_with m s = map (λ c. bit_xor c m) s

-- The key, or its digest where it is longer than a block, filled up with zeros to a block of 64 bytes.
abbrev pub key_block : Sha256 → Text → Text
key_block sha key = take 64 ((if ltb 64 (length key) then sha key else key) ++ zeros 64)

abbrev pub hmac : Sha256 → Text → Text → Text
hmac sha key msg =
    sha (xor_with 0x5C (key_block sha key) ++ sha (xor_with 0x36 (key_block sha key) ++ msg))

take-zeros : (n m : ℕ) → n ≤ m → pad_zeros n [] ≡ take n (zeros m)
unfolding pad_zeros
take-zeros zero m h = refl
take-zeros (suc n) zero h = absurd (omega arith)
take-zeros (suc n) (suc m) h = ap (λ s. 0 ∷ s) (take-zeros n m (omega arith))

pad_zeros_lem : (n m : ℕ) (s : Text) → n ≤ m → pad_zeros n s ≡ take n (s ++ zeros m)
unfolding pad_zeros
pad_zeros_lem zero m s h = refl
pad_zeros_lem (suc n) m [] h = take-zeros (suc n) m h
pad_zeros_lem (suc n) m (c ∷ s) h = ap (λ t. c ∷ t) (pad_zeros_lem n m s (omega arith))

xor_all_lem : (m : ℕ) (s : Text) → xor_all m s ≡ xor_with m s
unfolding xor_all
xor_all_lem m [] = refl
xor_all_lem m (c ∷ s) = ap (λ t. bit_xor c m ∷ t) (xor_all_lem m s)

hmac_sha256_lem : (sha : Sha256) (key msg : Text) → hmac_sha256 sha key msg ≡ hmac sha key msg
unfolding hmac_sha256
hmac_sha256_lem sha key msg =
    let k : Text = if ltb 64 (length key) then sha key else key in
    ap (λ b. sha (xor_all 0x5C b ++ sha (xor_all 0x36 b ++ msg)))
      (pad_zeros_lem 64 64 k (omega arith))
    ∙ (λ i. sha (
        xor_all_lem 0x5C (key_block sha key) i
        ++ sha (xor_all_lem 0x36 (key_block sha key) i ++ msg)))

pub signature_lem :
    (sha : Sha256) (secret s : Text) → signature sha secret s ≡ b64url_encode (hmac sha secret s)
unfolding signature
signature_lem sha secret s = ap b64url_encode (hmac_sha256_lem sha secret s)
