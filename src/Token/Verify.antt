-- ===== src/Token/Verify.antt =====
-- What `verify` of include/token.hpp accepts: the tokens that `sign` makes, and no other text.
pub mod Wire
pub mod Accepted
pub mod Hmac
use public_cpp_laravel.Prelude.{
  ℕ, ◌≡◌, ◌≢◌, ◌⊎◌, subst, refl, ap, sym, ◌∙◌, Bool, true, false, List, [], ◌∷◌, ◌++◌, Option, none,
  some, arith, append_assoc, if◌then◌else◌, Bool-cases, inl, inr, Text, IsByte, IsBytes, codes, All,
  All-append, text_eq, text_eq_refl, text_eq→≡, split_at, split_at-append, ◌==◌, ==_iff, find_text,
  starts_with,
}
use public_cpp_laravel.Prelude.Int.{ℤ, pos, eqb_ℤ, eqb_ℤ_iff, ltb_ℤ, ◌≤ℤ◌}
use public_cpp_laravel.Prelude.Bits.{constant_time_equal, constant_time_equal-text_eq}
use public_cpp_laravel.Prelude.Numbers.{Numbers}
use public_cpp_laravel.Token.{
  Sha256, token_header, hmac_sha256, signature, signing_input, sign, unexpired, verify_parts,
  verify_rest, verify_split, verify,
}
use public_cpp_laravel.Token.Base64.{b64url_encode, b64url_decode}
use public_cpp_laravel.Token.Base64.RoundTrip.{b64url_decode-b64url_encode}
use public_cpp_laravel.Token.Json.{extract_int}
use public_cpp_laravel.Token.Payload.{Claims, claims_json, parse_claims}
use public_cpp_laravel.Token.Payload.RoundTrip.{
  IsReadable, parse_claims-claims_json, claims_json-from_sub, from_sub,
}
use public_cpp_laravel.Token.Verify.Wire.{
  b64url_encode-IsBytes, b64url_encode-dot, claims_json-IsBytes,
}

-- `now`, where it is not 0, and the wall clock otherwise.
abbrev pub time_of : ℤ → ℤ → ℤ
time_of clock now = if eqb_ℤ now (pos 0) then clock else now

-- Claims with no expiry, or whose expiry has not passed.
abbrev pub InForce : ℤ → Claims → Type 0
InForce now c = (c.exp ≡ pos 0) ⊎ (now ≤ℤ c.exp)

unexpired-cases :
    (now : ℤ) (c : Claims)
    → (InForce now c × (unexpired now c ≡ some c)) ⊎ ((¬ InForce now c) × (unexpired now c ≡ none))
unfolding unexpired
unexpired-cases now c = elim (Bool-cases (eqb_ℤ c.exp (pos 0))) [
  | inl never ↦ inl (inl ((eqb_ℤ_iff c.exp (pos 0)).0 never), rw never refl)
  | inr timed ↦ elim (Bool-cases (ltb_ℤ c.exp now)) [
    | inl past ↦
        let zero_exp : c.exp ≡ pos 0 → eqb_ℤ c.exp (pos 0) ≡ true = (eqb_ℤ_iff c.exp (pos 0)).1 in
        inr (
          λ h. elim h [
            | inl e ↦ absurd (ground (arith, zero_exp e))
            | inr early ↦ absurd (ground (arith, past, early))
          ],
          rw (timed, past) refl,
        )
    | inr early ↦ inl (inr (ground (arith, early)), rw (timed, early) refl)
  ]
]

-- What is let through is in force.
pub unexpired-InForce :
    (now : ℤ) (c d : Claims) → unexpired now c ≡ some d → InForce now d × (d ≡ c)
unexpired-InForce now c d h = elim (unexpired-cases now c) [
  | inl (valid, e) ↦ let same : c ≡ d = cc in (subst (InForce now) same valid, sym same)
  | inr (past, e) ↦ absurd (cc)
]

module _ (sha : Sha256) (num : Numbers) (clock now : ℤ) (secret : Text) where
  signature-IsBytes : (s : Text) → IsBytes (signature sha secret s)
  unfolding signature
  signature-IsBytes s = b64url_encode-IsBytes (hmac_sha256 sha secret s)

  pub sign-IsBytes : (c : Claims) → IsBytes (sign sha num c secret)
  unfolding sign signing_input
  sign-IsBytes c =
      let head : Text = b64url_encode token_header in
      let payload : Text = b64url_encode (claims_json num c) in
      All-append IsByte (head ++ (b'.' ∷ payload)) _
        (All-append IsByte head (b'.' ∷ payload) (b64url_encode-IsBytes token_header)
          (omega arith, b64url_encode-IsBytes (claims_json num c)))
        (omega arith, signature-IsBytes (head ++ (b'.' ∷ payload)))

  -- A token of three parts, the second of which holds no dot.
  verify-parts :
      (head payload presented : Text)
      → All (λ c. c ≢ b'.') head
      → All (λ c. c ≢ b'.') payload
      → verify sha num clock ((head ++ (b'.' ∷ payload)) ++ (b'.' ∷ presented)) secret now
        ≡ verify_parts sha num (time_of clock now) secret head payload presented
  unfolding verify
  verify-parts head payload presented hh hp =
      rw
        (
          append_assoc head (b'.' ∷ payload) (b'.' ∷ presented),
          split_at-append b'.' head (payload ++ (b'.' ∷ presented)) hh,
        )
        (rw (split_at-append b'.' payload presented hp) refl)

  -- What `sign` makes of claims in bytes is accepted, and read as the payload is.
  pub verify-sign_parse :
      (c : Claims)
      → IsBytes c.sub
      → All IsBytes c.abilities
      → verify sha num clock (sign sha num c secret) secret now
        ≡ unexpired (time_of clock now) (parse_claims num (claims_json num c))
  unfolding sign signing_input verify_parts
  verify-sign_parse c sub abilities =
      let head : Text = b64url_encode token_header in
      let payload : Text = b64url_encode (claims_json num c) in
      let tag : Text = signature sha secret (head ++ (b'.' ∷ payload)) in
      let tag_bytes : IsBytes tag = signature-IsBytes (head ++ (b'.' ∷ payload)) in
      let same : constant_time_equal tag tag ≡ true =
        constant_time_equal-text_eq tag tag tag_bytes tag_bytes ∙ text_eq_refl tag in
      verify-parts head payload tag (b64url_encode-dot token_header)
        (b64url_encode-dot (claims_json num c))
      ∙ rw same (
          ap (λ s. unexpired (time_of clock now) (parse_claims num s))
            (b64url_decode-b64url_encode (claims_json num c)
              (claims_json-IsBytes num c sub abilities)))

  -- A token that `sign` made of readable claims in bytes gives, under the same secret, these claims
  -- where they have no expiry or it has not passed at `now` (the wall clock for a `now` of 0), and
  -- nothing otherwise.
  pub verify-sign :
      (c : Claims)
      → IsReadable c
      → IsBytes c.sub
      → All IsBytes c.abilities
      → let answer = verify sha num clock (sign sha num c secret) secret now in
        (InForce (time_of clock now) c × (answer ≡ some c))
        ⊎ ((¬ InForce (time_of clock now) c) × (answer ≡ none))
  verify-sign c h sub abilities =
      let read =
        verify-sign_parse c sub abilities
        ∙ ap (unexpired (time_of clock now)) (parse_claims-claims_json num c h) in
      elim (unexpired-cases (time_of clock now) c) [
        | inl (valid, e) ↦ inl (valid, read ∙ e)
        | inr (past, e) ↦ inr (past, read ∙ e)
      ]
