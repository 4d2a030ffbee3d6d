-- ===== src/Token/Verify/Accepted.antt =====
-- What a text that `verify` accepts is made of, and the token that never expires.
use mathlib.Core.Option
use public_cpp_laravel.Prelude.{
  ℕ, ◌≡◌, ◌≢◌, refl, ap, sym, subst, ◌∙◌, Bool, true, false, [], ◌∷◌, ◌++◌, Option, none, some,
  arith, append_assoc, if◌then◌else◌, Bool-cases, inl, inr, Text, IsBytes, codes, All, text_eq→≡,
  split_at, leb, ◌==◌, ==_iff, starts_with,
}
use public_cpp_laravel.Prelude.Int.{ℤ, pos}
use public_cpp_laravel.Prelude.Bits.{constant_time_equal, constant_time_equal-text_eq}
use public_cpp_laravel.Prelude.Numbers.{Numbers}
use public_cpp_laravel.Token.{
  Sha256, signature, sign, unexpired, verify_parts, verify_rest, verify_split, verify,
}
use public_cpp_laravel.Token.Base64.{b64url_encode, b64url_decode}
use public_cpp_laravel.Token.Json.{extract_int}
use public_cpp_laravel.Token.Payload.{Claims, claims_json, parse_claims}
use public_cpp_laravel.Token.Payload.Search.{IsPlain}
use public_cpp_laravel.Token.Payload.RoundTrip.{claims_json-from_sub, from_sub}
use public_cpp_laravel.Token.Verify.{time_of, verify-sign_parse, InForce, unexpired-InForce}
use public_cpp_laravel.Token.Verify.Hmac.{hmac, signature_lem}
use public_cpp_laravel.Token.Verify.Wire.{b64url_encode-IsBytes}

-- A text is what is before the first `c`, `c`, and what is behind it.
abbrev Joined : ℕ → Text → Option (Text × Text) → Type 0
Joined c s none = Unit
Joined c s (some (before, behind)) = s ≡ before ++ (c ∷ behind)

Joined-map :
    (c d : ℕ) (s : Text) (o : Option (Text × Text))
    → Joined c s o
    → Joined c (d ∷ s) (Option.map (λ p. (d ∷ p.0, p.1)) o)
Joined-map c d s none h = tt
Joined-map c d s (some p) h = ap (◌∷◌ d) h

split_at-Joined : (c : ℕ) (s : Text) → Joined c s (split_at c s)
unfolding split_at
split_at-Joined c [] = tt
split_at-Joined c (d ∷ s) = elim (Bool-cases (d == c)) [
  | inl here ↦ rw here (ap (λ k. k ∷ s) ((==_iff d c).0 here))
  | inr later ↦ rw later (Joined-map c d s (split_at c s) (split_at-Joined c s))
]

IsBytes_behind :
    (before : Text) (c : ℕ) (behind : Text) → IsBytes (before ++ (c ∷ behind)) → IsBytes behind
IsBytes_behind [] c behind h = h.1
IsBytes_behind (d ∷ before) c behind h = IsBytes_behind before c behind h.1

guard_passed :
    (b : Bool) (o : Option Claims) (c : Claims)
    → (if b then o else none) ≡ some c
    → (b ≡ true) × (o ≡ some c)
guard_passed true o c h = (refl, h)
guard_passed false o c h = absurd (cc)

plain_byte : (c : ℕ) → leb b'_' c ≡ true → (c ≢ b'"') × (c ≢ b'\\') × (c ≢ b']')
plain_byte c h = (ground arith, ground arith, ground arith)

exp-IsPlain : IsPlain (codes "exp")
exp-IsPlain = (plain_byte _ refl, (plain_byte _ refl, (plain_byte _ refl, tt)))

exp_lost :
    (num : Numbers) (c : Claims)
    → c.sub ≡ codes "exp"
    → extract_int num.stoll (claims_json num c) (codes "exp") ≡ pos 0
unfolding extract_int starts_with
exp_lost num c e =
    let rest : Text → Text =
      λ s. b'{' ∷ from_sub s c.abilities (num.to_string c.iat) (num.to_string c.exp) in
    ap (λ j. extract_int num.stoll j (codes "exp"))
      (claims_json-from_sub num c (subst IsPlain (sym e) exp-IsPlain) ∙ ap rest e)

exp_bytes : IsBytes (codes "exp")
exp_bytes = (omega arith, (omega arith, (omega arith, tt)))

unexpired_zero : (now : ℤ) (c : Claims) → c.exp ≡ pos 0 → unexpired now c ≡ some c
unfolding unexpired
unexpired_zero now c e = rw e refl

module _ (sha : Sha256) (num : Numbers) (clock now : ℤ) (secret : Text) where
  -- The text is two parts and, in base64url, their HMAC; the claims are the second part's, in force.
  abbrev pub Genuine : Text → Claims → Type 0
  Genuine token c =
      (head : Text) × (payload : Text) × (token
        ≡ (head ++ (b'.' ∷ payload))
          ++ (b'.' ∷ b64url_encode (hmac sha secret (head ++ (b'.' ∷ payload)))))
      × (c ≡ parse_claims num (b64url_decode payload))
      × InForce (time_of clock now) c

  parts-Genuine :
      (token head payload presented : Text) (c : Claims)
      → IsBytes presented
      → token ≡ head ++ (b'.' ∷ (payload ++ (b'.' ∷ presented)))
      → verify_parts sha num (time_of clock now) secret head payload presented ≡ some c
      → Genuine token c
  unfolding verify_parts signature
  parts-Genuine token head payload presented c bytes e h =
      let tag : Text = signature sha secret (head ++ (b'.' ∷ payload)) in
      let tag_bytes : IsBytes tag = b64url_encode-IsBytes _ in
      let (compared, fresh) = guard_passed (constant_time_equal presented tag) _ c h in
      let mac : Text = b64url_encode (hmac sha secret (head ++ (b'.' ∷ payload))) in
      let same : presented ≡ mac =
        text_eq→≡ presented tag
          (sym (constant_time_equal-text_eq presented tag bytes tag_bytes) ∙ compared)
        ∙ signature_lem sha secret (head ++ (b'.' ∷ payload)) in
      let (valid, read) = unexpired-InForce (time_of clock now) _ c fresh in
      (
        head,
        payload,
        e
            ∙ ap (λ s. head ++ (b'.' ∷ (payload ++ (b'.' ∷ s)))) same
            ∙ sym (append_assoc head (b'.' ∷ payload) (b'.' ∷ mac)),
        read,
        valid,
      )

  rest-Genuine :
      (token head rest : Text) (o : Option (Text × Text)) (c : Claims)
      → IsBytes rest
      → token ≡ head ++ (b'.' ∷ rest)
      → Joined b'.' rest o
      → verify_rest sha num (time_of clock now) secret head o ≡ some c
      → Genuine token c
  unfolding verify_rest
  rest-Genuine token head rest none c bytes e j h = absurd (cc)
  rest-Genuine token head rest (some (payload, presented)) c bytes e j h =
      parts-Genuine token head payload presented c
        (IsBytes_behind payload b'.' presented (subst IsBytes j bytes))
        (e ∙ ap (λ s. head ++ (b'.' ∷ s)) j) h

  split-Genuine :
      (token : Text) (o : Option (Text × Text)) (c : Claims)
      → IsBytes token
      → Joined b'.' token o
      → verify_split sha num (time_of clock now) secret o ≡ some c
      → Genuine token c
  unfolding verify_split
  split-Genuine token none c bytes j h = absurd (cc)
  split-Genuine token (some (head, rest)) c bytes j h =
      rest-Genuine token head rest (split_at b'.' rest) c
        (IsBytes_behind head b'.' rest (subst IsBytes j bytes)) j (split_at-Joined b'.' rest) h

  -- A text of bytes that `verify` accepts is two parts and a third that is, in base64url, the HMAC of
  -- these two under the secret; the claims returned are those of the second part,
  -- with no expiry or one that has not passed at `now` (the wall clock for a `now` of 0).
  pub verify-Genuine :
      (token : Text) (c : Claims)
      → IsBytes token
      → verify sha num clock token secret now ≡ some c
      → Genuine token c
  unfolding verify
  verify-Genuine token c bytes h =
      split-Genuine token (split_at b'.' token) c bytes (split_at-Joined b'.' token) h

  -- A token that `sign` made of claims in bytes whose subject is the word `exp` is accepted at any
  -- time, whatever its expiry.
  pub verify-sign_exp :
      (c : Claims)
      → c.sub ≡ codes "exp"
      → All IsBytes c.abilities
      → verify sha num clock (sign sha num c secret) secret now
        ≡ some (parse_claims num (claims_json num c))
  unfolding parse_claims
  verify-sign_exp c e abilities =
      verify-sign_parse sha num clock now secret c (subst IsBytes (sym e) exp_bytes) abilities
      ∙ unexpired_zero (time_of clock now) (parse_claims num (claims_json num c)) (exp_lost num c e)
