-- ===== src/Tests/Token.antt =====
-- Runs of the token code, and of its theorems, at concrete inputs.
use public_cpp_laravel.Prelude.{
  ℕ, ◌%◌, ◌≡◌, ◌≢◌, ◌⊎◌, ◌∙◌, ap, inr, refl, false, none, [], ◌∷◌, some, arith, Text, IsBytes,
  codes, length, ◌==◌, text_eq, text_eq_iff,
}
use public_cpp_laravel.Prelude.Int.{pos}
use public_cpp_laravel.Tests.Strokes.{stroke_numbers}
use public_cpp_laravel.Token.{Sha256, sign, unexpired, verify}
use public_cpp_laravel.Token.Payload.{Claims}
use public_cpp_laravel.Token.Payload.RoundTrip.{IsReadable, parse_claims-claims_json}
use public_cpp_laravel.Token.Verify.{verify-sign, sign-IsBytes, InForce, verify-sign_parse}
use public_cpp_laravel.Token.Verify.Accepted.{Genuine, verify-Genuine}
use public_cpp_laravel.Token.Verify.Wire.{every, every-IsBytes}

-- A short stand-in for the hash.
abbrev length_hash : Sha256
length_hash s = length s % 256 ∷ b'#' ∷ []

abbrev user_claims : Claims
user_claims = record { sub = codes "7"; abilities = codes "any" ∷ []; iat = pos 1; exp = pos 3 }

abbrev exp_claims : Claims
exp_claims = record { sub = codes "exp"; abilities = codes "ab" ∷ []; iat = pos 1; exp = pos 3 }

a_b_bytes : IsBytes (codes "a~b{")
unfolding every
a_b_bytes = every-IsBytes (codes "a~b{") refl

apart_test : (c d : ℕ) → (c == d) ≡ false → c ≢ d
apart_test c d h e = absurd (ground (arith, h, e))

apart_words : (s t : Text) → text_eq s t ≡ false → s ≢ t
apart_words s t h e = let same = (text_eq_iff s t).1 e in absurd (cc)

plain_byte :
    (c : ℕ)
    → ((c == b'"') ≡ false) × ((c == b'\\') ≡ false) × ((c == b']') ≡ false)
    → (c ≢ b'"') × (c ≢ b'\\') × (c ≢ b']')
plain_byte c h = (apart_test _ _ h.0, apart_test _ _ h.1, apart_test _ _ h.2)

user_claims-IsReadable : IsReadable user_claims
user_claims-IsReadable = record {
  sub_plain = (plain_byte _ (refl, refl, refl), tt);
  sub_abilities = apart_words _ _ refl;
  sub_iat = apart_words _ _ refl;
  sub_exp = apart_words _ _ refl;
  abilities_plain = (
    (
      plain_byte _ (refl, refl, refl),
      (plain_byte _ (refl, refl, refl), (plain_byte _ (refl, refl, refl), tt)),
    ),
    tt,
  );
  abilities_iat = (apart_words _ _ refl, tt);
  abilities_exp = (apart_words _ _ refl, tt);
  iat_int = omega arith;
  exp_int = omega arith;
}

-- Before the expiry, and behind it.
verify-sign_example :
    let answer =
      verify length_hash stroke_numbers
        (pos 9)
        (sign length_hash stroke_numbers user_claims (codes "key"))
        (codes "key")
        (pos 2) in
    (InForce (pos 2) user_claims × (answer ≡ some user_claims))
    ⊎ ((¬ InForce (pos 2) user_claims) × (answer ≡ none))
verify-sign_example =
    verify-sign length_hash stroke_numbers (pos 9) (pos 2) (codes "key") user_claims
      user_claims-IsReadable (omega arith, tt) ((omega arith, (omega arith, (omega arith, tt))), tt)

abbrev token : Text
token = sign length_hash stroke_numbers user_claims (codes "key")

user_claims-InForce : InForce (pos 2) user_claims
user_claims-InForce = inr (omega arith)

token_accepted :
    verify length_hash stroke_numbers (pos 9) token (codes "key") (pos 2) ≡ some user_claims
token_accepted =
    verify-sign_parse length_hash stroke_numbers (pos 9) (pos 2) (codes "key") user_claims
      (omega arith, tt) ((omega arith, (omega arith, (omega arith, tt))), tt)
    ∙ ap (unexpired (pos 2))
        (parse_claims-claims_json stroke_numbers user_claims user_claims-IsReadable)
    ∙ still_valid
  where
    still_valid : unexpired (pos 2) user_claims ≡ some user_claims
    still_valid = unfold unexpired in refl

verify-Genuine_example :
    Genuine length_hash stroke_numbers (pos 9) (pos 2) (codes "key") token user_claims
verify-Genuine_example =
    verify-Genuine length_hash stroke_numbers (pos 9) (pos 2) (codes "key") token user_claims
      (sign-IsBytes length_hash stroke_numbers (pos 9) (pos 2) (codes "key") user_claims)
      token_accepted
