-- ===== src/Token.antt =====
-- include/token.hpp: signed tokens. SHA-256 of OpenSSL and the number conversions of the C++ library
-- are parameters; the wall clock is an argument.
pub mod Base64
pub mod Payload
pub mod Json
pub mod Verify
pub mod Personal
use Prim.Native.Nat.{bit_xor}
use public_cpp_laravel.Prelude.{
  ℕ, zero, suc, ◌+◌, ◌-◌, ◌/◌, ◌%◌, Bool, true, false, not, ◌&&◌, ◌||◌, List, [], ◌∷◌, ◌++◌, Option,
  none, some, ltb, ◌==◌, length, if◌then◌else◌, Text, codes, pad_zeros, text_eq, split_at,
  starts_with, drop, get_or, lower, Dict,
}
use public_cpp_laravel.Prelude.Int.{ℤ, pos, ltb_ℤ, eqb_ℤ}
use public_cpp_laravel.Prelude.Bits.{constant_time_equal}
use public_cpp_laravel.Http.Messages.{Request, Response, response}
use public_cpp_laravel.Http.Pipeline.{Run, returned, Handler}
use public_cpp_laravel.Prelude.Numbers.{Numbers}
use public_cpp_laravel.Token.Base64.{b64url_encode, b64url_decode}
use public_cpp_laravel.Token.Payload.{Claims, can, claims_json, parse_claims}

-- `sha256_raw`
abbrev pub Sha256 : Type 0
Sha256 = Text → Text

abbrev hex_alphabet : Text
hex_alphabet = codes "0123456789abcdef"

unfoldable pub hex_of : Text → Text
hex_of [] = []
hex_of (c ∷ s) = get_or hex_alphabet (c / 16) 0 ∷ get_or hex_alphabet (c % 16) 0 ∷ hex_of s

unfoldable pub sha256_hex : Sha256 → Text → Text
unfolding hex_of
sha256_hex sha s = hex_of (sha s)

unfoldable pub xor_all : ℕ → Text → Text
xor_all m [] = []
xor_all m (c ∷ s) = bit_xor c m ∷ xor_all m s

unfoldable pub hmac_sha256 : Sha256 → Text → Text → Text
unfolding pad_zeros xor_all
hmac_sha256 sha key msg =
    let k : Text = pad_zeros 64 (if ltb 64 (length key) then sha key else key) in
    sha (xor_all 0x5C k ++ sha (xor_all 0x36 k ++ msg))

abbrev pub token_header : Text
token_header = codes "{\"alg\":\"HS256\",\"typ\":\"JWT\"}"

unfoldable pub signature : Sha256 → Text → Text → Text
signature sha secret signing_input = b64url_encode (hmac_sha256 sha secret signing_input)

unfoldable pub unexpired : ℤ → Claims → Option Claims
unexpired now c = if not (eqb_ℤ c.exp (pos 0)) && ltb_ℤ c.exp now then none else some c

module _ (sha : Sha256) (num : Numbers) where
  unfoldable pub signing_input : Claims → Text
  signing_input c = b64url_encode token_header ++ (b'.' ∷ b64url_encode (claims_json num c))

  unfoldable pub sign : Claims → Text → Text
  unfolding signature signing_input
  sign c secret = signing_input c ++ (b'.' ∷ signature sha secret (signing_input c))

  -- The claims between the two dots, once the signature has been compared.
  unfoldable pub verify_parts : ℤ → Text → Text → Text → Text → Option Claims
  unfolding unexpired signature
  verify_parts now secret head payload presented =
      if constant_time_equal presented (signature sha secret (head ++ (b'.' ∷ payload)))
      then unexpired now (parse_claims num (b64url_decode payload))
      else none

  unfoldable pub verify_rest : ℤ → Text → Text → Option (Text × Text) → Option Claims
  unfolding verify_parts
  verify_rest now secret head none = none
  verify_rest now secret head (some (payload, presented)) =
      verify_parts now secret head payload presented

  unfoldable pub verify_split : ℤ → Text → Option (Text × Text) → Option Claims
  unfolding verify_rest
  verify_split now secret none = none
  verify_split now secret (some (head, rest)) = verify_rest now secret head (split_at b'.' rest)

  -- `clock` stands in for a `now` of 0.
  unfoldable pub verify : ℤ → Text → Text → ℤ → Option Claims
  unfolding verify_split
  verify clock token secret now =
      verify_split (if eqb_ℤ now (pos 0) then clock else now) secret (split_at b'.' token)

-- Without the prefix, where something stands behind it.
unfoldable pub strip_bearer : Text → Text
strip_bearer v = if ltb 7 (length v) && starts_with (codes "Bearer ") v then drop 7 v else v

unfoldable pub bearer_in : Dict Text Text → Text
unfolding strip_bearer
bearer_in [] = []
bearer_in ((name, value) ∷ hs) =
    if text_eq (lower name) (codes "authorization") then strip_bearer value else bearer_in hs

unfoldable pub bearer_token : Request → Text
unfolding bearer_in
bearer_token req = bearer_in req.headers

unfoldable pub permits : Text → Option Claims → Bool
permits ability none = false
permits ability (some c) = can c ability

unfoldable pub requires_ability :
    {S : Type 0} → Sha256 → Numbers → ℤ → Text → Text → Request → Handler S → S → Run S
unfolding permits
requires_ability sha num clock ability secret req next s =
    if permits ability (verify sha num clock (bearer_token req) secret (pos 0))
    then next req s
    else returned (response 403 (codes "Forbidden")) req s
