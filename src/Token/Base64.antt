-- ===== src/Token/Base64.antt =====
-- include/token.hpp: `b64url_encode` and `b64url_decode`. `val` is the bit pattern of the 32-bit `int`,
-- whose left shift wraps; the low 12 bits, which alone are read, are those of the signed value. `bits` is
-- counted from -6 in the encoder and from -8 in the decoder, so that it is never below 0 here.
pub mod RoundTrip
use public_cpp_laravel.Prelude.{
  ℕ, zero, suc, ◌+◌, ◌-◌, ◌*◌, ◌/◌, ◌%◌, ◌^◌, List, [], ◌∷◌, ◌++◌, Option, none, some, Bool, ◌&&◌,
  leb, ◌==◌, if◌then◌else◌, Text, codes, get_or,
}

abbrev pub alphabet : Text
alphabet = codes "ABCDEFGHIJKLMNOPQRSTUVWXYZabcdefghijklmnopqrstuvwxyz0123456789-_"

abbrev pub digit : ℕ → ℕ
digit n = get_or alphabet n 0

-- The `while` loop: the digits that it writes, and `bits` behind it; `fuel` is enough from `bits` on.
unfoldable pub write_digits : ℕ → ℕ → ℕ → Text × ℕ
write_digits zero val bits = ([], bits)
write_digits (suc fuel) val bits =
    let (rest, left) = write_digits fuel val (bits - 6) in
    let more : Text × ℕ = (digit (val / 2 ^ (bits - 6) % 64) ∷ rest, left) in
    if leb 6 bits then more else ([], bits)

unfoldable pub encode_from : ℕ → ℕ → Text → Text
unfolding write_digits
encode_from val bits [] =
    if bits == 0 then [] else digit (val * 256 % 2 ^ 32 / 2 ^ (bits + 2) % 64) ∷ []
encode_from val bits (c ∷ s) =
    let val' : ℕ = (val * 256 + c) % 2 ^ 32 in
    let (out, left) = write_digits (bits + 8) val' (bits + 8) in out ++ encode_from val' left s

unfoldable pub b64url_encode : Text → Text
unfolding encode_from
b64url_encode s = encode_from 0 0 s

unfoldable pub b64url_val : ℕ → Option ℕ
b64url_val c =
    if leb b'A' c && leb c b'Z'
    then some (c - b'A')
    else if leb b'a' c && leb c b'z'
    then some (c - b'a' + 26)
    else if leb b'0' c && leb c b'9'
    then some (c - b'0' + 52)
    else if c == b'-'
    then some 62
    else if c == b'_'
    then some 63
    else none

-- A stray character is skipped.
unfoldable pub decode_from : ℕ → ℕ → Text → Text
decode_from val bits [] = []
decode_from val bits (c ∷ s) = elim (b64url_val c) [
  | none ↦ decode_from val bits s
  | some d ↦
      let val' : ℕ = (val * 64 + d) % 2 ^ 32 in
      let next = decode_from val' (bits + 6) s in
      let wrote = decode_from val' (bits - 2) s in
      if leb 8 (bits + 6) then val' / 2 ^ (bits - 2) % 256 ∷ wrote else next
]

unfoldable pub b64url_decode : Text → Text
unfolding decode_from
b64url_decode s = decode_from 0 0 s

-- `random_token`, of the bytes that OpenSSL draws.
unfoldable pub random_token : Text → Text
unfolding b64url_encode
random_token raw = b64url_encode raw
