-- ===== src/Websocket/Accept.antt =====
-- include/websocket.hpp: `base64` and `accept_key`, with `val` and `bits` as in Token/Base64. SHA-1 is
-- OpenSSL's and a parameter.
pub mod Decoded
use public_cpp_laravel.Prelude.{
  ℕ, zero, suc, ◌+◌, ◌-◌, ◌*◌, ◌/◌, ◌%◌, ◌^◌, List, [], ◌∷◌, ◌++◌, leb, ◌==◌, if◌then◌else◌, length,
  Text, codes, get_or,
}

abbrev pub base64_alphabet : Text
base64_alphabet = codes "ABCDEFGHIJKLMNOPQRSTUVWXYZabcdefghijklmnopqrstuvwxyz0123456789+/"

abbrev pub base64_digit : ℕ → ℕ
base64_digit n = get_or base64_alphabet n 0

-- The `while` loop over the bits; `fuel` is enough from `bits` on.
unfoldable pub base64_digits : ℕ → ℕ → ℕ → Text × ℕ
base64_digits zero val bits = ([], bits)
base64_digits (suc fuel) val bits =
    let (rest, left) = base64_digits fuel val (bits - 6) in
    let more : Text × ℕ = (base64_digit (val / 2 ^ (bits - 6) % 64) ∷ rest, left) in
    if leb 6 bits then more else ([], bits)

unfoldable pub base64_from : ℕ → ℕ → Text → Text
unfolding base64_digits
base64_from val bits [] =
    if bits == 0 then [] else base64_digit (val * 256 % 2 ^ 32 / 2 ^ (bits + 2) % 64) ∷ []
base64_from val bits (c ∷ s) =
    let val' : ℕ = (val * 256 + c) % 2 ^ 32 in
    let (out, left) = base64_digits (bits + 8) val' (bits + 8) in out ++ base64_from val' left s

-- `while (out.size() % 4)`, of which there are at most three rounds.
unfoldable pub pad : ℕ → Text → Text
pad zero out = out
pad (suc fuel) out =
    let padded = pad fuel (out ++ (b'=' ∷ [])) in if length out % 4 == 0 then out else padded

unfoldable pub base64 : Text → Text
unfolding base64_from pad
base64 s = pad 3 (base64_from 0 0 s)

abbrev pub magic : Text
magic = codes "258EAFA5-E914-47DA-95CA-C5AB0DC85B11"

unfoldable pub accept_key : (Text → Text) → Text → Text
unfolding base64
accept_key sha1 client_key = base64 (sha1 (client_key ++ magic))
