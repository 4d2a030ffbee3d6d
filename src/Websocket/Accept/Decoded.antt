-- ===== src/Websocket/Accept/Decoded.antt =====
-- The accept key, read back.
use public_cpp_laravel.Prelude.{
  ℕ, zero, suc, ◌+◌, ◌-◌, ◌*◌, ◌/◌, ◌%◌, ◌^◌, ◌≤◌, ◌≢◌, ◌≡◌, refl, ap, ◌∙◌, inl, inr, Bool,
  Bool-cases, Option-cases, true, [], ◌∷◌, ◌++◌, none, arith, map, leb, ◌==◌, ==_iff, if◌then◌else◌,
  length, length-append, Text, IsBytes,
}
use public_cpp_laravel.Prelude.Bits.{holds_under, holds_at}
use public_cpp_laravel.Token.Base64.{
  digit, write_digits, encode_from, b64url_encode, b64url_val, decode_from, b64url_decode,
}
use public_cpp_laravel.Token.Base64.RoundTrip.{b64url_decode-b64url_encode}
use public_cpp_laravel.Websocket.Accept.{
  base64_digit, base64_digits, base64_from, pad, base64, magic, accept_key,
}

-- The digit of base64url that stands for the same value; padding stays.
abbrev pub url_digit : ℕ → ℕ
url_digit c = if c == b'+' then b'-' else if c == b'/' then b'_' else c

abbrev agrees : ℕ → Bool
agrees n = url_digit (base64_digit n) == digit n

every_agrees : holds_under agrees 64 ≡ true
unfolding holds_under
every_agrees = refl

url_digit-base64_digit : (n : ℕ) → url_digit (base64_digit (n % 64)) ≡ digit (n % 64)
url_digit-base64_digit n = (==_iff _ _).0 (holds_at agrees 64 (n % 64) (omega arith) every_agrees)

map-append : (f : ℕ → ℕ) (s t : Text) → map f (s ++ t) ≡ map f s ++ map f t
map-append f [] t = refl
map-append f (c ∷ s) t = ap (λ u. f c ∷ u) (map-append f s t)

map-base64_digits :
    (fuel val bits : ℕ)
    → (map url_digit (base64_digits fuel val bits).0 ≡ (write_digits fuel val bits).0)
      × ((base64_digits fuel val bits).1 ≡ (write_digits fuel val bits).1)
unfolding base64_digits write_digits
map-base64_digits zero val bits = (refl, refl)
map-base64_digits (suc fuel) val bits =
    let ih = map-base64_digits fuel val (bits - 6) in
    elim (Bool-cases (leb 6 bits)) [
      | inl more ↦ rw more (λ i. url_digit-base64_digit (val / 2 ^ (bits - 6)) i ∷ ih.0 i, ih.1)
      | inr done ↦ rw done (refl, refl)
    ]

map-base64_from :
    (val bits : ℕ) (s : Text) → map url_digit (base64_from val bits s) ≡ encode_from val bits s
unfolding base64_from encode_from
map-base64_from val bits [] = elim (Bool-cases (bits == 0)) [
  | inl none_left ↦ rw none_left refl
  | inr some_left ↦
      rw some_left (ap (λ c. c ∷ []) (url_digit-base64_digit (val * 256 % 2 ^ 32 / 2 ^ (bits + 2))))
]
map-base64_from val bits (c ∷ s) =
    let val' : ℕ = (val * 256 + c) % 2 ^ 32 in
    let (out, left) = map-base64_digits (bits + 8) val' (bits + 8) in
    map-append url_digit (base64_digits (bits + 8) val' (bits + 8)).0
      (base64_from val' (base64_digits (bits + 8) val' (bits + 8)).1 s)
    ∙ (λ i. out i ++ map-base64_from val' (base64_digits (bits + 8) val' (bits + 8)).1 s i)
    ∙ (λ i. (write_digits (bits + 8) val' (bits + 8)).0 ++ encode_from val' (left i) s)

-- A byte that is no digit is skipped, at the end too.
decode_from-stray :
    (val bits c : ℕ) (s : Text)
    → b64url_val c ≡ none
    → decode_from val bits (s ++ (c ∷ [])) ≡ decode_from val bits s
unfolding decode_from
decode_from-stray val bits c [] h = rw (h, decode_from) refl
decode_from-stray val bits c (d ∷ s) h = elim (Option-cases (b64url_val d)) [
  | inl e ↦ rw (e, decode_from) (decode_from-stray val bits c s h)
  | inr (x, e) ↦
      let val' : ℕ = (val * 64 + x) % 2 ^ 32 in
      rw (e, decode_from)
        (λ i.
          if leb 8 (bits + 6)
          then val' / 2 ^ (bits - 2) % 256 ∷ decode_from-stray val' (bits - 2) c s h i
          else decode_from-stray val' (bits + 6) c s h i)
]

equals_stray : b64url_val b'=' ≡ none
unfolding b64url_val
equals_stray = refl

pad-decode :
    (fuel : ℕ) (out : Text)
    → b64url_decode (map url_digit (pad fuel out)) ≡ b64url_decode (map url_digit out)
unfolding pad b64url_decode
pad-decode zero out = refl
pad-decode (suc fuel) out = elim (Bool-cases (length out % 4 == 0)) [
  | inl full ↦ rw full refl
  | inr short ↦ rw short (
      pad-decode fuel (out ++ (b'=' ∷ []))
      ∙ ap b64url_decode (map-append url_digit out (b'=' ∷ []))
      ∙ decode_from-stray 0 0 b'=' (map url_digit out) equals_stray)
]

length-pad :
    (fuel : ℕ) (out : Text) → 3 ≤ (length out + 3) % 4 + fuel → length (pad fuel out) % 4 ≡ 0
unfolding pad
length-pad zero out h = omega arith
length-pad (suc fuel) out h = elim (Bool-cases (length out % 4 == 0)) [
  | inl full ↦ rw full (ground arith)
  | inr short ↦
      let short_lem : length out % 4 ≢ 0 = ground (arith, short) in
      rw short (
        length-pad fuel (out ++ (b'=' ∷ [])) omega
          (arith, length-append {0} out (b'=' ∷ []), short_lem))
]

-- Read as base64url, with `-` and `_` for `+` and `/`, the accept key is the SHA-1 digest of the client's
-- key with the GUID behind it, and its padding brings its length to a multiple of four.
pub accept_key-decoded :
    (sha1 : Text → Text) (client_key : Text)
    → IsBytes (sha1 (client_key ++ magic))
    → (b64url_decode (map url_digit (accept_key sha1 client_key)) ≡ sha1 (client_key ++ magic))
      × (length (accept_key sha1 client_key) % 4 ≡ 0)
unfolding accept_key base64 b64url_encode
accept_key-decoded sha1 client_key h =
    let digest : Text = sha1 (client_key ++ magic) in
    (
      pad-decode 3 (base64_from 0 0 digest)
          ∙ ap b64url_decode (map-base64_from 0 0 digest)
          ∙ b64url_decode-b64url_encode digest h,
      length-pad 3 (base64_from 0 0 digest) (omega arith),
    )
