-- ===== src/Token/Verify/Wire.antt =====
-- The bytes that a token is made of.
use public_cpp_laravel.Prelude.{
  ℕ, zero, suc, ◌+◌, ◌-◌, ◌*◌, ◌/◌, ◌%◌, ◌^◌, ◌≡◌, refl, Bool, true, not, ◌&&◌, ◌||◌, List, [], ◌∷◌,
  ◌++◌, arith, leb, ltb, ltb→lt, ◌==◌, Bool-cases, inl, inr, Text, IsByte, IsBytes, codes, All,
  All-append, Lacks, get_or,
}
use public_cpp_laravel.Prelude.Numbers.{IsNumeral, Numbers, is_digit}
use public_cpp_laravel.Token.Json.{json_escape}
use public_cpp_laravel.Token.Base64.{alphabet, digit, write_digits, encode_from, b64url_encode}
use public_cpp_laravel.Token.Payload.{Claims, quote_item, join_items, claims_json}

module _ {A : Type 0} (test : A → Bool) where
  unfoldable pub every : List A → Bool
  every [] = true
  every (x ∷ xs) = test x && every xs

  get_or-every :
      (xs : List A) (i : ℕ) (d : A) → every xs ≡ true → test d ≡ true → test (get_or xs i d) ≡ true
  unfolding every
  get_or-every [] i d h hd = hd
  get_or-every (x ∷ xs) zero d h hd = ground (arith, h)
  get_or-every (x ∷ xs) (suc i) d h hd = get_or-every xs i d (ground (arith, h)) hd

-- A byte that is no dot.
abbrev pub is_digit_byte : ℕ → Bool
is_digit_byte c = ltb c 256 && not (c == b'.')

digit-byte : (n : ℕ) → is_digit_byte (digit n) ≡ true
unfolding every
digit-byte n = get_or-every is_digit_byte alphabet n 0 refl refl

abbrev AreDigits : Text → Type 0
AreDigits s = All (λ c. is_digit_byte c ≡ true) s

write_digits-AreDigits : (fuel val bits : ℕ) → AreDigits (write_digits fuel val bits).0
unfolding write_digits
write_digits-AreDigits zero val bits = tt
write_digits-AreDigits (suc fuel) val bits = elim (Bool-cases (leb 6 bits)) [
  | inl more ↦
      rw more (digit-byte (val / 2 ^ (bits - 6) % 64), write_digits-AreDigits fuel val (bits - 6))
  | inr done ↦ rw done tt
]

encode_from-AreDigits : (val bits : ℕ) (s : Text) → AreDigits (encode_from val bits s)
unfolding encode_from
encode_from-AreDigits val bits [] = elim (Bool-cases (bits == 0)) [
  | inl none_left ↦ rw none_left tt
  | inr left ↦ rw left (digit-byte (val * 256 % 2 ^ 32 / 2 ^ (bits + 2) % 64), tt)
]
encode_from-AreDigits val bits (c ∷ s) =
    All-append (λ c. is_digit_byte c ≡ true)
      (write_digits (bits + 8) ((val * 256 + c) % 2 ^ 32) (bits + 8)).0 _
      (write_digits-AreDigits (bits + 8) ((val * 256 + c) % 2 ^ 32) (bits + 8))
      (encode_from-AreDigits ((val * 256 + c) % 2 ^ 32) _ s)

AreDigits-IsBytes : (s : Text) → AreDigits s → IsBytes s
AreDigits-IsBytes [] h = tt
AreDigits-IsBytes (c ∷ s) h = (ltb→lt c 256 (ground (arith, h.0)), AreDigits-IsBytes s h.1)

AreDigits-Lacks : (s : Text) → AreDigits s → Lacks b'.' s
AreDigits-Lacks [] h = tt
AreDigits-Lacks (c ∷ s) h = (ground (arith, h.0), AreDigits-Lacks s h.1)

pub b64url_encode-IsBytes : (s : Text) → IsBytes (b64url_encode s)
unfolding b64url_encode
b64url_encode-IsBytes s = AreDigits-IsBytes (encode_from 0 0 s) (encode_from-AreDigits 0 0 s)

pub b64url_encode-dot : (s : Text) → Lacks b'.' (b64url_encode s)
unfolding b64url_encode
b64url_encode-dot s = AreDigits-Lacks (encode_from 0 0 s) (encode_from-AreDigits 0 0 s)

-- The bytes of the payload.
pub every-IsBytes : (s : Text) → every (λ c. ltb c 256) s ≡ true → IsBytes s
unfolding every
every-IsBytes [] h = tt
every-IsBytes (c ∷ s) h = (ltb→lt c 256 (ground (arith, h)), every-IsBytes s (ground (arith, h)))

join : (s t : Text) → IsBytes s → IsBytes t → IsBytes (s ++ t)
join s t hs ht = All-append IsByte s t hs ht

json_escape-IsBytes : (s : Text) → IsBytes s → IsBytes (json_escape s)
unfolding json_escape
json_escape-IsBytes [] h = tt
json_escape-IsBytes (c ∷ s) h =
    let rest : IsBytes (json_escape s) = json_escape-IsBytes s h.1 in
    elim (Bool-cases (c == b'"' || c == b'\\')) [
      | inl escaped ↦ rw escaped (omega arith, (h.0, rest))
      | inr literal ↦ rw literal (h.0, rest)
    ]

quote_item-IsBytes : (s : Text) → IsBytes s → IsBytes (quote_item s)
unfolding quote_item every
quote_item-IsBytes s h =
    (omega arith, join (json_escape s) (codes "\"") (json_escape-IsBytes s h) (omega arith, tt))

join_items-IsBytes : (items : List Text) → All IsBytes items → IsBytes (join_items items)
unfolding join_items
join_items-IsBytes [] h = tt
join_items-IsBytes (a ∷ []) h = quote_item-IsBytes a h.0
join_items-IsBytes (a ∷ b ∷ items) h =
    join (quote_item a) (b',' ∷ join_items (b ∷ items)) (quote_item-IsBytes a h.0)
      (omega arith, join_items-IsBytes (b ∷ items) h.1)

digits-IsBytes : (s : Text) → All (λ d. is_digit d ≡ true) s → IsBytes s
digits-IsBytes [] h = tt
digits-IsBytes (d ∷ s) h = (ground (arith, h.0), digits-IsBytes s h.1)

numeral-IsBytes : (s : Text) → IsNumeral s → IsBytes s
numeral-IsBytes _ (IsNumeral.plain d s hd hs) = digits-IsBytes (d ∷ s) (hd, hs)
numeral-IsBytes _ (IsNumeral.minus s hs) = (omega arith, digits-IsBytes s hs)

word : (s t : Text) → every (λ c. ltb c 256) s ≡ true → IsBytes t → IsBytes (s ++ t)
word s t hs ht = join s t (every-IsBytes s hs) ht

pub claims_json-IsBytes :
    (num : Numbers) (c : Claims)
    → IsBytes c.sub
    → All IsBytes c.abilities
    → IsBytes (claims_json num c)
unfolding claims_json every
claims_json-IsBytes num c sub abilities = word (codes "{\"sub\":\"") _ refl (
    join (json_escape c.sub) _ (json_escape-IsBytes c.sub sub) (
      word (codes "\",\"abilities\":[") _ refl (
        join (join_items c.abilities) _ (join_items-IsBytes c.abilities abilities) (
          word (codes "],\"iat\":") _ refl (
            join (num.to_string c.iat) _ (numeral-IsBytes _ (num.to_string-IsNumeral c.iat)) (
              word (codes ",\"exp\":") _ refl (
                join (num.to_string c.exp) (codes "}")
                  (numeral-IsBytes _ (num.to_string-IsNumeral c.exp)) (omega arith, tt))))))))
