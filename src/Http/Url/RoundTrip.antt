-- ===== src/Http/Url/RoundTrip.antt =====
-- Percent-encoded texts and forms are read back.
use public_cpp_laravel.Prelude.{
  ℕ, ◌+◌, ◌-◌, ◌/◌, ◌%◌, ◌<◌, ◌≡◌, ◌≢◌, refl, ap, sym, ◌∙◌, Bool, true, false, ◌&&◌, ◌||◌, List, [],
  ◌∷◌, ◌++◌, some, arith, leb, ltb, ◌==◌, if◌then◌else◌, Text, IsByte, IsBytes, All, All-append,
  Lacks, Lacks-append, NoBlank, split_on-append, split_on-Lacks, trim, trim-NoBlank, split_at,
  split_at-append, split_on, Dict, insert, text_key, inl, inr, Bool-cases,
}
use public_cpp_laravel.Http.Url.{
  hex, join_nibbles, url_decode, is_space, cook, add_pair, add_pairs, parse_pairs, parse_form,
}

-- RFC 3986: letters, digits and `-._~` stand for themselves, any other byte is written in hex.
abbrev pub is_unreserved : ℕ → Bool
is_unreserved c =
    (leb b'a' c && leb c b'z')
    || (leb b'A' c && leb c b'Z')
    || (leb b'0' c && leb c b'9')
    || c == b'-'
    || c == b'.'
    || c == b'_'
    || c == b'~'

abbrev pub hex_digit : ℕ → ℕ
hex_digit n = if ltb n 10 then b'0' + n else b'A' + (n - 10)

unfoldable pub percent : ℕ → Text
percent c = if is_unreserved c then c ∷ [] else b'%' ∷ hex_digit (c / 16) ∷ hex_digit (c % 16) ∷ []

unfoldable pub percent_encode : Text → Text
percent_encode [] = []
percent_encode (c ∷ s) = percent c ++ percent_encode s

hex-hex_digit : (n : ℕ) → n < 16 → hex (hex_digit n) ≡ some n
unfolding hex
hex-hex_digit n h = ground arith

join_nibbles-hex_digit :
    (c : ℕ) → IsByte c → join_nibbles (hex (hex_digit (c / 16))) (hex (hex_digit (c % 16))) ≡ some c
unfolding join_nibbles
join_nibbles-hex_digit c h =
    rw (hex-hex_digit (c / 16) (omega arith), hex-hex_digit (c % 16) (omega arith))
      (ap some (omega arith))

url_decode-plain :
    (plus : Bool) (c : ℕ) (s : Text)
    → is_unreserved c ≡ true
    → url_decode plus (c ∷ s) ≡ c ∷ url_decode plus s
unfolding url_decode
url_decode-plain plus c [] h = ground arith
url_decode-plain plus c (d ∷ []) h = ground arith
url_decode-plain plus c (d ∷ e ∷ s) h = ground arith

url_decode-percent :
    (plus : Bool) (c : ℕ) (s : Text)
    → IsByte c
    → url_decode plus (percent c ++ s) ≡ c ∷ url_decode plus s
unfolding url_decode percent
url_decode-percent plus c s h = elim (Bool-cases (is_unreserved c)) [
  | inl u ↦ rw u (url_decode-plain plus c s u)
  | inr u ↦ rw (u, join_nibbles-hex_digit c h) refl
]

-- What is percent-encoded, any text of bytes, is decoded to itself, whether or not `+` means a space.
pub url_decode-percent_encode :
    (plus : Bool) (s : Text) → IsBytes s → url_decode plus (percent_encode s) ≡ s
unfolding percent_encode url_decode
url_decode-percent_encode plus [] h = refl
url_decode-percent_encode plus (c ∷ s) h =
    url_decode-percent plus c (percent_encode s) h.0
    ∙ ap (◌∷◌ c) (url_decode-percent_encode plus s h.1)

-- The bytes that are encoded text.
abbrev IsSafe : ℕ → Type 0
IsSafe c = (is_unreserved c || c == b'%') ≡ true

percent-IsSafe : (c : ℕ) → IsByte c → All IsSafe (percent c)
unfolding percent
percent-IsSafe c h = ground arith

percent_encode-IsSafe : (s : Text) → IsBytes s → All IsSafe (percent_encode s)
unfolding percent_encode
percent_encode-IsSafe [] h = tt
percent_encode-IsSafe (c ∷ s) h =
    All-append IsSafe (percent c) (percent_encode s) (percent-IsSafe c h.0)
      (percent_encode-IsSafe s h.1)

IsSafe-Lacks :
    (d : ℕ) (s : Text) → (is_unreserved d || d == b'%') ≡ false → All IsSafe s → Lacks d s
IsSafe-Lacks d [] h k = tt
IsSafe-Lacks d (c ∷ s) h k = (λ e. ground arith, IsSafe-Lacks d s h k.1)

IsSafe-NoBlank : (s : Text) → All IsSafe s → NoBlank is_space s
IsSafe-NoBlank [] k = tt
IsSafe-NoBlank (c ∷ s) k = (ground arith, IsSafe-NoBlank s k.1)

-- A form as a browser writes it.
unfoldable pub pair_text : Text × Text → Text
pair_text (key, value) = percent_encode key ++ (b'=' ∷ percent_encode value)

unfoldable pub form_text : Text × Text → List (Text × Text) → Text
unfolding pair_text
form_text kv [] = pair_text kv
form_text kv (next ∷ rest) = pair_text kv ++ (b'&' ∷ form_text next rest)

abbrev pub BytePair : Text × Text → Type 0
BytePair kv = IsBytes kv.0 × IsBytes kv.1

abbrev pub insert_all : List (Text × Text) → Dict Text Text → Dict Text Text
insert_all [] m = m
insert_all ((k, v) ∷ kvs) m = insert_all kvs (insert k v m)

cook-percent_encode : (s : Text) → IsBytes s → cook true (trim is_space (percent_encode s)) ≡ s
unfolding cook
cook-percent_encode s h =
    rw (trim-NoBlank is_space (percent_encode s) (IsSafe-NoBlank _ (percent_encode-IsSafe s h)))
      (url_decode-percent_encode true s h)

pair_text-Lacks : (kv : Text × Text) → BytePair kv → Lacks b'&' (pair_text kv)
unfolding pair_text
pair_text-Lacks (key, value) h =
    Lacks-append b'&' (percent_encode key) (b'=' ∷ percent_encode value)
      (IsSafe-Lacks b'&' _ refl (percent_encode-IsSafe key h.0))
      (ground arith, IsSafe-Lacks b'&' _ refl (percent_encode-IsSafe value h.1))

add_pair-pair_text :
    (kv : Text × Text) (out : Dict Text Text)
    → BytePair kv
    → add_pair true (split_at b'=' (pair_text kv)) out ≡ insert kv.0 kv.1 out
unfolding pair_text add_pair
add_pair-pair_text (key, value) out h =
    rw
      (
        split_at-append b'=' (percent_encode key) (percent_encode value)
            (IsSafe-Lacks b'=' _ refl (percent_encode-IsSafe key h.0)),
        cook-percent_encode key h.0,
        cook-percent_encode value h.1,
      )
      refl

add_pairs-form_text :
    (kv : Text × Text) (kvs : List (Text × Text)) (out : Dict Text Text)
    → BytePair kv
    → All BytePair kvs
    → add_pairs true (split_on b'&' (form_text kv kvs)) out ≡ insert_all (kv ∷ kvs) out
unfolding form_text add_pairs
add_pairs-form_text kv [] out h hs =
    ap (λ l. add_pairs true l out) (split_on-Lacks b'&' (pair_text kv) (pair_text-Lacks kv h))
    ∙ add_pair-pair_text kv out h
add_pairs-form_text kv (next ∷ kvs) out h hs =
    ap (λ l. add_pairs true l out)
      (split_on-append b'&' (pair_text kv) (form_text next kvs) (pair_text-Lacks kv h))
    ∙ ap (add_pairs true (split_on b'&' (form_text next kvs))) (add_pair-pair_text kv out h)
    ∙ add_pairs-form_text next kvs (insert kv.0 kv.1 out) hs.0 hs.1

-- A form of any names and values, with at least one pair, written as a browser writes it, is read
-- back as the map of its pairs, the last one of a name counting.
pub parse_form-form_text :
    (kv : Text × Text) (kvs : List (Text × Text))
    → BytePair kv
    → All BytePair kvs
    → parse_form (form_text kv kvs) ≡ insert_all (kv ∷ kvs) []
unfolding parse_form parse_pairs
parse_form-form_text kv kvs h hs = add_pairs-form_text kv kvs [] h hs

pair_text-Lacks_safe :
    (c : ℕ) (kv : Text × Text)
    → (is_unreserved c || c == b'%') ≡ false
    → c ≢ b'='
    → BytePair kv
    → Lacks c (pair_text kv)
unfolding pair_text
pair_text-Lacks_safe c (key, value) safe eq h =
    Lacks-append c (percent_encode key) (b'=' ∷ percent_encode value)
      (IsSafe-Lacks c _ safe (percent_encode-IsSafe key h.0))
      (λ e. eq (sym e), IsSafe-Lacks c _ safe (percent_encode-IsSafe value h.1))

pub form_text-Lacks :
    (c : ℕ) (kv : Text × Text) (kvs : List (Text × Text))
    → (is_unreserved c || c == b'%') ≡ false
    → c ≢ b'='
    → c ≢ b'&'
    → BytePair kv
    → All BytePair kvs
    → Lacks c (form_text kv kvs)
unfolding form_text
form_text-Lacks c kv [] safe eq amp h hs = pair_text-Lacks_safe c kv safe eq h
form_text-Lacks c kv (next ∷ kvs) safe eq amp h hs =
    Lacks-append c (pair_text kv) (b'&' ∷ form_text next kvs) (pair_text-Lacks_safe c kv safe eq h)
      (λ e. amp (sym e), form_text-Lacks c next kvs safe eq amp hs.0 hs.1)
