-- ===== src/Token/Payload/RoundTrip.antt =====
-- The claims are read back from their JSON text.
use public_cpp_laravel.Prelude.{
  ℕ, ◌≡◌, ◌≢◌, refl, ap, sym, ◌∙◌, false, List, [], ◌∷◌, ◌++◌, arith, ◌==◌, Text, codes, All, Lacks,
  text_eq, text_eq_iff, starts_with,
}
use public_cpp_laravel.Prelude.Int.{ℤ, IsInt64}
use public_cpp_laravel.Prelude.Numbers.{IsNumeral, Numbers, is_digit}
use public_cpp_laravel.Token.Json.{
  quoted, extract_string, extract_int, extract_string_array, take_number, skip_spaces, number_of,
  or_zero,
}
use public_cpp_laravel.Token.Payload.{Claims, join_items, claims_json, parse_claims}
use public_cpp_laravel.Token.Payload.Search.{
  Found, Found-here, Found-skip_all, skip_char, skip_quoted, IsPlain, plain_quote,
  json_escape-IsPlain, scan_string-IsPlain, number_taken, numeral_quote,
}
use public_cpp_laravel.Token.Payload.Items.{ArePlain, skip_items, items_before-join_items}

-- A key that no punctuation of the text can begin.
abbrev IsKey : ℕ → Text → Type 0
IsKey k key =
    Lacks b'"' (k ∷ key) × ((k == b':') ≡ false) × ((k == b',') ≡ false) × ((k == b']') ≡ false)

-- The text from each of the keys on.
abbrev from_exp : Text → Text
from_exp exp = codes "\"exp\":" ++ (exp ++ codes "}")

abbrev from_iat : Text → Text → Text
from_iat iat exp = codes "\"iat\":" ++ (iat ++ (b',' ∷ from_exp exp))

abbrev from_abilities : List Text → Text → Text → Text
from_abilities abilities iat exp =
    codes "\"abilities\":[" ++ (join_items abilities ++ (b']' ∷ b',' ∷ from_iat iat exp))

abbrev pub from_sub : Text → List Text → Text → Text → Text
from_sub sub abilities iat exp =
    codes "\"sub\":\"" ++ (sub ++ (b'"' ∷ b',' ∷ from_abilities abilities iat exp))

apart_quote : (c : ℕ) → (c == b'"') ≡ false → c ≢ b'"'
apart_quote c h e = absurd (ground (arith, h, e))

sub_quote : Lacks b'"' (codes "sub")
sub_quote = (apart_quote _ refl, (apart_quote _ refl, (apart_quote _ refl, tt)))

iat_quote : Lacks b'"' (codes "iat")
iat_quote = (apart_quote _ refl, (apart_quote _ refl, (apart_quote _ refl, tt)))

abilities_quote : Lacks b'"' (codes "abilities")
abilities_quote = (
  apart_quote _ refl,
  (
    apart_quote _ refl,
    (
      apart_quote _ refl,
      (
        apart_quote _ refl,
        (
          apart_quote _ refl,
          (
            apart_quote _ refl,
            (apart_quote _ refl, (apart_quote _ refl, (apart_quote _ refl, tt))),
          ),
        ),
      ),
    ),
  ),
)

skip_sub :
    (k : ℕ) (key sub : Text) (abilities : List Text) (iat exp rest : Text)
    → IsKey k key
    → codes "sub" ≢ k ∷ key
    → IsPlain sub
    → sub ≢ k ∷ key
    → Found (quoted (k ∷ key)) (from_abilities abilities iat exp) rest
    → Found (quoted (k ∷ key)) (b'{' ∷ from_sub sub abilities iat exp) rest
skip_sub k key sub abilities iat exp rest hk name plain apart f =
    skip_char (k ∷ key) b'{' (from_sub sub abilities iat exp) rest refl (
      skip_quoted k b':' key (codes "sub") (b'"' ∷ body) rest hk.0 sub_quote name hk.1 (
        skip_char (k ∷ key) b':' (b'"' ∷ body) rest refl (
          skip_quoted k b',' key sub (from_abilities abilities iat exp) rest hk.0
            (plain_quote sub plain) apart hk.2
            (skip_char (k ∷ key) b',' (from_abilities abilities iat exp) rest refl f))))
  where
    body : Text
    body = sub ++ (b'"' ∷ b',' ∷ from_abilities abilities iat exp)

skip_abilities :
    (k : ℕ) (key : Text) (abilities : List Text) (iat exp rest : Text)
    → IsKey k key
    → codes "abilities" ≢ k ∷ key
    → ArePlain abilities
    → All (λ a. a ≢ k ∷ key) abilities
    → Found (quoted (k ∷ key)) (from_iat iat exp) rest
    → Found (quoted (k ∷ key)) (from_abilities abilities iat exp) rest
skip_abilities k key abilities iat exp rest hk name plain apart f =
    skip_quoted k b':' key (codes "abilities") (b'[' ∷ items) rest hk.0 abilities_quote name hk.1 (
      skip_char (k ∷ key) b':' (b'[' ∷ items) rest refl (
        skip_char (k ∷ key) b'[' items rest refl (
          skip_items k key (b',' ∷ from_iat iat exp) rest abilities hk.0 hk.2 hk.3 plain apart (
            skip_char (k ∷ key) b']' (b',' ∷ from_iat iat exp) rest refl
              (skip_char (k ∷ key) b',' (from_iat iat exp) rest refl f)))))
  where
    items : Text
    items = join_items abilities ++ (b']' ∷ b',' ∷ from_iat iat exp)

skip_iat :
    (k : ℕ) (key iat exp rest : Text)
    → IsKey k key
    → codes "iat" ≢ k ∷ key
    → IsNumeral iat
    → Found (quoted (k ∷ key)) (from_exp exp) rest
    → Found (quoted (k ∷ key)) (from_iat iat exp) rest
skip_iat k key iat exp rest hk name numeral f =
    skip_quoted k b':' key (codes "iat") (iat ++ (b',' ∷ from_exp exp)) rest hk.0 iat_quote name
      hk.1
      (skip_char (k ∷ key) b':' (iat ++ (b',' ∷ from_exp exp)) rest refl (
        Found-skip_all (k ∷ key) iat (b',' ∷ from_exp exp) rest (numeral_quote iat numeral)
          (skip_char (k ∷ key) b',' (from_exp exp) rest refl f)))

pub claims_json-from_sub :
    (num : Numbers) (c : Claims)
    → IsPlain c.sub
    → claims_json num c
      ≡ b'{' ∷ from_sub c.sub c.abilities (num.to_string c.iat) (num.to_string c.exp)
unfolding claims_json
claims_json-from_sub num c h = rw (json_escape-IsPlain c.sub h) refl

apart_words : (s t : Text) → text_eq s t ≡ false → s ≢ t
apart_words s t h e = let same = (text_eq_iff s t).1 e in absurd (cc)

-- Claims whose words the extractors cannot mistake for keys, quotes or brackets.
pub record IsReadable (c : Claims) : Type 0 where
  pub sub_plain : IsPlain c.sub
  pub sub_abilities : c.sub ≢ codes "abilities"
  pub sub_iat : c.sub ≢ codes "iat"
  pub sub_exp : c.sub ≢ codes "exp"
  pub abilities_plain : ArePlain c.abilities
  pub abilities_iat : All (λ a. a ≢ codes "iat") c.abilities
  pub abilities_exp : All (λ a. a ≢ codes "exp") c.abilities
  pub iat_int : IsInt64 c.iat
  pub exp_int : IsInt64 c.exp

abilities-IsKey : IsKey b'a' (codes "bilities")
abilities-IsKey = (abilities_quote, refl, refl, refl)

iat-IsKey : IsKey b'i' (codes "at")
iat-IsKey = (iat_quote, refl, refl, refl)

exp-IsKey : IsKey b'e' (codes "xp")
exp-IsKey = ((apart_quote _ refl, (apart_quote _ refl, (apart_quote _ refl, tt))), refl, refl, refl)

number_of-numeral :
    (num : Numbers) (n : ℤ)
    → IsInt64 n
    → (s : Text) → IsNumeral s
    → num.to_string n ≡ s
    → number_of num.stoll s ≡ n
unfolding number_of
number_of-numeral num n h _ (IsNumeral.plain d s hd hs) e =
    ap (λ t. or_zero (num.stoll t)) (sym e) ∙ ap or_zero (num.stoll-to_string n h)
number_of-numeral num n h _ (IsNumeral.minus s hs) e =
    ap (λ t. or_zero (num.stoll t)) (sym e) ∙ ap or_zero (num.stoll-to_string n h)

number_read :
    (num : Numbers) (n : ℤ) (t : Text) (d : ℕ)
    → IsInt64 n
    → is_digit d ≡ false
    → number_of num.stoll (take_number (skip_spaces (num.to_string n ++ (d ∷ t)))) ≡ n
number_read num n t d h e =
    rw (number_taken (num.to_string n) t d (num.to_string-IsNumeral n) e)
      (number_of-numeral num n h (num.to_string n) (num.to_string-IsNumeral n) refl)

module _ (num : Numbers) (c : Claims) (h : IsReadable c) where
  abbrev iat : Text
  iat = num.to_string c.iat

  abbrev exp : Text
  exp = num.to_string c.exp

  json_text : claims_json num c ≡ b'{' ∷ from_sub c.sub c.abilities iat exp
  json_text = claims_json-from_sub num c h.sub_plain

  find_abilities :
      Found
        (quoted (codes "abilities"))
        (b'{' ∷ from_sub c.sub c.abilities iat exp)
        (from_abilities c.abilities iat exp)
  unfolding starts_with
  find_abilities =
      skip_sub b'a' (codes "bilities") c.sub c.abilities iat exp _ abilities-IsKey
        (apart_words _ _ refl) h.sub_plain h.sub_abilities (Found-here _ _ _ refl)

  find_iat :
      Found (quoted (codes "iat")) (b'{' ∷ from_sub c.sub c.abilities iat exp) (from_iat iat exp)
  unfolding starts_with
  find_iat =
      skip_sub b'i' (codes "at") c.sub c.abilities iat exp _ iat-IsKey (apart_words _ _ refl)
        h.sub_plain h.sub_iat
        (skip_abilities b'i' (codes "at") c.abilities iat exp _ iat-IsKey (apart_words _ _ refl)
          h.abilities_plain h.abilities_iat (Found-here _ _ _ refl))

  find_exp : Found (quoted (codes "exp")) (b'{' ∷ from_sub c.sub c.abilities iat exp) (from_exp exp)
  unfolding starts_with
  find_exp =
      skip_sub b'e' (codes "xp") c.sub c.abilities iat exp _ exp-IsKey (apart_words _ _ refl)
        h.sub_plain h.sub_exp
        (skip_abilities b'e' (codes "xp") c.abilities iat exp _ exp-IsKey (apart_words _ _ refl)
          h.abilities_plain h.abilities_exp
          (skip_iat b'e' (codes "xp") iat exp _ exp-IsKey (apart_words _ _ refl)
            (num.to_string-IsNumeral c.iat) (Found-here _ _ _ refl)))

  read_sub : extract_string (claims_json num c) (codes "sub") ≡ c.sub
  unfolding extract_string
  read_sub = rw json_text (
      ap (λ r. r.0)
        (scan_string-IsPlain c.sub (b',' ∷ from_abilities c.abilities iat exp) h.sub_plain))

  read_abilities : extract_string_array (claims_json num c) (codes "abilities") ≡ c.abilities
  unfolding extract_string_array
  read_abilities =
      rw (json_text, find_abilities.1)
        (items_before-join_items c.abilities (b',' ∷ from_iat iat exp) h.abilities_plain)

  read_iat : extract_int num.stoll (claims_json num c) (codes "iat") ≡ c.iat
  unfolding extract_int
  read_iat = rw (json_text, find_iat.1) (number_read num c.iat (from_exp exp) b',' h.iat_int refl)

  read_exp : extract_int num.stoll (claims_json num c) (codes "exp") ≡ c.exp
  unfolding extract_int
  read_exp = rw (json_text, find_exp.1) (number_read num c.exp [] b'}' h.exp_int refl)

  -- Readable claims are read back from their JSON text.
  pub parse_claims-claims_json : parse_claims num (claims_json num c) ≡ c
  unfolding parse_claims
  parse_claims-claims_json = λ i. record {
    sub = read_sub i;
    abilities = read_abilities i;
    iat = read_iat i;
    exp = read_exp i;
  }
