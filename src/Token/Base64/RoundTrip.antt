-- ===== src/Token/Base64/RoundTrip.antt =====
-- What is encoded is decoded to itself: three bytes are four digits, and one or two bytes at the end
-- are two or three.
use public_cpp_laravel.Prelude.{
  ℕ, ◌+◌, ◌*◌, ◌/◌, ◌%◌, ◌^◌, ◌<◌, ◌≡◌, refl, ap, ◌∙◌, Bool, true, false, [], ◌∷◌, Option, none,
  some, arith, Text, IsByte, IsBytes, ◌==◌, ==_iff,
}
use public_cpp_laravel.Prelude.Bits.{holds_under, holds_at}
use public_cpp_laravel.Token.Base64.{
  digit, encode_from, b64url_encode, b64url_val, decode_from, b64url_decode,
}

-- The digits' values, whatever stood in the higher bits.
first_digit : (val a : ℕ) → IsByte a → (val * 256 + a) % 2 ^ 32 / 4 % 64 ≡ a / 4
first_digit val a ha = omega arith

second_digit :
    (val a b : ℕ)
    → IsByte a
    → IsByte b
    → ((val * 256 + a) % 2 ^ 32 * 256 + b) % 2 ^ 32 / 16 % 64 ≡ a % 4 * 16 + b / 16
second_digit val a b ha hb = omega arith

third_digit :
    (val b c : ℕ)
    → IsByte b
    → IsByte c
    → ((val * 256 + b) % 2 ^ 32 * 256 + c) % 2 ^ 32 / 64 % 64 ≡ b % 16 * 4 + c / 64
third_digit val b c hb hc = omega arith

fourth_digit : (val c : ℕ) → IsByte c → (val * 256 + c) % 2 ^ 32 / 1 % 64 ≡ c % 64
fourth_digit val c hc = omega arith

four :
    {a a' b b' c c' d d' : ℕ} {s : Text}
    → a ≡ a'
    → b ≡ b'
    → c ≡ c'
    → d ≡ d'
    → digit a ∷ digit b ∷ digit c ∷ digit d ∷ s ≡ digit a' ∷ digit b' ∷ digit c' ∷ digit d' ∷ s
four {s = s} p q r t = λ i. digit (p i) ∷ digit (q i) ∷ digit (r i) ∷ digit (t i) ∷ s

abbrev next_val : ℕ → ℕ → ℕ
next_val val c = (val * 256 + c) % 2 ^ 32

encode_three :
    (val a b c : ℕ) (s : Text)
    → IsByte a
    → IsByte b
    → IsByte c
    → encode_from val 0 (a ∷ b ∷ c ∷ s)
      ≡ digit (a / 4)
        ∷ digit (a % 4 * 16 + b / 16)
        ∷ digit (b % 16 * 4 + c / 64)
        ∷ digit (c % 64)
        ∷ encode_from (next_val (next_val (next_val val a) b) c) 0 s
unfolding encode_from
encode_three val a b c s ha hb hc =
    four (first_digit val a ha) (second_digit val a b ha hb)
      (third_digit (next_val val a) b c hb hc) (fourth_digit (next_val (next_val val a) b) c hc)

encode_two :
    (val a b : ℕ)
    → IsByte a
    → IsByte b
    → encode_from val 0 (a ∷ b ∷ [])
      ≡ digit (a / 4) ∷ digit (a % 4 * 16 + b / 16) ∷ digit (b % 16 * 4) ∷ []
unfolding encode_from
encode_two val a b ha hb = λ i.
    digit (first_digit val a ha i)
    ∷ digit (second_digit val a b ha hb i)
    ∷ digit (last_of_two i)
    ∷ []
  where
    last_of_two : next_val (next_val val a) b * 256 % 2 ^ 32 / 64 % 64 ≡ b % 16 * 4
    last_of_two = omega arith

encode_one :
    (val a : ℕ) → IsByte a → encode_from val 0 (a ∷ []) ≡ digit (a / 4) ∷ digit (a % 4 * 16) ∷ []
unfolding encode_from
encode_one val a ha = λ i. digit (first_digit val a ha i) ∷ digit (last_of_one i) ∷ []
  where
    last_of_one : next_val val a * 256 % 2 ^ 32 / 16 % 64 ≡ a % 4 * 16
    last_of_one = omega arith

abbrev reads : ℕ → Bool
reads n = elim (b64url_val (digit n)) [ none ↦ false | some d ↦ d == n ]

every_reads : holds_under reads 64 ≡ true
unfolding holds_under b64url_val
every_reads = refl

reads→≡ :
    (n : ℕ) (o : Option ℕ)
    → elim o as (λ x. Bool) [ none ↦ false | some d ↦ d == n ] ≡ true
    → o ≡ some n
reads→≡ n none h = absurd (cc)
reads→≡ n (some d) h = ap some ((==_iff d n).0 h)

b64url_val-digit : (n : ℕ) → n < 64 → b64url_val (digit n) ≡ some n
b64url_val-digit n h = reads→≡ n (b64url_val (digit n)) (holds_at reads 64 n h every_reads)

abbrev add_digit : ℕ → ℕ → ℕ
add_digit val d = (val * 64 + d) % 2 ^ 32

decode_two :
    (val w x : ℕ) (s : Text)
    → w < 64
    → x < 64
    → decode_from val 0 (digit w ∷ digit x ∷ s)
      ≡ (w * 4 + x / 16) ∷ decode_from (add_digit (add_digit val w) x) 4 s
unfolding decode_from
decode_two val w x s hw hx =
    rw (b64url_val-digit w hw, b64url_val-digit x hx, decode_from)
      (λ i. byte i ∷ decode_from (add_digit (add_digit val w) x) 4 s)
  where
    byte : add_digit (add_digit val w) x / 16 % 256 ≡ w * 4 + x / 16
    byte = omega arith

decode_third :
    (val x y : ℕ) (s : Text)
    → x < 64
    → y < 64
    → decode_from (add_digit val x) 4 (digit y ∷ s)
      ≡ (x % 16 * 16 + y / 4) ∷ decode_from (add_digit (add_digit val x) y) 2 s
unfolding decode_from
decode_third val x y s hx hy =
    rw (b64url_val-digit y hy, decode_from)
      (λ i. byte i ∷ decode_from (add_digit (add_digit val x) y) 2 s)
  where
    byte : add_digit (add_digit val x) y / 4 % 256 ≡ x % 16 * 16 + y / 4
    byte = omega arith

decode_fourth :
    (val y z : ℕ) (s : Text)
    → y < 64
    → z < 64
    → decode_from (add_digit val y) 2 (digit z ∷ s)
      ≡ (y % 4 * 64 + z) ∷ decode_from (add_digit (add_digit val y) z) 0 s
unfolding decode_from
decode_fourth val y z s hy hz =
    rw (b64url_val-digit z hz, decode_from)
      (λ i. byte i ∷ decode_from (add_digit (add_digit val y) z) 0 s)
  where
    byte : add_digit (add_digit val y) z / 1 % 256 ≡ y % 4 * 64 + z
    byte = omega arith

decode_end : (val bits : ℕ) → decode_from val bits [] ≡ []
unfolding decode_from
decode_end val bits = refl

cons_path : {c d : ℕ} {s t : Text} → c ≡ d → s ≡ t → c ∷ s ≡ d ∷ t
cons_path p q = λ i. p i ∷ q i

decode-encode : (u v : ℕ) (s : Text) → IsBytes s → decode_from v 0 (encode_from u 0 s) ≡ s
decode-encode u v [] h = unfold encode_from decode_from in refl
decode-encode u v (a ∷ []) h =
    ap (decode_from v 0) (encode_one u a h.0)
    ∙ decode_two v (a / 4) (a % 4 * 16) [] (omega arith) (omega arith)
    ∙ cons_path (omega arith) (decode_end _ 4)
decode-encode u v (a ∷ b ∷ []) h =
    ap (decode_from v 0) (encode_two u a b h.0 h.1.0)
    ∙ decode_two v (a / 4) (a % 4 * 16 + b / 16) (digit (b % 16 * 4) ∷ []) (omega arith)
        (omega arith)
    ∙ cons_path (omega arith) (
        decode_third (add_digit v (a / 4)) (a % 4 * 16 + b / 16) (b % 16 * 4) [] (omega arith)
          (omega arith)
        ∙ cons_path (omega arith) (decode_end _ 2))
decode-encode u v (a ∷ b ∷ c ∷ s) h =
    let w : ℕ = a / 4 in
    let x : ℕ = a % 4 * 16 + b / 16 in
    let y : ℕ = b % 16 * 4 + c / 64 in
    let rest : Text = encode_from (next_val (next_val (next_val u a) b) c) 0 s in
    ap (decode_from v 0) (encode_three u a b c s h.0 h.1.0 h.1.1.0)
    ∙ decode_two v w x (digit y ∷ digit (c % 64) ∷ rest) (omega arith) (omega arith)
    ∙ cons_path (omega arith) (
        decode_third (add_digit v w) x y (digit (c % 64) ∷ rest) (omega arith) (omega arith)
        ∙ cons_path (omega arith) (
            decode_fourth (add_digit (add_digit v w) x) y (c % 64) rest (omega arith) (omega arith)
            ∙ cons_path (omega arith) (
                decode-encode (next_val (next_val (next_val u a) b) c)
                  (add_digit (add_digit (add_digit (add_digit v w) x) y) (c % 64)) s h.1.1.1)))

-- Every text of bytes, of any length, is read back from its base64url text.
pub b64url_decode-b64url_encode : (s : Text) → IsBytes s → b64url_decode (b64url_encode s) ≡ s
unfolding b64url_decode b64url_encode
b64url_decode-b64url_encode s h = decode-encode 0 0 s h
