-- ===== src/Token/Payload/Items.antt =====
-- The list of abilities in the JSON text.
use public_cpp_laravel.Prelude.{
  ℕ, zero, suc, ◌+◌, ◌-◌, ◌≤◌, ◌≡◌, ◌≢◌, refl, ap, ◌∙◌, Bool, true, false, List, [], ◌∷◌, ◌++◌,
  some, arith, append_assoc, ◌==◌, ltb, length, length-append, Text, codes, All, Lacks,
  Lacks-append, split_at, split_at-append,
}
use public_cpp_laravel.Token.Json.{quoted, read_item, read_items, items_before}
use public_cpp_laravel.Token.Payload.{quote_item, join_items}
use public_cpp_laravel.Token.Payload.Search.{
  Found, skip_char, skip_quoted, IsPlain, plain_quote, plain_bracket, json_escape-IsPlain,
  scan_string-IsPlain,
}

abbrev pub ArePlain : List Text → Type 0
ArePlain items = All IsPlain items

quote_item-append : (a t : Text) → IsPlain a → quote_item a ++ t ≡ b'"' ∷ (a ++ (b'"' ∷ t))
unfolding quote_item
quote_item-append a t h =
    rw (json_escape-IsPlain a h) (ap (◌∷◌ b'"') (append_assoc a (codes "\"") t))

join_none : join_items [] ≡ []
unfolding join_items
join_none = refl

join_one : (a t : Text) → IsPlain a → join_items (a ∷ []) ++ t ≡ b'"' ∷ (a ++ (b'"' ∷ t))
unfolding join_items
join_one a t h = quote_item-append a t h

join_more :
    (a b t : Text) (items : List Text)
    → IsPlain a
    → join_items (a ∷ b ∷ items) ++ t ≡ b'"' ∷ (a ++ (b'"' ∷ b',' ∷ (join_items (b ∷ items) ++ t)))
unfolding join_items
join_more a b t items h =
    append_assoc (quote_item a) (b',' ∷ join_items (b ∷ items)) t
    ∙ quote_item-append a (b',' ∷ (join_items (b ∷ items) ++ t)) h

-- The items are passed over in the search for a key that none of them is.
pub skip_items :
    (k : ℕ) (key t rest : Text) (items : List Text)
    → Lacks b'"' (k ∷ key)
    → (k == b',') ≡ false
    → (k == b']') ≡ false
    → ArePlain items
    → All (λ a. a ≢ k ∷ key) items
    → Found (quoted (k ∷ key)) (b']' ∷ t) rest
    → Found (quoted (k ∷ key)) (join_items items ++ (b']' ∷ t)) rest
skip_items k key t rest [] hk comma bracket h ne f = rw join_none f
skip_items k key t rest (a ∷ []) hk comma bracket h ne f =
    rw (join_one a (b']' ∷ t) h.0)
      (skip_quoted k b']' key a t rest hk (plain_quote a h.0) ne.0 bracket f)
skip_items k key t rest (a ∷ b ∷ items) hk comma bracket h ne f =
    rw (join_more a b (b']' ∷ t) items h.0) (
      skip_quoted k b',' key a (join_items (b ∷ items) ++ (b']' ∷ t)) rest hk (plain_quote a h.0)
        ne.0 comma
        (skip_char (k ∷ key) b',' (join_items (b ∷ items) ++ (b']' ∷ t)) rest refl
          (skip_items k key t rest (b ∷ items) hk comma bracket h.1 ne.1 f)))

-- The loop's text from an item on, maybe behind a comma.
abbrev behind_comma : Bool → Text → Text
behind_comma true s = b',' ∷ s
behind_comma false s = s

abbrev comma_length : Bool → ℕ
comma_length true = 1
comma_length false = 0

split_item :
    (comma : Bool) (a t : Text)
    → IsPlain a
    → split_at b'"' (behind_comma comma (b'"' ∷ (a ++ (b'"' ∷ t))))
      ≡ some (behind_comma comma [], a ++ (b'"' ∷ t))
unfolding split_at
split_item true a t h = refl
split_item false a t h = refl

abbrev item_length : Bool → Text → ℕ
item_length comma a = comma_length comma + length a + 2

left_behind :
    (comma : Bool) (a t : Text) (left : ℕ)
    → item_length comma a
        + left
        - (length (behind_comma comma (b'"' ∷ (a ++ (b'"' ∷ t)))) - length t)
      ≡ left
left_behind true a t left = omega (arith, length-append a (b'"' ∷ t))
left_behind false a t left = omega (arith, length-append a (b'"' ∷ t))

still_inside :
    (comma : Bool) (a : Text) (left : ℕ)
    → ((item_length comma a + left == 0) ≡ false)
      × (ltb (length (behind_comma comma [])) (item_length comma a + left) ≡ true)
still_inside true a left = (ground arith, ground arith)
still_inside false a left = (ground arith, ground arith)

-- One round of the loop over an item.
read_items-item :
    (comma : Bool) (a t : Text) (fuel left : ℕ)
    → IsPlain a
    → read_items
        (suc fuel)
        (item_length comma a + left)
        (behind_comma comma (b'"' ∷ (a ++ (b'"' ∷ t))))
      ≡ a ∷ read_items fuel left t
unfolding read_items
read_items-item comma a t fuel left h =
    let (inside, more) = still_inside comma a left in
    rw (split_item comma a t h, read_item, scan_string-IsPlain a t h, inside, more)
      (ap (λ k. a ∷ read_items fuel k t) (left_behind comma a t left))

read_items-none : (fuel : ℕ) (t : Text) → read_items fuel 0 t ≡ []
unfolding read_items
read_items-none zero t = refl
read_items-none (suc fuel) t = refl

length_one : (a : Text) → IsPlain a → length (join_items (a ∷ [])) ≡ length a + 2
length_one a h = omega (
  arith,
  ap length (join_one a [] h),
  length-append (join_items (a ∷ [])) [],
  length-append a (codes "\""),
)

length_more :
    (a b : Text) (items : List Text)
    → IsPlain a
    → length (join_items (a ∷ b ∷ items)) ≡ length a + 3 + length (join_items (b ∷ items))
length_more a b items h = omega (
  arith,
  ap length (join_more a b [] items h),
  length-append (join_items (a ∷ b ∷ items)) [],
  length-append a (b'"' ∷ b',' ∷ (join_items (b ∷ items) ++ [])),
  length-append (join_items (b ∷ items)) [],
)

-- The items are read back.
read_items-join_items :
    (comma : Bool) (a t : Text) (items : List Text) (fuel : ℕ)
    → ArePlain (a ∷ items)
    → comma_length comma + length (join_items (a ∷ items)) ≤ fuel
    → read_items fuel
        (comma_length comma + length (join_items (a ∷ items)))
        (behind_comma comma (join_items (a ∷ items) ++ t))
      ≡ a ∷ items
read_items-join_items comma a t [] zero h enough = absurd (omega (arith, length_one a h.0))
read_items-join_items comma a t (b ∷ items) zero h enough =
    absurd (omega (arith, length_more a b items h.0))
read_items-join_items comma a t [] (suc fuel) h enough =
    let here : comma_length comma + length (join_items (a ∷ [])) ≡ item_length comma a + 0 =
      omega (arith, length_one a h.0) in
    (λ i. read_items (suc fuel) (here i) (behind_comma comma (join_one a t h.0 i)))
    ∙ read_items-item comma a t fuel 0 h.0
    ∙ ap (◌∷◌ a) (read_items-none fuel t)
read_items-join_items comma a t (b ∷ items) (suc fuel) h enough =
    let more = length_more a b items h.0 in
    let left : ℕ = 1 + length (join_items (b ∷ items)) in
    let here : comma_length comma + length (join_items (a ∷ b ∷ items))
        ≡ item_length comma a + left =
      omega (arith, more) in
    (λ i. read_items (suc fuel) (here i) (behind_comma comma (join_more a b t items h.0 i)))
    ∙ read_items-item comma a (b',' ∷ (join_items (b ∷ items) ++ t)) fuel left h.0
    ∙ ap (◌∷◌ a) (read_items-join_items true b t items fuel h.1 (omega (arith, more)))

quote_item-bracket : (a : Text) → IsPlain a → Lacks b']' (quote_item a)
unfolding quote_item
quote_item-bracket a h = rw (json_escape-IsPlain a h) (
  (λ e. absurd (omega (arith, e))),
  Lacks-append b']' a (codes "\"") (plain_bracket a h) ((λ e. absurd (omega (arith, e))), tt),
)

join_items-bracket : (items : List Text) → ArePlain items → Lacks b']' (join_items items)
unfolding join_items
join_items-bracket [] h = tt
join_items-bracket (a ∷ []) h = quote_item-bracket a h.0
join_items-bracket (a ∷ b ∷ items) h =
    Lacks-append b']' (quote_item a) (b',' ∷ join_items (b ∷ items)) (quote_item-bracket a h.0)
      ((λ e. absurd (omega (arith, e))), join_items-bracket (b ∷ items) h.1)

-- The array's text up to its closing bracket gives the items.
pub items_before-join_items :
    (items : List Text) (t : Text)
    → ArePlain items
    → items_before (split_at b']' (join_items items ++ (b']' ∷ t))) (join_items items ++ (b']' ∷ t))
      ≡ items
items_before-join_items [] t h =
    rw join_none (rw (split_at-append b']' [] t tt) (read_items-none 0 (b']' ∷ t)))
items_before-join_items (a ∷ items) t h =
    let n : ℕ = length (join_items (a ∷ items)) in
    let same : n ≡ comma_length false + n = omega arith in
    rw (split_at-append b']' (join_items (a ∷ items)) t (join_items-bracket (a ∷ items) h)) (
      ap (λ k. read_items n k (join_items (a ∷ items) ++ (b']' ∷ t))) same
      ∙ read_items-join_items false a (b']' ∷ t) items n h (omega arith))
