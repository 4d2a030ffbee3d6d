-- ===== src/Http/Url.antt =====
-- include/http.hpp: `url_decode`, `parse_pairs`, `parse_form` and `parse_cookies`.
pub mod RoundTrip
use public_cpp_laravel.Prelude.{
  ℕ, ◌+◌, ◌-◌, ◌*◌, Bool, true, false, ◌&&◌, List, [], ◌∷◌, Option, none, some, leb, ◌==◌,
  if◌then◌else◌, Text, split_at, split_on, trim, Dict, insert, text_key,
}

-- `hex`, which is -1 where this is `none`.
unfoldable pub hex : ℕ → Option ℕ
hex c =
    if leb b'0' c && leb c b'9'
    then some (c - b'0')
    else if leb b'a' c && leb c b'f'
    then some (c - b'a' + 10)
    else if leb b'A' c && leb c b'F'
    then some (c - b'A' + 10)
    else none

unfoldable pub join_nibbles : Option ℕ → Option ℕ → Option ℕ
join_nibbles none lo = none
join_nibbles (some hi) none = none
join_nibbles (some hi) (some lo) = some (hi * 16 + lo)

unfoldable pub plain : Bool → ℕ → ℕ
plain plus_as_space c = if c == b'+' && plus_as_space then b' ' else c

-- The loop reads the escape that begins at its index, if two more bytes stand there.
unfoldable pub url_decode : Bool → Text → Text
unfolding hex join_nibbles plain
url_decode plus_as_space [] = []
url_decode plus_as_space (c ∷ []) = plain plus_as_space c ∷ []
url_decode plus_as_space (c ∷ d ∷ []) = plain plus_as_space c ∷ url_decode plus_as_space (d ∷ [])
url_decode plus_as_space (c ∷ d ∷ e ∷ s) =
    let next = url_decode plus_as_space (d ∷ e ∷ s) in
    let behind = url_decode plus_as_space s in
    if c == b'%'
    then elim (join_nibbles (hex d) (hex e)) [ none ↦ c ∷ next | some v ↦ v ∷ behind ]
    else plain plus_as_space c ∷ next

abbrev pub is_space : ℕ → Bool
is_space c = c == b' '

-- `cook`
unfoldable pub cook : Bool → Text → Text
unfolding url_decode
cook decode v = if decode then url_decode true v else v

unfoldable pub add_pair : Bool → Option (Text × Text) → Dict Text Text → Dict Text Text
unfolding cook
add_pair decode none out = out
add_pair decode (some (key, value)) out =
    insert (cook decode (trim is_space key)) (cook decode (trim is_space value)) out

-- The loop over the pieces. An empty piece at the end, which the code does not reach, adds nothing.
unfoldable pub add_pairs : Bool → List Text → Dict Text Text → Dict Text Text
unfolding add_pair
add_pairs decode [] out = out
add_pairs decode (pair ∷ pairs) out =
    add_pairs decode pairs (add_pair decode (split_at b'=' pair) out)

unfoldable pub parse_pairs : Text → ℕ → Bool → Dict Text Text
unfolding add_pairs split_on
parse_pairs s sep decode = add_pairs decode (split_on sep s) []

unfoldable pub parse_form : Text → Dict Text Text
unfolding parse_pairs
parse_form body = parse_pairs body b'&' true

unfoldable pub parse_cookies : Text → Dict Text Text
unfolding parse_pairs
parse_cookies header = parse_pairs header b';' false
