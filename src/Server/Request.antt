-- ===== src/Server/Request.antt =====
-- src/http_server.cpp: `header_value`, `parse_content_length`, `has_chunked_body` and
-- `parse_http_request`. `strtoull` of digits is a parameter, `none` where it sets `errno`.
pub mod RoundTrip
use public_cpp_laravel.Prelude.{
  ℕ, ◌+◌, ◌<◌, ◌^◌, ◌≡◌, Bool, true, false, ◌&&◌, ◌||◌, List, [], ◌∷◌, ◌++◌, Option, none, some,
  leb, ◌==◌, length, drop, is_empty, if◌then◌else◌, Text, codes, split_at, split_lines, trim, lower,
  find_text, cut_text, contains_text, Dict, insert, text_key,
}
use public_cpp_laravel.Http.Messages.{Request}
use public_cpp_laravel.Http.Url.{parse_pairs}

abbrev pub crlf : Text
crlf = 13 ∷ 10 ∷ []

abbrev pub blank_line : Text
blank_line = 13 ∷ 10 ∷ 13 ∷ 10 ∷ []

abbrev pub is_blank : ℕ → Bool
is_blank c = c == b' ' || c == 9

-- `head.substr(vstart, eol - vstart)`
abbrev first_line : Option (Text × Text) → Text → Text
first_line none s = s
first_line (some (line, rest)) s = line

-- Behind the name that was found in the lower-case copy.
abbrev value_behind : Text → ℕ → Option (Text × Text) → Option Text
value_behind head size none = none
value_behind head size (some (before, found)) =
    let rest : Text = drop (length before + size) head in
    some (trim is_blank (first_line (cut_text crlf rest) rest))

unfoldable pub header_value : Text → Text → Option Text
unfolding trim cut_text
header_value head name_lower =
    let needle : Text = crlf ++ (name_lower ++ codes ":") in
    value_behind head (length needle) (find_text needle (lower head))

unfoldable pub all_digits : Text → Bool
all_digits [] = true
all_digits (c ∷ s) = (leb b'0' c && leb c b'9') && all_digits s

-- The conversion of a text of digits; a value fits 64 bits.
pub record Strtoull : Type 0 where
  pub strtoull : Text → Option ℕ
  pub strtoull-lt : (s : Text) (n : ℕ) → strtoull s ≡ some n → n < 2 ^ 64

unfoldable pub length_in : Strtoull → Option Text → Option ℕ
unfolding all_digits
length_in num none = none
length_in num (some []) = none
length_in num (some (c ∷ s)) = if all_digits (c ∷ s) then num.strtoull (c ∷ s) else none

unfoldable pub parse_content_length : Strtoull → Text → Option ℕ
unfolding length_in header_value
parse_content_length num head = length_in num (header_value head (codes "content-length"))

abbrev says_chunked : Option Text → Bool
says_chunked none = false
says_chunked (some v) = contains_text (codes "chunked") (lower v)

unfoldable pub has_chunked_body : Text → Bool
unfolding header_value
has_chunked_body head = says_chunked (header_value head (codes "transfer-encoding"))

unfoldable pub add_header : Option (Text × Text) → Dict Text Text → Dict Text Text
add_header none headers = headers
add_header (some (name, value)) headers = insert (trim is_blank name) (trim is_blank value) headers

-- The loop over the header lines.
unfoldable pub add_headers : List Text → Dict Text Text → Dict Text Text
unfolding add_header
add_headers [] headers = headers
add_headers (line ∷ lines) headers = add_headers lines (add_header (split_at b':' line) headers)

-- The path and the query of the target.
unfoldable pub parse_target : Option (Text × Text) → Text → Text × Dict Text Text
parse_target none target = (target, [])
parse_target (some (path, query)) target = (path, parse_pairs query b'&' true)

-- With the method and the target read.
unfoldable pub build_request : Text → Text → Dict Text Text → Text → Request
unfolding parse_target
build_request method target headers body =
    let (path, query) = parse_target (split_at b'?' target) target in
    record {
      method = method;
      path = path;
      route_params = [];
      headers = headers;
      body = body;
      cookies = [];
      query = query;
      remote_addr = [];
    }

-- METHOD SP TARGET SP VERSION, from what the two spaces cut off.
unfoldable pub parse_rest : Option (Text × Text) → Text → Dict Text Text → Text → Option Request
unfolding build_request
parse_rest none method headers body = none
parse_rest (some (target, version)) method headers body =
    some (build_request method target headers body)

unfoldable pub parse_line : Option (Text × Text) → Dict Text Text → Text → Option Request
unfolding parse_rest
parse_line none headers body = none
parse_line (some (method, rest)) headers body = parse_rest (split_at b' ' rest) method headers body

unfoldable pub parse_head : List Text → Text → Option Request
unfolding parse_line add_headers
parse_head [] body = none
parse_head (request_line ∷ lines) body =
    parse_line (split_at b' ' request_line) (add_headers lines []) body

unfoldable pub parse_parts : Option (Text × Text) → Text → Option Request
unfolding parse_head split_lines
parse_parts none raw = parse_head (split_lines raw) []
parse_parts (some (head, body)) raw = parse_head (split_lines head) body

unfoldable pub parse_http_request : Text → Option Request
unfolding parse_parts cut_text
parse_http_request raw = parse_parts (cut_text blank_line raw) raw
