-- ===== src/Tests/Server.antt =====
-- A request on the wire, cut by the network, on which the lemmas of Server are tried.
use public_cpp_laravel.Prelude.{
  ℕ, ◌+◌, ◌-◌, ◌*◌, ◌^◌, ◌≤◌, ◌<◌, ◌≡◌, refl, List, [], ◌∷◌, ◌++◌, false, Option, none, some, arith,
  length, ltb, if◌then◌else◌, Text, codes, All, trim, insert, lower,
}
use public_cpp_laravel.Websocket.Connection.{flat}
use public_cpp_laravel.Http.Messages.{response}
use public_cpp_laravel.Server.Request.{Strtoull, blank_line, parse_content_length, has_chunked_body}
use public_cpp_laravel.Server.Request.RoundTrip.{
  header_lines, target_text, request_line, IsHeader, IsLine,
}
use public_cpp_laravel.Http.Url.RoundTrip.{percent_encode, form_text, percent}
use public_cpp_laravel.Server.Reading.{Limits, judge, expect, read_request}
use public_cpp_laravel.Server.Reading.Bounds.{read_request-le}
use public_cpp_laravel.Server.Client.{Handled, handled, is_websocket_upgrade, handle_client}
use public_cpp_laravel.Server.Client.Served.{sent, handle_client-LeavesAs, LeavesAs}

-- The decimal value of digits, while it fits 64 bits.
unfoldable read_decimal : ℕ → Text → ℕ
read_decimal n [] = n
read_decimal n (c ∷ s) = read_decimal (n * 10 + (c - b'0')) s

unfoldable in_word : ℕ → Option ℕ
in_word n = if ltb n (2 ^ 64) then some n else none

in_word-lt : (n k : ℕ) → in_word n ≡ some k → k < 2 ^ 64
unfolding in_word
in_word-lt n k e = ground arith

abbrev decimal : Strtoull
decimal = record {
  strtoull = λ s. in_word (read_decimal 0 s);
  strtoull-lt = λ s n e. in_word-lt (read_decimal 0 s) n e;
}

abbrev limits : Limits
limits = record { max_header_bytes = 8192; max_body_bytes = 1024; read_timeout_seconds = 30 }

abbrev headers : List (Text × Text)
headers = (codes "Host", codes "a.org") ∷ (codes "Content-Length", codes "5") ∷ []

abbrev query : List (Text × Text)
query = (codes "q", codes "a b&c") ∷ []

abbrev the_head : Text
the_head =
    request_line (codes "POST") (target_text (codes "/s") query) (codes "HTTP/1.1")
    ++ header_lines headers

abbrev the_body : Text
the_body = codes "hello"

abbrev cut_up : List Text
cut_up = (the_head ++ (13 ∷ 10 ∷ 13 ∷ [])) ∷ (10 ∷ codes "he") ∷ codes "llo" ∷ []

the-IsLine : IsLine (codes "POST") (codes "/s") (codes "HTTP/1.1")
the-IsLine = record {
  method_word = ground arith;
  method_line = ground arith;
  path_word = ground arith;
  path_line = ground arith;
  path_query = ground arith;
  version_line = ground arith;
}

headers-All : All IsHeader headers
unfolding trim
headers-All = (
  record {
    name_colon = ground arith;
    name_line = ground arith;
    value_line = ground arith;
    name_trimmed = refl;
    value_trimmed = refl;
  },
  (
    record {
      name_colon = ground arith;
      name_line = ground arith;
      value_line = ground arith;
      name_trimmed = refl;
      value_trimmed = refl;
    },
    tt,
  ),
)

the_head_accepted :
    judge decimal limits the_head ≡ expect (length (the_head ++ (blank_line ++ the_body)))
unfolding judge request_line target_text header_lines parse_content_length has_chunked_body in_word
    read_decimal form_text percent_encode percent lower
the_head_accepted = refl

-- A client that sends headers without an end.
abbrev flood : List Text
flood = codes "GET / HTTP/1.1" ∷ codes "X: 1" ∷ codes "Y: 2" ∷ []

read_request-le_example : length (read_request decimal limits flood).bytes ≤ 8192 + 1024 + 4 + 65536
read_request-le_example = read_request-le decimal limits 65536 flood (ground arith) (ground arith)

the_cut : flat cut_up ≡ the_head ++ (blank_line ++ the_body)
unfolding request_line target_text header_lines form_text percent_encode percent flat
the_cut = refl

abbrev hello : Handled ℕ
unfolding response
hello = handled (response 200 (codes "hi")) 1

no_upgrade :
    is_websocket_upgrade (
      sent decimal limits
        (codes "POST")
        (codes "/s")
        (codes "HTTP/1.1")
        the_body
        (codes "10.0.0.1")
        query
        headers)
    ≡ false
unfolding is_websocket_upgrade insert lower
no_upgrade = refl

handle_client-LeavesAs_example :
    LeavesAs
      (λ n. codes "2")
      hello
      (handle_client
        (λ n. codes "2")
        (λ req s. hello)
        decimal
        limits
        []
        (codes "10.0.0.1")
        cut_up
        0)
unfolding request_line target_text header_lines form_text percent_encode percent
handle_client-LeavesAs_example =
    handle_client-LeavesAs decimal limits (codes "POST") (codes "/s") (codes "HTTP/1.1") the_body
      (codes "10.0.0.1") query headers (λ n. codes "2") (λ req s. hello) [] cut_up 0 the-IsLine
      (ground arith) headers-All the_head_accepted (ground arith) the_cut no_upgrade
