-- ===== src/Server/Reading.antt =====
-- src/http_server.cpp: `read_request`. The socket is what it still delivers: one text for each
-- successful `recv`, and the end of the list for one that returns no bytes, also by a timeout.
pub mod Bounds
pub mod Whole
use public_cpp_laravel.Prelude.{
  ℕ, ◌+◌, ◌%◌, ◌^◌, Bool, true, false, List, [], ◌∷◌, ◌++◌, Option, none, some, length, ltb,
  if◌then◌else◌, Text, find_text,
}
use public_cpp_laravel.Server.Request.{Strtoull, blank_line, parse_content_length, has_chunked_body}

pub record Limits : Type 0 where
  pub max_header_bytes : ℕ
  pub max_body_bytes : ℕ
  pub read_timeout_seconds : ℕ

pub data Status : Type 0 where
  ok closed header_too_large body_too_large length_required : Status

-- `ReadResult`, with the rest of the socket.
pub record ReadResult : Type 0 where
  pub status : Status
  pub bytes : Text
  pub rest : List Text

abbrev pub stop_with : Status → Text → List Text → ReadResult
stop_with status bytes rest = record { status = status; bytes = bytes; rest = rest }

abbrev pub or_zero : Option ℕ → ℕ
or_zero none = 0
or_zero (some n) = n

-- What the round that finds the end of the headers decides: a refusal, or the size to wait for,
-- `header_end + content_length`, a sum of `std::size_t`.
pub data Verdict : Type 0 where
  refuse : Status → Verdict
  expect : ℕ → Verdict

unfoldable pub judge : Strtoull → Limits → Text → Verdict
judge num limits head =
    if ltb limits.max_header_bytes (length head)
    then refuse header_too_large
    else if has_chunked_body head
    then refuse length_required
    else if ltb limits.max_body_bytes (or_zero (parse_content_length num head))
    then refuse body_too_large
    else expect ((length head + 4 + or_zero (parse_content_length num head)) % 2 ^ 64)

-- The rounds with `have_headers`.
unfoldable pub read_body : ℕ → Text → List Text → ReadResult
read_body size bytes [] = stop_with closed bytes []
read_body size bytes (chunk ∷ rest) =
    let more = read_body size (bytes ++ chunk) rest in
    if ltb (length (bytes ++ chunk)) size then more else stop_with ok (bytes ++ chunk) rest

-- The end of the round in which the headers are complete.
unfoldable pub act : Verdict → Text → List Text → ReadResult
unfolding read_body
act (refuse status) bytes rest = stop_with status bytes rest
act (expect size) bytes rest =
    if ltb (length bytes) size then read_body size bytes rest else stop_with ok bytes rest

-- The end of a round without the blank line; `more` is the next one.
unfoldable pub on_head :
    Strtoull → Limits → Option (Text × Text) → Text → List Text → ReadResult → ReadResult
unfolding judge act
on_head num limits none bytes rest more =
    if ltb limits.max_header_bytes (length bytes)
    then stop_with header_too_large bytes rest
    else more
on_head num limits (some (head, found)) bytes rest more = act (judge num limits head) bytes rest

unfoldable pub read_head : Strtoull → Limits → Text → List Text → ReadResult
unfolding on_head
read_head num limits bytes [] = stop_with closed bytes []
read_head num limits bytes (chunk ∷ rest) =
    let more = read_head num limits (bytes ++ chunk) rest in
    on_head num limits (find_text blank_line (bytes ++ chunk)) (bytes ++ chunk) rest more

unfoldable pub read_request : Strtoull → Limits → List Text → ReadResult
unfolding read_head
read_request num limits incoming = read_head num limits [] incoming
