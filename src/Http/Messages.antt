-- ===== src/Http/Messages.antt =====
-- include/http.hpp: requests and responses, and the factories of `Response`.
use public_cpp_laravel.Prelude.{ℕ, [], ◌∷◌, Text, codes, Dict, insert, text_key}

pub record Request : Type 0 where
  pub method : Text
  pub path : Text
  pub route_params : Dict Text Text
  pub headers : Dict Text Text
  pub body : Text
  pub cookies : Dict Text Text
  pub query : Dict Text Text
  pub remote_addr : Text

pub record Response : Type 0 where
  pub status : ℕ
  pub body : Text
  pub headers : Dict Text Text

abbrev pub content_type : Text
content_type = codes "Content-Type"

-- `Response{status, body}`; `Response()` is `response 200 ""`.
unfoldable pub response : ℕ → Text → Response
response status body = record {
  status = status;
  body = body;
  headers = (content_type, codes "text/plain") ∷ [];
}

unfoldable pub json : Text → ℕ → Response
unfolding response insert
json payload status =
    let r : Response = response status payload in
    record r { headers = insert content_type (codes "application/json") r.headers }

unfoldable pub redirect : Text → Response
unfolding response insert
redirect url =
    let r : Response = response 302 [] in
    record r { headers = insert (codes "Location") url r.headers }

unfoldable pub bytes : Text → Text → ℕ → Response
unfolding response insert
bytes content ctype status =
    let r : Response = response status content in
    record r { headers = insert content_type ctype r.headers }
