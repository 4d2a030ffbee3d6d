-- ===== src/Tests/Csrf.antt =====
-- A session with a token, and a client that keeps its cookie, on which the lemmas of Session.Csrf are
-- tried.
use public_cpp_laravel.Prelude.{
  ◌≡◌, refl, true, false, List, [], ◌∷◌, some, none, if◌then◌else◌, arith, Text, codes, text_eq,
  lookup, insert, text_key,
}
use public_cpp_laravel.Http.Messages.{Request, Response, response}
use public_cpp_laravel.Http.Url.RoundTrip.{form_text, insert_all}
use public_cpp_laravel.Http.Pipeline.{returned, Handler}
use public_cpp_laravel.Session.Store.{Store, get}
use public_cpp_laravel.Session.Store.Laws.{value_of, in_time}
use public_cpp_laravel.Session.Auth.{CookieOptions, session_id, World}
use public_cpp_laravel.Session.Csrf.{set_cookie, token_field, csrf_token, verify_csrf, mint}
use public_cpp_laravel.Session.Csrf.Verified.{verify_csrf-csrf_token}
use public_cpp_laravel.Session.Csrf.Continues.{IsCookieText, cookie_pair}

abbrev options : CookieOptions
options = record {
  name = codes "sid";
  path = codes "/";
  http_only = true;
  secure = false;
  same_site = codes "Lax";
}

abbrev empty_store : Store
empty_store = record { ttl = 5; entries = []; last_seen = [] }

abbrev asking : List (Text × Text) → List (Text × Text) → Text → Request
asking headers cookies body = record {
  method = codes "POST";
  path = codes "/";
  route_params = [];
  headers = headers;
  body = body;
  cookies = cookies;
  query = [];
  remote_addr = [];
}

abbrev posted : Request
posted =
    asking [] ((codes "sid", codes "s1") ∷ [])
      (form_text (codes "a", codes "b") ((codes "_token", codes "tok") ∷ []))

abbrev greet : Handler World
greet req w = returned (response 200 (codes "hi")) req w

minted : (csrf_token empty_store 10 (session_id posted options) (codes "tok")).0 ≡ codes "tok"
unfolding csrf_token get mint lookup
minted = refl

token_there :
    lookup token_field (insert_all ((codes "a", codes "b") ∷ (codes "_token", codes "tok") ∷ []) [])
    ≡ some (codes "tok")
unfolding lookup insert
token_there = refl

verify_csrf-csrf_token_example :
    let (token, s') = csrf_token empty_store 10 (session_id posted options) (codes "tok") in
    (w' : World) × (refusal : Response) × (verify_csrf options posted greet
        (record { store = s'; now = 12 })
      ≡ (if text_eq (codes "tok") token then greet posted w' else returned refusal posted w'))
    × (refusal.status ≡ 419)
    × (w'.now ≡ 12)
    × (value_of w'.store 16 (session_id posted options) (codes "k") ≡ (
        if in_time 5 12 16 then value_of s' 12 (session_id posted options) (codes "k") else none))
verify_csrf-csrf_token_example =
    verify_csrf-csrf_token options posted greet empty_store 10 12 16 (codes "tok") (codes "tok")
      (codes "k") (codes "a", codes "b") ((codes "_token", codes "tok") ∷ []) refl
      (rw minted (omega arith)) (omega arith) (omega arith) (omega arith) refl token_there

sid-IsCookieText : IsCookieText (codes "sid")
sid-IsCookieText = record {
  no_semicolon = ground arith;
  no_equals = ground arith;
  no_space = ground arith;
}

id-IsCookieText : IsCookieText (codes "f0")
id-IsCookieText = record {
  no_semicolon = ground arith;
  no_equals = ground arith;
  no_space = ground arith;
}

abbrev first_visit : Request
first_visit = asking [] [] []

abbrev with_cookie : Request
with_cookie = asking [] ((codes "sid", codes "f0") ∷ []) []

abbrev second_visit : Request
second_visit =
    asking
      ((codes "Cookie", cookie_pair options (codes "f0") sid-IsCookieText id-IsCookieText) ∷ []) []
      []

abbrev hi : Response
hi = record { status = 200; body = codes "hi"; headers = [] }

abbrev say_hi : Handler World
say_hi req w = returned hi req w

abbrev world : World
world = record { store = empty_store; now = 10 }

no_cookie : lookup (codes "Cookie") first_visit.headers ≡ none
unfolding lookup
no_cookie = refl

cookie_kept : lookup options.name with_cookie.cookies ≡ some (codes "f0")
unfolding lookup
cookie_kept = refl

not_set : lookup set_cookie hi.headers ≡ none
unfolding lookup
not_set = refl

cookie_back :
    lookup (codes "Cookie") second_visit.headers
    ≡ some (cookie_pair options (codes "f0") sid-IsCookieText id-IsCookieText)
unfolding lookup
cookie_back = refl
