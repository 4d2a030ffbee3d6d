-- ===== src/Session/Csrf.antt =====
-- include/http_auth.hpp: `session_middleware`, `csrf_token` and `verify_csrf`. The random session id
-- and the random token are arguments, as is the clock of the session store.
pub mod Continues
pub mod Verified
use public_cpp_laravel.Prelude.{
  ℕ, Bool, true, false, not, ◌&&◌, Option, none, some, [], is_some, if◌then◌else◌, Text, codes,
  Dict, lookup, insert, text_key,
}
use public_cpp_laravel.Prelude.Bits.{constant_time_equal}
use public_cpp_laravel.Http.Messages.{Request, Response, json}
use public_cpp_laravel.Http.Url.{parse_form, parse_cookies}
use public_cpp_laravel.Http.Pipeline.{Run, returned, threw, Handler}
use public_cpp_laravel.Session.Store.{Store, put, get}
use public_cpp_laravel.Session.Auth.{CookieOptions, cookie_header, session_id, World}

abbrev pub csrf_key : Text
csrf_key = codes "_csrf"

abbrev pub token_field : Text
token_field = codes "_token"

abbrev pub set_cookie : Text
set_cookie = codes "Set-Cookie"

abbrev pub text_or_empty : Option Text → Text
text_or_empty none = []
text_or_empty (some s) = s

-- `res.headers["Set-Cookie"] = cookie_header(req.cookies.at(opts.name), opts)`
unfoldable pub stamp_cookie : CookieOptions → Option Text → Response → Request → World → Run World
unfolding cookie_header
stamp_cookie opts none res req w = threw w
stamp_cookie opts (some id) res req w =
    returned (record res { headers = insert set_cookie (cookie_header id opts) res.headers }) req w

-- Behind `next(req)`, with the request as the handlers left it.
unfoldable pub stamp_fresh : CookieOptions → Bool → Run World → Run World
unfolding stamp_cookie
stamp_fresh opts fresh (threw w) = threw w
stamp_fresh opts fresh (returned res req w) =
    if fresh && not (is_some (lookup set_cookie res.headers))
    then stamp_cookie opts (lookup opts.name req.cookies) res req w
    else returned res req w

-- The cookies that the handlers see.
unfoldable pub ensure_cookie : CookieOptions → Text → Dict Text Text → Dict Text Text
ensure_cookie opts new_id cookies =
    if is_some (lookup opts.name cookies) then cookies else insert opts.name new_id cookies

unfoldable pub session_middleware :
    CookieOptions → Text → Request → Handler World → World → Run World
session_middleware opts new_id req next w =
    let cookies : Dict Text Text =
      parse_cookies (text_or_empty (lookup (codes "Cookie") req.headers)) in
    stamp_fresh opts (not (is_some (lookup opts.name cookies)))
      (next (record req { cookies = ensure_cookie opts new_id cookies }) w)

unfoldable pub mint : Option Text × Store → ℕ → Text → Text → Text × Store
mint (none, s) now sid random = (random, put s now sid csrf_key random)
mint (some t, s) now sid random = (t, s)

-- The token of the session `sid`, and the store.
unfoldable pub csrf_token : Store → ℕ → Text → Text → Text × Store
unfolding mint get
csrf_token s now sid random = mint (get s now sid csrf_key) now sid random

-- The form field, or else the header, or else nothing.
unfoldable pub token_or_header : Option Text → Request → Text
token_or_header (some t) req = t
token_or_header none req = text_or_empty (lookup (codes "X-CSRF-Token") req.headers)

unfoldable pub provided_token : Request → Text
unfolding token_or_header
provided_token req = token_or_header (lookup token_field (parse_form req.body)) req

unfoldable pub mismatch : Response
unfolding json
mismatch = json (codes "{\"error\":\"CSRF token mismatch\"}") 419

unfoldable pub compare_token : Option Text → Text → Bool
compare_token none provided = false
compare_token (some expected) provided = constant_time_equal provided expected

unfoldable pub verify_csrf : CookieOptions → Request → Handler World → World → Run World
unfolding compare_token
verify_csrf opts req next w =
    let (expected, s') = get w.store w.now (session_id req opts) csrf_key in
    if compare_token expected (provided_token req)
    then next req (record w { store = s' })
    else returned mismatch req (record w { store = s' })
