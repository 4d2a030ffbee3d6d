-- ===== src/Session/Auth.antt =====
-- include/auth.hpp: users, the in-memory provider and the session guard; and from
-- include/http_auth.hpp `cookie_header`, `require_auth`, `attempt_login` and `logout`.
-- `std::to_string` and `std::stoll` are a parameter.
pub mod Login
use public_cpp_laravel.Prelude.{
  ℕ, ◌≡◌, Bool, true, false, not, ◌&&◌, List, [], ◌∷◌, ◌++◌, Option, none, some, is_some, is_empty,
  if◌then◌else◌, Text, codes, text_eq, Dict, lookup, insert, text_key,
}
use public_cpp_laravel.Prelude.Int.{ℤ, eqb_ℤ, IsInt64}
use public_cpp_laravel.Http.Messages.{Request, Response, json}
use public_cpp_laravel.Http.Pipeline.{Run, returned, Handler}
use public_cpp_laravel.Session.Store.{Store, put, get, has, forget, flush, regenerate_id}

pub record AuthUser : Type 0 where
  pub id : ℤ
  pub username : Text
  pub password : Text

pub record UserProvider : Type 0 where
  pub retrieve_by_id : ℤ → Option AuthUser
  pub retrieve_by_credentials : Text → Option AuthUser
  pub validate : AuthUser → Text → Bool

-- `HashContract`; `make` is the value that one call gives.
pub record HashContract : Type 0 where
  pub make : Text → Text
  pub check : Text → Text → Bool

unfoldable pub find_user : (AuthUser → Bool) → List AuthUser → Option AuthUser
find_user test [] = none
find_user test (u ∷ us) = if test u then some u else find_user test us

-- `ArrayUserProvider::add`
unfoldable pub add_user : HashContract → List AuthUser → AuthUser → List AuthUser
add_user hasher users u = users ++ (record u { password = hasher.make u.password } ∷ [])

unfoldable pub array_provider : HashContract → List AuthUser → UserProvider
unfolding find_user
array_provider hasher users = record {
  retrieve_by_id = λ id. find_user (λ u. eqb_ℤ u.id id) users;
  retrieve_by_credentials = λ name. find_user (λ u. text_eq u.username name) users;
  validate = λ u password. hasher.check password u.password;
}

-- The decimal text of a 64-bit integer and back; `stoll` is `none` where the C++ one throws.
pub record Decimal : Type 0 where
  pub to_string : ℤ → Text
  pub stoll : Text → Option ℤ
  pub stoll-to_string : (n : ℤ) → IsInt64 n → stoll (to_string n) ≡ some n

abbrev pub auth_id : Text
auth_id = codes "auth_id"

module _ (dec : Decimal) (users : UserProvider) where
  -- `Guard::login`, on the session `sid`.
  unfoldable pub login : Store → ℕ → Text → AuthUser → Store
  login s now sid u = put s now sid auth_id (dec.to_string u.id)

  unfoldable pub attempt_with : Option AuthUser → Store → ℕ → Text → Text → Bool × Store
  unfolding login
  attempt_with none s now sid password = (false, s)
  attempt_with (some u) s now sid password =
      if users.validate u password then (true, login s now sid u) else (false, s)

  unfoldable pub attempt : Store → ℕ → Text → Text → Text → Bool × Store
  unfolding attempt_with
  attempt s now sid username password =
      attempt_with (users.retrieve_by_credentials username) s now sid password

  unfoldable pub logout_guard : Store → ℕ → Text → Store
  logout_guard s now sid = forget s now sid auth_id

  unfoldable pub check : Store → ℕ → Text → Bool × Store
  check s now sid = has s now sid auth_id

  unfoldable pub guest : Store → ℕ → Text → Bool × Store
  unfolding check
  guest s now sid = let (b, s') = check s now sid in (not b, s')

  unfoldable pub parse_id : Option Text → Option ℤ
  parse_id none = none
  parse_id (some v) = dec.stoll v

  unfoldable pub user_id : Store → ℕ → Text → Option ℤ × Store
  unfolding parse_id
  user_id s now sid = let (v, s') = get s now sid auth_id in (parse_id v, s')

  unfoldable pub find_by_id : Option ℤ → Option AuthUser
  find_by_id none = none
  find_by_id (some id) = users.retrieve_by_id id

  unfoldable pub user : Store → ℕ → Text → Option AuthUser × Store
  unfolding user_id find_by_id
  user s now sid = let (uid, s') = user_id s now sid in (find_by_id uid, s')

pub record CookieOptions : Type 0 where
  pub name : Text
  pub path : Text
  pub http_only : Bool
  pub secure : Bool
  pub same_site : Text

unfoldable pub cookie_header : Text → CookieOptions → Text
cookie_header value o =
    o.name
    ++ (b'='
        ∷ (value
            ++ (codes "; Path="
                ++ (o.path
                    ++ ((if o.http_only then codes "; HttpOnly" else [])
                        ++ ((if o.secure then codes "; Secure" else [])
                            ++ (if is_empty o.same_site
                                then []
                                else codes "; SameSite=" ++ o.same_site)))))))

unfoldable pub cookie_or_empty : Option Text → Text
cookie_or_empty none = []
cookie_or_empty (some id) = id

-- The id of `session_of(req, store, opts)`.
unfoldable pub session_id : Request → CookieOptions → Text
unfolding cookie_or_empty
session_id req opts = cookie_or_empty (lookup opts.name req.cookies)

-- A handler's state here: the session store and the clock.
pub record World : Type 0 where
  pub store : Store
  pub now : ℕ

unfoldable pub unauthenticated : Response
unfolding json
unauthenticated = json (codes "{\"error\":\"unauthenticated\"}") 401

unfoldable pub require_auth : CookieOptions → Request → Handler World → World → Run World
unfolding session_id unauthenticated
require_auth opts req next w =
    let (logged_in, s') = has w.store w.now (session_id req opts) auth_id in
    if logged_in
    then next req (record w { store = s' })
    else returned unauthenticated req (record w { store = s' })

pub record LoggedIn : Type 0 where
  pub success : Bool
  pub req : Request
  pub res : Response
  pub store : Store

-- After `guard.attempt`; `fresh` is what `new_session_id` gives.
unfoldable pub finish_login :
    Bool × Store → Request → Response → ℕ → Text → CookieOptions → Text → LoggedIn
unfolding cookie_header
finish_login (false, s) req res now sid opts fresh = record {
  success = false;
  req = req;
  res = res;
  store = s;
}
finish_login (true, s) req res now sid opts fresh =
    let (id, s') = regenerate_id s now sid fresh in
    record {
      success = true;
      req = record req { cookies = insert opts.name id req.cookies };
      res = record res {
        headers = insert (codes "Set-Cookie") (cookie_header id opts) res.headers;
      };
      store = s';
    }

unfoldable pub attempt_login :
    Decimal
    → UserProvider
    → Request
    → Response
    → Store
    → ℕ
    → Text
    → Text
    → CookieOptions
    → Text
    → LoggedIn
unfolding attempt finish_login session_id
attempt_login dec users req res s now username password opts fresh =
    finish_login (attempt dec users s now (session_id req opts) username password) req res now
      (session_id req opts) opts fresh

unfoldable pub logout : Request → Store → CookieOptions → Store
unfolding session_id
logout req s opts = flush s (session_id req opts)
