-- ===== src/Tests/Session.antt =====
-- The sessions, hashes and users on which the lemmas of Session are tried.
use public_cpp_laravel.Prelude.{
  ◌≡◌, ◌≢◌, refl, true, false, List, [], ◌∷◌, some, none, if◌then◌else◌, arith, codes, text_eq,
  lookup, text_key, insert, erase,
}
use public_cpp_laravel.Prelude.Int.{pos, IsInt64}
use public_cpp_laravel.Http.Messages.{Request, Response}
use public_cpp_laravel.Tests.Unary.{unary}
use public_cpp_laravel.Session.Store.{
  Store, put, regenerate_id, is_stale, gc, gc_loop, touch, drop_if_expired,
}
use public_cpp_laravel.Session.Store.Laws.{value_of, live, in_time, value_of-put}
use public_cpp_laravel.Session.Store.Renaming.{value_of-regenerate_id}
use public_cpp_laravel.Session.Store.Sweep.{Event, happen_all, new_store, value_of-gc}
use public_cpp_laravel.Session.Hash
use public_cpp_laravel.Session.Hash.{digest}
use public_cpp_laravel.Session.Hash.Verify.{check-make}
use public_cpp_laravel.Session.Auth.{
  AuthUser, UserProvider, HashContract, array_provider, CookieOptions, session_id, attempt_login,
}
use public_cpp_laravel.Session.Auth.Login.{Accepted, IsRenewed, attempt_login-IsRenewed}

-- One session with a name in it, used at 10, of a store that keeps sessions for 5.
abbrev store : Store
store = record {
  ttl = 5;
  entries = (codes "s", (codes "name", codes "Ann") ∷ []) ∷ [];
  last_seen = (codes "s", 10) ∷ [];
}

value_of-put_example :
    value_of (put store 12 (codes "s") (codes "role") (codes "admin")) 16 (codes "s") (codes "name")
    ≡ (if text_eq (codes "s") (codes "s")
        then (if in_time store.ttl 12 16
            then (if text_eq (codes "role") (codes "name")
                then some (codes "admin")
                else value_of store 12 (codes "s") (codes "name"))
            else none)
        else value_of store 16 (codes "s") (codes "name"))
value_of-put_example =
    value_of-put store 12 16 (codes "s") (codes "s") (codes "role") (codes "name") (codes "admin")

five : store.ttl ≢ 0
five = cc

apart : codes "s" ≢ codes "fresh"
apart = cc

name_held : value_of store 12 (codes "s") (codes "name") ≡ some (codes "Ann")
unfolding value_of lookup
name_held = refl

value_of-regenerate_id_example :
    ((regenerate_id store 12 (codes "s") (codes "fresh")).0 ≡ codes "fresh")
    × (value_of
          (regenerate_id store 12 (codes "s") (codes "fresh")).1
          16
          (codes "fresh")
          (codes "name")
        ≡ (if text_eq (codes "s") (codes "fresh")
            then none
            else if text_eq (codes "fresh") (codes "fresh")
            then (if in_time store.ttl 12 16
                then value_of store 12 (codes "s") (codes "name")
                else none)
            else value_of store 16 (codes "fresh") (codes "name")))
value_of-regenerate_id_example =
    value_of-regenerate_id store 12 16 (codes "s") (codes "fresh") (codes "name") (codes "Ann")
      (codes "fresh") (codes "name") apart name_held

-- Ann writes at 1 and at 4, Bob at 2.
abbrev visits : List Event
visits =
    Event.puts 1 (codes "ann") (codes "name") (codes "Ann")
    ∷ Event.puts 2 (codes "bob") (codes "name") (codes "Bob")
    ∷ Event.puts 4 (codes "ann") (codes "role") (codes "admin")
    ∷ []

abbrev visited : Store
visited = happen_all visits (new_store 5)

value_of-gc_example :
    (value_of (gc visited 8) 9 (codes "ann") (codes "name")
      ≡ value_of visited 9 (codes "ann") (codes "name"))
    × (lookup (codes "ann") (gc visited 8).entries ≡ live visited 8 (codes "ann"))
value_of-gc_example = value_of-gc 5 visits 8 9 (codes "ann") (codes "name") (omega arith)

bob_swept : lookup (codes "bob") (gc visited 8).entries ≡ none
unfolding gc gc_loop put touch drop_if_expired is_stale lookup insert erase
bob_swept = refl

gone : live store 16 (codes "s") ≡ none
unfolding live lookup is_stale
gone = refl

abbrev ann : AuthUser
ann = record { id = pos 7; username = codes "ann"; password = Hash.make 77 (codes "secret") }

ann-IsInt64 : IsInt64 ann.id
ann-IsInt64 = omega arith

abbrev hasher : HashContract
hasher = record { make = Hash.make 77; check = Hash.check }

abbrev users : UserProvider
users = array_provider hasher (ann ∷ [])

ann-Accepted : Accepted unary users (codes "ann") (codes "secret") ann
unfolding array_provider
ann-Accepted = (refl, check-make 77 (codes "secret"))

abbrev options : CookieOptions
options = record {
  name = codes "session_id";
  path = codes "/";
  http_only = true;
  secure = false;
  same_site = codes "Lax";
}

abbrev request : Request
request = record {
  method = codes "POST";
  path = codes "/login";
  route_params = [];
  headers = [];
  body = [];
  cookies = (codes "session_id", codes "s") ∷ [];
  query = [];
  remote_addr = [];
}

abbrev blank : Response
blank = record { status = 200; body = []; headers = [] }

id_renewed : session_id request options ≢ codes "fresh"
unfolding session_id lookup
id_renewed = cc

attempt_login-IsRenewed_example :
    IsRenewed unary users store (session_id request options) (codes "fresh") 12 16 ann options (
      attempt_login unary users request blank store 12
        (codes "ann")
        (codes "secret")
        options
        (codes "fresh"))
attempt_login-IsRenewed_example =
    attempt_login-IsRenewed unary users request blank store 12 16 (codes "ann") (codes "secret")
      (codes "fresh") options ann ann-Accepted id_renewed ann-IsInt64
