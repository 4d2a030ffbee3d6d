-- ===== src/Tests/Cache.antt =====
-- The caches and requests on which the lemmas of Cache are tried.
use public_cpp_laravel.Prelude.{
  ◌≡◌, [], ◌∷◌, true, false, some, none, arith, Text, codes, lookup, text_key,
}
use public_cpp_laravel.Prelude.Int.{pos}
use public_cpp_laravel.Http.Messages.{Request, Response}
use public_cpp_laravel.Session.Auth.{CookieOptions}
use public_cpp_laravel.Cache.{ArrayCache, is_expired}
use public_cpp_laravel.Cache.Laws.{cached, cached-fresh, fresh}
use public_cpp_laravel.Cache.Throttle.{bucket_key, bucket_text}
use public_cpp_laravel.Cache.Throttle.Window.{answers, allowance, throttle_window}
use public_cpp_laravel.Tests.Unary.{unary, counting}

abbrev posts : Text
posts = codes "posts"

abbrev cache : ArrayCache
cache = record {
  items = (posts, record { value = codes "all"; expires = some 100 }) ∷ [];
  tagged_keys = (codes "blog", posts ∷ []) ∷ [];
}

abbrev options : CookieOptions
options = record {
  name = codes "lwsid";
  path = codes "/";
  http_only = true;
  secure = false;
  same_site = codes "Lax";
}

abbrev request : Request
request = record {
  method = codes "GET";
  path = codes "/";
  route_params = [];
  headers = [];
  body = [];
  cookies = [];
  query = [];
  remote_addr = codes "127.0.0.1";
}

abbrev ok : Response
ok = record { status = 200; body = []; headers = [] }

abbrev nothing : ArrayCache
nothing = record { items = []; tagged_keys = [] }

unused : cached nothing 5000 (bucket_key request options) ≡ none
unfolding fresh lookup
unused = cached-fresh nothing 5000 (bucket_key request options)

throttle_window_example :
    answers unary counting 2 60 options request ok nothing (5000 ∷ 6000 ∷ 7000 ∷ [])
    ≡ allowance unary counting 2 60 options request ok 0 (5000 ∷ 6000 ∷ 7000 ∷ [])
throttle_window_example =
    throttle_window unary counting 2 60 options request ok nothing 5000 (6000 ∷ 7000 ∷ []) unused
      (omega arith) (omega arith) (omega arith)

-- A full bucket of the window that began at second 5.
abbrev full : ArrayCache
full = record {
  items =
      (
        bucket_key request options,
        record { value = bucket_text unary counting (pos 9) (pos 5); expires = none },
      )
      ∷ [];
  tagged_keys = [];
}

full-cached :
    cached full 70000 (bucket_key request options)
    ≡ some (bucket_text unary counting (pos 9) (pos 5))
unfolding fresh lookup is_expired bucket_key
full-cached = cached-fresh full 70000 (bucket_key request options)
