-- ===== src/Session/Csrf/Continues.antt =====
-- The session cookie from one request to the next.
use public_cpp_laravel.Prelude.{
  ◌≡◌, refl, true, false, none, some, [], ◌∷◌, ◌++◌, arith, is_some, split_at, Text, codes,
  text_eq_refl, lookup, insert, text_key, Lacks, Lacks-append, NoBlank, trim-NoBlank,
  split_at-append, split_on-Lacks,
}
use public_cpp_laravel.Http.Messages.{Request, Response}
use public_cpp_laravel.Http.Url.{parse_cookies, parse_pairs, add_pair, cook, is_space}
use public_cpp_laravel.Http.Pipeline.{Run, returned, threw, Handler}
use public_cpp_laravel.Session.Auth.{CookieOptions, cookie_header, World}
use public_cpp_laravel.Session.Csrf.{set_cookie, stamp_fresh, ensure_cookie, session_middleware}

-- A name or an id that can stand in a cookie.
pub record IsCookieText (s : Text) : Type 0 where
  pub no_semicolon : Lacks b';' s
  pub no_equals : Lacks b'=' s
  pub no_space : NoBlank is_space s

module _ (opts : CookieOptions) (id : Text) (name_text : IsCookieText opts.name)
    (id_text : IsCookieText id) where
  -- The first piece of the `Set-Cookie` value, which a client sends back.
  abbrev pub cookie_pair : Text
  cookie_pair = opts.name ++ (b'=' ∷ id)

  parse_cookies-cookie_pair : parse_cookies cookie_pair ≡ (opts.name, id) ∷ []
  unfolding parse_cookies parse_pairs add_pair cook insert
  parse_cookies-cookie_pair =
      rw
        (
          split_on-Lacks b';' cookie_pair (
              Lacks-append b';' opts.name (b'=' ∷ id) name_text.no_semicolon
                (ground arith, id_text.no_semicolon)),
          split_at-append b'=' opts.name id name_text.no_equals,
          trim-NoBlank is_space opts.name name_text.no_space,
          trim-NoBlank is_space id id_text.no_space,
        )
        refl

  -- With no cookies the new id is added.
  no_cookies :
      (parse_cookies [] ≡ [])
      × (is_some (lookup opts.name (parse_cookies [])) ≡ false)
      × (ensure_cookie opts id (parse_cookies []) ≡ (opts.name, id) ∷ [])
  unfolding parse_cookies parse_pairs add_pair ensure_cookie lookup insert split_at
  no_cookies = (refl, refl, refl)

  one_cookie :
      (other : Text)
      → (is_some (lookup opts.name ((opts.name, id) ∷ [])) ≡ true)
        × (ensure_cookie opts other ((opts.name, id) ∷ []) ≡ (opts.name, id) ∷ [])
  unfolding ensure_cookie lookup
  one_cookie other = rw (text_eq_refl opts.name) (refl, refl)

  stamped :
      (res : Response) (req : Request) (w : World)
      → lookup opts.name req.cookies ≡ some id
      → lookup set_cookie res.headers ≡ none
      → stamp_fresh opts true (returned res req w)
        ≡ returned
            (record res { headers = insert set_cookie (cookie_header id opts) res.headers })
            req
            w
  unfolding stamp_fresh
  stamped res req w kept unset = rw (unset, kept) refl

  stamp_fresh-false : (r : Run World) → stamp_fresh opts false r ≡ r
  unfolding stamp_fresh
  stamp_fresh-false (threw w) = refl
  stamp_fresh-false (returned res req w) = refl

  -- A request with no cookies is handled under the new id, and where the handler leaves that cookie
  -- in the request and sets none itself, the response sets it; and a later request that sends it back
  -- is handled under that id, with its response left alone, whatever id is drawn then.
  pub session_middleware-continues :
      (req req' later : Request) (res : Response) (next next' : Handler World) (w w' v : World)
      (other : Text)
      → lookup (codes "Cookie") req.headers ≡ none
      → next (record req { cookies = (opts.name, id) ∷ [] }) w ≡ returned res req' w'
      → lookup opts.name req'.cookies ≡ some id
      → lookup set_cookie res.headers ≡ none
      → lookup (codes "Cookie") later.headers ≡ some cookie_pair
      → (session_middleware opts id req next w
          ≡ returned
              (record res { headers = insert set_cookie (cookie_header id opts) res.headers })
              req'
              w')
        × (session_middleware opts other later next' v
            ≡ next' (record later { cookies = (opts.name, id) ∷ [] }) v)
  unfolding session_middleware
  session_middleware-continues req req' later res next next' w w' v other first ran kept unset
        back =
      let (none_there, fresh, added) = no_cookies in
      let (known, kept_cookie) = one_cookie other in
      (
        rw (first, fresh, added, ran) (stamped res req' w' kept unset),
        rw (back, parse_cookies-cookie_pair, known, kept_cookie) (stamp_fresh-false _),
      )
