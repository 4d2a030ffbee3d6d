-- ===== src/Static/Mount/Reached.antt =====
-- A mounted directory behind the kernel.
use public_cpp_laravel.Prelude.{
  ℕ, zero, suc, ◌+◌, ◌-◌, ◌≡◌, ◌≢◌, refl, ap, ◌∙◌, ◌⊎◌, inl, inr, Bool-cases, Option-cases, true,
  List, [], ◌∷◌, ◌++◌, none, some, Text, codes, length, take, drop, text_eq, Dict, insert, lookup,
  text_key, arith,
}
use public_cpp_laravel.Prelude.Numbers.{Numbers}
use public_cpp_laravel.Http.Messages.{Request}
use public_cpp_laravel.Http.Pipeline.{returned, run, wrap}
use public_cpp_laravel.Http.Router.{
  Regex, Router, Route, Segment, get, add, add_segments, match, match_from, bind_params,
  allowed_methods,
}
use public_cpp_laravel.Http.Kernel.{handle, handle_matched, as_contract, to_target, catch}
use public_cpp_laravel.Static.{Files, Options, serve, serve_file}
use public_cpp_laravel.Static.Resolve.{Resolved, serve-Resolved}
use public_cpp_laravel.Static.Mount.{serve_path, mount}

module _ (rx : Regex) (S : Type 0) where
  match_from-append_none :
      (rs more : List (Route rx S)) (req : Request)
      → match_from rx S rs req ≡ none
      → match_from rx S (rs ++ more) req ≡ match_from rx S more req
  unfolding match_from
  match_from-append_none [] more req h = refl
  match_from-append_none (r ∷ rs) more req h = elim (Bool-cases (text_eq r.method req.method)) [
    | inl same ↦ elim (Option-cases (rx.regex_match req.path r.pattern)) [
      | inl e ↦
          rw (same, e, match_from)
            (match_from-append_none rs more req (rw (same, e, match_from) at h))
      | inr (groups, e) ↦ absurd (ground (arith, rw (same, e, match_from) at h))
    ]
    | inr other ↦ rw other (match_from-append_none rs more req (rw other at h))
  ]

  match_from-append_some :
      (rs more : List (Route rx S)) (req : Request) (found : Route rx S × Dict Text Text)
      → match_from rx S rs req ≡ some found
      → match_from rx S (rs ++ more) req ≡ some found
  unfolding match_from
  match_from-append_some [] more req found h = absurd (cc)
  match_from-append_some (r ∷ rs) more req found h =
      elim (Bool-cases (text_eq r.method req.method)) [
        | inl same ↦ elim (Option-cases (rx.regex_match req.path r.pattern)) [
          | inl e ↦
              rw (same, e, match_from)
                (match_from-append_some rs more req found (rw (same, e, match_from) at h))
          | inr (groups, e) ↦ rw (same, e, match_from) (rw (same, e, match_from) at h)
        ]
        | inr other ↦ rw other (match_from-append_some rs more req found (rw other at h))
      ]

-- The uri's one segment, as the segment expression finds it.
abbrev pub path_segment : Text → Segment
path_segment prefix = record {
  position = length prefix + 1;
  length = 7;
  name = codes "path";
  star = true;
}

-- The expression that `add` makes of `prefix/{path*}`.
abbrev pub path_expression : Regex → Text → Text
path_expression rx prefix =
    (codes "^" ++ (rx.regex_escape (prefix ++ codes "/") ++ codes "(.*)"))
    ++ (rx.regex_escape [] ++ codes "$")

-- The request that the handler gets.
abbrev pub with_path : Text → Request → Request
with_path rest req = record req { route_params = (codes "path", rest) ∷ [] }

take-uri :
    (n : ℕ) (prefix : Text)
    → n ≡ length prefix + 1
    → take n (prefix ++ codes "/{path*}") ≡ prefix ++ codes "/"
take-uri zero prefix h = absurd (omega arith)
take-uri (suc n) [] h =
    let one : n ≡ 0 = omega arith in ap (λ m. take (suc m) (codes "/{path*}")) one
take-uri (suc n) (c ∷ prefix) h = ap (λ t. c ∷ t) (take-uri n prefix (omega arith))

drop-uri :
    (n : ℕ) (prefix : Text) → n ≡ length prefix + 8 → drop n (prefix ++ codes "/{path*}") ≡ []
drop-uri n [] h = rw h refl
drop-uri zero (c ∷ prefix) h = absurd (omega arith)
drop-uri (suc n) (c ∷ prefix) h = drop-uri n prefix (omega arith)

add_segments-uri :
    (rx : Regex) (S : Type 0) (prefix : Text)
    → add_segments rx S (prefix ++ codes "/{path*}") (codes "^") [] 0 (path_segment prefix ∷ [])
      ≡ (path_expression rx prefix, codes "path" ∷ [])
unfolding add_segments
add_segments-uri rx S prefix = λ i. (
  (codes "^"
        ++ (rx.regex_escape (take-uri (length prefix + 1 - 0) prefix (omega arith) i)
            ++ codes "(.*)"))
      ++ (rx.regex_escape (drop-uri (length prefix + 1 + 7) prefix (omega arith) i) ++ codes "$"),
  codes "path" ∷ [],
)

module _ (fs : Files) (num : Numbers) (rx : Regex) (S : Type 0) (router : Router rx S)
    (prefix dir rest : Text) (opts : Options) (req : Request) (s : S) where
  abbrev mounted : Route rx S
  mounted = record {
    method = codes "GET";
    uri = prefix ++ codes "/{path*}";
    pattern = rx.compile (path_expression rx prefix);
    param_names = codes "path" ∷ [];
    handler = serve_path fs num rx S dir opts;
    middleware = [];
  }

  abbrev with_expression : Text × List Text → Router rx S
  with_expression e = record {
    routes =
        router.routes
        ++ (record {
          method = codes "GET";
          uri = prefix ++ codes "/{path*}";
          pattern = rx.compile e.0;
          param_names = e.1;
          handler = serve_path fs num rx S dir opts;
          middleware = [];
        }
            ∷ []);
  }

  mount_lem :
      rx.segments (prefix ++ codes "/{path*}") ≡ path_segment prefix ∷ []
      → mount fs num rx S router prefix dir opts
        ≡ record { routes = router.routes ++ (mounted ∷ []) }
  unfolding mount get add
  mount_lem found = ap with_expression (
      ap (add_segments rx S (prefix ++ codes "/{path*}") (codes "^") [] 0) found
      ∙ add_segments-uri rx S prefix)

  match_from-mounted :
      rx.regex_match req.path (rx.compile (path_expression rx prefix)) ≡ some (rest ∷ [])
      → req.method ≡ codes "GET"
      → match_from rx S (mounted ∷ []) req ≡ some (mounted, (codes "path", rest) ∷ [])
  unfolding match_from bind_params insert
  match_from-mounted matched method = rw (same_method, matched, match_from) refl
    where
      same_method : text_eq (codes "GET") req.method ≡ true
      same_method = ap (text_eq (codes "GET")) method

  serve_path-with_path :
      serve_path fs num rx S dir opts (with_path rest req) s
      ≡ returned (serve fs num opts dir rest (with_path rest req)) (with_path rest req) s
  unfolding serve_path lookup
  serve_path-with_path = refl

  abbrev with_mounted : Router rx S
  with_mounted = record { routes = router.routes ++ (mounted ∷ []) }

  handle-serve :
      rx.segments (prefix ++ codes "/{path*}") ≡ path_segment prefix ∷ []
      → rx.regex_match req.path (rx.compile (path_expression rx prefix)) ≡ some (rest ∷ [])
      → req.method ≡ codes "GET"
      → match rx S router req ≡ none
      → handle (as_contract rx S (mount fs num rx S router prefix dir opts)) [] req s
        ≡ (serve fs num opts dir rest (with_path rest req), s)
  unfolding handle as_contract match handle_matched to_target catch run wrap
  handle-serve found matched method earlier =
      ap (λ r. handle (as_contract rx S r) [] req s) (mount_lem found)
      ∙ ap
          (λ o.
            handle_matched [] (to_target rx S o) (allowed_methods rx S with_mounted req.path) req s)
          (match_from-append_none rx S router.routes (mounted ∷ []) req earlier
            ∙ match_from-mounted matched method)
      ∙ ap catch serve_path-with_path

  -- Where the mounted directory resolves to a path that is not empty: a GET of the prefix, a slash and a
  -- rest that no earlier route takes, behind a kernel with no global middleware and where the regular
  -- expressions find the rest, is answered with 404, or with the file of a path that the rest, without
  -- `..`, resolves to, and that is the resolved directory or goes on behind it and a separator; the
  -- state is left alone.
  pub handle-mount :
      (base : Text)
      → fs.weakly_canonical dir ≡ some base
      → base ≢ []
      → rx.segments (prefix ++ codes "/{path*}") ≡ path_segment prefix ∷ []
      → rx.regex_match req.path (rx.compile (path_expression rx prefix)) ≡ some (rest ∷ [])
      → req.method ≡ codes "GET"
      → match rx S router req ≡ none
      → let answer =
          handle (as_contract rx S (mount fs num rx S router prefix dir opts)) [] req s in
        ((answer.0.status ≡ 404) × (answer.1 ≡ s))
        ⊎ ((path : Text) × Resolved fs dir base rest path
            × (fs.is_regular_file path ≡ true)
            × (answer ≡ (serve_file fs num opts path (with_path rest req), s)))
  handle-mount base resolves named found matched method earlier =
      let served = handle-serve found matched method earlier in
      elim (serve-Resolved fs dir base rest resolves named num opts (with_path rest req)) [
        | inl refused ↦ inl (ap (λ a. a.0.status) served ∙ refused, ap (λ a. a.1) served)
        | inr (path, resolved, regular, e) ↦
            inr (path, resolved, regular, served ∙ ap (λ r. (r, s)) e)
      ]
