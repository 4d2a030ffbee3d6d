-- ===== src/Http/Kernel/Outcomes.antt =====
-- What the kernel answers, with the router of src/router.cpp.
use public_cpp_laravel.Prelude.{
  ◌≡◌, ◌≢◌, ◌↔◌, ◌⊎◌, inl, inr, refl, ap, sym, ◌∙◌, subst, codes, lookup, insert, text_key, true,
  Bool-cases, Option-cases, text_eq, text_eq_iff, append_assoc, List, [], ◌∷◌, ◌++◌, Option, none,
  some, arith, Text, Dict, All,
}
use public_cpp_laravel.Http.Messages.{Request, Response, response}
use public_cpp_laravel.Http.Pipeline.{Run, returned, threw, run, Middleware}
use public_cpp_laravel.Http.Pipeline.Order.{onion, run-onion}
use public_cpp_laravel.Http.Router.{
  Regex, Route, Router, seen, match, match_from, bind_params, allowed_methods,
}
use public_cpp_laravel.Http.Router.Selection.{
  IsFirst, Answers, match_from-IsFirst, match_from-none, allowed_methods-eq-nil, Serves,
  seen-allowed_methods,
}
use public_cpp_laravel.Http.Kernel.{
  catch, handle, handle_matched, to_target, not_found, not_allowed, server_error, join_methods,
  comma, as_contract,
}

-- A text in a list of texts.
abbrev pub IsIn : Text → List Text → Type 0
IsIn m [] = ⊥
IsIn m (v ∷ vs) = (v ≡ m) ⊎ IsIn m vs

-- The texts with a comma and a space between them.
abbrev pub comma_list : List Text → Text
comma_list [] = []
comma_list (m ∷ []) = m
comma_list (m ∷ v ∷ vs) = m ++ (codes ", " ++ comma_list (v ∷ vs))

seen-IsIn : (m : Text) (vs : List Text) → (seen m vs ≡ true) ↔ IsIn m vs
unfolding seen
seen-IsIn m [] = (λ h. absurd (cc), λ h. absurd h)
seen-IsIn m (v ∷ vs) =
    let (to, from) = seen-IsIn m vs in
    let (same, back) = text_eq_iff v m in
    (
      λ h. elim (Bool-cases (text_eq v m)) [
        | inl e ↦ inl (same e)
        | inr e ↦ inr (to (ground (arith, h, e)))
      ],
      λ h. elim h [ inl e ↦ ground (arith, back e) | inr later ↦ ground (arith, from later) ],
    )

comma_list-append :
    (x y : Text) (ms : List Text) → comma_list ((x ++ y) ∷ ms) ≡ x ++ comma_list (y ∷ ms)
comma_list-append x y [] = refl
comma_list-append x y (m ∷ ms) = append_assoc x y (codes ", " ++ comma_list (m ∷ ms))

join_methods_lem :
    (allow : Text) (ms : List Text) → allow ≢ [] → join_methods allow ms ≡ comma_list (allow ∷ ms)
unfolding join_methods
join_methods_lem allow [] h = refl
join_methods_lem [] (m ∷ ms) h = absurd (h refl)
join_methods_lem (c ∷ allow) (m ∷ ms) h =
    join_methods_lem ((c ∷ allow) ++ (comma ++ m)) ms (cc)
    ∙ comma_list-append (c ∷ allow) (comma ++ m) ms
    ∙ ap (λ t. (c ∷ allow) ++ t) (comma_list-append comma m ms)

Serves-named :
    (rx : Regex) (S : Type 0) (path m : Text) (rs : List (Route rx S))
    → All (λ q. q.method ≢ []) rs
    → Serves rx S path m rs
    → m ≢ []
Serves-named rx S path m [] h serves = absurd serves
Serves-named rx S path m (r ∷ rs) h (inl (e, hit)) = λ empty. h.0 (e ∙ empty)
Serves-named rx S path m (r ∷ rs) h (inr later) = Serves-named rx S path m rs h.1 later

-- How a run of the stack is answered: as it returned, or with a 500 where it threw.
abbrev pub AnsweredRun : {S : Type 0} → Run S → Response × S → Type 0
AnsweredRun (returned res req s) r = r ≡ (res, s)
AnsweredRun (threw s) r = (r.0.status ≡ 500) × (r.1 ≡ s)

-- The names with the groups, as long as there are both; of two equal names the later counts.
abbrev pub params_from : List Text → List Text → Dict Text Text → Dict Text Text
params_from [] groups params = params
params_from (n ∷ names) [] params = params
params_from (n ∷ names) (g ∷ groups) params = params_from names groups (insert n g params)

bind_params_lem :
    (rx : Regex) (S : Type 0) (names groups : List Text) (params : Dict Text Text)
    → bind_params rx S names groups params ≡ params_from names groups params
unfolding bind_params
bind_params_lem rx S [] groups params = refl
bind_params_lem rx S (n ∷ names) [] params = refl
bind_params_lem rx S (n ∷ names) (g ∷ groups) params =
    bind_params_lem rx S names groups (insert n g params)

-- The parameters are the groups of the route's expression under its names.
abbrev pub HasParams : (rx : Regex) (S : Type 0) → Text → Route rx S → Dict Text Text → Type 0
HasParams rx S path r params =
    (groups : List Text) × (rx.regex_match path r.pattern ≡ some groups)
    × (params ≡ params_from r.param_names groups [])

match_from-HasParams :
    (rx : Regex) (S : Type 0) (rs : List (Route rx S)) (req : Request) (r : Route rx S)
    (params : Dict Text Text)
    → match_from rx S rs req ≡ some (r, params)
    → HasParams rx S req.path r params
unfolding match_from
match_from-HasParams rx S [] req r params e = absurd (cc)
match_from-HasParams rx S (q ∷ rs) req r params e =
    elim (Bool-cases (text_eq q.method req.method)) [
      | inl same ↦ elim (Option-cases (rx.regex_match req.path q.pattern)) [
        | inl miss ↦ match_from-HasParams rx S rs req r params (rw (same, miss, match_from) at e)
        | inr (groups, hit) ↦
            let found : ◌≡◌ {A = Option (Route rx S × Dict Text Text)}
                (some (q, bind_params rx S q.param_names groups [])) (some (r, params)) =
              rw (same, hit, match_from) at e in
            let same_route : q ≡ r = cc in
            subst (λ t. HasParams rx S req.path t params) same_route
              (
                groups,
                hit,
                (let own : params ≡ bind_params rx S q.param_names groups [] = cc in
                    own ∙ bind_params_lem rx S q.param_names groups []),
              )
      ]
      | inr other ↦ match_from-HasParams rx S rs req r params (rw other at e)
    ]

module _ (rx : Regex) {S : Type 0} (router : Router rx S) (global : List (Middleware S)) where
  -- The three ways in which a request is answered, told by the routes alone.
  pub data Answered (req : Request) (s : S) : Response × S → Type 0 where
    -- No route's expression matches the path.
    unknown_path :
        {r : Response × S}
        → All (λ q. rx.regex_match req.path q.pattern ≡ none) router.routes
        → r.0.status ≡ 404
        → r.1 ≡ s
        → Answered req s r
    -- Some route's does, and none of them has the method.
    other_method :
        {r : Response × S} (methods : List Text)
        → ¬ All (λ q. rx.regex_match req.path q.pattern ≡ none) router.routes
        → All (λ q. ¬ Answers rx S req q) router.routes
        → ((m : Text) → IsIn m methods ↔ Serves rx S req.path m router.routes)
        → r.0.status ≡ 405
        → lookup (codes "Allow") r.0.headers ≡ some (comma_list methods)
        → r.1 ≡ s
        → Answered req s r
    -- The first route that answers runs inside the global stack and its own; a throw is a 500.
    routed :
        {r : Response × S} (route : Route rx S) (params : Dict Text Text)
        → IsFirst rx S req router.routes route
        → HasParams rx S req.path route params
        → AnsweredRun
            (onion
              (global ++ route.middleware)
              route.handler
              (record req { route_params = params })
              s)
            r
        → Answered req s r

  answer : Option (Route rx S × Dict Text Text) → Request → S → Response × S
  answer o req s =
      handle_matched global (to_target rx S o) (allowed_methods rx S router req.path) req s

  catch-AnsweredRun : (o : Run S) → AnsweredRun o (catch o)
  unfolding catch server_error response
  catch-AnsweredRun (returned res req s) = refl
  catch-AnsweredRun (threw s) = (refl, refl)

  module _ (named : All (λ q. q.method ≢ []) router.routes) where
    refused-Answered :
        (req : Request) (s : S) (allowed : List Text)
        → allowed_methods rx S router req.path ≡ allowed
        → match rx S router req ≡ none
        → Answered req s (handle_matched global none allowed req s)
    unfolding handle_matched match not_found not_allowed response insert lookup join_methods
    refused-Answered req s [] e m =
        unknown_path ((allowed_methods-eq-nil rx S router req.path).0 e) refl refl
    refused-Answered req s (a ∷ allowed) e m =
        let serves : (m : Text) → IsIn m (a ∷ allowed) ↔ Serves rx S req.path m router.routes = λ m.
          let (seen_in, in_seen) = seen-IsIn m (a ∷ allowed) in
          let (to, from) = seen-allowed_methods rx S router req.path m in
          (λ h. to (ap (seen m) e ∙ in_seen h), λ h. seen_in (sym (ap (seen m) e) ∙ from h)) in
        let named_a : a ≢ [] =
          Serves-named rx S req.path a router.routes named ((serves a).0 (inl refl)) in
        other_method (a ∷ allowed)
          (λ h. absurd (ground (arith, (allowed_methods-eq-nil rx S router req.path).1 h)))
          (match_from-none rx S router.routes req m) serves refl
          (ap some (join_methods_lem a allowed named_a)) refl

    answer-Answered :
        (req : Request) (s : S) (o : Option (Route rx S × Dict Text Text))
        → match rx S router req ≡ o
        → Answered req s (answer o req s)
    unfolding answer to_target handle_matched
    answer-Answered req s none e =
        refused-Answered req s (allowed_methods rx S router req.path) refl e
    answer-Answered req s (some (route, params)) e = routed route params (first e) (given e) (
        subst (λ o. AnsweredRun o (catch (run mws req' route.handler s)))
          (run-onion mws req' route.handler s) (catch-AnsweredRun (run mws req' route.handler s)))
      where
        mws : List (Middleware S)
        mws = global ++ route.middleware

        req' : Request
        req' = record req { route_params = params }

        first : match rx S router req ≡ some (route, params) → IsFirst rx S req router.routes route
        first = unfold match in match_from-IsFirst rx S router.routes req route params

        given : match rx S router req ≡ some (route, params) → HasParams rx S req.path route params
        given = unfold match in match_from-HasParams rx S router.routes req route params

    -- Every request is answered in one of three ways, where no route has an empty method: 404 exactly
    -- when no route's expression matches the path; 405 with an `Allow` header that lists exactly the
    -- methods of the routes that match, with commas between them, when none of these has the
    -- request's method; and otherwise by the first route that answers, with the groups
    -- of its expression for parameters, run inside the global and its own middleware, with what they return, or a 500 where they throw. The state is as it was where
    -- nothing runs, and as the run left it where something does.
    pub handle-Answered :
        (req : Request) (s : S) → Answered req s (handle (as_contract rx S router) global req s)
    unfolding handle as_contract answer
    handle-Answered req s = answer-Answered req s (match rx S router req) refl
