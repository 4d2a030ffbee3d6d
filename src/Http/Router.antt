-- ===== src/Http/Router.antt =====
-- include/router.hpp, include/router_contract.hpp and src/router.cpp. The regular expressions are
-- std::regex, a parameter: `compile` builds one from its text, `regex_match` gives the capture groups
-- of a full match, `segments` walks a uri by `\{(\w+)(\*?)\}` and `regex_escape` is the
-- `regex_replace` of `Router::escape`.
pub mod Selection
use public_cpp_laravel.Prelude.{
  ℕ, ◌+◌, ◌-◌, Bool, true, false, ◌&&◌, ◌||◌, List, [], ◌∷◌, ◌++◌, Option, none, some, take, drop,
  if◌then◌else◌, map, Text, codes, text_eq, Dict, insert, lookup, text_key,
}
use public_cpp_laravel.Http.Messages.{Request, Response}
use public_cpp_laravel.Http.Pipeline.{Handler, Middleware}

-- A match of the segment expression: where it stands, its name, and whether it ends in `*`.
pub record Segment : Type 0 where
  pub position : ℕ
  pub length : ℕ
  pub name : Text
  pub star : Bool

pub record Regex : Type 1 where
  pub Pattern : Type 0
  pub compile : Text → Pattern
  pub regex_match : Text → Pattern → Option (List Text)
  pub segments : Text → List Segment
  pub regex_escape : Text → Text

unfoldable pub seen : Text → List Text → Bool
seen m [] = false
seen m (v ∷ out) = text_eq v m || seen m out

-- One round of `allowed_methods`.
unfoldable pub note_method : Option (List Text) → Text → List Text → List Text
unfolding seen
note_method none m out = out
note_method (some groups) m out = if seen m out then out else out ++ (m ∷ [])

module _ (rx : Regex) (S : Type 0) where
  open rx use {Pattern, compile, regex_match, segments, regex_escape}

  pub record Route : Type 0 where
    pub method : Text
    pub uri : Text
    pub pattern : Pattern
    pub param_names : List Text
    pub handler : Handler S
    pub middleware : List (Middleware S)

  pub record RouteInfo : Type 0 where
    pub method : Text
    pub uri : Text

  pub record Router : Type 0 where
    pub routes : List Route

  -- The loop of `Router::add`: the expression and the names so far, and the end of the last match.
  unfoldable pub add_segments : Text → Text → List Text → ℕ → List Segment → Text × List Text
  add_segments uri acc names last [] = (acc ++ (regex_escape (drop last uri) ++ codes "$"), names)
  add_segments uri acc names last (m ∷ ms) =
      add_segments uri
        (acc
          ++ (regex_escape (take (m.position - last) (drop last uri))
              ++ (if m.star then codes "(.*)" else codes "([^/]+)")))
        (names ++ (m.name ∷ [])) (m.position + m.length) ms

  unfoldable pub add : Router → Text → Text → Handler S → List (Middleware S) → Router
  unfolding add_segments
  add router method uri h mw =
      let (expression, names) = add_segments uri (codes "^") [] 0 (segments uri) in
      record {
        routes =
            router.routes
            ++ (record {
              method = method;
              uri = uri;
              pattern = compile expression;
              param_names = names;
              handler = h;
              middleware = mw;
            }
                ∷ []);
      }

  unfoldable pub get : Router → Text → Handler S → List (Middleware S) → Router
  unfolding add
  get router = add router (codes "GET")

  unfoldable pub post : Router → Text → Handler S → List (Middleware S) → Router
  unfolding add
  post router = add router (codes "POST")

  unfoldable pub put : Router → Text → Handler S → List (Middleware S) → Router
  unfolding add
  put router = add router (codes "PUT")

  unfoldable pub patch : Router → Text → Handler S → List (Middleware S) → Router
  unfolding add
  patch router = add router (codes "PATCH")

  unfoldable pub del : Router → Text → Handler S → List (Middleware S) → Router
  unfolding add
  del router = add router (codes "DELETE")

  -- `params[r.param_names[i]] = m[i + 1].str()`; a later name overwrites an equal one.
  unfoldable pub bind_params : List Text → List Text → Dict Text Text → Dict Text Text
  bind_params [] groups params = params
  bind_params (n ∷ names) [] params = params
  bind_params (n ∷ names) (g ∷ groups) params = bind_params names groups (insert n g params)

  unfoldable pub match_from : List Route → Request → Option (Route × Dict Text Text)
  unfolding bind_params
  match_from [] req = none
  match_from (r ∷ rs) req =
      let rest = match_from rs req in
      if text_eq r.method req.method
      then elim (regex_match req.path r.pattern) [
        | none ↦ rest
        | some groups ↦ some (r, bind_params r.param_names groups [])
      ]
      else rest

  unfoldable pub match : Router → Request → Option (Route × Dict Text Text)
  unfolding match_from
  match router req = match_from router.routes req

  unfoldable pub allowed_from : List Route → Text → List Text → List Text
  unfolding note_method
  allowed_from [] path out = out
  allowed_from (r ∷ rs) path out =
      allowed_from rs path (note_method (regex_match path r.pattern) r.method out)

  unfoldable pub allowed_methods : Router → Text → List Text
  unfolding allowed_from
  allowed_methods router path = allowed_from router.routes path []

  unfoldable pub list : Router → List RouteInfo
  list router = map (λ r. record { method = r.method; uri = r.uri }) router.routes
