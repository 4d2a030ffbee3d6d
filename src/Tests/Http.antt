-- ===== src/Tests/Http.antt =====
-- The middleware, the routes and the requests on which the lemmas of Http are tried.
use public_cpp_laravel.Prelude.{
  ℕ, ◌≡◌, refl, List, [], ◌∷◌, ◌++◌, some, none, if◌then◌else◌, Text, codes, text_eq,
}
use public_cpp_laravel.Http.Messages.{Request, response}
use public_cpp_laravel.Http.Pipeline.{returned, Handler, Middleware}
use public_cpp_laravel.Http.Router.{Regex, Router, Route, get, post, match_from, bind_params}
use public_cpp_laravel.Http.Kernel.{handle, as_contract}
use public_cpp_laravel.Http.Kernel.Outcomes.{Answered, handle-Answered}

-- A state that notes who ran.
abbrev tag : ℕ → Middleware (List ℕ)
tag n req next s = next req (s ++ (n ∷ []))

abbrev greet : Handler (List ℕ)
unfolding response
greet req s = returned (response 200 (codes "hello")) req (s ++ (0 ∷ []))

abbrev request : Text → Text → Request
request method path = record {
  method = method;
  path = path;
  route_params = [];
  headers = [];
  body = [];
  cookies = [];
  query = [];
  remote_addr = [];
}

abbrev get_home : Request
get_home = request (codes "GET") (codes "/home")

-- Expressions for uris with no parameter and no character to escape.
abbrev literal : Regex
literal = record {
  Pattern = Text;
  compile = λ e. e;
  regex_match = λ path e. if text_eq (codes "^" ++ (path ++ codes "$")) e then some [] else none;
  segments = λ uri. [];
  regex_escape = λ t. t;
}

abbrev no_routes : Router literal (List ℕ)
no_routes = record { routes = [] }

abbrev routes : Router literal (List ℕ)
routes =
    post literal (List ℕ) (get literal (List ℕ) no_routes (codes "/home") greet (tag 3 ∷ []))
      (codes "/home") greet []

abbrev home : Route literal (List ℕ)
home = record {
  method = codes "GET";
  uri = codes "/home";
  pattern = codes "^/home$";
  param_names = [];
  handler = greet;
  middleware = tag 3 ∷ [];
}

home_found : match_from literal (List ℕ) (home ∷ []) get_home ≡ some (home, [])
unfolding match_from bind_params
home_found = refl

handle-Answered_example :
    Answered literal routes
      (tag 1 ∷ [])
      get_home
      []
      (handle (as_contract literal (List ℕ) routes) (tag 1 ∷ []) get_home [])
unfolding post get
handle-Answered_example = handle-Answered literal routes (tag 1 ∷ []) (cc, (cc, tt)) get_home []
