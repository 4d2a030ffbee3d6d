-- ===== src/Http/Kernel.antt =====
-- src/kernel.cpp: `Kernel::handle` and `Kernel::register_providers`, over the routing boundary
-- `RouterContract`. The log line on stderr is left out.
pub mod Outcomes
use public_cpp_laravel.Prelude.{
  ℕ, List, [], ◌∷◌, ◌++◌, Option, none, some, is_empty, if◌then◌else◌, Text, codes, Dict, insert,
  text_key,
}
use public_cpp_laravel.Http.Messages.{Request, Response, response}
use public_cpp_laravel.Http.Pipeline.{Run, returned, threw, Handler, Middleware, run}
use public_cpp_laravel.Http.Router

-- What the kernel reads of a matched route.
pub record Target (S : Type 0) : Type 0 where
  pub handler : Handler S
  pub middleware : List (Middleware S)

pub record RouterContract (S : Type 0) : Type 0 where
  pub match : Request → Option (Target S × Dict Text Text)
  pub allowed_methods : Text → List Text

-- A service provider, by what its two phases do to the state.
pub record ServiceProvider (S : Type 0) : Type 0 where
  pub register_ : S → S
  pub boot : S → S

abbrev pub comma : Text
comma = codes ", "

-- `allow` after the loop over the methods, from what it holds before.
unfoldable pub join_methods : Text → List Text → Text
join_methods allow [] = allow
join_methods allow (m ∷ ms) = join_methods (if is_empty allow then m else allow ++ (comma ++ m)) ms

unfoldable pub not_found : Response
unfolding response
not_found = response 404 (codes "Not Found")

unfoldable pub not_allowed : List Text → Response
unfolding response insert join_methods
not_allowed allowed =
    let res : Response = response 405 (codes "Method Not Allowed") in
    record res { headers = insert (codes "Allow") (join_methods [] allowed) res.headers }

unfoldable pub server_error : Response
unfolding response
server_error = response 500 (codes "Internal Server Error")

module _ {S : Type 0} where
  -- The two `catch` clauses.
  unfoldable pub catch : Run S → Response × S
  catch (returned res req s) = (res, s)
  catch (threw s) = (server_error, s)

  unfoldable pub handle_matched :
      List (Middleware S)
      → Option (Target S × Dict Text Text)
      → List Text
      → Request
      → S
      → Response × S
  unfolding catch run
  handle_matched global none allowed req s =
      if is_empty allowed then (not_found, s) else (not_allowed allowed, s)
  handle_matched global (some (route, params)) allowed req s =
      catch
        (run (global ++ route.middleware) (record req { route_params = params }) route.handler s)

  unfoldable pub handle : RouterContract S → List (Middleware S) → Request → S → Response × S
  unfolding handle_matched
  handle router global req s =
      handle_matched global (router.match req) (router.allowed_methods req.path) req s

  unfoldable pub run_phase : (ServiceProvider S → S → S) → List (ServiceProvider S) → S → S
  run_phase phase [] s = s
  run_phase phase (p ∷ ps) s = run_phase phase ps (phase p s)

  unfoldable pub register_providers : List (ServiceProvider S) → S → S
  unfolding run_phase
  register_providers providers s =
      run_phase (λ p. p.boot) providers (run_phase (λ p. p.register_) providers s)

-- The object, without the container, which it only holds. Its two lists start empty.
pub record Kernel (S : Type 0) : Type 0 where
  pub router : RouterContract S
  pub global : List (Middleware S)
  pub providers : List (ServiceProvider S)

module _ {S : Type 0} where
  unfoldable pub make_kernel : RouterContract S → Kernel S
  make_kernel router = record { router = router; global = []; providers = [] }

  unfoldable pub global_middleware : List (Middleware S) → Kernel S → Kernel S
  global_middleware mw k = record k { global = mw }

  -- `register_providers` with what it keeps.
  unfoldable pub keep_providers : List (ServiceProvider S) → Kernel S → S → Kernel S × S
  unfolding register_providers
  keep_providers providers k s =
      (record k { providers = providers }, register_providers providers s)

  unfoldable pub kernel_handle : Kernel S → Request → S → Response × S
  unfolding handle
  kernel_handle k req s = handle k.router k.global req s

-- The router of src/router.cpp behind the boundary.
unfoldable pub to_target :
    (rx : Router.Regex) (S : Type 0)
    → Option (Router.Route rx S × Dict Text Text)
    → Option (Target S × Dict Text Text)
to_target rx S none = none
to_target rx S (some (r, params)) =
    some (record { handler = r.handler; middleware = r.middleware }, params)

unfoldable pub as_contract :
    (rx : Router.Regex) (S : Type 0) → Router.Router rx S → RouterContract S
unfolding to_target
as_contract rx S router = record {
  match = λ req. to_target rx S (Router.match rx S router req);
  allowed_methods = Router.allowed_methods rx S router;
}
