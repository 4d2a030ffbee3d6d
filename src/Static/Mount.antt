-- ===== src/Static/Mount.antt =====
-- include/static_files.hpp: `mount`, on the router of src/router.cpp.
pub mod Reached
use public_cpp_laravel.Prelude.{
  List, [], ◌∷◌, ◌++◌, Option, none, some, Text, codes, Dict, insert, lookup, text_key,
}
use public_cpp_laravel.Http.Messages.{Request, Response}
use public_cpp_laravel.Http.Pipeline.{returned, Handler}
use public_cpp_laravel.Http.Router.{Regex, Router, get}
use public_cpp_laravel.Prelude.Numbers.{Numbers}
use public_cpp_laravel.Static.{Files, Options, serve}

-- `req.route_params["path"]`, which enters an empty value where there is none: the value and the request.
abbrev pub take_param : Option Text → Text → Request → Text × Request
take_param none name req = ([], record req { route_params = insert name [] req.route_params })
take_param (some value) name req = (value, req)

module _ (fs : Files) (num : Numbers) (rx : Regex) (S : Type 0) where
  unfoldable pub serve_path : Text → Options → Handler S
  unfolding serve
  serve_path dir opts req s =
      let (rest, req') = take_param (lookup (codes "path") req.route_params) (codes "path") req in
      returned (serve fs num opts dir rest req') req' s

  unfoldable pub mount : Router rx S → Text → Text → Options → Router rx S
  unfolding get serve_path
  mount router url_prefix dir opts =
      get rx S router (url_prefix ++ codes "/{path*}") (serve_path dir opts) []
