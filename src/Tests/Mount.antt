-- ===== src/Tests/Mount.antt =====
-- A mounted directory on which the lemmas of Static/Mount are tried, and a digest that is read back.
use public_cpp_laravel.Prelude.{
  ℕ, ◌-◌, ◌≡◌, ◌⊎◌, refl, true, [], ◌∷◌, none, some, if◌then◌else◌, ◌&&◌, take, drop, length, Text,
  codes, text_eq, starts_with,
}
use public_cpp_laravel.Http.Messages.{Request, Response}
use public_cpp_laravel.Http.Router.{Regex, Router, match, match_from}
use public_cpp_laravel.Http.Kernel.{handle, as_contract}
use public_cpp_laravel.Static.{serve_file}
use public_cpp_laravel.Static.Resolve.{Resolved}
use public_cpp_laravel.Static.Mount.{mount}
use public_cpp_laravel.Static.Mount.Reached.{path_segment, with_path, handle-mount}
use public_cpp_laravel.Websocket.Accept.{base64, base64_from, base64_digits, pad}
use public_cpp_laravel.Tests.Static.{files, static_options}
use public_cpp_laravel.Tests.Strokes.{stroke_numbers}

-- Expressions for one mounted prefix.
abbrev mounted_regex : Regex
mounted_regex = record {
  Pattern = Text;
  compile = λ e. e;
  regex_match = λ path e.
      if text_eq e (codes "^/files/(.*)$") && starts_with (codes "/files/") path
      then some (drop 7 path ∷ [])
      else none;
  segments = λ uri.
      if text_eq (drop (length uri - 8) uri) (codes "/{path*}")
      then path_segment (take (length uri - 8) uri) ∷ []
      else [];
  regex_escape = λ t. t;
}

abbrev bare : Router mounted_regex ℕ
bare = record { routes = [] }

abbrev asks : Request
asks = record {
  method = codes "GET";
  path = codes "/files/a.txt";
  route_params = [];
  headers = [];
  body = [];
  cookies = [];
  query = [];
  remote_addr = [];
}

nothing_earlier : match mounted_regex ℕ bare asks ≡ none
unfolding match match_from
nothing_earlier = refl

abbrev served : Response × ℕ
served =
    handle
      (as_contract mounted_regex ℕ (
        mount files stroke_numbers mounted_regex ℕ bare (codes "/files") (codes "/w")
          static_options))
      [] asks 5

handle-mount_example :
    ((served.0.status ≡ 404) × (served.1 ≡ 5))
    ⊎ ((path : Text) × Resolved files (codes "/w") (codes "/w") (codes "a.txt") path
        × (files.is_regular_file path ≡ true)
        × (served ≡ (
          serve_file files stroke_numbers static_options path (with_path (codes "a.txt") asks),
          5,
        )))
unfolding starts_with
handle-mount_example =
    handle-mount files stroke_numbers mounted_regex ℕ bare (codes "/files") (codes "/w")
      (codes "a.txt") static_options asks 5 (codes "/w") refl (cc) refl refl refl nothing_earlier

base64_man : base64 (codes "Man!") ≡ codes "TWFuIQ=="
unfolding base64 base64_from base64_digits pad
base64_man = refl
