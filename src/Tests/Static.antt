-- ===== src/Tests/Static.antt =====
-- A directory with one file, on which the lemmas of Static are tried.
use public_cpp_laravel.Prelude.{
  ◌≡◌, ◌⊎◌, refl, true, [], ◌∷◌, ◌++◌, some, Text, codes, text_eq, starts_with, split_at,
}
use public_cpp_laravel.Prelude.Int.{pos, ◌-ℤ◌}
use public_cpp_laravel.Http.Messages.{Request}
use public_cpp_laravel.Static.{Files, Options, serve, serve_file}
use public_cpp_laravel.Static.Ranges.{parse_range}
use public_cpp_laravel.Static.Resolve.{serve-Resolved, Resolved}
use public_cpp_laravel.Tests.Strokes.{stroke_numbers}

abbrev pub files : Files
files = record {
  weakly_canonical = λ path. some path;
  join_path = λ root rel. root ++ (b'/' ∷ rel);
  separator = b'/';
  is_regular_file = λ path. text_eq path (codes "/w/a.txt");
  file_size = λ path. pos 5;
  last_write_time = λ path. pos 0;
  contents = λ path. codes "hello";
}

abbrev pub static_options : Options
static_options = record { cache_control = codes "no-cache"; extra_headers = [] }

abbrev asked : Request
asked = record {
  method = codes "GET";
  path = codes "/a.txt";
  route_params = [];
  headers = (codes "range", codes "bytes=11-1111") ∷ [];
  body = [];
  cookies = [];
  query = [];
  remote_addr = [];
}

serve-Resolved_example :
    ((serve files stroke_numbers static_options (codes "/w") (codes "a.txt") asked).status ≡ 404)
    ⊎ ((path : Text) × Resolved files (codes "/w") (codes "/w") (codes "a.txt") path
        × (files.is_regular_file path ≡ true)
        × (serve files stroke_numbers static_options (codes "/w") (codes "a.txt") asked
            ≡ serve_file files stroke_numbers static_options path asked))
serve-Resolved_example =
    serve-Resolved files (codes "/w") (codes "/w") (codes "a.txt") refl (cc) stroke_numbers
      static_options asked

range_served : (parse_range stroke_numbers.stoll (codes "bytes=11-1111") (pos 5)).satisfiable ≡ true
unfolding parse_range starts_with split_at ◌-ℤ◌
range_served = refl
