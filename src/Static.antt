-- ===== src/Static.antt =====
-- include/static_files.hpp: files served with validators and byte ranges. `std::filesystem`, the bytes
-- of the files and the conversions of numbers are parameters; a file does not change while it is served.
pub mod Mount
pub mod Ranges
pub mod Slice
pub mod Resolve
use public_cpp_laravel.Prelude.{
  ℕ, suc, ◌+◌, ◌-◌, ◌≡◌, Bool, true, false, not, ◌&&◌, ◌||◌, List, [], ◌∷◌, ◌++◌, Option, none,
  some, if◌then◌else◌, length, is_empty, drop, pad_zeros, ◌==◌, Text, codes, text_eq, lower,
  starts_with, contains_text, split_at, Dict, insert, text_key,
}
use public_cpp_laravel.Prelude.Int.{ℤ, pos, pos_part, ◌+ℤ◌, ◌-ℤ◌}
use public_cpp_laravel.Prelude.Numbers.{Numbers}
use public_cpp_laravel.Http.Messages.{Request, Response, response, content_type}
use public_cpp_laravel.Static.Ranges.{Range, parse_range}

-- `weakly_canonical` is `none` where it reports an error; `join_path` is the `/` of paths.
pub record Files : Type 0 where
  pub weakly_canonical : Text → Option Text
  pub join_path : Text → Text → Text
  pub separator : ℕ
  pub is_regular_file : Text → Bool
  pub file_size : Text → ℤ
  pub last_write_time : Text → ℤ
  pub contents : Text → Text

pub record Options : Type 0 where
  pub cache_control : Text
  pub extra_headers : List (Text × Text)

unfoldable pub insert_headers : List (Text × Text) → Dict Text Text → Dict Text Text
unfolding insert
insert_headers [] hs = hs
insert_headers ((name, value) ∷ more) hs = insert_headers more (insert name value hs)

unfoldable pub apply_extra : Options → Response → Response
unfolding insert_headers
apply_extra opts r = record r { headers = insert_headers opts.extra_headers r.headers }

-- What stands behind the last dot.
unfoldable pub extension : Text → Option Text
extension [] = none
extension (c ∷ s) = elim (extension s) [
  | none ↦ if c == b'.' then some s else none
  | some ext ↦ some ext
]

abbrev pub text_or_empty : Option Text → Text
text_or_empty none = []
text_or_empty (some s) = s

unfoldable pub mime_of : Text → Text
mime_of ext =
    if text_eq ext (codes "wasm")
    then codes "application/wasm"
    else if text_eq ext (codes "js") || text_eq ext (codes "mjs")
    then codes "application/javascript"
    else if text_eq ext (codes "html") || text_eq ext (codes "htm")
    then codes "text/html; charset=utf-8"
    else if text_eq ext (codes "css")
    then codes "text/css"
    else if text_eq ext (codes "json")
    then codes "application/json"
    else if text_eq ext (codes "svg")
    then codes "image/svg+xml"
    else if text_eq ext (codes "png")
    then codes "image/png"
    else if text_eq ext (codes "jpg") || text_eq ext (codes "jpeg")
    then codes "image/jpeg"
    else if text_eq ext (codes "gif")
    then codes "image/gif"
    else if text_eq ext (codes "ico")
    then codes "image/x-icon"
    else if text_eq ext (codes "woff2")
    then codes "font/woff2"
    else if text_eq ext (codes "woff")
    then codes "font/woff"
    else if text_eq ext (codes "wav")
    then codes "audio/wav"
    else if text_eq ext (codes "txt")
    then codes "text/plain; charset=utf-8"
    else codes "application/octet-stream"

unfoldable pub mime_type : Text → Text
unfolding mime_of extension
mime_type path = mime_of (lower (text_or_empty (extension path)))

unfoldable pub header_in : Text → Dict Text Text → Text
header_in name [] = []
header_in name ((key, value) ∷ hs) =
    if text_eq (lower key) (lower name) then value else header_in name hs

unfoldable pub header_ci : Request → Text → Text
unfolding header_in
header_ci req name = header_in name req.headers

-- `ec` is that of the second call, which resets it.
unfoldable pub under : ℕ → Text → Option Text → Text
under sep base none = []
under sep base (some full) =
    if text_eq full base || starts_with (base ++ (sep ∷ [])) full then full else []

unfoldable pub safe_resolve : Files → Text → Text → Text
unfolding under
safe_resolve fs root rel =
    if contains_text (codes "..") rel
    then []
    else under fs.separator (text_or_empty (fs.weakly_canonical root))
        (fs.weakly_canonical (fs.join_path root rel))

unfoldable pub etag_of : Files → Numbers → Text → Text
etag_of fs num path =
    codes "\""
    ++ (num.to_string (fs.file_size path)
        ++ (codes "-" ++ (num.to_string (fs.last_write_time path) ++ codes "\"")))

module _ (fs : Files) (num : Numbers) (opts : Options) where
  abbrev pub with_headers : ℕ → Text → Dict Text Text → Response
  with_headers status body headers =
      apply_extra opts (record { status = status; body = body; headers = headers })

  unfoldable pub not_modified : Text → Response
  unfolding apply_extra
  not_modified path =
      with_headers 304 []
        ((codes "ETag", etag_of fs num path) ∷ (codes "Cache-Control", opts.cache_control) ∷ [])

  unfoldable pub unsatisfiable : Text → Response
  unfolding apply_extra
  unsatisfiable path =
      with_headers 416 []
        ((codes "Content-Range", codes "bytes */" ++ num.to_string (fs.file_size path)) ∷ [])

  -- `end - start + 1` bytes from `start` on, read into a buffer of zeros.
  unfoldable pub partial : Text → Range → Response
  unfolding apply_extra
  partial path r =
      with_headers 206
        (pad_zeros (pos_part (r.end -ℤ r.start +ℤ pos 1))
          (drop (pos_part r.start) (fs.contents path)))
        ((content_type, mime_type path)
          ∷ (
            codes "Content-Range",
            codes "bytes "
                ++ (num.to_string r.start
                    ++ (codes "-"
                        ++ (num.to_string r.end
                            ++ (codes "/" ++ num.to_string (fs.file_size path))))),
          )
          ∷ (codes "Accept-Ranges", codes "bytes")
          ∷ (codes "Cache-Control", opts.cache_control)
          ∷ (codes "ETag", etag_of fs num path)
          ∷ [])

  unfoldable pub whole : Text → Response
  unfolding apply_extra
  whole path = with_headers 200 (fs.contents path) (
      (content_type, mime_type path)
      ∷ (codes "Accept-Ranges", codes "bytes")
      ∷ (codes "Cache-Control", opts.cache_control)
      ∷ (codes "ETag", etag_of fs num path)
      ∷ [])

  unfoldable pub serve_range : Text → Range → Response
  unfolding partial unsatisfiable whole
  serve_range path r =
      if r.present && not r.satisfiable
      then unsatisfiable path
      else if r.satisfiable
      then partial path r
      else whole path

  unfoldable pub serve_file : Text → Request → Response
  unfolding not_modified serve_range header_ci
  serve_file path req =
      let range : Text = header_ci req (codes "Range") in
      if text_eq (header_ci req (codes "If-None-Match")) (etag_of fs num path)
      then not_modified path
      else if not (is_empty range)
      then serve_range path (parse_range num.stoll range (fs.file_size path))
      else whole path

  unfoldable pub serve_resolved : Text → Request → Response
  unfolding serve_file
  serve_resolved path req =
      if is_empty path
      then response 404 (codes "Not Found")
      else if not (fs.is_regular_file path)
      then response 404 (codes "Not Found")
      else serve_file path req

  unfoldable pub serve : Text → Text → Request → Response
  unfolding serve_resolved
  serve root rel_path req = serve_resolved (safe_resolve fs root rel_path) req
