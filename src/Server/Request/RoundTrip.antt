-- ===== src/Server/Request/RoundTrip.antt =====
-- A request as a client writes it, and as the server reads it.
use mathlib.Core.Option
use public_cpp_laravel.Prelude.{
  ℕ, ◌≡◌, ◌≢◌, refl, ap, sym, ◌∙◌, true, false, List, [], ◌∷◌, ◌++◌, ◌||◌, ◌==◌, none, some, arith,
  Text, All, Lacks, Lacks-append, split_at, split_at-append, split_lines, add_to_first, trim,
  strip_left, find_text, cut_text, starts_with, append_assoc, append-nil, Dict, insert, text_key,
  drop,
}
use public_cpp_laravel.Http.Messages.{Request}
use public_cpp_laravel.Http.Url.{parse_pairs, parse_form}
use public_cpp_laravel.Http.Url.RoundTrip.{
  form_text, BytePair, insert_all, is_unreserved, parse_form-form_text, form_text-Lacks,
}
use public_cpp_laravel.Server.Request.{
  blank_line, is_blank, add_header, add_headers, parse_target, build_request, parse_line,
  parse_rest, parse_head, parse_parts, parse_http_request,
}

unfoldable pub header_lines : List (Text × Text) → Text
header_lines [] = []
header_lines ((name, value) ∷ hs) = 13 ∷ 10 ∷ (name ++ (b':' ∷ b' ' ∷ (value ++ header_lines hs)))

unfoldable pub target_text : Text → List (Text × Text) → Text
target_text path [] = path
target_text path (kv ∷ kvs) = path ++ (b'?' ∷ form_text kv kvs)

unfoldable pub request_line : Text → Text → Text → Text
request_line method target version = method ++ (b' ' ∷ (target ++ (b' ' ∷ version)))

-- A name without a colon and a value, each on one line and without blanks at its ends.
pub record IsHeader (h : Text × Text) : Type 0 where
  pub name_colon : Lacks b':' h.0
  pub name_line : Lacks 13 h.0
  pub value_line : Lacks 13 h.1
  pub name_trimmed : trim is_blank h.0 ≡ h.0
  pub value_trimmed : trim is_blank h.1 ≡ h.1

-- No part of the request line can be taken for its separators.
pub record IsLine (method path version : Text) : Type 0 where
  pub method_word : Lacks b' ' method
  pub method_line : Lacks 13 method
  pub path_word : Lacks b' ' path
  pub path_line : Lacks 13 path
  pub path_query : Lacks b'?' path
  pub version_line : Lacks 13 version

split_lines-cons :
    (c d : ℕ) (s : Text) → c ≢ 13 → split_lines (c ∷ d ∷ s) ≡ add_to_first c (split_lines (d ∷ s))
unfolding split_lines
split_lines-cons c d s h = ground arith

split_lines-append :
    (l t : Text) → Lacks 13 l → split_lines (l ++ (13 ∷ 10 ∷ t)) ≡ l ∷ split_lines t
unfolding split_lines
split_lines-append [] t h = refl
split_lines-append (c ∷ []) t h = split_lines-cons c 13 (10 ∷ t) h.0
split_lines-append (c ∷ d ∷ l) t h =
    split_lines-cons c d (l ++ (13 ∷ 10 ∷ t)) h.0
    ∙ ap (add_to_first c) (split_lines-append (d ∷ l) t h.1)

split_lines-Lacks : (l : Text) → Lacks 13 l → split_lines l ≡ l ∷ []
unfolding split_lines
split_lines-Lacks [] h = refl
split_lines-Lacks (c ∷ []) h = refl
split_lines-Lacks (c ∷ d ∷ l) h =
    split_lines-cons c d l h.0 ∙ ap (add_to_first c) (split_lines-Lacks (d ∷ l) h.1)

find_text-append :
    (s t a b : Text)
    → Lacks 13 s
    → find_text blank_line t ≡ some (a, b)
    → find_text blank_line (s ++ t) ≡ some (s ++ a, b)
unfolding find_text starts_with
find_text-append [] t a b h e = e
find_text-append (c ∷ s) t a b h e = ground (arith, find_text-append s t a b h.1 e)

-- A line end that another line follows is no blank line.
find_text_later :
    (c : ℕ) (t a b : Text)
    → c ≢ 13
    → find_text blank_line (c ∷ t) ≡ some (a, b)
    → find_text blank_line (13 ∷ 10 ∷ c ∷ t) ≡ some (13 ∷ 10 ∷ a, b)
unfolding find_text starts_with
find_text_later c t a b h e = ground arith

find_text_line :
    (name t a b : Text)
    → Lacks 13 name
    → find_text blank_line (name ++ (b':' ∷ t)) ≡ some (a, b)
    → find_text blank_line (13 ∷ 10 ∷ (name ++ (b':' ∷ t))) ≡ some (13 ∷ 10 ∷ a, b)
find_text_line [] t a b h e = find_text_later b':' t a b (ground arith) e
find_text_line (c ∷ name) t a b h e = find_text_later c (name ++ (b':' ∷ t)) a b h.0 e

find_text-header_lines :
    (hs : List (Text × Text)) (body : Text)
    → All IsHeader hs
    → find_text blank_line (header_lines hs ++ (blank_line ++ body))
      ≡ some (header_lines hs, blank_line ++ body)
unfolding header_lines
find_text-header_lines [] body h = unfold find_text starts_with in refl
find_text-header_lines ((name, value) ∷ hs) body h =
    let end_ : Text = header_lines hs ++ (blank_line ++ body) in
    let behind : find_text blank_line (value ++ end_)
        ≡ some (value ++ header_lines hs, blank_line ++ body) =
      find_text-append value end_ (header_lines hs) (blank_line ++ body) h.0.value_line
        (find_text-header_lines hs body h.1) in
    let colon : find_text blank_line (name ++ (b':' ∷ b' ' ∷ (value ++ end_)))
        ≡ some (name ++ (b':' ∷ b' ' ∷ (value ++ header_lines hs)), blank_line ++ body) =
      find_text-append name (b':' ∷ b' ' ∷ (value ++ end_))
        (b':' ∷ b' ' ∷ (value ++ header_lines hs)) (blank_line ++ body) h.0.name_line
        (find_text-append (b':' ∷ b' ' ∷ []) (value ++ end_) (value ++ header_lines hs)
          (blank_line ++ body) (ground arith, (ground arith, tt)) behind) in
    ap (λ s. find_text blank_line (13 ∷ 10 ∷ s))
      (append_assoc name (b':' ∷ b' ' ∷ (value ++ header_lines hs)) (blank_line ++ body)
        ∙ ap (λ s. name ++ (b':' ∷ b' ' ∷ s))
            (append_assoc value (header_lines hs) (blank_line ++ body)))
    ∙ find_text_line name (b' ' ∷ (value ++ end_)) _ (blank_line ++ body) h.0.name_line colon

trim-space : (v : Text) → trim is_blank (b' ' ∷ v) ≡ trim is_blank v
unfolding trim strip_left
trim-space v = refl

add_header-trimmed :
    (name value : Text) (m : Dict Text Text)
    → IsHeader (name, value)
    → add_header (some (name, b' ' ∷ value)) m ≡ insert name value m
unfolding add_header
add_header-trimmed name value m h =
    ap (λ n. insert n (trim is_blank (b' ' ∷ value)) m) h.name_trimmed
    ∙ ap (λ v. insert name v m) (trim-space value ∙ h.value_trimmed)

split_lines-header_lines :
    (line : Text) (hs : List (Text × Text)) (m : Dict Text Text)
    → Lacks 13 line
    → All IsHeader hs
    → (lines : List Text) × (split_lines (line ++ header_lines hs) ≡ line ∷ lines)
      × (add_headers lines m ≡ insert_all hs m)
unfolding header_lines add_headers
split_lines-header_lines line [] m h hs = ([], rw append-nil (split_lines-Lacks line h), refl)
split_lines-header_lines line ((name, value) ∷ hs) m h all =
    let text_ : Text = name ++ (b':' ∷ b' ' ∷ value) in
    let (lines, cut, added) =
      split_lines-header_lines text_ hs (insert name value m)
        (Lacks-append 13 name (b':' ∷ b' ' ∷ value) all.0.name_line
          (ground arith, (ground arith, all.0.value_line)))
        all.1 in
    (
      text_ ∷ lines,
      split_lines-append line (name ++ (b':' ∷ b' ' ∷ (value ++ header_lines hs))) h
          ∙ ap (λ s. line ∷ split_lines s)
              (sym (append_assoc name (b':' ∷ b' ' ∷ value) (header_lines hs)))
          ∙ ap (◌∷◌ line) cut,
      ap (λ o. add_headers lines (add_header o m))
            (split_at-append b':' name (b' ' ∷ value) all.0.name_colon)
          ∙ ap (add_headers lines) (add_header-trimmed name value m all.0)
          ∙ added,
    )

parse_form-form_text_lem :
    (kv : Text × Text) (kvs : List (Text × Text))
    → BytePair kv
    → All BytePair kvs
    → parse_pairs (form_text kv kvs) b'&' true ≡ insert_all (kv ∷ kvs) []
unfolding parse_form
parse_form-form_text_lem kv kvs h hs = parse_form-form_text kv kvs h hs

target_text-Lacks :
    (c : ℕ) (path : Text) (kvs : List (Text × Text))
    → (is_unreserved c || c == b'%') ≡ false
    → c ≢ b'='
    → c ≢ b'&'
    → c ≢ b'?'
    → Lacks c path
    → All BytePair kvs
    → Lacks c (target_text path kvs)
unfolding target_text
target_text-Lacks c path [] safe eq amp mark h hs = h
target_text-Lacks c path (kv ∷ kvs) safe eq amp mark h hs =
    Lacks-append c path (b'?' ∷ form_text kv kvs) h
      (λ e. mark (sym e), form_text-Lacks c kv kvs safe eq amp hs.0 hs.1)

split_at-Lacks : (c : ℕ) (s : Text) → Lacks c s → split_at c s ≡ none
unfolding split_at
split_at-Lacks c [] h = refl
split_at-Lacks c (d ∷ s) h = ground (arith, split_at-Lacks c s h.1)

parse_target-target_text :
    (path : Text) (kvs : List (Text × Text))
    → Lacks b'?' path
    → All BytePair kvs
    → parse_target (split_at b'?' (target_text path kvs)) (target_text path kvs)
      ≡ (path, insert_all kvs [])
unfolding target_text parse_target
parse_target-target_text path [] h hs = ap (λ o. parse_target o path) (split_at-Lacks b'?' path h)
parse_target-target_text path (kv ∷ kvs) h hs =
    ap (λ o. parse_target o (path ++ (b'?' ∷ form_text kv kvs)))
      (split_at-append b'?' path (form_text kv kvs) h)
    ∙ ap (λ q. (path, q)) (parse_form-form_text_lem kv kvs hs.0 hs.1)

module _ (method path version body : Text) (kvs hs : List (Text × Text))
    (line : IsLine method path version) (pairs : All BytePair kvs) (headers : All IsHeader hs) where
  abbrev pub target : Text
  target = target_text path kvs

  abbrev pub first : Text
  first = request_line method target version

  target-Lacks_space : Lacks b' ' target
  target-Lacks_space =
      target_text-Lacks b' ' path kvs refl (ground arith) (ground arith) (ground arith)
        line.path_word pairs

  first-Lacks : Lacks 13 first
  unfolding request_line
  first-Lacks = Lacks-append 13 method (b' ' ∷ (target ++ (b' ' ∷ version))) line.method_line (
    ground arith,
    Lacks-append 13 target (b' ' ∷ version)
        (target_text-Lacks 13 path kvs refl (ground arith) (ground arith) (ground arith)
          line.path_line pairs)
        (ground arith, line.version_line),
  )

  find_text-first_from :
      find_text blank_line (first ++ (header_lines hs ++ (blank_line ++ body)))
      ≡ some (first ++ header_lines hs, blank_line ++ body)
  find_text-first_from =
      find_text-append first (header_lines hs ++ (blank_line ++ body)) (header_lines hs)
        (blank_line ++ body) first-Lacks (find_text-header_lines hs body headers)

  -- The blank line behind the headers is the first one.
  pub find_text-first :
      find_text blank_line ((first ++ header_lines hs) ++ (blank_line ++ body))
      ≡ some (first ++ header_lines hs, blank_line ++ body)
  find_text-first =
      ap (find_text blank_line) (append_assoc first (header_lines hs) (blank_line ++ body))
      ∙ find_text-first_from

  cut_text-first :
      cut_text blank_line (first ++ (header_lines hs ++ (blank_line ++ body)))
      ≡ some (first ++ header_lines hs, body)
  unfolding cut_text
  cut_text-first = ap (Option.map (λ r. (r.0, drop 4 r.1))) find_text-first_from

  parse_line-first :
      (m : Dict Text Text)
      → parse_line (split_at b' ' first) m body
        ≡ some (record {
          method = method;
          path = path;
          route_params = [];
          headers = m;
          body = body;
          cookies = [];
          query = insert_all kvs [];
          remote_addr = [];
        })
  unfolding parse_line parse_rest build_request request_line
  parse_line-first m =
      ap (λ o. parse_line o m body)
        (split_at-append b' ' method (target ++ (b' ' ∷ version)) line.method_word)
      ∙ ap (λ o. parse_rest o method m body)
          (split_at-append b' ' target version target-Lacks_space)
      ∙ ap (λ q. some (at_target q)) (parse_target-target_text path kvs line.path_query pairs)
    where
      at_target : Text × Dict Text Text → Request
      at_target q = record {
        method = method;
        path = q.0;
        route_params = [];
        headers = m;
        body = body;
        cookies = [];
        query = q.1;
        remote_addr = [];
      }

  -- A request that a client writes on the wire, with any headers, query and body whose parts cannot
  -- be taken for the separators, is read back: its method, its path, the map of its query, the map of
  -- its headers and its body.
  pub parse_http_request-request_line :
      parse_http_request (first ++ (header_lines hs ++ (blank_line ++ body)))
      ≡ some (record {
        method = method;
        path = path;
        route_params = [];
        headers = insert_all hs [];
        body = body;
        cookies = [];
        query = insert_all kvs [];
        remote_addr = [];
      })
  unfolding parse_http_request parse_parts parse_head
  parse_http_request-request_line =
      let (lines, cut, added) = split_lines-header_lines first hs [] first-Lacks headers in
      ap (λ o. parse_parts o (first ++ (header_lines hs ++ (blank_line ++ body)))) cut_text-first
      ∙ ap (λ l. parse_head l body) cut
      ∙ ap (λ m. parse_line (split_at b' ' first) m body) added
      ∙ parse_line-first (insert_all hs [])
