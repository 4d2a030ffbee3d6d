-- ===== src/Session/Csrf/Verified.antt =====
-- A form with the session's token passes `verify_csrf`, and a form with another does not.
use public_cpp_laravel.Prelude.{
  ℕ, ◌≡◌, refl, ap, sym, ◌∙◌, inl, inr, true, none, some, List, [], ◌∷◌, if◌then◌else◌,
  Option-cases, Bool-cases, arith, Text, IsBytes, text_eq, text_eq_refl, lookup, text_key, All,
}
use public_cpp_laravel.Prelude.Bits.{constant_time_equal-text_eq}
use public_cpp_laravel.Http.Messages.{Request, Response, response, json}
use public_cpp_laravel.Http.Url.RoundTrip.{BytePair, form_text, insert_all, parse_form-form_text}
use public_cpp_laravel.Http.Pipeline.{returned, Handler}
use public_cpp_laravel.Session.Store.{Store, get, drop_if_expired, touch, read}
use public_cpp_laravel.Session.Store.Laws.{
  value_of, live, put-ttl, in_time, value_of-live, value_of-put, drop_if_expired-live,
  drop_if_expired-ttl, touch-live,
}
use public_cpp_laravel.Session.Auth.{CookieOptions, session_id, World}
use public_cpp_laravel.Session.Csrf.{
  csrf_key, token_field, csrf_token, mint, verify_csrf, compare_token, provided_token,
  token_or_header, mismatch,
}

get-found :
    (s : Store) (now : ℕ) (sid key v : Text)
    → value_of s now sid key ≡ some v
    → get s now sid key ≡ (some v, touch (drop_if_expired s now sid) now sid)
unfolding get value_of
get-found s now sid key v e = rw e refl

get-missing :
    (s : Store) (now : ℕ) (sid key : Text)
    → value_of s now sid key ≡ none
    → get s now sid key ≡ (none, drop_if_expired s now sid)
unfolding get value_of
get-missing s now sid key e = rw e refl

-- Reading a value keeps it readable until the time to live has passed.
touch-value_of :
    (s : Store) (now later : ℕ) (sid key v : Text)
    → value_of s now sid key ≡ some v
    → in_time s.ttl now later ≡ true
    → value_of (touch (drop_if_expired s now sid) now sid) later sid key ≡ some v
touch-value_of s now later sid key v e h =
    let s1 : Store = drop_if_expired s now sid in
    value_of-live (touch s1 now sid) later sid key
    ∙ ap (λ o. read o key)
        (touch-live s1 now later sid
          ∙ rw (drop_if_expired-ttl s now sid, h) (drop_if_expired-live s now sid))
    ∙ sym (value_of-live s now sid key)
    ∙ e

-- The token that `csrf_token` gives is what the session then holds, until its time to live has passed.
csrf_token-value_of :
    (s : Store) (now later : ℕ) (sid random : Text)
    → in_time s.ttl now later ≡ true
    → value_of (csrf_token s now sid random).1 later sid csrf_key
      ≡ some (csrf_token s now sid random).0
unfolding csrf_token mint
csrf_token-value_of s now later sid random h = elim (Option-cases (value_of s now sid csrf_key)) [
  | inl missing ↦ rw (get-missing s now sid csrf_key missing) (
      value_of-put (drop_if_expired s now sid) now later sid sid csrf_key csrf_key random
      ∙ rw (text_eq_refl sid, drop_if_expired-ttl s now sid, h) refl)
  | inr (t, held) ↦
      rw (get-found s now sid csrf_key t held) (touch-value_of s now later sid csrf_key t held h)
]

-- What `verify_csrf` does where the session holds a token.
verify_csrf_lem :
    (opts : CookieOptions) (req : Request) (next : Handler World) (w : World) (t : Text)
    → value_of w.store w.now (session_id req opts) csrf_key ≡ some t
    → IsBytes t
    → IsBytes (provided_token req)
    → verify_csrf opts req next w ≡ (
        let w' : World = record w {
          store =
              touch
                (drop_if_expired w.store w.now (session_id req opts))
                w.now
                (session_id req opts);
        } in
        if text_eq (provided_token req) t then next req w' else returned mismatch req w')
unfolding verify_csrf compare_token
verify_csrf_lem opts req next w t held ht hp =
    rw
      (
        get-found w.store w.now (session_id req opts) csrf_key t held,
        constant_time_equal-text_eq (provided_token req) t hp ht,
      )
      refl

-- The token of a form that has one.
form_token :
    (req : Request) (kv : Text × Text) (kvs : List (Text × Text)) (provided : Text)
    → BytePair kv
    → All BytePair kvs
    → req.body ≡ form_text kv kvs
    → lookup token_field (insert_all (kv ∷ kvs) []) ≡ some provided
    → provided_token req ≡ provided
unfolding provided_token token_or_header
form_token req kv kvs provided h hs body there =
    rw (body, parse_form-form_text kv kvs h hs, there) refl

touch-ttl : (s : Store) (now : ℕ) (sid : Text) → (touch s now sid).ttl ≡ s.ttl
unfolding touch
touch-ttl s now sid = ground arith

csrf_token-ttl :
    (s : Store) (now : ℕ) (sid random : Text) → (csrf_token s now sid random).1.ttl ≡ s.ttl
unfolding csrf_token mint
csrf_token-ttl s now sid random = elim (Option-cases (value_of s now sid csrf_key)) [
  | inl missing ↦
      rw (get-missing s now sid csrf_key missing) (
        put-ttl (drop_if_expired s now sid) now sid csrf_key random ∙ drop_if_expired-ttl s now sid)
  | inr (t, held) ↦
      rw (get-found s now sid csrf_key t held)
        (touch-ttl (drop_if_expired s now sid) now sid ∙ drop_if_expired-ttl s now sid)
]

-- What a session that is read at `now` reads as from then on.
kept_in_use :
    (s : Store) (now later : ℕ) (sid key : Text)
    → value_of (touch (drop_if_expired s now sid) now sid) later sid key
      ≡ (if in_time s.ttl now later then value_of s now sid key else none)
unfolding read
kept_in_use s now later sid key =
    let s1 : Store = drop_if_expired s now sid in
    let shown : live (touch s1 now sid) later sid
        ≡ (if in_time s.ttl now later then live s now sid else none) =
      touch-live s1 now later sid ∙ (λ i.
        if in_time (drop_if_expired-ttl s now sid i) now later
        then drop_if_expired-live s now sid i
        else none) in
    value_of-live (touch s1 now sid) later sid key
    ∙ ap (λ o. read o key) shown
    ∙ elim (Bool-cases (in_time s.ttl now later)) [
      | inl held ↦ rw held (sym (value_of-live s now sid key))
      | inr late ↦ rw late refl
    ]

-- After `csrf_token`, until the session's time to live has passed, a form of any fields with a
-- `_token` is let through to the handler, its request unchanged, exactly where that is the token that
-- `csrf_token` gave, and is answered with status 419 and no handler otherwise. Either way the session
-- is kept in use: at any time `after`, under any key, it reads as it did then while its time to live
-- from then on has not passed, and as nothing later.
pub verify_csrf-csrf_token :
    (opts : CookieOptions) (req : Request) (next : Handler World) (s : Store) (now later after : ℕ)
    (random provided key : Text) (kv : Text × Text) (kvs : List (Text × Text))
    → in_time s.ttl now later ≡ true
    → IsBytes (csrf_token s now (session_id req opts) random).0
    → IsBytes provided
    → BytePair kv
    → All BytePair kvs
    → req.body ≡ form_text kv kvs
    → lookup token_field (insert_all (kv ∷ kvs) []) ≡ some provided
    → let (token, s') = csrf_token s now (session_id req opts) random in
      (w' : World) × (refusal : Response) × (verify_csrf opts req next
          (record { store = s'; now = later })
        ≡ (if text_eq provided token then next req w' else returned refusal req w'))
      × (refusal.status ≡ 419)
      × (w'.now ≡ later)
      × (value_of w'.store after (session_id req opts) key ≡ (
          if in_time s.ttl later after then value_of s' later (session_id req opts) key else none))
unfolding mismatch json response
verify_csrf-csrf_token opts req next s now later after random provided key kv kvs h ht hp hkv hkvs
      body there =
    let sid : Text = session_id req opts in
    let s' : Store = (csrf_token s now sid random).1 in
    let token : provided_token req ≡ provided =
      form_token req kv kvs provided hkv hkvs body there in
    (
      record { store = touch (drop_if_expired s' later sid) later sid; now = later },
      mismatch,
      verify_csrf_lem opts req next (record { store = s'; now = later })
            (csrf_token s now sid random).0 (csrf_token-value_of s now later sid random h) ht
            (rw token hp)
          ∙ rw token refl,
      refl,
      refl,
      kept_in_use s' later after sid key
          ∙ ap (λ ttl. if in_time ttl later after then value_of s' later sid key else none)
              (csrf_token-ttl s now sid random),
    )
