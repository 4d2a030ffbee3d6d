-- ===== src/Session/Auth/Login.antt =====
-- Who is logged in after `attempt`, and what `attempt_login` does to the session id.
use public_cpp_laravel.Prelude.{
  ℕ, ◌≡◌, ◌≢◌, Bool, text_eq, text_eq_refl, text_eq_iff, if◌then◌else◌, ◌⊎◌, inl, inr, refl, ap,
  ◌∙◌, true, false, Option, none, some, arith, Text, codes, lookup, text_key, Bool-cases,
}
use public_cpp_laravel.Prelude.Int.{ℤ, IsInt64}
use public_cpp_laravel.Http.Messages.{Request, Response}
use public_cpp_laravel.Session.Store.{Store, put, regenerate_id}
use public_cpp_laravel.Session.Store.Laws.{
  value_of, value_of-put, in_time, lookup-insert_self, put-ttl,
}
use public_cpp_laravel.Session.Store.Renaming.{value_of-regenerate_id}
use public_cpp_laravel.Session.Auth.{
  AuthUser, UserProvider, Decimal, auth_id, login, attempt, attempt_with, user_id, CookieOptions,
  session_id, LoggedIn, attempt_login, finish_login, cookie_header, parse_id,
}

value_of-put_now :
    (s : Store) (now : ℕ) (sid key value : Text)
    → value_of (put s now sid key value) now sid key ≡ some value
value_of-put_now s now sid key value =
    ground (arith, value_of-put s now now sid sid key key value, text_eq_refl sid, text_eq_refl key)

moved_value :
    (s : Store) (ttl now later : ℕ) (sid fresh key v : Text)
    → sid ≢ fresh
    → s.ttl ≡ ttl
    → value_of s now sid key ≡ some v
    → (if text_eq sid fresh
        then none
        else if text_eq fresh fresh
        then (if in_time s.ttl now later then value_of s now sid key else none)
        else value_of s later fresh key)
      ≡ (if in_time ttl now later then some v else none)
moved_value s ttl now later sid fresh key v h e held =
    ground (arith, text_eq_iff sid fresh, text_eq_refl fresh)

module _ (dec : Decimal) (users : UserProvider) where
  parse_id_in_time :
      (b : Bool) (n : ℤ)
      → IsInt64 n
      → parse_id dec users (if b then some (dec.to_string n) else none)
        ≡ (if b then some n else none)
  unfolding parse_id
  parse_id_in_time true n r = dec.stoll-to_string n r
  parse_id_in_time false n r = refl

  -- Credentials that the provider accepts.
  abbrev pub Accepted : Text → Text → AuthUser → Type 0
  Accepted username password u =
      (users.retrieve_by_credentials username ≡ some u) × (users.validate u password ≡ true)

  -- An accepted attempt logs the found user in; any other changes nothing.
  pub attempt_cases :
      (s : Store) (now : ℕ) (sid username password : Text)
      → ((u : AuthUser) × Accepted username password u
          × (attempt dec users s now sid username password ≡ (true, login dec users s now sid u)))
        ⊎ (((u : AuthUser) → ¬ Accepted username password u)
            × (attempt dec users s now sid username password ≡ (false, s)))
  unfolding attempt
  attempt_cases s now sid username password = split (users.retrieve_by_credentials username) refl
    where
      split :
          (o : Option AuthUser)
          → users.retrieve_by_credentials username ≡ o
          → ((u : AuthUser) × Accepted username password u
              × (attempt_with dec users o s now sid password ≡ (true, login dec users s now sid u)))
            ⊎ (((u : AuthUser) → ¬ Accepted username password u)
                × (attempt_with dec users o s now sid password ≡ (false, s)))
      split none e = inr (λ u a. cc, refl)
      split (some u) e = elim (Bool-cases (users.validate u password)) [
        | inl good ↦ inl (u, (e, good), rw good)
        | inr bad ↦ inr (λ u' a. ground arith, rw bad)
      ]

  -- What the guard of a later request finds in a session after a login there at `now`, for a user
  -- whose id is a 64-bit integer: that id until the time to live has passed, and nobody after that.
  pub user_id-login :
      (s : Store) (now later : ℕ) (sid : Text) (u : AuthUser)
      → IsInt64 u.id
      → (user_id dec users (login dec users s now sid u) later sid).0
        ≡ (if in_time s.ttl now later then some u.id else none)
  unfolding user_id login value_of
  user_id-login s now later sid u r =
      ap (parse_id dec users) (
        value_of-put s now later sid sid auth_id auth_id (dec.to_string u.id)
        ∙ rw (text_eq_refl sid) refl)
      ∙ parse_id_in_time (in_time s.ttl now later) u.id r

  -- What a login through the HTTP layer has to do about session fixation.
  pub record IsRenewed (before : Store) (sid fresh : Text) (now later : ℕ) (u : AuthUser)
      (opts : CookieOptions) (r : LoggedIn) : Type 0 where
    pub succeeded : r.success ≡ true
    pub old_is_dead : (key : Text) → value_of r.store later sid key ≡ none
    pub new_is_logged_in :
        (user_id dec users r.store later fresh).0
        ≡ (if in_time before.ttl now later then some u.id else none)
    pub request_has_id : lookup opts.name r.req.cookies ≡ some fresh
    pub response_sets_cookie :
        lookup (codes "Set-Cookie") r.res.headers ≡ some (cookie_header fresh opts)

  module _ (req : Request) (res : Response) (s : Store) (now later : ℕ)
      (username password fresh : Text) (opts : CookieOptions) (u : AuthUser) where
    attempt-Accepted :
        (sid : Text)
        → Accepted username password u
        → attempt dec users s now sid username password ≡ (true, login dec users s now sid u)
    unfolding attempt
    attempt-Accepted sid a = ground arith

    finish_login-IsRenewed :
        (sid : Text)
        → sid ≢ fresh
        → IsInt64 u.id
        → IsRenewed s sid fresh now later u opts
            (finish_login (true, login dec users s now sid u) req res now sid opts fresh)
    unfolding finish_login login user_id value_of
    finish_login-IsRenewed sid h r =
        let id_text : Text = dec.to_string u.id in
        let s1 : Store = put s now sid auth_id id_text in
        let held : value_of s1 now sid auth_id ≡ some id_text =
          value_of-put_now s now sid auth_id id_text in
        let view = λ (other : Text) (key : Text).
          value_of-regenerate_id s1 now later sid fresh auth_id id_text other key h held in
        let is_fresh = (view sid auth_id).0 in
        record {
          succeeded = refl;
          old_is_dead = λ key. (view sid key).1 ∙ rw (text_eq_refl sid) refl;
          new_is_logged_in =
              ap (parse_id dec users) (
                (view fresh auth_id).1
                ∙ moved_value s1 s.ttl now later sid fresh auth_id id_text h
                    (put-ttl s now sid auth_id id_text) held)
              ∙ parse_id_in_time (in_time s.ttl now later) u.id r;
          request_has_id =
              lookup-insert_self opts.name (regenerate_id s1 now sid fresh).0 req.cookies
              ∙ ap some is_fresh;
          response_sets_cookie =
              lookup-insert_self (codes "Set-Cookie")
                (cookie_header (regenerate_id s1 now sid fresh).0 opts) res.headers
              ∙ ap (λ id. some (cookie_header id opts)) is_fresh;
        }

    -- A login with accepted credentials, of a user whose id is a 64-bit integer, succeeds and renews
    -- the session where the fresh id is a new one: from then on the id that the client came with
    -- reads as empty, the fresh id is logged in as the user until the time to live
    -- has passed and as nobody after that, and the request and the response's cookie carry the
    -- fresh id.
    pub attempt_login-IsRenewed :
        Accepted username password u
        → session_id req opts ≢ fresh
        → IsInt64 u.id
        → IsRenewed s
            (session_id req opts)
            fresh
            now
            later
            u
            opts
            (attempt_login dec users req res s now username password opts fresh)
    unfolding attempt_login
    attempt_login-IsRenewed a h r =
        rw (attempt-Accepted (session_id req opts) a)
          (finish_login-IsRenewed (session_id req opts) h r)
