-- ===== src/Websocket/Opening/Origins.antt =====
-- Which upgrade requests are accepted.
use public_cpp_laravel.Prelude.{
  ◌≡◌, ◌≢◌, ◌⊎◌, inl, inr, refl, ap, sym, subst, ◌∙◌, Bool, true, false, ◌||◌, List, [], ◌∷◌, ◌++◌,
  is_empty, if◌then◌else◌, Bool-cases, Text, codes, text_eq, text_eq_iff, text_eq_refl, arith,
}
use public_cpp_laravel.Http.Messages.{Request}
use public_cpp_laravel.Websocket.Connection.{Connection, send_all, is_allowed, handshake}
use public_cpp_laravel.Websocket.Accept.{accept_key}
use public_cpp_laravel.Websocket.Opening.{header_ci, open_connection, set_allowed_origins}

pub data IsMember (t : Text) : List Text → Type 0 where
  here : {ts : List Text} → IsMember t (t ∷ ts)
  there : {u : Text} {ts : List Text} → IsMember t ts → IsMember t (u ∷ ts)

is_allowed-IsMember :
    (origin : Text) (os : List Text) → is_allowed origin os ≡ true → IsMember origin os
unfolding is_allowed
is_allowed-IsMember origin [] h = absurd (cc)
is_allowed-IsMember origin (o ∷ os) h = elim (Bool-cases (text_eq o origin)) [
  | inl same ↦ subst (λ u. IsMember origin (u ∷ os)) (sym ((text_eq_iff o origin).0 same)) here
  | inr apart ↦ there (is_allowed-IsMember origin os (rw apart at h))
]

IsMember-is_allowed :
    (origin : Text) (os : List Text) → IsMember origin os → is_allowed origin os ≡ true
unfolding is_allowed
IsMember-is_allowed origin _ (here {ts = os}) = rw (text_eq_refl origin) refl
IsMember-is_allowed origin _ (there {u = o} {ts = os} m) =
    ground (arith, IsMember-is_allowed origin os m)

abbrev pub accepted_text : Text → Text
accepted_text key =
    codes "HTTP/1.1 101 Switching Protocols\r\nUpgrade: websocket\r\nConnection: Upgrade\r\n"
    ++ (codes "Sec-WebSocket-Accept: " ++ (key ++ codes "\r\n\r\n"))

-- A request that may be upgraded: it has a key, and comes from an origin on the list, where there is one.
abbrev pub IsWelcome : List Text → Request → Type 0
IsWelcome allowed req =
    (header_ci req (codes "Sec-WebSocket-Key") ≢ [])
    × ((allowed ≡ []) ⊎ IsMember (header_ci req (codes "Origin")) allowed)

abbrev passes : Text → List Text → Bool
passes origin allowed = is_empty allowed || is_allowed origin allowed

passes-cases :
    (origin : Text) (allowed : List Text)
    → passes origin allowed ≡ true
    → (allowed ≡ []) ⊎ IsMember origin allowed
passes-cases origin [] h = inl refl
passes-cases origin (o ∷ os) h = inr (is_allowed-IsMember origin (o ∷ os) h)

cases-passes :
    (origin : Text) (allowed : List Text)
    → (allowed ≡ []) ⊎ IsMember origin allowed
    → passes origin allowed ≡ true
cases-passes origin allowed (inl e) = rw e refl
cases-passes origin [] (inr m) = refl
cases-passes origin (o ∷ os) (inr m) = IsMember-is_allowed origin (o ∷ os) m

not_nil : (s : Text) → is_empty s ≡ false → s ≢ []
not_nil s h e = absurd (ground (arith, h, ap is_empty e))

nil : (s : Text) → is_empty s ≡ true → s ≡ []
nil [] h = refl
nil (c ∷ s) h = absurd (cc)

some_listed : (origin : Text) (allowed : List Text) → passes origin allowed ≡ false → allowed ≢ []
some_listed origin allowed h e = absurd (ground (arith, h, ap (passes origin) e))

not_member :
    (origin : Text) (allowed : List Text)
    → passes origin allowed ≡ false
    → IsMember origin allowed
    → ⊥
not_member origin allowed h m = absurd (ground (arith, h, cases-passes origin allowed (inr m)))

abbrev pub refused_text : Text
refused_text = codes "HTTP/1.1 403 Forbidden\r\nConnection: close\r\n\r\n"

-- What a socket has taken of a text.
abbrev pub taken : Bool → Text → List Text
taken writable t = if writable then t ∷ [] else []

module _ (key_of : Text → Text) (c : Connection) where
  handshake-nil : is_empty c.client_key ≡ true → handshake key_of c ≡ (c, false)
  unfolding handshake
  handshake-nil h = rw h refl

  handshake-refused :
      is_empty c.client_key ≡ false
      → passes c.origin c.allowed_origins ≡ false
      → handshake key_of c ≡ ((send_all c refused_text).0, false)
  unfolding handshake
  handshake-refused h k = ground (arith, h, k)

  handshake-accepted :
      is_empty c.client_key ≡ false
      → passes c.origin c.allowed_origins ≡ true
      → handshake key_of c ≡ send_all c (accepted_text (key_of c.client_key))
  unfolding handshake
  handshake-accepted h k = ground (arith, h, k)

sent-send_all :
    (c : Connection) (out : Text) → c.sent ≡ [] → (send_all c out).0.sent ≡ taken c.writable out
unfolding send_all
sent-send_all c out h = elim (Bool-cases c.writable) [
  | inl w ↦ rw w (ap (λ s. s ++ (out ∷ [])) h)
  | inr w ↦ rw w h
]

took-send_all : (c : Connection) (out : Text) → (send_all c out).1 ≡ c.writable
unfolding send_all
took-send_all c out = elim (Bool-cases c.writable) [ inl w ↦ rw w refl | inr w ↦ rw w refl ]

-- How an upgrade request is answered, in one of three ways. Without a key nothing is sent and it is not
-- accepted. With a key, and an allowlist without its origin, it is answered with a 403 and not accepted.
-- With a key, and no allowlist or one with its origin, it is answered with a 101 and the accept key of
-- its key, and accepted where the socket takes that.
pub handshake-IsWelcome :
    (sha1 : Text → Text) (incoming allowed : List Text) (writable : Bool) (req : Request)
    → let c = set_allowed_origins allowed (open_connection incoming writable req) in
      let key = header_ci req (codes "Sec-WebSocket-Key") in
      let origin = header_ci req (codes "Origin") in
      let answer = handshake (accept_key sha1) c in
      ((key ≡ []) × (answer ≡ (c, false)))
      ⊎ ((key ≢ [])
          × (allowed ≢ [])
          × (IsMember origin allowed → ⊥)
          × (answer.1 ≡ false)
          × (answer.0.sent ≡ taken writable refused_text))
      ⊎ (IsWelcome allowed req
          × (answer.1 ≡ writable)
          × (answer.0.sent ≡ taken writable (accepted_text (accept_key sha1 key))))
unfolding open_connection set_allowed_origins
handshake-IsWelcome sha1 incoming allowed writable req =
    let c : Connection = set_allowed_origins allowed (open_connection incoming writable req) in
    let key : Text = header_ci req (codes "Sec-WebSocket-Key") in
    let origin : Text = header_ci req (codes "Origin") in
    elim (Bool-cases (is_empty key)) [
      | inl empty ↦ inl (nil key empty, handshake-nil (accept_key sha1) c empty)
      | inr keyed ↦ elim (Bool-cases (passes origin allowed)) [
        | inr out ↦
            let refused = handshake-refused (accept_key sha1) c keyed out in
            inr (
              inl (
                not_nil key keyed,
                some_listed origin allowed out,
                not_member origin allowed out,
                ap (λ a. a.1) refused,
                ap (λ a. a.0.sent) refused ∙ sent-send_all c refused_text refl,
              ))
        | inl in_list ↦
            let accepted = handshake-accepted (accept_key sha1) c keyed in_list in
            let text : Text = accepted_text (accept_key sha1 key) in
            inr (
              inr (
                (not_nil key keyed, passes-cases origin allowed in_list),
                ap (λ a. a.1) accepted ∙ took-send_all c text,
                ap (λ a. a.0.sent) accepted ∙ sent-send_all c text refl,
              ))
      ]
    ]
