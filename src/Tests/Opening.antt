-- ===== src/Tests/Opening.antt =====
-- The upgrade requests on which the lemmas of Websocket/Opening are tried.
use public_cpp_laravel.Prelude.{
  ◌≡◌, ◌≢◌, ◌⊎◌, refl, Bool, true, false, List, [], ◌∷◌, Text, codes, lower,
}
use public_cpp_laravel.Http.Messages.{Request}
use public_cpp_laravel.Websocket.Connection.{Connection, handshake, send_all, is_allowed}
use public_cpp_laravel.Websocket.Accept.{accept_key}
use public_cpp_laravel.Websocket.Opening.{
  header_in, header_ci, open_connection, set_allowed_origins,
}
use public_cpp_laravel.Websocket.Opening.Origins.{
  IsMember, IsWelcome, accepted_text, refused_text, taken, handshake-IsWelcome,
}

-- A browser's request, with the key in another spelling.
abbrev upgrade : Request
upgrade = record {
  method = codes "GET";
  path = codes "/ws";
  route_params = [];
  headers =
      (codes "Origin", codes "https://a.test") ∷ (codes "sec-websocket-key", codes "dGhl") ∷ [];
  body = [];
  cookies = [];
  query = [];
  remote_addr = [];
}

abbrev allowlist : List Text
allowlist = codes "https://b.test" ∷ codes "https://a.test" ∷ []

-- Stands for SHA-1.
abbrev digest_of : Text → Text
digest_of key = key

abbrev opened : Connection
opened = set_allowed_origins allowlist (open_connection [] true upgrade)

abbrev answer : Connection × Bool
answer = handshake (accept_key digest_of) opened

key_found : header_ci upgrade (codes "Sec-WebSocket-Key") ≡ codes "dGhl"
unfolding header_ci header_in lower
key_found = refl

handshake-IsWelcome_example :
    ((header_ci upgrade (codes "Sec-WebSocket-Key") ≡ []) × (answer ≡ (opened, false)))
    ⊎ ((header_ci upgrade (codes "Sec-WebSocket-Key") ≢ [])
        × (allowlist ≢ [])
        × (IsMember (header_ci upgrade (codes "Origin")) allowlist → ⊥)
        × (answer.1 ≡ false)
        × (answer.0.sent ≡ taken true refused_text))
    ⊎ (IsWelcome allowlist upgrade
        × (answer.1 ≡ true)
        × (answer.0.sent
            ≡ taken true (
                accepted_text
                  (accept_key digest_of (header_ci upgrade (codes "Sec-WebSocket-Key"))))))
handshake-IsWelcome_example = handshake-IsWelcome digest_of [] allowlist true upgrade

welcomed : answer.1 ≡ true
unfolding handshake header_ci header_in lower open_connection set_allowed_origins send_all
    is_allowed
welcomed = refl
