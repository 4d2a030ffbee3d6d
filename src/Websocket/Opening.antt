-- ===== src/Websocket/Opening.antt =====
-- include/websocket_server.hpp: how a `ws::Connection` is made from an upgrade request, and its settings. A
-- header that the request has in two spellings is found in the order of the map.
pub mod Origins
use public_cpp_laravel.Prelude.{
  ℕ, Bool, true, false, List, [], ◌∷◌, ◌*◌, if◌then◌else◌, Text, codes, text_eq, lower, Dict,
}
use public_cpp_laravel.Http.Messages.{Request}
use public_cpp_laravel.Websocket.Connection.{Connection}

unfoldable pub header_in : Dict Text Text → Text → Text
unfolding lower
header_in [] name = []
header_in ((key, value) ∷ headers) name =
    let rest = header_in headers name in if text_eq (lower key) (lower name) then value else rest

unfoldable pub header_ci : Request → Text → Text
unfolding header_in
header_ci req name = header_in req.headers name

-- The constructor, over a socket given by what it delivers and whether it takes what is sent.
unfoldable pub open_connection : List Text → Bool → Request → Connection
unfolding header_ci
open_connection incoming writable req = record {
  incoming = incoming;
  sent = [];
  writable = writable;
  client_key = header_ci req (codes "Sec-WebSocket-Key");
  origin = header_ci req (codes "Origin");
  buf = [];
  max_message_bytes = 1024 * 1024;
  allowed_origins = [];
  require_masked = true;
}

unfoldable pub set_max_message_bytes : ℕ → Connection → Connection
set_max_message_bytes n c = record c { max_message_bytes = n }

unfoldable pub set_require_masked : Bool → Connection → Connection
set_require_masked on c = record c { require_masked = on }

unfoldable pub set_allowed_origins : List Text → Connection → Connection
set_allowed_origins origins c = record c { allowed_origins = origins }
