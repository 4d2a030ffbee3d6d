-- ===== src/Server/Client.antt =====
-- src/http_server.cpp: `is_websocket_upgrade` and `HttpServer::handle_client`. What leaves the server
-- is an `Outcome`; the log lines on stderr and the socket's timeout options are left out.
pub mod Served
use public_cpp_laravel.Prelude.{
  ℕ, Bool, true, false, ◌&&◌, ◌==◌, List, [], ◌∷◌, Option, none, some, if◌then◌else◌, Text, codes,
  text_eq, lower, contains_text, Dict, lookup, text_key,
}
use public_cpp_laravel.Http.Messages.{Request, Response, response}
use public_cpp_laravel.Server.Request.{Strtoull, parse_http_request}
use public_cpp_laravel.Server.Response.{format_http_response}
use public_cpp_laravel.Server.Reading.{
  Limits, Status, ok, closed, header_too_large, body_too_large, length_required, ReadResult,
  read_request,
}

-- The values of the `Upgrade` and the `Connection` header so far; a later one replaces an earlier.
unfoldable pub upgrade_headers :
    Dict Text Text → Option Text → Option Text → Option Text × Option Text
upgrade_headers [] upgrade connection = (upgrade, connection)
upgrade_headers ((name, value) ∷ hs) upgrade connection =
    let is_upgrade : Bool = text_eq (lower name) (codes "upgrade") in
    let is_connection : Bool = text_eq (lower name) (codes "connection") in
    upgrade_headers hs (if is_upgrade then some value else upgrade)
      (if is_upgrade then connection else if is_connection then some value else connection)

unfoldable pub lists_upgrade : Option Text × Option Text → Bool
lists_upgrade (none, connection) = false
lists_upgrade (some upgrade, none) = false
lists_upgrade (some upgrade, some connection) =
    contains_text (codes "websocket") (lower upgrade)
    && contains_text (codes "upgrade") (lower connection)

unfoldable pub is_websocket_upgrade : Request → Bool
unfolding upgrade_headers lists_upgrade
is_websocket_upgrade req = lists_upgrade (upgrade_headers req.headers none none)

-- A `KernelContract`, which may throw.
pub data Handled (S : Type 0) : Type 0 where
  handled : Response → S → Handled S
  threw : S → Handled S

-- Hung up, answered with these bytes and closed, or handed to the endpoint of the request's path.
pub data Outcome : Type 0 where
  hung_up : Outcome
  answered : Text → Outcome
  handed_over : Request → Outcome

module _ {S : Type 0} (to_string : ℕ → Text) (kernel : Request → S → Handled S) where
  abbrev answer : Response → Outcome
  answer res = answered (format_http_response to_string res)

  unfoldable pub catch : Handled S → Response × S
  catch (handled res s) = (res, s)
  catch (threw s) = (response 500 (codes "Internal Server Error"), s)

  unfoldable pub run_kernel : Request → S → Outcome × S
  unfolding catch
  run_kernel req s = let (res, s') = catch (kernel req s) in (answer res, s')

  -- `endpoints` are the paths in `ws_handlers_`.
  unfoldable pub on_upgrade : Option (Unit {0}) → Request → S → Outcome × S
  unfolding run_kernel
  on_upgrade none req s = run_kernel req s
  on_upgrade (some registered) req s = (handed_over req, s)

  unfoldable pub on_request : Dict Text (Unit {0}) → Text → Option Request → S → Outcome × S
  unfolding is_websocket_upgrade on_upgrade response
  on_request endpoints remote_addr none s = (answer (response 400 (codes "Bad Request")), s)
  on_request endpoints remote_addr (some parsed) s =
      let req : Request = record parsed { remote_addr = remote_addr } in
      if is_websocket_upgrade req
      then on_upgrade (lookup req.path endpoints) req s
      else run_kernel req s

  unfoldable pub on_read : Dict Text (Unit {0}) → Text → Status → Text → S → Outcome × S
  unfolding on_request response parse_http_request
  on_read endpoints remote_addr closed bytes s = (hung_up, s)
  on_read endpoints remote_addr header_too_large bytes s =
      (answer (response 431 (codes "Request Header Fields Too Large")), s)
  on_read endpoints remote_addr body_too_large bytes s =
      (answer (response 413 (codes "Payload Too Large")), s)
  on_read endpoints remote_addr length_required bytes s =
      (answer (response 411 (codes "Length Required")), s)
  on_read endpoints remote_addr ok bytes s =
      on_request endpoints remote_addr (parse_http_request bytes) s

  unfoldable pub handle_client :
      Strtoull → Limits → Dict Text (Unit {0}) → Text → List Text → S → Outcome × S
  unfolding on_read read_request
  handle_client num limits endpoints remote_addr incoming s =
      let raw : ReadResult = read_request num limits incoming in
      on_read endpoints remote_addr raw.status raw.bytes s
