-- ===== src/Websocket/Connection.antt =====
-- include/websocket_server.hpp: `ws::Connection`. The socket is what it still delivers, one text for
-- each successful `recv` and the end of the list for one that returns no bytes, with the texts sent
-- so far; `writable` says whether `::send` succeeds. `accept_key` calls SHA-1 and is a parameter of
-- the handshake. Locks are left out: one thread is modelled.
pub mod Chunks
pub mod Client
pub mod Messages
pub mod Progress
use public_cpp_laravel.Prelude.{
  ℕ, zero, suc, ◌+◌, ◌*◌, ◌/◌, ◌%◌, ◌^◌, Bool, true, false, not, ◌&&◌, ◌||◌, List, [], ◌∷◌, ◌++◌,
  Option, none, some, length, get_or, drop, ltb, leb, is_empty, if◌then◌else◌, Text, codes, text_eq,
}
use public_cpp_laravel.Websocket.Frame.{
  Frame, Opcode, continuation, text, binary, close, ping, pong, reserved, parse_frame, encode_text,
  encode_binary, encode_close, encode_close_code, encode_pong,
}

pub record Connection : Type 0 where
  pub incoming : List Text
  pub sent : List Text
  pub writable : Bool
  pub client_key : Text
  pub origin : Text
  pub buf : Text
  pub max_message_bytes : ℕ
  pub allowed_origins : List Text
  pub require_masked : Bool

-- `send_all`; the state records the whole text where the socket takes it.
unfoldable pub send_all : Connection → Text → Connection × Bool
send_all c out = if c.writable then (record c { sent = c.sent ++ (out ∷ []) }, true) else (c, false)

-- `send_control`, whose result the code does not read.
unfoldable pub send_control : Connection → Text → Connection
unfolding send_all
send_control c out = (send_all c out).0

unfoldable pub send_text : Connection → Text → Connection × Bool
unfolding send_all
send_text c payload = send_all c (encode_text payload)

unfoldable pub send_binary : Connection → Text → Connection × Bool
unfolding send_all
send_binary c bytes = send_all c (encode_binary bytes)

unfoldable pub is_allowed : Text → List Text → Bool
is_allowed origin [] = false
is_allowed origin (o ∷ os) = text_eq o origin || is_allowed origin os

abbrev forbidden : Text
forbidden = codes "HTTP/1.1 403 Forbidden\r\nConnection: close\r\n\r\n"

abbrev switching : Text → Text
switching key =
    codes
      "HTTP/1.1 101 Switching Protocols\r\nUpgrade: websocket\r\nConnection: Upgrade\r\nSec-WebSocket-Accept: "
    ++ (key ++ codes "\r\n\r\n")

unfoldable pub handshake : (Text → Text) → Connection → Connection × Bool
unfolding send_all is_allowed
handshake accept_key c =
    if is_empty c.client_key
    then (c, false)
    else if not (is_empty c.allowed_origins) && not (is_allowed c.origin c.allowed_origins)
    then ((send_all c forbidden).0, false)
    else send_all c (switching (accept_key c.client_key))

-- What the inner loop of `receive` ends with: a frame or a refusal with the buffer and the rest of
-- the input, the end of the input, or an exception of the parser.
pub data Next : Type 0 where
  got : Frame → Text → List Text → Next
  eof : Text → Next
  threw : Next

-- `while (!f.ok && !f.too_big) { recv; append; parse }`; `more` is the next round.
unfoldable pub decide : Option Frame → Text → List Text → Next → Next
decide none buf incoming more = threw
decide (some f) buf incoming more = if f.ok || f.too_big then got f buf incoming else more

unfoldable pub next_frame : ℕ → Text → List Text → Next
unfolding decide
next_frame max_payload buf [] = decide (parse_frame buf max_payload) buf [] (eof buf)
next_frame max_payload buf (chunk ∷ rest) =
    let more = next_frame max_payload (buf ++ chunk) rest in
    decide (parse_frame buf max_payload) buf (chunk ∷ rest) more

-- What one round of the outer loop does: return a message, return nothing, or go on with the
-- message so far.
pub data Step : Type 0 where
  deliver : Text → Connection → Step
  stop : Connection → Step
  again : Connection → Text → Bool → Step

-- `case Opcode::Close`
unfoldable pub echo_close : Connection → Text → Connection
unfolding send_control
echo_close c [] = send_control c encode_close
echo_close c (hi ∷ []) = send_control c encode_close
echo_close c (hi ∷ lo ∷ _) = send_control c (encode_close_code (hi * 256 + lo))

-- `case Opcode::Text` and `case Opcode::Binary`
unfoldable pub on_data : Connection → Text → Bool → Frame → Step
unfolding send_control
on_data c message fragmenting f =
    if fragmenting
    then stop (send_control c (encode_close_code 1002))
    else if f.fin
    then deliver f.payload c
    else again c f.payload true

-- `case Opcode::Continuation`
unfoldable pub on_continuation : Connection → Text → Bool → Frame → Step
unfolding send_control
on_continuation c message fragmenting f =
    if not fragmenting
    then stop (send_control c (encode_close_code 1002))
    else if ltb c.max_message_bytes (length message + length f.payload)
    then stop (send_control c (encode_close_code 1009))
    else if f.fin
    then deliver (message ++ f.payload) c
    else again c (message ++ f.payload) true

-- The switch; an opcode outside the enumeration matches no case.
unfoldable pub on_opcode : Opcode → Connection → Text → Bool → Frame → Step
unfolding echo_close on_data on_continuation
on_opcode close c message fragmenting f = stop (echo_close c f.payload)
on_opcode ping c message fragmenting f =
    again (send_control c (encode_pong f.payload)) message fragmenting
on_opcode pong c message fragmenting f = again c message fragmenting
on_opcode text c message fragmenting f = on_data c message fragmenting f
on_opcode binary c message fragmenting f = on_data c message fragmenting f
on_opcode continuation c message fragmenting f = on_continuation c message fragmenting f
on_opcode (reserved n) c message fragmenting f = again c message fragmenting

-- The round from `if (f.too_big)` on.
unfoldable pub on_frame : Connection → Text → Bool → Frame → Step
unfolding on_opcode
on_frame c message fragmenting f =
    if f.too_big
    then stop (send_control c (encode_close_code 1009))
    else if c.require_masked && not f.masked
    then stop (send_control c (encode_close_code 1002))
    else on_opcode f.opcode (record c { buf = drop f.consumed c.buf }) message fragmenting f

pub data Received : Type 0 where
  message : Text → Received
  closed : Received
  exception : Received
  out_of_fuel : Received

abbrev pub take_frame : Connection → Text → List Text → Connection
take_frame c buf incoming = record c { buf = buf; incoming = incoming }

-- One call of `loop` is the rest of the outer loop.
unfoldable pub after_step :
    Step → (Connection → Text → Bool → Received × Connection) → Received × Connection
after_step (deliver t c) loop = (message t, c)
after_step (stop c) loop = (closed, c)
after_step (again c m fragmenting) loop = loop c m fragmenting

unfoldable pub after_next :
    Next
    → Connection
    → Text
    → Bool
    → (Connection → Text → Bool → Received × Connection)
    → Received × Connection
unfolding on_frame after_step
after_next (got f buf incoming) c m fragmenting loop =
    after_step (on_frame (take_frame c buf incoming) m fragmenting f) loop
after_next (eof buf) c m fragmenting loop = (closed, take_frame c buf [])
after_next threw c m fragmenting loop = (exception, c)

unfoldable pub receive_loop : ℕ → Connection → Text → Bool → Received × Connection
unfolding next_frame after_next
receive_loop zero c m fragmenting = (out_of_fuel, c)
receive_loop (suc fuel) c m fragmenting =
    after_next (next_frame c.max_message_bytes c.buf c.incoming) c m fragmenting (receive_loop fuel)

-- The bytes not yet consumed: each round takes at least two of them.
unfoldable pub flat : List Text → Text
flat [] = []
flat (chunk ∷ rest) = chunk ++ flat rest

abbrev pub pending : Connection → Text
pending c = c.buf ++ flat c.incoming

unfoldable pub receive : Connection → Received × Connection
unfolding receive_loop flat
receive c = receive_loop (suc (length (pending c))) c [] false
