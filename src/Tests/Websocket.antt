-- ===== src/Tests/Websocket.antt =====
-- The frames and connections on which the lemmas of Websocket are tried.
use public_cpp_laravel.Prelude.{
  ℕ, zero, suc, ap, ◌-◌, ◌^◌, ◌≡◌, refl, inl, true, false, List, [], ◌∷◌, ◌++◌, some, arith, map,
  Text, codes, length, take, drop,
}
use public_cpp_laravel.Websocket.Frame.{
  no_frame, parse_frame, encode_pong, be_value, header, read_length, with_length, read_body,
  to_opcode, byte, encode_binary,
}
use public_cpp_laravel.Websocket.Frame.Wire.{
  WireFrame, IsWire, wire, parsed, opcode_number, apply_mask,
}
use public_cpp_laravel.Websocket.Frame.RoundTrip.{parse_frame-wire, parse_frame_lem}
use public_cpp_laravel.Websocket.Frame.Stream.{parse_frame-append}
use public_cpp_laravel.Websocket.Connection.{
  Connection, message, receive, flat, take_frame, send_all, send_binary,
}
use public_cpp_laravel.Websocket.Terminal.{Terminal, run_terminal}
use public_cpp_laravel.Websocket.Terminal.Dialogue.{silence, says, gone, run_terminal-Dialogue}
use public_cpp_laravel.Websocket.Connection.Chunks.{observe}
use public_cpp_laravel.Websocket.Connection.Progress.{receive-Returns, receive_chunks, Returns}
use public_cpp_laravel.Websocket.Connection.Client.{Tail, Message, wires, pong_frame}
use public_cpp_laravel.Websocket.Connection.Messages.{receive-Message}

abbrev hi_frame : WireFrame
hi_frame = record {
  fin = false;
  code = 1;
  masked = true;
  mask = 1 ∷ 2 ∷ 3 ∷ 4 ∷ [];
  payload = codes "Hi";
}

abbrev ping_frame : WireFrame
ping_frame = record {
  fin = true;
  code = 9;
  masked = true;
  mask = 5 ∷ 6 ∷ 7 ∷ 8 ∷ [];
  payload = codes "p";
}

abbrev end_frame : WireFrame
end_frame = record {
  fin = true;
  code = 0;
  masked = true;
  mask = 9 ∷ 8 ∷ 7 ∷ 6 ∷ [];
  payload = codes "!";
}

hi-IsWire : IsWire hi_frame
hi-IsWire = record {
  code_bits = omega arith;
  mask_size = refl;
  mask_bytes = omega arith;
  payload_bytes = omega arith;
  payload_size = omega arith;
}

ping-IsWire : IsWire ping_frame
ping-IsWire = record {
  code_bits = omega arith;
  mask_size = refl;
  mask_bytes = omega arith;
  payload_bytes = omega arith;
  payload_size = omega arith;
}

end-IsWire : IsWire end_frame
end-IsWire = record {
  code_bits = omega arith;
  mask_size = refl;
  mask_bytes = omega arith;
  payload_bytes = omega arith;
  payload_size = omega arith;
}

-- A text message in two frames with a ping between them.
abbrev frames : List WireFrame
frames = hi_frame ∷ ping_frame ∷ end_frame ∷ []

frames-Message : Message 64 frames (codes "Hi!") (codes "p" ∷ [])
frames-Message =
    Message.split (record { well_formed = hi-IsWire; is_masked = refl; fits = omega arith })
      (inl refl) refl
      (Tail.pinged (record { well_formed = ping-IsWire; is_masked = refl; fits = omega arith }) refl
        (Tail.last (record { well_formed = end-IsWire; is_masked = refl; fits = omega arith }) refl
          refl))

-- Their bytes, cut in the middle of the first frame's header.
abbrev arriving : List Text
arriving = take 1 (wires frames) ∷ drop 1 (wires frames) ∷ []

abbrev socket : Connection
socket = record {
  incoming = arriving;
  sent = [];
  writable = true;
  client_key = [];
  origin = [];
  buf = [];
  max_message_bytes = 64;
  allowed_origins = [];
  require_masked = true;
}

receive-Message_example : observe (receive socket) ≡ (
  message (codes "Hi!"),
  record socket {
    buf = [];
    incoming = [];
    sent = [] ++ map (λ p. wire (pong_frame p)) (codes "p" ∷ []);
  },
)
unfolding wires flat wire apply_mask
receive-Message_example =
    receive-Message socket frames [] (codes "Hi!") (codes "p" ∷ []) (omega arith) refl
      frames-Message (omega arith) (omega arith, tt) refl

-- Sends what it is given back and keeps it.
abbrev echo : Connection → Text → List Text → Terminal (List Text)
echo c t s = (true, (send_binary c t).0, s ++ (t ∷ []))

abbrev echoed : Connection → Text → List Text → List Text
echoed c t s = encode_binary t ∷ []

abbrev kept : Text → List Text → List Text
kept t s = s ++ (t ∷ [])

echo-echoed :
    (c : Connection) (t : Text) (s : List Text)
    → c.writable ≡ true
    → echo c t s ≡ (true, record c { sent = c.sent ++ echoed c t s }, kept t s)
unfolding send_binary send_all
echo-echoed c t s w = rw w refl

run_terminal-Dialogue_example :
    (d : Connection) × (run_terminal echo 2 socket [] ≡ some (true, d, codes "Hi!" ∷ []))
unfolding wires flat wire apply_mask
run_terminal-Dialogue_example =
    run_terminal-Dialogue echo echoed kept echo-echoed 2 socket frames (codes "Hi!" ∷ []) [] []
      (omega arith) refl (says frames-Message (omega arith) silence) gone refl (omega arith)

receive_chunks_example :
    observe (receive (take_frame socket (wires frames) [])) ≡ observe (receive socket)
unfolding wires flat wire apply_mask
receive_chunks_example = receive_chunks socket (wires frames) [] (omega arith) refl

receive-Returns_example : Returns 64 (receive socket).0
receive-Returns_example = receive-Returns socket (omega arith)

parse_frame-wire_example :
    (parse_frame (wire hi_frame ++ (1 ∷ 2 ∷ [])) 64 ≡ some (parsed hi_frame))
    × (opcode_number (parsed hi_frame).opcode ≡ 1)
parse_frame-wire_example = parse_frame-wire hi_frame (1 ∷ 2 ∷ []) 64 hi-IsWire (omega arith)

hi_whole : parse_frame (wire hi_frame) 64 ≡ some (parsed hi_frame)
unfolding wire apply_mask
hi_whole = parse_frame_lem hi_frame [] 64 hi-IsWire (omega arith)

parse_frame-append_example : parse_frame (wire hi_frame ++ (7 ∷ [])) 64 ≡ some (parsed hi_frame)
parse_frame-append_example =
    parse_frame-append (wire hi_frame) (7 ∷ []) 64 (parsed hi_frame) (omega arith) hi_whole
      (inl refl)

abbrev eight_ones : Text
eight_ones = 255 ∷ 255 ∷ 255 ∷ 255 ∷ 255 ∷ 255 ∷ 255 ∷ 255 ∷ []

eight_ones-value : be_value 0 (take 8 eight_ones) ≡ 2 ^ 64 - 1
unfolding be_value
eight_ones-value = refl

unfoldable fill : ℕ → Text
fill zero = []
fill (suc n) = b'a' ∷ fill n

length-fill : (n : ℕ) → length (fill n) ≡ n
unfolding fill
length-fill zero = refl
length-fill (suc n) = ap suc (length-fill n)

-- The first two of 126 bytes are taken for a length, which the buffer does not hold.
long_pong : parse_frame (encode_pong (fill 126)) 65536 ≡ some (header 0x8A 126)
unfolding encode_pong fill parse_frame with_length read_length read_body header no_frame to_opcode
    byte
long_pong = refl
