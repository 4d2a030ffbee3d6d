-- ===== src/Websocket/Frame/Encoders.antt =====
-- The server's encoders: each writes a frame of the wire format, which the parser reads back; what
-- two of them do beyond the lengths that they are meant for.
use public_cpp_laravel.Prelude.{
  ℕ, ◌+◌, ◌/◌, ◌%◌, ◌^◌, ◌≤◌, ◌<◌, ◌≡◌, refl, ap, true, false, [], ◌∷◌, ◌++◌, some, arith, length,
  take, drop, length-take, length-drop, Text, IsBytes, le→ltb, ◌⊎◌, ◌-◌, inl, inr, Option-cases,
  none,
}
use public_cpp_laravel.Websocket.Frame.{
  Frame, text, parse_frame, encode_text, encode_binary, encode_pong, byte, read_length, read_body,
  header, no_frame, to_opcode, mask_at, after_mask, with_length,
}
use public_cpp_laravel.Websocket.Frame.Wire.{WireFrame, IsWire, wire, parsed}
use public_cpp_laravel.Websocket.Frame.RoundTrip.{parse_frame_lem, parse_frame-read_length}
use public_cpp_laravel.Websocket.Frame.Masking.{unmask-false, length-unmask}

-- A whole unmasked message frame with a given opcode.
abbrev pub server_frame : ℕ → Text → WireFrame
server_frame code payload = record {
  fin = true;
  code = code;
  masked = false;
  mask = 0 ∷ 0 ∷ 0 ∷ 0 ∷ [];
  payload = payload;
}

server_frame-IsWire :
    (code : ℕ) (p : Text) → code < 16 → IsBytes p → length p < 2 ^ 63 → IsWire (server_frame code p)
server_frame-IsWire code p h b s = record {
  code_bits = h;
  mask_size = refl;
  mask_bytes = omega arith;
  payload_bytes = b;
  payload_size = s;
}

encode_binary-wire : (p : Text) → length p < 2 ^ 63 → encode_binary p ≡ wire (server_frame 2 p)
unfolding encode_binary wire
encode_binary-wire p h = ground (arith, unmask-false (0 ∷ 0 ∷ 0 ∷ 0 ∷ []) 0 p)

encode_text-wire : (p : Text) → length p < 65536 → encode_text p ≡ wire (server_frame 1 p)
unfolding encode_text wire
encode_text-wire p h = ground (arith, unmask-false (0 ∷ 0 ∷ 0 ∷ 0 ∷ []) 0 p)

encode_pong-wire : (p : Text) → length p < 126 → encode_pong p ≡ wire (server_frame 0xA p)
unfolding encode_pong wire
encode_pong-wire p h = ground (arith, unmask-false (0 ∷ 0 ∷ 0 ∷ 0 ∷ []) 0 p)

-- What a peer reads of a binary message of bytes, of any length below 2 ^ 63 and within the peer's
-- limit, is that message, as one final frame, whatever bytes follow it.
pub parse_frame-encode_binary :
    (p rest : Text) (max_payload : ℕ)
    → IsBytes p
    → length p < 2 ^ 63
    → length p ≤ max_payload
    → parse_frame (encode_binary p ++ rest) max_payload ≡ some (parsed (server_frame 2 p))
parse_frame-encode_binary p rest most b h m =
    rw (encode_binary-wire p h)
      (parse_frame_lem (server_frame 2 p) rest most (server_frame-IsWire 2 p (omega arith) b h) m)

-- What a peer reads of a text message of bytes, shorter than 64 KiB and within the peer's limit, is that message, as one final frame,
-- whatever bytes follow it.
pub parse_frame-encode_text :
    (p rest : Text) (max_payload : ℕ)
    → IsBytes p
    → length p < 65536
    → length p ≤ max_payload
    → parse_frame (encode_text p ++ rest) max_payload ≡ some (parsed (server_frame 1 p))
parse_frame-encode_text p rest most b h m = rw (encode_text-wire p h) (
    parse_frame_lem (server_frame 1 p) rest most
      (server_frame-IsWire 1 p (omega arith) b (omega arith)) m)

abbrev two_bytes : ℕ → Text
two_bytes n = (n / 2 ^ 8) % 256 ∷ n % 256 ∷ []

read_length-two_bytes :
    (n : ℕ) (p : Text) → read_length 126 (two_bytes n ++ p) ≡ some (n % 65536, 4)
unfolding read_length byte
read_length-two_bytes n p = ground arith

read_body-text :
    (p : Text) (most : ℕ) (field : Text) (len : ℕ)
    → length field ≡ 2
    → len ≤ length p
    → len ≤ 65535
    → 65535 ≤ most
    → read_body (header 0x81 126) (0x81 ∷ 126 ∷ (field ++ p)) most len 4
      ≡ some (record {
        opcode = text;
        payload = take len p;
        fin = true;
        masked = false;
        ok = true;
        too_big = false;
        consumed = 4 + len;
      })
unfolding read_body header no_frame to_opcode after_mask
read_body-text p most (x ∷ y ∷ []) len f h s m =
    ground (arith, unmask-false (0 ∷ 0 ∷ 0 ∷ 0 ∷ []) 0 (take len p))
read_body-text p most field len f h s m = ground arith

-- From 64 KiB on the two length bytes of a text message wrap: a peer with a limit of 65535 or more
-- reads one final frame with
-- the first `length p % 65536` bytes only, and leaves the rest of the message in its buffer.
pub encode_text_wraps :
    (p : Text) (max_payload : ℕ)
    → 65536 ≤ length p
    → 65535 ≤ max_payload
    → parse_frame (encode_text p) max_payload
      ≡ some (record {
        opcode = text;
        payload = take (length p % 65536) p;
        fin = true;
        masked = false;
        ok = true;
        too_big = false;
        consumed = 4 + length p % 65536;
      })
unfolding encode_text
encode_text_wraps p most h m = rw (le→ltb (length p) 126 (omega arith)) (
    ground (
      arith,
      parse_frame-read_length 0x81 126 (two_bytes (length p) ++ p) most (length p % 65536) 4,
      read_length-two_bytes (length p) p,
      read_body-text p most (two_bytes (length p)) (length p % 65536),
    ))

-- What a peer reads of a pong for a ping's payload of at most 125 bytes, within the peer's limit, is that
-- payload, as one final frame, whatever bytes follow it.
pub parse_frame-encode_pong :
    (p rest : Text) (max_payload : ℕ)
    → IsBytes p
    → length p < 126
    → length p ≤ max_payload
    → parse_frame (encode_pong p ++ rest) max_payload ≡ some (parsed (server_frame 0xA p))
parse_frame-encode_pong p rest most b h m = rw (encode_pong-wire p h) (
    parse_frame_lem (server_frame 0xA p) rest most
      (server_frame-IsWire 0xA p (omega arith) b (omega arith)) m)

header-payload : (b0 b1 : ℕ) → (header b0 b1).payload ≡ []
unfolding header no_frame
header-payload b0 b1 = refl

parse_frame-cut :
    (b0 b1 : ℕ) (rest : Text) (most : ℕ)
    → read_length b1 rest ≡ none
    → parse_frame (b0 ∷ b1 ∷ rest) most ≡ some (header b0 b1)
unfolding parse_frame
parse_frame-cut b0 b1 rest most e = ap (with_length (header b0 b1) (b0 ∷ b1 ∷ rest) most) e

-- Where the length field is short, the length is; else it stands in the payload's bytes.
read_length-lt :
    (b1 : ℕ) (rest : Text) (len i : ℕ) → read_length b1 rest ≡ some (len, i) → (len < 126) ⊎ (4 ≤ i)
unfolding read_length
read_length-lt b1 rest len i e = ground arith

read_body_short :
    (f g : Frame) (buf : Text) (most len i : ℕ)
    → read_body f buf most len i ≡ some g
    → f.payload ≡ []
    → (length g.payload ≤ len) × (length g.payload ≤ length buf - i)
unfolding read_body after_mask
read_body_short f g buf most len i e p = ground (
  arith,
  length-unmask f.masked (mask_at f.masked i buf) 0 (take len (drop (after_mask f.masked i) buf)),
  length-take len (drop (after_mask f.masked i) buf),
  length-drop (after_mask f.masked i) buf,
)

-- A pong for a payload of 126 bytes or more does not carry it: whatever the peer reads of the pong
-- has fewer bytes.
pub encode_pong_loses :
    (p : Text) (max_payload : ℕ) (g : Frame)
    → 126 ≤ length p
    → parse_frame (encode_pong p) max_payload ≡ some g
    → length g.payload < length p
unfolding encode_pong
encode_pong_loses p most g h e = elim (Option-cases (read_length (length p % 128) p)) [
  | inl cut ↦ ground (
    arith,
    parse_frame-cut 0x8A (length p % 128) p most cut,
    header-payload 0x8A (length p % 128),
  )
  | inr ((len, i), found) ↦ ground (
    arith,
    parse_frame-read_length 0x8A (length p % 128) p most len i found,
    read_length-lt (length p % 128) p len i found,
    read_body_short (header 0x8A (length p % 128)) g (0x8A ∷ length p % 128 ∷ p) most len i,
    header-payload 0x8A (length p % 128),
  )
]
