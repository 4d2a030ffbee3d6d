-- ===== src/Websocket/Frame/Wire.antt =====
-- The wire format of RFC 6455, by which the encoders and the parser are measured.
use Prim.Native.Nat.{bit_xor}
use public_cpp_laravel.Prelude.{
  ℕ, ◌+◌, ◌/◌, ◌%◌, ◌^◌, ◌<◌, ◌≡◌, Bool, true, false, [], ◌∷◌, ◌++◌, length, ltb, if◌then◌else◌,
  Text, IsBytes,
}
use public_cpp_laravel.Websocket.Frame.{
  Frame, Opcode, continuation, text, binary, close, ping, pong, reserved, be_bytes, to_opcode,
}

-- The length field of the wire format: the second byte and the extended length.
abbrev pub wire_length : ℕ → ℕ → Text
wire_length mask_bit n =
    if ltb n 126
    then (mask_bit + n) ∷ []
    else if ltb n 65536
    then (mask_bit + 126) ∷ n / 256 ∷ n % 256 ∷ []
    else (mask_bit + 127) ∷ be_bytes 8 n

-- The behaviour of RFC 6455 that the code is measured by: a frame on the wire.
abbrev pub bit : Bool → ℕ
bit b = if b then 128 else 0

pub record WireFrame : Type 0 where
  pub fin : Bool
  pub code : ℕ
  pub masked : Bool
  pub mask : Text
  pub payload : Text

-- Four bytes of mask, an opcode of four bits, and a payload that fits a string.
pub record IsWire (w : WireFrame) : Type 0 where
  pub code_bits : w.code < 16
  pub mask_size : length w.mask ≡ 4
  pub mask_bytes : IsBytes w.mask
  pub payload_bytes : IsBytes w.payload
  pub payload_size : length w.payload < 2 ^ 63

abbrev pub mask_part : Bool → Text → Text
mask_part masked mask = if masked then mask else []

-- Each byte of the payload with the next byte of the mask, whose bytes are taken in turn.
unfoldable pub apply_mask : Text → Text → Text
apply_mask [] s = s
apply_mask (m ∷ ms) [] = []
apply_mask (m ∷ ms) (c ∷ s) = bit_xor c m ∷ apply_mask (ms ++ (m ∷ [])) s

abbrev pub body_text : Bool → Text → Text → Text
body_text masked mask payload = if masked then apply_mask mask payload else payload

unfoldable pub wire : WireFrame → Text
unfolding apply_mask
wire w =
    (bit w.fin + w.code)
    ∷ (wire_length (bit w.masked) (length w.payload)
        ++ (mask_part w.masked w.mask ++ body_text w.masked w.mask w.payload))

-- The numbers of RFC 6455 for the opcodes.
abbrev pub opcode_number : Opcode → ℕ
opcode_number continuation = 0
opcode_number text = 1
opcode_number binary = 2
opcode_number close = 8
opcode_number ping = 9
opcode_number pong = 10
opcode_number (reserved n) = n

-- What the parser should say of a wire frame.
abbrev pub parsed : WireFrame → Frame
parsed w = record {
  opcode = to_opcode w.code;
  payload = w.payload;
  fin = w.fin;
  masked = w.masked;
  ok = true;
  too_big = false;
  consumed = length (wire w);
}
