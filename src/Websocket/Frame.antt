-- ===== src/Websocket/Frame.antt =====
-- include/websocket.hpp: the frame encoders, `decode` and `parse_frame`. A byte string is the list
-- of its bytes, each below 256; `std::size_t` and `std::uint64_t` keep their wrap-around at 2 ^ 64.
-- In `(x << 8) | b` the low eight bits of the shifted word are zero, so the `|` is a sum.
pub mod Wire
pub mod RoundTrip
pub mod Decode
pub mod Encoders
pub mod Masking
pub mod Stream
use Prim.Native.Nat.{bit_xor}
use public_cpp_laravel.Prelude.{
  ℕ, zero, suc, ◌+◌, ◌-◌, ◌*◌, ◌/◌, ◌%◌, ◌^◌, Option, none, some, Bool, true, false, not, ◌&&◌,
  List, [], ◌∷◌, ◌++◌, length, get_or, take, drop, ltb, leb, ◌==◌, if◌then◌else◌, Text,
}

-- A byte outside the enumeration stays as it is under the `static_cast`.
pub data Opcode : Type 0 where
  continuation text binary close ping pong : Opcode
  reserved : ℕ → Opcode

unfoldable pub to_opcode : ℕ → Opcode
to_opcode n =
    if n == 0x0
    then continuation
    else if n == 0x1
    then text
    else if n == 0x2
    then binary
    else if n == 0x8
    then close
    else if n == 0x9
    then ping
    else if n == 0xA
    then pong
    else reserved n

pub record Frame : Type 0 where
  pub opcode : Opcode
  pub payload : Text
  pub fin : Bool
  pub masked : Bool
  pub ok : Bool
  pub too_big : Bool
  pub consumed : ℕ

-- The default member initialisers.
unfoldable pub no_frame : Frame
no_frame = record {
  opcode = text;
  payload = [];
  fin = false;
  masked = false;
  ok = false;
  too_big = false;
  consumed = 0;
}

-- `buf[k]`; every read of the code is within a bound that it has tested.
unfoldable pub byte : Text → ℕ → ℕ
byte buf k = get_or buf k 0

-- `for k: len = (len << 8) | byte(i + k)`, over the bytes themselves.
unfoldable pub be_value : ℕ → Text → ℕ
be_value len [] = len
be_value len (c ∷ s) = be_value ((len * 256) % 2 ^ 64 + c) s

-- `for (i = count - 1; i >= 0; --i) push((n >> (i * 8)) & 0xFF)`
unfoldable pub be_bytes : ℕ → ℕ → Text
be_bytes zero n = []
be_bytes (suc i) n = (n / 2 ^ (i * 8)) % 256 ∷ be_bytes i n

-- `masked ? (c ^ mask[j % 4]) : c`, from index `j` on.
unfoldable pub unmask : Bool → Text → ℕ → Text → Text
unmask masked mask j [] = []
unmask masked mask j (c ∷ s) =
    (if masked then bit_xor c (get_or mask (j % 4) 0) else c) ∷ unmask masked mask (suc j) s

unfoldable pub encode_text : Text → Text
encode_text payload =
    0x81
    ∷ ((if ltb (length payload) 126
          then length payload ∷ []
          else 126 ∷ (length payload / 2 ^ 8) % 256 ∷ length payload % 256 ∷ [])
        ++ payload)

unfoldable pub encode_binary : Text → Text
unfolding be_bytes
encode_binary payload =
    0x82
    ∷ ((if ltb (length payload) 126
          then length payload ∷ []
          else if leb (length payload) 0xFFFF
          then 126 ∷ (length payload / 2 ^ 8) % 256 ∷ length payload % 256 ∷ []
          else 127 ∷ be_bytes 8 (length payload))
        ++ payload)

-- `mask` and `i` after the mask is read.
unfoldable pub mask_at : Bool → ℕ → Text → Text
mask_at masked i buf = if masked then take 4 (drop i buf) else 0 ∷ 0 ∷ 0 ∷ 0 ∷ []

unfoldable pub after_mask : Bool → ℕ → ℕ
after_mask masked i = if masked then i + 4 else i

-- `std::string::max_size()`: `reserve` throws `std::length_error` above it.
abbrev pub max_size : ℕ
max_size = 2 ^ 63 - 1

-- The payload: `if (buf.size() < i + len) return f`, the `reserve`, then the copy. The sum is one
-- of `std::uint64_t`, so it wraps. `none` is the exception.
unfoldable pub read_payload : Frame → Text → ℕ → ℕ → Text → Option Frame
unfolding unmask
read_payload f buf i len mask =
    if ltb (length buf) ((i + len) % 2 ^ 64)
    then some f
    else if ltb max_size len
    then none
    else some (record f {
      payload = unmask f.masked mask 0 (take len (drop i buf));
      consumed = (i + len) % 2 ^ 64;
      ok = true;
    })

-- From `if (len > max_payload)` on, with the length read and `i` behind it.
unfoldable pub read_body : Frame → Text → ℕ → ℕ → ℕ → Option Frame
unfolding read_payload mask_at after_mask
read_body f buf max_payload len i =
    if ltb max_payload len
    then some (record f { too_big = true })
    else if f.masked && ltb (length buf) (i + 4)
    then some f
    else read_payload f buf (after_mask f.masked i) len (mask_at f.masked i buf)

-- The header fields: fin, opcode and mask bit, from the first two bytes.
unfoldable pub header : ℕ → ℕ → Frame
unfolding to_opcode no_frame
header b0 b1 = record no_frame {
  fin = leb 128 b0;
  opcode = to_opcode (b0 % 16);
  masked = leb 128 b1;
}

-- `len` and `i` once the header's length is read, from its second byte and what follows that one;
-- `none` where the buffer does not hold the extended length yet.
unfoldable pub read_length : ℕ → Text → Option (ℕ × ℕ)
unfolding byte be_value
read_length b1 rest =
    if b1 % 128 == 126
    then (if ltb (length rest) 2 then none else some (byte rest 0 * 256 + byte rest 1, 4))
    else if b1 % 128 == 127
    then (if ltb (length rest) 8 then none else some (be_value 0 (take 8 rest), 10))
    else some (b1 % 128, 2)

-- After the two-byte header.
unfoldable pub with_length : Frame → Text → ℕ → Option (ℕ × ℕ) → Option Frame
unfolding read_body
with_length f buf max_payload none = some f
with_length f buf max_payload (some (len, i)) = read_body f buf max_payload len i

unfoldable pub parse_frame : Text → ℕ → Option Frame
unfolding header with_length read_length no_frame
parse_frame [] max_payload = some no_frame
parse_frame (b0 ∷ []) max_payload = some no_frame
parse_frame (b0 ∷ b1 ∷ rest) max_payload =
    with_length (header b0 b1) (b0 ∷ b1 ∷ rest) max_payload (read_length b1 rest)

-- `decode`: the payload of one complete frame, cut off at the end of the buffer. `none` is the
-- exception of the `reserve`.
unfoldable pub decode_body : Bool → Text → ℕ → ℕ → Option Text
unfolding unmask mask_at after_mask
decode_body masked buf len i =
    if ltb max_size len
    then none
    else some (unmask masked (mask_at masked i buf) 0 (take len (drop (after_mask masked i) buf)))

-- The extended length and the mask are read with no bounds check: the model is the code where the
-- frame holds them.
unfoldable pub decode : Text → Option Text
unfolding decode_body byte be_value
decode [] = some []
decode (b0 ∷ []) = some []
decode (b0 ∷ b1 ∷ rest) =
    if b1 % 128 == 126
    then decode_body (leb 128 b1) (b0 ∷ b1 ∷ rest) (byte rest 0 * 256 + byte rest 1) 4
    else if b1 % 128 == 127
    then decode_body (leb 128 b1) (b0 ∷ b1 ∷ rest) (be_value 0 (take 8 rest)) 10
    else decode_body (leb 128 b1) (b0 ∷ b1 ∷ rest) (b1 % 128) 2

unfoldable pub encode_close : Text
encode_close = 0x88 ∷ 0x00 ∷ []

unfoldable pub encode_close_code : ℕ → Text
encode_close_code code = 0x88 ∷ 0x02 ∷ (code / 2 ^ 8) % 256 ∷ code % 256 ∷ []

unfoldable pub encode_pong : Text → Text
encode_pong payload = 0x8A ∷ length payload % 128 ∷ payload
