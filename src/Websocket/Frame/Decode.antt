-- ===== src/Websocket/Frame/Decode.antt =====
-- The two readers of a frame, `decode` and `parse_frame`, against each other.
use public_cpp_laravel.Prelude.{
  ℕ, ◌+◌, ◌*◌, ◌%◌, take, ◌≡◌, true, false, [], ◌∷◌, some, arith, Text,
}
use public_cpp_laravel.Websocket.Frame.{
  Frame, decode, decode_body, parse_frame, with_length, read_length, read_body, read_payload,
  header, no_frame, byte, be_value,
}

decode_body-read_body :
    (f g : Frame) (buf : Text) (most len i : ℕ)
    → f.ok ≡ false
    → f.too_big ≡ false
    → read_body f buf most len i ≡ some g
    → g.ok ≡ true
    → decode_body f.masked buf len i ≡ some g.payload
unfolding decode_body read_body read_payload
decode_body-read_body f g buf most len i p q e k = ground arith

decode-with_length :
    (b0 b1 most : ℕ) (rest : Text) (g : Frame)
    → with_length (header b0 b1) (b0 ∷ b1 ∷ rest) most (read_length b1 rest) ≡ some g
    → g.ok ≡ true
    → decode (b0 ∷ b1 ∷ rest) ≡ some g.payload
unfolding decode with_length read_length header no_frame
decode-with_length b0 b1 most rest g e k = ground (
  arith,
  decode_body-read_body (header b0 b1) g (b0 ∷ b1 ∷ rest) most (b1 % 128) 2,
  decode_body-read_body (header b0 b1) g (b0 ∷ b1 ∷ rest) most (byte rest 0 * 256 + byte rest 1) 4,
  decode_body-read_body (header b0 b1) g (b0 ∷ b1 ∷ rest) most (be_value 0 (take 8 rest)) 10,
)

-- Where `parse_frame` reports a whole frame at the front of a buffer, under whatever limit, `decode`
-- gives the same payload from that buffer.
pub decode-parse_frame :
    (buf : Text) (max_payload : ℕ) (g : Frame)
    → parse_frame buf max_payload ≡ some g
    → g.ok ≡ true
    → decode buf ≡ some g.payload
unfolding parse_frame no_frame
decode-parse_frame [] most g e k = absurd (cc)
decode-parse_frame (b0 ∷ []) most g e k = absurd (cc)
decode-parse_frame (b0 ∷ b1 ∷ rest) most g e k = decode-with_length b0 b1 most rest g e k
