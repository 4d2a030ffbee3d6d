-- ===== src/Websocket/Frame/RoundTrip.antt =====
-- The parser against the wire format.
use public_cpp_laravel.Prelude.{
  ℕ, zero, suc, ◌+◌, ◌*◌, ◌/◌, ◌%◌, ◌^◌, ◌≤◌, ◌<◌, ◌≡◌, refl, ap, sym, subst, Bool, true, false, [],
  ◌∷◌, ◌++◌, some, arith, length, take, drop, take-length, drop-length, length-append, ltb, leb,
  Text, IsBytes, append_assoc, Bool-cases, inl, inr, ltb→lt,
}
use public_cpp_laravel.Websocket.Frame.Masking.{
  length-unmask, unmask-false, unmask-unmask, unmask-body_text,
}
use public_cpp_laravel.Websocket.Frame.{
  Frame, byte, be_value, be_bytes, read_body, mask_at, after_mask, header, parse_frame, with_length,
  no_frame, unmask, read_length, to_opcode,
}
use public_cpp_laravel.Websocket.Frame.Wire.{
  wire_length, bit, WireFrame, IsWire, mask_part, wire, opcode_number, parsed,
}

-- Skipping two parts.
drop-drop : (pre mask tail : Text) → drop (length pre + length mask) (pre ++ (mask ++ tail)) ≡ tail
drop-drop pre mask tail =
    rw (← length-append pre mask, ← append_assoc pre mask tail) (drop-length (pre ++ mask) tail)

length-be_bytes : (k n : ℕ) → length (be_bytes k n) ≡ k
unfolding be_bytes
length-be_bytes zero n = refl
length-be_bytes (suc k) n = ap suc (length-be_bytes k n)

take-be_bytes : (k n : ℕ) (tail : Text) → take k (be_bytes k n ++ tail) ≡ be_bytes k n
unfolding be_bytes
take-be_bytes zero n tail = refl
take-be_bytes (suc k) n tail = ap (◌∷◌ ((n / 2 ^ (k * 8)) % 256)) (take-be_bytes k n tail)

be_value-be_bytes_8 : (n : ℕ) → n < 2 ^ 64 → be_value 0 (be_bytes 8 n) ≡ n
unfolding be_value be_bytes
be_value-be_bytes_8 n h = omega arith

take_exact :
    (pre body rest : Text) → take (length body) (drop (length pre) (pre ++ (body ++ rest))) ≡ body
take_exact pre body rest = rw (drop-length pre (body ++ rest)) (take-length body rest)

-- The masked and the plain body behind a header `pre`.
read_body-masked :
    (f : Frame) (pre mask body rest : Text) (most : ℕ)
    → f.masked ≡ true
    → length pre ≤ 10
    → length mask ≡ 4
    → length body ≤ most
    → length body < 2 ^ 63
    → read_body f (pre ++ (mask ++ (body ++ rest))) most (length body) (length pre)
      ≡ some (record f {
        payload = unmask true mask 0 body;
        consumed = length pre + 4 + length body;
        ok = true;
      })
unfolding read_body mask_at after_mask
read_body-masked f pre mask body rest most fm hp hm hb hs =
    let at_mask : take 4 (drop (length pre) (pre ++ (mask ++ (body ++ rest)))) ≡ mask =
      rw (← hm) (take_exact pre mask (body ++ rest)) in
    ground (
      arith,
      at_mask,
      length-append pre (mask ++ (body ++ rest)),
      length-append mask (body ++ rest),
      length-append body rest,
      drop-drop pre mask (body ++ rest),
      take-length body rest,
    )

read_body-plain :
    (f : Frame) (pre body rest : Text) (most : ℕ)
    → f.masked ≡ false
    → length pre ≤ 10
    → length body ≤ most
    → length body < 2 ^ 63
    → read_body f (pre ++ (body ++ rest)) most (length body) (length pre)
      ≡ some (record f { payload = body; consumed = length pre + length body; ok = true })
unfolding read_body mask_at after_mask
read_body-plain f pre body rest most fm hp hb hs = ground (
  arith,
  length-append pre (body ++ rest),
  length-append body rest,
  take_exact pre body rest,
  unmask-false (0 ∷ 0 ∷ 0 ∷ 0 ∷ []) 0 body,
)

-- The whole body of a wire frame, masked or not.
read_body-wire :
    (f : Frame) (pre rest : Text) (most : ℕ) (masked : Bool) (mask body : Text)
    → f.masked ≡ masked
    → length pre ≤ 10
    → length mask ≡ 4
    → IsBytes mask
    → IsBytes body
    → length body ≤ most
    → length body < 2 ^ 63
    → read_body f
        (pre ++ ((mask_part masked mask ++ unmask masked mask 0 body) ++ rest))
        most
        (length body)
        (length pre)
      ≡ some (record f {
        payload = body;
        consumed = length (pre ++ (mask_part masked mask ++ unmask masked mask 0 body));
        ok = true;
      })
read_body-wire f pre rest most true mask body fm hp hm bm bb hb hs =
    let coded : Text = unmask true mask 0 body in
    let len : length coded ≡ length body = length-unmask true mask 0 body in
    rw (append_assoc mask coded rest) (
      ground (
        arith,
        read_body-masked f pre mask coded rest most fm hp hm (omega arith) (omega arith),
        len,
        unmask-unmask true mask 0 body bm bb,
        length-append pre (mask ++ coded),
        length-append mask coded,
      ))
read_body-wire f pre rest most false mask body fm hp hm bm bb hb hs =
    rw (unmask-false mask 0 body)
      (ground (arith, read_body-plain f pre body rest most fm hp hb hs, length-append pre body))

-- What the parser makes of a length field `b1 ∷ extra` with `tail` behind it.
record IsField (masked : Bool) (n b1 : ℕ) (extra tail : Text) : Type 0 where
  field : wire_length (bit masked) n ≡ b1 ∷ extra
  reads : read_length b1 (extra ++ tail) ≡ some (n, length extra + 2)
  mask_bit : leb 128 b1 ≡ masked
  short : length extra ≤ 8

small-IsField :
    (masked : Bool) (n : ℕ) (tail : Text) → n < 126 → IsField masked n (bit masked + n) [] tail
unfolding read_length
small-IsField masked n tail h = record {
  field = ground arith;
  reads = ground arith;
  mask_bit = ground arith;
  short = omega arith;
}

medium-IsField :
    (masked : Bool) (n : ℕ) (tail : Text)
    → 126 ≤ n
    → n < 65536
    → IsField masked n (bit masked + 126) (n / 256 ∷ n % 256 ∷ []) tail
unfolding read_length byte
medium-IsField masked n tail lo hi = record {
  field = ground arith;
  reads = ground arith;
  mask_bit = ground arith;
  short = omega arith;
}

large-IsField :
    (masked : Bool) (n : ℕ) (tail : Text)
    → 65536 ≤ n
    → n < 2 ^ 63
    → IsField masked n (bit masked + 127) (be_bytes 8 n) tail
unfolding read_length
large-IsField masked n tail lo hi = record {
  field = ground arith;
  reads = ground (
    arith,
    be_value-be_bytes_8 n (omega arith),
    length-be_bytes 8 n,
    length-append (be_bytes 8 n) tail,
    take-be_bytes 8 n tail,
  );
  mask_bit = ground arith;
  short = omega (arith, length-be_bytes 8 n);
}

-- The length field is read back, in each of its three forms.
read_length-wire :
    (masked : Bool) (n : ℕ) (tail : Text)
    → n < 2 ^ 63
    → (b1 : ℕ) × (extra : Text) × IsField masked n b1 extra tail
read_length-wire masked n tail h = elim (Bool-cases (ltb n 126)) [
  | inl small ↦ (bit masked + n, [], small-IsField masked n tail (ltb→lt n 126 small))
  | inr big ↦ elim (Bool-cases (ltb n 65536)) [
    | inl medium ↦ (
      bit masked + 126,
      n / 256 ∷ n % 256 ∷ [],
      medium-IsField masked n tail (ground arith) (ltb→lt n 65536 medium),
    )
    | inr large ↦ (bit masked + 127, be_bytes 8 n, large-IsField masked n tail (ground arith) h)
  ]
]

low_bits : (code : ℕ) → code < 16 → (128 + code) % 16 ≡ code
low_bits code h = omega arith

header-wire :
    (fin : Bool) (code b1 : ℕ) (masked : Bool)
    → code < 16
    → leb 128 b1 ≡ masked
    → header (bit fin + code) b1
      ≡ record no_frame { fin = fin; opcode = to_opcode code; masked = masked }
unfolding header
header-wire true code b1 masked h e = ground (arith, ap to_opcode (low_bits code h))
header-wire false code b1 masked h e = ground arith

abbrev body_part : WireFrame → Text
body_part w = mask_part w.masked w.mask ++ unmask w.masked w.mask 0 w.payload

-- The parser on a frame whose length field is `field`.
abbrev Reads : WireFrame → Text → ℕ → Text → Type 0
Reads w rest most field =
    parse_frame ((bit w.fin + w.code) ∷ ((field ++ body_part w) ++ rest)) most
    ≡ some (record {
      opcode = to_opcode w.code;
      payload = w.payload;
      fin = w.fin;
      masked = w.masked;
      ok = true;
      too_big = false;
      consumed = length ((bit w.fin + w.code) ∷ (field ++ body_part w));
    })

pub parse_frame-read_length :
    (b0 b1 : ℕ) (rest : Text) (most len i : ℕ)
    → read_length b1 rest ≡ some (len, i)
    → parse_frame (b0 ∷ b1 ∷ rest) most ≡ read_body (header b0 b1) (b0 ∷ b1 ∷ rest) most len i
unfolding parse_frame
parse_frame-read_length b0 b1 rest most len i e =
    ap (with_length (header b0 b1) (b0 ∷ b1 ∷ rest) most) e

field-Reads :
    (w : WireFrame) (rest : Text) (most b1 : ℕ) (extra : Text)
    → IsWire w
    → length w.payload ≤ most
    → IsField w.masked (length w.payload) b1 extra (body_part w ++ rest)
    → Reads w rest most (b1 ∷ extra)
unfolding no_frame
field-Reads w rest most b1 extra h hl f =
    let pre : Text = (bit w.fin + w.code) ∷ b1 ∷ extra in
    let start : Frame = record no_frame {
      fin = w.fin;
      opcode = to_opcode w.code;
      masked = w.masked;
    } in
    rw (append_assoc extra (body_part w) rest) (
      ground (
        arith,
        parse_frame-read_length (bit w.fin + w.code) b1 (extra ++ (body_part w ++ rest)) most
            (length w.payload) (length extra + 2),
        header-wire w.fin w.code b1 w.masked h.code_bits f.mask_bit,
        read_body-wire start pre rest most w.masked w.mask w.payload refl,
      ))

-- The frame as the code masks it.
abbrev coded : WireFrame → Text
coded w = (bit w.fin + w.code) ∷ (wire_length (bit w.masked) (length w.payload) ++ body_part w)

wire-coded : (w : WireFrame) → IsWire w → coded w ≡ wire w
unfolding wire
wire-coded w h =
    ap
      (λ t.
        (bit w.fin + w.code)
        ∷ (wire_length (bit w.masked) (length w.payload) ++ (mask_part w.masked w.mask ++ t)))
      (sym (unmask-body_text w.masked w.mask w.payload h.mask_size))

-- What the parser should make of a frame's text.
abbrev ReadsText : WireFrame → Text → ℕ → Text → Type 0
ReadsText w rest most text =
    parse_frame (text ++ rest) most
    ≡ some (record {
      opcode = to_opcode w.code;
      payload = w.payload;
      fin = w.fin;
      masked = w.masked;
      ok = true;
      too_big = false;
      consumed = length text;
    })

pub parse_frame_lem :
    (w : WireFrame) (rest : Text) (max_payload : ℕ)
    → IsWire w
    → length w.payload ≤ max_payload
    → parse_frame (wire w ++ rest) max_payload ≡ some (parsed w)
parse_frame_lem w rest most h hl =
    let (b1, extra, f) =
      read_length-wire w.masked (length w.payload) (body_part w ++ rest) h.payload_size in
    subst (ReadsText w rest most) (wire-coded w h)
      (subst (Reads w rest most) (sym f.field) (field-Reads w rest most b1 extra h hl f))

to_opcode_lem : (n : ℕ) → opcode_number (to_opcode n) ≡ n
unfolding to_opcode
to_opcode_lem n = ground arith

-- The parser reads every wire frame whose payload is within the limit back, payload unmasked and
-- opcode known by its number, whatever follows it in the buffer.
pub parse_frame-wire :
    (w : WireFrame) (rest : Text) (max_payload : ℕ)
    → IsWire w
    → length w.payload ≤ max_payload
    → (parse_frame (wire w ++ rest) max_payload ≡ some (parsed w))
      × (opcode_number (parsed w).opcode ≡ w.code)
parse_frame-wire w rest most h hl = (parse_frame_lem w rest most h hl, to_opcode_lem w.code)
