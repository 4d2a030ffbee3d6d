-- ===== src/Websocket/Frame/Stream.antt =====
-- How `parse_frame` behaves on a growing buffer: what it reports of a prefix stays true.
use public_cpp_laravel.Prelude.{
  ℕ, ◌+◌, ◌^◌, ◌≤◌, ◌<◌, ◌≡◌, refl, ◌⊎◌, inl, inr, Option-cases, none, ◌≢◌, ◌-◌, Option, Bool, true,
  false, [], ◌∷◌, ◌++◌, Option, none, some, arith, length, take, drop, take-append, get_or-append,
  length-append, length-take, Text, slice-append,
}
use public_cpp_laravel.Websocket.Frame.Masking.{length-unmask}
use public_cpp_laravel.Websocket.Frame.{
  Frame, byte, be_value, read_payload, read_body, mask_at, after_mask, header, parse_frame,
  no_frame, read_length, with_length,
}

-- A verdict: a whole frame, or a refusal by its declared length.
abbrev pub IsDecided : Frame → Type 0
IsDecided f = (f.ok ≡ true) ⊎ (f.too_big ≡ true)

mask_at-append :
    (buf more : Text) (masked : Bool) (i : ℕ)
    → i + 4 ≤ length buf
    → mask_at masked i (buf ++ more) ≡ mask_at masked i buf
unfolding mask_at
mask_at-append buf more masked i h = ground (arith, slice-append i 4 buf more)

module _ (f g : Frame) (buf more : Text) (p : f.ok ≡ false) (q : f.too_big ≡ false) where
  read_payload-append :
      (i len : ℕ) (mask : Text)
      → i + len < 2 ^ 64
      → read_payload f buf i len mask ≡ some g
      → IsDecided g
      → read_payload f (buf ++ more) i len mask ≡ some g
  unfolding read_payload
  read_payload-append i len mask r h d =
      ground (arith, length-append buf more, slice-append i len buf more)

  read_body-append :
      (most len i : ℕ)
      → most + 14 < 2 ^ 64
      → i ≤ 10
      → read_body f buf most len i ≡ some g
      → IsDecided g
      → read_body f (buf ++ more) most len i ≡ some g
  unfolding read_body after_mask
  read_body-append most len i r s h d = ground (
    arith,
    length-append buf more,
    mask_at-append buf more f.masked i,
    slice-append i len buf more,
    slice-append (i + 4) len buf more,
  )

header_undecided : (b0 b1 : ℕ) → (header b0 b1).ok ≡ false × (header b0 b1).too_big ≡ false
unfolding header
header_undecided b0 b1 = (refl, refl)

read_length-append :
    (b1 : ℕ) (rest more : Text) {v : ℕ × ℕ}
    → read_length b1 rest ≡ some v
    → read_length b1 (rest ++ more) ≡ some v
unfolding read_length byte
read_length-append b1 rest more h = ground (
  arith,
  length-append rest more,
  get_or-append rest more 0 0,
  get_or-append rest more 1 0,
  take-append 8 rest more,
)

pub read_length_bounds :
    (b1 : ℕ) (rest : Text) {len i : ℕ}
    → read_length b1 rest ≡ some (len, i)
    → (2 ≤ i) × (i ≤ 10) × (i ≤ length rest + 2)
unfolding read_length
read_length_bounds b1 rest h = ground arith

with_length-append :
    (b0 b1 : ℕ) (buf rest more : Text) (most : ℕ) (g : Frame) (v : Option (ℕ × ℕ))
    → most + 14 < 2 ^ 64
    → read_length b1 rest ≡ v
    → with_length (header b0 b1) buf most v ≡ some g
    → IsDecided g
    → with_length (header b0 b1) (buf ++ more) most (read_length b1 (rest ++ more)) ≡ some g
unfolding with_length
with_length-append b0 b1 buf rest more most g none r e h d = ground (arith, header_undecided b0 b1)
with_length-append b0 b1 buf rest more most g (some (len, i)) r e h d =
    let (ok, big) = header_undecided b0 b1 in
    rw (read_length-append b1 rest more e) (
      read_body-append (header b0 b1) g buf more ok big most len i r
        (read_length_bounds b1 rest e).1 h d)

-- A frame that `parse_frame` reports, or refuses for its size, is reported the same when more bytes
-- stand behind it in the buffer, under any limit that leaves room for a header below 2 ^ 64.
pub parse_frame-append :
    (buf more : Text) (max_payload : ℕ) (g : Frame)
    → max_payload + 14 < 2 ^ 64
    → parse_frame buf max_payload ≡ some g
    → IsDecided g
    → parse_frame (buf ++ more) max_payload ≡ some g
unfolding parse_frame
parse_frame-append [] more most g r h d = ground arith
parse_frame-append (b0 ∷ []) more most g r h d = ground arith
parse_frame-append (b0 ∷ b1 ∷ rest) more most g r h d =
    with_length-append b0 b1 (b0 ∷ b1 ∷ rest) rest more most g _ r refl h d

-- What is known of a verdict: never both, a whole frame within the limit and inside the buffer.
pub record IsSound (buf : Text) (most : ℕ) (g : Frame) : Type 0 where
  pub one_verdict : g.ok ≡ true → g.too_big ≡ false
  pub within : g.ok ≡ true → length g.payload ≤ most
  pub progress : g.ok ≡ true → 2 ≤ g.consumed
  pub inside : g.ok ≡ true → g.consumed ≤ length buf

read_body-IsSound :
    (f g : Frame) (buf : Text) (most len i : ℕ)
    → most + 14 < 2 ^ 64
    → 2 ≤ i
    → i ≤ 10
    → f.ok ≡ false
    → f.too_big ≡ false
    → read_body f buf most len i ≡ some g
    → IsSound buf most g
unfolding read_body after_mask
read_body-IsSound f g buf most len i r lo hi ok big h = record {
  one_verdict = ground arith;
  within = ground (
    arith,
    length-unmask f.masked (mask_at f.masked i buf) 0 (take len (drop (after_mask f.masked i) buf)),
    length-take len (drop (after_mask f.masked i) buf),
  );
  progress = ground arith;
  inside = ground arith;
}

with_length-IsSound :
    (b0 b1 : ℕ) (buf rest : Text) (most : ℕ) (g : Frame) (v : Option (ℕ × ℕ))
    → most + 14 < 2 ^ 64
    → read_length b1 rest ≡ v
    → with_length (header b0 b1) buf most v ≡ some g
    → IsSound buf most g
unfolding with_length
with_length-IsSound b0 b1 buf rest most g none r e h = ground (arith, header_undecided b0 b1)
with_length-IsSound b0 b1 buf rest most g (some (len, i)) r e h =
    let (ok, big) = header_undecided b0 b1 in
    let (lo, hi, _) = read_length_bounds b1 rest e in
    read_body-IsSound (header b0 b1) g buf most len i r lo hi ok big h

-- Whatever the bytes, under a limit that leaves room for a header below 2 ^ 64, a reported frame is not at once refused for its size, its payload is within
-- the limit, and it took at least two bytes and no more than the buffer holds.
pub parse_frame-IsSound :
    (buf : Text) (max_payload : ℕ) (g : Frame)
    → max_payload + 14 < 2 ^ 64
    → parse_frame buf max_payload ≡ some g
    → IsSound buf max_payload g
unfolding parse_frame no_frame
parse_frame-IsSound [] most g r h = ground arith
parse_frame-IsSound (b0 ∷ []) most g r h = ground arith
parse_frame-IsSound (b0 ∷ b1 ∷ rest) most g r h =
    with_length-IsSound b0 b1 (b0 ∷ b1 ∷ rest) rest most g _ r refl h

read_body-ne-none :
    (f : Frame) (buf : Text) (most len i : ℕ) → most < 2 ^ 63 → read_body f buf most len i ≢ none
unfolding read_body
read_body-ne-none f buf most len i r = ground arith

with_length_total :
    (f : Frame) (buf : Text) (most : ℕ) (v : Option (ℕ × ℕ))
    → most < 2 ^ 63
    → (g : Frame) × (with_length f buf most v ≡ some g)
unfolding with_length
with_length_total f buf most none r = (f, refl)
with_length_total f buf most (some (len, i)) r = elim (Option-cases (read_body f buf most len i)) [
  | inl e ↦ absurd (read_body-ne-none f buf most len i r e)
  | inr found ↦ found
]

-- With a limit below 2 ^ 63 no buffer makes the parser throw.
pub parse_frame_total :
    (buf : Text) (max_payload : ℕ)
    → max_payload < 2 ^ 63
    → (g : Frame) × (parse_frame buf max_payload ≡ some g)
unfolding parse_frame
parse_frame_total [] most r = (no_frame, refl)
parse_frame_total (b0 ∷ []) most r = (no_frame, refl)
parse_frame_total (b0 ∷ b1 ∷ rest) most r =
    with_length_total (header b0 b1) (b0 ∷ b1 ∷ rest) most (read_length b1 rest) r

-- With the default limit, ten header bytes of a frame without a mask make `reserve` throw: a
-- declared length among the last ten below 2 ^ 64 wraps the bounds test around.
pub parse_frame_throws :
    (b0 : ℕ) (rest : Text) (len : ℕ)
    → 8 ≤ length rest
    → be_value 0 (take 8 rest) ≡ len
    → 2 ^ 64 ≤ len + 10
    → len < 2 ^ 64
    → parse_frame (b0 ∷ 127 ∷ rest) (2 ^ 64 - 1) ≡ none
unfolding parse_frame
parse_frame_throws b0 rest len h e lo hi = ground arith

-- Under a limit that leaves room for a header below 2 ^ 64, a frame reported as whole is not refused for its size, its payload is within the limit, and it
-- took at least two bytes and no more than the buffer holds.
pub parse_frame-IsWhole :
    (buf : Text) (max_payload : ℕ) (g : Frame)
    → max_payload + 14 < 2 ^ 64
    → parse_frame buf max_payload ≡ some g
    → g.ok ≡ true
    → (g.too_big ≡ false)
      × (length g.payload ≤ max_payload)
      × (2 ≤ g.consumed)
      × (g.consumed ≤ length buf)
parse_frame-IsWhole buf most g h e k =
    let sound = parse_frame-IsSound buf most g h e in
    (sound.one_verdict k, sound.within k, sound.progress k, sound.inside k)
