-- ===== src/Websocket/Connection/Chunks.antt =====
-- How the network cuts the bytes does not matter, and `receive` always returns.
use public_cpp_laravel.Prelude.{
  ℕ, zero, suc, ◌+◌, ◌*◌, ◌^◌, ◌≤◌, ◌<◌, ◌≡◌, refl, ap, sym, ◌∙◌, inl, inr, ◌≢◌, Bool, true, false,
  Option, List, [], ◌∷◌, ◌++◌, none, some, arith, length, drop, drop-append, append-nil,
  append_assoc, Bool-cases, Text, ◌||◌,
}
use public_cpp_laravel.Websocket.Frame.{
  Frame, parse_frame, encode_close, encode_close_code, encode_pong, Opcode, continuation, text,
  binary, close, ping, pong, reserved,
}
use public_cpp_laravel.Websocket.Frame.Stream.{
  IsDecided, parse_frame-append, parse_frame-IsSound, parse_frame_total,
}
use public_cpp_laravel.Websocket.Connection.{
  Connection, Next, got, eof, threw, decide, next_frame, Step, deliver, stop, again, on_frame,
  on_data, on_continuation, on_opcode, echo_close, send_control, Received, closed, take_frame,
  after_step, after_next, receive_loop, flat, pending,
}

-- What the inner loop ends with, told by the bytes alone.
abbrev pub Determined : ℕ → Text → Next → Type 0
Determined most full (got f buf incoming) =
    (parse_frame full most ≡ some f)
    × IsDecided f
    × (buf ++ flat incoming ≡ full)
    × (f.ok ≡ true → f.consumed ≤ length buf)
Determined most full (eof buf) =
    (buf ≡ full)
    × (f : Frame) × (parse_frame full most ≡ some f)
    × (f.ok ≡ false)
    × (f.too_big ≡ false)
Determined most full threw = ⊥

IsDecided-of_or : (f : Frame) → (f.ok || f.too_big) ≡ true → IsDecided f
IsDecided-of_or f h = ground arith

parse_frame-ne-none : (buf : Text) (most : ℕ) → most < 2 ^ 63 → parse_frame buf most ≢ none
parse_frame-ne-none buf most h e = let (g, found) = parse_frame_total buf most h in cc

decide-Determined :
    (most : ℕ) (buf : Text) (incoming : List Text) (more : Next) (r : Option Frame)
    → most + 14 < 2 ^ 63
    → parse_frame buf most ≡ r
    → ((f : Frame)
        → r ≡ some f
        → f.ok ≡ false
        → f.too_big ≡ false
        → Determined most (buf ++ flat incoming) more)
    → Determined most (buf ++ flat incoming) (decide r buf incoming more)
unfolding decide
decide-Determined most buf incoming more none h e rest =
    absurd (parse_frame-ne-none buf most (omega arith) e)
decide-Determined most buf incoming more (some f) h e rest = elim (Bool-cases (f.ok || f.too_big)) [
  | inl done ↦ rw done (
      let d : IsDecided f = IsDecided-of_or f done in
      (
        parse_frame-append buf (flat incoming) most f (omega arith) e d,
        d,
        refl,
        (parse_frame-IsSound buf most f (omega arith) e).inside,
      ))
  | inr open_ ↦ rw open_ (rest f refl (ground arith) (ground arith))
]

pub next_frame-Determined :
    (most : ℕ) (buf : Text) (incoming : List Text)
    → most + 14 < 2 ^ 63
    → Determined most (buf ++ flat incoming) (next_frame most buf incoming)
unfolding next_frame flat
next_frame-Determined most buf [] h =
    decide-Determined most buf [] (eof buf) (parse_frame buf most) h refl
      (λ f e ok big. (sym (append-nil buf), f, rw (append-nil buf) e, ok, big))
next_frame-Determined most buf (chunk ∷ rest) h =
    decide-Determined most buf (chunk ∷ rest) (next_frame most (buf ++ chunk) rest)
      (parse_frame buf most) h refl
      (λ f e ok big.
        rw (append_assoc buf chunk (flat rest)) at
          (next_frame-Determined most (buf ++ chunk) rest h))

-- A connection with every pending byte in its buffer.
abbrev pub whole : Connection → Connection
whole c = record c { buf = pending c; incoming = [] }

abbrev whole_step : Step → Step
whole_step (deliver t c) = deliver t (whole c)
whole_step (stop c) = stop (whole c)
whole_step (again c m fragmenting) = again (whole c) m fragmenting

send_control-whole :
    (c : Connection) (out : Text) → whole (send_control c out) ≡ send_control (whole c) out
unfolding send_control
send_control-whole c out = elim (Bool-cases c.writable) [ inl e ↦ rw e | inr e ↦ rw e ]

module _ (c : Connection) (m : Text) (fragmenting : Bool) (f : Frame) where
  on_data-whole : whole_step (on_data c m fragmenting f) ≡ on_data (whole c) m fragmenting f
  unfolding on_data
  on_data-whole = ground (arith, send_control-whole c (encode_close_code 1002))

  on_continuation-whole :
      whole_step (on_continuation c m fragmenting f) ≡ on_continuation (whole c) m fragmenting f
  unfolding on_continuation
  on_continuation-whole = ground (
    arith,
    send_control-whole c (encode_close_code 1002),
    send_control-whole c (encode_close_code 1009),
  )

echo_close-whole : (c : Connection) (p : Text) → whole (echo_close c p) ≡ echo_close (whole c) p
unfolding echo_close
echo_close-whole c [] = send_control-whole c encode_close
echo_close-whole c (hi ∷ []) = send_control-whole c encode_close
echo_close-whole c (hi ∷ lo ∷ _) = send_control-whole c (encode_close_code (hi * 256 + lo))

on_opcode-whole :
    (op : Opcode) (c : Connection) (m : Text) (fragmenting : Bool) (f : Frame)
    → whole_step (on_opcode op c m fragmenting f) ≡ on_opcode op (whole c) m fragmenting f
unfolding on_opcode
on_opcode-whole continuation c m fragmenting f = on_continuation-whole c m fragmenting f
on_opcode-whole text c m fragmenting f = on_data-whole c m fragmenting f
on_opcode-whole binary c m fragmenting f = on_data-whole c m fragmenting f
on_opcode-whole close c m fragmenting f = ap stop (echo_close-whole c f.payload)
on_opcode-whole ping c m fragmenting f =
    ap (λ d. again d m fragmenting) (send_control-whole c (encode_pong f.payload))
on_opcode-whole pong c m fragmenting f = refl
on_opcode-whole (reserved n) c m fragmenting f = refl

drop-pending :
    (c : Connection) (n : ℕ)
    → n ≤ length c.buf
    → whole (record c { buf = drop n c.buf }) ≡ record c { buf = drop n (pending c); incoming = [] }
drop-pending c n h = rw (drop-append n c.buf (flat c.incoming) h)

on_frame-whole :
    (c : Connection) (m : Text) (fragmenting : Bool) (f : Frame)
    → (f.ok ≡ true → f.consumed ≤ length c.buf)
    → IsDecided f
    → whole_step (on_frame c m fragmenting f) ≡ on_frame (whole c) m fragmenting f
unfolding on_frame
on_frame-whole c m fragmenting f h d = ground (
  arith,
  send_control-whole c (encode_close_code 1009),
  send_control-whole c (encode_close_code 1002),
  on_opcode-whole f.opcode (record c { buf = drop f.consumed c.buf }) m fragmenting f,
  drop-pending c f.consumed,
)

-- What a caller can tell: the result, what was sent, and the bytes that are left.
abbrev pub observe : Received × Connection → Received × Connection
observe (r, c) = (r, whole c)

-- A round that goes on has dropped the frame and left the limit and the input alone.
pub on_frame-again :
    (c d : Connection) (m m' : Text) (fragmenting fragmenting' : Bool) (f : Frame)
    → on_frame c m fragmenting f ≡ again d m' fragmenting'
    → (d.max_message_bytes ≡ c.max_message_bytes)
      × (d.buf ≡ drop f.consumed c.buf)
      × (d.incoming ≡ c.incoming)
      × (f.too_big ≡ false)
unfolding on_frame
on_frame-again c d m m' fragmenting fragmenting' f h = on_opcode_cases f.opcode refl
  where
    on_opcode_cases :
        (op : Opcode)
        → f.opcode ≡ op
        → (d.max_message_bytes ≡ c.max_message_bytes)
          × (d.buf ≡ drop f.consumed c.buf)
          × (d.incoming ≡ c.incoming)
          × (f.too_big ≡ false)
    on_opcode_cases continuation e = ground arith
    on_opcode_cases text e = ground arith
    on_opcode_cases binary e = ground arith
    on_opcode_cases close e = ground arith
    on_opcode_cases ping e = ground arith
    on_opcode_cases pong e = ground arith
    on_opcode_cases (reserved n) e = ground arith

abbrev pub Loop : Type 0
Loop = Connection → Text → Bool → Received × Connection

after_step-whole :
    (s : Step) (loop : Loop)
    → ((d : Connection) (m : Text) (fragmenting : Bool)
        → s ≡ again d m fragmenting
        → observe (loop d m fragmenting) ≡ loop (whole d) m fragmenting)
    → observe (after_step s loop) ≡ after_step (whole_step s) loop
unfolding after_step
after_step-whole (deliver t c) loop h = refl
after_step-whole (stop c) loop h = refl
after_step-whole (again c m fragmenting) loop h = h c m fragmenting refl

pub decide_decided :
    (f : Frame) (buf : Text) (more : Next)
    → IsDecided f
    → decide (some f) buf [] more ≡ got f buf []
unfolding decide
decide_decided f buf more d = ground arith

decide_undecided :
    (f : Frame) (buf : Text) (more : Next)
    → f.ok ≡ false
    → f.too_big ≡ false
    → decide (some f) buf [] more ≡ more
unfolding decide
decide_undecided f buf more ok big = ground arith

after_next-whole :
    (n : Next) (c : Connection) (m : Text) (fragmenting : Bool) (loop : Loop)
    → Determined c.max_message_bytes (pending c) n
    → ((d : Connection) (m' : Text) (fragmenting' : Bool)
        → d.max_message_bytes ≡ c.max_message_bytes
        → observe (loop d m' fragmenting') ≡ loop (whole d) m' fragmenting')
    → observe (after_next n c m fragmenting loop)
      ≡ after_next
          (decide (parse_frame (pending c) c.max_message_bytes) (pending c) [] (eof (pending c)))
          (whole c)
          m
          fragmenting
          loop
unfolding after_next flat
after_next-whole (got f buf incoming) c m fragmenting loop (e, d, same, within) ih =
    let c1 : Connection = take_frame c buf incoming in
    rw (e, decide_decided f (pending c) (eof (pending c)) d, ← same)
      (after_step-whole (on_frame c1 m fragmenting f) loop
          (λ d' m' fr' again_. ih d' m' fr' (on_frame-again c1 d' m m' fragmenting fr' f again_).0)
        ∙ ap (λ s. after_step s loop) (on_frame-whole c1 m fragmenting f within d))
after_next-whole (eof buf) c m fragmenting loop (same, f, e, ok, big) ih =
    rw (e, decide_undecided f (pending c) (eof (pending c)) ok big, ← same)
      (ap (λ b. (closed, take_frame c b [])) (append-nil buf))
after_next-whole threw c m fragmenting loop h ih = absurd h

pub receive_loop-whole :
    (fuel : ℕ) (c : Connection) (m : Text) (fragmenting : Bool)
    → c.max_message_bytes + 14 < 2 ^ 63
    → observe (receive_loop fuel c m fragmenting) ≡ receive_loop fuel (whole c) m fragmenting
unfolding receive_loop
receive_loop-whole zero c m fragmenting h = refl
receive_loop-whole (suc fuel) c m fragmenting h =
    after_next-whole (next_frame c.max_message_bytes c.buf c.incoming) c m fragmenting
      (receive_loop fuel) (next_frame-Determined c.max_message_bytes c.buf c.incoming h)
      (λ d m' fr' e. receive_loop-whole fuel d m' fr' (rw e h))
