-- ===== src/Websocket/Connection/Progress.antt =====
-- `receive` returns on every input, and what it returns is within the limit.
use public_cpp_laravel.Prelude.{
  ℕ, zero, suc, ◌+◌, ◌^◌, ◌≤◌, ◌<◌, ◌≡◌, refl, ap, sym, ◌∙◌, Bool, true, false, List, [], ◌++◌,
  arith, length, drop, length-append, length-drop, Text,
}
use public_cpp_laravel.Websocket.Frame.{
  Frame, Opcode, continuation, text, binary, close, ping, pong, reserved,
}
use public_cpp_laravel.Websocket.Frame.Stream.{IsDecided, parse_frame-IsSound, IsSound}
use public_cpp_laravel.Websocket.Connection.{
  Connection, Next, got, eof, threw, next_frame, Step, deliver, stop, again, on_frame, on_opcode,
  on_data, on_continuation, Received, message, closed, exception, out_of_fuel, take_frame,
  after_step, after_next, receive_loop, receive, flat, pending,
}
use public_cpp_laravel.Websocket.Connection.Chunks.{
  Determined, next_frame-Determined, on_frame-again, observe, receive_loop-whole, Loop,
}

-- What a round hands on is within the limit.
abbrev Fits : ℕ → Step → Type 0
Fits most (deliver t d) = length t ≤ most
Fits most (stop d) = Unit
Fits most (again d m fragmenting) = length m ≤ most

module _ (c : Connection) (most : ℕ) (m : Text) (fragmenting : Bool) (f : Frame)
    (hm : length m ≤ most) (hp : length f.payload ≤ most) (hc : c.max_message_bytes ≡ most) where
  on_data-Fits : Fits most (on_data c m fragmenting f)
  unfolding on_data
  on_data-Fits = ground arith

  on_continuation-Fits : Fits most (on_continuation c m fragmenting f)
  unfolding on_continuation
  on_continuation-Fits = ground (arith, length-append m f.payload)

on_opcode-Fits :
    (op : Opcode) (c : Connection) (most : ℕ) (m : Text) (fragmenting : Bool) (f : Frame)
    → length m ≤ most
    → length f.payload ≤ most
    → c.max_message_bytes ≡ most
    → Fits most (on_opcode op c m fragmenting f)
unfolding on_opcode
on_opcode-Fits continuation c most m fr f hm hp hc = on_continuation-Fits c most m fr f hm hp hc
on_opcode-Fits text c most m fr f hm hp hc = on_data-Fits c most m fr f hm hp hc
on_opcode-Fits binary c most m fr f hm hp hc = on_data-Fits c most m fr f hm hp hc
on_opcode-Fits close c most m fr f hm hp hc = tt
on_opcode-Fits ping c most m fr f hm hp hc = hm
on_opcode-Fits pong c most m fr f hm hp hc = hm
on_opcode-Fits (reserved n) c most m fr f hm hp hc = hm

on_frame-Fits :
    (c : Connection) (m : Text) (fragmenting : Bool) (f : Frame)
    → length m ≤ c.max_message_bytes
    → IsDecided f
    → (f.ok ≡ true → length f.payload ≤ c.max_message_bytes)
    → Fits c.max_message_bytes (on_frame c m fragmenting f)
unfolding on_frame
on_frame-Fits c m fr f hm d hp = ground (
  arith,
  on_opcode-Fits f.opcode (record c { buf = drop f.consumed c.buf }) c.max_message_bytes m fr f hm,
)

-- `receive` ended by itself, with a message within the limit or with none.
abbrev pub Returns : ℕ → Received → Type 0
Returns most (message t) = length t ≤ most
Returns most closed = Unit
Returns most exception = ⊥
Returns most out_of_fuel = ⊥

after_step-Returns :
    (most : ℕ) (s : Step) (loop : Loop)
    → Fits most s
    → ((d : Connection) (m : Text) (fragmenting : Bool)
        → s ≡ again d m fragmenting
        → length m ≤ most
        → Returns most (loop d m fragmenting).0)
    → Returns most (after_step s loop).0
unfolding after_step
after_step-Returns most (deliver t d) loop h ih = h
after_step-Returns most (stop d) loop h ih = tt
after_step-Returns most (again d m fragmenting) loop h ih = ih d m fragmenting refl h

shorter :
    (d : Connection) (buf full : Text) (incoming : List Text) (n : ℕ)
    → d.buf ≡ drop n buf
    → d.incoming ≡ incoming
    → buf ++ flat incoming ≡ full
    → 2 ≤ n
    → n ≤ length buf
    → length (pending d) < length full
shorter d buf full incoming n left input same lo hi =
    rw (left, input, ← same)
      (omega (
        arith,
        length-append (drop n buf) (flat incoming),
        length-append buf (flat incoming),
        length-drop n buf,
      ))

after_next-Returns :
    (n : Next) (c : Connection) (m : Text) (fragmenting : Bool) (loop : Loop)
    → c.max_message_bytes + 14 < 2 ^ 63
    → length m ≤ c.max_message_bytes
    → Determined c.max_message_bytes (pending c) n
    → ((d : Connection) (m' : Text) (fragmenting' : Bool)
        → d.max_message_bytes ≡ c.max_message_bytes
        → length (pending d) < length (pending c)
        → length m' ≤ c.max_message_bytes
        → Returns c.max_message_bytes (loop d m' fragmenting').0)
    → Returns c.max_message_bytes (after_next n c m fragmenting loop).0
unfolding after_next
after_next-Returns (got f buf incoming) c m fragmenting loop h hm (e, d, same, within) ih =
    let sound : IsSound (pending c) c.max_message_bytes f =
      parse_frame-IsSound (pending c) c.max_message_bytes f (omega arith) e in
    let c1 : Connection = take_frame c buf incoming in
    after_step-Returns c.max_message_bytes (on_frame c1 m fragmenting f) loop
      (on_frame-Fits c1 m fragmenting f hm d sound.within)
      (λ d' m' fr' again_ hm'.
        let (most, left, input, big) = on_frame-again c1 d' m m' fragmenting fr' f again_ in
        ih d' m' fr' most
          (shorter d' buf (pending c) incoming f.consumed left input same
            (ground (arith, sound.progress)) (ground (arith, within)))
          hm')
after_next-Returns (eof buf) c m fragmenting loop h hm d ih = tt
after_next-Returns threw c m fragmenting loop h hm d ih = d

receive_loop-Returns :
    (fuel : ℕ) (c : Connection) (m : Text) (fragmenting : Bool)
    → c.max_message_bytes + 14 < 2 ^ 63
    → length m ≤ c.max_message_bytes
    → length (pending c) < fuel
    → Returns c.max_message_bytes (receive_loop fuel c m fragmenting).0
unfolding receive_loop
receive_loop-Returns zero c m fragmenting h hm hf = absurd (omega arith)
receive_loop-Returns (suc fuel) c m fragmenting h hm hf =
    after_next-Returns (next_frame c.max_message_bytes c.buf c.incoming) c m fragmenting
      (receive_loop fuel) h hm (next_frame-Determined c.max_message_bytes c.buf c.incoming h)
      (λ d m' fr' e shorter hm'.
        rw (← e) (receive_loop-Returns fuel d m' fr' (rw e h) (rw e hm') (omega arith)))

-- Under a limit that leaves room for a header below 2 ^ 63, whatever a peer sends, `receive` returns: the fuel, one round for each byte that it may read, is
-- enough, the parser never throws, and a message that it returns is within the limit.
pub receive-Returns :
    (c : Connection) → c.max_message_bytes + 14 < 2 ^ 63 → Returns c.max_message_bytes (receive c).0
unfolding receive
receive-Returns c h =
    receive_loop-Returns (suc (length (pending c))) c [] false h (omega arith) (omega arith)

-- Under a limit that leaves room for a header below 2 ^ 63, two connections with the same bytes to
-- read, however the network has cut them, receive the same message, send the same frames and are left with the same bytes.
pub receive_chunks :
    (c : Connection) (buf : Text) (incoming : List Text)
    → c.max_message_bytes + 14 < 2 ^ 63
    → buf ++ flat incoming ≡ pending c
    → observe (receive (take_frame c buf incoming)) ≡ observe (receive c)
unfolding receive
receive_chunks c buf incoming h e =
    let fuel : ℕ = suc (length (pending c)) in
    rw e (
      receive_loop-whole fuel (take_frame c buf incoming) [] false h
      ∙ ap (λ b. receive_loop fuel (take_frame c b []) [] false) e
      ∙ sym (receive_loop-whole fuel c [] false h))
