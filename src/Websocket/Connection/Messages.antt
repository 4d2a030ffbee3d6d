-- ===== src/Websocket/Connection/Messages.antt =====
-- What `receive` makes of what a client sends.
use public_cpp_laravel.Prelude.{
  ℕ, zero, suc, ◌+◌, ◌^◌, ◌≤◌, ◌<◌, ◌≡◌, refl, ap, ◌∙◌, ◌⊎◌, Bool, true, false, List, [], ◌∷◌, ◌++◌,
  arith, length, drop-length, length-append, append_assoc, append-nil, map, All, Text,
}
use public_cpp_laravel.Websocket.Frame.{to_opcode, encode_pong}
use public_cpp_laravel.Websocket.Frame.Wire.{WireFrame, wire, parsed}
use public_cpp_laravel.Websocket.Frame.RoundTrip.{parse_frame_lem}
use public_cpp_laravel.Websocket.Connection.{
  Connection, got, next_frame, deliver, again, on_frame, on_opcode, send_control, Received, message,
  after_step, after_next, receive_loop, receive, pending,
}
use public_cpp_laravel.Websocket.Connection.Chunks.{observe, receive_loop-whole}
use public_cpp_laravel.Websocket.Connection.Client.{IsClient, Tail, Message, wires, pong_frame}

-- A connection with `buf` to read, all of it arrived, and `out` sent.
abbrev pub holding : Connection → Text → List Text → Connection
holding c buf out = record c { buf = buf; incoming = []; sent = out }

next_frame-wire :
    (most : ℕ) (w : WireFrame) (rest : Text)
    → IsClient most w
    → next_frame most (wire w ++ rest) [] ≡ got (parsed w) (wire w ++ rest) []
unfolding next_frame
next_frame-wire most w rest h = rw (parse_frame_lem w rest most h.well_formed h.fits)

on_frame-client :
    (c : Connection) (w : WireFrame) (rest m : Text) (fragmenting : Bool)
    → c.buf ≡ wire w ++ rest
    → w.masked ≡ true
    → on_frame c m fragmenting (parsed w)
      ≡ on_opcode (to_opcode w.code) (record c { buf = rest }) m fragmenting (parsed w)
unfolding on_frame
on_frame-client c w rest m fragmenting e h = ground (arith, drop-length (wire w) rest)

-- One round over a client's frame at the front of the buffer.
pub round :
    (fuel : ℕ) (c : Connection) (w : WireFrame) (rest m : Text) (fragmenting : Bool)
    (out : List Text)
    → IsClient c.max_message_bytes w
    → receive_loop (suc fuel) (holding c (wire w ++ rest) out) m fragmenting
      ≡ after_step
          (on_opcode (to_opcode w.code) (holding c rest out) m fragmenting (parsed w))
          (receive_loop fuel)
unfolding receive_loop
round fuel c w rest m fragmenting out h =
    let start : Connection = holding c (wire w ++ rest) out in
    let found : next_frame c.max_message_bytes (wire w ++ rest) []
        ≡ got (parsed w) (wire w ++ rest) [] =
      next_frame-wire c.max_message_bytes w rest h in
    ap (λ n. after_next n start m fragmenting (receive_loop fuel)) found
    ∙ ap (λ s. after_step s (receive_loop fuel))
        (on_frame-client start w rest m fragmenting refl h.is_masked)

-- The answer to a ping.
send_control-writable :
    (c : Connection) (buf out : Text) (sent : List Text)
    → c.writable ≡ true
    → send_control (holding c buf sent) out ≡ holding c buf (sent ++ (out ∷ []))
unfolding send_control
send_control-writable c buf out sent h = ground arith

-- Control frames: the message in progress is kept.
on_opcode-ping :
    (c : Connection) (buf m : Text) (fragmenting : Bool) (sent : List Text) (w : WireFrame)
    → c.writable ≡ true
    → w.code ≡ 9
    → on_opcode (to_opcode w.code) (holding c buf sent) m fragmenting (parsed w)
      ≡ again (holding c buf (sent ++ (encode_pong w.payload ∷ []))) m fragmenting
unfolding on_opcode to_opcode
on_opcode-ping c buf m fragmenting sent w h e =
    ground (arith, send_control-writable c buf (encode_pong w.payload) sent)

on_opcode-pong :
    (c : Connection) (m : Text) (fragmenting : Bool) (w : WireFrame)
    → w.code ≡ 10
    → on_opcode (to_opcode w.code) c m fragmenting (parsed w) ≡ again c m fragmenting
unfolding on_opcode to_opcode
on_opcode-pong c m fragmenting w e = ground arith

on_opcode-last :
    (c : Connection) (m : Text) (w : WireFrame)
    → w.code ≡ 0
    → w.fin ≡ true
    → length m + length w.payload ≤ c.max_message_bytes
    → on_opcode (to_opcode w.code) c m true (parsed w) ≡ deliver (m ++ w.payload) c
unfolding on_opcode to_opcode
on_opcode-last c m w e f h = ground arith

on_opcode-more :
    (c : Connection) (m : Text) (w : WireFrame)
    → w.code ≡ 0
    → w.fin ≡ false
    → length m + length w.payload ≤ c.max_message_bytes
    → on_opcode (to_opcode w.code) c m true (parsed w) ≡ again c (m ++ w.payload) true
unfolding on_opcode to_opcode
on_opcode-more c m w e f h = ground arith

on_opcode-single :
    (c : Connection) (w : WireFrame)
    → (w.code ≡ 1) ⊎ (w.code ≡ 2)
    → w.fin ≡ true
    → on_opcode (to_opcode w.code) c [] false (parsed w) ≡ deliver w.payload c
unfolding on_opcode to_opcode
on_opcode-single c w e f = ground arith

on_opcode-split :
    (c : Connection) (w : WireFrame)
    → (w.code ≡ 1) ⊎ (w.code ≡ 2)
    → w.fin ≡ false
    → on_opcode (to_opcode w.code) c [] false (parsed w) ≡ again c w.payload true
unfolding on_opcode to_opcode
on_opcode-split c w e f = ground arith

-- The result of reading the frames `ws` with `rest` behind them.
abbrev Reads :
    Connection → ℕ → List WireFrame → Text → List Text → Text → Bool → Text → List Text → Type 0
Reads c fuel ws rest out m fragmenting t ps =
    receive_loop fuel (holding c (wires ws ++ rest) out) m fragmenting
    ≡ (message (m ++ t), holding c rest (out ++ map encode_pong ps))

-- A round that goes on, with what the later rounds do.
round-again :
    (fuel : ℕ) (c : Connection) (w : WireFrame) (ws : List WireFrame) (rest m m' : Text)
    (fragmenting fragmenting' : Bool) (out out' : List Text) {r : Received × Connection}
    → IsClient c.max_message_bytes w
    → on_opcode (to_opcode w.code) (holding c (wires ws ++ rest) out) m fragmenting (parsed w)
      ≡ again (holding c (wires ws ++ rest) out') m' fragmenting'
    → receive_loop fuel (holding c (wires ws ++ rest) out') m' fragmenting' ≡ r
    → receive_loop (suc fuel) (holding c (wires (w ∷ ws) ++ rest) out) m fragmenting ≡ r
unfolding wires after_step
round-again fuel c w ws rest m m' fr fr' out out' h step later =
    rw (append_assoc (wire w) (wires ws) rest) (
      round fuel c w (wires ws ++ rest) m fr out h
      ∙ ap (λ s. after_step s (receive_loop fuel)) step
      ∙ later)

round-deliver :
    (fuel : ℕ) (c : Connection) (w : WireFrame) (rest m t : Text) (fragmenting : Bool)
    (out : List Text)
    → IsClient c.max_message_bytes w
    → on_opcode (to_opcode w.code) (holding c rest out) m fragmenting (parsed w)
      ≡ deliver t (holding c rest out)
    → receive_loop (suc fuel) (holding c (wires (w ∷ []) ++ rest) out) m fragmenting
      ≡ (message t, holding c rest out)
unfolding wires after_step
round-deliver fuel c w rest m t fr out h step =
    rw (append-nil (wire w))
      (round fuel c w rest m fr out h ∙ ap (λ s. after_step s (receive_loop fuel)) step)

Tail-length :
    {most : ℕ} {ws : List WireFrame} {t : Text} {ps : List Text} → Tail most ws t ps → 0 < length ws
Tail-length (Tail.last cl e f) = omega arith
Tail-length (Tail.more cl e f tl) = omega arith
Tail-length (Tail.pinged cl e tl) = omega arith
Tail-length (Tail.ponged cl e tl) = omega arith

Tail-Reads :
    (c : Connection) (fuel : ℕ) (ws : List WireFrame) (rest m t : Text) (out ps : List Text)
    → c.writable ≡ true
    → Tail c.max_message_bytes ws t ps
    → length ws ≤ fuel
    → length m + length t ≤ c.max_message_bytes
    → Reads c fuel ws rest out m true t ps
Tail-Reads c zero ws rest m t out ps wr tl h s = absurd (omega (arith, Tail-length tl))
Tail-Reads c (suc fuel) ws rest m t out ps wr (Tail.last {w = w} cl e f) h s = rw append-nil (
    round-deliver fuel c w rest m (m ++ w.payload) true out cl
      (on_opcode-last (holding c rest out) m w e f s))
Tail-Reads c (suc fuel) ws rest m t out ps wr (Tail.more {w = w} {ws = ws'} {t = t'} cl e f tl) h
      s =
    let len = length-append w.payload t' in
    round-again fuel c w ws' rest m (m ++ w.payload) true true out out cl
      (on_opcode-more (holding c (wires ws' ++ rest) out) m w e f (omega (arith, len)))
      (rw (← append_assoc m w.payload t') (
        Tail-Reads c fuel ws' rest (m ++ w.payload) t' out ps wr tl (omega arith)
          (omega (arith, len, length-append m w.payload))))
Tail-Reads c (suc fuel) ws rest m t out ps wr (Tail.pinged {w = w} {ws = ws'} {ps = ps'} cl e tl) h
      s =
    let out' : List Text = out ++ (encode_pong w.payload ∷ []) in
    round-again fuel c w ws' rest m m true true out out' cl
      (on_opcode-ping c (wires ws' ++ rest) m true out w wr e)
      (rw (append_assoc out (encode_pong w.payload ∷ []) (map encode_pong ps')) at
        (Tail-Reads c fuel ws' rest m t out' ps' wr tl (omega arith) s))
Tail-Reads c (suc fuel) ws rest m t out ps wr (Tail.ponged {w = w} {ws = ws'} cl e tl) h s =
    round-again fuel c w ws' rest m m true true out out cl
      (on_opcode-pong (holding c (wires ws' ++ rest) out) m true w e)
      (Tail-Reads c fuel ws' rest m t out ps wr tl (omega arith) s)

Message-length :
    {most : ℕ} {ws : List WireFrame} {t : Text} {ps : List Text}
    → Message most ws t ps
    → 0 < length ws
Message-length (Message.single cl e f) = omega arith
Message-length (Message.split cl e f tl) = omega arith
Message-length (Message.pinged cl e ms) = omega arith
Message-length (Message.ponged cl e ms) = omega arith

Message-Reads :
    (c : Connection) (fuel : ℕ) (ws : List WireFrame) (rest t : Text) (out ps : List Text)
    → c.writable ≡ true
    → Message c.max_message_bytes ws t ps
    → length ws ≤ fuel
    → length t ≤ c.max_message_bytes
    → Reads c fuel ws rest out [] false t ps
Message-Reads c zero ws rest t out ps wr ms h s = absurd (omega (arith, Message-length ms))
Message-Reads c (suc fuel) ws rest t out ps wr (Message.single {w = w} cl e f) h s = rw append-nil (
    round-deliver fuel c w rest [] w.payload false out cl
      (on_opcode-single (holding c rest out) w e f))
Message-Reads c (suc fuel) ws rest t out ps wr (Message.split {w = w} {ws = ws'} {t = t'} cl e f tl)
      h s =
    round-again fuel c w ws' rest [] w.payload false true out out cl
      (on_opcode-split (holding c (wires ws' ++ rest) out) w e f)
      (Tail-Reads c fuel ws' rest w.payload t' out ps wr tl (omega arith)
        (omega (arith, length-append w.payload t')))
Message-Reads c (suc fuel) ws rest t out ps wr
      (Message.pinged {w = w} {ws = ws'} {ps = ps'} cl e ms) h s =
    let out' : List Text = out ++ (encode_pong w.payload ∷ []) in
    round-again fuel c w ws' rest [] [] false false out out' cl
      (on_opcode-ping c (wires ws' ++ rest) [] false out w wr e)
      (rw (append_assoc out (encode_pong w.payload ∷ []) (map encode_pong ps')) at
        (Message-Reads c fuel ws' rest t out' ps' wr ms (omega arith) s))
Message-Reads c (suc fuel) ws rest t out ps wr (Message.ponged {w = w} {ws = ws'} cl e ms) h s =
    round-again fuel c w ws' rest [] [] false false out out cl
      (on_opcode-pong (holding c (wires ws' ++ rest) out) [] false w e)
      (Message-Reads c fuel ws' rest t out ps wr ms (omega arith) s)

length-wires : (ws : List WireFrame) → length ws ≤ length (wires ws)
unfolding wires wire
length-wires [] = omega arith
length-wires (w ∷ ws) = omega (arith, length-append (wire w) (wires ws), length-wires ws)

-- What `receive` returns, with the pongs as the code encodes them.
pub receive_lem :
    (c : Connection) (ws : List WireFrame) (rest t : Text) (ps : List Text)
    → c.max_message_bytes + 14 < 2 ^ 63
    → c.writable ≡ true
    → Message c.max_message_bytes ws t ps
    → length t ≤ c.max_message_bytes
    → pending c ≡ wires ws ++ rest
    → observe (receive c)
      ≡ (message t, record c { buf = rest; incoming = []; sent = c.sent ++ map encode_pong ps })
unfolding receive
receive_lem c ws rest t ps h wr ms s e =
    let fuel : ℕ = suc (length (pending c)) in
    receive_loop-whole fuel c [] false h
    ∙ ap (λ b. receive_loop fuel (holding c b c.sent) [] false) e
    ∙ Message-Reads c fuel ws rest t c.sent ps wr ms
        (omega (arith, ap length e, length-append (wires ws) rest, length-wires ws)) s

encode_pong-wire : (p : Text) → length p ≤ 125 → encode_pong p ≡ wire (pong_frame p)
unfolding encode_pong wire
encode_pong-wire p h = ground arith

map-pong_frame :
    (ps : List Text)
    → All (λ p. length p ≤ 125) ps
    → map encode_pong ps ≡ map (λ p. wire (pong_frame p)) ps
map-pong_frame [] h = refl
map-pong_frame (p ∷ ps) h = λ i. encode_pong-wire p h.0 i ∷ map-pong_frame ps h.1 i

-- A client's message within the limit, which leaves room for a header below 2 ^ 63, whose pings have
-- at most 125 bytes, as RFC 6455 asks, arrives whole: over a socket that takes what is sent, and
-- however the network cuts the bytes, `receive` returns the payloads of its frames joined, each ping
-- before its end is answered by an unmasked pong frame with the ping's payload, in order, and the bytes
-- behind it stay to be read.
pub receive-Message :
    (c : Connection) (ws : List WireFrame) (rest t : Text) (ps : List Text)
    → c.max_message_bytes + 14 < 2 ^ 63
    → c.writable ≡ true
    → Message c.max_message_bytes ws t ps
    → length t ≤ c.max_message_bytes
    → All (λ p. length p ≤ 125) ps
    → pending c ≡ wires ws ++ rest
    → observe (receive c) ≡ (
      message t,
      record c { buf = rest; incoming = []; sent = c.sent ++ map (λ p. wire (pong_frame p)) ps },
    )
receive-Message c ws rest t ps h wr ms s short e =
    receive_lem c ws rest t ps h wr ms s e
    ∙ ap (λ pongs. (message t, record c { buf = rest; incoming = []; sent = c.sent ++ pongs }))
        (map-pong_frame ps short)
