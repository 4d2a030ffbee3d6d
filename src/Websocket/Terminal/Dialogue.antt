-- ===== src/Websocket/Terminal/Dialogue.antt =====
-- The messages of a client, as the application gets them.
use public_cpp_laravel.Prelude.{
  ℕ, zero, suc, ◌+◌, ◌^◌, ◌≤◌, ◌<◌, ◌≡◌, refl, ap, sym, subst, ◌∙◌, Bool, true, false, List, [],
  ◌∷◌, ◌++◌, Option, some, arith, length, append_assoc, Text,
}
use public_cpp_laravel.Websocket.Frame.{to_opcode, parse_frame}
use public_cpp_laravel.Websocket.Frame.Wire.{WireFrame, wire, parsed}
use public_cpp_laravel.Websocket.Connection.{
  Connection, Received, message, closed, eof, stop, echo_close, after_step, on_opcode, receive_loop,
  next_frame, after_next, receive, pending,
}
use public_cpp_laravel.Websocket.Connection.Chunks.{receive_loop-whole}
use public_cpp_laravel.Websocket.Connection.Client.{IsClient, Message, wires}
use public_cpp_laravel.Websocket.Connection.Messages.{holding, round, receive_lem}
use public_cpp_laravel.Websocket.Terminal.{Terminal, after_input, after_receive, run_terminal}

-- The frames of messages within the limit, one after the other, and the texts of these.
pub data Dialogue (most : ℕ) : List WireFrame → List Text → Type 0 where
  silence : Dialogue most [] []
  says :
      {ws more : List WireFrame} {t : Text} {ts ps : List Text}
      → Message most ws t ps
      → length t ≤ most
      → Dialogue most more ts
      → Dialogue most (ws ++ more) (t ∷ ts)

-- The end of what a peer sends: nothing more, or a close frame and whatever follows it.
pub data HangsUp (most : ℕ) : Text → Type 0 where
  gone : HangsUp most []
  closes :
      (w : WireFrame) (rest : Text) → IsClient most w → w.code ≡ 8 → HangsUp most (wire w ++ rest)

wires-append : (ws more : List WireFrame) → wires (ws ++ more) ≡ wires ws ++ wires more
unfolding wires
wires-append [] more = refl
wires-append (w ∷ ws) more =
    ap (λ s. wire w ++ s) (wires-append ws more)
    ∙ sym (append_assoc (wire w) (wires ws) (wires more))

on_opcode-close :
    (c : Connection) (m : Text) (fragmenting : Bool) (w : WireFrame)
    → w.code ≡ 8
    → on_opcode (to_opcode w.code) c m fragmenting (parsed w) ≡ stop (echo_close c w.payload)
unfolding on_opcode to_opcode
on_opcode-close c m fragmenting w e = ground arith

next_frame-nil : (most : ℕ) → next_frame most [] [] ≡ eof []
unfolding next_frame parse_frame
next_frame-nil most = refl

receive_loop-HangsUp :
    (fuel : ℕ) (c : Connection) (rest : Text)
    → HangsUp c.max_message_bytes rest
    → (receive_loop (suc fuel) (holding c rest c.sent) [] false).0 ≡ closed
unfolding receive_loop
receive_loop-HangsUp fuel c _ gone =
    ap (λ n. (after_next n (holding c [] c.sent) [] false (receive_loop fuel)).0)
      (next_frame-nil c.max_message_bytes)
receive_loop-HangsUp fuel c _ (closes w rest cl e) =
    ap (λ o. o.0) (round fuel c w rest [] false c.sent cl)
    ∙ ap (λ s. (after_step s (receive_loop fuel)).0)
        (on_opcode-close (holding c rest c.sent) [] false w e)

receive-HangsUp :
    (c : Connection) (rest : Text)
    → c.max_message_bytes + 14 < 2 ^ 63
    → HangsUp c.max_message_bytes rest
    → pending c ≡ rest
    → (receive c).0 ≡ closed
unfolding receive
receive-HangsUp c rest small h e =
    ap (λ o. o.0) (receive_loop-whole (suc (length (pending c))) c [] false small)
    ∙ receive_loop-HangsUp (length (pending c)) c (pending c)
        (subst (HangsUp c.max_message_bytes) (sym e) h)

module _ {S : Type 0} (on_input : Connection → Text → S → Terminal S)
    (writes : Connection → Text → S → List Text) (next : Text → S → S) where
  -- The application's state after the texts.
  abbrev pub take_in : List Text → S → S
  take_in [] s = s
  take_in (t ∷ ts) s = take_in ts (next t s)

  after_receive-message :
      (o : Received × Connection) (t : Text) (s : S) (loop : Connection → S → Option (Terminal S))
      → o.0 ≡ message t
      → after_receive on_input o s loop ≡ after_input on_input (on_input o.1 t s) loop
  after_receive-message (r, d) t s loop h = ap (λ r. after_receive on_input (r, d) s loop) h

  after_receive-closed :
      (o : Received × Connection) (s : S) (loop : Connection → S → Option (Terminal S))
      → o.0 ≡ closed
      → after_receive on_input o s loop ≡ some (true, o.1, s)
  after_receive-closed (r, d) s loop h = ap (λ r. after_receive on_input (r, d) s loop) h

  -- Over a socket that takes what is sent, under a limit that leaves room for a header below 2 ^ 63, and
  -- however the network cuts the bytes: where a client sends messages within the limit and then closes
  -- or is gone, and `on_input` handles each, writing what it likes, `run_terminal` hands it all of
  -- them, each once and in order, and then ends.
  pub run_terminal-Dialogue :
      ((c : Connection) (t : Text) (s : S)
        → c.writable ≡ true
        → on_input c t s ≡ (true, record c { sent = c.sent ++ writes c t s }, next t s))
      → (n : ℕ) (c : Connection) (ws : List WireFrame) (ts : List Text) (rest : Text) (s : S)
      → c.max_message_bytes + 14 < 2 ^ 63
      → c.writable ≡ true
      → Dialogue c.max_message_bytes ws ts
      → HangsUp c.max_message_bytes rest
      → pending c ≡ wires ws ++ rest
      → length ts < n
      → (d : Connection) × (run_terminal on_input n c s ≡ some (true, d, take_in ts s))
  unfolding run_terminal wires
  run_terminal-Dialogue law zero c ws ts rest s small wr d end e enough = absurd (omega arith)
  run_terminal-Dialogue law (suc n) c _ _ rest s small wr silence end e enough = (
    (receive c).1,
    after_receive-closed (receive c) s (run_terminal on_input n)
        (receive-HangsUp c rest small end e),
  )
  run_terminal-Dialogue law (suc n) c _ _ rest s small wr
        (says {ws = ws} {more = more} {t = t} {ts = ts} {ps = ps} m fits later) end e enough =
      let arrives = receive_lem c ws (wires more ++ rest) t ps small wr m fits (
        e
        ∙ ap (λ b. b ++ rest) (wires-append ws more)
        ∙ append_assoc (wires ws) (wires more) rest) in
      let d : Connection = (receive c).1 in
      let same = ap (λ o. o.1) arrives in
      let limit : d.max_message_bytes ≡ c.max_message_bytes = ap (λ d. d.max_message_bytes) same in
      let answered : Connection = record d { sent = d.sent ++ writes d t s } in
      let (end_state, ended) =
        run_terminal-Dialogue law n answered more ts rest (next t s) (rw limit small)
          (ap (λ d. d.writable) same ∙ wr) (subst (λ k. Dialogue k more ts) (sym limit) later)
          (subst (λ k. HangsUp k rest) (sym limit) end) (ap (λ d. d.buf) same) (omega arith) in
      (
        end_state,
        after_receive-message (receive c) t s (run_terminal on_input n) (ap (λ o. o.0) arrives)
            ∙ ap (λ o. after_input on_input o (run_terminal on_input n))
                (law d t s (ap (λ d. d.writable) same ∙ wr))
            ∙ ended,
      )
