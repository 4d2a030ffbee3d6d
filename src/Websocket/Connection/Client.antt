-- ===== src/Websocket/Connection/Client.antt =====
-- What a client that follows RFC 6455 sends: the frames of one message, among control frames.
use public_cpp_laravel.Prelude.{ℕ, ◌≤◌, ◌≡◌, ◌⊎◌, true, false, List, [], ◌∷◌, ◌++◌, length, Text}
use public_cpp_laravel.Websocket.Frame.Wire.{WireFrame, IsWire, wire}

-- A frame that a client may send: masked, and within the server's limit.
pub record IsClient (most : ℕ) (w : WireFrame) : Type 0 where
  pub well_formed : IsWire w
  pub is_masked : w.masked ≡ true
  pub fits : length w.payload ≤ most

-- The frames after the first of a split message: `t` is the text still to come, `ps` the payloads
-- of the pings among them.
pub data Tail (most : ℕ) : List WireFrame → Text → List Text → Type 0 where
  last :
      {w : WireFrame}
      → IsClient most w
      → w.code ≡ 0
      → w.fin ≡ true
      → Tail most (w ∷ []) w.payload []
  more :
      {w : WireFrame} {ws : List WireFrame} {t : Text} {ps : List Text}
      → IsClient most w
      → w.code ≡ 0
      → w.fin ≡ false
      → Tail most ws t ps
      → Tail most (w ∷ ws) (w.payload ++ t) ps
  pinged :
      {w : WireFrame} {ws : List WireFrame} {t : Text} {ps : List Text}
      → IsClient most w
      → w.code ≡ 9
      → Tail most ws t ps
      → Tail most (w ∷ ws) t (w.payload ∷ ps)
  ponged :
      {w : WireFrame} {ws : List WireFrame} {t : Text} {ps : List Text}
      → IsClient most w
      → w.code ≡ 10
      → Tail most ws t ps
      → Tail most (w ∷ ws) t ps

-- A message, whole or split, with control frames before and among its frames.
pub data Message (most : ℕ) : List WireFrame → Text → List Text → Type 0 where
  single :
      {w : WireFrame}
      → IsClient most w
      → (w.code ≡ 1) ⊎ (w.code ≡ 2)
      → w.fin ≡ true
      → Message most (w ∷ []) w.payload []
  split :
      {w : WireFrame} {ws : List WireFrame} {t : Text} {ps : List Text}
      → IsClient most w
      → (w.code ≡ 1) ⊎ (w.code ≡ 2)
      → w.fin ≡ false
      → Tail most ws t ps
      → Message most (w ∷ ws) (w.payload ++ t) ps
  pinged :
      {w : WireFrame} {ws : List WireFrame} {t : Text} {ps : List Text}
      → IsClient most w
      → w.code ≡ 9
      → Message most ws t ps
      → Message most (w ∷ ws) t (w.payload ∷ ps)
  ponged :
      {w : WireFrame} {ws : List WireFrame} {t : Text} {ps : List Text}
      → IsClient most w
      → w.code ≡ 10
      → Message most ws t ps
      → Message most (w ∷ ws) t ps

unfoldable pub wires : List WireFrame → Text
wires [] = []
wires (w ∷ ws) = wire w ++ wires ws

-- The server's pong of RFC 6455.
abbrev pub pong_frame : Text → WireFrame
pong_frame payload = record { fin = true; code = 10; masked = false; mask = []; payload = payload }
