-- ===== src/Websocket/Terminal.antt =====
-- include/websocket_server.hpp: `run_terminal`. `on_input` acts on the connection and on the application's
-- state, and says whether it returned or threw.
pub mod Dialogue
use public_cpp_laravel.Prelude.{ℕ, zero, suc, Bool, true, false, Option, none, some, Text}
use public_cpp_laravel.Websocket.Connection.{
  Connection, Received, message, closed, exception, out_of_fuel, receive,
}

-- Whether the function ended without an exception, the connection and the state.
abbrev pub Terminal : Type 0 → Type 0
Terminal S = Bool × Connection × S

module _ {S : Type 0} (on_input : Connection → Text → S → Terminal S) where
  -- The loop behind a message that was handled.
  abbrev pub after_input : Terminal S → (Connection → S → Option (Terminal S)) → Option (Terminal S)
  after_input (false, c, s) loop = some (false, c, s)
  after_input (true, c, s) loop = loop c s

  abbrev pub after_receive :
      Received × Connection → S → (Connection → S → Option (Terminal S)) → Option (Terminal S)
  after_receive (message t, c) s loop = after_input (on_input c t s) loop
  after_receive (closed, c) s loop = some (true, c, s)
  after_receive (exception, c) s loop = some (false, c, s)
  after_receive (out_of_fuel, c) s loop = none

  -- The fuel bounds the messages.
  unfoldable pub run_terminal : ℕ → Connection → S → Option (Terminal S)
  unfolding receive
  run_terminal zero c s = none
  run_terminal (suc n) c s = after_receive (receive c) s (run_terminal n)
