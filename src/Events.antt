-- ===== src/Events.antt =====
-- include/events.hpp. An event is its type's name and its value; a handler acts on the application's
-- state and says whether it returned or threw, or is put off onto the queue. `subscribe` is `listen` of
-- the object's method.
pub mod Deferred
use public_cpp_laravel.Prelude.{
  ℕ, Bool, true, false, List, [], ◌∷◌, ◌++◌, Option, none, some, length, Text, Dict, lookup, insert,
  text_key,
}
use public_cpp_laravel.Queue.{Job, array_push}

pub data Listener (S E : Type 0) : Type 0 where
  inline : (E → Job S) → Listener S E
  queued : (E → Job S) → Listener S E

abbrev pub Listeners : Type 0 → Type 0 → Type 0
Listeners S E = Dict Text (List (Listener S E))

-- The application's state and the queue's jobs.
abbrev pub World : Type 0 → Type 0
World S = S × List (Job S)

abbrev pub then_call : {S : Type 0} → (World S → Bool × World S) → Bool × World S → Bool × World S
then_call rest (false, w) = (false, w)
then_call rest (true, w) = rest w

module _ {S E : Type 0} where
  abbrev pub or_no_listeners : Option (List (Listener S E)) → List (Listener S E)
  or_no_listeners none = []
  or_no_listeners (some ls) = ls

  unfoldable pub add_listener : Text → Listener S E → Listeners S E → Listeners S E
  unfolding insert lookup
  add_listener event_type l listeners =
      insert event_type (or_no_listeners (lookup event_type listeners) ++ (l ∷ [])) listeners

  unfoldable pub listen : Text → (E → Job S) → Listeners S E → Listeners S E
  unfolding add_listener
  listen event_type handler listeners = add_listener event_type (inline handler) listeners

  unfoldable pub listen_queued : Text → (E → Job S) → Listeners S E → Listeners S E
  unfolding add_listener
  listen_queued event_type handler listeners = add_listener event_type (queued handler) listeners

  unfoldable pub call : Listener S E → E → World S → Bool × World S
  unfolding array_push
  call (inline handler) e (s, jobs) = let (returned, s') = handler e s in (returned, (s', jobs))
  call (queued handler) e (s, jobs) = (true, (s, array_push (handler e) jobs))

  unfoldable pub call_all : List (Listener S E) → E → World S → Bool × World S
  unfolding call
  call_all [] e w = (true, w)
  call_all (l ∷ ls) e w = then_call (call_all ls e) (call l e w)

  unfoldable pub dispatch : Text → E → Listeners S E → World S → Bool × World S
  unfolding call_all lookup
  dispatch event_type e listeners w = call_all (or_no_listeners (lookup event_type listeners)) e w

  unfoldable pub listener_count : Text → Listeners S E → ℕ
  unfolding lookup
  listener_count event_type listeners = length (or_no_listeners (lookup event_type listeners))
