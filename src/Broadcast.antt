-- ===== src/Broadcast.antt =====
-- include/broadcast.hpp. A subscriber acts on the application's state and says whether it returned.
use public_cpp_laravel.Prelude.{
  ℕ, Bool, true, false, List, [], ◌∷◌, ◌++◌, Option, none, some, length, Text, Dict, lookup, insert,
  text_key,
}

abbrev pub Subscriber : Type 0 → Type 0
Subscriber S = Text → Text → S → Bool × S

abbrev pub Channels : Type 0 → Type 0
Channels S = Dict Text (List (Subscriber S))

module _ {S : Type 0} where
  abbrev pub or_no_subscribers : Option (List (Subscriber S)) → List (Subscriber S)
  or_no_subscribers none = []
  or_no_subscribers (some ss) = ss

  unfoldable pub subscribe : Text → Subscriber S → Channels S → Channels S
  unfolding insert lookup
  subscribe channel s channels =
      insert channel (or_no_subscribers (lookup channel channels) ++ (s ∷ [])) channels

  abbrev pub then_tell : (S → Bool × S) → Bool × S → Bool × S
  then_tell rest (false, s) = (false, s)
  then_tell rest (true, s) = rest s

  unfoldable pub tell_all : List (Subscriber S) → Text → Text → S → Bool × S
  tell_all [] event payload s = (true, s)
  tell_all (f ∷ fs) event payload s = then_tell (tell_all fs event payload) (f event payload s)

  unfoldable pub broadcast : Text → Text → Text → Channels S → S → Bool × S
  unfolding tell_all lookup
  broadcast channel event payload channels s =
      tell_all (or_no_subscribers (lookup channel channels)) event payload s

  unfoldable pub subscribers : Text → Channels S → ℕ
  unfolding lookup
  subscribers channel channels = length (or_no_subscribers (lookup channel channels))
