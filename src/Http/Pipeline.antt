-- ===== src/Http/Pipeline.antt =====
-- include/pipeline.hpp and src/pipeline.cpp. A handler may change the request that it is passed by
-- reference, throw, and act on what lies outside, the state `S`.
pub mod Order
use mathlib.Core.List.{reverse}
use public_cpp_laravel.Prelude.{List, [], ◌∷◌, Text}
use public_cpp_laravel.Http.Messages.{Request, Response}

-- How a call ends.
pub data Run (S : Type 0) : Type 0 where
  returned : Response → Request → S → Run S
  threw : S → Run S

abbrev pub Handler : Type 0 → Type 0
Handler S = Request → S → Run S

abbrev pub Middleware : Type 0 → Type 0
Middleware S = Request → Handler S → S → Run S

module _ {S : Type 0} where
  -- The loop of `Pipeline::run`, over the reversed stack.
  unfoldable pub wrap : List (Middleware S) → Handler S → Handler S
  wrap [] next = next
  wrap (mw ∷ rest) next = wrap rest (λ r. mw r next)

  unfoldable pub run : List (Middleware S) → Request → Handler S → S → Run S
  unfolding wrap
  run middlewares req dest = wrap (reverse middlewares) dest req
