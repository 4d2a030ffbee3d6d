-- ===== src/Http/Pipeline/Order.antt =====
-- The order in which the middleware runs.
use mathlib.Core.List.{reverse, reverse-cons}
use mathlib.Core.Path.{fun_ext}
use public_cpp_laravel.Prelude.{◌≡◌, refl, sym, ap, ◌∙◌, List, [], ◌∷◌, ◌++◌}
use public_cpp_laravel.Http.Messages.{Request}
use public_cpp_laravel.Http.Pipeline.{Handler, Middleware, wrap, run}

module _ {S : Type 0} where
  -- The onion that a stack means: the first middleware is the outermost.
  abbrev pub onion : List (Middleware S) → Handler S → Handler S
  onion [] dest = dest
  onion (mw ∷ mws) dest = λ r. mw r (onion mws dest)

  wrap-append :
      (xs ys : List (Middleware S)) (next : Handler S)
      → wrap (xs ++ ys) next ≡ wrap ys (wrap xs next)
  unfolding wrap
  wrap-append [] ys next = refl
  wrap-append (x ∷ xs) ys next = wrap-append xs ys (λ r. x r next)

  wrap-reverse :
      (mws : List (Middleware S)) (dest : Handler S) → wrap (reverse mws) dest ≡ onion mws dest
  unfolding wrap
  wrap-reverse [] dest = refl
  wrap-reverse (mw ∷ mws) dest =
      ap (λ l. wrap l dest) (reverse-cons mw mws)
      ∙ wrap-append (reverse mws) (mw ∷ []) dest
      ∙ ap (λ next r. mw r next) (wrap-reverse mws dest)

  -- The pipeline runs its stack as an onion, the first middleware outermost and the handler inmost.
  pub run-onion :
      (mws : List (Middleware S)) (req : Request) (dest : Handler S) (s : S)
      → run mws req dest s ≡ onion mws dest req s
  unfolding run
  run-onion mws req dest s = ap (λ h. h req s) (wrap-reverse mws dest)

  onion-append :
      (xs ys : List (Middleware S)) (dest : Handler S)
      → onion (xs ++ ys) dest ≡ onion xs (onion ys dest)
  onion-append [] ys dest = refl
  onion-append (x ∷ xs) ys dest = ap (λ h r. x r h) (onion-append xs ys dest)

  -- Running two stacks in a row is running the first around the second.
  pub run-append :
      (xs ys : List (Middleware S)) (req : Request) (dest : Handler S) (s : S)
      → run (xs ++ ys) req dest s ≡ run xs req (λ r. run ys r dest) s
  run-append xs ys req dest s =
      run-onion (xs ++ ys) req dest s
      ∙ ap (λ h. h req s) (onion-append xs ys dest)
      ∙ ap (λ h. onion xs h req s) (fun_ext λ r. fun_ext λ t. sym (run-onion ys r dest t))
      ∙ sym (run-onion xs req (λ r. run ys r dest) s)
