-- ===== src/Container/Ranked.antt =====
-- Bindings without cycles resolve.
use public_cpp_laravel.Prelude.{
  ℕ, zero, suc, ◌<◌, ◌≤◌, ◌≡◌, refl, ap, sym, ◌∙◌, Bool, true, false, List, [], ◌∷◌, Option, none,
  some, Option-cases, inl, inr, arith, Text, lookup, text_key,
}
use public_cpp_laravel.Container.{
  Script, Binding, Container, Outcome, Resolver, push_building, or_no_overrides, go_on, leave, exec,
  set_instance, set_scoped, invoke, override, override_in, make_with, make_erased,
}
use public_cpp_laravel.Container.Balance.{
  IsSettled, pop_building-IsSettled, exec-IsSettled, make_erased-IsSettled,
}

-- The call came to an end: it returned or threw.
abbrev pub finished : {A : Type 0} → Outcome A → Bool
finished (Outcome.made v) = true
finished (Outcome.threw what) = true
finished Outcome.unfinished = false

module _ {V : Type 0} (rank : Text → ℕ) where
  -- All that the script resolves ranks below `r`.
  abbrev pub AsksBelow : ℕ → Script V → Type 0
  AsksBelow r (Script.gives v) = Unit
  AsksBelow r (Script.throws what) = Unit
  AsksBelow r (Script.asks key next) = (rank key < r) × ((v : V) → AsksBelow r (next v))
  AsksBelow r (Script.within t body next) = AsksBelow r body × ((v : V) → AsksBelow r (next v))

  abbrev pub BindingBelow : ℕ → Binding V → Type 0
  BindingBelow r (Binding.transient factory) = AsksBelow r factory
  BindingBelow r (Binding.singleton factory) = AsksBelow r factory
  BindingBelow r (Binding.scoped factory) = AsksBelow r factory
  BindingBelow r (Binding.constant obj) = Unit

  -- No type is needed for its own construction: every binding and every override of a type resolves
  -- types of a lower rank only.
  pub record IsRanked (c : Container V) : Type 0 where
    pub bindings_below :
        (key : Text) (b : Binding V) → lookup key c.factories ≡ some b → BindingBelow (rank key) b
    pub overrides_below :
        (t key : Text) (s : Script V)
        → lookup key (or_no_overrides (lookup t c.contextual)) ≡ some s
        → AsksBelow (rank key) s

  IsRanked-IsSettled : (c d : Container V) → IsRanked c → IsSettled c d → IsRanked d
  IsRanked-IsSettled c d h k = record {
    bindings_below =
        λ key b there. h.bindings_below key b (ap (lookup key) (sym k.factories_same) ∙ there);
    overrides_below = λ t key s there.
        h.overrides_below t key s
          (ap (λ m. lookup key (or_no_overrides (lookup t m))) (sym k.contextual_same) ∙ there);
  }

  push_building-IsRanked : (t : Text) (c : Container V) → IsRanked c → IsRanked (push_building t c)
  unfolding push_building
  push_building-IsRanked t c h = record {
    bindings_below = h.bindings_below;
    overrides_below = h.overrides_below;
  }

  finished-go_on :
      {A B : Type 0} (c : Container V) (o : Outcome A × Container V)
      (next : A → Container V → Outcome B × Container V)
      → IsRanked c
      → IsSettled c o.1
      → finished o.0 ≡ true
      → ((v : A) (d : Container V) → IsRanked d → finished (next v d).0 ≡ true)
      → finished (go_on o next).0 ≡ true
  finished-go_on c (Outcome.made v, d) next ranked settled h k =
      k v d (IsRanked-IsSettled c d ranked settled)
  finished-go_on c (Outcome.threw what, d) next ranked settled h k = refl
  finished-go_on c (Outcome.unfinished, d) next ranked settled h k = absurd (ground (arith, h))

  module _ (resolve : Resolver V) (r : ℕ)
      (settled : (key : Text) (c : Container V) → IsSettled c (resolve key c).1)
      (resolves : (key : Text) (c : Container V)
        → rank key < r
        → IsRanked c
        → finished (resolve key c).0 ≡ true) where
    finished-exec :
        (s : Script V) (c : Container V)
        → AsksBelow r s
        → IsRanked c
        → finished (exec resolve s c).0 ≡ true
    unfolding exec leave
    finished-exec (Script.gives v) c below ranked = refl
    finished-exec (Script.throws what) c below ranked = refl
    finished-exec (Script.asks key next) c below ranked =
        finished-go_on c (resolve key c) (λ v. exec resolve (next v)) ranked (settled key c)
          (resolves key c below.0 ranked) (λ v d. finished-exec (next v) d (below.1 v))
    finished-exec (Script.within t body next) c below ranked =
        let inside = exec resolve body (push_building t c) in
        finished-go_on c (leave inside) (λ v. exec resolve (next v)) ranked
          (pop_building-IsSettled t c inside.1
            (exec-IsSettled resolve settled body (push_building t c)))
          (finished-exec body (push_building t c) below.0 (push_building-IsRanked t c ranked))
          (λ v d. finished-exec (next v) d (below.1 v))

    finished-invoke :
        (key : Text) (b : Binding V) (c : Container V)
        → BindingBelow r b
        → IsRanked c
        → finished (invoke resolve key b c).0 ≡ true
    unfolding invoke
    finished-invoke key (Binding.transient factory) c below ranked =
        finished-exec factory c below ranked
    finished-invoke key (Binding.singleton factory) c below ranked =
        elim (Option-cases (lookup key c.instances)) [
          | inr (v, there) ↦ rw there refl
          | inl missing ↦ rw missing (
              finished-go_on c (exec resolve factory c) (set_instance key) ranked
                (exec-IsSettled resolve settled factory c) (finished-exec factory c below ranked)
                (λ v d h. refl))
        ]
    finished-invoke key (Binding.scoped factory) c below ranked =
        elim (Option-cases (lookup key c.scoped_instances)) [
          | inr (v, there) ↦ rw there refl
          | inl missing ↦ rw missing (
              finished-go_on c (exec resolve factory c) (set_scoped key) ranked
                (exec-IsSettled resolve settled factory c) (finished-exec factory c below ranked)
                (λ v d h. refl))
        ]
    finished-invoke key (Binding.constant obj) c below ranked = refl

    finished-make_with :
        (demangle : Text → Text) (key : Text) (o : Option (Script V)) (b : Option (Binding V))
        (c : Container V)
        → lookup key c.factories ≡ b
        → ((s : Script V) → o ≡ some s → AsksBelow r s)
        → ((f : Binding V) → b ≡ some f → BindingBelow r f)
        → IsRanked c
        → finished (make_with demangle resolve key o c).0 ≡ true
    finished-make_with demangle key (some s) b c h over below ranked =
        finished-exec s c (over s refl) ranked
    finished-make_with demangle key none none c h over below ranked = rw h refl
    finished-make_with demangle key none (some b) c h over below ranked =
        rw h (finished-invoke key b c (below b refl) ranked)

  override_in-below :
      (key : Text) (c : Container V) (ts : List Text) (s : Script V)
      → IsRanked c
      → override_in key c.contextual ts ≡ some s
      → AsksBelow (rank key) s
  override_in-below key c [] s ranked h = absurd (cc)
  override_in-below key c (t ∷ ts) s ranked h = ranked.overrides_below t key s h

  AsksBelow-le : (r r' : ℕ) (s : Script V) → r ≤ r' → AsksBelow r s → AsksBelow r' s
  AsksBelow-le r r' (Script.gives v) h k = tt
  AsksBelow-le r r' (Script.throws what) h k = tt
  AsksBelow-le r r' (Script.asks key next) h k =
      (omega (arith, k.0), λ v. AsksBelow-le r r' (next v) h (k.1 v))
  AsksBelow-le r r' (Script.within t body next) h k =
      (AsksBelow-le r r' body h k.0, λ v. AsksBelow-le r r' (next v) h (k.1 v))

  BindingBelow-le : (r r' : ℕ) (b : Binding V) → r ≤ r' → BindingBelow r b → BindingBelow r' b
  BindingBelow-le r r' (Binding.transient factory) h k = AsksBelow-le r r' factory h k
  BindingBelow-le r r' (Binding.singleton factory) h k = AsksBelow-le r r' factory h k
  BindingBelow-le r r' (Binding.scoped factory) h k = AsksBelow-le r r' factory h k
  BindingBelow-le r r' (Binding.constant obj) h k = tt

  -- Where no type is needed for its own construction, a type resolves, to an object or an exception,
  -- in as many open calls as its rank and one: the recursion ends.
  pub make_erased-finished :
      (demangle : Text → Text) (n : ℕ) (key : Text) (c : Container V)
      → rank key < n
      → IsRanked c
      → finished (make_erased demangle n key c).0 ≡ true
  unfolding make_erased override
  make_erased-finished demangle zero key c low ranked = absurd (omega arith)
  make_erased-finished demangle (suc n) key c low ranked =
      finished-make_with (make_erased demangle n) n (make_erased-IsSettled demangle n)
        (λ k d. make_erased-finished demangle n k d) demangle key (override key c)
        (lookup key c.factories) c refl
        (λ s h.
          AsksBelow-le (rank key) n s (omega arith) (override_in-below key c c.building s ranked h))
        (λ b h. BindingBelow-le (rank key) n b (omega arith) (ranked.bindings_below key b h)) ranked
