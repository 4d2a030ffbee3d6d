-- ===== src/Container/Once.antt =====
-- A singleton is made once.
use public_cpp_laravel.Prelude.{
  ℕ, zero, suc, ◌≡◌, refl, ap, sym, subst, ◌∙◌, true, List, [], ◌∷◌, none, some, Option-cases,
  Bool-cases, inl, inr, Text, lookup, lookup-insert, text_key, text_eq, text_eq_iff,
}
use public_cpp_laravel.Container.{
  Script, Binding, Container, Outcome, singleton_erased, forget_scoped, bind_contextual_erased,
  tag_erased, go_on, exec, set_instance, invoke, override, make_erased,
}
use public_cpp_laravel.Container.Balance.{IsSettled, make_erased-IsSettled}

-- What an application does with the container once its bindings are there.
pub data Use (V : Type 0) : Type 0 where
  resolves : ℕ → Text → Use V
  forgets : Use V
  registers : Text → Script V → Use V
  overrides : Text → Text → Script V → Use V
  tags_as : Text → Script V → Use V

module _ {V : Type 0} (demangle : Text → Text) where
  abbrev pub use_one : Use V → Container V → Container V
  use_one (resolves n key) c = (make_erased demangle n key c).1
  use_one forgets c = forget_scoped c
  use_one (registers key factory) c = singleton_erased key factory c
  use_one (overrides consumer dep resolver) c = bind_contextual_erased consumer dep resolver c
  use_one (tags_as tag resolver) c = tag_erased tag resolver c

  abbrev pub use_all : List (Use V) → Container V → Container V
  use_all [] c = c
  use_all (u ∷ us) c = use_all us (use_one u c)

  -- A singleton that has been made, outside every construction.
  record IsMade (key : Text) (v : V) (c : Container V) : Type 0 where
    factory : Script V
    registered : lookup key c.factories ≡ some (Binding.singleton factory)
    instance_there : lookup key c.instances ≡ some v
    outside : c.building ≡ []

  override-nil : (key : Text) (c : Container V) → c.building ≡ [] → override key c ≡ none
  unfolding override
  override-nil key c h = rw h refl

  make_erased-outside :
      (n : ℕ) (key : Text) (b : Binding V) (c : Container V)
      → c.building ≡ []
      → lookup key c.factories ≡ some b
      → make_erased demangle (suc n) key c ≡ invoke (make_erased demangle n) key b c
  unfolding make_erased
  make_erased-outside n key b c h k = rw (override-nil key c h, k) refl

  use_one-IsMade :
      (u : Use V) (key : Text) (v : V) (c : Container V)
      → IsMade key v c
      → IsMade key v (use_one u c)
  unfolding forget_scoped singleton_erased bind_contextual_erased tag_erased
  use_one-IsMade (resolves n k) key v c h =
      let settled = make_erased-IsSettled demangle n k c in
      record {
        factory = h.factory;
        registered = ap (lookup key) settled.factories_same ∙ h.registered;
        instance_there = settled.instances_kept key v h.instance_there;
        outside = settled.building_same ∙ h.outside;
      }
  use_one-IsMade forgets key v c h = record {
    factory = h.factory;
    registered = h.registered;
    instance_there = h.instance_there;
    outside = h.outside;
  }
  use_one-IsMade (registers k factory) key v c h = elim (Bool-cases (text_eq k key)) [
    | inl same ↦ record {
      factory = factory;
      registered = lookup-insert k key (Binding.singleton factory) c.factories ∙ rw same refl;
      instance_there = h.instance_there;
      outside = h.outside;
    }
    | inr apart ↦ record {
      factory = h.factory;
      registered =
          lookup-insert k key (Binding.singleton factory) c.factories ∙ rw apart h.registered;
      instance_there = h.instance_there;
      outside = h.outside;
    }
  ]
  use_one-IsMade (overrides consumer dep resolver) key v c h = record {
    factory = h.factory;
    registered = h.registered;
    instance_there = h.instance_there;
    outside = h.outside;
  }
  use_one-IsMade (tags_as tag resolver) key v c h = record {
    factory = h.factory;
    registered = h.registered;
    instance_there = h.instance_there;
    outside = h.outside;
  }

  use_all-IsMade :
      (us : List (Use V)) (key : Text) (v : V) (c : Container V)
      → IsMade key v c
      → IsMade key v (use_all us c)
  use_all-IsMade [] key v c h = h
  use_all-IsMade (u ∷ us) key v c h =
      use_all-IsMade us key v (use_one u c) (use_one-IsMade u key v c h)

  abbrev value_or : V → Outcome V × Container V → V
  value_or v (Outcome.made w, c) = w
  value_or v (Outcome.threw what, c) = v
  value_or v (Outcome.unfinished, c) = v

  set_instance-there :
      (key : Text) (v : V) (o : Outcome V × Container V) (c' : Container V)
      → go_on o (set_instance key) ≡ (Outcome.made v, c')
      → lookup key c'.instances ≡ some v
  set_instance-there key v (Outcome.threw what, d) c' h = absurd (cc)
  set_instance-there key v (Outcome.unfinished, d) c' h = absurd (cc)
  set_instance-there key v (Outcome.made w, d) c' h =
      let same : text_eq key key ≡ true = (text_eq_iff key key).1 refl in
      ap (λ o. lookup key o.1.instances) (sym h)
      ∙ lookup-insert key key w d.instances
      ∙ rw same (ap some (ap (value_or w) h))

  instance-there :
      (n : ℕ) (key : Text) (factory : Script V) (v : V) (c c' : Container V)
      → invoke (make_erased demangle n) key (Binding.singleton factory) c ≡ (Outcome.made v, c')
      → lookup key c'.instances ≡ some v
  unfolding invoke
  instance-there n key factory v c c' h = elim (Option-cases (lookup key c.instances)) [
    | inl missing ↦
        set_instance-there key v (exec (make_erased demangle n) factory c) c' (rw missing at h)
    | inr (w, there) ↦
        let now : (Outcome.made w, c) ≡ (Outcome.made v, c') = rw there at h in
        ap (λ o. lookup key o.1.instances) (sym now) ∙ there ∙ ap some (ap (value_or w) now)
  ]

  resolve_made :
      (m : ℕ) (key : Text) (v : V) (c : Container V)
      → IsMade key v c
      → make_erased demangle (suc m) key c ≡ (Outcome.made v, c)
  unfolding invoke
  resolve_made m key v c h =
      make_erased-outside m key (Binding.singleton h.factory) c h.outside h.registered
      ∙ rw (h.instance_there) refl

  -- Once a singleton has been made outside every construction, every later resolution of it gives the
  -- same object and changes nothing, whatever else is resolved, forgotten with the scope, overridden or
  -- tagged in between, and even if a singleton is registered anew under its name.
  pub make_erased-singleton :
      (n m : ℕ) (key : Text) (factory : Script V) (v : V) (c c' : Container V) (us : List (Use V))
      → c.building ≡ []
      → lookup key c.factories ≡ some (Binding.singleton factory)
      → make_erased demangle n key c ≡ (Outcome.made v, c')
      → make_erased demangle (suc m) key (use_all us c') ≡ (Outcome.made v, use_all us c')
  unfolding make_erased
  make_erased-singleton zero m key factory v c c' us outside registered h = absurd (cc)
  make_erased-singleton (suc n) m key factory v c c' us outside registered h =
      let settled : IsSettled c c' =
        subst (λ o. IsSettled c o.1) h (make_erased-IsSettled demangle (suc n) key c) in
      let first : invoke (make_erased demangle n) key (Binding.singleton factory) c
          ≡ (Outcome.made v, c') =
        sym (make_erased-outside n key (Binding.singleton factory) c outside registered) ∙ h in
      resolve_made m key v (use_all us c') (
        use_all-IsMade us key v c' (record {
          factory = factory;
          registered = ap (lookup key) settled.factories_same ∙ registered;
          instance_there = instance-there n key factory v c c' first;
          outside = settled.building_same ∙ outside;
        }))
