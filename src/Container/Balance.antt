-- ===== src/Container/Balance.antt =====
-- What resolving leaves as it is.
use public_cpp_laravel.Prelude.{
  ℕ, zero, suc, ◌≡◌, refl, ap, sym, ◌∙◌, Option, none, some, Option-cases, Bool-cases, inl, inr,
  Text, Dict, lookup, insert, lookup-insert, text_key, text_eq, text_eq_iff,
}
use public_cpp_laravel.Container.{
  Script, Binding, Container, Outcome, Resolver, push_building, pop_building, without_last, go_on,
  leave, exec, set_instance, set_scoped, invoke, override, make_with, make_erased,
}

-- A memo that holds what another one held, and perhaps more.
abbrev pub Extends : {V : Type 0} → Dict Text V → Dict Text V → Type 0
Extends {V} old new = (key : Text) (v : V) → lookup key old ≡ some v → lookup key new ≡ some v

-- What resolving does to the container: the bindings, the overrides, the tags and the stack of the types
-- under construction are as they were, and nothing that was memoised is lost or replaced.
pub record IsSettled {V : Type 0} (c d : Container V) : Type 0 where
  pub factories_same : d.factories ≡ c.factories
  pub contextual_same : d.contextual ≡ c.contextual
  pub tags_same : d.tags ≡ c.tags
  pub building_same : d.building ≡ c.building
  pub instances_kept : Extends c.instances d.instances
  pub scoped_kept : Extends c.scoped_instances d.scoped_instances

module _ {V : Type 0} where
  IsSettled-refl : (c : Container V) → IsSettled c c
  IsSettled-refl c = record {
    factories_same = refl;
    contextual_same = refl;
    tags_same = refl;
    building_same = refl;
    instances_kept = λ k v h. h;
    scoped_kept = λ k v h. h;
  }

  IsSettled-trans : (c d e : Container V) → IsSettled c d → IsSettled d e → IsSettled c e
  IsSettled-trans c d e h k = record {
    factories_same = k.factories_same ∙ h.factories_same;
    contextual_same = k.contextual_same ∙ h.contextual_same;
    tags_same = k.tags_same ∙ h.tags_same;
    building_same = k.building_same ∙ h.building_same;
    instances_kept = λ key v there. k.instances_kept key v (h.instances_kept key v there);
    scoped_kept = λ key v there. k.scoped_kept key v (h.scoped_kept key v there);
  }

  go_on-IsSettled :
      {A B : Type 0} (c : Container V) (o : Outcome A × Container V)
      (next : A → Container V → Outcome B × Container V)
      → IsSettled c o.1
      → ((v : A) (d : Container V) → IsSettled d (next v d).1)
      → IsSettled c (go_on o next).1
  go_on-IsSettled c (Outcome.made v, d) next h k = IsSettled-trans c d (next v d).1 h (k v d)
  go_on-IsSettled c (Outcome.threw what, d) next h k = h
  go_on-IsSettled c (Outcome.unfinished, d) next h k = h

  -- A block under a guard.
  pub pop_building-IsSettled :
      (t : Text) (c d : Container V)
      → IsSettled (push_building t c) d
      → IsSettled c (pop_building d)
  unfolding push_building pop_building
  pop_building-IsSettled t c d h = record {
    factories_same = h.factories_same;
    contextual_same = h.contextual_same;
    tags_same = h.tags_same;
    building_same = ap without_last h.building_same;
    instances_kept = h.instances_kept;
    scoped_kept = h.scoped_kept;
  }

  -- A memo takes a value where it had none.
  insert-Extends :
      (key : Text) (v : V) (old new : Dict Text V)
      → lookup key old ≡ none
      → Extends old new
      → Extends old (insert key v new)
  insert-Extends key v old new missing h k w there = elim (Bool-cases (text_eq key k)) [
    | inl same ↦
        let absent : lookup k old ≡ none =
          ap (λ j. lookup j old) (sym ((text_eq_iff key k).0 same)) ∙ missing in
        absurd (cc)
    | inr apart ↦ lookup-insert key k v new ∙ rw apart (h k w there)
  ]

  set_instance-IsSettled :
      (key : Text) (c : Container V) (o : Outcome V × Container V)
      → lookup key c.instances ≡ none
      → IsSettled c o.1
      → IsSettled c (go_on o (set_instance key)).1
  set_instance-IsSettled key c (Outcome.made v, d) missing h = record {
    factories_same = h.factories_same;
    contextual_same = h.contextual_same;
    tags_same = h.tags_same;
    building_same = h.building_same;
    instances_kept = insert-Extends key v c.instances d.instances missing h.instances_kept;
    scoped_kept = h.scoped_kept;
  }
  set_instance-IsSettled key c (Outcome.threw what, d) missing h = h
  set_instance-IsSettled key c (Outcome.unfinished, d) missing h = h

  set_scoped-IsSettled :
      (key : Text) (c : Container V) (o : Outcome V × Container V)
      → lookup key c.scoped_instances ≡ none
      → IsSettled c o.1
      → IsSettled c (go_on o (set_scoped key)).1
  set_scoped-IsSettled key c (Outcome.made v, d) missing h = record {
    factories_same = h.factories_same;
    contextual_same = h.contextual_same;
    tags_same = h.tags_same;
    building_same = h.building_same;
    instances_kept = h.instances_kept;
    scoped_kept = insert-Extends key v c.scoped_instances d.scoped_instances missing h.scoped_kept;
  }
  set_scoped-IsSettled key c (Outcome.threw what, d) missing h = h
  set_scoped-IsSettled key c (Outcome.unfinished, d) missing h = h

module _ {V : Type 0} (resolve : Resolver V)
    (settled : (key : Text) (c : Container V) → IsSettled c (resolve key c).1) where
  pub exec-IsSettled : (s : Script V) (c : Container V) → IsSettled c (exec resolve s c).1
  unfolding exec leave
  exec-IsSettled (Script.gives v) c = IsSettled-refl c
  exec-IsSettled (Script.throws what) c = IsSettled-refl c
  exec-IsSettled (Script.asks key next) c =
      go_on-IsSettled c (resolve key c) (λ v. exec resolve (next v)) (settled key c)
        (λ v d. exec-IsSettled (next v) d)
  exec-IsSettled (Script.within t body next) c =
      let inside = exec-IsSettled body (push_building t c) in
      go_on-IsSettled c (leave (exec resolve body (push_building t c))) (λ v. exec resolve (next v))
        (pop_building-IsSettled t c (exec resolve body (push_building t c)).1 inside)
        (λ v d. exec-IsSettled (next v) d)

  invoke-IsSettled :
      (key : Text) (b : Binding V) (c : Container V) → IsSettled c (invoke resolve key b c).1
  unfolding invoke
  invoke-IsSettled key (Binding.transient factory) c = exec-IsSettled factory c
  invoke-IsSettled key (Binding.singleton factory) c =
      elim (Option-cases (lookup key c.instances)) [
        | inr (v, there) ↦ rw there (IsSettled-refl c)
        | inl missing ↦ rw missing (
            set_instance-IsSettled key c (exec resolve factory c) missing
              (exec-IsSettled factory c))
      ]
  invoke-IsSettled key (Binding.scoped factory) c =
      elim (Option-cases (lookup key c.scoped_instances)) [
        | inr (v, there) ↦ rw there (IsSettled-refl c)
        | inl missing ↦
            rw missing (
              set_scoped-IsSettled key c (exec resolve factory c) missing
                (exec-IsSettled factory c))
      ]
  invoke-IsSettled key (Binding.constant obj) c = IsSettled-refl c

module _ {V : Type 0} (demangle : Text → Text) where
  make_with-IsSettled :
      (resolve : Resolver V)
      → ((key : Text) (c : Container V) → IsSettled c (resolve key c).1)
      → (key : Text) (o : Option (Script V)) (b : Option (Binding V)) (c : Container V)
      → lookup key c.factories ≡ b
      → IsSettled c (make_with demangle resolve key o c).1
  make_with-IsSettled resolve settled key (some resolver) b c h =
      exec-IsSettled resolve settled resolver c
  make_with-IsSettled resolve settled key none none c h = rw h (IsSettled-refl c)
  make_with-IsSettled resolve settled key none (some b) c h =
      rw h (invoke-IsSettled resolve settled key b c)

  -- Whatever is resolved, and whether it is made, throws or is never done, the container keeps its
  -- bindings, overrides and tags, the stack of types under construction is as it was, and what was
  -- memoised, for good or for the scope, is neither lost nor replaced.
  pub make_erased-IsSettled :
      (n : ℕ) (key : Text) (c : Container V) → IsSettled c (make_erased demangle n key c).1
  unfolding make_erased
  make_erased-IsSettled zero key c = IsSettled-refl c
  make_erased-IsSettled (suc n) key c =
      make_with-IsSettled (make_erased demangle n) (make_erased-IsSettled n) key (override key c)
        (lookup key c.factories) c refl
