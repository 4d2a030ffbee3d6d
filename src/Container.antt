-- ===== src/Container.antt =====
-- include/container.hpp and include/container_contract.hpp. A type is the text of its mangled name, by
-- which `type_index` compares; `demangle` is the ABI's. A factory is given by what it does with the
-- container: it resolves types, holds a `ContextGuard` over a block, returns or throws. Every operation
-- holds the container's recursive mutex for its whole body.
pub mod Balance
pub mod Once
pub mod Ranked
use mathlib.Core.List.{reverse}
use public_cpp_laravel.Prelude.{
  ℕ, zero, suc, Bool, List, [], ◌∷◌, ◌++◌, Option, none, some, is_some, Text, codes, Dict, lookup,
  insert, text_key,
}

pub data Script (V : Type 0) : Type 0 where
  gives : V → Script V
  throws : Text → Script V
  asks : Text → (V → Script V) → Script V
  within : Text → Script V → (V → Script V) → Script V

-- What the stored factory does: as registered by `bind_erased`, `singleton_erased`, `scoped_erased` and
-- `instance_erased`.
pub data Binding (V : Type 0) : Type 0 where
  transient singleton scoped : Script V → Binding V
  constant : V → Binding V

-- The last type of `building_` comes first.
pub record Container (V : Type 0) : Type 0 where
  pub factories : Dict Text (Binding V)
  pub instances : Dict Text V
  pub scoped_instances : Dict Text V
  pub contextual : Dict Text (Dict Text (Script V))
  pub tags : Dict Text (List (Script V))
  pub building : List Text

-- `unfinished` is a recursion that is deeper than the fuel.
pub data Outcome (A : Type 0) : Type 0 where
  made : A → Outcome A
  threw : Text → Outcome A
  unfinished : Outcome A

abbrev pub Resolver : Type 0 → Type 0
Resolver V = Text → Container V → Outcome V × Container V

abbrev pub without_last : List Text → List Text
without_last [] = []
without_last (t ∷ ts) = ts

module _ {V : Type 0} where
  unfoldable pub bind_erased : Text → Script V → Container V → Container V
  unfolding insert
  bind_erased key factory c = record c { factories = insert key (transient factory) c.factories }

  unfoldable pub singleton_erased : Text → Script V → Container V → Container V
  unfolding insert
  singleton_erased key factory c = record c {
    factories = insert key (singleton factory) c.factories;
  }

  unfoldable pub scoped_erased : Text → Script V → Container V → Container V
  unfolding insert
  scoped_erased key factory c = record c { factories = insert key (scoped factory) c.factories }

  unfoldable pub instance_erased : Text → V → Container V → Container V
  unfolding insert
  instance_erased key obj c = record c {
    instances = insert key obj c.instances;
    factories = insert key (constant obj) c.factories;
  }

  unfoldable pub bound_erased : Text → Container V → Bool
  unfolding lookup
  bound_erased key c = is_some (lookup key c.factories)

  unfoldable pub forget_scoped : Container V → Container V
  forget_scoped c = record c { scoped_instances = [] }

  abbrev pub or_no_overrides : Option (Dict Text (Script V)) → Dict Text (Script V)
  or_no_overrides none = []
  or_no_overrides (some m) = m

  unfoldable pub bind_contextual_erased : Text → Text → Script V → Container V → Container V
  unfolding insert lookup
  bind_contextual_erased consumer dep resolver c = record c {
    contextual =
        insert consumer (insert dep resolver (or_no_overrides (lookup consumer c.contextual)))
          c.contextual;
  }

  abbrev pub or_no_scripts : Option (List (Script V)) → List (Script V)
  or_no_scripts none = []
  or_no_scripts (some fs) = fs

  unfoldable pub tag_erased : Text → Script V → Container V → Container V
  unfolding insert lookup
  tag_erased tag resolver c = record c {
    tags = insert tag (or_no_scripts (lookup tag c.tags) ++ (resolver ∷ [])) c.tags;
  }

  unfoldable pub push_building : Text → Container V → Container V
  push_building t c = record c { building = t ∷ c.building }

  unfoldable pub pop_building : Container V → Container V
  pop_building c = record c { building = without_last c.building }

  -- The resolver that is specific to the type under construction.
  abbrev pub override_in : Text → Dict Text (Dict Text (Script V)) → List Text → Option (Script V)
  override_in key contextual [] = none
  override_in key contextual (t ∷ ts) = lookup key (or_no_overrides (lookup t contextual))

  unfoldable pub override : Text → Container V → Option (Script V)
  unfolding lookup
  override key c = override_in key c.contextual c.building

  -- A value goes on; an exception does not.
  abbrev pub go_on :
      {A B : Type 0}
      → Outcome A × Container V
      → (A → Container V → Outcome B × Container V)
      → Outcome B × Container V
  go_on (made v, c) next = next v c
  go_on (threw what, c) next = (threw what, c)
  go_on (unfinished, c) next = (unfinished, c)

  -- The guard's destructor, which runs on an exception too.
  unfoldable pub leave : Outcome V × Container V → Outcome V × Container V
  unfolding pop_building
  leave (o, c) = (o, pop_building c)

  unfoldable pub exec : Resolver V → Script V → Container V → Outcome V × Container V
  unfolding push_building leave
  exec resolve (gives v) c = (made v, c)
  exec resolve (throws what) c = (threw what, c)
  exec resolve (asks key next) c = go_on (resolve key c) (λ v. exec resolve (next v))
  exec resolve (within t body next) c =
      go_on (leave (exec resolve body (push_building t c))) (λ v. exec resolve (next v))

  -- `instances_[key] = made` and `scoped_[key] = made`.
  abbrev pub set_instance : Text → V → Container V → Outcome V × Container V
  set_instance key v c = (made v, record c { instances = insert key v c.instances })

  abbrev pub set_scoped : Text → V → Container V → Outcome V × Container V
  set_scoped key v c = (made v, record c { scoped_instances = insert key v c.scoped_instances })

  abbrev pub or_make : Option V → Outcome V × Container V → Container V → Outcome V × Container V
  or_make (some v) fresh c = (made v, c)
  or_make none fresh c = fresh

  -- The call of a stored factory.
  unfoldable pub invoke : Resolver V → Text → Binding V → Container V → Outcome V × Container V
  unfolding exec insert lookup
  invoke resolve key (transient factory) c = exec resolve factory c
  invoke resolve key (singleton factory) c =
      or_make (lookup key c.instances) (go_on (exec resolve factory c) (set_instance key)) c
  invoke resolve key (scoped factory) c =
      or_make (lookup key c.scoped_instances) (go_on (exec resolve factory c) (set_scoped key)) c
  invoke resolve key (constant obj) c = (made obj, c)

-- The types of the chain behind the first.
abbrev pub chain_rest : (Text → Text) → List Text → Text
chain_rest demangle [] = []
chain_rest demangle (t ∷ ts) = codes " -> " ++ demangle t ++ chain_rest demangle ts

abbrev pub while_building : (Text → Text) → List Text → Text
while_building demangle [] = []
while_building demangle (t ∷ ts) =
    codes " while building [" ++ demangle t ++ chain_rest demangle ts ++ codes "]"

module _ {V : Type 0} (demangle : Text → Text) where
  unfoldable pub unresolved : Text → Container V → Text
  unresolved key c =
      codes "No binding registered for ["
      ++ demangle key
      ++ codes "]"
      ++ while_building demangle (reverse c.building)

  abbrev pub make_bound :
      Resolver V → Text → Option (Binding V) → Container V → Outcome V × Container V
  make_bound resolve key none c = (threw (unresolved key c), c)
  make_bound resolve key (some b) c = invoke resolve key b c

  abbrev pub make_with :
      Resolver V → Text → Option (Script V) → Container V → Outcome V × Container V
  make_with resolve key none c = make_bound resolve key (lookup key c.factories) c
  make_with resolve key (some resolver) c = exec resolve resolver c

  -- `make_erased`, and `resolve`, whose cast the templates make good. The fuel bounds the calls that
  -- are open at once.
  unfoldable pub make_erased : ℕ → Text → Container V → Outcome V × Container V
  unfolding override invoke exec unresolved lookup
  make_erased zero key c = (unfinished, c)
  make_erased (suc n) key c = make_with (make_erased n) key (override key c) c

  unfoldable pub gather : ℕ → List (Script V) → Container V → Outcome (List V) × Container V
  unfolding exec make_erased
  gather n [] c = (made [], c)
  gather n (f ∷ fs) c =
      go_on (exec (make_erased n) f c)
        (λ v c'. go_on (gather n fs c') (λ vs c''. (made (v ∷ vs), c'')))

  unfoldable pub tagged_erased : ℕ → Text → Container V → Outcome (List V) × Container V
  unfolding gather lookup
  tagged_erased n tag c = gather n (or_no_scripts (lookup tag c.tags)) c

-- The factory of `bind_auto`, `singleton_auto` and `scoped_auto`: `deps` in the order in which the
-- compiler has the arguments evaluated, `build` the constructor.
module _ {V : Type 0} where
  unfoldable pub resolve_all : List Text → (List V → V) → Script V
  resolve_all [] build = gives (build [])
  resolve_all (dep ∷ deps) build = asks dep (λ v. resolve_all deps (λ vs. build (v ∷ vs)))

  unfoldable pub auto_factory : Text → List Text → (List V → V) → Script V
  unfolding resolve_all
  auto_factory t deps build = within t (resolve_all deps build) gives

  -- `c.resolve<Impl>()` as a base: the resolvers of `give` and of `tag`.
  unfoldable pub as_impl : Text → Script V
  as_impl impl = asks impl gives

  -- `when<Consumer>().needs<Dep>().give<Impl>()`.
  unfoldable pub give : Text → Text → Text → Container V → Container V
  unfolding bind_contextual_erased as_impl
  give consumer dep impl c = bind_contextual_erased consumer dep (as_impl impl) c

  unfoldable pub tag_impls : Text → List Text → Container V → Container V
  unfolding tag_erased as_impl
  tag_impls name [] c = c
  tag_impls name (impl ∷ impls) c = tag_impls name impls (tag_erased name (as_impl impl) c)
