-- ===== src/Gate/Registered.antt =====
-- What a gate answers after any registrations.
use mathlib.Core.Option
use public_cpp_laravel.Prelude.{
  ◌>>=◌, Bool, false, ◌≡◌, refl, ◌∙◌, List, [], ◌∷◌, ◌++◌, Option, none, some, Bool-cases, inl, inr,
  if◌then◌else◌, Text, codes, Dict, lookup, insert, lookup-insert, text_key, text_eq,
}
use public_cpp_laravel.Gate.{
  Ability, BeforeHook, Policy, Gate, define_ability, before_all, add_policy, hook_decides, or_else,
  call_ability, allows, call_policy, authorize,
}

pub data Registration (U : Type 0) : Type 0 where
  defines : Text → Ability U → Registration U
  hooks : BeforeHook U → Registration U
  adds : Text → Policy U → Registration U

abbrev or_last : {A : Type 0} → Option A → Option A → Option A
or_last none a = a
or_last (some later) a = some later

-- A registration that counts unless a later one does.
or_last-insert :
    {A : Type 0} (later : Option A) (name key : Text) (a : A) (m : Dict Text A)
    → or_last later (lookup name (insert key a m))
      ≡ or_last (or_last later (if text_eq key name then some a else none)) (lookup name m)
or_last-insert (some b) name key a m = refl
or_last-insert none name key a m = elim (Bool-cases (text_eq key name)) [
  | inl same ↦ lookup-insert key name a m ∙ rw same refl
  | inr apart ↦ lookup-insert key name a m ∙ rw apart refl
]

or_last-some :
    {A : Type 0} (later : Option A) (a : A) (old : Option A)
    → or_last later (some a) ≡ or_last (or_last later (some a)) old
or_last-some none a old = refl
or_last-some (some b) a old = refl

or_last-none : {A : Type 0} (o : Option A) → or_last o none ≡ o
or_last-none none = refl
or_last-none (some a) = refl

-- An opinion of a hook, an answer of a callback, and a denial without either.
abbrev pub expected : Option Bool → Option Bool → Bool
expected (some opinion) answer = opinion
expected none (some answer) = answer
expected none none = false

module _ {U : Type 0} where
  abbrev pub register : Registration U → Gate U → Gate U
  register (defines ability callback) g = define_ability ability callback g
  register (hooks hook) g = before_all hook g
  register (adds type p) g = add_policy type p g

  abbrev pub register_all : List (Registration U) → Gate U → Gate U
  register_all [] g = g
  register_all (r ∷ rs) g = register_all rs (register r g)

  -- The last hook, the last definition of the ability, and the last policy of the type.
  abbrev pub last_hook : List (Registration U) → Option (BeforeHook U)
  last_hook [] = none
  last_hook (hooks hook ∷ rs) = or_last (last_hook rs) (some hook)
  last_hook (defines ability callback ∷ rs) = last_hook rs
  last_hook (adds type p ∷ rs) = last_hook rs

  abbrev pub last_ability : Text → List (Registration U) → Option (Ability U)
  last_ability name [] = none
  last_ability name (defines ability callback ∷ rs) =
      or_last (last_ability name rs) (if text_eq ability name then some callback else none)
  last_ability name (hooks hook ∷ rs) = last_ability name rs
  last_ability name (adds type p ∷ rs) = last_ability name rs

  abbrev pub last_policy : Text → List (Registration U) → Option (Policy U)
  last_policy name [] = none
  last_policy name (adds type p ∷ rs) =
      or_last (last_policy name rs) (if text_eq type name then some p else none)
  last_policy name (hooks hook ∷ rs) = last_policy name rs
  last_policy name (defines ability callback ∷ rs) = last_policy name rs

  abbrev pub new_gate : Gate U
  new_gate = record { abilities = []; policies = []; hook = none }

  hook-register_all :
      (rs : List (Registration U)) (g : Gate U)
      → (register_all rs g).hook ≡ or_last (last_hook rs) g.hook
  unfolding define_ability before_all add_policy
  hook-register_all [] g = refl
  hook-register_all (hooks hook ∷ rs) g =
      hook-register_all rs (before_all hook g) ∙ or_last-some (last_hook rs) hook g.hook
  hook-register_all (defines ability callback ∷ rs) g =
      hook-register_all rs (define_ability ability callback g)
  hook-register_all (adds type p ∷ rs) g = hook-register_all rs (add_policy type p g)

  abilities-register_all :
      (name : Text) (rs : List (Registration U)) (g : Gate U)
      → lookup name (register_all rs g).abilities
        ≡ or_last (last_ability name rs) (lookup name g.abilities)
  unfolding define_ability before_all add_policy
  abilities-register_all name [] g = refl
  abilities-register_all name (hooks hook ∷ rs) g =
      abilities-register_all name rs (before_all hook g)
  abilities-register_all name (defines ability callback ∷ rs) g =
      abilities-register_all name rs (define_ability ability callback g)
      ∙ or_last-insert (last_ability name rs) name ability callback g.abilities
  abilities-register_all name (adds type p ∷ rs) g =
      abilities-register_all name rs (add_policy type p g)

  policies-register_all :
      (name : Text) (rs : List (Registration U)) (g : Gate U)
      → lookup name (register_all rs g).policies
        ≡ or_last (last_policy name rs) (lookup name g.policies)
  unfolding define_ability before_all add_policy
  policies-register_all name [] g = refl
  policies-register_all name (hooks hook ∷ rs) g = policies-register_all name rs (before_all hook g)
  policies-register_all name (defines ability callback ∷ rs) g =
      policies-register_all name rs (define_ability ability callback g)
  policies-register_all name (adds type p ∷ rs) g =
      policies-register_all name rs (add_policy type p g)
      ∙ or_last-insert (last_policy name rs) name type p g.policies

  or_else-expected :
      (hook : Option (BeforeHook U)) (ability : Text) (user : U) (b : Bool) (o : Option Bool)
      → b ≡ expected none o
      → or_else (hook_decides hook user ability) b ≡ expected (hook >>= λ h. h user ability) o
  or_else-expected none ability user b o h = h
  or_else-expected (some hook) ability user b o h = decided (hook user ability)
    where
      decided : (d : Option Bool) → or_else d b ≡ expected d o
      decided none = h
      decided (some opinion) = refl

  allows-expected :
      (hook : Option (BeforeHook U)) (callback : Option (Ability U)) (ability : Text) (user : U)
      (resource : Text)
      → or_else (hook_decides hook user ability) (call_ability callback user resource)
        ≡ expected (hook >>= λ h. h user ability) (Option.map (λ f. f user resource) callback)
  allows-expected hook callback ability user resource =
      or_else-expected hook ability user (call_ability callback user resource)
        (Option.map (λ f. f user resource) callback) (answered callback)
    where
      answered :
          (callback : Option (Ability U))
          → call_ability callback user resource
            ≡ expected none (Option.map (λ f. f user resource) callback)
      answered none = refl
      answered (some f) = refl

  authorize-expected :
      (hook : Option (BeforeHook U)) (p : Option (Policy U)) (full ability : Text) (user : U)
      (resource : Text)
      → or_else (hook_decides hook user full) (call_policy p ability user resource)
        ≡ expected (hook >>= λ h. h user full) (Option.map (λ f. f ability user resource) p)
  authorize-expected hook p full ability user resource =
      or_else-expected hook full user (call_policy p ability user resource)
        (Option.map (λ f. f ability user resource) p) (answered p)
    where
      answered :
          (p : Option (Policy U))
          → call_policy p ability user resource
            ≡ expected none (Option.map (λ f. f ability user resource) p)
      answered none = refl
      answered (some f) = refl

  -- Whatever has been registered, and in whatever order, a gate answers as the last hook decides; where
  -- there is none, or it has no opinion, as the last definition of the ability or the last policy of
  -- the type decides; and where there is none of that either, it denies.
  pub allows-register_all :
      (rs : List (Registration U)) (type ability : Text) (user : U) (resource : Text)
      → (allows (register_all rs new_gate) ability user resource
          ≡ expected
              (last_hook rs >>= λ h. h user ability)
              (Option.map (λ f. f user resource) (last_ability ability rs)))
        × (authorize (register_all rs new_gate) type ability user resource
            ≡ expected
                (last_hook rs >>= λ h. h user (type ++ codes "." ++ ability))
                (Option.map (λ f. f ability user resource) (last_policy type rs)))
  unfolding allows authorize lookup
  allows-register_all rs type ability user resource =
      let hook = hook-register_all rs new_gate ∙ or_last-none (last_hook rs) in
      (
        rw
            (
              hook,
              abilities-register_all ability rs new_gate,
              or_last-none (last_ability ability rs),
            )
            (allows-expected (last_hook rs) (last_ability ability rs) ability user resource),
        rw (hook, policies-register_all type rs new_gate, or_last-none (last_policy type rs))
            (authorize-expected (last_hook rs) (last_policy type rs) (type ++ codes "." ++ ability)
              ability user resource),
      )
