-- ===== src/Gate.antt =====
-- include/gate.hpp. Users, abilities and hooks are the application's; a callback returns.
pub mod Registered
use public_cpp_laravel.Prelude.{
  Bool, true, false, not, List, [], ◌∷◌, ◌++◌, Option, none, some, ◌>>=◌, Text, codes, Dict, lookup,
  insert, text_key,
}

-- By user and resource.
abbrev pub Ability : Type 0 → Type 0
Ability U = U → Text → Bool

-- By user and ability; `none` is no opinion.
abbrev pub BeforeHook : Type 0 → Type 0
BeforeHook U = U → Text → Option Bool

-- `Policy::allows`, by ability, user and resource.
abbrev pub Policy : Type 0 → Type 0
Policy U = Text → U → Text → Bool

pub record Gate (U : Type 0) : Type 0 where
  pub abilities : Dict Text (Ability U)
  pub policies : Dict Text (Policy U)
  pub hook : Option (BeforeHook U)

abbrev pub or_else : Option Bool → Bool → Bool
or_else none b = b
or_else (some decision) b = decision

module _ {U : Type 0} where
  unfoldable pub define_ability : Text → Ability U → Gate U → Gate U
  unfolding insert
  define_ability ability callback g = record g { abilities = insert ability callback g.abilities }

  unfoldable pub before_all : BeforeHook U → Gate U → Gate U
  before_all hook g = record g { hook = some hook }

  unfoldable pub add_policy : Text → Policy U → Gate U → Gate U
  unfolding insert
  add_policy type p g = record g { policies = insert type p g.policies }

  abbrev pub hook_decides : Option (BeforeHook U) → U → Text → Option Bool
  hook_decides none user ability = none
  hook_decides (some hook) user ability = hook user ability

  abbrev pub call_ability : Option (Ability U) → U → Text → Bool
  call_ability none user resource = false
  call_ability (some callback) user resource = callback user resource

  unfoldable pub allows : Gate U → Text → U → Text → Bool
  unfolding lookup
  allows g ability user resource =
      or_else (hook_decides g.hook user ability)
        (call_ability (lookup ability g.abilities) user resource)

  unfoldable pub denies : Gate U → Text → U → Text → Bool
  unfolding allows
  denies g ability user resource = not (allows g ability user resource)

  abbrev pub call_policy : Option (Policy U) → Text → U → Text → Bool
  call_policy none ability user resource = false
  call_policy (some p) ability user resource = p ability user resource

  unfoldable pub authorize : Gate U → Text → Text → U → Text → Bool
  unfolding lookup
  authorize g type ability user resource =
      or_else (hook_decides g.hook user (type ++ codes "." ++ ability))
        (call_policy (lookup type g.policies) ability user resource)
