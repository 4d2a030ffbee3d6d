-- ===== src/Tests/Gate.antt =====
-- An ability that is defined twice, and a hook that leaves it alone.
use public_cpp_laravel.Prelude.{
  ◌≡◌, true, false, [], ◌∷◌, none, some, List, Text, codes, text_eq, if◌then◌else◌,
}
use public_cpp_laravel.Gate.{allows, authorize}
use public_cpp_laravel.Gate.Registered.{
  Registration, defines, hooks, adds, register_all, new_gate, allows-register_all,
}

abbrev registered : List (Registration Text)
registered =
    defines (codes "edit") (λ user resource. false)
    ∷ hooks (λ user ability. if text_eq user (codes "root") then some true else none)
    ∷ adds (codes "post") (λ ability user resource. text_eq user resource)
    ∷ defines (codes "edit") (λ user resource. text_eq user resource)
    ∷ []

allows-register_all_example :
    (allows (register_all registered new_gate) (codes "edit") (codes "ann") (codes "ann") ≡ true)
    × (authorize
          (register_all registered new_gate)
          (codes "page")
          (codes "edit")
          (codes "ann")
          (codes "ann")
        ≡ false)
allows-register_all_example =
    allows-register_all registered (codes "page") (codes "edit") (codes "ann") (codes "ann")
