-- ===== src/Tests/Container.antt =====
-- A service that is built from a singleton.
use public_cpp_laravel.Prelude.{
  ℕ, suc, ◌<◌, ◌≡◌, refl, subst, true, Bool-cases, inl, inr, if◌then◌else◌, [], ◌∷◌, List, Option,
  none, some, arith, Text, codes, lookup, insert, text_key, text_eq,
}
use public_cpp_laravel.Container.{
  Script, Binding, Container, Outcome, auto_factory, resolve_all, push_building, pop_building,
  leave, exec, invoke, override, make_erased,
}
use public_cpp_laravel.Container.Balance.{IsSettled, make_erased-IsSettled}
use public_cpp_laravel.Container.Once.{Use, use_all, make_erased-singleton}
use public_cpp_laravel.Container.Ranked.{finished, IsRanked, BindingBelow, make_erased-finished}

abbrev plus_one : List ℕ → ℕ
plus_one [] = 0
plus_one (n ∷ ns) = suc n

abbrev service : Text
service = codes "s"

abbrev clock : Text
clock = codes "c"

abbrev service_binding : Binding ℕ
unfolding auto_factory resolve_all
service_binding = Binding.transient (auto_factory service (clock ∷ []) plus_one)

abbrev clock_binding : Binding ℕ
clock_binding = Binding.singleton (Script.gives 5)

abbrev bound : Container ℕ
bound = record {
  factories = (service, service_binding) ∷ (clock, clock_binding) ∷ [];
  instances = [];
  scoped_instances = [];
  contextual = [];
  tags = [];
  building = [];
}

abbrev ticking : Container ℕ
ticking = record bound { instances = (clock, 5) ∷ [] }

abbrev same_name : Text → Text
same_name t = t

service_made : make_erased same_name 2 service bound ≡ (Outcome.made 6, ticking)
unfolding make_erased override invoke exec leave push_building pop_building auto_factory resolve_all
    lookup insert
service_made = refl

clock_made : make_erased same_name 1 clock bound ≡ (Outcome.made 5, ticking)
unfolding make_erased override invoke exec lookup insert
clock_made = refl

make_erased-IsSettled_example : IsSettled bound (make_erased same_name 2 service bound).1
make_erased-IsSettled_example = make_erased-IsSettled same_name 2 service bound

abbrev uses : List (Use ℕ)
uses = Use.resolves 2 service ∷ Use.forgets ∷ Use.registers clock (Script.gives 9) ∷ []

clock_there : lookup clock bound.factories ≡ some clock_binding
unfolding lookup
clock_there = refl

make_erased-singleton_example :
    make_erased same_name 1 clock (use_all same_name uses ticking)
    ≡ (Outcome.made 5, use_all same_name uses ticking)
make_erased-singleton_example =
    make_erased-singleton same_name 1 0 clock (Script.gives 5) 5 bound ticking uses refl clock_there
      clock_made

abbrev rank : Text → ℕ
rank key = if text_eq service key then 1 else 0

one_binding : (a b : Binding ℕ) → ◌≡◌ {A = Option (Binding ℕ)} (some a) (some b) → a ≡ b
one_binding a b h = cc

bound-IsRanked : IsRanked rank bound
unfolding lookup auto_factory resolve_all
bound-IsRanked = record {
  bindings_below = λ key b h. elim (Bool-cases (text_eq service key)) [
    | inl same ↦
        let low : rank clock < rank key = rw same (omega arith) in
        subst (BindingBelow rank (rank key)) (one_binding service_binding b (rw same at h))
          ((low, λ v. tt), λ v. tt)
    | inr apart ↦ elim (Bool-cases (text_eq clock key)) [
      | inl same ↦
          subst (BindingBelow rank (rank key)) (one_binding clock_binding b (rw (apart, same) at h))
            tt
      | inr gone ↦ let missing : none ≡ some b = rw (apart, gone) at h in absurd (cc)
    ]
  ];
  overrides_below = λ t key s h. absurd (cc);
}

make_erased-finished_example : finished (make_erased same_name 2 service bound).0 ≡ true
make_erased-finished_example =
    make_erased-finished rank same_name 2 service bound (omega arith) bound-IsRanked
