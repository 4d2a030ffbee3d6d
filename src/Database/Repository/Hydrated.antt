-- ===== src/Database/Repository/Hydrated.antt =====
-- Rows that are made models, and parts of them.
use public_cpp_laravel.Prelude.{
  ℕ, zero, suc, ◌≡◌, refl, ap, sym, ◌∙◌, List, [], ◌∷◌, Option, some, arith, Option-cases, inl, inr,
  length, take, drop,
}
use public_cpp_laravel.Database.Value.{Row}
use public_cpp_laravel.Database.Repository.{Mapper, hydrate_all}

pub hydrated :
    {D T : Type 0} (mapper : Mapper D T) (r : Row D) (rows : List (Row D)) (ts : List T)
    → hydrate_all mapper (r ∷ rows) ≡ some ts
    → (t : T) × (ts' : List T) × (mapper.hydrate r ≡ some t)
      × (hydrate_all mapper rows ≡ some ts')
      × (ts ≡ t ∷ ts')
unfolding hydrate_all
hydrated mapper r rows ts h = elim (Option-cases (mapper.hydrate r)) [
  | inl failed ↦ absurd (ground (arith, failed, h))
  | inr (t, made) ↦ elim (Option-cases (hydrate_all mapper rows)) [
    | inl failed ↦ absurd (ground (arith, made, failed, h))
    | inr (ts', rest) ↦ (t, ts', made, rest, ground (arith, made, rest, h))
  ]
]

pub hydrate_all-cons :
    {D T : Type 0} (mapper : Mapper D T) (r : Row D) (rows : List (Row D)) (t : T) (ts : List T)
    → mapper.hydrate r ≡ some t
    → hydrate_all mapper rows ≡ some ts
    → hydrate_all mapper (r ∷ rows) ≡ some (t ∷ ts)
unfolding hydrate_all
hydrate_all-cons mapper r rows t ts h k = rw (h, k) refl

module _ {D T : Type 0} (mapper : Mapper D T) where
  hydrate_all-nil : hydrate_all mapper [] ≡ some []
  unfolding hydrate_all
  hydrate_all-nil = refl

  pub length-hydrate_all :
      (rows : List (Row D)) (ts : List T)
      → hydrate_all mapper rows ≡ some ts
      → length ts ≡ length rows
  length-hydrate_all [] ts h = let e = hydrate_all-nil in ground (arith, e, h)
  length-hydrate_all (r ∷ rows) ts h =
      let (t, ts', made, rest, e) = hydrated mapper r rows ts h in
      ap length e ∙ ap suc (length-hydrate_all rows ts' rest)

  pub hydrate_all-drop :
      (n : ℕ) (rows : List (Row D)) (ts : List T)
      → hydrate_all mapper rows ≡ some ts
      → hydrate_all mapper (drop n rows) ≡ some (drop n ts)
  hydrate_all-drop zero rows ts h = h
  hydrate_all-drop (suc n) [] ts h = let e = hydrate_all-nil in h ∙ ap some (no_rows ts (sym h ∙ e))
    where
      no_rows : (ts : List T) → ◌≡◌ {A = Option (List T)} (some ts) (some []) → ts ≡ drop (suc n) ts
      no_rows [] k = refl
      no_rows (t ∷ ts) k = absurd (cc)
  hydrate_all-drop (suc n) (r ∷ rows) ts h =
      let (t, ts', made, rest, e) = hydrated mapper r rows ts h in
      rw e (hydrate_all-drop n rows ts' rest)

  pub hydrate_all-take :
      (n : ℕ) (rows : List (Row D)) (ts : List T)
      → hydrate_all mapper rows ≡ some ts
      → hydrate_all mapper (take n rows) ≡ some (take n ts)
  hydrate_all-take zero rows ts h = hydrate_all-nil
  hydrate_all-take (suc n) [] ts h = let e = hydrate_all-nil in h ∙ ap some (no_rows ts (sym h ∙ e))
    where
      no_rows : (ts : List T) → ◌≡◌ {A = Option (List T)} (some ts) (some []) → ts ≡ take (suc n) ts
      no_rows [] k = refl
      no_rows (t ∷ ts) k = absurd (cc)
  hydrate_all-take (suc n) (r ∷ rows) ts h =
      let (t, ts', made, rest, e) = hydrated mapper r rows ts h in
      rw e (
        hydrate_all-cons mapper r (take n rows) t (take n ts') made
          (hydrate_all-take n rows ts' rest))
