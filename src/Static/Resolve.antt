-- ===== src/Static/Resolve.antt =====
-- Only files under the root are served.
use public_cpp_laravel.Prelude.{
  ℕ, ◌≡◌, ◌≢◌, refl, sym, ◌∙◌, true, false, [], ◌∷◌, ◌++◌, Option, none, some, arith, append_assoc,
  Bool-cases, ◌⊎◌, inl, inr, is_empty, ==_iff, Text, codes, text_eq, text_eq→≡, starts_with,
  contains_text,
}
use public_cpp_laravel.Prelude.Numbers.{Numbers}
use public_cpp_laravel.Http.Messages.{Request, response}
use public_cpp_laravel.Static.{
  Files, Options, under, safe_resolve, serve_file, serve_resolved, serve,
}

prefix_of : (p s : Text) → starts_with p s ≡ true → (t : Text) × (s ≡ p ++ t)
unfolding starts_with
prefix_of [] s h = (s, refl)
prefix_of (c ∷ p) [] h = absurd (cc)
prefix_of (c ∷ p) (d ∷ s) h =
    let (t, e) = prefix_of p s (ground (arith, h)) in
    let same : c ≡ d = (==_iff c d).0 (ground (arith, h)) in (t, λ i. sym same i ∷ e i)

-- The base itself, or a path that goes on behind it and a separator.
abbrev pub IsUnder : Files → Text → Text → Type 0
IsUnder fs base path = (path ≡ base) ⊎ ((rest : Text) × (path ≡ base ++ (fs.separator ∷ rest)))

-- What is resolved: not with `..` in it, canonical, and under the canonical root `base`.
abbrev pub Resolved : Files → Text → Text → Text → Text → Type 0
Resolved fs root base rel path =
    (contains_text (codes "..") rel ≡ false)
    × (fs.weakly_canonical (fs.join_path root rel) ≡ some path)
    × IsUnder fs base path

under-IsUnder :
    (sep : ℕ) (base : Text) (full : Option Text)
    → (under sep base full ≡ [])
      ⊎ ((full ≡ some (under sep base full))
          × ((under sep base full ≡ base)
              ⊎ ((rest : Text) × (under sep base full ≡ base ++ (sep ∷ rest)))))
unfolding under
under-IsUnder sep base none = inl refl
under-IsUnder sep base (some full) = elim (Bool-cases (text_eq full base)) [
  | inl same ↦ rw same (inr (refl, inl (text_eq→≡ full base same)))
  | inr other ↦ elim (Bool-cases (starts_with (base ++ (sep ∷ [])) full)) [
    | inl behind ↦
        let (rest, e) = prefix_of (base ++ (sep ∷ [])) full behind in
        rw (other, behind) (inr (refl, inr (rest, e ∙ append_assoc base (sep ∷ []) rest)))
    | inr outside ↦ rw (other, outside) (inl refl)
  ]
]

module _ (fs : Files) (root base rel : Text) (found : fs.weakly_canonical root ≡ some base) where
  safe_resolve-Resolved :
      (safe_resolve fs root rel ≡ []) ⊎ Resolved fs root base rel (safe_resolve fs root rel)
  unfolding safe_resolve
  safe_resolve-Resolved = elim (Bool-cases (contains_text (codes "..") rel)) [
    | inl dots ↦ rw dots (inl refl)
    | inr plain ↦
        rw (plain, found)
          (elim (under-IsUnder fs.separator base (fs.weakly_canonical (fs.join_path root rel))) [
            | inl refused ↦ inl refused
            | inr (full, place) ↦ inr (refl, full, place)
          ])
  ]

  -- Where the root resolves to a path that is not empty: whatever the request, `serve` answers 404, or
  -- what it serves is the file of a path that `rel`, without `..`, resolves to, and that is the
  -- resolved root or goes on behind it and a separator.
  pub serve-Resolved :
      base ≢ []
      → (num : Numbers) (opts : Options) (req : Request)
      → ((serve fs num opts root rel req).status ≡ 404)
        ⊎ ((path : Text) × Resolved fs root base rel path
            × (fs.is_regular_file path ≡ true)
            × (serve fs num opts root rel req ≡ serve_file fs num opts path req))
  unfolding serve serve_resolved response
  serve-Resolved named num opts req = elim safe_resolve-Resolved [
    | inl refused ↦ rw refused (inl refl)
    | inr resolved ↦
        let path : Text = safe_resolve fs root rel in
        elim (Bool-cases (is_empty path)) [
          | inl gone ↦ inl (rw gone refl)
          | inr there ↦ elim (Bool-cases (fs.is_regular_file path)) [
            | inl regular ↦ inr (path, resolved, regular, rw (there, regular) refl)
            | inr other ↦ inl (rw (there, other) refl)
          ]
        ]
  ]
