-- ===== src/Http/Router/Selection.antt =====
-- Which route answers, and which methods a path allows.
use public_cpp_laravel.Prelude.{
  ◌≡◌, ◌≢◌, ◌↔◌, ◌⊎◌, inl, inr, refl, subst, ◌||◌, true, List, [], ◌∷◌, ◌++◌, Option, none, some,
  arith, Text, text_eq, text_eq_iff, text_eq→≡, Dict, All, Option-cases, Bool-cases,
}
use public_cpp_laravel.Http.Messages.{Request}
use public_cpp_laravel.Http.Router.{
  Regex, Route, Router, match_from, seen, note_method, allowed_from, allowed_methods,
}

append-ne-nil : (out : List Text) (m : Text) → out ++ (m ∷ []) ≢ []
append-ne-nil [] m = cc
append-ne-nil (o ∷ out) m = cc

note_method-eq-nil :
    (found : Option (List Text)) (m : Text) (out : List Text)
    → (note_method found m out ≡ []) ↔ ((out ≡ []) × (found ≡ none))
unfolding note_method
note_method-eq-nil none m out = (λ e. (e, refl), λ h. h.0)
note_method-eq-nil (some groups) m [] = (λ e. absurd (cc), λ h. absurd (cc))
note_method-eq-nil (some groups) m (o ∷ out) =
    (λ e. absurd (ground (arith, append-ne-nil (o ∷ out) m)), λ h. absurd (cc))

seen-append :
    (m v : Text) (out : List Text) → seen m (out ++ (v ∷ [])) ≡ (seen m out || text_eq v m)
unfolding seen
seen-append m v [] = ground arith
seen-append m v (o ∷ out) = ground (arith, seen-append m v out)

seen-note_method :
    (found : Option (List Text)) (v m : Text) (out : List Text)
    → (seen m (note_method found v out) ≡ true) ↔ ((seen m out ≡ true) ⊎ ((v ≡ m) × (found ≢ none)))
unfolding note_method
seen-note_method none v m out = (inl, λ h. elim h [ inl s ↦ s | inr n ↦ absurd (n.1 refl) ])
seen-note_method (some groups) v m out =
    let same : text_eq v m ≡ true → v ≡ m = text_eq→≡ v m in
    let back : v ≡ m → text_eq v m ≡ true = (text_eq_iff v m).1 in
    elim (Bool-cases (seen v out)) [
      | inl old ↦
          rw old (inl, λ h. elim h [ inl s ↦ s | inr n ↦ subst (λ t. seen t out ≡ true) n.0 old ])
      | inr new ↦
          rw (new, seen-append m v out)
            (
              λ e. elim (Bool-cases (seen m out)) [
                | inl s ↦ inl s
                | inr n ↦ inr (same (ground arith), λ z. cc)
              ],
              λ h. elim h [ inl s ↦ rw s | inr n ↦ ground (arith, back n.0) ],
            )
    ]

module _ (rx : Regex) (S : Type 0) where
  open rx use {regex_match}

  -- A route whose expression matches the path.
  abbrev pub Fits : Text → Route rx S → Type 0
  Fits path r = regex_match path r.pattern ≢ none

  abbrev pub Answers : Request → Route rx S → Type 0
  Answers req r = (r.method ≡ req.method) × Fits req.path r

  -- The chosen route stands in the table, answers the request, and no route before it does.
  pub data IsFirst (req : Request) : List (Route rx S) → Route rx S → Type 0 where
    here : {r : Route rx S} {rs : List (Route rx S)} → Answers req r → IsFirst req (r ∷ rs) r
    later :
        {r q : Route rx S} {rs : List (Route rx S)}
        → ¬ Answers req q
        → IsFirst req rs r
        → IsFirst req (q ∷ rs) r

  -- The route that `match_from` gives is the first of the table that answers the request: its method
  -- is the request's and its expression matches the path, and no route before it does both.
  pub match_from-IsFirst :
      (routes : List (Route rx S)) (req : Request) (r : Route rx S) (params : Dict Text Text)
      → match_from rx S routes req ≡ some (r, params)
      → IsFirst req routes r
  unfolding match_from
  match_from-IsFirst [] req r params e = cc
  match_from-IsFirst (q ∷ rs) req r params e = elim (Bool-cases (text_eq q.method req.method)) [
    | inl same ↦ elim (Option-cases (regex_match req.path q.pattern)) [
      | inl miss ↦ later (λ a. a.1 miss) (match_from-IsFirst rs req r params (ground arith))
      | inr (groups, hit) ↦
          let same_route : q ≡ r = ground arith in
          subst (IsFirst req (q ∷ rs)) same_route
            (here ((text_eq_iff q.method req.method).0 same, λ miss. cc))
    ]
    | inr other ↦
        later (λ a. ground (arith, text_eq_iff q.method req.method))
          (match_from-IsFirst rs req r params (ground arith))
  ]

  pub match_from-none :
      (routes : List (Route rx S)) (req : Request)
      → match_from rx S routes req ≡ none
      → All (λ r. ¬ Answers req r) routes
  unfolding match_from
  match_from-none [] req e = tt
  match_from-none (q ∷ rs) req e = elim (Bool-cases (text_eq q.method req.method)) [
    | inl same ↦ elim (Option-cases (regex_match req.path q.pattern)) [
      | inl miss ↦ (λ a. a.1 miss, match_from-none rs req (ground arith))
      | inr (groups, hit) ↦ absurd (ground arith)
    ]
    | inr other ↦ (
      λ a. ground (arith, text_eq_iff q.method req.method),
      match_from-none rs req (ground arith),
    )
  ]

  allowed_from-eq-nil :
      (routes : List (Route rx S)) (path : Text) (out : List Text)
      → (allowed_from rx S routes path out ≡ [])
        ↔ ((out ≡ []) × All (λ r. regex_match path r.pattern ≡ none) routes)
  unfolding allowed_from
  allowed_from-eq-nil [] path out = (λ e. (e, tt), λ h. h.0)
  allowed_from-eq-nil (r ∷ rs) path out =
      let found : Option (List Text) = regex_match path r.pattern in
      let (to, from) = allowed_from-eq-nil rs path (note_method found r.method out) in
      let (shut, open_) = note_method-eq-nil found r.method out in
      (
        λ e. let (o, h) = to e in ((shut o).0, ((shut o).1, h)),
        λ (o, (miss, h)). from (open_ (o, miss), h),
      )

  -- No method is allowed on a path exactly when no route's expression matches it.
  pub allowed_methods-eq-nil :
      (router : Router rx S) (path : Text)
      → (allowed_methods rx S router path ≡ [])
        ↔ All (λ r. regex_match path r.pattern ≡ none) router.routes
  unfolding allowed_methods
  allowed_methods-eq-nil router path =
      let (to, from) = allowed_from-eq-nil router.routes path [] in
      (λ e. (to e).1, λ h. from (refl, h))

  -- Some route with that method has an expression that matches the path.
  abbrev pub Serves : Text → Text → List (Route rx S) → Type 0
  Serves path m [] = ⊥
  Serves path m (r ∷ rs) = ((r.method ≡ m) × (regex_match path r.pattern ≢ none)) ⊎ Serves path m rs

  seen-allowed_from :
      (routes : List (Route rx S)) (path m : Text) (out : List Text)
      → (seen m (allowed_from rx S routes path out) ≡ true)
        ↔ ((seen m out ≡ true) ⊎ Serves path m routes)
  unfolding allowed_from
  seen-allowed_from [] path m out = ground arith
  seen-allowed_from (r ∷ rs) path m out =
      let found : Option (List Text) = regex_match path r.pattern in
      let (to, from) = seen-allowed_from rs path m (note_method found r.method out) in
      let (there, back) = seen-note_method found r.method m out in
      (
        λ e. elim (to e) [
          | inl s ↦ elim (there s) [ inl old ↦ inl old | inr new ↦ inr (inl new) ]
          | inr h ↦ inr (inr h)
        ],
        λ h. from (elim h [
          | inl old ↦ inl (back (inl old))
          | inr serves ↦ elim serves [ inl new ↦ inl (back (inr new)) | inr h' ↦ inr h' ]
        ]),
      )

  -- The allowed methods of a path are those of the routes that match it.
  pub seen-allowed_methods :
      (router : Router rx S) (path m : Text)
      → (seen m (allowed_methods rx S router path) ≡ true) ↔ Serves path m router.routes
  unfolding allowed_methods seen
  seen-allowed_methods router path m =
      let (to, from) = seen-allowed_from router.routes path m [] in
      (λ e. elim (to e) [ inl bad ↦ absurd (cc) | inr h ↦ h ], λ h. from (inr h))
