-- ===== src/View/Shows.antt =====
-- Such templates are rendered to their pages.
use public_cpp_laravel.Prelude.{
  ℕ, zero, suc, ◌+◌, ◌-◌, ◌^◌, ◌≤◌, ◌<◌, ◌≡◌, refl, ap, sym, subst, ◌∙◌, true, false, [], ◌∷◌, ◌++◌,
  append_assoc, append-nil, Option, some, leb, ◌==◌, length, take, drop, drop-length, take-length,
  length-append, Text, codes, strip_left, strip_right, trim, NoBlank, Lacks, arith,
}
use public_cpp_laravel.View.{View, var, escape, blank}
use public_cpp_laravel.View.Escape.{markup}
use public_cpp_laravel.View.Search.{npos, add_word, sub_word, find, index_from, substr}
use public_cpp_laravel.View.Render.{
  Renderer, Sections, interpolation_at, next_at, directive_at, scan, render_impl,
}
use public_cpp_laravel.View.Positions.{
  find_text-Lacks, find-behind, find-Lacks, next_at-interpolation, find-shows, find-closing,
  drop-behind, sub_word-small, add_word-small,
}
use public_cpp_laravel.View.Template.{
  Template, text_of, page_of, own_text, IsTemplate, rounds, markup-page_of, find_text-raw,
  text_of-Lacks, ends, shows,
}

strip_right-padded :
    (name : Text) → NoBlank blank name → strip_right blank (name ++ codes " ") ≡ name
unfolding strip_right
strip_right-padded [] h = refl
strip_right-padded (c ∷ name) h = rw (strip_right-padded name h.1) (ground (arith, h.0))

trim-padded :
    (name : Text) → NoBlank blank name → trim blank (codes " " ++ (name ++ codes " ")) ≡ name
unfolding trim strip_left strip_right
trim-padded [] h = refl
trim-padded (c ∷ name) h = rw (h.0) (strip_right-padded (c ∷ name) h)

substr-padded :
    (before name rest : Text)
    → substr
        (before ++ (codes "{{ " ++ (name ++ (codes " }}" ++ rest))))
        (length before + 2)
        (length name + 2)
      ≡ codes " " ++ (name ++ codes " ")
unfolding substr
substr-padded before name rest =
    let padded : Text = codes " " ++ (name ++ codes " ") in
    let size : length name + 2 ≡ length padded = omega (arith, length-append name (codes " ")) in
    let split : codes " " ++ (name ++ (codes " }}" ++ rest)) ≡ padded ++ (codes "}}" ++ rest) =
      ap (λ s. codes " " ++ s) (sym (append_assoc name (codes " ") (codes "}}" ++ rest))) in
    ap (take (length name + 2))
      (drop-behind 2 before (codes "{{ " ++ (name ++ (codes " }}" ++ rest))) ∙ split)
    ∙ ap (λ n. take n (padded ++ (codes "}}" ++ rest))) size
    ∙ take-length padded (codes "}}" ++ rest)

-- A value is shown escaped, and the loop goes on behind it.
interpolation_at-shows :
    (ctx : View) (before name rest : Text)
    → Lacks b'}' name
    → NoBlank blank name
    → length before + (length name + 6) < 2 ^ 63
    → interpolation_at
        (before ++ (codes "{{ " ++ (name ++ (codes " }}" ++ rest))))
        ctx
        (length before)
      ≡ some (escape (var name ctx), length before + (length name + 6))
unfolding interpolation_at
interpolation_at-shows ctx before name rest h clean small =
    let cut : sub_word (length before + (length name + 4)) (length before + 2) ≡ length name + 2 =
      sub_word-small _ _ (omega arith) (omega arith) ∙ omega arith in
    let on : add_word (length before + (length name + 4)) 2 ≡ length before + (length name + 6) =
      add_word-small _ _ (omega arith) ∙ omega arith in
    rw
      (
        find-closing before name rest h,
        cut,
        on,
        substr-padded before name rest,
        trim-padded name clean,
      )
      refl

substr-plain :
    (before p s : Text)
    → substr (before ++ (p ++ s)) (length before) (length before + length p - length before) ≡ p
unfolding substr
substr-plain before p s =
    let size : length before + length p - length before ≡ length p = omega arith in
    ap (λ n. take n (drop (length before) (before ++ (p ++ s)))) size
    ∙ ap (take (length p)) (drop-length before (p ++ s))
    ∙ take-length p s

length-shows :
    (before p name rest : Text)
    → length (before ++ (p ++ (codes "{{ " ++ (name ++ (codes " }}" ++ rest)))))
      ≡ length before + (length p + (3 + (length name + (3 + length rest))))
length-shows before p name rest = omega (
  arith,
  length-append before (p ++ (codes "{{ " ++ (name ++ (codes " }}" ++ rest)))),
  length-append p (codes "{{ " ++ (name ++ (codes " }}" ++ rest))),
  length-append name (codes " }}" ++ rest),
)

module _ (r : Renderer) (partials : Text → Text) (ctx : View) (sections : Option Sections) where
  -- The three ways of a round.
  scan-over :
      (n : ℕ) (tpl : Text) (i : ℕ) (out : Text)
      → leb (length tpl) i ≡ true
      → scan r partials (suc n) tpl ctx sections i out ≡ some out
  unfolding scan
  scan-over n tpl i out h = rw (scan, h) refl

  scan-rest :
      (n : ℕ) (tpl : Text) (i : ℕ) (out : Text)
      → leb (length tpl) i ≡ false
      → (next_at tpl i == npos) ≡ true
      → scan r partials (suc n) tpl ctx sections i out ≡ some (out ++ drop i tpl)
  unfolding scan
  scan-rest n tpl i out h k = rw (scan, h, k) refl

  pub scan-next :
      (n : ℕ) (tpl : Text) (i : ℕ) (out piece : Text) (j : ℕ)
      → leb (length tpl) i ≡ false
      → (next_at tpl i == npos) ≡ false
      → directive_at r partials tpl ctx sections i (next_at tpl i) ≡ some (piece, j)
      → scan r partials (suc n) tpl ctx sections i out
        ≡ scan r partials n tpl ctx sections j (out ++ substr tpl i (next_at tpl i - i) ++ piece)
  unfolding scan
  scan-next n tpl i out piece j h k e = rw (scan, h, k, e) refl

  scan-ends :
      (n : ℕ) (before p out : Text)
      → IsTemplate (ends p)
      → scan r partials (suc n) (before ++ p) ctx sections (length before) out ≡ some (out ++ p)
  scan-ends n before [] out h =
      scan-over n (before ++ []) (length before) out (ground (arith, length-append before []))
      ∙ ap some (sym (append-nil out))
  scan-ends n before (c ∷ p) out h =
      let missing : find (before ++ (c ∷ p)) (codes "{{") (length before) ≡ npos =
        find-Lacks before (c ∷ p) b'{' (codes "{") h.0 in
      let last : next_at (before ++ (c ∷ p)) (length before) ≡ npos =
        next_at-interpolation before (c ∷ p) h.1 (find_text-Lacks b'{' (codes "!!") (c ∷ p) h.0)
          (omega (arith, missing))
        ∙ missing in
      scan-rest n (before ++ (c ∷ p)) (length before) out
        (ground (arith, length-append before (c ∷ p))) (rw last refl)
      ∙ ap (λ s. some (out ++ s)) (drop-length before (c ∷ p))

  pub directive_at-interpolation :
      (tpl : Text) (i next : ℕ)
      → (next == find tpl (codes "{!!") i) ≡ false
      → (next == find tpl (codes "{{") i) ≡ true
      → directive_at r partials tpl ctx sections i next ≡ interpolation_at tpl ctx next
  unfolding directive_at
  directive_at-interpolation tpl i next h k = rw (h, k) refl

  directive_at-shows :
      (before p name : Text) (t : Template)
      → IsTemplate (shows p name t)
      → length before + (length p + (length name + 6)) < 2 ^ 63
      → directive_at r partials
          (before ++ text_of (shows p name t))
          ctx
          sections
          (length before)
          (length before + length p)
        ≡ some (escape (var name ctx), length before + length p + (length name + 6))
  directive_at-shows before p name t h small =
      let tpl : Text = before ++ text_of (shows p name t) in
      let rest : Text = codes "{{ " ++ (name ++ (codes " }}" ++ text_of t)) in
      let raw : find tpl (codes "{!!") (length before) ≡ npos =
        find-behind before (text_of (shows p name t)) (codes "{!!")
        ∙ ap (index_from (length before)) (find_text-raw (shows p name t) h) in
      let there : find tpl (codes "{{") (length before) ≡ length before + length p =
        find-shows before p (name ++ (codes " }}" ++ text_of t)) h.0.0 in
      let size : length (before ++ p) ≡ length before + length p = length-append before p in
      directive_at-interpolation tpl (length before) (length before + length p)
        (ground (arith, raw)) (ground (arith, there))
      ∙ subst
          (λ n. interpolation_at tpl ctx n ≡ some (escape (var name ctx), n + (length name + 6)))
          size
          (subst
            (λ s.
              interpolation_at s ctx (length (before ++ p))
              ≡ some (escape (var name ctx), length (before ++ p) + (length name + 6)))
            (append_assoc before p rest)
            (interpolation_at-shows ctx (before ++ p) name (text_of t) h.1.2 h.1.3 (omega arith)))

  -- One round, up to a value and over it.
  scan-one :
      (n : ℕ) (before p name out : Text) (t : Template)
      → IsTemplate (shows p name t)
      → length (before ++ text_of (shows p name t)) < 2 ^ 63
      → scan r partials
          (suc n)
          (before ++ text_of (shows p name t))
          ctx
          sections
          (length before)
          out
        ≡ scan r partials n
            (before ++ text_of (shows p name t))
            ctx
            sections
            (length before + length p + (length name + 6))
            (out ++ p ++ escape (var name ctx))
  scan-one n before p name out t h small =
      let tpl : Text = before ++ text_of (shows p name t) in
      let rest : Text = name ++ (codes " }}" ++ text_of t) in
      let i : ℕ = length before in
      let sizes : length tpl ≡ i + (length p + (3 + (length name + (3 + length (text_of t))))) =
        length-shows before p name (text_of t) in
      let there : find tpl (codes "{{") i ≡ i + length p = find-shows before p rest h.0.0 in
      let next : next_at tpl i ≡ i + length p =
        next_at-interpolation before (text_of (shows p name t)) (text_of-Lacks (shows p name t) h)
          (find_text-raw (shows p name t) h) (omega (arith, there))
        ∙ there in
      scan-next n tpl i out (escape (var name ctx)) (i + length p + (length name + 6))
        (ground arith) (rw next (ground arith))
        (ap (directive_at r partials tpl ctx sections i) next
          ∙ directive_at-shows before p name t h (omega arith))
      ∙ ap
          (λ s.
            scan r partials n tpl ctx sections (i + length p + (length name + 6))
              (out ++ s ++ escape (var name ctx)))
          (ap (λ k. substr tpl i (k - i)) next ∙ substr-plain before p (codes "{{ " ++ rest))

  -- The loop makes the page from there on.
  scan-text_of :
      (n : ℕ) (before out : Text) (t : Template)
      → IsTemplate t
      → length (before ++ text_of t) < 2 ^ 63
      → rounds t ≤ n
      → scan r partials n (before ++ text_of t) ctx sections (length before) out
        ≡ some (out ++ page_of ctx t)
  scan-text_of zero before out (ends p) h small enough = absurd (omega arith)
  scan-text_of zero before out (shows p name t) h small enough = absurd (omega arith)
  scan-text_of (suc n) before out (ends p) h small enough = scan-ends n before p out h
  scan-text_of (suc n) before out (shows p name t) h small enough =
      let opened : Text = p ++ (codes "{{ " ++ (name ++ codes " }}")) in
      let done : Text = before ++ opened in
      let tpl : Text = before ++ text_of (shows p name t) in
      let shown : Text = out ++ p ++ escape (var name ctx) in
      let same : done ++ text_of t ≡ before ++ text_of (shows p name t) =
        append_assoc before opened (text_of t)
        ∙ ap (λ s. before ++ s)
            (append_assoc p (codes "{{ " ++ (name ++ codes " }}")) (text_of t)
              ∙ ap (λ s. p ++ (codes "{{ " ++ s)) (append_assoc name (codes " }}") (text_of t))) in
      let size : length done ≡ length before + length p + (length name + 6) =
        omega (arith, length-shows before p name []) in
      scan-one n before p name out t h small
      ∙ ap (λ i. scan r partials n tpl ctx sections i shown) (sym size)
      ∙ ap (λ s. scan r partials n s ctx sections (length done) shown) (sym same)
      ∙ scan-text_of n done shown t h.2 (omega (arith, ap length same)) (omega arith)
      ∙ ap some (
          append_assoc (out ++ p) (escape (var name ctx)) (page_of ctx t)
          ∙ append_assoc out p (escape (var name ctx) ++ page_of ctx t))

-- A template of plain texts and names in `{{ }}`, in which the texts have no `{` and no `@`, and which is
-- shorter than 2 ^ 63 bytes, is rendered, given fuel for a round of each value and two more, to its
-- texts with the escaped values between them; so the page has the angle brackets and quotes of the
-- template's own text, in their order, and no others, whatever the values are.
pub render_impl-shows :
    (partials : Text → Text) (n : ℕ) (t : Template) (ctx : View) (sections : Option Sections)
    → IsTemplate t
    → length (text_of t) < 2 ^ 63
    → rounds t ≤ n
    → (render_impl partials (suc n) (text_of t) ctx sections ≡ some (page_of ctx t))
      × (markup (page_of ctx t) ≡ markup (own_text t))
unfolding render_impl
render_impl-shows partials n t ctx sections h small enough =
    let alone : find (text_of t) (codes "@extends(") 0 ≡ npos =
      find-Lacks [] (text_of t) b'@' (codes "extends(") (text_of-Lacks t h) in
    (
      rw (render_impl, alone)
          (scan-text_of (render_impl partials n) partials ctx sections n [] [] t h small enough),
      markup-page_of ctx t,
    )
