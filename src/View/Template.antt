-- ===== src/View/Template.antt =====
-- Templates of plain text and values that are shown.
use public_cpp_laravel.Prelude.{
  ℕ, suc, ◌≡◌, refl, ap, sym, ◌∙◌, ◌++◌, none, Text, codes, starts_with, NoBlank, Lacks,
  Lacks-append, find_text,
}
use public_cpp_laravel.View.{View, var, escape, blank}
use public_cpp_laravel.View.Escape.{markup, markup-append, markup-escape}
use public_cpp_laravel.View.Positions.{find_text-skip, find_text-Lacks, apart}

-- A text up to its end, or up to a value.
pub data Template : Type 0 where
  ends : Text → Template
  shows : Text → Text → Template → Template

abbrev pub text_of : Template → Text
text_of (ends p) = p
text_of (shows p name t) = p ++ (codes "{{ " ++ (name ++ (codes " }}" ++ text_of t)))

-- What the reader of the page is to see.
abbrev pub page_of : View → Template → Text
page_of ctx (ends p) = p
page_of ctx (shows p name t) = p ++ (escape (var name ctx) ++ page_of ctx t)

-- The template's own text.
abbrev pub own_text : Template → Text
own_text (ends p) = p
own_text (shows p name t) = p ++ own_text t

-- The texts have no `{` and no `@`; nor have the names, which have no `}` and no blanks either.
abbrev pub IsTemplate : Template → Type 0
IsTemplate (ends p) = Lacks b'{' p × Lacks b'@' p
IsTemplate (shows p name t) =
    (Lacks b'{' p × Lacks b'@' p)
    × (Lacks b'{' name × Lacks b'@' name × Lacks b'}' name × NoBlank blank name)
    × IsTemplate t

abbrev pub rounds : Template → ℕ
rounds (ends p) = 1
rounds (shows p name t) = suc (rounds t)

pub markup-page_of : (ctx : View) (t : Template) → markup (page_of ctx t) ≡ markup (own_text t)
markup-page_of ctx (ends p) = refl
markup-page_of ctx (shows p name t) =
    markup-append p (escape (var name ctx) ++ page_of ctx t)
    ∙ ap (λ s. markup p ++ s)
        (markup-append (escape (var name ctx)) (page_of ctx t)
          ∙ rw (markup-escape (var name ctx)) (markup-page_of ctx t))
    ∙ sym (markup-append p (own_text t))

pub find_text-raw : (t : Template) → IsTemplate t → find_text (codes "{!!") (text_of t) ≡ none
unfolding find_text starts_with
find_text-raw (ends p) h = find_text-Lacks b'{' (codes "!!") p h.0
find_text-raw (shows p name t) h =
    let rest = codes " }}" ++ text_of t in
    rw (find_text-skip b'{' (codes "!!") p (codes "{{ " ++ (name ++ rest)) h.0.0)
      (rw (find_text-skip b'{' (codes "!!") name rest h.1.0) (rw (find_text-raw t h.2) refl))

pub text_of-Lacks : (t : Template) → IsTemplate t → Lacks b'@' (text_of t)
text_of-Lacks (ends p) h = h.1
text_of-Lacks (shows p name t) h =
    Lacks-append b'@' p (codes "{{ " ++ (name ++ (codes " }}" ++ text_of t))) h.0.1 (
      apart b'@' b'{' refl,
      (
        apart b'@' b'{' refl,
        (
          apart b'@' b' ' refl,
          Lacks-append b'@' name (codes " }}" ++ text_of t) h.1.1 (
            apart b'@' b' ' refl,
            (apart b'@' b'}' refl, (apart b'@' b'}' refl, text_of-Lacks t h.2)),
          ),
        ),
      ),
    )
