-- ===== src/View/Render.antt =====
-- include/view.hpp: `render_impl`, cut into its directives. The recursion and the loops over a template
-- run on fuel, `none` where it does not suffice.
use public_cpp_laravel.Prelude.{
  ℕ, zero, suc, ◌+◌, ◌-◌, true, false, [], ◌∷◌, ◌++◌, Option, none, some, ◌>>=◌, leb, ◌==◌, length,
  drop, if◌then◌else◌, Text, codes, trim, Dict, lookup, insert, text_key,
}
use public_cpp_laravel.View.{
  View, view, Items, no_items, item, vars, lists, or_nothing, var, list_named, escape, blank,
  truthy, unquote,
}
use public_cpp_laravel.View.Search.{
  npos, add_word, sub_word, find, substr, min_word, matching_end, find_else,
}

abbrev pub Sections : Type 0
Sections = Dict Text Text

-- `render_impl` with its partials.
abbrev pub Renderer : Type 0
Renderer = Text → View → Option Sections → Option Text

-- What a directive adds to the page, and where the loop goes on.
abbrev pub Directive : Type 0
Directive = Option (Text × ℕ)

unfoldable pub raw_at : Text → View → ℕ → Directive
unfolding find substr var trim add_word sub_word
raw_at tpl ctx next =
    let e = find tpl (codes "!!}") next in
    some (var (trim blank (substr tpl (next + 3) (sub_word e (next + 3)))) ctx, add_word e 3)

unfoldable pub interpolation_at : Text → View → ℕ → Directive
unfolding find substr var trim escape add_word sub_word
interpolation_at tpl ctx next =
    let e = find tpl (codes "}}") next in
    some
      (escape (var (trim blank (substr tpl (next + 2) (sub_word e (next + 2)))) ctx), add_word e 2)

-- The argument of a directive whose name takes `n` bytes, and the index behind its parenthesis.
abbrev pub argument_at : Text → ℕ → ℕ → Text × ℕ
argument_at tpl next n =
    let close = find tpl (codes ")") next in
    (substr tpl (next + n) (sub_word close (next + n)), add_word close 1)

unfoldable pub if_at : Renderer → Text → View → Option Sections → ℕ → Directive
unfolding find substr var trim truthy matching_end find_else add_word sub_word
if_at render tpl ctx sections next =
    let (key, body) = argument_at tpl next 4 in
    let end = matching_end tpl body (codes "@if(") (codes "@endif") in
    let els = find_else tpl body end in
    let then_part = substr tpl body (sub_word (if els == npos then end else els) body) in
    let else_part = if els == npos then [] else substr tpl (els + 5) (sub_word end (els + 5)) in
    do
      piece ←
          render (if truthy (var (trim blank key) ctx) then then_part else else_part) ctx sections
      some (piece, add_word end 6)

unfoldable pub insert_all : Dict Text Text → Dict Text Text → Dict Text Text
unfolding insert
insert_all [] vs = vs
insert_all ((key, value) ∷ more) vs = insert_all more (insert key value vs)

unfoldable pub merged : View → View → View
unfolding insert_all
merged ctx it = view (insert_all (vars it) (vars ctx)) (lists it)

unfoldable pub each_item : Renderer → Text → View → Option Sections → Items → Option Text
unfolding merged
each_item render inner ctx sections no_items = some []
each_item render inner ctx sections (item it items) =
    render inner (merged ctx it) sections >>= λ piece.
    each_item render inner ctx sections items >>= λ pieces. some (piece ++ pieces)

abbrev pub or_no_items : Option Items → Items
or_no_items none = no_items
or_no_items (some items) = items

unfoldable pub foreach_at : Renderer → Text → View → Option Sections → ℕ → Directive
unfolding find substr trim list_named each_item matching_end add_word sub_word
foreach_at render tpl ctx sections next =
    let (argument, body) = argument_at tpl next 9 in
    let spec = trim blank argument in
    let list = trim blank (substr spec 0 (find spec (codes " as ") 0)) in
    let end = matching_end tpl body (codes "@foreach(") (codes "@endforeach") in
    let inner = substr tpl body (sub_word end body) in
    do
      pieces ← each_item render inner ctx sections (or_no_items (list_named list (lists ctx)))
      some (pieces, add_word end 11)

-- `partials`, of the resolver.
unfoldable pub include_at : Renderer → (Text → Text) → Text → View → Option Sections → ℕ → Directive
unfolding find substr unquote add_word sub_word
include_at render partials tpl ctx sections next =
    let (name, behind) = argument_at tpl next 9 in
    do piece ← render (partials (unquote name)) ctx sections; some (piece, behind)

abbrev pub section_named : Text → Option Sections → Text
section_named name none = []
section_named name (some sections) = or_nothing (lookup name sections)

unfoldable pub yield_at : Text → Option Sections → ℕ → Directive
unfolding find substr unquote lookup add_word sub_word
yield_at tpl sections next =
    let (name, behind) = argument_at tpl next 7 in
    some (section_named (unquote name) sections, behind)

unfoldable pub section_at : Renderer → Text → View → Option Sections → ℕ → Directive
unfolding find substr matching_end add_word sub_word
section_at render tpl ctx sections next =
    let body = (argument_at tpl next 9).1 in
    let end = matching_end tpl body (codes "@section(") (codes "@endsection") in
    do
      piece ← render (substr tpl body (sub_word end body)) ctx sections
      some (piece, add_word end 11)

-- Where the directives stand next.
unfoldable pub next_at : Text → ℕ → ℕ
unfolding find
next_at tpl i = min_word (find tpl (codes "{!!") i) (
    min_word (find tpl (codes "{{") i) (
      min_word (find tpl (codes "@if(") i) (
        min_word (find tpl (codes "@foreach(") i) (
          min_word (find tpl (codes "@include(") i)
            (min_word (find tpl (codes "@yield(") i) (find tpl (codes "@section(") i))))))

unfoldable pub directive_at :
    Renderer → (Text → Text) → Text → View → Option Sections → ℕ → ℕ → Directive
unfolding find raw_at interpolation_at if_at foreach_at include_at yield_at section_at
directive_at render partials tpl ctx sections i next =
    if next == find tpl (codes "{!!") i
    then raw_at tpl ctx next
    else if next == find tpl (codes "{{") i
    then interpolation_at tpl ctx next
    else if next == find tpl (codes "@if(") i
    then if_at render tpl ctx sections next
    else if next == find tpl (codes "@foreach(") i
    then foreach_at render tpl ctx sections next
    else if next == find tpl (codes "@include(") i
    then include_at render partials tpl ctx sections next
    else if next == find tpl (codes "@yield(") i
    then yield_at tpl sections next
    else section_at render tpl ctx sections next

-- The loop of `render_impl`.
unfoldable pub scan :
    Renderer → (Text → Text) → ℕ → Text → View → Option Sections → ℕ → Text → Option Text
unfolding next_at directive_at substr
scan render partials zero tpl ctx sections i out = none
scan render partials (suc n) tpl ctx sections i out = elim (leb (length tpl) i) [
  | true ↦ some out
  | false ↦ elim (next_at tpl i == npos) [
    | true ↦ some (out ++ drop i tpl)
    | false ↦
        let next = next_at tpl i in
        directive_at render partials tpl ctx sections i next >>= λ piece.
        scan render partials n tpl ctx sections piece.1 (out ++ substr tpl i (next - i) ++ piece.0)
  ]
]

-- The loop of `collect_sections`.
unfoldable pub collect_loop : Renderer → ℕ → Text → View → ℕ → Sections → Option Sections
unfolding find substr unquote matching_end insert add_word sub_word
collect_loop render zero child ctx p out = none
collect_loop render (suc n) child ctx p out =
    let at = find child (codes "@section(") p in
    elim (at == npos) [
      | true ↦ some out
      | false ↦
          let (name, body) = argument_at child at 9 in
          let end = matching_end child body (codes "@section(") (codes "@endsection") in
          render (substr child body (sub_word end body)) ctx none >>= λ piece.
          collect_loop render n child ctx (add_word end 11) (insert (unquote name) piece out)
    ]

module _ (partials : Text → Text) where
  unfoldable pub render_impl : ℕ → Text → View → Option Sections → Option Text
  unfolding find substr unquote scan collect_loop
  render_impl zero tpl ctx sections = none
  render_impl (suc n) tpl ctx sections =
      let ext = find tpl (codes "@extends(") 0 in
      elim (ext == npos) [
        | true ↦ scan (render_impl n) partials n tpl ctx sections 0 []
        | false ↦
            let layout = unquote (argument_at tpl ext 9).0 in
            collect_loop (render_impl n) n tpl ctx 0 [] >>= λ secs.
            render_impl n (partials layout) ctx (some secs)
      ]

-- `render` of a template by itself, and `Views`.
unfoldable pub render : ℕ → Text → View → Option Text
unfolding render_impl
render n tpl ctx = render_impl (λ name. []) n tpl ctx none

abbrev pub Views : Type 0
Views = Dict Text Text

unfoldable pub define : Text → Text → Views → Views
unfolding insert
define name tpl templates = insert name tpl templates

unfoldable pub template : Text → Views → Text
unfolding lookup
template name templates = or_nothing (lookup name templates)

unfoldable pub render_named : ℕ → Text → View → Views → Option Text
unfolding render_impl template
render_named n name ctx templates =
    render_impl (λ partial. template partial templates) n (template name templates) ctx none
