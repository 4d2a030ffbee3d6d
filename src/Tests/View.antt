-- ===== src/Tests/View.antt =====
-- A greeting that is rendered, and one that is not closed.
use public_cpp_laravel.Prelude.{
  ◌≡◌, refl, [], ◌∷◌, none, some, arith, Text, codes, lookup, text_key,
}
use public_cpp_laravel.View.{View, view, no_lists, var, escape, escape_byte}
use public_cpp_laravel.View.Escape.{markup}
use public_cpp_laravel.View.Render.{render_impl}
use public_cpp_laravel.View.Positions.{apart}
use public_cpp_laravel.View.Template.{Template, ends, shows, text_of, IsTemplate}
use public_cpp_laravel.View.Shows.{render_impl-shows}

abbrev greeting : Template
greeting = shows (codes "<p>") (codes "n") (ends (codes "</p>"))

abbrev guest : View
guest = view ((codes "n", codes "<b>") ∷ []) no_lists

abbrev no_partials : Text → Text
no_partials name = []

greeting-IsTemplate : IsTemplate greeting
greeting-IsTemplate = (
  (
    (apart _ _ refl, (apart _ _ refl, (apart _ _ refl, tt))),
    (apart _ _ refl, (apart _ _ refl, (apart _ _ refl, tt))),
  ),
  ((apart _ _ refl, tt), (apart _ _ refl, tt), (apart _ _ refl, tt), (refl, tt)),
  (
    (apart _ _ refl, (apart _ _ refl, (apart _ _ refl, (apart _ _ refl, tt)))),
    (apart _ _ refl, (apart _ _ refl, (apart _ _ refl, (apart _ _ refl, tt)))),
  ),
)

render_impl-shows_example :
    (render_impl no_partials 3 (text_of greeting) guest none ≡ some (codes "<p>&lt;b&gt;</p>"))
    × (markup (codes "<p>&lt;b&gt;</p>") ≡ codes "<><>")
unfolding var escape escape_byte lookup
render_impl-shows_example =
    render_impl-shows no_partials 2 greeting guest none greeting-IsTemplate (omega arith)
      (omega arith)
