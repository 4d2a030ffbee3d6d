-- ===== src/View/Unclosed.antt =====
-- An interpolation that is not closed.
use public_cpp_laravel.Prelude.{◌++◌, Text, codes, Lacks}
use public_cpp_laravel.View.{View}

-- A text, and an interpolation without its end.
abbrev pub unclosed : Text → Text → Text
unclosed p name = p ++ (codes "{{ " ++ name)

abbrev pub IsUnclosed : Text → Text → Type 0
IsUnclosed p name =
    (Lacks b'{' p × Lacks b'@' p × Lacks b'}' p)
    × (Lacks b'{' name × Lacks b'@' name × Lacks b'}' name)
