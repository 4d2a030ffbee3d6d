-- ===== src/Tests/Validation.antt =====
-- Two fields and their rules, on which the lemmas of Validation are tried.
use public_cpp_laravel.Prelude.{List, [], ◌∷◌, Option, some, Text, codes, length, text_key, Dict}
use public_cpp_laravel.Prelude.Int.{ℤ, pos}

abbrev fields : Dict Text Text
fields = (codes "age", codes "4x") ∷ (codes "name", []) ∷ []

abbrev field_rules : List (Text × Text)
field_rules = (codes "name", codes "min:3") ∷ (codes "age", codes "required|integer") ∷ []

abbrev count_stol : Text → Option ℤ
count_stol s = some (pos (length s))
