-- ===== src/View/Escape.antt =====
-- What `escape` leaves of the bytes that are markup.
use public_cpp_laravel.Prelude.{
  ℕ, ◌≡◌, refl, ap, ◌∙◌, Bool, ◌||◌, [], ◌∷◌, ◌++◌, ◌==◌, if◌then◌else◌, Bool-cases, inl, inr, Text,
  arith,
}
use public_cpp_laravel.View.{escape, escape_byte}

abbrev pub is_markup : ℕ → Bool
is_markup c = c == b'<' || c == b'>' || c == b'"' || c == b'\''

-- The markup bytes of a text, in order.
abbrev pub markup : Text → Text
markup [] = []
markup (c ∷ s) = if is_markup c then c ∷ markup s else markup s

pub markup-append : (s t : Text) → markup (s ++ t) ≡ markup s ++ markup t
markup-append [] t = refl
markup-append (c ∷ s) t = elim (Bool-cases (is_markup c)) [
  | inl here ↦ rw here (ap (◌∷◌ c) (markup-append s t))
  | inr plain ↦ rw plain (markup-append s t)
]

markup-escape_byte : (c : ℕ) → markup (escape_byte c) ≡ []
unfolding escape_byte
markup-escape_byte c = ground arith

pub markup-escape : (s : Text) → markup (escape s) ≡ []
unfolding escape
markup-escape [] = refl
markup-escape (c ∷ s) =
    markup-append (escape_byte c) (escape s) ∙ rw (markup-escape_byte c) (markup-escape s)
