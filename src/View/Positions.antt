-- ===== src/View/Positions.antt =====
-- Where a search finds what it looks for.
use mathlib.Core.Option
use public_cpp_laravel.Prelude.{
  ℕ, suc, ◌+◌, ◌-◌, ◌^◌, ◌≤◌, ◌<◌, ◌≡◌, ◌≢◌, refl, ap, sym, ◌∙◌, false, [], ◌∷◌, ◌++◌, append_assoc,
  append-nil, Option, none, some, ◌==◌, length, drop, drop-length, length-append, Text, codes,
  starts_with, Lacks, Lacks-append, find_text, arith,
}
use public_cpp_laravel.View.Search.{npos, add_word, sub_word, find, index_from}
use public_cpp_laravel.View.Render.{next_at}

abbrev behind : Text → Text × Text → Text × Text
behind p r = (p ++ r.0, r.1)

pub map-behind :
    (p : Text) (d : ℕ) (o : Option (Text × Text))
    → Option.map (λ r. (d ∷ r.0, r.1)) (Option.map (behind p) o) ≡ Option.map (behind (d ∷ p)) o
map-behind p d none = refl
map-behind p d (some r) = refl

-- Where the first byte of what is searched is missing, the search goes on behind.
pub find_text-skip :
    (c : ℕ) (pat p s : Text)
    → Lacks c p
    → find_text (c ∷ pat) (p ++ s) ≡ Option.map (behind p) (find_text (c ∷ pat) s)
unfolding find_text starts_with
find_text-skip c pat [] s h = sym (map_id (find_text (c ∷ pat) s))
  where
    map_id : (o : Option (Text × Text)) → Option.map (behind []) o ≡ o
    map_id none = refl
    map_id (some r) = refl
find_text-skip c pat (d ∷ p) s h =
    let apart : (c == d) ≡ false = ground arith in
    rw (apart, find_text-skip c pat p s h.1) (map-behind p d (find_text (c ∷ pat) s))

pub find_text-Lacks : (c : ℕ) (pat s : Text) → Lacks c s → find_text (c ∷ pat) s ≡ none
unfolding find_text
find_text-Lacks c pat s h =
    ap (find_text (c ∷ pat)) (sym (append-nil s)) ∙ find_text-skip c pat s [] h

pub apart : (d c : ℕ) → (c == d) ≡ false → c ≢ d
apart d c h e = absurd (ground (arith, h, e))

-- A search from behind a text.
pub find-behind :
    (before s pat : Text)
    → find (before ++ s) pat (length before) ≡ index_from (length before) (find_text pat s)
unfolding find
find-behind before s pat =
    ap (λ r. index_from (length before) (find_text pat r)) (drop-length before s)

pub find-Lacks :
    (before s : Text) (c : ℕ) (pat : Text)
    → Lacks c s
    → find (before ++ s) (c ∷ pat) (length before) ≡ npos
find-Lacks before s c pat h =
    find-behind before s (c ∷ pat) ∙ ap (index_from (length before)) (find_text-Lacks c pat s h)

-- Where there is no `@` and no raw value, an interpolation comes next.
pub next_at-interpolation :
    (before s : Text)
    → Lacks b'@' s
    → find_text (codes "{!!") s ≡ none
    → find (before ++ s) (codes "{{") (length before) ≤ npos
    → next_at (before ++ s) (length before) ≡ find (before ++ s) (codes "{{") (length before)
unfolding next_at
next_at-interpolation before s lacks no_raw small =
    let raw : find (before ++ s) (codes "{!!") (length before) ≡ npos =
      find-behind before s (codes "{!!") ∙ ap (index_from (length before)) no_raw in
    rw
      (
        raw,
        find-Lacks before s b'@' (codes "if(") lacks,
        find-Lacks before s b'@' (codes "foreach(") lacks,
        find-Lacks before s b'@' (codes "include(") lacks,
        find-Lacks before s b'@' (codes "yield(") lacks,
        find-Lacks before s b'@' (codes "section(") lacks,
      )
      (ground arith)

-- Where the value is that is shown next.
pub find-shows :
    (before p rest : Text)
    → Lacks b'{' p
    → find (before ++ (p ++ (codes "{{ " ++ rest))) (codes "{{") (length before)
      ≡ length before + length p
unfolding find_text starts_with
find-shows before p rest h =
    find-behind before (p ++ (codes "{{ " ++ rest)) (codes "{{")
    ∙ ap (index_from (length before)) (find_text-skip b'{' (codes "{") p (codes "{{ " ++ rest) h)
    ∙ ap (λ s. length before + length s) (append-nil p)

-- Where its name ends.
pub find-closing :
    (before name rest : Text)
    → Lacks b'}' name
    → find (before ++ (codes "{{ " ++ (name ++ (codes " }}" ++ rest)))) (codes "}}") (length before)
      ≡ length before + (length name + 4)
unfolding find_text starts_with
find-closing before name rest h =
    let opening : Text = codes "{{ " ++ (name ++ codes " ") in
    let lacks : Lacks b'}' opening = (
      apart b'}' b'{' refl,
      (
        apart b'}' b'{' refl,
        (apart b'}' b' ' refl, Lacks-append b'}' name (codes " ") h (apart b'}' b' ' refl, tt)),
      ),
    ) in
    let split : codes "{{ " ++ (name ++ (codes " }}" ++ rest)) ≡ opening ++ (codes "}}" ++ rest) =
      ap (λ s. codes "{{ " ++ s) (sym (append_assoc name (codes " ") (codes "}}" ++ rest))) in
    find-behind before (codes "{{ " ++ (name ++ (codes " }}" ++ rest))) (codes "}}")
    ∙ ap (λ s. index_from (length before) (find_text (codes "}}") s)) split
    ∙ ap (index_from (length before))
        (find_text-skip b'}' (codes "}") opening (codes "}}" ++ rest) lacks)
    ∙ ap (λ s. length before + length s) (append-nil opening)
    ∙ omega (arith, length-append name (codes " "))

pub drop-behind : (n : ℕ) (before s : Text) → drop (length before + n) (before ++ s) ≡ drop n s
drop-behind n [] s = let same : length {A = ℕ} [] + n ≡ n = omega arith in ap (λ k. drop k s) same
drop-behind n (c ∷ before) s =
    let one : length (c ∷ before) + n ≡ suc (length before + n) = omega arith in
    ap (λ k. drop k (c ∷ (before ++ s))) one ∙ drop-behind n before s

pub sub_word-small : (a b : ℕ) → b ≤ a → a < 2 ^ 64 → sub_word a b ≡ a - b
unfolding sub_word
sub_word-small a b h k = omega arith

pub add_word-small : (a b : ℕ) → a + b < 2 ^ 64 → add_word a b ≡ a + b
unfolding add_word
add_word-small a b h = omega arith
