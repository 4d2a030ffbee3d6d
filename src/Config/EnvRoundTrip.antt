-- ===== src/Config/EnvRoundTrip.antt =====
-- Reading back a file of settings.
use public_cpp_laravel.Prelude.{
  ℕ, suc, ◌-◌, ◌≡◌, ◌≢◌, refl, ap, ◌∙◌, true, false, List, [], ◌∷◌, ◌++◌, some, leb, ◌==◌, length,
  length-append, take-length, is_empty, get_or, Text, codes, strip_left, strip_right, trim,
  trim-NoBlank, NoBlank, split_at-append, split_on, split_on-append, Lacks, Lacks-append, Dict,
  insert, text_key, arith,
}
use public_cpp_laravel.Config.{env_blank, without_quotes, env_line, add_entry, env_lines, parse_env}

-- A setting, its value in quotes.
abbrev pub env_setting : Text → Text → Text
env_setting key value = key ++ (codes "=\"" ++ (value ++ codes "\""))

abbrev pub env_text : List (Text × Text) → Text
env_text [] = []
env_text ((key, value) ∷ more) = env_setting key value ++ (b'\n' ∷ env_text more)

-- The first byte of a key begins no comment.
abbrev NoComment : Text → Type 0
NoComment [] = ⊥
NoComment (c ∷ s) = c ≢ b'#'

-- A key is not empty, begins no comment and has no blanks, no `=` and no newline; a value has no newline.
abbrev pub AreSettings : List (Text × Text) → Type 0
AreSettings [] = Unit
AreSettings ((key, value) ∷ more) =
    (NoComment key × NoBlank env_blank key × Lacks b'=' key × Lacks b'\n' key)
    × Lacks b'\n' value
    × AreSettings more

abbrev pub set_all : List (Text × Text) → Dict Text Text → Dict Text Text
set_all [] out = out
set_all ((key, value) ∷ more) out = set_all more (insert key value out)

get_or-last : (s : Text) (c : ℕ) → get_or (s ++ (c ∷ [])) (length s) 0 ≡ c
get_or-last [] c = refl
get_or-last (d ∷ s) c = get_or-last s c

without_quotes-quoted : (s : Text) → without_quotes (codes "\"" ++ (s ++ codes "\"")) ≡ s
unfolding without_quotes
without_quotes-quoted s =
    let size : length (s ++ codes "\"") ≡ suc (length s) =
      omega (arith, length-append s (codes "\"")) in
    let before : suc (suc (length s)) - 1 ≡ suc (length s) = omega arith in
    let inside : suc (suc (length s)) - 2 ≡ length s = omega arith in
    let last : get_or (codes "\"" ++ (s ++ codes "\"")) (suc (suc (length s)) - 1) 0 ≡ b'"' =
      ap (λ i. get_or (codes "\"" ++ (s ++ codes "\"")) i 0) before ∙ get_or-last s b'"' in
    let long : leb 2 (suc (suc (length s))) ≡ true = ground arith in
    rw (size, long, last, inside) (take-length s (codes "\""))

not_empty-last : (s : Text) (c : ℕ) → is_empty (s ++ (c ∷ [])) ≡ false
not_empty-last [] c = refl
not_empty-last (d ∷ s) c = refl

strip_right-last :
    (s : Text) (c : ℕ) → env_blank c ≡ false → strip_right env_blank (s ++ (c ∷ [])) ≡ s ++ (c ∷ [])
unfolding strip_right
strip_right-last [] c h = rw h refl
strip_right-last (d ∷ s) c h = rw (strip_right-last s c h, not_empty-last s c) refl

trim-quoted :
    (s : Text) → trim env_blank (codes "\"" ++ (s ++ codes "\"")) ≡ codes "\"" ++ (s ++ codes "\"")
unfolding trim strip_left
trim-quoted s = strip_right-last (codes "\"" ++ s) b'"' refl

env_line-setting :
    (c : ℕ) (key value : Text)
    → NoComment (c ∷ key)
    → NoBlank env_blank (c ∷ key)
    → Lacks b'=' (c ∷ key)
    → env_line (env_setting (c ∷ key) value) ≡ some (c ∷ key, value)
unfolding env_line strip_left
env_line-setting c key value apart clean lacks =
    let comment : (c == b'#') ≡ false = ground (arith, apart) in
    rw
      (
        clean.0,
        comment,
        split_at-append b'=' (c ∷ key) (codes "\"" ++ (value ++ codes "\"")) lacks,
        trim-NoBlank env_blank (c ∷ key) clean,
        trim-quoted value,
        without_quotes-quoted value,
      )
      refl

setting-Lacks :
    (key value : Text) → Lacks b'\n' key → Lacks b'\n' value → Lacks b'\n' (env_setting key value)
setting-Lacks key value h k = Lacks-append b'\n' key (codes "=\"" ++ (value ++ codes "\"")) h (
  byte_apart b'=' refl,
  (byte_apart b'"' refl, Lacks-append b'\n' value (codes "\"") k (byte_apart b'"' refl, tt)),
)
  where
    byte_apart : (c : ℕ) → (c == b'\n') ≡ false → c ≢ b'\n'
    byte_apart c h e = absurd (ground (arith, h, e))

env_lines-settings :
    (settings : List (Text × Text)) (out : Dict Text Text)
    → AreSettings settings
    → env_lines (split_on b'\n' (env_text settings)) out ≡ set_all settings out
unfolding env_lines env_line strip_left split_on
env_lines-settings [] out h = refl
env_lines-settings (([], value) ∷ more) out h = absurd (h.0.0)
env_lines-settings ((c ∷ key, value) ∷ more) out h =
    let line : Text = env_setting (c ∷ key) value in
    ap (λ ls. env_lines ls out)
      (split_on-append b'\n' line (env_text more) (setting-Lacks (c ∷ key) value h.0.3 h.1))
    ∙ ap (λ e. env_lines (split_on b'\n' (env_text more)) (add_entry e out))
        (env_line-setting c key value h.0.0 h.0.1 h.0.2)
    ∙ env_lines-settings more (insert (c ∷ key) value out) h.2

-- A file of settings, one to a line, each value in double quotes and of any bytes but a newline, is read
-- as the map of its settings, the last one of a key counting; a key is not empty, begins no comment and
-- has no blanks, no `=` and no newline.
pub parse_env-env_text :
    (settings : List (Text × Text))
    → AreSettings settings
    → parse_env (env_text settings) ≡ set_all settings []
unfolding parse_env
parse_env-env_text settings h = env_lines-settings settings [] h
