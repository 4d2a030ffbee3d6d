-- ===== src/Config.antt =====
-- include/config.hpp. `std::stol` is a parameter, `none` where it throws.
pub mod EnvRoundTrip
use public_cpp_laravel.Prelude.{
  ℕ, ◌-◌, Bool, true, false, ◌&&◌, ◌||◌, List, [], ◌∷◌, ◌++◌, Option, none, some, leb, ◌==◌, length,
  take, drop, is_empty, is_some, get_or, if◌then◌else◌, Text, codes, text_eq, strip_left, trim,
  split_at, split_on, Dict, lookup, insert, text_key,
}
use public_cpp_laravel.Prelude.Int.{ℤ}

abbrev pub env_blank : ℕ → Bool
env_blank c = c == b' ' || c == b'\t' || c == b'\r'

abbrev pub quote : ℕ → Bool
quote c = c == b'"' || c == b'\''

unfoldable pub without_quotes : Text → Text
without_quotes s =
    if leb 2 (length s) && quote (get_or s 0 0) && (get_or s (length s - 1) 0 == get_or s 0 0)
    then take (length s - 2) (drop 1 s)
    else s

-- The two sides of the `=`.
abbrev pub env_pair : Option (Text × Text) → Option (Text × Text)
env_pair none = none
env_pair (some (k, v)) =
    if is_empty (trim env_blank k)
    then none
    else some (trim env_blank k, without_quotes (trim env_blank v))

-- A line without the blanks before it; a comment and a line without `=` are skipped.
abbrev pub env_entry : Text → Option (Text × Text)
env_entry [] = none
env_entry (c ∷ s) = if c == b'#' then none else env_pair (split_at b'=' (c ∷ s))

unfoldable pub env_line : Text → Option (Text × Text)
unfolding strip_left split_at trim without_quotes
env_line line = env_entry (strip_left env_blank line)

abbrev pub add_entry : Option (Text × Text) → Dict Text Text → Dict Text Text
add_entry none out = out
add_entry (some (key, value)) out = insert key value out

unfoldable pub env_lines : List Text → Dict Text Text → Dict Text Text
unfolding env_line insert
env_lines [] out = out
env_lines (line ∷ lines) out = env_lines lines (add_entry (env_line line) out)

-- Behind the last newline an empty line is read, and skipped like any other.
unfoldable pub parse_env : Text → Dict Text Text
unfolding env_lines split_on
parse_env text = env_lines (split_on b'\n' text) []

-- `Config`, its `items_`.
abbrev pub Config : Type 0
Config = Dict Text Text

unfoldable pub set_item : Text → Text → Config → Config
unfolding insert
set_item key value items = insert key value items

unfoldable pub has_item : Text → Config → Bool
unfolding lookup
has_item key items = is_some (lookup key items)

abbrev pub or_default : {A : Type 0} → A → Option A → A
or_default d none = d
or_default d (some a) = a

unfoldable pub get_item : Text → Text → Config → Text
unfolding lookup
get_item key default items = or_default default (lookup key items)

abbrev pub read_int : (Text → Option ℤ) → ℤ → Option Text → ℤ
read_int stol default none = default
read_int stol default (some s) = or_default default (stol s)

unfoldable pub get_int_item : (Text → Option ℤ) → Text → ℤ → Config → ℤ
unfolding lookup
get_int_item stol key default items = read_int stol default (lookup key items)

abbrev pub read_bool : Bool → Option Text → Bool
read_bool default none = default
read_bool default (some v) =
    text_eq v (codes "1")
    || text_eq v (codes "true")
    || text_eq v (codes "yes")
    || text_eq v (codes "on")

unfoldable pub get_bool_item : Text → Bool → Config → Bool
unfolding lookup
get_bool_item key default items = read_bool default (lookup key items)

unfoldable pub merge : Dict Text Text → Config → Config
unfolding insert
merge [] items = items
merge ((key, value) ∷ more) items = merge more (insert key value items)
