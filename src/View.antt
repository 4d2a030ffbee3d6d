-- ===== src/View.antt =====
-- include/view.hpp: the templates. Here the view and its texts.
pub mod Search
pub mod Render
pub mod Escape
pub mod Positions
pub mod Template
pub mod Shows
pub mod Unclosed
use public_cpp_laravel.Prelude.{
  ℕ, zero, suc, ◌+◌, ◌-◌, ◌%◌, ◌^◌, Bool, true, false, not, ◌&&◌, ◌||◌, List, [], ◌∷◌, ◌++◌, Option,
  none, some, ◌>>=◌, ltb, leb, ◌==◌, length, take, drop, is_empty, get_or, if◌then◌else◌, Text,
  codes, text_eq, trim, find_text, Dict, lookup, insert, text_key,
}
use public_cpp_laravel.Prelude.Int.{ℤ, pos, negsuc, ◌+ℤ◌, eqb_ℤ}

mutual
  pub data View : Type 0 where
    view : Dict Text Text → Lists → View

  pub data Lists : Type 0 where
    no_lists : Lists
    with_list : Text → Items → Lists → Lists

  pub data Items : Type 0 where
    no_items : Items
    item : View → Items → Items

abbrev pub vars : View → Dict Text Text
vars (view vs ls) = vs

abbrev pub lists : View → Lists
lists (view vs ls) = ls

abbrev pub or_nothing : Option Text → Text
or_nothing none = []
or_nothing (some s) = s

unfoldable pub set : Text → Text → View → View
unfolding insert
set key value (view vs ls) = view (insert key value vs) ls

unfoldable pub var : Text → View → Text
unfolding lookup
var key v = or_nothing (lookup key (vars v))

-- `ctx.lists.find(list)`.
unfoldable pub list_named : Text → Lists → Option Items
list_named name no_lists = none
list_named name (with_list key items rest) =
    let later = list_named name rest in if text_eq key name then some items else later

unfoldable pub escape_byte : ℕ → Text
escape_byte c =
    if c == b'&'
    then codes "&amp;"
    else if c == b'<'
    then codes "&lt;"
    else if c == b'>'
    then codes "&gt;"
    else if c == b'"'
    then codes "&quot;"
    else if c == b'\''
    then codes "&#39;"
    else c ∷ []

unfoldable pub escape : Text → Text
unfolding escape_byte
escape [] = []
escape (c ∷ s) = escape_byte c ++ escape s

abbrev pub blank : ℕ → Bool
blank c = c == b' ' || c == b'\t' || c == b'\r' || c == b'\n'

unfoldable pub truthy : Text → Bool
truthy v = not (is_empty v) && not (text_eq v (codes "0")) && not (text_eq v (codes "false"))

abbrev pub is_quote : ℕ → Bool
is_quote c = c == b'"' || c == b'\''

unfoldable pub strip_quotes : Text → Text
strip_quotes s =
    if leb 2 (length s) && is_quote (get_or s 0 0) && (get_or s (length s - 1) 0 == get_or s 0 0)
    then take (length s - 2) (drop 1 s)
    else s

unfoldable pub unquote : Text → Text
unfolding trim strip_quotes
unquote s = strip_quotes (trim blank s)
