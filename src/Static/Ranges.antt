-- ===== src/Static/Ranges.antt =====
-- include/static_files.hpp: `parse_range`. `stoll` is `none` where it throws.
use public_cpp_laravel.Prelude.{
  Bool, true, false, ◌||◌, Option, none, some, if◌then◌else◌, is_empty, drop, Text, codes,
  starts_with, split_at, ◌≡◌, arith, Bool-cases, inl, inr,
}
use public_cpp_laravel.Prelude.Int.{ℤ, pos, ◌-ℤ◌, ltb_ℤ, leb_ℤ, ◌≤ℤ◌, ◌<ℤ◌, -ℤ_parts}

-- `end` is inclusive.
pub record Range : Type 0 where
  pub present : Bool
  pub satisfiable : Bool
  pub start : ℤ
  pub end : ℤ

abbrev pub no_range : Range
no_range = record { present = false; satisfiable = false; start = pos 0; end = pos 0 }

abbrev pub range_at : Bool → ℤ → ℤ → Range
range_at satisfiable start end = record {
  present = true;
  satisfiable = satisfiable;
  start = start;
  end = end;
}

unfoldable pub place : ℤ → ℤ → ℤ → Range
place size start end =
    if ltb_ℤ start (pos 0) || ltb_ℤ end start || leb_ℤ size start
    then range_at false start end
    else range_at true start end

-- The end is cut to the file.
unfoldable pub cut_end : ℤ → ℤ → ℤ
cut_end size end = if ltb_ℤ (size -ℤ pos 1) end then size -ℤ pos 1 else end

unfoldable pub within : ℤ → ℤ → ℤ → Range
unfolding place cut_end
within size start end = place size start (cut_end size end)

unfoldable pub suffix_range : ℤ → Option ℤ → Range
unfolding within
suffix_range size none = range_at false (pos 0) (pos 0)
suffix_range size (some n) =
    if leb_ℤ n (pos 0)
    then range_at false (pos 0) (pos 0)
    else within size (if ltb_ℤ n size then size -ℤ n else pos 0) (size -ℤ pos 1)

unfoldable pub from_start : ℤ → ℤ → Option ℤ → Range
unfolding within
from_start size start none = range_at false start (pos 0)
from_start size start (some end) = within size start end

unfoldable pub start_range : (Text → Option ℤ) → ℤ → Text → Option ℤ → Range
unfolding from_start
start_range stoll size b none = range_at false (pos 0) (pos 0)
start_range stoll size b (some start) =
    from_start size start (if is_empty b then some (size -ℤ pos 1) else stoll b)

unfoldable pub between_dash : (Text → Option ℤ) → ℤ → Option (Text × Text) → Range
unfolding suffix_range start_range
between_dash stoll size none = range_at false (pos 0) (pos 0)
between_dash stoll size (some (a, b)) =
    if is_empty a
    then (if is_empty b then range_at false (pos 0) (pos 0) else suffix_range size (stoll b))
    else start_range stoll size b (stoll a)

unfoldable pub parse_range : (Text → Option ℤ) → Text → ℤ → Range
unfolding between_dash
parse_range stoll header size =
    if starts_with (codes "bytes=") header
    then between_dash stoll size (split_at b'-' (drop 6 header))
    else no_range

-- A range to be served lies inside the file.
abbrev pub Fits : ℤ → Range → Type 0
Fits size r = (pos 0 ≤ℤ r.start) × (r.start ≤ℤ r.end) × (r.end <ℤ size)

abbrev FitsIfServed : ℤ → Range → Type 0
FitsIfServed size r = r.satisfiable ≡ true → Fits size r

none_served : (size start end : ℤ) → FitsIfServed size (range_at false start end)
none_served size start end h = absurd (cc)

one_of-Fits :
    (size : ℤ) (b : Bool) (r r' : Range)
    → FitsIfServed size r
    → FitsIfServed size r'
    → FitsIfServed size (if b then r else r')
one_of-Fits size true r r' f f' = f
one_of-Fits size false r r' f f' = f'

cut_end-lt : (size end : ℤ) → cut_end size end <ℤ size
unfolding cut_end
cut_end-lt size end = ground (arith, -ℤ_parts size (pos 1))

place-Fits : (size start end : ℤ) → end <ℤ size → FitsIfServed size (place size start end)
unfolding place
place-Fits size start end inside h =
    elim (Bool-cases (ltb_ℤ start (pos 0) || ltb_ℤ end start || leb_ℤ size start)) [
      | inl bad ↦ absurd (ground (arith, bad, h))
      | inr good ↦ rw good (ground (arith, good), ground (arith, good), inside)
    ]

within-Fits : (size start end : ℤ) → FitsIfServed size (within size start end)
unfolding within
within-Fits size start end = place-Fits size start (cut_end size end) (cut_end-lt size end)

suffix_range-Fits : (size : ℤ) (n : Option ℤ) → FitsIfServed size (suffix_range size n)
unfolding suffix_range
suffix_range-Fits size none = none_served size (pos 0) (pos 0)
suffix_range-Fits size (some n) =
    let start : ℤ = if ltb_ℤ n size then size -ℤ n else pos 0 in
    one_of-Fits size (leb_ℤ n (pos 0)) (range_at false (pos 0) (pos 0))
      (within size start (size -ℤ pos 1)) (none_served size (pos 0) (pos 0))
      (within-Fits size start (size -ℤ pos 1))

from_start-Fits : (size start : ℤ) (end : Option ℤ) → FitsIfServed size (from_start size start end)
unfolding from_start
from_start-Fits size start none = none_served size start (pos 0)
from_start-Fits size start (some end) = within-Fits size start end

start_range-Fits :
    (stoll : Text → Option ℤ) (size : ℤ) (b : Text) (start : Option ℤ)
    → FitsIfServed size (start_range stoll size b start)
unfolding start_range
start_range-Fits stoll size b none = none_served size (pos 0) (pos 0)
start_range-Fits stoll size b (some start) =
    from_start-Fits size start (if is_empty b then some (size -ℤ pos 1) else stoll b)

between_dash-Fits :
    (stoll : Text → Option ℤ) (size : ℤ) (o : Option (Text × Text))
    → FitsIfServed size (between_dash stoll size o)
unfolding between_dash
between_dash-Fits stoll size none = none_served size (pos 0) (pos 0)
between_dash-Fits stoll size (some (a, b)) =
    one_of-Fits size (is_empty a)
      (if is_empty b then range_at false (pos 0) (pos 0) else suffix_range size (stoll b))
      (start_range stoll size b (stoll a))
      (one_of-Fits size (is_empty b) (range_at false (pos 0) (pos 0)) (suffix_range size (stoll b))
        (none_served size (pos 0) (pos 0)) (suffix_range-Fits size (stoll b)))
      (start_range-Fits stoll size b (stoll a))

-- The range that is served, of whatever header and size, begins inside the file, at 0 or later, ends
-- inside the file, and does not end before it begins.
pub parse_range-Fits :
    (stoll : Text → Option ℤ) (header : Text) (size : ℤ)
    → (parse_range stoll header size).satisfiable ≡ true
    → Fits size (parse_range stoll header size)
unfolding parse_range
parse_range-Fits stoll header size =
    one_of-Fits size (starts_with (codes "bytes=") header)
      (between_dash stoll size (split_at b'-' (drop 6 header))) no_range
      (between_dash-Fits stoll size (split_at b'-' (drop 6 header))) (λ h. absurd (cc))
