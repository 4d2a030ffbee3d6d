-- ===== src/View/Search.antt =====
-- include/view.hpp: the searches in a template. Indices are of `std::size_t`, with `npos` for what is
-- not found, and wrap around as they do there; `int` does not overflow. No call of `substr` begins
-- behind the end of its text.
use public_cpp_laravel.Prelude.{
  ℕ, zero, suc, ◌+◌, ◌-◌, ◌%◌, ◌^◌, not, ◌&&◌, ◌||◌, Option, none, some, ltb, leb, ◌==◌, length,
  take, drop, if◌then◌else◌, Text, codes, find_text, text_key,
}
use public_cpp_laravel.Prelude.Int.{ℤ, pos, negsuc, ◌+ℤ◌, eqb_ℤ}

abbrev pub npos : ℕ
npos = 18446744073709551615

unfoldable pub add_word : ℕ → ℕ → ℕ
add_word a b = (a + b) % 2 ^ 64

unfoldable pub sub_word : ℕ → ℕ → ℕ
sub_word a b = (a + 2 ^ 64 - b) % 2 ^ 64

abbrev pub index_from : ℕ → Option (Text × Text) → ℕ
index_from i none = npos
index_from i (some (before, rest)) = i + length before

-- `t.find(p, i)`, for a `p` that is not empty.
unfoldable pub find : Text → Text → ℕ → ℕ
unfolding find_text
find t p i = index_from i (find_text p (drop i t))

-- `t.substr(i, n)`.
unfoldable pub substr : Text → ℕ → ℕ → Text
substr t i n = take n (drop i t)

abbrev pub min_word : ℕ → ℕ → ℕ
min_word a b = if ltb b a then b else a

-- Every round goes at least one byte on, so the fuel, the length of the text, ends behind the text.
unfoldable pub matching_loop : Text → Text → Text → ℕ → ℕ → ℕ → ℕ
unfolding find
matching_loop t open_tag close_tag zero depth i = npos
matching_loop t open_tag close_tag (suc n) depth i =
    let o = find t open_tag i in
    let c = find t close_tag i in
    let deeper = matching_loop t open_tag close_tag n (suc depth) (o + length open_tag) in
    let shallower = matching_loop t open_tag close_tag n (depth - 1) (c + length close_tag) in
    if leb (length t) i
    then npos
    else if c == npos
    then npos
    else if not (o == npos) && ltb o c
    then deeper
    else if depth == 1
    then c
    else shallower

-- `from` is the first index behind the opening directive.
unfoldable pub matching_end : Text → ℕ → Text → Text → ℕ
unfolding matching_loop
matching_end t from open_tag close_tag = matching_loop t open_tag close_tag (length t) 1 from

unfoldable pub else_loop : Text → ℕ → ℕ → ℤ → ℕ → ℕ
unfolding find
else_loop t end zero depth i = npos
else_loop t end (suc k) depth i =
    let fi = find t (codes "@if(") i in
    let fe = find t (codes "@endif") i in
    let el = find t (codes "@else") i in
    let n = min_word fi (min_word fe el) in
    let inside = else_loop t end k (depth +ℤ pos 1) (fi + 4) in
    let outside = else_loop t end k (depth +ℤ negsuc 0) (fe + 6) in
    let behind = else_loop t end k depth (el + 5) in
    if leb end i
    then npos
    else if (n == npos) || leb end n
    then npos
    else if n == fi
    then inside
    else if n == fe
    then outside
    else if eqb_ℤ depth (pos 0)
    then el
    else behind

unfoldable pub find_else : Text → ℕ → ℕ → ℕ
unfolding else_loop
find_else t from end = else_loop t end (suc (length t)) (pos 0) from
