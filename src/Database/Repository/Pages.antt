-- ===== src/Database/Repository/Pages.antt =====
-- The pages of `paginate` are the whole result.
use public_cpp_laravel.Prelude.{
  ◌>>=◌, ℕ, zero, suc, ◌+◌, ◌-◌, ◌*◌, ◌%◌, ◌^◌, ◌≤◌, ◌<◌, ◌≡◌, refl, ap, sym, ◌∙◌, Bool, false,
  List, [], ◌∷◌, ◌++◌, Option, none, some, arith, if◌then◌else◌, ◌==◌, length, take, drop, take-all,
  lookup, text_key,
}
use public_cpp_laravel.Database.Value.{Float, Row}
use public_cpp_laravel.Database.Memory.{Connection, rows_or_empty}
use public_cpp_laravel.Database.Select.{
  Query, OrderClause, WhereClause, keep, passes, order_rows, skip_rows, cut_rows, select,
  insert_sorted, stable_sort, before, page,
}
use public_cpp_laravel.Database.Select
use public_cpp_laravel.Database.Select.Pages.{cut_page, take-add}
use public_cpp_laravel.Database.Repository.Hydrated.{
  length-hydrate_all, hydrate_all-take, hydrate_all-drop,
}
use public_cpp_laravel.Database.Repository.{
  Mapper, hydrate_all, get, count, last_page_of, offset_of, paginate,
}

length-insert_sorted :
    {A : Type 0} (lt : A → A → Bool) (x : A) (ys : List A)
    → length (insert_sorted lt x ys) ≡ suc (length ys)
unfolding insert_sorted
length-insert_sorted lt x [] = refl
length-insert_sorted lt x (y ∷ ys) = ground (arith, length-insert_sorted lt x ys)

length-stable_sort :
    {A : Type 0} (lt : A → A → Bool) (xs : List A) → length (stable_sort lt xs) ≡ length xs
unfolding stable_sort
length-stable_sort lt [] = refl
length-stable_sort lt (x ∷ xs) =
    length-insert_sorted lt x (stable_sort lt xs) ∙ ap suc (length-stable_sort lt xs)

length-order_rows :
    {D : Type 0} (fl : Float D) (o : Option OrderClause) (xs rows : List (Row D))
    → order_rows fl o xs ≡ some rows
    → length rows ≡ length xs
unfolding order_rows
length-order_rows fl none xs rows h = ground (arith, h)
length-order_rows fl (some o) xs rows h = ground (arith, h, length-stable_sort (before fl o) xs)

module _ {D T : Type 0} (fl : Float D) (mapper : Mapper D T) (c : Connection D) (q : Query D) where
  -- The query without a page.
  abbrev pub whole : Query D
  whole = record q { limit = none; offset = none }

  abbrev matching : List (Row D)
  matching = keep (passes fl q.wheres) (rows_or_empty (lookup mapper.table c.tables))

  abbrev found : Option (List (Row D))
  found = order_rows fl q.order matching

  page-whole :
      (o : Option (List (Row D)))
      → (page none none o >>= hydrate_all mapper) ≡ (o >>= hydrate_all mapper)
  unfolding skip_rows cut_rows
  page-whole none = refl
  page-whole (some rows) = refl

  get-whole : get fl mapper c whole ≡ (page none none found >>= hydrate_all mapper)
  unfolding get select
  get-whole = refl

  found_rows :
      (o : Option (List (Row D))) (ts : List T)
      → (o >>= hydrate_all mapper) ≡ some ts
      → (rows : List (Row D)) × (o ≡ some rows) × (hydrate_all mapper rows ≡ some ts)
  found_rows none ts h = absurd (cc)
  found_rows (some rows) ts h = (rows, refl, h)

  count-whole : count fl mapper c whole ≡ some (length matching)
  unfolding count Select.count select order_rows skip_rows cut_rows
  count-whole = refl

  get-page :
      (limit offset : ℕ) (rows : List (Row D)) (ts : List T)
      → found ≡ some rows
      → hydrate_all mapper rows ≡ some ts
      → get fl mapper c (record q { limit = some limit; offset = some offset })
        ≡ some (take limit (drop offset ts))
  unfolding get select
  get-page limit offset rows ts there made =
      rw (there, cut_page offset limit rows)
        (hydrate_all-take mapper limit (drop offset rows) (drop offset ts)
          (hydrate_all-drop mapper offset rows ts made))

  offset_of-small :
      (n per_page : ℕ) → n * per_page < 2 ^ 64 → offset_of (suc n) per_page ≡ n * per_page
  unfolding offset_of
  offset_of-small n per_page h =
      let e : (if suc n == 0 then 0 else suc n - 1) ≡ n = ground arith in
      ap (λ k. k * per_page % 2 ^ 64) e ∙ omega arith

  paginate_lem :
      (ts : List T) (n per_page : ℕ)
      → get fl mapper c whole ≡ some ts
      → n * per_page < 2 ^ 64
      → paginate fl mapper c q (suc n) per_page
        ≡ some (record {
          items = take per_page (drop (n * per_page) ts);
          total = length ts;
          page = suc n;
          per_page = per_page;
          last_page = last_page_of (length ts) per_page;
        })
  unfolding paginate
  paginate_lem ts n per_page h small =
      let (rows, there, made) = found_rows found ts (sym (page-whole found) ∙ sym get-whole ∙ h) in
      let same : length matching ≡ length ts =
        sym (length-order_rows fl q.order matching rows there)
        ∙ sym (length-hydrate_all mapper rows ts made) in
      rw
        (
          count-whole,
          same,
          offset_of-small n per_page small,
          get-page per_page (n * per_page) rows ts there made,
        )
        refl

  -- The items of the first `n` pages, in order.
  abbrev pub pages_upto : ℕ → ℕ → Option (List T)
  pages_upto zero per_page = some []
  pages_upto (suc n) per_page = pages_upto n per_page >>= λ earlier.
      paginate fl mapper c q (suc n) per_page >>= λ p. some (earlier ++ p.items)

  suc_mul_lem : (n m : ℕ) → suc n * m ≡ n * m + m
  suc_mul_lem n m = grind arith

  pages_upto-take :
      (ts : List T) (n per_page : ℕ)
      → get fl mapper c whole ≡ some ts
      → n * per_page < 2 ^ 64
      → pages_upto n per_page ≡ some (take (n * per_page) ts)
  pages_upto-take ts zero per_page h small = let e : 0 * per_page ≡ 0 = omega arith in rw e refl
  pages_upto-take ts (suc n) per_page h small =
      let before : n * per_page < 2 ^ 64 = omega (arith, suc_mul_lem n per_page) in
      let more : suc n * per_page ≡ n * per_page + per_page = grind arith in
      rw (pages_upto-take ts n per_page h before, paginate_lem ts n per_page h before, more)
        (ap some (sym (take-add (n * per_page) per_page ts)))

  last_page_enough :
      (total per_page : ℕ)
      → 0 < per_page
      → total + per_page ≤ 2 ^ 64
      → (total ≤ last_page_of total per_page * per_page)
        × (last_page_of total per_page * per_page < 2 ^ 64)
  unfolding last_page_of
  last_page_enough total per_page pos small =
      let fits : (total + per_page - 1) % 2 ^ 64 ≡ total + per_page - 1 = omega arith in
      let apart : (per_page == 0) ≡ false = ground arith in
      rw (apart, fits) (grind arith, grind arith)

  -- The pages from the first to the last, of any size but 0, are the whole result in order: no model
  -- is skipped and none is given twice, while the number of models and the size together fit in
  -- `std::size_t`.
  pub pages_upto-last_page :
      (ts : List T) (per_page : ℕ)
      → get fl mapper c whole ≡ some ts
      → 0 < per_page
      → length ts + per_page ≤ 2 ^ 64
      → pages_upto (last_page_of (length ts) per_page) per_page ≡ some ts
  pages_upto-last_page ts per_page h some_size small =
      let (enough, fits) = last_page_enough (length ts) per_page some_size small in
      let n : ℕ = last_page_of (length ts) per_page in
      pages_upto-take ts n per_page h fits ∙ ap some (take-all (n * per_page) ts enough)
