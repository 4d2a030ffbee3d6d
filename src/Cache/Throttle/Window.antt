-- ===== src/Cache/Throttle/Window.antt =====
-- The fixed window of the rate limiter: who is let through, and when the count starts again.
use public_cpp_laravel.Prelude.{
  ℕ, suc, ◌+◌, ◌*◌, ◌/◌, ◌≤◌, ◌<◌, ◌^◌, ◌≡◌, refl, ap, ◌∙◌, List, [], ◌∷◌, none, some, arith, ltb,
  if◌then◌else◌, length, All, Text, text_eq_refl, split_at-append,
}
use public_cpp_laravel.Prelude.Int.{ℤ, pos, ◌+ℤ◌, ◌-ℤ◌}
use public_cpp_laravel.Http.Messages.{Request, Response, json, response}
use public_cpp_laravel.Http.Pipeline.{Run, returned, threw}
use public_cpp_laravel.Session.Auth.{Decimal, CookieOptions}
use public_cpp_laravel.Cache.{ArrayCache, put_for, get}
use public_cpp_laravel.Cache.Laws.{cached, cached-put_for}
use public_cpp_laravel.Cache.Throttle.{
  Counting, bucket_key, World, both, parse_split, parse_bucket, roll, bucket_text, hit, too_many,
  admit, throttle,
}

add_one : (n : ℕ) → pos n +ℤ pos 1 ≡ pos (suc n)
unfolding ◌+ℤ◌
add_one n = ground arith

module _ (dec : Decimal) (num : Counting dec) where
  parse_bucket-bucket_text :
      (now : ℤ) (n s : ℕ)
      → n < 2 ^ 31
      → s < 2 ^ 63
      → parse_bucket dec num now (some (bucket_text dec num (pos n) (pos s))) ≡ (pos n, pos s)
  unfolding parse_bucket parse_split both bucket_text
  parse_bucket-bucket_text now n s hn hs =
      rw
        (
          split_at-append b'|' (dec.to_string (pos n)) (dec.to_string (pos s))
              (num.to_string_no_bar (pos n)),
          num.stoi-to_string n hn,
          dec.stoll-to_string (pos s) (omega arith),
        )
        refl

  roll_inside :
      (window k n s : ℕ)
      → k < s + window
      → roll dec num window (pos k) (pos n, pos s) ≡ (pos n, pos s)
  unfolding roll ◌-ℤ◌
  roll_inside window k n s h = ground arith

  roll_outside :
      (window k n s : ℕ)
      → s + window ≤ k
      → roll dec num window (pos k) (pos n, pos s) ≡ (pos 0, pos k)
  unfolding roll ◌-ℤ◌
  roll_outside window k n s h = ground arith

  roll_unused :
      (window k : ℕ)
      → roll dec num window (pos k) (parse_bucket dec num (pos k) none) ≡ (pos 0, pos k)
  unfolding roll parse_bucket ◌-ℤ◌
  roll_unused window k = ground arith

  -- The cache holds a count for the window that began at second `s`, until `ends`.
  abbrev pub Holds : ArrayCache → Text → ℕ → ℕ → ℕ → Type 0
  Holds c key n s ends =
      (later : ℕ) → later < ends → cached c later key ≡ some (bucket_text dec num (pos n) (pos s))

  -- What a request counts as, by the window that its bucket is in.
  unfoldable pub Counted : ℕ → ArrayCache → ℕ → Text → ℕ → ℕ → Type 0
  Counted window c now key n s =
      (c' : ArrayCache) × (hit dec num window c now key ≡ (pos n, pos s, c'))
      × Holds c' key n s (now + window * 1000 * 2)

  hit-Counted :
      (window : ℕ) (c : ArrayCache) (now : ℕ) (key : Text) (n s : ℕ)
      → roll dec num window
          (pos (now / 1000))
          (parse_bucket dec num (pos (now / 1000)) (cached c now key))
        ≡ (pos n, pos s)
      → Counted window c now key (suc n) s
  unfolding Counted hit cached
  hit-Counted window c now key n s e =
      let c1 : ArrayCache = (get c now key).1 in
      let text_ : Text = bucket_text dec num (pos (suc n)) (pos s) in
      (
        put_for c1 now key text_ (window * 1000 * 2),
        rw (e, add_one n) refl,
        λ later h. ground (
          arith,
          cached-put_for c1 now later key key text_ (window * 1000 * 2),
          text_eq_refl key,
        ),
      )

  module _ (most window : ℕ) (opts : CookieOptions) (req : Request) (ok : Response) where
    -- One request after another at the given times, before a handler that answers `ok` and leaves the
    -- cache alone: the status codes.
    unfoldable pub answer : Run World → (ArrayCache → List ℕ) → List ℕ
    answer (returned res r w) rest = res.status ∷ rest w.cache
    answer (threw w) rest = []

    abbrev pub answers : ArrayCache → List ℕ → List ℕ
    answers c [] = []
    answers c (t ∷ ts) =
        answer
          (throttle dec num (pos most) window opts req (λ r w. returned ok r w)
            (record { cache = c; now = t }))
          (λ c'. answers c' ts)

    -- What `most` requests in a window means, after `n` of them.
    abbrev pub allowance : ℕ → List ℕ → List ℕ
    allowance n [] = []
    allowance n (t ∷ ts) = (if ltb n most then ok.status else 429) ∷ allowance (suc n) ts

    answer-throttle :
        (c c' : ArrayCache) (now n s : ℕ) (rest : ArrayCache → List ℕ)
        → hit dec num window c now (bucket_key req opts) ≡ (pos (suc n), pos s, c')
        → answer
            (throttle dec num
              (pos most)
              window
              opts
              req
              (λ r w. returned ok r w)
              (record { cache = c; now = now }))
            rest
          ≡ (if ltb n most then ok.status else 429) ∷ rest c'
    unfolding answer throttle admit too_many json response
    answer-throttle c c' now n s rest e =
        ap
          (λ h.
            answer
              (admit dec num (pos most) window h req (λ r w. returned ok r w)
                (record { cache = c; now = now }))
              rest)
          e
        ∙ ground arith

    -- A time within the window that began at second `s`.
    abbrev pub Within : ℕ → ℕ → Type 0
    Within s t = (s * 1000 ≤ t) × (t / 1000 < s + window)

    answers_inside :
        (c : ArrayCache) (n s : ℕ) (ts : List ℕ)
        → n + length ts < 2 ^ 31
        → s < 2 ^ 63
        → Holds c (bucket_key req opts) n s (s * 1000 + window * 2000)
        → All (Within s) ts
        → answers c ts ≡ allowance n ts
    unfolding Counted
    answers_inside c n s [] hn hs held inside = refl
    answers_inside c n s (t ∷ ts) hn hs held (now_inside, inside) =
        let key : Text = bucket_key req opts in
        let found : cached c t key ≡ some (bucket_text dec num (pos n) (pos s)) =
          held t (omega arith) in
        let (c', counted, held') = hit-Counted window c t key n s (
          rw found (
            ap (roll dec num window (pos (t / 1000)))
              (parse_bucket-bucket_text (pos (t / 1000)) n s (omega arith) hs)
            ∙ roll_inside window (t / 1000) n s now_inside.1)) in
        answer-throttle c c' t n s (λ d. answers d ts) counted
        ∙ ap (λ l. (if ltb n most then ok.status else 429) ∷ l)
            (answers_inside c' (suc n) s ts (omega arith) hs (λ later h. held' later (omega arith))
              inside)

    -- From a request with no bucket on, the window that it opens lets the first `most` requests
    -- through to a handler that leaves the cache alone, and answers every further one with 429, for
    -- fewer than 2 ^ 31 requests.
    pub throttle_window :
        (c : ArrayCache) (t0 : ℕ) (ts : List ℕ)
        → cached c t0 (bucket_key req opts) ≡ none
        → suc (length ts) < 2 ^ 31
        → t0 / 1000 < 2 ^ 63
        → All (Within (t0 / 1000)) ts
        → answers c (t0 ∷ ts) ≡ allowance 0 (t0 ∷ ts)
    unfolding Counted
    throttle_window c t0 ts empty_ hn hs inside =
        let key : Text = bucket_key req opts in
        let (c', counted, held') =
          hit-Counted window c t0 key 0 (t0 / 1000) (rw empty_ (roll_unused window (t0 / 1000))) in
        answer-throttle c c' t0 0 (t0 / 1000) (λ d. answers d ts) counted
        ∙ ap (λ l. (if ltb 0 most then ok.status else 429) ∷ l)
            (answers_inside c' 1 (t0 / 1000) ts (omega arith) hs
              (λ later h. held' later (omega arith)) inside)

    -- Whatever the count in a client's bucket, its first request after the window has ended is let
    -- through, where any are, and opens a new window at its own time with a count of one.
    pub throttle_reopens :
        (c : ArrayCache) (now n s : ℕ)
        → 0 < most
        → n < 2 ^ 31
        → s < 2 ^ 63
        → cached c now (bucket_key req opts) ≡ some (bucket_text dec num (pos n) (pos s))
        → s + window ≤ now / 1000
        → (answers c (now ∷ []) ≡ ok.status ∷ [])
          × Counted window c now (bucket_key req opts) 1 (now / 1000)
    unfolding Counted
    throttle_reopens c now n s hm hn hs found ended =
        let key : Text = bucket_key req opts in
        let (c', counted, held') = hit-Counted window c now key 0 (now / 1000) (
          rw found (
            ap (roll dec num window (pos (now / 1000)))
              (parse_bucket-bucket_text (pos (now / 1000)) n s hn hs)
            ∙ roll_outside window (now / 1000) n s ended)) in
        (
          answer-throttle c c' now 0 (now / 1000) (λ d. []) counted ∙ ground arith,
          (c', counted, held'),
        )
