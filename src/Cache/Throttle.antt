-- ===== src/Cache/Throttle.antt =====
-- include/http_auth.hpp: `throttle`, over the array cache. One instant stands for the clock readings
-- of a request. `std::stoi` and the shape of a printed number are a parameter.
pub mod Window
use public_cpp_laravel.Prelude.{
  ℕ, ◌+◌, ◌*◌, ◌/◌, ◌<◌, ◌^◌, ◌≡◌, ◌≢◌, Bool, true, false, List, [], ◌∷◌, ◌++◌, Option, none, some,
  is_empty, if◌then◌else◌, All, Text, codes, split_at, lookup, insert, text_key,
}
use public_cpp_laravel.Prelude.Int.{ℤ, pos, ◌+ℤ◌, ◌-ℤ◌, ltb_ℤ, leb_ℤ}
use public_cpp_laravel.Http.Messages.{Request, Response, json}
use public_cpp_laravel.Http.Pipeline.{Run, returned, Handler}
use public_cpp_laravel.Session.Auth.{Decimal, CookieOptions}
use public_cpp_laravel.Cache.{ArrayCache, put_for, get}

-- `none` is an exception; a printed number has no bar in it.
pub record Counting (dec : Decimal) : Type 0 where
  pub stoi : Text → Option ℤ
  pub stoi-to_string : (n : ℕ) → n < 2 ^ 31 → stoi (dec.to_string (pos n)) ≡ some (pos n)
  pub to_string_no_bar : (n : ℤ) → All (λ c. c ≢ b'|') (dec.to_string n)

-- `cookies.count(name) ? cookies.at(name) : "anon"`
abbrev or_anon : Option Text → Text
or_anon none = codes "anon"
or_anon (some id) = id

unfoldable pub bucket_key : Request → CookieOptions → Text
bucket_key req opts =
    codes "throttle:"
    ++ (req.path
        ++ (b':'
            ∷ (if is_empty req.remote_addr
                then or_anon (lookup opts.name req.cookies)
                else req.remote_addr)))

-- A handler's state here: the cache and the clock in milliseconds.
pub record World : Type 0 where
  pub cache : ArrayCache
  pub now : ℕ

module _ (dec : Decimal) (num : Counting dec) where
  -- The `try` block, from what the two conversions give.
  unfoldable pub both : ℤ → Option ℤ → Option ℤ → ℤ × ℤ
  both now none start = (pos 0, now)
  both now (some count) none = (pos 0, now)
  both now (some count) (some start) = (count, start)

  unfoldable pub parse_split : ℤ → Option (Text × Text) → ℤ × ℤ
  unfolding both
  parse_split now none = (pos 0, now)
  parse_split now (some (count, start)) = both now (num.stoi count) (dec.stoll start)

  -- `count` and `start` after the cache is read.
  unfoldable pub parse_bucket : ℤ → Option Text → ℤ × ℤ
  unfolding parse_split
  parse_bucket now none = (pos 0, now)
  parse_bucket now (some v) = parse_split now (split_at b'|' v)

  -- `if (now - start >= window.count())`
  unfoldable pub roll : ℕ → ℤ → ℤ × ℤ → ℤ × ℤ
  roll window now (count, start) =
      if leb_ℤ (pos window) (now -ℤ start) then (pos 0, now) else (count, start)

  unfoldable pub bucket_text : ℤ → ℤ → Text
  bucket_text count start = dec.to_string count ++ (b'|' ∷ dec.to_string start)

  -- Up to the `cache->put`: the new count, the window's start and the cache.
  unfoldable pub hit : ℕ → ArrayCache → ℕ → Text → ℤ × ℤ × ArrayCache
  unfolding parse_bucket roll bucket_text put_for get
  hit window c now key =
      let (v, c1) = get c now key in
      let (count, start) = roll window (pos (now / 1000)) (parse_bucket (pos (now / 1000)) v) in
      (
        count +ℤ pos 1,
        start,
        put_for c1 now key (bucket_text (count +ℤ pos 1) start) (window * 1000 * 2),
      )

  unfoldable pub too_many : ℕ → ℤ → ℤ → Response
  unfolding json insert
  too_many window now start =
      let retry : ℤ = (start +ℤ pos window) -ℤ now in
      let r : Response = json (codes "{\"error\":\"too many requests\"}") 429 in
      record r {
        headers =
            insert (codes "Retry-After")
              (dec.to_string (if ltb_ℤ (pos 0) retry then retry else pos window)) r.headers;
      }

  -- From `if (count > max)` on.
  unfoldable pub admit : ℤ → ℕ → ℤ × ℤ × ArrayCache → Request → Handler World → World → Run World
  unfolding too_many
  admit most window (count, start, c) req next w =
      let w' : World = record w { cache = c } in
      if ltb_ℤ most count
      then returned (too_many window (pos (w.now / 1000)) start) req w'
      else next req w'

  unfoldable pub throttle : ℤ → ℕ → CookieOptions → Request → Handler World → World → Run World
  unfolding hit admit bucket_key
  throttle most window opts req next w =
      admit most window (hit window w.cache w.now (bucket_key req opts)) req next w
