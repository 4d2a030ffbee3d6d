-- ===== src/Cache.antt =====
-- include/cache.hpp: `ArrayCache`, its tags and the sugar of `CacheContract`. The clock is an
-- argument, in milliseconds. A `const` method that purges an entry returns the new cache.
pub mod Laws
pub mod Throttle
use public_cpp_laravel.Prelude.{
  ℕ, ◌+◌, Bool, true, false, List, [], ◌∷◌, ◌++◌, Option, none, some, leb, is_some, if◌then◌else◌,
  Text, Dict, lookup, insert, erase, text_key,
}

pub record Entry : Type 0 where
  pub value : Text
  pub expires : Option ℕ

pub record ArrayCache : Type 0 where
  pub items : Dict Text Entry
  pub tagged_keys : Dict Text (List Text)

unfoldable pub is_expired : Option ℕ → ℕ → Bool
is_expired none now = false
is_expired (some at_) now = leb at_ now

unfoldable pub put : ArrayCache → Text → Text → ArrayCache
put c key value = record c { items = insert key (record { value = value; expires = none }) c.items }

-- `put` with a time to live.
unfoldable pub put_for : ArrayCache → ℕ → Text → Text → ℕ → ArrayCache
put_for c now key value ttl = record c {
  items = insert key (record { value = value; expires = some (now + ttl) }) c.items;
}

unfoldable pub forget : ArrayCache → Text → ArrayCache
forget c key = record c { items = erase key c.items }

-- `get` on what stands under the key.
unfoldable pub get_in : Option Entry → ArrayCache → ℕ → Text → Option Text × ArrayCache
unfolding is_expired forget
get_in none c now key = (none, c)
get_in (some e) c now key =
    if is_expired e.expires now then (none, forget c key) else (some e.value, c)

unfoldable pub get : ArrayCache → ℕ → Text → Option Text × ArrayCache
unfolding get_in
get c now key = get_in (lookup key c.items) c now key

unfoldable pub has : ArrayCache → ℕ → Text → Bool × ArrayCache
unfolding get
has c now key = let (v, c') = get c now key in (is_some v, c')

unfoldable pub or_default : Option Text → Text → Text
or_default none def = def
or_default (some v) def = v

unfoldable pub get_or : ArrayCache → ℕ → Text → Text → Text × ArrayCache
unfolding get or_default
get_or c now key def = let (v, c') = get c now key in (or_default v def, c')

-- `remember` after its `get`; `compute` may use the cache.
unfoldable pub remember_in :
    Option Text → ArrayCache → Text → (ArrayCache → Text × ArrayCache) → Text × ArrayCache
unfolding put
remember_in (some v) c key compute = (v, c)
remember_in none c key compute = let (value, c') = compute c in (value, put c' key value)

unfoldable pub remember :
    ArrayCache → ℕ → Text → (ArrayCache → Text × ArrayCache) → Text × ArrayCache
unfolding get remember_in
remember c now key compute = let (v, c') = get c now key in remember_in v c' key compute

abbrev keys_or_none : Option (List Text) → List Text
keys_or_none none = []
keys_or_none (some keys) = keys

-- The loop of `TaggedCache::put`.
unfoldable pub add_key : List Text → Text → Dict Text (List Text) → Dict Text (List Text)
add_key [] key tagged = tagged
add_key (t ∷ ts) key tagged =
    add_key ts key (insert t (keys_or_none (lookup t tagged) ++ (key ∷ [])) tagged)

unfoldable pub tagged_put : ArrayCache → List Text → Text → Text → ArrayCache
unfolding put add_key
tagged_put c tags key value =
    let c' : ArrayCache = put c key value in
    record c' { tagged_keys = add_key tags key c'.tagged_keys }

-- `for (const auto& key : it->second) cache_->forget(key)`
unfoldable pub forget_keys : List Text → ArrayCache → ArrayCache
unfolding forget
forget_keys [] c = c
forget_keys (k ∷ ks) c = forget_keys ks (forget c k)

-- One round of `TaggedCache::flush`.
unfoldable pub flush_tag : Option (List Text) → Text → ArrayCache → ArrayCache
unfolding forget_keys
flush_tag none t c = c
flush_tag (some keys) t c =
    let c' : ArrayCache = forget_keys keys c in record c' { tagged_keys = erase t c'.tagged_keys }

unfoldable pub tagged_flush : List Text → ArrayCache → ArrayCache
unfolding flush_tag
tagged_flush [] c = c
tagged_flush (t ∷ ts) c = tagged_flush ts (flush_tag (lookup t c.tagged_keys) t c)
