-- ===== src/Cache/Laws.antt =====
-- What a cache holds at a time, and what its operations do to that.
use public_cpp_laravel.Prelude.{
  ℕ, ◌+◌, ◌≡◌, refl, sym, ap, ◌∙◌, Bool, false, ◌||◌, List, [], ◌∷◌, Option, none, some, arith, ltb,
  if◌then◌else◌, Text, text_eq, text_eq_refl, text_eq_iff, Dict, lookup, erase, text_key,
  lookup-insert, lookup-erase, Bool-cases, inl, inr,
}
use public_cpp_laravel.Cache.{
  Entry, ArrayCache, is_expired, put, put_for, forget, get, get_in, remember, remember_in,
  forget_keys, flush_tag, tagged_flush,
}

unfoldable pub cached : ArrayCache → ℕ → Text → Option Text
unfolding get
cached c now key = (get c now key).0

unfoldable pub fresh : Option Entry → ℕ → Option Text
unfolding is_expired
fresh none now = none
fresh (some e) now = if is_expired e.expires now then none else some e.value

get_in-fresh :
    (o : Option Entry) (c : ArrayCache) (now : ℕ) (key : Text)
    → (get_in o c now key).0 ≡ fresh o now
unfolding get_in fresh
get_in-fresh none c now key = refl
get_in-fresh (some e) c now key = ground arith

pub cached-fresh :
    (c : ArrayCache) (now : ℕ) (key : Text) → cached c now key ≡ fresh (lookup key c.items) now
unfolding cached
cached-fresh c now key = get_in-fresh (lookup key c.items) c now key

cached-forget :
    (c : ArrayCache) (now : ℕ) (key other : Text)
    → cached (forget c key) now other ≡ (if text_eq key other then none else cached c now other)
unfolding forget fresh
cached-forget c now key other = ground (
  arith,
  cached-fresh (forget c key) now other,
  cached-fresh c now other,
  lookup-erase key other c.items,
)

-- A value put with a time to live is read back until that has passed and not after it, and every
-- other key is as it was.
pub cached-put_for :
    (c : ArrayCache) (now later : ℕ) (key other value : Text) (ttl : ℕ)
    → cached (put_for c now key value ttl) later other ≡ (
        if text_eq key other
        then (if ltb later (now + ttl) then some value else none)
        else cached c later other)
unfolding put_for fresh is_expired
cached-put_for c now later key other value ttl = ground (
  arith,
  cached-fresh (put_for c now key value ttl) later other,
  cached-fresh c later other,
  lookup-insert key other (record { value = value; expires = some (now + ttl) }) c.items,
)

cached-put :
    (c : ArrayCache) (now : ℕ) (key other value : Text)
    → cached (put c key value) now other
      ≡ (if text_eq key other then some value else cached c now other)
unfolding put fresh is_expired
cached-put c now key other value = ground (
  arith,
  cached-fresh (put c key value) now other,
  cached-fresh c now other,
  lookup-insert key other (record { value = value; expires = none }) c.items,
)

unfoldable pub listed : Text → Option (List Text) → Bool
listed key none = false
listed key (some []) = false
listed key (some (k ∷ ks)) = text_eq k key || listed key (some ks)

-- Whether a key was put under one of the tags.
abbrev pub is_tagged : List Text → Dict Text (List Text) → Text → Bool
is_tagged [] tagged key = false
is_tagged (t ∷ ts) tagged key = listed key (lookup t tagged) || is_tagged ts tagged key

forget_keys-cached :
    (keys : List Text) (c : ArrayCache) (now : ℕ) (key : Text)
    → cached (forget_keys keys c) now key
      ≡ (if listed key (some keys) then none else cached c now key)
unfolding forget_keys listed
forget_keys-cached [] c now key = refl
forget_keys-cached (k ∷ ks) c now key =
    ground (arith, forget_keys-cached ks (forget c k) now key, cached-forget c now k key)

forget_keys-tagged_keys :
    (keys : List Text) (c : ArrayCache) → (forget_keys keys c).tagged_keys ≡ c.tagged_keys
unfolding forget_keys
forget_keys-tagged_keys [] c = refl
forget_keys-tagged_keys (k ∷ ks) c = forget_keys-tagged_keys ks (forget c k)

is_tagged-erase :
    (ts : List Text) (t : Text) (tagged : Dict Text (List Text)) (key : Text)
    → listed key (lookup t tagged) ≡ false
    → is_tagged ts (erase t tagged) key ≡ is_tagged ts tagged key
unfolding listed
is_tagged-erase [] t tagged key h = refl
is_tagged-erase (u ∷ us) t tagged key h =
    ground (arith, lookup-erase t u tagged, text_eq_iff t u, is_tagged-erase us t tagged key h)

flush_tag-cached :
    (o : Option (List Text)) (t : Text) (c : ArrayCache) (now : ℕ) (key : Text)
    → cached (flush_tag o t c) now key ≡ (if listed key o then none else cached c now key)
unfolding flush_tag listed
flush_tag-cached none t c now key = refl
flush_tag-cached (some keys) t c now key =
    cached-fresh (flush_tag (some keys) t c) now key
    ∙ sym (cached-fresh (forget_keys keys c) now key)
    ∙ forget_keys-cached keys c now key

flush_tag-tagged :
    (o : Option (List Text)) (t : Text) (c : ArrayCache) (ts : List Text) (key : Text)
    → lookup t c.tagged_keys ≡ o
    → listed key o ≡ false
    → is_tagged ts (flush_tag o t c).tagged_keys key ≡ is_tagged ts c.tagged_keys key
unfolding flush_tag
flush_tag-tagged none t c ts key e h = refl
flush_tag-tagged (some keys) t c ts key e h =
    ap (λ tagged. is_tagged ts (erase t tagged) key) (forget_keys-tagged_keys keys c)
    ∙ is_tagged-erase ts t c.tagged_keys key (rw e h)

-- A flush of some tags drops every key that was put under one of them, and no other.
pub cached-tagged_flush :
    (ts : List Text) (c : ArrayCache) (now : ℕ) (key : Text)
    → cached (tagged_flush ts c) now key
      ≡ (if is_tagged ts c.tagged_keys key then none else cached c now key)
unfolding tagged_flush
cached-tagged_flush [] c now key = refl
cached-tagged_flush (t ∷ ts) c now key =
    let o : Option (List Text) = lookup t c.tagged_keys in
    cached-tagged_flush ts (flush_tag o t c) now key ∙ elim (Bool-cases (listed key o)) [
      | inl hit ↦ rw hit (ground (arith, flush_tag-cached o t c now key))
      | inr miss ↦
          rw (miss, flush_tag-tagged o t c ts key refl miss)
            (ground (arith, flush_tag-cached o t c now key))
    ]

remember_in-cached :
    (o : Option Text) (c : ArrayCache) (now : ℕ) (key : Text)
    (compute : ArrayCache → Text × ArrayCache)
    → cached c now key ≡ o
    → cached (remember_in o c key compute).1 now key ≡ some (remember_in o c key compute).0
unfolding remember_in
remember_in-cached (some v) c now key compute e = e
remember_in-cached none c now key compute e =
    cached-put (compute c).1 now key key (compute c).0 ∙ rw (text_eq_refl key) refl

cached-get_self :
    (o : Option Entry) (c : ArrayCache) (now : ℕ) (key : Text)
    → lookup key c.items ≡ o
    → cached (get_in o c now key).1 now key ≡ (get_in o c now key).0
unfolding get_in
cached-get_self none c now key e =
    ground (arith, cached-fresh c now key, get_in-fresh none c now key)
cached-get_self (some x) c now key e = ground (
  arith,
  cached-fresh c now key,
  get_in-fresh (some x) c now key,
  cached-forget c now key key,
  text_eq_refl key,
)

-- What `remember` returns is what the cache holds under the key at that time,
-- whatever the computation does to the cache.
pub cached-remember :
    (c : ArrayCache) (now : ℕ) (key : Text) (compute : ArrayCache → Text × ArrayCache)
    → cached (remember c now key compute).1 now key ≡ some (remember c now key compute).0
unfolding remember get
cached-remember c now key compute =
    let step : Option Text × ArrayCache = get_in (lookup key c.items) c now key in
    remember_in-cached step.0 step.1 now key compute
      (cached-get_self (lookup key c.items) c now key refl)
