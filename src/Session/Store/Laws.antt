-- ===== src/Session/Store/Laws.antt =====
-- What a session store keeps, drops and moves. `value_of` is the abstract view: what a session holds
-- under a key at a time.
use public_cpp_laravel.Prelude.{
  ℕ, ◌+◌, ◌≡◌, ◌≢◌, ◌<◌, inl, inr, Bool, Bool-cases, text_eq, text_eq→≡, leb, ◌||◌, refl, ap, sym,
  ◌∙◌, Option, none, some, arith, ◌==◌, not, ◌&&◌, if◌then◌else◌, Text, Dict, lookup, insert, erase,
  text_key, text_eq_iff, text_eq_refl, lookup-insert, lookup-erase,
}
use public_cpp_laravel.Session.Store.{
  Store, write, or_empty, touch, is_stale, drop_if_expired, put, read, get, flush, session_of,
}

unfoldable pub value_of : Store → ℕ → Text → Text → Option Text
unfolding get
value_of s now sid key = (get s now sid key).0

-- The session under an id at a time: none if it is stale or was never written.
unfoldable pub live : Store → ℕ → Text → Option (Dict Text Text)
live s now sid =
    if not (s.ttl == 0) && is_stale s.ttl now (lookup sid s.last_seen)
    then none
    else lookup sid s.entries

-- Whether a session last used at `now` still stands `later`, by a time to live where 0 is for ever.
abbrev pub in_time : ℕ → ℕ → ℕ → Bool
in_time ttl now later = ttl == 0 || leb later (now + ttl)

lookup-erase_self {ℓ} : {V : Type ℓ} (k : Text) (m : Dict Text V) → lookup k (erase k m) ≡ none
lookup-erase_self k m = ground (arith, lookup-erase k k m, text_eq_refl k)

pub lookup-insert_self {ℓ} :
    {V : Type ℓ} (k : Text) (v : V) (m : Dict Text V) → lookup k (insert k v m) ≡ some v
lookup-insert_self k v m = ground (arith, lookup-insert k k v m, text_eq_refl k)

-- After the lazy expiry the entries hold what is live.
pub drop_if_expired-live :
    (s : Store) (now : ℕ) (sid : Text)
    → lookup sid (drop_if_expired s now sid).entries ≡ live s now sid
unfolding drop_if_expired live
drop_if_expired-live s now sid = ground (arith, lookup-erase_self sid s.entries)

pub value_of-live :
    (s : Store) (now : ℕ) (sid key : Text) → value_of s now sid key ≡ read (live s now sid) key
unfolding value_of
value_of-live s now sid key = ap (λ o. read o key) (drop_if_expired-live s now sid)

-- The expiry of one session leaves the others alone.
pub drop_if_expired-other :
    (s : Store) (now later : ℕ) (sid other : Text)
    → sid ≢ other
    → live (drop_if_expired s now sid) later other ≡ live s later other
unfolding drop_if_expired live
drop_if_expired-other s now later sid other h = ground (
  arith,
  text_eq_iff sid other,
  lookup-erase sid other s.entries,
  lookup-erase sid other s.last_seen,
)

pub drop_if_expired-ttl :
    (s : Store) (now : ℕ) (sid : Text) → (drop_if_expired s now sid).ttl ≡ s.ttl
unfolding drop_if_expired
drop_if_expired-ttl s now sid = ground arith

-- A session touched at `now` is live until its time to live has passed.
pub touch-live :
    (s : Store) (now later : ℕ) (sid : Text)
    → live (touch s now sid) later sid
      ≡ (if in_time s.ttl now later then lookup sid s.entries else none)
unfolding touch live is_stale
touch-live s now later sid = ground (arith, lookup-insert_self sid now s.last_seen)

pub touch-other :
    (s : Store) (now later : ℕ) (sid other : Text)
    → sid ≢ other
    → live (touch s now sid) later other ≡ live s later other
unfolding touch live
touch-other s now later sid other h =
    ground (arith, text_eq_iff sid other, lookup-insert sid other now s.last_seen)

write-other :
    (s : Store) (now : ℕ) (sid other key value : Text)
    → sid ≢ other
    → live (write s sid key value) now other ≡ live s now other
unfolding live
write-other s now sid other key value h = ground (
  arith,
  text_eq_iff sid other,
  lookup-insert sid other (insert key value (session_of sid s.entries)) s.entries,
)

pub put-ttl : (s : Store) (now : ℕ) (sid key value : Text) → (put s now sid key value).ttl ≡ s.ttl
unfolding put drop_if_expired touch
put-ttl s now sid key value = ground arith

put-live_self :
    (s : Store) (now later : ℕ) (sid key value : Text)
    → live (put s now sid key value) later sid ≡ (
        if in_time s.ttl now later
        then some (insert key value (or_empty (live s now sid)))
        else none)
unfolding put
put-live_self s now later sid key value =
    let s1 : Store = drop_if_expired s now sid in
    touch-live (write s1 sid key value) now later sid
    ∙ ap (λ o. if in_time s1.ttl now later then o else none)
        (lookup-insert_self sid (insert key value (session_of sid s1.entries)) s1.entries
          ∙ ap (λ o. some (insert key value (or_empty o))) (drop_if_expired-live s now sid))
    ∙ ap
        (λ ttl.
          if in_time ttl now later
          then some (insert key value (or_empty (live s now sid)))
          else none)
        (drop_if_expired-ttl s now sid)

put-live_other :
    (s : Store) (now later : ℕ) (sid other key value : Text)
    → sid ≢ other
    → live (put s now sid key value) later other ≡ live s later other
unfolding put
put-live_other s now later sid other key value h =
    let s1 : Store = drop_if_expired s now sid in
    touch-other (write s1 sid key value) now later sid other h
    ∙ write-other s1 later sid other key value h
    ∙ drop_if_expired-other s now later sid other h

read-or_empty : (o : Option (Dict Text Text)) (key : Text) → lookup key (or_empty o) ≡ read o key
unfolding read lookup
read-or_empty none key = refl
read-or_empty (some kv) key = refl

put-value_same :
    (s : Store) (now later : ℕ) (sid key key' value : Text)
    → value_of (put s now sid key value) later sid key' ≡ (
        if in_time s.ttl now later
        then (if text_eq key key' then some value else value_of s now sid key')
        else none)
unfolding read
put-value_same s now later sid key key' value =
    let kv : Dict Text Text = or_empty (live s now sid) in
    value_of-live (put s now sid key value) later sid key'
    ∙ ap (λ o. read o key') (put-live_self s now later sid key value)
    ∙ ground (
      arith,
      lookup-insert key key' value kv,
      read-or_empty (live s now sid) key',
      value_of-live s now sid key',
    )

-- What every session reads as after a `put` at `now`: the value that was put under its key until
-- the time to live has passed and nothing after that; with it the session's other keys as they were
-- at `now`, so nothing of a session that had expired; and every other session as without the `put`.
pub value_of-put :
    (s : Store) (now later : ℕ) (sid other key key' value : Text)
    → value_of (put s now sid key value) later other key' ≡ (
        if text_eq sid other
        then (if in_time s.ttl now later
            then (if text_eq key key' then some value else value_of s now sid key')
            else none)
        else value_of s later other key')
value_of-put s now later sid other key key' value = elim (Bool-cases (text_eq sid other)) [
  | inl same ↦ rw (same, ← text_eq→≡ sid other same) (put-value_same s now later sid key key' value)
  | inr apart ↦ rw apart (
      value_of-live (put s now sid key value) later other key'
      ∙ ap (λ o. read o key')
          (put-live_other s now later sid other key value
            (λ e. ground (arith, text_eq_iff sid other)))
      ∙ sym (value_of-live s later other key'))
]

-- A session not touched for longer than the time to live reads as empty.
pub value_of_stale :
    (s : Store) (now seen : ℕ) (sid key : Text)
    → s.ttl ≢ 0
    → lookup sid s.last_seen ≡ some seen
    → seen + s.ttl < now
    → value_of s now sid key ≡ none
unfolding live is_stale read
value_of_stale s now seen sid key h e old = ground (arith, value_of-live s now sid key)

-- After a flush the session reads as empty, and every other session as before.
pub value_of-flush :
    (s : Store) (now : ℕ) (sid other key : Text)
    → value_of (flush s sid) now other key
      ≡ (if text_eq sid other then none else value_of s now other key)
unfolding flush live read
value_of-flush s now sid other key = ground (
  arith,
  value_of-live (flush s sid) now other key,
  value_of-live s now other key,
  lookup-erase sid other s.entries,
  lookup-erase sid other s.last_seen,
)
