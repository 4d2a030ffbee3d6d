-- ===== src/Session/Store.antt =====
-- include/session.hpp: `ArraySessionStore` and `Session`. The clock is an argument, in the unit of
-- the time to live; `now - seen > ttl` is tested as `seen + ttl < now`, which is the same on a clock
-- that may run either way. A `const` method that drops or touches entries returns the new store. The
-- random id of `regenerate_id` is an argument.
pub mod Laws
pub mod Renaming
pub mod Sweep
use public_cpp_laravel.Prelude.{
  ℕ, ◌+◌, Bool, true, false, List, [], ◌∷◌, Option, none, some, ltb, ◌==◌, is_some, if◌then◌else◌,
  Text, Dict, lookup, insert, erase, text_key,
}

pub record Store : Type 0 where
  pub ttl : ℕ
  pub entries : Dict Text (Dict Text Text)
  pub last_seen : Dict Text ℕ

unfoldable pub touch : Store → ℕ → Text → Store
touch s now sid = if s.ttl == 0 then s else record s { last_seen = insert sid now s.last_seen }

-- `t != last_seen_.end() && now - t->second > ttl_`
unfoldable pub is_stale : ℕ → ℕ → Option ℕ → Bool
is_stale ttl now none = false
is_stale ttl now (some seen) = ltb (seen + ttl) now

unfoldable pub drop_if_expired : Store → ℕ → Text → Store
unfolding is_stale
drop_if_expired s now sid =
    if s.ttl == 0
    then s
    else if is_stale s.ttl now (lookup sid s.last_seen)
    then record s { entries = erase sid s.entries; last_seen = erase sid s.last_seen }
    else s

-- `data_[sid]`, an empty session where there is none.
abbrev pub or_empty : Option (Dict Text Text) → Dict Text Text
or_empty none = []
or_empty (some kv) = kv

abbrev pub session_of : Text → Dict Text (Dict Text Text) → Dict Text Text
session_of sid m = or_empty (lookup sid m)

-- `put` and what follows the expiry.
abbrev write : Store → Text → Text → Text → Store
write s sid key value = record s {
  entries = insert sid (insert key value (session_of sid s.entries)) s.entries;
}

unfoldable pub put : Store → ℕ → Text → Text → Text → Store
unfolding drop_if_expired touch
put s now sid key value = touch (write (drop_if_expired s now sid) sid key value) now sid

-- The value of a key in a session that may not exist.
unfoldable pub read : Option (Dict Text Text) → Text → Option Text
read none key = none
read (some kv) key = lookup key kv

-- `touch` where something was found.
abbrev pub touch_found : Store → ℕ → Text → Option Text → Store
touch_found s now sid none = s
touch_found s now sid (some v) = touch s now sid

unfoldable pub get : Store → ℕ → Text → Text → Option Text × Store
unfolding drop_if_expired touch read
get s now sid key =
    let s' : Store = drop_if_expired s now sid in
    let v : Option Text = read (lookup sid s'.entries) key in (v, touch_found s' now sid v)

unfoldable pub has : Store → ℕ → Text → Text → Bool × Store
unfolding get
has s now sid key = let (v, s') = get s now sid key in (is_some v, s')

-- `if (s != data_.end()) s->second.erase(key)`
unfoldable pub forget_in : Option (Dict Text Text) → Text → Text → Store → Store
forget_in none sid key s = s
forget_in (some kv) sid key s = record s { entries = insert sid (erase key kv) s.entries }

unfoldable pub forget : Store → ℕ → Text → Text → Store
unfolding drop_if_expired forget_in
forget s now sid key =
    let s' : Store = drop_if_expired s now sid in forget_in (lookup sid s'.entries) sid key s'

unfoldable pub flush : Store → Text → Store
flush s sid = record s { entries = erase sid s.entries; last_seen = erase sid s.last_seen }

-- `rename` after the expiry, on what stands under the old id.
unfoldable pub rename_in : Option (Dict Text Text) → Store → ℕ → Text → Text → Bool × Store
unfolding touch
rename_in none s now from to = (false, s)
rename_in (some kv) s now from to = (
  true,
  touch
      (record s {
        entries = erase from (insert to kv s.entries);
        last_seen = erase from s.last_seen;
      })
      now to,
)

unfoldable pub rename : Store → ℕ → Text → Text → Bool × Store
unfolding drop_if_expired rename_in
rename s now from to =
    let s' : Store = drop_if_expired s now from in rename_in (lookup from s'.entries) s' now from to

-- The loop of `gc`, over the entries of `last_seen_`.
unfoldable pub gc_loop :
    ℕ → ℕ → Dict Text ℕ → Dict Text (Dict Text Text) → Dict Text (Dict Text Text) × Dict Text ℕ
gc_loop ttl now [] entries = (entries, [])
gc_loop ttl now ((sid, seen) ∷ rest) entries =
    let dropped = gc_loop ttl now rest (erase sid entries) in
    let kept = gc_loop ttl now rest entries in
    if ltb (seen + ttl) now then dropped else (kept.0, (sid, seen) ∷ kept.1)

unfoldable pub gc : Store → ℕ → Store
unfolding gc_loop
gc s now =
    if s.ttl == 0
    then s
    else (let (entries, seen) = gc_loop s.ttl now s.last_seen s.entries in
        record s { entries = entries; last_seen = seen })

-- `Session::regenerate_id`: the id that the handle has afterwards, and the store.
unfoldable pub regenerate_id : Store → ℕ → Text → Text → Text × Store
unfolding rename
regenerate_id s now id fresh =
    let (renamed, s') = rename s now id fresh in (if renamed then fresh else id, s')
