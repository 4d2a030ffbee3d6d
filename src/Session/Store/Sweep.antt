-- ===== src/Session/Store/Sweep.antt =====
-- The sweep of expired sessions.
use public_cpp_laravel.Prelude.{
  ℕ, ◌+◌, ◌≡◌, ◌≤◌, refl, ap, sym, ◌∙◌, Bool-cases, inl, inr, true, false, List, [], ◌∷◌, Option,
  none, some, arith, ltb, ◌==◌, if◌then◌else◌, Text, Dict, lookup, insert, erase, text_key, text_eq,
  text_eq_iff, lookup-insert, lookup-erase,
}
use public_cpp_laravel.Session.Store.{
  Store, touch, touch_found, is_stale, drop_if_expired, put, read, get, forget, forget_in, flush,
  rename, rename_in, gc_loop, gc,
}
use public_cpp_laravel.Session.Store.Laws.{value_of, live, value_of-live}

-- A map holds each key once.
abbrev pub IsDistinct : {V : Type 0} → Dict Text V → Type 0
IsDistinct [] = Unit
IsDistinct ((k, v) ∷ m) = (lookup k m ≡ none) × IsDistinct m

insert-IsDistinct :
    {V : Type 0} (k : Text) (v : V) (m : Dict Text V) → IsDistinct m → IsDistinct (insert k v m)
unfolding insert lookup
insert-IsDistinct k v [] h = (refl, tt)
insert-IsDistinct k v ((j, w) ∷ m) h = elim (Bool-cases (text_eq j k)) [
  | inl same ↦ rw same (ap (λ i. lookup i m) (sym ((text_eq_iff j k).0 same)) ∙ h.0, h.1)
  | inr apart ↦ rw apart (
    lookup-insert k j v m ∙ ground (arith, text_eq_iff k j, text_eq_iff j k, h.0),
    insert-IsDistinct k v m h.1,
  )
]

erase-IsDistinct : {V : Type 0} (k : Text) (m : Dict Text V) → IsDistinct m → IsDistinct (erase k m)
unfolding erase
erase-IsDistinct k [] h = tt
erase-IsDistinct k ((j, w) ∷ m) h = elim (Bool-cases (text_eq j k)) [
  | inl same ↦ rw same (erase-IsDistinct k m h.1)
  | inr apart ↦ rw apart (lookup-erase k j m ∙ ground (arith, h.0), erase-IsDistinct k m h.1)
]

-- What the loop leaves under an id, of the sessions and of the times.
gc_loop-lookup :
    (ttl now : ℕ) (sid : Text) (m : Dict Text ℕ) (entries : Dict Text (Dict Text Text))
    → IsDistinct m
    → (lookup sid (gc_loop ttl now m entries).0
        ≡ (if is_stale ttl now (lookup sid m) then none else lookup sid entries))
      × (lookup sid (gc_loop ttl now m entries).1
          ≡ (if is_stale ttl now (lookup sid m) then none else lookup sid m))
unfolding gc_loop is_stale lookup
gc_loop-lookup ttl now sid [] entries h = (refl, refl)
gc_loop-lookup ttl now sid ((k, seen) ∷ m) entries h =
    let dropped = gc_loop-lookup ttl now sid m (erase k entries) h.1 in
    let kept = gc_loop-lookup ttl now sid m entries h.1 in
    elim (Bool-cases (text_eq k sid)) [
      | inl same ↦
          let gone : lookup sid m ≡ none =
            ap (λ j. lookup j m) (sym ((text_eq_iff k sid).0 same)) ∙ h.0 in
          elim (Bool-cases (ltb (seen + ttl) now)) [
            | inl old ↦
                rw (same, old)
                  (
                    dropped.0 ∙ ground (arith, gone, lookup-erase k sid entries, same),
                    dropped.1 ∙ ground (arith, gone),
                  )
            | inr new ↦ rw (same, new) (kept.0 ∙ ground (arith, gone), ground (arith, same))
          ]
      | inr apart ↦ elim (Bool-cases (ltb (seen + ttl) now)) [
        | inl old ↦
            rw (apart, old)
              (dropped.0 ∙ ground (arith, lookup-erase k sid entries, apart), dropped.1)
        | inr new ↦ rw (apart, new) (kept.0, ground (arith, apart, kept.1))
      ]
    ]

abbrev IsSound : Store → Type 0
IsSound s = IsDistinct s.last_seen

touch-IsSound : (s : Store) (now : ℕ) (sid : Text) → IsSound s → IsSound (touch s now sid)
unfolding touch
touch-IsSound s now sid h = elim (Bool-cases (s.ttl == 0)) [
  | inl never ↦ rw never h
  | inr some_time ↦ rw some_time (insert-IsDistinct sid now s.last_seen h)
]

drop_if_expired-IsSound :
    (s : Store) (now : ℕ) (sid : Text) → IsSound s → IsSound (drop_if_expired s now sid)
unfolding drop_if_expired
drop_if_expired-IsSound s now sid h = elim (Bool-cases (s.ttl == 0)) [
  | inl never ↦ rw never h
  | inr some_time ↦ elim (Bool-cases (is_stale s.ttl now (lookup sid s.last_seen))) [
    | inl stale ↦ rw (some_time, stale) (erase-IsDistinct sid s.last_seen h)
    | inr fresh ↦ rw (some_time, fresh) h
  ]
]

gc_loop-IsDistinct :
    (ttl now : ℕ) (m : Dict Text ℕ) (entries : Dict Text (Dict Text Text))
    → IsDistinct m
    → IsDistinct (gc_loop ttl now m entries).1
unfolding gc_loop is_stale
gc_loop-IsDistinct ttl now [] entries h = tt
gc_loop-IsDistinct ttl now ((k, seen) ∷ m) entries h = elim (Bool-cases (ltb (seen + ttl) now)) [
  | inl old ↦ rw old (gc_loop-IsDistinct ttl now m (erase k entries) h.1)
  | inr new ↦ rw new (
    (gc_loop-lookup ttl now k m entries h.1).1 ∙ ground (arith, h.0),
    gc_loop-IsDistinct ttl now m entries h.1,
  )
]

-- What may happen to a store, at any times.
pub data Event : Type 0 where
  puts : ℕ → Text → Text → Text → Event
  gets : ℕ → Text → Text → Event
  forgets : ℕ → Text → Text → Event
  flushes : Text → Event
  renames : ℕ → Text → Text → Event
  sweeps : ℕ → Event

abbrev pub happen : Event → Store → Store
happen (puts now sid key value) s = put s now sid key value
happen (gets now sid key) s = (get s now sid key).1
happen (forgets now sid key) s = forget s now sid key
happen (flushes sid) s = flush s sid
happen (renames now from to) s = (rename s now from to).1
happen (sweeps now) s = gc s now

abbrev pub happen_all : List Event → Store → Store
happen_all [] s = s
happen_all (e ∷ es) s = happen_all es (happen e s)

happen-IsSound : (e : Event) (s : Store) → IsSound s → IsSound (happen e s)
unfolding put get forget forget_in flush rename rename_in gc
happen-IsSound (puts now sid key value) s h =
    touch-IsSound _ now sid (drop_if_expired-IsSound s now sid h)
happen-IsSound (gets now sid key) s h =
    found (read (lookup sid (drop_if_expired s now sid).entries) key)
  where
    found : (v : Option Text) → IsSound (touch_found (drop_if_expired s now sid) now sid v)
    found none = drop_if_expired-IsSound s now sid h
    found (some v) =
        touch-IsSound (drop_if_expired s now sid) now sid (drop_if_expired-IsSound s now sid h)
happen-IsSound (forgets now sid key) s h = there (lookup sid (drop_if_expired s now sid).entries)
  where
    there :
        (o : Option (Dict Text Text)) → IsSound (forget_in o sid key (drop_if_expired s now sid))
    there none = drop_if_expired-IsSound s now sid h
    there (some kv) = drop_if_expired-IsSound s now sid h
happen-IsSound (flushes sid) s h = erase-IsDistinct sid s.last_seen h
happen-IsSound (renames now from to) s h = there (lookup from (drop_if_expired s now from).entries)
  where
    there :
        (o : Option (Dict Text Text))
        → IsSound (rename_in o (drop_if_expired s now from) now from to).1
    there none = drop_if_expired-IsSound s now from h
    there (some kv) = touch-IsSound _ now to (
        erase-IsDistinct from (drop_if_expired s now from).last_seen
          (drop_if_expired-IsSound s now from h))
happen-IsSound (sweeps now) s h = elim (Bool-cases (s.ttl == 0)) [
  | inl never ↦ rw never h
  | inr some_time ↦ rw some_time (gc_loop-IsDistinct s.ttl now s.last_seen s.entries h)
]

abbrev pub new_store : ℕ → Store
new_store ttl = record { ttl = ttl; entries = []; last_seen = [] }

happen_all-IsSound : (es : List Event) (s : Store) → IsSound s → IsSound (happen_all es s)
happen_all-IsSound [] s h = h
happen_all-IsSound (e ∷ es) s h = happen_all-IsSound es (happen e s) (happen-IsSound e s h)

-- A session that the sweep keeps by one time is judged the same at a later one.
pair_stale :
    (ttl now later : ℕ) (seen : Option ℕ) (kv : Option (Dict Text Text))
    → now ≤ later
    → (if is_stale ttl later (if is_stale ttl now seen then none else seen)
        then none
        else (if is_stale ttl now seen then none else kv))
      ≡ (if is_stale ttl later seen then none else kv)
unfolding is_stale
pair_stale ttl now later none kv before = refl
pair_stale ttl now later (some seen) kv before = elim (Bool-cases (ltb (seen + ttl) now)) [
  | inl old ↦ let older : ltb (seen + ttl) later ≡ true = ground arith in rw (old, older) refl
  | inr new ↦ rw new refl
]

gc_swept :
    (s : Store) (now : ℕ)
    → s.ttl == 0 ≡ false
    → gc s now ≡ record {
      ttl = s.ttl;
      entries = (gc_loop s.ttl now s.last_seen s.entries).0;
      last_seen = (gc_loop s.ttl now s.last_seen s.entries).1;
    }
unfolding gc
gc_swept s now h = rw h refl

gc_never : (s : Store) (now : ℕ) → s.ttl == 0 ≡ true → gc s now ≡ s
unfolding gc
gc_never s now h = rw h refl

gc-live :
    (s : Store) (now later : ℕ) (sid : Text)
    → IsSound s
    → now ≤ later
    → live (gc s now) later sid ≡ live s later sid
unfolding live
gc-live s now later sid h before =
    let swept = gc_loop-lookup s.ttl now sid s.last_seen s.entries h in
    elim (Bool-cases (s.ttl == 0)) [
      | inl never ↦ rw (gc_never s now never) refl
      | inr some_time ↦
          rw (gc_swept s now some_time, some_time, swept.0, swept.1)
            (pair_stale s.ttl now later (lookup sid s.last_seen) (lookup sid s.entries) before)
    ]

gc-entries :
    (s : Store) (now : ℕ) (sid : Text) → IsSound s → lookup sid (gc s now).entries ≡ live s now sid
unfolding live
gc-entries s now sid h =
    let swept = gc_loop-lookup s.ttl now sid s.last_seen s.entries h in
    elim (Bool-cases (s.ttl == 0)) [
      | inl never ↦ rw (gc_never s now never, never) refl
      | inr some_time ↦ rw (gc_swept s now some_time, some_time) swept.0
    ]

-- Whatever has happened to a store since it was new, a sweep changes nothing that a session reads as,
-- then or later, and leaves no data of a session that had expired.
pub value_of-gc :
    (ttl : ℕ) (es : List Event) (now later : ℕ) (sid key : Text)
    → now ≤ later
    → let s = happen_all es (new_store ttl) in
      (value_of (gc s now) later sid key ≡ value_of s later sid key)
      × (lookup sid (gc s now).entries ≡ live s now sid)
value_of-gc ttl es now later sid key before =
    let s : Store = happen_all es (new_store ttl) in
    let sound : IsSound s = happen_all-IsSound es (new_store ttl) tt in
    (
      value_of-live (gc s now) later sid key
          ∙ ap (λ o. read o key) (gc-live s now later sid sound before)
          ∙ sym (value_of-live s later sid key),
      gc-entries s now sid sound,
    )
