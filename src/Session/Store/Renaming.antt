-- ===== src/Session/Store/Renaming.antt =====
-- Moving a session under a fresh id.
use public_cpp_laravel.Prelude.{
  ℕ, ◌≡◌, ◌≢◌, inl, inr, false, Bool-cases, text_eq, text_eq→≡, if◌then◌else◌, refl, ap, sym, ◌∙◌,
  true, Option, none, some, arith, Text, Dict, lookup, insert, erase, text_key, text_eq_iff,
  text_eq_refl, lookup-insert, lookup-erase,
}
use public_cpp_laravel.Session.Store.{
  Store, touch, drop_if_expired, read, rename, rename_in, regenerate_id,
}
use public_cpp_laravel.Session.Store.Laws.{
  value_of, live, value_of-live, drop_if_expired-live, drop_if_expired-ttl, drop_if_expired-other,
  touch-live, touch-other, in_time,
}

-- The store that `rename` leaves when there is a session to move.
abbrev moved : Store → Dict Text Text → Text → Text → Store
moved s kv from to = record s {
  entries = erase from (insert to kv s.entries);
  last_seen = erase from s.last_seen;
}

lookup-moved_to :
    (s : Store) (kv : Dict Text Text) (from to : Text)
    → from ≢ to
    → lookup to (moved s kv from to).entries ≡ some kv
lookup-moved_to s kv from to h = ground (
  arith,
  text_eq_iff from to,
  text_eq_refl to,
  lookup-erase from to (insert to kv s.entries),
  lookup-insert to to kv s.entries,
)

moved-live_from :
    (s : Store) (later : ℕ) (kv : Dict Text Text) (from to : Text)
    → live (moved s kv from to) later from ≡ none
unfolding live
moved-live_from s later kv from to =
    ground (arith, text_eq_refl from, lookup-erase from from (insert to kv s.entries))

moved-live_other :
    (s : Store) (later : ℕ) (kv : Dict Text Text) (from to other : Text)
    → from ≢ other
    → to ≢ other
    → live (moved s kv from to) later other ≡ live s later other
unfolding live
moved-live_other s later kv from to other hf ht = ground (
  arith,
  text_eq_iff from other,
  text_eq_iff to other,
  lookup-erase from other (insert to kv s.entries),
  lookup-insert to other kv s.entries,
  lookup-erase from other s.last_seen,
)

module _ (s : Store) (now : ℕ) (from to : Text) (kv : Dict Text Text) (hft : from ≢ to)
    (found : live s now from ≡ some kv) where
  abbrev before : Store
  before = drop_if_expired s now from

  abbrev after : Store
  after = touch (moved before kv from to) now to

  rename_lem : rename s now from to ≡ (true, after)
  unfolding rename rename_in
  rename_lem = ap (λ o. rename_in o before now from to) (drop_if_expired-live s now from ∙ found)

  after-live :
      (later : ℕ) (other : Text)
      → live after later other ≡ (
          if text_eq from other
          then none
          else if text_eq to other
          then (if in_time s.ttl now later then live s now from else none)
          else live s later other)
  after-live later other = elim (Bool-cases (text_eq to other)) [
    | inl same_to ↦
        let e : to ≡ other = text_eq→≡ to other same_to in
        let apart : text_eq from other ≡ false = ground (arith, text_eq_iff from other) in
        rw (apart, same_to, ← e, found)
          (touch-live (moved before kv from to) now later to
            ∙ ap (λ o. if in_time before.ttl now later then o else none)
                (lookup-moved_to before kv from to hft)
            ∙ ap (λ ttl. if in_time ttl now later then some kv else none)
                (drop_if_expired-ttl s now from))
    | inr not_to ↦
        let hto : to ≢ other = λ e. ground (arith, text_eq_iff to other) in
        touch-other (moved before kv from to) now later to other hto
        ∙ elim (Bool-cases (text_eq from other)) [
          | inl same_from ↦
              rw (same_from, ← text_eq→≡ from other same_from)
                (moved-live_from before later kv from to)
          | inr not_from ↦
              let hfrom : from ≢ other = λ e. ground (arith, text_eq_iff from other) in
              rw (not_from, not_to)
                (moved-live_other before later kv from to other hfrom hto
                  ∙ drop_if_expired-other s now later from other hfrom)
        ]
  ]

  after-value :
      (later : ℕ) (other key : Text)
      → value_of after later other key ≡ (
          if text_eq from other
          then none
          else if text_eq to other
          then (if in_time s.ttl now later then value_of s now from key else none)
          else value_of s later other key)
  unfolding read
  after-value later other key =
      value_of-live after later other key
      ∙ ap (λ o. read o key) (after-live later other)
      ∙ ground (arith, value_of-live s now from key, value_of-live s later other key)

read-live :
    (o : Option (Dict Text Text)) (key v : Text)
    → read o key ≡ some v
    → (kv : Dict Text Text) × (o ≡ some kv)
unfolding read
read-live none key v e = absurd (cc)
read-live (some kv) key v e = (kv, refl)

-- Where a session holds anything, `regenerate_id` with a new id answers with that id, and from then
-- on the old id reads as empty, the new one reads as the old one did until the time to live has
-- passed and as empty after that, and every other session is as it was.
pub value_of-regenerate_id :
    (s : Store) (now later : ℕ) (id fresh held v other key : Text)
    → id ≢ fresh
    → value_of s now id held ≡ some v
    → ((regenerate_id s now id fresh).0 ≡ fresh)
      × (value_of (regenerate_id s now id fresh).1 later other key ≡ (
          if text_eq id other
          then none
          else if text_eq fresh other
          then (if in_time s.ttl now later then value_of s now id key else none)
          else value_of s later other key))
unfolding regenerate_id
value_of-regenerate_id s now later id fresh held v other key hf e =
    let (kv, found) = read-live (live s now id) held v (sym (value_of-live s now id held) ∙ e) in
    rw (rename_lem s now id fresh kv hf found)
      (refl, after-value s now id fresh kv hf found later other key)

-- A session that holds nothing keeps its id.
pub regenerate_id_absent :
    (s : Store) (now : ℕ) (id fresh : Text)
    → live s now id ≡ none
    → (regenerate_id s now id fresh).0 ≡ id
unfolding regenerate_id rename rename_in
regenerate_id_absent s now id fresh e = ground (arith, drop_if_expired-live s now id)
