-- ===== src/Token/Personal/Issue.antt =====
-- A token that was issued is known again.
use public_cpp_laravel.Prelude.{
  ◌≡◌, refl, ap, sym, ◌∙◌, Bool, true, false, not, ◌&&◌, List, [], ◌∷◌, ◌++◌, Option, none, some,
  arith, append_assoc, append-nil, is_empty, if◌then◌else◌, Bool-cases, inl, inr, Text,
  text_eq_refl, All, Lacks, lookup, insert, text_key, lookup-insert,
}
use public_cpp_laravel.Prelude.Int.{ℤ, pos, ltb_ℤ, eqb_ℤ, ◌+ℤ◌}
use public_cpp_laravel.Database.Value.{
  Float, Texts, Row, value_eq, as_int, as_text, get_int, get_text,
}
use public_cpp_laravel.Database.Memory.{Connection, or_zero, rows_or_empty, with_id, insert_row}
use public_cpp_laravel.Database.Select.{
  keep, passes, cell_passes, matches, order_rows, skip_rows, cut_rows, select,
}
use public_cpp_laravel.Token.{Sha256, sha256_hex}
use public_cpp_laravel.Token.Personal.{
  TokenRecord, join_words, split_from, split_ws, token_row, issue, record_of, to_record, by_hash,
  first_of, authenticate,
}

-- A word with no space.
abbrev pub IsWord : Text → Type 0
IsWord w = (is_empty w ≡ false) × Lacks b' ' w

split_from-word :
    (cur w t : Text) → Lacks b' ' w → split_from cur (w ++ t) ≡ split_from (cur ++ w) t
unfolding split_from
split_from-word cur [] t h = ap (λ s. split_from s t) (sym (append-nil cur))
split_from-word cur (c ∷ w) t h =
    step
    ∙ split_from-word (cur ++ (c ∷ [])) w t h.1
    ∙ ap (λ s. split_from s t) (append_assoc cur (c ∷ []) w)
  where
    step : split_from cur (c ∷ (w ++ t)) ≡ split_from (cur ++ (c ∷ [])) (w ++ t)
    step = ground (arith, h.0)

word_end : (w : Text) → is_empty w ≡ false → split_from w [] ≡ w ∷ []
unfolding split_from
word_end w h = rw h refl

word_space : (w t : Text) → is_empty w ≡ false → split_from w (b' ' ∷ t) ≡ w ∷ split_from [] t
unfolding split_from
word_space w t h = rw h refl

split_ws-join_words : (words : List Text) → All IsWord words → split_ws (join_words words) ≡ words
unfolding split_ws join_words
split_ws-join_words [] h = unfold split_from in refl
split_ws-join_words (a ∷ []) h =
    ap (split_from []) (sym (append-nil a)) ∙ split_from-word [] a [] h.0.1 ∙ word_end a h.0.0
split_ws-join_words (a ∷ b ∷ more) h =
    split_from-word [] a (b' ' ∷ join_words (b ∷ more)) h.0.1
    ∙ word_space a (join_words (b ∷ more)) h.0.0
    ∙ ap (◌∷◌ a) (split_ws-join_words (b ∷ more) h.1)

no_row :
    {A : Type 0} (y : A) (ys zs : List A) (b : Bool)
    → b ≡ true
    → (if b then y ∷ ys else zs) ≡ []
    → ⊥
no_row y ys zs true e h = cc
no_row y ys zs false e h = absurd (cc)

skipped : {A : Type 0} (ys zs : List A) (b : Bool) → b ≡ false → (if b then ys else zs) ≡ zs
skipped ys zs true e = absurd (cc)
skipped ys zs false e = refl

keep-append :
    {A : Type 0} (p : A → Bool) (xs : List A) (x : A)
    → keep p xs ≡ []
    → p x ≡ true
    → keep p (xs ++ (x ∷ [])) ≡ x ∷ []
keep-append p [] x h e = rw e refl
keep-append p (y ∷ ys) x h e = elim (Bool-cases (p y)) [
  | inl kept ↦ absurd (no_row y (keep p ys) (keep p ys) (p y) kept h)
  | inr gone ↦
      rw gone (keep-append p ys x (sym (skipped (y ∷ keep p ys) (keep p ys) (p y) gone) ∙ h) e)
]

some_if :
    {A : Type 0} (b : Bool) (x : A)
    → (if b then some none else some (some x)) ≡ some (if b then none else some x)
some_if true x = refl
some_if false x = refl

module _ {D : Type 0} (fl : Float D) (texts : Texts D) (sha : Sha256) (table : Text) where
  abbrev stored : ℤ → ℤ → Text → List Text → ℤ → Text → Row D
  stored id user_id name abilities expires_at plain =
      with_id id (token_row fl texts sha table user_id name abilities expires_at plain)

  abbrev new_id : Connection D → ℤ
  new_id c = or_zero (lookup table c.next_id) +ℤ pos 1

  stored-passes :
      (id user_id : ℤ) (name : Text) (abilities : List Text) (expires_at : ℤ) (plain : Text)
      → passes fl
          (by_hash fl texts sha table plain).wheres
          (stored id user_id name abilities expires_at plain)
        ≡ true
  unfolding passes cell_passes matches value_eq token_row insert lookup
  stored-passes id user_id name abilities expires_at plain =
      rw (text_eq_refl (sha256_hex sha plain)) refl

  select-issue :
      (c : Connection D) (user_id : ℤ) (name : Text) (abilities : List Text) (expires_at : ℤ)
      (plain : Text)
      → select fl c table (by_hash fl texts sha table plain) ≡ some []
      → select fl
          (issue fl texts sha table c user_id name abilities expires_at plain).1
          table
          (by_hash fl texts sha table plain)
        ≡ some (stored (new_id c) user_id name abilities expires_at plain ∷ [])
  unfolding issue insert_row select order_rows skip_rows cut_rows
  select-issue c user_id name abilities expires_at plain h =
      let rows : List (Row D) = rows_or_empty (lookup table c.tables) in
      let row : Row D = stored (new_id c) user_id name abilities expires_at plain in
      rw (lookup-insert table table (rows ++ (row ∷ [])) c.tables, text_eq_refl table)
        (ap some (
          keep-append (passes fl (by_hash fl texts sha table plain).wheres) rows row
            (ap rows_or_empty h)
            (stored-passes (new_id c) user_id name abilities expires_at plain)))

  -- The record of the row, or nothing once it has expired.
  abbrev pub known : ℤ → TokenRecord → Option TokenRecord
  known now rec =
      if not (eqb_ℤ rec.expires_at (pos 0)) && ltb_ℤ rec.expires_at now then none else some rec

  -- A token that `issue` stored, no row having its hash before, is known to `authenticate`, at a `now`
  -- that is not 0, as the record that was issued, with the abilities in order, while it has not
  -- expired, and as nothing after that; the abilities are words without spaces.
  pub authenticate-issue :
      (clock now : ℤ) (c : Connection D) (user_id : ℤ) (name : Text) (abilities : List Text)
      (expires_at : ℤ) (plain : Text)
      → eqb_ℤ now (pos 0) ≡ false
      → select fl c table (by_hash fl texts sha table plain) ≡ some []
      → All IsWord abilities
      → authenticate fl texts sha table clock
          (issue fl texts sha table c user_id name abilities expires_at plain).1
          plain
          now
        ≡ some (
            known now (record {
              id = (issue fl texts sha table c user_id name abilities expires_at plain).0.id;
              user_id = user_id;
              expires_at = expires_at;
              name = name;
              abilities = abilities;
            }))
  unfolding authenticate first_of to_record record_of get_int get_text as_int as_text insert lookup
      token_row issue insert_row
  authenticate-issue clock now c user_id name abilities expires_at plain given fresh words =
      rw
        (
          given,
          select-issue c user_id name abilities expires_at plain fresh,
          split_ws-join_words abilities words,
        )
        (some_if (not (eqb_ℤ expires_at (pos 0)) && ltb_ℤ expires_at now) _)
