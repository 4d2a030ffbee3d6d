-- ===== src/Token/Personal.antt =====
-- include/personal_access_token.hpp: tokens whose hash is kept in a table. The random token is an
-- argument. `none` stands for an exception of the database.
pub mod Issue
use public_cpp_laravel.Prelude.{
  Bool, true, false, not, ◌&&◌, List, [], ◌∷◌, ◌++◌, Option, none, some, is_empty, ◌==◌,
  if◌then◌else◌, Text, codes, Dict, lookup, insert, text_key,
}
use public_cpp_laravel.Prelude.Int.{ℤ, pos, ltb_ℤ, eqb_ℤ}
use public_cpp_laravel.Database.Value.{Float, Texts, Value, int, str, Row, get_int, get_text}
use public_cpp_laravel.Database.Memory.{Connection, or_zero, insert_row, remove}
use public_cpp_laravel.Database.Select.{Op, Query, select}
use public_cpp_laravel.Token.{Sha256, sha256_hex}
use public_cpp_laravel.Token.Payload.{grants}

pub record Issued : Type 0 where
  pub id : ℤ
  pub plaintext : Text

pub record TokenRecord : Type 0 where
  pub id : ℤ
  pub user_id : ℤ
  pub expires_at : ℤ
  pub name : Text
  pub abilities : List Text

unfoldable pub record_can : TokenRecord → Text → Bool
unfolding grants
record_can rec ability = grants rec.abilities ability

unfoldable pub join_words : List Text → Text
join_words [] = []
join_words (a ∷ []) = a
join_words (a ∷ b ∷ more) = a ++ (b' ' ∷ join_words (b ∷ more))

-- The loop, with the word that it is in.
unfoldable pub split_from : Text → Text → List Text
split_from cur [] = if is_empty cur then [] else cur ∷ []
split_from cur (c ∷ s) =
    let behind = split_from [] s in
    let within = split_from (cur ++ (c ∷ [])) s in
    if c == b' ' then (if is_empty cur then behind else cur ∷ behind) else within

unfoldable pub split_ws : Text → List Text
unfolding split_from
split_ws s = split_from [] s

abbrev text_or_empty : Option Text → Text
text_or_empty none = []
text_or_empty (some s) = s

module _ {D : Type 0} (fl : Float D) (texts : Texts D) (sha : Sha256) (table : Text) where
  unfoldable pub token_row : ℤ → Text → List Text → ℤ → Text → Row D
  unfolding insert join_words
  token_row user_id name abilities expires_at plain = insert (codes "expires_at") (int expires_at) (
      insert (codes "abilities") (str (join_words abilities)) (
        insert (codes "token_hash") (str (sha256_hex sha plain))
          (insert (codes "name") (str name) (insert (codes "user_id") (int user_id) []))))

  unfoldable pub issue : Connection D → ℤ → Text → List Text → ℤ → Text → Issued × Connection D
  unfolding token_row insert_row
  issue c user_id name abilities expires_at plain =
      let (id, c') = insert_row fl c table (token_row user_id name abilities expires_at plain) in
      (record { id = id; plaintext = plain }, c')

  -- Behind `r.get("id")`.
  unfoldable pub record_of : Row D → Option ℤ → Option TokenRecord
  unfolding split_ws get_int get_text
  record_of r none = none
  record_of r (some id) = some (record {
    id = id;
    user_id = or_zero (get_int fl (codes "user_id") r);
    expires_at = or_zero (get_int fl (codes "expires_at") r);
    name = text_or_empty (get_text texts (codes "name") r);
    abilities = split_ws (text_or_empty (get_text texts (codes "abilities") r));
  })

  unfoldable pub to_record : Row D → Option TokenRecord
  unfolding record_of
  to_record r = record_of r (get_int fl (codes "id") r)

  abbrev pub by_hash : Text → Query D
  by_hash presented = record {
    wheres =
        record {
          column = codes "token_hash";
          op = Op.eq;
          value = str (sha256_hex sha presented);
          values = [];
        }
        ∷ [];
    order = none;
    limit = none;
    offset = none;
  }

  abbrev found : Option TokenRecord → Option (Option TokenRecord)
  found none = none
  found (some rec) = some (some rec)

  unfoldable pub first_of : ℤ → Option (List (Row D)) → Option (Option TokenRecord)
  unfolding to_record get_int
  first_of now none = none
  first_of now (some []) = some none
  first_of now (some (r ∷ rows)) =
      let exp : ℤ = or_zero (get_int fl (codes "expires_at") r) in
      if not (eqb_ℤ exp (pos 0)) && ltb_ℤ exp now then some none else found (to_record r)

  -- `clock` stands in for a `now` of 0.
  unfoldable pub authenticate : ℤ → Connection D → Text → ℤ → Option (Option TokenRecord)
  unfolding first_of select
  authenticate clock c presented now =
      first_of (if eqb_ℤ now (pos 0) then clock else now) (select fl c table (by_hash presented))

  unfoldable pub revoke : Connection D → ℤ → Bool × Connection D
  unfolding remove
  revoke c id = remove fl c table id
