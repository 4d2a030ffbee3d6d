-- ===== src/Token/Payload.antt =====
-- include/token.hpp: `Claims`, `claims_json` and `parse_claims`.
pub mod Search
pub mod Items
pub mod RoundTrip
use public_cpp_laravel.Prelude.{
  ℕ, ◌≡◌, Bool, true, false, ◌||◌, List, [], ◌∷◌, ◌++◌, Option, none, some, if◌then◌else◌, Text,
  codes, text_eq, All,
}
use public_cpp_laravel.Prelude.Int.{ℤ, IsInt64}
use public_cpp_laravel.Prelude.Numbers.{Numbers}
use public_cpp_laravel.Token.Json.{json_escape, extract_string, extract_int, extract_string_array}

pub record Claims : Type 0 where
  pub sub : Text
  pub abilities : List Text
  pub iat : ℤ
  pub exp : ℤ

unfoldable pub grants : List Text → Text → Bool
grants [] ability = false
grants (a ∷ more) ability = (text_eq a ability || text_eq a (codes "*")) || grants more ability

unfoldable pub can : Claims → Text → Bool
unfolding grants
can c ability = grants c.abilities ability

unfoldable pub quote_item : Text → Text
unfolding json_escape
quote_item s = b'"' ∷ (json_escape s ++ codes "\"")

unfoldable pub join_items : List Text → Text
unfolding quote_item
join_items [] = []
join_items (a ∷ []) = quote_item a
join_items (a ∷ b ∷ more) = quote_item a ++ (b',' ∷ join_items (b ∷ more))

module _ (num : Numbers) where
  unfoldable pub claims_json : Claims → Text
  unfolding json_escape join_items
  claims_json c =
      codes "{\"sub\":\""
      ++ (json_escape c.sub
          ++ (codes "\",\"abilities\":["
              ++ (join_items c.abilities
                  ++ (codes "],\"iat\":"
                      ++ (num.to_string c.iat
                          ++ (codes ",\"exp\":" ++ (num.to_string c.exp ++ codes "}")))))))

  unfoldable pub parse_claims : Text → Claims
  unfolding extract_string extract_int extract_string_array
  parse_claims json = record {
    sub = extract_string json (codes "sub");
    abilities = extract_string_array json (codes "abilities");
    iat = extract_int num.stoll json (codes "iat");
    exp = extract_int num.stoll json (codes "exp");
  }
