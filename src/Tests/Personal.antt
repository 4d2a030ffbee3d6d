-- ===== src/Tests/Personal.antt =====
-- An empty table of tokens, on which the lemmas of Token.Personal are tried.
use public_cpp_laravel.Prelude.{
  ℕ, ◌≡◌, refl, [], ◌∷◌, ◌%◌, none, some, arith, Text, codes, length, lookup, text_key,
}
use public_cpp_laravel.Prelude.Int.{pos, ◌+ℤ◌}
use public_cpp_laravel.Database.Value.{Texts}
use public_cpp_laravel.Database.Memory.{Connection, insert_row}
use public_cpp_laravel.Database.Select.{select, order_rows, skip_rows, cut_rows}
use public_cpp_laravel.Token.{Sha256}
use public_cpp_laravel.Token.Personal.{issue, authenticate, by_hash}
use public_cpp_laravel.Token.Personal.Issue.{authenticate-issue}
use public_cpp_laravel.Tests.Database.{whole}

abbrev plain_texts : Texts ℕ
plain_texts = record { of_int = λ n. []; of_real = λ d. []; no_such_key = [] }

abbrev short_hash : Sha256
short_hash s = length s % 256 ∷ []

abbrev no_tokens : Connection ℕ
no_tokens = record { tables = []; next_id = []; snapshot = none }

abbrev token_table : Text
token_table = codes "tokens"

none_stored :
    select whole no_tokens token_table
      (by_hash whole plain_texts short_hash token_table (codes "abc"))
    ≡ some []
unfolding select order_rows skip_rows cut_rows lookup
none_stored = refl

authenticate-issue_example :
    authenticate whole plain_texts short_hash token_table
      (pos 0)
      (issue whole plain_texts short_hash token_table no_tokens
        (pos 7)
        (codes "phone")
        (codes "read" ∷ codes "post" ∷ [])
        (pos 9)
        (codes "abc")).1
      (codes "abc")
      (pos 8)
    ≡ some (
        some (record {
          id = pos 1;
          user_id = pos 7;
          expires_at = pos 9;
          name = codes "phone";
          abilities = codes "read" ∷ codes "post" ∷ [];
        }))
unfolding issue insert_row lookup ◌+ℤ◌
authenticate-issue_example =
    authenticate-issue whole plain_texts short_hash token_table (pos 0) (pos 8) no_tokens (pos 7)
      (codes "phone") (codes "read" ∷ codes "post" ∷ []) (pos 9) (codes "abc") refl none_stored
      (
        (refl, (ground arith, (ground arith, (ground arith, (ground arith, tt))))),
        ((refl, (ground arith, (ground arith, (ground arith, (ground arith, tt))))), tt),
      )
