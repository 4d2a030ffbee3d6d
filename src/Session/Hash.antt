-- ===== src/Session/Hash.antt =====
-- include/hash.hpp: the default `Hasher`, salted FNV-1a. The random 64-bit salt is an argument.
pub mod Verify
use Prim.Native.Nat.{bit_xor}
use public_cpp_laravel.Prelude.{
  ℕ, zero, suc, ◌*◌, ◌/◌, ◌%◌, ◌^◌, Bool, true, false, List, [], ◌∷◌, ◌++◌, Option, none, some,
  get_or, Text, codes, text_eq, split_at,
}

-- One round of the loop of `to_hex`, which fills the text from its end.
unfoldable pub hex_digits : ℕ → ℕ → Text → Text
hex_digits zero v out = out
hex_digits (suc i) v out =
    hex_digits i (v / 2 ^ 4) (get_or (codes "0123456789abcdef") (v % 16) 0 ∷ out)

unfoldable pub to_hex : ℕ → Text
unfolding hex_digits
to_hex v = hex_digits 16 v []

unfoldable pub fnv : ℕ → Text → ℕ
fnv h [] = h
fnv h (c ∷ s) = fnv ((bit_xor h c * 1099511628211) % 2 ^ 64) s

unfoldable pub digest : Text → Text
unfolding fnv to_hex
digest s = to_hex (fnv 1469598103934665603 s)

-- `salt + "$" + digest(salt + plain)`
unfoldable pub sealed : Text → Text → Text
sealed salt plain = salt ++ (b'$' ∷ digest (salt ++ plain))

unfoldable pub make : ℕ → Text → Text
unfolding sealed to_hex
make random plain = sealed (to_hex random) plain

-- From the position of the first `$` on.
unfoldable pub check_salt : Option (Text × Text) → Text → Text → Bool
unfolding sealed
check_salt none plain hashed = false
check_salt (some (salt, rest)) plain hashed = text_eq hashed (sealed salt plain)

unfoldable pub check : Text → Text → Bool
unfolding check_salt
check plain hashed = check_salt (split_at b'$' hashed) plain hashed
