-- ===== src/Session/Hash/Verify.antt =====
-- A hash made by the default hasher is accepted for its password, and only a text of that form is.
use public_cpp_laravel.Prelude.{
  ℕ, zero, suc, ◌/◌, ◌%◌, ◌^◌, ◌≡◌, ◌≢◌, ◌<◌, refl, ap, ◌∙◌, true, [], ◌∷◌, ◌++◌, Option, none,
  some, arith, get_or, Text, codes, text_eq_refl, text_eq→≡, split_at, split_at-append, All,
}
use public_cpp_laravel.Session.Hash.{hex_digits, to_hex, digest, sealed, make, check_salt, check}

abbrev NoDollar : Text → Type 0
NoDollar s = All (λ c. c ≢ b'$') s

pub hex_digit-ne : (i : ℕ) → i < 16 → get_or (codes "0123456789abcdef") i 0 ≢ b'$'
hex_digit-ne zero h = ground arith
hex_digit-ne (suc zero) h = ground arith
hex_digit-ne (suc (suc zero)) h = ground arith
hex_digit-ne (suc (suc (suc i))) h = later i (omega arith)
  where
    later : (i : ℕ) → i < 13 → get_or (codes "3456789abcdef") i 0 ≢ b'$'
    later i h = grind arith

hex_digits-NoDollar : (i v : ℕ) (out : Text) → NoDollar out → NoDollar (hex_digits i v out)
unfolding hex_digits
hex_digits-NoDollar zero v out h = h
hex_digits-NoDollar (suc i) v out h =
    hex_digits-NoDollar i (v / 2 ^ 4) _ (hex_digit-ne (v % 16) (omega arith), h)

to_hex-NoDollar : (v : ℕ) → NoDollar (to_hex v)
unfolding to_hex
to_hex-NoDollar v = hex_digits-NoDollar 16 v [] tt

make-sealed : (random : ℕ) (plain : Text) → make random plain ≡ sealed (to_hex random) plain
unfolding make
make-sealed random plain = refl

check-sealed : (salt plain : Text) → NoDollar salt → check plain (sealed salt plain) ≡ true
unfolding check sealed
check-sealed salt plain h =
    rw (split_at-append b'$' salt (digest (salt ++ plain)) h)
      (text_eq_refl (salt ++ (b'$' ∷ digest (salt ++ plain))))

-- Whatever the salt, the hash that `make` gives for a password is accepted for that password.
pub check-make : (random : ℕ) (plain : Text) → check plain (make random plain) ≡ true
check-make random plain =
    ap (check plain) (make-sealed random plain)
    ∙ check-sealed (to_hex random) plain (to_hex-NoDollar random)

check_salt-eq-true :
    (o : Option (Text × Text)) (plain hashed : Text)
    → check_salt o plain hashed ≡ true
    → (salt : Text) × (hashed ≡ sealed salt plain)
unfolding check_salt
check_salt-eq-true none plain hashed h = absurd (cc)
check_salt-eq-true (some (salt, rest)) plain hashed h =
    (salt, text_eq→≡ hashed (sealed salt plain) h)

-- What is accepted for a password is a salt, a `$` and the digest of the two; nothing else is.
pub check-eq-true :
    (plain hashed : Text)
    → check plain hashed ≡ true
    → (salt : Text) × (hashed ≡ salt ++ (b'$' ∷ digest (salt ++ plain)))
unfolding check sealed
check-eq-true plain hashed h = check_salt-eq-true (split_at b'$' hashed) plain hashed h
