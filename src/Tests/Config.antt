-- ===== src/Tests/Config.antt =====
-- Two settings, one with blanks and a quote in its value.
use public_cpp_laravel.Prelude.{◌≡◌, refl, [], ◌∷◌, codes, text_key, ◌==◌, false, ℕ, ◌≢◌, arith}
use public_cpp_laravel.Config.EnvRoundTrip.{AreSettings}

byte_apart : (d c : ℕ) → (c == d) ≡ false → c ≢ d
byte_apart d c h e = absurd (ground (arith, h, e))

settings-AreSettings : AreSettings ((codes "A", codes " #'") ∷ (codes "B", []) ∷ [])
settings-AreSettings = (
  (byte_apart _ _ refl, (refl, tt), (byte_apart _ _ refl, tt), (byte_apart _ _ refl, tt)),
  (byte_apart _ _ refl, (byte_apart _ _ refl, (byte_apart _ _ refl, tt))),
  ((byte_apart _ _ refl, (refl, tt), (byte_apart _ _ refl, tt), (byte_apart _ _ refl, tt)), tt, tt),
)
