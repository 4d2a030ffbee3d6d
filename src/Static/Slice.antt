-- ===== src/Static/Slice.antt =====
-- A request for the bytes from one place to another gets these bytes.
use public_cpp_laravel.Prelude.{ℕ, ◌-◌, if◌then◌else◌, ltb}
use public_cpp_laravel.Prelude.Int.{pos, pos_part, ◌+ℤ◌, ◌-ℤ◌}
use public_cpp_laravel.Prelude.Numbers.{Numbers}

-- The last byte that is served.
abbrev last_of : ℕ → ℕ → ℕ
last_of n j = if ltb (n - 1) j then n - 1 else j

abbrev count : ℕ → ℕ → ℕ
count last i = pos_part (pos last -ℤ pos i +ℤ pos 1)
