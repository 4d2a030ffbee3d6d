-- ===== src/Session/Handle.antt =====
-- include/session.hpp: `csprng_hex`, and the methods of `Session` but `regenerate_id`, which stands in
-- Session/Store. What `/dev/urandom` delivers is a list of texts, one for each `read`, which takes no
-- more of its text than it asks for; the end of the list is a `read` that gives nothing.
-- `std::random_device` is a function of the number of the call.
use public_cpp_laravel.Prelude.{
  ℕ, zero, suc, ◌+◌, ◌-◌, ◌*◌, ◌%◌, ◌≡◌, refl, ap, inl, inr, Bool, Bool-cases, List, [], ◌∷◌, ◌++◌,
  Option, none, some, arith, length, take, is_empty, ltb, ◌==◌, if◌then◌else◌, Text,
}
use public_cpp_laravel.Session.Pbkdf2.{hex}
use public_cpp_laravel.Session.Store.{Store, put, get, has, forget, flush}

-- The loop over `read`, from the bytes read so far; no more than are missing are asked for.
unfoldable pub read_random : ℕ → List Text → Text → Text
read_random count [] got = got
read_random count (chunk ∷ more) got =
    let rest = read_random count more (got ++ take (count - length got) chunk) in
    if ltb (length got) count then (if is_empty chunk then got else rest) else got

-- `rd() & 0xFF`, `count` times.
unfoldable pub device_bytes : ℕ → ℕ → (ℕ → ℕ) → Text
device_bytes zero call rd = []
device_bytes (suc count) call rd = (rd call % 256) ∷ device_bytes count (call + 1) rd

-- `none` is a device that does not open.
unfoldable pub csprng_hex : Option (List Text) → (ℕ → ℕ) → ℕ → Text
unfolding read_random device_bytes hex
csprng_hex none rd count = hex (device_bytes count 0 rd)
csprng_hex (some reads) rd count =
    let bytes : Text = read_random count reads [] in
    if length bytes == count then hex bytes else hex (device_bytes count 0 rd)

unfoldable pub new_session_id : Option (List Text) → (ℕ → ℕ) → Text
unfolding csprng_hex
new_session_id reads rd = csprng_hex reads rd 16

unfoldable pub session_put : Store → ℕ → Text → Text → Text → Store
unfolding put
session_put store now id key value = put store now id key value

unfoldable pub session_get : Store → ℕ → Text → Text → Option Text × Store
unfolding get
session_get store now id key = get store now id key

-- `v ? *v : def`
abbrev pub value_or : Text → Option Text → Text
value_or def none = def
value_or def (some v) = v

unfoldable pub session_get_or : Store → ℕ → Text → Text → Text → Text × Store
unfolding session_get
session_get_or store now id key def =
    let (v, store') = session_get store now id key in (value_or def v, store')

unfoldable pub session_has : Store → ℕ → Text → Text → Bool × Store
unfolding has
session_has store now id key = has store now id key

unfoldable pub session_forget : Store → ℕ → Text → Text → Store
unfolding forget
session_forget store now id key = forget store now id key

unfoldable pub session_flush : Store → Text → Store
unfolding flush
session_flush store id = flush store id

length-hex : (s : Text) → length (hex s) ≡ 2 * length s
unfolding hex
length-hex [] = refl
length-hex (c ∷ s) = omega (arith, length-hex s)

length-device_bytes : (count call : ℕ) (rd : ℕ → ℕ) → length (device_bytes count call rd) ≡ count
unfolding device_bytes
length-device_bytes zero call rd = refl
length-device_bytes (suc count) call rd = ap suc (length-device_bytes count (call + 1) rd)

-- Whatever the device delivers, and whether it opens, a session id has 32 digits.
pub length-new_session_id :
    (reads : Option (List Text)) (rd : ℕ → ℕ) → length (new_session_id reads rd) ≡ 32
unfolding new_session_id csprng_hex
length-new_session_id none rd =
    omega (arith, length-hex (device_bytes 16 0 rd), length-device_bytes 16 0 rd)
length-new_session_id (some reads) rd = elim (Bool-cases (length (read_random 16 reads []) == 16)) [
  | inl whole ↦ rw whole (ground (arith, whole, length-hex (read_random 16 reads [])))
  | inr short ↦
      rw short (omega (arith, length-hex (device_bytes 16 0 rd), length-device_bytes 16 0 rd))
]
