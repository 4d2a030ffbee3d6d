-- ===== src/Server/Reading/Bounds.antt =====
-- What a read hands on, and how much it buffers, whatever the client sends.
use public_cpp_laravel.Prelude.{
  ℕ, ◌+◌, ◌^◌, ◌≤◌, ◌<◌, ◌≡◌, refl, List, [], ◌∷◌, ◌++◌, Option, none, some, arith, length, ltb,
  length-append, Text, find_text, All, Bool-cases, inl, inr,
}
use public_cpp_laravel.Server.Request.{Strtoull, blank_line}
use public_cpp_laravel.Server.Reading.{
  Limits, ReadResult, Verdict, refuse, expect, judge, read_body, act, on_head, read_head,
  read_request,
}

module _ (num : Strtoull) (limits : Limits) (most : ℕ) where
  abbrev pub room : ℕ
  room = limits.max_header_bytes + limits.max_body_bytes + 4

  -- One `recv` gives at most `most` bytes.
  abbrev pub Chunks : List Text → Type 0
  Chunks incoming = All (λ chunk. length chunk ≤ most) incoming

  judge-expect :
      (head : Text) (size : ℕ) → judge num limits head ≡ expect size → room < 2 ^ 64 → size ≤ room
  unfolding judge
  judge-expect head size e h = ground arith

  read_body-le :
      (size : ℕ) (bytes : Text) (incoming : List Text)
      → size ≤ room
      → length bytes ≤ room
      → Chunks incoming
      → length (read_body size bytes incoming).bytes ≤ room + most
  unfolding read_body
  read_body-le size bytes [] s h c = omega arith
  read_body-le size bytes (chunk ∷ rest) s h c =
      elim (Bool-cases (ltb (length (bytes ++ chunk)) size)) [
        | inl more ↦ rw more (read_body-le size (bytes ++ chunk) rest s (ground arith) c.1)
        | inr done ↦ rw done (omega (arith, length-append {0} bytes chunk))
      ]

  act-le :
      (head bytes : Text) (v : Verdict) (rest : List Text)
      → judge num limits head ≡ v
      → room < 2 ^ 64
      → length bytes ≤ room + most
      → Chunks rest
      → length (act v bytes rest).bytes ≤ room + most
  unfolding act
  act-le head bytes (refuse status) rest e h b c = b
  act-le head bytes (expect size) rest e h b c = elim (Bool-cases (ltb (length bytes) size)) [
    | inl more ↦
        let s : size ≤ room = judge-expect head size e h in
        rw more (read_body-le size bytes rest s (ground arith) c)
    | inr done ↦ rw done b
  ]

  on_head-le :
      (o : Option (Text × Text)) (bytes : Text) (rest : List Text) (more : ReadResult)
      → room < 2 ^ 64
      → length bytes ≤ limits.max_header_bytes + most
      → Chunks rest
      → (length bytes ≤ limits.max_header_bytes → length more.bytes ≤ room + most)
      → length (on_head num limits o bytes rest more).bytes ≤ room + most
  unfolding on_head
  on_head-le none bytes rest more h b c next =
      elim (Bool-cases (ltb limits.max_header_bytes (length bytes))) [
        | inl long ↦ rw long (omega arith)
        | inr short ↦ rw short (next (ground arith))
      ]
  on_head-le (some (head, found)) bytes rest more h b c next =
      act-le head bytes (judge num limits head) rest refl h (omega arith) c

  read_head-le :
      (bytes : Text) (incoming : List Text)
      → room < 2 ^ 64
      → length bytes ≤ limits.max_header_bytes
      → Chunks incoming
      → length (read_head num limits bytes incoming).bytes ≤ room + most
  unfolding read_head
  read_head-le bytes [] h b c = omega arith
  read_head-le bytes (chunk ∷ rest) h b c =
      on_head-le (find_text blank_line (bytes ++ chunk)) (bytes ++ chunk) rest
        (read_head num limits (bytes ++ chunk) rest) h
        (omega (arith, length-append {0} bytes chunk)) c.1
        (λ short. read_head-le (bytes ++ chunk) rest h short c.1)

  -- Whatever a client sends, the server buffers at most the two limits, the blank line and one
  -- `recv` of it, under limits whose sum stays below 2 ^ 64.
  pub read_request-le :
      (incoming : List Text)
      → room < 2 ^ 64
      → Chunks incoming
      → length (read_request num limits incoming).bytes ≤ room + most
  unfolding read_request
  read_request-le incoming h c = read_head-le [] incoming h (omega arith) c
