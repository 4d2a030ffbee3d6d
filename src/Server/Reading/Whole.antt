-- ===== src/Server/Reading/Whole.antt =====
-- A request that keeps to the limits is read whole, however the network cuts it.
use public_cpp_laravel.Prelude.{
  ◌+◌, ◌≤◌, ◌<◌, ◌≡◌, refl, ap, sym, subst, ◌∙◌, List, [], ◌∷◌, ◌++◌, Option, none, some, arith,
  length, ltb, length-append, append_assoc, append-nil, Text, find_text, find_text-more,
  find_text-none, Bool-cases, inl, inr,
}
use public_cpp_laravel.Websocket.Connection.{flat}
use public_cpp_laravel.Server.Request.{Strtoull, blank_line}
use public_cpp_laravel.Server.Reading.{
  Limits, ok, ReadResult, expect, judge, read_body, act, on_head, read_head, read_request,
}

prefix-eq : (s t w : Text) → s ++ t ≡ w → length w ≤ length s → s ≡ w
prefix-eq s [] w e h = sym (append-nil s) ∙ e
prefix-eq s (c ∷ t) w e h = absurd (omega (arith, ap length e, length-append {0} s (c ∷ t)))

-- What a complete read is.
abbrev pub Complete : Text → ReadResult → Type 0
Complete whole r = (r.status ≡ ok) × (r.bytes ≡ whole)

read_body-Complete :
    (whole bytes : Text) (incoming : List Text)
    → length bytes < length whole
    → bytes ++ flat incoming ≡ whole
    → Complete whole (read_body (length whole) bytes incoming)
unfolding read_body flat
read_body-Complete whole bytes [] h e =
    absurd (omega (arith, ap length e, length-append {0} bytes []))
read_body-Complete whole bytes (chunk ∷ rest) h e =
    let e' : (bytes ++ chunk) ++ flat rest ≡ whole = append_assoc bytes chunk (flat rest) ∙ e in
    elim (Bool-cases (ltb (length (bytes ++ chunk)) (length whole))) [
      | inl more ↦ rw more (read_body-Complete whole (bytes ++ chunk) rest (ground arith) e')
      | inr done ↦ rw done (refl, prefix-eq (bytes ++ chunk) (flat rest) whole e' (ground arith))
    ]

some-head :
    (a a' b b' : Text) → ◌≡◌ {A = Option (Text × Text)} (some (a, b)) (some (a', b')) → a ≡ a'
some-head a a' b b' e = cc

module _ (num : Strtoull) (limits : Limits) (head body : Text) where
  abbrev pub whole : Text
  whole = head ++ (blank_line ++ body)

  act-Complete :
      (bytes : Text) (rest : List Text)
      → judge num limits head ≡ expect (length whole)
      → bytes ++ flat rest ≡ whole
      → Complete whole (act (judge num limits head) bytes rest)
  unfolding act
  act-Complete bytes rest j e = rw j (elim (Bool-cases (ltb (length bytes) (length whole))) [
    | inl more ↦ rw more (read_body-Complete whole bytes rest (ground arith) e)
    | inr done ↦ rw done (refl, prefix-eq bytes (flat rest) whole e (ground arith))
  ])

  on_head-Complete :
      (o : Option (Text × Text)) (bytes : Text) (rest : List Text) (more : ReadResult)
      → find_text blank_line bytes ≡ o
      → find_text blank_line whole ≡ some (head, blank_line ++ body)
      → judge num limits head ≡ expect (length whole)
      → length head + 3 ≤ limits.max_header_bytes
      → bytes ++ flat rest ≡ whole
      → (length bytes < length whole → Complete whole more)
      → Complete whole (on_head num limits o bytes rest more)
  unfolding on_head
  on_head-Complete none bytes rest more o first j h e next =
      let short : length bytes < length head + 4 =
        find_text-none blank_line bytes (flat rest) head (blank_line ++ body) (omega arith)
          (ap (find_text blank_line) e ∙ first) o in
      elim (Bool-cases (ltb limits.max_header_bytes (length bytes))) [
        | inl long ↦ absurd (ground arith)
        | inr fits ↦ rw fits (next (omega (arith, length-append {0} head (blank_line ++ body))))
      ]
  on_head-Complete (some (head', found)) bytes rest more o first j h e next =
      subst (λ d. Complete whole (act (judge num limits d) bytes rest))
        (some-head head head' _ _ (
          sym first
          ∙ ap (find_text blank_line) (sym e)
          ∙ find_text-more blank_line bytes (flat rest) head' found (omega arith) o))
        (act-Complete bytes rest j e)

  read_head-Complete :
      (bytes : Text) (incoming : List Text)
      → find_text blank_line whole ≡ some (head, blank_line ++ body)
      → judge num limits head ≡ expect (length whole)
      → length head + 3 ≤ limits.max_header_bytes
      → length bytes < length whole
      → bytes ++ flat incoming ≡ whole
      → Complete whole (read_head num limits bytes incoming)
  unfolding read_head flat
  read_head-Complete bytes [] first j h k e =
      absurd (omega (arith, ap length e, length-append {0} bytes []))
  read_head-Complete bytes (chunk ∷ rest) first j h k e =
      let e' : (bytes ++ chunk) ++ flat rest ≡ whole = append_assoc bytes chunk (flat rest) ∙ e in
      on_head-Complete (find_text blank_line (bytes ++ chunk)) (bytes ++ chunk) rest
        (read_head num limits (bytes ++ chunk) rest) refl first j h e'
        (λ more. read_head-Complete (bytes ++ chunk) rest first j h more e')

  -- A request whose head has no blank line of its own, is accepted by the server's tests with the
  -- length of its body, and is three bytes or more below the limit, is read whole, however the network
  -- cuts it.
  pub read_request-Complete :
      (incoming : List Text)
      → find_text blank_line whole ≡ some (head, blank_line ++ body)
      → judge num limits head ≡ expect (length whole)
      → length head + 3 ≤ limits.max_header_bytes
      → flat incoming ≡ whole
      → Complete whole (read_request num limits incoming)
  unfolding read_request
  read_request-Complete incoming first j h e =
      read_head-Complete [] incoming first j h
        (omega (arith, length-append {0} head (blank_line ++ body))) e
