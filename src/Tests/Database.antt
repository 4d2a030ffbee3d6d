-- ===== src/Tests/Database.antt =====
-- The tables and rows on which the lemmas of Database are tried.
use public_cpp_laravel.Prelude.{
  ℕ, ◌≡◌, refl, true, false, List, [], ◌∷◌, none, Text, codes, lookup, insert, text_key, ◌==◌, ltb,
  leb, arith,
}
use public_cpp_laravel.Prelude.Int.{pos}
use public_cpp_laravel.Database.Value.{Float, int, str, Row, value_eq, cell_is, as_int}
use public_cpp_laravel.Database.Memory.{
  Connection, with_id, guard_holds, find_row, update_if, update_if_rows, in_table,
}
use public_cpp_laravel.Database.Memory.Claim.{update_if_once}
use public_cpp_laravel.Database.Memory.Rows.{Op, inserts, removes, IsFresh}

pub ltb_asymm : (a b : ℕ) → ltb a b ≡ true → ltb b a ≡ false
ltb_asymm a b h = ground arith

pub ltb_cotrans : (a b c : ℕ) → ltb a b ≡ false → ltb b c ≡ false → ltb a c ≡ false
ltb_cotrans a b c h k = ground arith

-- Whole numbers for `double`.
abbrev pub whole : Float ℕ
whole = record {
  feq = λ a b. a == b;
  flt = ltb;
  fle = leb;
  flt_asymm = λ a b h. ltb_asymm a b h;
  flt_cotrans = λ a b c h k. ltb_cotrans a b c h k;
  to_int = λ a. pos a;
}

abbrev jobs : Text
jobs = codes "jobs"

abbrev status : Text
status = codes "status"

abbrev job : Text → Row ℕ
job state = (codes "id", int (pos 1)) ∷ (status, str state) ∷ []

abbrev one_job : Connection ℕ
one_job = record {
  tables = (jobs, job (codes "pending") ∷ []) ∷ [];
  next_id = (jobs, pos 1) ∷ [];
  snapshot = none;
}

abbrev claimed : Connection ℕ
claimed = record {
  tables = (jobs, job (codes "running") ∷ []) ∷ [];
  next_id = (jobs, pos 1) ∷ [];
  snapshot = none;
}

claims :
    update_if whole one_job jobs (pos 1) status (str (codes "pending")) (job (codes "running"))
    ≡ (true, claimed)
unfolding update_if update_if_rows in_table guard_holds lookup insert cell_is value_eq as_int
claims = refl

differs :
    guard_holds whole
      (lookup status (with_id (pos 1) (job (codes "running"))))
      (str (codes "pending"))
    ≡ false
unfolding guard_holds lookup insert value_eq
differs = refl

update_if_once_example :
    (update_if whole claimed jobs (pos 1) status (str (codes "pending")) (job (codes "mine"))).0
    ≡ false
update_if_once_example =
    update_if_once whole one_job claimed jobs status (pos 1) (str (codes "pending"))
      (job (codes "running")) (job (codes "mine")) differs claims

abbrev steps : List (Op whole)
steps = inserts jobs (job (codes "new")) ∷ removes jobs (pos 1) ∷ []

abbrev pub nothing : Connection ℕ
nothing = record { tables = []; next_id = []; snapshot = none }

nothing-IsFresh : IsFresh whole nothing
unfolding lookup find_row
nothing-IsFresh t id lt = refl
