-- ===== src/Tests/Queue.antt =====
-- A queue of one job that always fails, and a table of numbered rows, on which the lemmas of
-- Database.Queue and Database.Select are tried.
use mathlib.Core.List.{Perm}
use public_cpp_laravel.Prelude.{
  ℕ, suc, if◌then◌else◌, ◌≡◌, inl, refl, Bool, true, false, List, [], ◌∷◌, Option, some, none,
  arith, Text, codes, lookup, insert, text_key,
}
use public_cpp_laravel.Prelude.Int.{ℤ, pos, ◌+ℤ◌, ◌-ℤ◌, ◌*ℤ◌, ltb_ℤ, eqb_ℤ, eqb_ℤ_iff}
use public_cpp_laravel.Database.Value.{
  Texts, Value, int, real, bool, str, Row, value_eq, cell_is, as_int, get_int,
}
use public_cpp_laravel.Database.Memory.{
  Connection, update_if, update_if_rows, in_table, guard_holds, all,
}
use public_cpp_laravel.Database.Select.{keep, select, passes as passes_where, all_have}
use public_cpp_laravel.Database.Select.Order.{
  InOrder, Belongs, CellLess, passing, ordered, select-Sorted,
}
use public_cpp_laravel.Database.Select.Pages.{page_at}
use public_cpp_laravel.Database.Queue.{
  World, failed, Handler, DbQueue, jobs, time_of, is_due, claim, retry, work_row, push, next_run,
}
use public_cpp_laravel.Database.Queue.Workers.{PassedOver, claim-PassedOver}
use public_cpp_laravel.Database.Queue.Attempts.{job_row, work_row-seen}
use public_cpp_laravel.Database.Queue.Retries.{Due, Exhausts, passes-push}
use public_cpp_laravel.Tests.Database.{whole, nothing}
use public_cpp_laravel.Tests.Unary.{write_unary}

abbrev texts : Texts ℕ
texts = record {
  of_int = write_unary;
  of_real = λ n. write_unary (pos n);
  no_such_key = codes "no such key";
}

-- The outside counts the calls.
abbrev always_fails : Handler ℕ ℕ
always_fails payload w = failed (codes "no") (record w { outer = suc w.outer })

abbrev queue : DbQueue ℕ ℕ
queue = record {
  max_attempts = pos 3;
  retry_backoff = pos 10;
  retry_after = pos 90;
  handlers = (codes "mail", always_fails) ∷ [];
}

abbrev waiting : Row ℕ
waiting = job_row (codes "mail") (codes "hi") (pos 0) (pos 0) (pos 0) (pos 1)

abbrev claimed : Row ℕ
claimed = job_row (codes "mail") (codes "hi") (pos 0) (pos 0) (pos 100) (pos 1)

abbrev holding : Row ℕ → Connection ℕ
holding row = record {
  tables = (jobs, row ∷ []) ∷ [];
  next_id = (jobs, pos 1) ∷ [];
  snapshot = none;
}

waiting-claimed : claim whole (pos 100) (pos 1) waiting (holding waiting) ≡ (true, holding claimed)
unfolding claim update_if in_table update_if_rows guard_holds time_of get_int cell_is as_int lookup
    insert value_eq
waiting-claimed = refl

waiting_due : is_due whole texts queue (pos 100) waiting ≡ true
unfolding is_due time_of get_int lookup as_int ◌-ℤ◌
waiting_due = refl

waiting_id : get_int whole (codes "id") waiting ≡ some (pos 1)
unfolding get_int lookup as_int
waiting_id = refl

claim-PassedOver_example :
    PassedOver whole texts queue (pos 101) waiting (record { conn = holding claimed; outer = 0 })
claim-PassedOver_example =
    claim-PassedOver whole texts queue queue (pos 100) (pos 101) (pos 1) waiting (holding waiting)
      (holding claimed) 0 (omega arith) (cc) waiting_id waiting_due waiting-claimed

mail_known : lookup (codes "mail") queue.handlers ≡ some always_fails
unfolding lookup
mail_known = refl

-- The row was tried once at 100, and is to be tried again at 110; a worker that saw it before comes at
-- 101.
abbrev requeued_world : World ℕ ℕ
requeued_world = record {
  conn = holding (job_row (codes "mail") (codes "hi") (pos 1) (pos 110) (pos 0) (pos 1));
  outer = 1;
}

requeued_there :
    lookup jobs requeued_world.conn.tables
    ≡ some (job_row (codes "mail") (codes "hi") (pos 1) (pos 110) (pos 0) (pos 1) ∷ [])
unfolding lookup
requeued_there = refl

work_row-seen_example :
    work_row whole texts queue (pos 101) waiting requeued_world
    ≡ retry whole texts queue (pos 101) (pos 1) waiting (codes "no") (pos 0 +ℤ pos 1) (record {
      conn = record requeued_world.conn {
        tables =
            insert jobs
              (job_row (codes "mail") (codes "hi") (pos 0) (pos 0) (pos 101) (pos 1) ∷ [])
              requeued_world.conn.tables;
      };
      outer = 2;
    })
work_row-seen_example =
    work_row-seen whole texts queue (codes "mail") (codes "hi") (codes "no") suc always_fails
      mail_known (λ w. refl) requeued_world (pos 0) (pos 0) (pos 1) (pos 101) (omega arith) (pos 1)
      (pos 110) requeued_there

empty_queue : all whole nothing jobs ≡ []
unfolding all lookup
empty_queue = refl

abbrev times : List ℤ
times = pos 110 ∷ pos 130 ∷ []

abbrev available : ℤ
available = if ltb_ℤ (pos 0) (pos 0) then pos 50 +ℤ pos 0 else pos 0

times-Due : Due queue 0 available (pos 100 ∷ times)
unfolding next_run ◌+ℤ◌ ◌*ℤ◌
times-Due = (omega arith, (cc), (omega arith, (cc), (omega arith, (cc), tt)))

passes-push_example :
    Exhausts whole texts queue
      (codes "mail")
      (codes "hi")
      (codes "no")
      suc
      always_fails
      mail_known
      (λ w. refl)
      (pos 100)
      (pos 100 ∷ times)
      0
      (record { conn = push whole nothing (codes "mail") (codes "hi") (pos 0) (pos 50); outer = 0 })
passes-push_example =
    passes-push whole texts queue (codes "mail") (codes "hi") (codes "no") suc always_fails
      mail_known (λ w. refl) (pos 100) nothing 0 (pos 0) (pos 50) (pos 100) times empty_queue refl
      times-Due

abbrev numbered : ℕ → Text → Row ℕ
numbered n name = (codes "n", int (pos n)) ∷ (codes "name", str name) ∷ []

abbrev table : Connection ℕ
table = record {
  tables =
      (codes "t", numbered 2 (codes "b") ∷ numbered 1 (codes "a") ∷ numbered 2 (codes "c") ∷ [])
      ∷ [];
  next_id = [];
  snapshot = none;
}

all_numbered : all_have (codes "n") (passing whole table (codes "t") [] (codes "n") false) ≡ true
unfolding all_have all passes_where lookup
all_numbered = refl

abbrev is_two : Option (Value ℕ) → Bool
is_two (some (int n)) = eqb_ℤ n (pos 2)
is_two cell = false

two_lem : (n : ℤ) → eqb_ℤ n (pos 2) ≡ true → n ≡ pos 2
two_lem n h = (eqb_ℤ_iff n (pos 2)).0 h

twos_tie : (x y : Option (Value ℕ)) → is_two x ≡ true → is_two y ≡ true → ¬ CellLess whole x y
twos_tie (some (int a)) (some (int b)) h k =
    λ less. absurd (ground (arith, two_lem a h, two_lem b k, less))
twos_tie none y h k = absurd (cc)
twos_tie x none h k = absurd (cc)
twos_tie (some (real a)) y h k = absurd (cc)
twos_tie (some (str a)) y h k = absurd (cc)
twos_tie (some (bool a)) y h k = absurd (cc)
twos_tie x (some (real b)) h k = absurd (cc)
twos_tie x (some (str b)) h k = absurd (cc)
twos_tie x (some (bool b)) h k = absurd (cc)

select-Sorted_example :
    (rows : List (Row ℕ)) × (select whole table
        (codes "t")
        (ordered whole table (codes "t") [] (codes "n") false)
      ≡ some rows)
    × Perm rows (passing whole table (codes "t") [] (codes "n") false)
    × InOrder (Belongs whole (codes "n") false) rows
    × (keep (λ r. is_two (lookup (codes "n") r)) rows
        ≡ keep
            (λ r. is_two (lookup (codes "n") r))
            (passing whole table (codes "t") [] (codes "n") false))
select-Sorted_example =
    select-Sorted whole table (codes "t") [] (codes "n") false (inl all_numbered)
      (λ r. is_two (lookup (codes "n") r))
      (λ a b. twos_tie (lookup (codes "n") a) (lookup (codes "n") b))

first_page :
    select whole table (codes "t") (page_at whole table (codes "t") [] none 0 1)
    ≡ some (numbered 2 (codes "b") ∷ [])
unfolding select lookup
first_page = refl

second_page :
    select whole table (codes "t") (page_at whole table (codes "t") [] none 1 2)
    ≡ some (numbered 1 (codes "a") ∷ numbered 2 (codes "c") ∷ [])
unfolding select lookup
second_page = refl
