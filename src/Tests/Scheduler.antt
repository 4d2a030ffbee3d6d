-- ===== src/Tests/Scheduler.antt =====
-- A schedule of two tasks, on which the lemmas of Scheduler are tried.
use public_cpp_laravel.Prelude.{ℕ, suc, ◌≡◌, refl, List, [], none, Text, codes, length}
use public_cpp_laravel.Prelude.Int.{ℤ, pos}
use public_cpp_laravel.Scheduler.{
  World, Called, Task, Pending, every, daily_at, run_pending, parse_hhmm,
}
use public_cpp_laravel.Scheduler.Once.{run_pending-run_pending, every_due-now, daily_due-now}
use public_cpp_laravel.Tests.Database.{whole}

abbrev Counted : Type 0
Counted = World ℕ ℕ

abbrev counting : Counted → Called Counted
counting w = Called.returned (record w { state = suc w.state })

abbrev count_text : Text → ℤ
count_text s = pos (length s)

-- The trigger is always at 3.
abbrev local_time : ℤ → ℤ → ℤ → ℤ
local_time now hour minute = pos 3

abbrev tasks : List (Task Counted)
tasks =
    daily_at count_text local_time (every [] (pos 60) (codes "sweep") counting) (codes "3:0")
      (codes "turn") counting

abbrev start_world : Counted
start_world = record { memory = []; conn = none; state = 0 }

run_pending-run_pending_example :
    (n : ℕ) × (w' : Counted) × (run_pending whole (codes "runs") (pos 9) tasks start_world (pos 7)
      ≡ Pending.ran n w')
    × (run_pending whole (codes "runs") (pos 9) tasks w' (pos 7) ≡ Pending.ran 0 w')
unfolding every daily_at
run_pending-run_pending_example =
    run_pending-run_pending whole (codes "runs") (pos 9) tasks start_world (pos 7) refl refl
      (
        (λ w. (record w { state = suc w.state }, refl, refl, refl)),
        ((λ w. (record w { state = suc w.state }, refl, refl, refl)), tt),
      )
      (
        every_due-now (pos 60) (pos 7) refl refl,
        (daily_due-now local_time (parse_hhmm count_text (codes "3:0")) (pos 7), tt),
      )
