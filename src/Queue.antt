-- ===== src/Queue.antt =====
-- include/queue.hpp. A job acts on the application's state and says whether it returned or threw. The
-- queue is not part of that state: a job that pushes onto the queue that runs it is undefined there.
pub mod Retried
use public_cpp_laravel.Prelude.{ℕ, Bool, true, false, List, [], ◌∷◌, ◌++◌, length}

abbrev pub Job : Type 0 → Type 0
Job S = S → Bool × S

module _ {S : Type 0} where
  -- `SyncQueue::push`.
  unfoldable pub sync_push : Job S → S → Bool × S
  sync_push job s = job s

  -- `ArrayQueue`, its `jobs_`.
  unfoldable pub array_push : Job S → List (Job S) → List (Job S)
  array_push job jobs = jobs ++ (job ∷ [])

  unfoldable pub size : List (Job S) → ℕ
  size jobs = length jobs

  abbrev pub then_do : (S → Bool × S) → Bool × S → Bool × S
  then_do rest (false, s) = (false, s)
  then_do rest (true, s) = rest s

  -- The loop of `work`, which an exception leaves.
  unfoldable pub run_jobs : List (Job S) → S → Bool × S
  run_jobs [] s = (true, s)
  run_jobs (job ∷ jobs) s = then_do (run_jobs jobs) (job s)

  -- `clear` follows the loop only where it ended.
  abbrev pub cleared : List (Job S) → Bool → List (Job S)
  cleared jobs true = []
  cleared jobs false = jobs

  unfoldable pub work : List (Job S) → S → Bool × S × List (Job S)
  unfolding run_jobs
  work jobs s = let (returned, s') = run_jobs jobs s in (returned, s', cleared jobs returned)
