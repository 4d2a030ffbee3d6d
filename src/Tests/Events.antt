-- ===== src/Tests/Events.antt =====
-- Handlers that write a number down, and one that throws.
use public_cpp_laravel.Prelude.{
  ◌≡◌, refl, true, false, ℕ, List, [], ◌∷◌, ◌++◌, codes, ltb, length, text_key,
}
use public_cpp_laravel.Queue.{Job, run_jobs, work}
use public_cpp_laravel.Events.{dispatch}
use public_cpp_laravel.Events.Deferred.{listen_all, listen_queued_all, dispatch-listen_queued_all}

abbrev note : ℕ → Job (List ℕ)
note n s = (true, s ++ (n ∷ []))

abbrev fail : ℕ → Job (List ℕ)
fail n s = (false, s)

-- It throws the first time.
abbrev wait : Job (List ℕ)
wait s = (ltb 1 (length s), s)

dispatch-listen_queued_all_example :
    (dispatch (codes "E") 4 (listen_queued_all (codes "E") (note ∷ fail ∷ note ∷ []) []) ([], [])
      ≡ (true, ([], note 4 ∷ fail 4 ∷ note 4 ∷ [])))
    × ((work (note 4 ∷ fail 4 ∷ note 4 ∷ []) []).0
        ≡ (dispatch (codes "E") 4 (listen_all (codes "E") (note ∷ fail ∷ note ∷ []) []) ([], [])).0)
    × ((work (note 4 ∷ fail 4 ∷ note 4 ∷ []) []).1
        ≡ (dispatch
            (codes "E")
            4
            (listen_all (codes "E") (note ∷ fail ∷ note ∷ []) [])
            ([], [])).1.0)
dispatch-listen_queued_all_example =
    dispatch-listen_queued_all (codes "E") (note ∷ fail ∷ note ∷ []) 4 []

first_run : run_jobs (note 1 ∷ []) [] ≡ (true, 1 ∷ [])
unfolding run_jobs
first_run = refl

second_run : run_jobs (note 1 ∷ wait ∷ []) (1 ∷ []) ≡ (true, 1 ∷ 1 ∷ [])
unfolding run_jobs
second_run = refl
