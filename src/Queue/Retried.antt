-- ===== src/Queue/Retried.antt =====
-- A job of the queue that throws.
use public_cpp_laravel.Prelude.{◌≡◌, ap, ◌∙◌, Bool, true, false, List, [], ◌∷◌, ◌++◌}
use public_cpp_laravel.Queue.{Job, then_do, run_jobs, cleared, work}

module _ {S : Type 0} where
  -- A step that led to a result can go on differently behind the same result.
  then_do-replace :
      (rest other : S → Bool × S) (o : Bool × S) (s' : S) (result : Bool × S)
      → then_do rest o ≡ (true, s')
      → ((t : S) → rest t ≡ (true, s') → other t ≡ result)
      → then_do other o ≡ result
  then_do-replace rest other (false, t) s' result h k = absurd (cc)
  then_do-replace rest other (true, t) s' result h k = k t h

  -- Jobs that return are followed by the next ones.
  run_jobs-append :
      (jobs more : List (Job S)) (s s' : S)
      → run_jobs jobs s ≡ (true, s')
      → run_jobs (jobs ++ more) s ≡ run_jobs more s'
  unfolding run_jobs
  run_jobs-append [] more s s' h = ap (run_jobs more) (ap (λ o. o.1) h)
  run_jobs-append (job ∷ jobs) more s s' h =
      then_do-replace (run_jobs jobs) (run_jobs (jobs ++ more)) (job s) s' (run_jobs more s') h
        (λ t k. run_jobs-append jobs more t s' k)

  run_jobs-throws :
      (before after : List (Job S)) (job : Job S) (s s' t : S)
      → run_jobs before s ≡ (true, s')
      → job s' ≡ (false, t)
      → run_jobs (before ++ (job ∷ after)) s ≡ (false, t)
  unfolding run_jobs
  run_jobs-throws before after job s s' t h k =
      run_jobs-append before (job ∷ after) s s' h ∙ ap (then_do (run_jobs after)) k

  work-run_jobs :
      (jobs : List (Job S)) (s s' : S) (b : Bool)
      → run_jobs jobs s ≡ (b, s')
      → work jobs s ≡ (b, s', cleared jobs b)
  unfolding work
  work-run_jobs jobs s s' b h = ap (λ o. (o.0, o.1, cleared jobs o.0)) h

  -- Where a job throws behind others that returned, `work` leaves the queue as it was, the jobs that
  -- have run included; a second `work` in which all of them return runs them all, the first ones for
  -- the second time, and empties the queue.
  pub work-throws :
      (before after : List (Job S)) (job : Job S) (s s' t t' : S)
      → run_jobs before s ≡ (true, s')
      → job s' ≡ (false, t)
      → run_jobs (before ++ (job ∷ after)) t ≡ (true, t')
      → (work (before ++ (job ∷ after)) s ≡ (false, t, before ++ (job ∷ after)))
        × (work (before ++ (job ∷ after)) t ≡ (true, t', []))
  work-throws before after job s s' t t' h k again = (
    work-run_jobs (before ++ (job ∷ after)) s t false (run_jobs-throws before after job s s' t h k),
    work-run_jobs (before ++ (job ∷ after)) t t' true again,
  )
