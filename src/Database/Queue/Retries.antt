-- ===== src/Database/Queue/Retries.antt =====
-- A job that always fails: it is tried `max_attempts` times and then lies in `failed_jobs`.
use public_cpp_laravel.Prelude.{
  if◌then◌else◌, subst, length, ℕ, zero, suc, ◌+◌, ◌≡◌, ◌≢◌, refl, ap, ◌∙◌, true, false, List, [],
  ◌∷◌, ◌++◌, some, arith, Text, lookup, insert, text_key,
}
use public_cpp_laravel.Prelude.Int.{ℤ, pos, ◌+ℤ◌, ◌≤ℤ◌, ltb_ℤ, leb_ℤ}
use public_cpp_laravel.Database.Value.{Float, Texts}
use public_cpp_laravel.Database.Memory.{Connection, insert_row, all}
use public_cpp_laravel.Database.Queue.Attempts.{
  job_row, failed_row, lookup-insert_self, again, given_up, work_row-again, work_row-given_up,
  again_one, again_failed, given_up_jobs, given_up_failed, work_lem,
}
use public_cpp_laravel.Database.Queue.{
  World, DbQueue, Handler, failed, Worked, finished, jobs, failed_jobs, next_run, stopped, work,
  push, new_job,
}

-- One pass of `work` after another, at these times.
abbrev pub after_pass : {D S : Type 0} → Worked D S → ℕ → (ℕ → World D S → Worked D S) → Worked D S
after_pass (finished k w) n next = next (n + k) w
after_pass (stopped w) n next = stopped w

abbrev pub passes :
    {D S : Type 0} → (ℤ → World D S → Worked D S) → List ℤ → ℕ → World D S → Worked D S
passes pass [] n w = finished n w
passes pass (now ∷ nows) n w = after_pass (pass now w) n (passes pass nows)

-- The times of the passes: none is 0, and each finds the job due after the attempts so far.
abbrev pub Due : {D S : Type 0} → DbQueue D S → ℕ → ℤ → List ℤ → Type 0
Due q a t [] = Unit
Due q a t (now ∷ nows) =
    (t ≤ℤ now) × (now ≢ pos 0) × Due q (suc a) (next_run q now (pos (suc a))) nows

abbrev pub repeat : {S : Type 0} → ℕ → (S → S) → S → S
repeat zero f s = s
repeat (suc n) f s = repeat n f (f s)

add_one : (a : ℕ) → pos a +ℤ pos 1 ≡ pos (suc a)
unfolding ◌+ℤ◌
add_one a = ground arith

pushed :
    {D : Type 0} (fl : Float D) (c : Connection D) (job payload : Text) (delay t : ℤ)
    → all fl c jobs ≡ []
    → lookup jobs (push fl c job payload delay t).tables
      ≡ some (
          job_row job payload
            (pos 0)
            (if ltb_ℤ (pos 0) delay then t +ℤ delay else pos 0)
            (pos 0)
            (insert_row fl c jobs (new_job job payload delay t)).0
          ∷ [])
unfolding push all insert_row new_job insert
pushed fl c job payload delay t empty = lookup-insert_self jobs _ c.tables ∙ rw empty refl

module _ {D S : Type 0} (fl : Float D) (texts : Texts D) (q : DbQueue D S) (job payload what : Text)
    (tick : S → S) (h : Handler D S) (known : lookup job q.handlers ≡ some h)
    (fails : (w : World D S) → h payload w ≡ failed what (record w { outer = tick w.outer }))
    (clock : ℤ) where
  -- The job is gone from `jobs` and stands last in `failed_jobs`, with what its last attempt threw;
  -- the handler was called `n` times.
  abbrev pub Exhausted : ℕ → World D S → World D S → Type 0
  Exhausted n w w' =
      (all fl w'.conn jobs ≡ [])
      × ((id : ℤ) × (all fl w'.conn failed_jobs
            ≡ all fl w.conn failed_jobs ++ (failed_row job payload what id ∷ [])))
      × (w'.outer ≡ repeat n tick w.outer)

  abbrev pub Exhausts : List ℤ → ℕ → World D S → Type 0
  Exhausts nows n w =
      (w' : World D S) × (passes (work fl texts q clock) nows n w ≡ finished (n + length nows) w')
      × Exhausted (length nows) w w'

  last_pass :
      (w : World D S) (a : ℕ) (t id now : ℤ) (n : ℕ)
      → q.max_attempts ≡ pos (suc a)
      → t ≤ℤ now
      → now ≢ pos 0
      → lookup jobs w.conn.tables ≡ some (job_row job payload (pos a) t (pos 0) id ∷ [])
      → Exhausts (now ∷ []) n w
  last_pass w a t id now n most due nonzero one =
      let last : leb_ℤ q.max_attempts (pos a +ℤ pos 1) ≡ true =
        rw (most, add_one a) (ground arith) in
      (
        given_up fl texts q job payload what tick h known fails w (pos a) t id now due one,
        ap (λ r. after_pass r n (passes (work fl texts q clock) []))
            (work_lem fl texts q job payload what tick h known fails w (pos a) t id now due one
              clock _ nonzero
              (work_row-given_up fl texts q job payload what tick h known fails w (pos a) t id now
                due one last)),
        (
          given_up_jobs fl texts q job payload what tick h known fails w (pos a) t id now due one,
          (
            _,
            given_up_failed fl texts q job payload what tick h known fails w (pos a) t id now due
                one,
          ),
          refl,
        ),
      )

  later_pass :
      (w : World D S) (a : ℕ) (t id now : ℤ) (nows : List ℤ) (n : ℕ)
      → leb_ℤ q.max_attempts (pos (suc a)) ≡ false
      → t ≤ℤ now
      → now ≢ pos 0
      → lookup jobs w.conn.tables ≡ some (job_row job payload (pos a) t (pos 0) id ∷ [])
      → ((w' : World D S)
          → lookup jobs w'.conn.tables
            ≡ some
                (job_row job payload (pos (suc a)) (next_run q now (pos (suc a))) (pos 0) id ∷ [])
          → Exhausts nows (n + 1) w')
      → Exhausts (now ∷ nows) n w
  later_pass w a t id now nows n more due nonzero one next =
      let w' : World D S =
        again fl texts q job payload what tick h known fails w (pos a) t id now due one
          (next_run q now (pos a +ℤ pos 1)) in
      let (end, ran, (gone, (fid, moved), called)) = next w' (
        subst
          (λ k.
            lookup jobs w'.conn.tables
            ≡ some (job_row job payload k (next_run q now k) (pos 0) id ∷ []))
          (add_one a)
          (again_one fl texts q job payload what tick h known fails w (pos a) t id now due one
            (next_run q now (pos a +ℤ pos 1)))) in
      (
        end,
        ap (λ r. after_pass r n (passes (work fl texts q clock) nows))
              (work_lem fl texts q job payload what tick h known fails w (pos a) t id now due one
                clock w' nonzero
                (work_row-again fl texts q job payload what tick h known fails w (pos a) t id now
                  due one (rw (add_one a) more)))
            ∙ ran
            ∙ ap (λ k. finished k end) (omega arith),
        (
          gone,
          (
            fid,
            moved
                ∙ ap (λ rows. rows ++ (failed_row job payload what fid ∷ []))
                    (again_failed fl texts q job payload what tick h known fails w (pos a) t id now
                      due one (next_run q now (pos a +ℤ pos 1))),
          ),
          called,
        ),
      )

  all_passes :
      (nows : List ℤ) (w : World D S) (a : ℕ) (t id now : ℤ) (n : ℕ)
      → q.max_attempts ≡ pos (a + length (now ∷ nows))
      → Due q a t (now ∷ nows)
      → lookup jobs w.conn.tables ≡ some (job_row job payload (pos a) t (pos 0) id ∷ [])
      → Exhausts (now ∷ nows) n w
  all_passes [] w a t id now n most due one =
      last_pass w a t id now n (most ∙ ap pos (omega arith)) due.0 due.1 one
  all_passes (next ∷ nows) w a t id now n most due one =
      later_pass w a t id now (next ∷ nows) n (rw most (ground arith)) due.0 due.1 one (λ w' one'.
        all_passes nows w' (suc a) (next_run q now (pos (suc a))) id next (n + 1)
          (most ∙ ap pos (omega arith)) due.2 one')

  -- A job that is pushed into an empty queue and whose handler throws every time, leaving the
  -- connection alone, is tried exactly `max_attempts` times: passes of `work` at as many times, each
  -- when the job is due, process it once each and call its handler once each, and then the job is gone
  -- from `jobs` and stands at the end of `failed_jobs` with the text of its exception.
  pub passes-push :
      (c : Connection D) (s : S) (delay t now : ℤ) (nows : List ℤ)
      → all fl c jobs ≡ []
      → q.max_attempts ≡ pos (length (now ∷ nows))
      → Due q 0 (if ltb_ℤ (pos 0) delay then t +ℤ delay else pos 0) (now ∷ nows)
      → Exhausts (now ∷ nows) 0 (record { conn = push fl c job payload delay t; outer = s })
  passes-push c s delay t now nows empty most due =
      all_passes nows (record { conn = push fl c job payload delay t; outer = s }) 0 _ _ now 0
        (most ∙ ap pos (omega arith)) due (pushed fl c job payload delay t empty)
