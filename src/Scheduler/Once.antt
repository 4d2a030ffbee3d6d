-- ===== src/Scheduler/Once.antt =====
-- A task that has run is not run again at the same time.
use public_cpp_laravel.Prelude.{
  ℕ, suc, ◌≡◌, refl, ap, ◌∙◌, false, List, [], ◌∷◌, none, some, arith, if◌then◌else◌, Bool-cases,
  inl, inr, ◌⊎◌, Text, text_eq, text_eq_refl, All, lookup, insert, text_key, lookup-insert,
}
use public_cpp_laravel.Prelude.Int.{ℤ, pos, leb_ℤ, eqb_ℤ, -ℤ_parts}
use public_cpp_laravel.Database.Value.{Float}
use public_cpp_laravel.Database.Memory.{or_zero}
use public_cpp_laravel.Scheduler.{
  World, Called, Task, Pending, every_due, daily_due, last_run_of, last_run, record_run_of,
  record_run, run_task, run_tasks, run_pending,
}

-- A task that has just run is not due.
abbrev pub Settles : {W : Type 0} → ℤ → Task W → Type 0
Settles now t = t.due now now ≡ false

pub every_due-now :
    (secs now : ℤ)
    → leb_ℤ secs (pos 0) ≡ false
    → eqb_ℤ now (pos 0) ≡ false
    → every_due secs now now ≡ false
unfolding every_due
every_due-now secs now h k = ground (arith, h, k, -ℤ_parts now now)

pub daily_due-now :
    (today_at : ℤ → ℤ → ℤ → ℤ) (at : ℤ × ℤ) (now : ℤ) → daily_due today_at at now now ≡ false
unfolding daily_due
daily_due-now today_at at now = ground arith

module _ {D S : Type 0} (fl : Float D) (table : Text) where
  -- A task that returns, and leaves the stamps in memory and the lack of a connection as they are.
  abbrev pub Quiet : Task (World D S) → Type 0
  Quiet t =
      (w : World D S)
      → (w' : World D S) × (t.fn w ≡ Called.returned w')
        × (w'.memory ≡ w.memory)
        × (w'.conn ≡ w.conn)

  abbrev stamp : World D S → Text → ℤ
  stamp w name = or_zero (lookup name w.memory)

  last_run-stamp :
      (w : World D S) (name : Text) → w.conn ≡ none → last_run fl table w name ≡ some (stamp w name)
  unfolding last_run last_run_of
  last_run-stamp w name h = rw h refl

  record_run-stamp :
      (w : World D S) (name : Text) (now : ℤ)
      → w.conn ≡ none
      → record_run fl table w name now ≡ some (record w { memory = insert name now w.memory })
  unfolding record_run record_run_of
  record_run-stamp w name now h = rw h refl

  -- With nothing due, a pass changes nothing.
  run_tasks-idle :
      (tasks : List (Task (World D S))) (now : ℤ) (w : World D S)
      → w.conn ≡ none
      → All (λ t. t.due now (stamp w t.name) ≡ false) tasks
      → run_tasks fl table tasks now w ≡ Pending.ran 0 w
  unfolding run_tasks run_task
  run_tasks-idle [] now w h idle = refl
  run_tasks-idle (t ∷ tasks) now w h idle =
      rw (last_run-stamp w t.name h, idle.0) (run_tasks-idle tasks now w h idle.1)

  -- A stamp is kept, or it is of `now`.
  abbrev Stamped : ℤ → World D S → World D S → Type 0
  Stamped now w w' = (name : Text) → (stamp w' name ≡ stamp w name) ⊎ (stamp w' name ≡ now)

  -- What a pass leaves behind.
  abbrev Passed : List (Task (World D S)) → ℤ → World D S → Pending (World D S) → Type 0
  Passed tasks now w p =
      (n : ℕ) × (w' : World D S) × (p ≡ Pending.ran n w')
      × (w'.conn ≡ none)
      × Stamped now w w'
      × All (λ t. t.due now (stamp w' t.name) ≡ false) tasks

  still_settled :
      (t : Task (World D S)) (now : ℤ) (w w' : World D S)
      → Settles now t
      → Stamped now w w'
      → t.due now (stamp w t.name) ≡ false
      → t.due now (stamp w' t.name) ≡ false
  still_settled t now w w' settles stamped idle = elim (stamped t.name) [
    | inl kept ↦ ap (t.due now) kept ∙ idle
    | inr new ↦ ap (t.due now) new ∙ settles
  ]

  Stamped-trans :
      (now : ℤ) (w w' w'' : World D S) → Stamped now w w' → Stamped now w' w'' → Stamped now w w''
  Stamped-trans now w w' w'' first second name = elim (second name) [
    | inl kept ↦ elim (first name) [ inl old ↦ inl (kept ∙ old) | inr new ↦ inr (kept ∙ new) ]
    | inr new ↦ inr new
  ]

  abbrev stamped_world : World D S → Text → ℤ → World D S
  stamped_world w name now = record w { memory = insert name now w.memory }

  record_run-Stamped :
      (w w' : World D S) (name : Text) (now : ℤ)
      → w'.memory ≡ insert name now w.memory
      → Stamped now w w' × (stamp w' name ≡ now)
  record_run-Stamped w w' name now e = (
    (λ other. elim (Bool-cases (text_eq name other)) [
      | inl same ↦ inr (moved other ∙ rw same refl)
      | inr apart ↦ inl (moved other ∙ rw apart refl)
    ]),
    moved name ∙ rw (text_eq_refl name) refl,
  )
    where
      moved : (other : Text) → stamp w' other ≡ (if text_eq name other then now else stamp w other)
      moved other = elim (Bool-cases (text_eq name other)) [
        | inl same ↦ rw (e, lookup-insert name other now w.memory, same) refl
        | inr apart ↦ rw (e, lookup-insert name other now w.memory, apart) refl
      ]

  run_tasks-Passed :
      (tasks : List (Task (World D S))) (now : ℤ) (w : World D S)
      → w.conn ≡ none
      → All Quiet tasks
      → All (Settles now) tasks
      → Passed tasks now w (run_tasks fl table tasks now w)
  unfolding run_tasks run_task
  run_tasks-Passed [] now w h quiet settles = (0, w, refl, h, (λ name. inl refl), tt)
  run_tasks-Passed (t ∷ tasks) now w h quiet settles =
      elim (Bool-cases (t.due now (stamp w t.name))) [
        | inr idle ↦
            let (n, w', e, h', stamped, rest) = run_tasks-Passed tasks now w h quiet.1 settles.1 in
            (
              n,
              w',
              rw (last_run-stamp w t.name h, idle) e,
              h',
              stamped,
              (still_settled t now w w' settles.0 stamped idle, rest),
            )
        | inl due ↦
            let w0 : World D S = stamped_world w t.name now in
            let (w1, called, memory, conn) = quiet.0 w0 in
            let (step, here) = record_run-Stamped w w1 t.name now memory in
            let (n, w', e, h', stamped, rest) =
              run_tasks-Passed tasks now w1 (conn ∙ h) quiet.1 settles.1 in
            (
              suc n,
              w',
              rw (last_run-stamp w t.name h, due, record_run-stamp w t.name now h, called, e) refl,
              h',
              Stamped-trans now w w1 w' step stamped,
              (still_settled t now w1 w' settles.0 stamped (ap (t.due now) here ∙ settles.0), rest),
            )
      ]

  -- A pass over tasks that return, none of which is due when it has just run, finishes, and a second
  -- pass at the same time, with the stamps in memory, runs no task and changes nothing.
  pub run_pending-run_pending :
      (clock : ℤ) (tasks : List (Task (World D S))) (w : World D S) (now : ℤ)
      → w.conn ≡ none
      → eqb_ℤ now (pos 0) ≡ false
      → All Quiet tasks
      → All (Settles now) tasks
      → (n : ℕ) × (w' : World D S) × (run_pending fl table clock tasks w now ≡ Pending.ran n w')
        × (run_pending fl table clock tasks w' now ≡ Pending.ran 0 w')
  unfolding run_pending
  run_pending-run_pending clock tasks w now h given quiet settles =
      let (n, w', e, h', stamped, idle) = run_tasks-Passed tasks now w h quiet settles in
      (n, w', rw given e, rw given (run_tasks-idle tasks now w' h' idle))
