-- ===== src/Scheduler.antt =====
-- include/scheduler.hpp: `Schedule`. The tasks' functions, `atoi`, the local time of libc and the wall
-- clock are parameters. A task may change whatever the schedule shares with it, its stamps included.
pub mod Once
use public_cpp_laravel.Prelude.{
  ℕ, zero, suc, ◌+◌, Bool, true, false, ◌&&◌, ◌||◌, List, [], ◌∷◌, ◌++◌, Option, none, some,
  if◌then◌else◌, Text, codes, split_at, Dict, lookup, insert, text_key,
}
use public_cpp_laravel.Prelude.Int.{ℤ, pos, ◌-ℤ◌, ltb_ℤ, leb_ℤ, eqb_ℤ}
use public_cpp_laravel.Database.Value.{Float, Value, int, str, Row, get_int, as_int}
use public_cpp_laravel.Database.Memory.{Connection, or_zero, insert_row, update}
use public_cpp_laravel.Database.Select.{Op, Query, WhereClause, select}

pub record World (D S : Type 0) : Type 0 where
  pub memory : Dict Text ℤ
  pub conn : Option (Connection D)
  pub state : S

-- A task's function returns, or throws with what it has done by then.
pub data Called (W : Type 0) : Type 0 where
  returned : W → Called W
  threw : W → Called W

pub record Task (W : Type 0) : Type 0 where
  pub name : Text
  pub fn : W → Called W
  pub due : ℤ → ℤ → Bool

pub data Pending (W : Type 0) : Type 0 where
  ran : ℕ → W → Pending W
  stopped : W → Pending W

unfoldable pub every_due : ℤ → ℤ → ℤ → Bool
every_due secs now last = eqb_ℤ last (pos 0) || leb_ℤ secs (now -ℤ last)

unfoldable pub every : {W : Type 0} → List (Task W) → ℤ → Text → (W → Called W) → List (Task W)
unfolding every_due
every tasks secs name fn = tasks ++ (record { name = name; fn = fn; due = every_due secs } ∷ [])

abbrev split_clock : (Text → ℤ) → Option (Text × Text) → ℤ × ℤ
split_clock atoi none = (pos 0, pos 0)
split_clock atoi (some (hour, minute)) = (atoi hour, atoi minute)

unfoldable pub parse_hhmm : (Text → ℤ) → Text → ℤ × ℤ
unfolding split_at
parse_hhmm atoi s = split_clock atoi (split_at b':' s)

-- `today_at now hour minute` is the local time of day on the day of `now`.
unfoldable pub daily_due : (ℤ → ℤ → ℤ → ℤ) → ℤ × ℤ → ℤ → ℤ → Bool
daily_due today_at (hour, minute) now last =
    let trigger : ℤ = today_at now hour minute in leb_ℤ trigger now && ltb_ℤ last trigger

unfoldable pub daily_at :
    {W : Type 0}
    → (Text → ℤ)
    → (ℤ → ℤ → ℤ → ℤ)
    → List (Task W)
    → Text
    → Text
    → (W → Called W)
    → List (Task W)
unfolding daily_due parse_hhmm
daily_at atoi today_at tasks hhmm name fn =
    tasks ++ (record { name = name; fn = fn; due = daily_due today_at (parse_hhmm atoi hhmm) } ∷ [])

module _ {D : Type 0} (fl : Float D) (table : Text) where
  abbrev named : Text → Query D
  named name = record {
    wheres = record { column = codes "name"; op = Op.eq; value = str name; values = [] } ∷ [];
    order = none;
    limit = none;
    offset = none;
  }

  unfoldable pub stamp_of : List (Row D) → ℤ
  unfolding get_int
  stamp_of [] = pos 0
  stamp_of (r ∷ rows) = or_zero (get_int fl (codes "last_run") r)

  -- `none` where the query throws.
  unfoldable pub last_run_in : Option (List (Row D)) → Option ℤ
  unfolding stamp_of
  last_run_in none = none
  last_run_in (some rows) = some (stamp_of rows)

  unfoldable pub last_run_of : Option (Connection D) → Dict Text ℤ → Text → Option ℤ
  unfolding last_run_in select lookup
  last_run_of none memory name = some (or_zero (lookup name memory))
  last_run_of (some c) memory name = last_run_in (select fl c table (named name))

  unfoldable pub restamp : Connection D → Row D → ℤ → Option ℤ → Option (Connection D)
  unfolding update insert
  restamp c r now none = none
  restamp c r now (some id) = some (update fl c table id (insert (codes "last_run") (int now) r)).1

  unfoldable pub record_in : Connection D → Text → ℤ → Option (List (Row D)) → Option (Connection D)
  unfolding restamp insert_row insert get_int
  record_in c name now none = none
  record_in c name now (some []) =
      some
        (insert_row fl c table
          (insert (codes "last_run") (int now) (insert (codes "name") (str name) []))).1
  record_in c name now (some (r ∷ rows)) = restamp c r now (get_int fl (codes "id") r)

module _ {D S : Type 0} (fl : Float D) (table : Text) where
  unfoldable pub last_run : World D S → Text → Option ℤ
  unfolding last_run_of
  last_run w name = last_run_of fl table w.conn w.memory name

  abbrev with_conn : World D S → Option (Connection D) → Option (World D S)
  with_conn w none = none
  with_conn w (some c) = some (record w { conn = some c })

  unfoldable pub record_run_of : Option (Connection D) → World D S → Text → ℤ → Option (World D S)
  unfolding record_in select insert
  record_run_of none w name now = some (record w { memory = insert name now w.memory })
  record_run_of (some c) w name now =
      with_conn w (record_in fl table c name now (select fl c table (named fl table name)))

  unfoldable pub record_run : World D S → Text → ℤ → Option (World D S)
  unfolding record_run_of
  record_run w name now = record_run_of w.conn w name now

  -- The rest of the loop, `rest`, behind a task that was called.
  abbrev pub count_run : Pending (World D S) → Pending (World D S)
  count_run (Pending.ran n w) = Pending.ran (suc n) w
  count_run (Pending.stopped w) = Pending.stopped w

  abbrev pub after_call :
      Called (World D S) → (World D S → Pending (World D S)) → Pending (World D S)
  after_call (Called.returned w) rest = count_run (rest w)
  after_call (Called.threw w) rest = Pending.stopped w

  abbrev pub run_stamped :
      Task (World D S)
      → World D S
      → Option (World D S)
      → (World D S → Pending (World D S))
      → Pending (World D S)
  run_stamped t w none rest = Pending.stopped w
  run_stamped t w (some w') rest = after_call (t.fn w') rest

  unfoldable pub run_task :
      Task (World D S)
      → ℤ
      → World D S
      → Option ℤ
      → (World D S → Pending (World D S))
      → Pending (World D S)
  unfolding record_run
  run_task t now w none rest = Pending.stopped w
  run_task t now w (some last) rest =
      if t.due now last then run_stamped t w (record_run w t.name now) rest else rest w

  unfoldable pub run_tasks : List (Task (World D S)) → ℤ → World D S → Pending (World D S)
  unfolding run_task last_run
  run_tasks [] now w = Pending.ran 0 w
  run_tasks (t ∷ tasks) now w = run_task t now w (last_run w t.name) (run_tasks tasks now)

  -- `clock` stands in for a `now` of 0.
  unfoldable pub run_pending : ℤ → List (Task (World D S)) → World D S → ℤ → Pending (World D S)
  unfolding run_tasks
  run_pending clock tasks w now = run_tasks tasks (if eqb_ℤ now (pos 0) then clock else now) w
