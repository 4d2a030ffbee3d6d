-- ===== src/Database/Queue.antt =====
-- include/db_queue.hpp: `DbQueue` over the in-memory connection. A handler acts on the connection and
-- on what lies outside, the state `S`, and may throw. The wall clock is an argument.
pub mod Workers
pub mod Attempts
pub mod Retries
use public_cpp_laravel.Prelude.{
  ℕ, ◌+◌, Bool, true, false, not, ◌&&◌, List, [], ◌∷◌, Option, none, some, length, if◌then◌else◌,
  Text, codes, Dict, lookup, insert, text_key,
}
use public_cpp_laravel.Prelude.Int.{ℤ, pos, ◌+ℤ◌, ◌-ℤ◌, ◌*ℤ◌, ltb_ℤ, leb_ℤ, eqb_ℤ}
use public_cpp_laravel.Database.Value.{Float, Texts, int, str, Row, as_int, get_int, get_text}
use public_cpp_laravel.Database.Memory.{
  Connection, or_zero, insert_row, all, update, update_if, remove,
}

abbrev pub jobs : Text
jobs = codes "jobs"

abbrev pub failed_jobs : Text
failed_jobs = codes "failed_jobs"

abbrev pub reserved_at : Text
reserved_at = codes "reserved_at"

-- What the connection and the outside are.
pub record World (D S : Type 0) : Type 0 where
  pub conn : Connection D
  pub outer : S

-- How a handler ends: it returns, it throws a `std::exception` with this text, or something else.
pub data Ran (D S : Type 0) : Type 0 where
  done : World D S → Ran D S
  failed : Text → World D S → Ran D S
  escaped : World D S → Ran D S

abbrev pub Handler : Type 0 → Type 0 → Type 0
Handler D S = Text → World D S → Ran D S

pub record DbQueue (D S : Type 0) : Type 0 where
  pub max_attempts : ℤ
  pub retry_backoff : ℤ
  pub retry_after : ℤ
  pub handlers : Dict Text (Handler D S)

-- How the round of a row ends; `thrown` leaves `work`.
pub data Round (D S : Type 0) : Type 0 where
  skipped : World D S → Round D S
  processed : World D S → Round D S
  thrown : World D S → Round D S

pub data Worked (D S : Type 0) : Type 0 where
  finished : ℕ → World D S → Worked D S
  stopped : World D S → Worked D S

module _ {D : Type 0} where
  unfoldable pub new_job : Text → Text → ℤ → ℤ → Row D
  new_job job payload delay clock =
      (codes "job", str job)
      ∷ (codes "payload", str payload)
      ∷ (codes "attempts", int (pos 0))
      ∷ (codes "available_at", int (if ltb_ℤ (pos 0) delay then clock +ℤ delay else pos 0))
      ∷ (reserved_at, int (pos 0))
      ∷ []

module _ {D : Type 0} (fl : Float D) where
  unfoldable pub push : Connection D → Text → Text → ℤ → ℤ → Connection D
  unfolding new_job insert_row
  push c job payload delay clock = (insert_row fl c jobs (new_job job payload delay clock)).1

  unfoldable pub pending : Connection D → ℕ
  unfolding all
  pending c = length (all fl c jobs)

  unfoldable pub failed_count : Connection D → ℕ
  unfolding all
  failed_count c = length (all fl c failed_jobs)

  -- A time of a row, 0 where it has none.
  unfoldable pub time_of : Text → Row D → ℤ
  unfolding get_int
  time_of key r = or_zero (get_int fl key r)

  -- The compare-and-set from the stamp that the row was seen with.
  unfoldable pub claim : ℤ → ℤ → Row D → Connection D → Bool × Connection D
  claim now id row c =
      update_if fl c jobs id reserved_at (int (time_of reserved_at row))
        (insert reserved_at (int now) row)

module _ {D S : Type 0} where
  unfoldable pub handler : DbQueue D S → Text → Handler D S → DbQueue D S
  handler q job h = record q { handlers = insert job h q.handlers }

  unfoldable pub next_run : DbQueue D S → ℤ → ℤ → ℤ
  next_run q now attempts =
      if ltb_ℤ (pos 0) q.retry_backoff then now +ℤ q.retry_backoff *ℤ attempts else pos 0

  unfoldable pub requeued : DbQueue D S → ℤ → ℤ → Row D → Row D
  unfolding next_run
  requeued q now attempts row =
      insert (codes "available_at") (int (next_run q now attempts))
        (insert reserved_at (int (pos 0)) (insert (codes "attempts") (int attempts) row))

  abbrev pub with_conn : World D S → Connection D → World D S
  with_conn w c = record w { conn = c }

  -- The rest of the loop behind a round; `next` is what it does from a count and a world.
  unfoldable pub go_on : Round D S → ℕ → (ℕ → World D S → Worked D S) → Worked D S
  go_on (skipped w) n next = next n w
  go_on (processed w) n next = next (n + 1) w
  go_on (thrown w) n next = stopped w

module _ {D S : Type 0} (fl : Float D) (texts : Texts D) where
  -- The two tests that skip a row, negated.
  unfoldable pub is_due : DbQueue D S → ℤ → Row D → Bool
  unfolding time_of
  is_due q now row =
      not (ltb_ℤ now (time_of fl (codes "available_at") row))
      && not (
          not (eqb_ℤ (time_of fl reserved_at row) (pos 0))
          && ltb_ℤ (now -ℤ time_of fl reserved_at row) q.retry_after)

  unfoldable pub drop_job : ℤ → World D S → World D S
  drop_job id w = with_conn w (remove fl w.conn jobs id).1

  -- At the last attempt.
  unfoldable pub give_up : ℤ → Option Text → Option Text → Text → World D S → Round D S
  unfolding drop_job insert_row
  give_up id none payload what w = thrown w
  give_up id (some job) none what w = thrown w
  give_up id (some job) (some payload) what w = processed (
      drop_job id (
        with_conn w
          (insert_row fl w.conn failed_jobs (
            (codes "job", str job)
            ∷ (codes "payload", str payload)
            ∷ (codes "error", str what)
            ∷ [])).1))

  unfoldable pub retry : DbQueue D S → ℤ → ℤ → Row D → Text → ℤ → World D S → Round D S
  unfolding give_up requeued
  retry q now id row what attempts w =
      if leb_ℤ q.max_attempts attempts
      then give_up id (get_text texts (codes "job") row) (get_text texts (codes "payload") row) what
          w
      else processed (with_conn w (update fl w.conn jobs id (requeued q now attempts row)).1)

  unfoldable pub on_failure : DbQueue D S → ℤ → ℤ → Row D → Text → Option ℤ → World D S → Round D S
  unfolding retry
  on_failure q now id row what none w = thrown w
  on_failure q now id row what (some attempts) w = retry q now id row what (attempts +ℤ pos 1) w

  -- The end of the `try`.
  unfoldable pub settle : DbQueue D S → ℤ → ℤ → Row D → Ran D S → Round D S
  unfolding on_failure drop_job
  settle q now id row (done w) = processed (drop_job id w)
  settle q now id row (failed what w) =
      on_failure q now id row what (get_int fl (codes "attempts") row) w
  settle q now id row (escaped w) = thrown w

  unfoldable pub call : Handler D S → Option Text → World D S → Ran D S
  call h none w = failed texts.no_such_key w
  call h (some payload) w = h payload w

  unfoldable pub run_handler :
      DbQueue D S → ℤ → ℤ → Row D → Option (Handler D S) → World D S → Round D S
  unfolding settle call
  run_handler q now id row none w = processed (drop_job id w)
  run_handler q now id row (some h) w =
      settle q now id row (call h (get_text texts (codes "payload") row) w)

  -- Behind the claim.
  unfoldable pub run_job : DbQueue D S → ℤ → ℤ → Row D → Option Text → World D S → Round D S
  unfolding run_handler
  run_job q now id row none w = thrown w
  run_job q now id row (some job) w = run_handler q now id row (lookup job q.handlers) w

  unfoldable pub after_claim : DbQueue D S → ℤ → ℤ → Row D → Bool → World D S → Round D S
  unfolding run_job
  after_claim q now id row false w = skipped w
  after_claim q now id row true w = run_job q now id row (get_text texts (codes "job") row) w

  unfoldable pub attempt : DbQueue D S → ℤ → Row D → Option ℤ → World D S → Round D S
  unfolding after_claim claim is_due
  attempt q now row none w = thrown w
  attempt q now row (some id) w =
      let (claimed, c') = claim fl now id row w.conn in
      let claimed_by : Round D S = after_claim q now id row claimed (with_conn w c') in
      if is_due q now row then claimed_by else skipped w

  unfoldable pub work_row : DbQueue D S → ℤ → Row D → World D S → Round D S
  unfolding attempt
  work_row q now row w = attempt q now row (get_int fl (codes "id") row) w

  unfoldable pub work_rows : DbQueue D S → ℤ → List (Row D) → ℕ → World D S → Worked D S
  unfolding go_on work_row
  work_rows q now [] n w = finished n w
  work_rows q now (row ∷ rows) n w = go_on (work_row q now row w) n (work_rows q now rows)

  -- `clock` is the wall clock, which stands in for a `now` of 0.
  unfoldable pub work : DbQueue D S → ℤ → ℤ → World D S → Worked D S
  unfolding work_rows all
  work q clock now w =
      work_rows q (if eqb_ℤ now (pos 0) then clock else now) (all fl w.conn jobs) 0 w
