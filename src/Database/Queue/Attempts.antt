-- ===== src/Database/Queue/Attempts.antt =====
-- One attempt of a job whose handler throws.
use public_cpp_laravel.Prelude.{
  ◌≡◌, ◌≢◌, refl, ap, ◌∙◌, true, false, List, [], ◌∷◌, ◌++◌, some, arith, Text, codes, Dict, lookup,
  insert, text_key, lookup-insert, text_eq_refl,
}
use public_cpp_laravel.Prelude.Int.{ℤ, pos, ◌+ℤ◌, ◌≤ℤ◌, leb_ℤ, eqb_ℤ, eqb_ℤ_iff}
use public_cpp_laravel.Database.Value.{
  Float, Texts, int, str, Row, get_int, get_text, as_text, value_eq, cell_is, as_int,
}
use public_cpp_laravel.Database.Memory.{
  Connection, id_column, update_if_rows, update_if, update_rows, update, remove_rows, remove,
  guard_holds, in_table, insert_row, all, rows_or_empty,
}
use public_cpp_laravel.Database.Queue.Workers.{eqb_ℤ-ne}
use public_cpp_laravel.Database.Queue.{
  World, DbQueue, Handler, failed, processed, finished, jobs, failed_jobs, reserved_at, time_of,
  is_due, claim, next_run, requeued, go_on, work_row, work_rows, work, retry, settle, attempt,
}

-- A job's row as `push` and the queue write it.
abbrev pub job_row : {D : Type 0} → Text → Text → ℤ → ℤ → ℤ → ℤ → Row D
job_row job payload attempts available reserved id =
    (codes "job", str job)
    ∷ (codes "payload", str payload)
    ∷ (codes "attempts", int attempts)
    ∷ (codes "available_at", int available)
    ∷ (reserved_at, int reserved)
    ∷ (id_column, int id)
    ∷ []

abbrev pub failed_row : {D : Type 0} → Text → Text → Text → ℤ → Row D
failed_row job payload what id =
    (codes "job", str job)
    ∷ (codes "payload", str payload)
    ∷ (codes "error", str what)
    ∷ (id_column, int id)
    ∷ []

-- A table of a connection with these rows.
abbrev pub with_rows : {D : Type 0} → Connection D → Text → List (Row D) → Connection D
with_rows c table rows = record c { tables = insert table rows c.tables }

pub lookup-insert_self :
    {V : Type 0} (k : Text) (v : V) (m : Dict Text V) → lookup k (insert k v m) ≡ some v
lookup-insert_self k v m = ground (arith, lookup-insert k k v m, text_eq_refl k)

module _ {D : Type 0} (fl : Float D) (c : Connection D) (id : ℤ) where
  id_same : eqb_ℤ id id ≡ true
  id_same = (eqb_ℤ_iff id id).1 refl

  module _ (job payload : Text) (a t r : ℤ)
      (one : lookup jobs c.tables ≡ some (job_row job payload a t r id ∷ [])) where
    -- A claim by a worker that saw the job with other counts, but the same stamp.
    claim_lem :
        (now a' t' : ℤ)
        → claim fl now id (job_row job payload a' t' r id) c
          ≡ (true, with_rows c jobs (job_row job payload a' t' now id ∷ []))
    unfolding claim update_if in_table update_if_rows guard_holds time_of get_int cell_is as_int
        lookup insert value_eq
    claim_lem now a' t' = rw (one, id_same, (eqb_ℤ_iff r r).1 refl) refl

    update_lem :
        (a' t' r' : ℤ)
        → update fl c jobs id (job_row job payload a' t' r' id)
          ≡ (true, with_rows c jobs (job_row job payload a' t' r' id ∷ []))
    unfolding update in_table update_rows cell_is as_int lookup insert
    update_lem a' t' r' = rw (one, id_same) refl

    remove_lem : remove fl c jobs id ≡ (true, with_rows c jobs [])
    unfolding remove in_table remove_rows cell_is as_int lookup insert
    remove_lem = rw (one, id_same) refl

due_lem :
    {D S : Type 0} (fl : Float D) (texts : Texts D) (q : DbQueue D S) (job payload : Text)
    (a t id now : ℤ)
    → t ≤ℤ now
    → is_due fl texts q now (job_row job payload a t (pos 0) id) ≡ true
unfolding is_due time_of get_int lookup as_int
due_lem fl texts q job payload a t id now h = ground arith

-- A job whose handler always fails, leaving the connection alone.
module _ {D S : Type 0} (fl : Float D) (texts : Texts D) (q : DbQueue D S) (job payload what : Text)
    (tick : S → S) (h : Handler D S) (known : lookup job q.handlers ≡ some h)
    (fails : (w : World D S) → h payload w ≡ failed what (record w { outer = tick w.outer })) where
  module _ (w : World D S) (a t id now : ℤ) (due : t ≤ℤ now) where
    abbrev pub seen : Row D
    seen = job_row job payload a t (pos 0) id

    -- The world after the claim and the handler.
    abbrev pub tried : World D S
    tried = record {
      conn = with_rows w.conn jobs (job_row job payload a t now id ∷ []);
      outer = tick w.outer;
    }

    -- Where `jobs` holds one row, as `push` and the queue write it, of a due job whose handler always
    -- throws the same text and leaves the connection alone: a worker that saw the row before another
    -- worker's failed attempt of it, and comes after it, claims the job all the same. Whatever number of
    -- attempts and whatever next time the row holds by then, the handler is called at once, and the
    -- attempts are counted on from the number that was seen.
    pub work_row-seen :
        (a' t' : ℤ)
        → lookup jobs w.conn.tables ≡ some (job_row job payload a' t' (pos 0) id ∷ [])
        → work_row fl texts q now seen w ≡ retry fl texts q now id seen what (a +ℤ pos 1) tried
    unfolding work_row attempt get_int get_text as_text lookup settle
    work_row-seen a' t' there =
        rw
          (
            due_lem fl texts q job payload a t id now due,
            claim_lem fl w.conn id job payload a' t' (pos 0) there now a t,
            known,
            fails,
          )
          refl

    module _
        (one : lookup jobs w.conn.tables ≡ some (job_row job payload a t (pos 0) id ∷ [])) where
      work_row-tried :
          work_row fl texts q now seen w ≡ retry fl texts q now id seen what (a +ℤ pos 1) tried
      work_row-tried = work_row-seen a t one

      -- The world after a failure that is not the last.
      abbrev pub again : ℤ → World D S
      again t' = record tried {
        conn = with_rows tried.conn jobs (job_row job payload (a +ℤ pos 1) t' (pos 0) id ∷ []);
      }

      one_tried : lookup jobs tried.conn.tables ≡ some (job_row job payload a t now id ∷ [])
      one_tried = lookup-insert_self jobs (job_row job payload a t now id ∷ []) w.conn.tables

      pub work_row-again :
          leb_ℤ q.max_attempts (a +ℤ pos 1) ≡ false
          → work_row fl texts q now seen w ≡ processed (again (next_run q now (a +ℤ pos 1)))
      unfolding retry requeued insert
      work_row-again more =
          work_row-tried
          ∙ rw
              (
                more,
                update_lem fl tried.conn id job payload a t now one_tried (a +ℤ pos 1)
                    (next_run q now (a +ℤ pos 1)) (pos 0),
              )
              refl

      abbrev pub failure : Row D
      failure =
          (codes "job", str job) ∷ (codes "payload", str payload) ∷ (codes "error", str what) ∷ []

      abbrev pub noted : Connection D
      noted = (insert_row fl tried.conn failed_jobs failure).1

      -- The world after the last failure.
      abbrev pub given_up : World D S
      given_up = record tried { conn = with_rows noted jobs [] }

      one_noted : lookup jobs noted.tables ≡ some (job_row job payload a t now id ∷ [])
      unfolding insert_row
      one_noted = lookup-insert failed_jobs jobs _ tried.conn.tables ∙ one_tried

      pub work_row-given_up :
          leb_ℤ q.max_attempts (a +ℤ pos 1) ≡ true
          → work_row fl texts q now seen w ≡ processed given_up
      unfolding retry get_text as_text lookup insert
      work_row-given_up last =
          work_row-tried ∙ rw (last, remove_lem fl noted id job payload a t now one_noted) refl

      pub again_one :
          (t' : ℤ)
          → lookup jobs (again t').conn.tables
            ≡ some (job_row job payload (a +ℤ pos 1) t' (pos 0) id ∷ [])
      again_one t' = lookup-insert_self jobs _ tried.conn.tables

      pub again_failed : (t' : ℤ) → all fl (again t').conn failed_jobs ≡ all fl w.conn failed_jobs
      unfolding all
      again_failed t' = ap rows_or_empty (
          lookup-insert jobs failed_jobs _ tried.conn.tables
          ∙ lookup-insert jobs failed_jobs _ w.conn.tables)

      pub given_up_jobs : all fl given_up.conn jobs ≡ []
      unfolding all
      given_up_jobs = ap rows_or_empty (lookup-insert_self jobs [] noted.tables)

      pub given_up_failed :
          all fl given_up.conn failed_jobs
          ≡ all fl w.conn failed_jobs
            ++ (failed_row job payload what (insert_row fl tried.conn failed_jobs failure).0 ∷ [])
      unfolding all insert_row insert
      given_up_failed =
          ap rows_or_empty (
            lookup-insert jobs failed_jobs [] noted.tables
            ∙ lookup-insert failed_jobs failed_jobs _ tried.conn.tables)
          ∙ ap
              (λ o.
                rows_or_empty o
                ++ (failed_row job payload what (insert_row fl tried.conn failed_jobs failure).0
                    ∷ []))
              (lookup-insert jobs failed_jobs _ w.conn.tables)

      pub work_lem :
          (clock : ℤ) (w' : World D S)
          → now ≢ pos 0
          → work_row fl texts q now seen w ≡ processed w'
          → work fl texts q clock now w ≡ finished 1 w'
      unfolding work work_rows go_on
      work_lem clock w' n e = rw (one, eqb_ℤ-ne now (pos 0) n, e) refl
