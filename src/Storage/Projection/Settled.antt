-- ===== src/Storage/Projection/Settled.antt =====
-- A running run has a step to do and none that failed; an unfinished step keeps it so.
use crashsafe.Prelude.{
  String, Bool, false, not, ◌&&◌, ◌≡◌, refl, some, List, [], ◌∷◌, arith, ok, any, all, find?,
  where_rows, update_rows, length, ◌==◌,
}
use crashsafe.Models.{StepStatus, WorkflowRunStatus, status_eq}
use crashsafe.History.Payloads.{Pydantic}
use crashsafe.Storage.Db.{is_step, Db, RunRow, StepRow, of_run, step_rows, get_step_row}
use crashsafe.Storage.Projection.Rows.{has_id, KeepsKeys, where_rows-update_rows}
use crashsafe.Storage.Projection.Steps.{Projected}
use crashsafe.Storage.Projection.Attempt.{get_step_row-found}

-- A running run has no failed step and a step to do.
pub record IsSettled (run : RunRow) (rows : List StepRow) : Type 0 where
  pub none_failed :
      run.status ≡ WorkflowRunStatus.running
      → any (λ (row : StepRow). status_eq row.status StepStatus.failed) rows ≡ false
  pub some_left :
      run.status ≡ WorkflowRunStatus.running
      → all (λ (row : StepRow). status_eq row.status StepStatus.completed) rows ≡ false

-- The whole agreement of the tables for one run.
pub record Matches (py : Pydantic) (run_id : String) (db : Db) (run : RunRow) : Type 0 where
  pub projected : Projected py run_id db run
  pub settled : IsSettled run (step_rows db run_id)

abbrev pub any_failed : List StepRow → Bool
any_failed = any (λ (row : StepRow). status_eq row.status StepStatus.failed)

abbrev pub all_completed : List StepRow → Bool
all_completed = all (λ (row : StepRow). status_eq row.status StepStatus.completed)

pub any_failed-update_rows :
    (test : StepRow → Bool) (f : StepRow → StepRow) (rows : List StepRow)
    → ((row : StepRow) → status_eq (f row).status StepStatus.failed ≡ false)
    → any_failed rows ≡ false
    → any_failed (update_rows test f rows) ≡ false
unfolding update_rows
any_failed-update_rows test f [] safe h = refl
any_failed-update_rows test f (row ∷ rows) safe h =
    ground (arith, safe row, any_failed-update_rows test f rows safe)

all_completed-update_rows :
    (step_id : String) (f : StepRow → StepRow) (row : StepRow) (rows : List StepRow)
    → find? (has_id step_id) rows ≡ some row
    → status_eq (f row).status StepStatus.completed ≡ false
    → all_completed (update_rows (has_id step_id) f rows) ≡ false
unfolding update_rows find?
all_completed-update_rows step_id f row [] h c = absurd (ground arith)
all_completed-update_rows step_id f row (r ∷ rows) h c =
    ground (arith, all_completed-update_rows step_id f row rows)

pub count-all_completed :
    (run_id : String) (rows : List StepRow)
    → (length (
          where_rows
            (λ (row : StepRow).
              of_run run_id row && not (status_eq row.status StepStatus.completed))
            rows)
        == 0)
      ≡ false
    → all_completed (where_rows (of_run run_id) rows) ≡ false
unfolding where_rows
count-all_completed run_id [] h = absurd (ground arith)
count-all_completed run_id (row ∷ rows) h = ground (arith, count-all_completed run_id rows)

module _ (run_id step_id : String) (db : Db) (run : RunRow)
    (settled : IsSettled run (step_rows db run_id)) where
  pub unfinished-IsSettled :
      (row : StepRow) (f : StepRow → StepRow) (keys : KeepsKeys f)
      → get_step_row db run_id step_id ≡ ok row
      → ((r : StepRow) → status_eq (f r).status StepStatus.failed ≡ false)
      → status_eq (f row).status StepStatus.completed ≡ false
      → IsSettled run (where_rows (of_run run_id) (update_rows (is_step run_id step_id) f db.steps))
  unfolding step_rows
  unfinished-IsSettled row f keys at safe open' =
      let (found, _) = get_step_row-found db run_id step_id row at in
      rw (where_rows-update_rows run_id step_id f keys db.steps) (record {
        none_failed = λ r.
            any_failed-update_rows (has_id step_id) f (step_rows db run_id) safe
              (settled.none_failed r);
        some_left = λ r. all_completed-update_rows step_id f row (step_rows db run_id) found open';
      })
