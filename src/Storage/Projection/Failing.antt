-- ===== src/Storage/Projection/Failing.antt =====
-- `fail_step`, which ends the run, keeps the projection equal to the history.
use crashsafe.Prelude.{
  ◌+◌, String, ◌≡◌, refl, sym, ap, subst, none, some, List, [], ◌∷◌, ◌++◌, arith, ok, >>=-eq-ok,
  ok_injective, str_eq_self, Nodup, find?, update_rows,
}
use crashsafe.Models.{
  Datetime, StepStatus, WorkflowRunStatus, step_failed, workflow_run_failed, run_failed_payload,
  failed_payload, WorkflowRunEvent,
}
use crashsafe.History.Payloads.{Pydantic, event_schema_version}
use crashsafe.History.Transitions.{find_step_with_index, find_step, fail_run, advance}
use crashsafe.History.{next_run}
use crashsafe.Storage.Db.{
  Db, RunRow, StepRow, step_rows, get_step_row, update_step, step_from_row, dependencies,
  workflow_run_from_rows, append_event, max_sequence,
}
use crashsafe.Storage.Attempts.{Caller, set_failed, require_active_attempt, fail_step_body}
use crashsafe.Storage.Projection.Rows.{
  row_ids, has_id, row_ids-update_rows, where_rows-update_rows, index_from-update_rows,
}
use crashsafe.Storage.Projection.Events.{Tracks, append-Tracks}
use crashsafe.Storage.Projection.Steps.{Projected, update_step-Projected}
use crashsafe.Storage.Projection.Moves.{failed_move}
use crashsafe.Storage.Projection.Attempt.{get_step_row-found}
use crashsafe.Storage.Projection.Outcomes.{
  set_failed-KeepsKeys, find?-update_rows, update_run-Projected, require_active_attempt_lem,
  no_deadline,
}

abbrev pub set_run_failed : Datetime → RunRow → RunRow
set_run_failed now run = record run { status = WorkflowRunStatus.failed; updated_at = now }

-- The reducer takes WorkflowRunFailed after the step's row was failed.
fail_run-row :
    (run : RunRow) (deps : String → List String) (rows : List StepRow) (row : StepRow)
    (run_id step_id error : String) (event : WorkflowRunEvent)
    → run.status ≡ WorkflowRunStatus.running
    → Nodup (row_ids rows)
    → find? (has_id step_id) rows ≡ some row
    → row.status ≡ StepStatus.failed
    → row.last_error ≡ some error
    → event.step_id ≡ some step_id
    → event.attempt ≡ none
    → next_run workflow_run_failed run_id
        (some (workflow_run_from_rows run rows deps))
        event
        (run_failed_payload step_id error)
      ≡ ok (workflow_run_from_rows (set_run_failed event.occurred_at run) rows deps)
unfolding next_run advance fail_run find_step find_step_with_index workflow_run_from_rows
    step_from_row
fail_run-row run deps rows row run_id step_id error event running distinct found failed why s a =
    let (index, at, _) =
      index_from-update_rows deps step_id (λ (r : StepRow). r) row 0 rows distinct found in
    ground (arith, at, str_eq_self step_id, str_eq_self error)

module _ (py : Pydantic) (run_id step_id : String) (caller : Caller) (db : Db) (run : RunRow)
    (projected : Projected py run_id db run)
    (running : run.status ≡ WorkflowRunStatus.running) where
  -- The two events of `fail_step`, and the rows between them.
  failed_event : (row : StepRow) (error : String) → WorkflowRunEvent
  failed_event row error = record {
    id = db.next_event_id;
    run_id = run_id;
    sequence = max_sequence run_id db.workflow_run_events + 1;
    event_type = step_failed;
    schema_version = event_schema_version;
    step_id = some step_id;
    attempt = some row.attempts;
    payload = py.dump (failed_payload error);
    occurred_at = caller.now;
  }

  run_failed_event : (row : StepRow) (error : String) → WorkflowRunEvent
  unfolding failed_event
  run_failed_event row error = record {
    id = db.next_event_id + 1;
    run_id = run_id;
    sequence = max_sequence run_id (db.workflow_run_events ++ failed_event row error ∷ []) + 1;
    event_type = workflow_run_failed;
    schema_version = event_schema_version;
    step_id = some step_id;
    attempt = none;
    payload = py.dump (run_failed_payload step_id error);
    occurred_at = caller.now;
  }

  pub fail_step_body-Projected :
      (error : String) (after : Db)
      → fail_step_body py run_id step_id error caller db ≡ ok (tt, after)
      → Projected py run_id after (set_run_failed caller.now run)
  unfolding fail_step_body append_event update_step failed_event run_failed_event step_rows
      dependencies
  fail_step_body-Projected error after h =
      let (row, at, h₁) = >>=-eq-ok (get_step_row db run_id step_id) _ h in
      let (_, active, h₂) =
        >>=-eq-ok
          (require_active_attempt db row caller.owner_id caller.fence_token caller.checked_at) _
          h₁ in
      let status = require_active_attempt_lem db row _ _ _ active in
      let (found, named) = get_step_row-found db run_id step_id row at in
      let clear = no_deadline py run_id step_id caller db run projected running row at status in
      let f = set_failed error caller.now in
      let keys = set_failed-KeepsKeys error caller.now in
      let rows = step_rows db run_id in
      let deps = dependencies db run_id in
      let events = db.workflow_run_events ++ failed_event row error ∷ [] in
      let first : Tracks py run_id events
          (workflow_run_from_rows run (update_rows (has_id step_id) f rows) deps) =
        append-Tracks py run_id db.workflow_run_events _ projected.tracked (failed_event row error)
          (failed_payload error) _ refl refl refl refl refl
          (failed_move run deps rows row run_id step_id _ running projected.distinct found refl
            error refl status clear) in
      let middle =
        update_step-Projected py run_id step_id f keys db run projected events
          (db.next_event_id + 1) first in
      let second =
        append-Tracks py run_id events _ first (run_failed_event row error)
          (run_failed_payload step_id error) _ refl refl refl refl refl
          (fail_run-row run deps (update_rows (has_id step_id) f rows) (f row) run_id step_id error
            _ running (rw (row_ids-update_rows run_id step_id f keys rows) projected.distinct)
            (find?-update_rows step_id f row rows keys found) refl refl refl refl) in
      let same = ap (λ (q : Unit {0} × Db). q.1) (ok_injective h₂) in
      let tracked =
        subst
          (λ rs.
            Tracks py run_id (events ++ run_failed_event row error ∷ [])
              (workflow_run_from_rows (set_run_failed caller.now run) rs deps))
          (sym (where_rows-update_rows run_id step_id f keys db.steps)) second in
      subst (λ d. Projected py run_id d (set_run_failed caller.now run)) same
        (update_run-Projected py run_id (set_run_failed caller.now) (λ r. refl) _ run middle _
          (db.next_event_id + 1 + 1) tracked)
