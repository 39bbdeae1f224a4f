-- ===== src/Storage/Projection/Moves.antt =====
-- The moves of the reducer that the transitions of storage.py append.
use crashsafe.Prelude.{
  ℕ, ◌+◌, String, Bool, true, false, ◌≡◌, refl, ap, ◌∙◌, none, some, List, map, arith, ok, str_eq,
  str_eq_self, subset, Nodup, find?, update_rows,
}
use crashsafe.Models.Values.{Json, json_eq, json_eq_self}
use crashsafe.Models.{
  StepStatus, WorkflowRunStatus, EventType, EventPayload, step_attempt_started,
  step_retry_scheduled, step_completed, step_failed, WorkflowRun, step_name_eq, StepName,
  WorkflowRunEvent, attempt_payload, retry_payload, completed_payload, failed_payload,
  runnable_status, StepAttemptStartedPayload,
}
use crashsafe.History.Transitions.{
  advance_step, advance_run_step, advance, completed_ids, missing_owner,
}
use crashsafe.History.{next_run}
use crashsafe.Storage.Db.{RunRow, StepRow, step_from_row, workflow_run_from_rows}
use crashsafe.Storage.Attempts.{set_intent, set_retry, set_failed, set_completed}
use crashsafe.Storage.Projection.Rows.{row_ids, has_id}
use crashsafe.Storage.Projection.Steps.{advance_run_step-update_rows}

abbrev pub is_step_event : EventType → Bool
is_step_event step_attempt_started = true
is_step_event step_retry_scheduled = true
is_step_event step_completed = true
is_step_event step_failed = true
is_step_event _ = false

next_run-step :
    (event_type : EventType) (run_id : String) (run next : WorkflowRun) (event : WorkflowRunEvent)
    (payload : EventPayload)
    → is_step_event event_type ≡ true
    → run.status ≡ WorkflowRunStatus.running
    → advance_run_step event_type run event payload ≡ ok next
    → next_run event_type run_id (some run) event payload ≡ ok next
unfolding next_run advance
next_run-step step_attempt_started run_id run next event payload k r h = ground (arith, r, h)
next_run-step step_retry_scheduled run_id run next event payload k r h = ground (arith, r, h)
next_run-step step_completed run_id run next event payload k r h = ground (arith, r, h)
next_run-step step_failed run_id run next event payload k r h = ground (arith, r, h)
next_run-step _ run_id run next event payload k r h = absurd (cc)

step_name_eq_self : (a : StepName) → step_name_eq a a ≡ true
step_name_eq_self StepName.charge = refl
step_name_eq_self StepName.provision = refl
step_name_eq_self StepName.notify = refl

module _ (run : RunRow) (deps : String → List String) (rows : List StepRow) (row : StepRow)
    (run_id step_id : String) (event : WorkflowRunEvent)
    (running : run.status ≡ WorkflowRunStatus.running) (distinct : Nodup (row_ids rows))
    (found : find? (has_id step_id) rows ≡ some row)
    (names_step : event.step_id ≡ some step_id) where
  abbrev view : WorkflowRun
  view = workflow_run_from_rows run rows deps

  abbrev view_with : (StepRow → StepRow) → WorkflowRun
  view_with f = workflow_run_from_rows run (update_rows (has_id step_id) f rows) deps

  move :
      (event_type : EventType) (f : StepRow → StepRow) (attempt : ℕ) (payload : EventPayload)
      → is_step_event event_type ≡ true
      → event.attempt ≡ some attempt
      → advance_step event_type view (step_from_row deps row) attempt event payload
        ≡ ok (step_from_row deps (f row))
      → next_run event_type run_id (some view) event payload ≡ ok (view_with f)
  unfolding workflow_run_from_rows
  move event_type f attempt payload k a m =
      next_run-step event_type run_id view (view_with f) event payload k running (
        advance_run_step-update_rows event_type run deps rows row f step_id attempt event payload
          distinct found names_step a m)

  pub intent_move :
      (payload : StepAttemptStartedPayload)
      → event.attempt ≡ some (row.attempts + 1)
      → missing_owner event.schema_version payload ≡ false
      → runnable_status row.status ≡ true
      → subset (deps row.id) (completed_ids (map (step_from_row deps) rows)) ≡ true
      → payload.operation ≡ row.operation
      → payload.request ≡ row.request
      → payload.operation_key ≡ row.operation_key
      → next_run step_attempt_started run_id (some view) event (attempt_payload payload)
        ≡ ok (view_with (set_intent (row.attempts + 1) event.occurred_at))
  unfolding advance_step step_from_row workflow_run_from_rows
  intent_move payload a owner runnable done operation request key =
      move step_attempt_started (set_intent (row.attempts + 1) event.occurred_at) (row.attempts + 1)
        (attempt_payload payload) refl a
        (ground (
          arith,
          owner,
          runnable,
          done,
          ap (λ o. step_name_eq o row.operation) operation ∙ step_name_eq_self row.operation,
          ap (λ r. json_eq r row.request) request ∙ json_eq_self row.request,
          ap (λ k. str_eq k row.operation_key) key ∙ str_eq_self row.operation_key,
        ))

  pub retry_move :
      (error : String) (next : ℕ)
      → event.attempt ≡ some row.attempts
      → row.status ≡ StepStatus.intent_recorded
      → next_run step_retry_scheduled run_id (some view) event (retry_payload error next)
        ≡ ok (view_with (set_retry error next event.occurred_at))
  unfolding advance_step step_from_row workflow_run_from_rows
  retry_move error next a s =
      move step_retry_scheduled (set_retry error next event.occurred_at) row.attempts
        (retry_payload error next) refl a (ground arith)

  pub complete_move :
      (output : Json)
      → event.attempt ≡ some row.attempts
      → row.status ≡ StepStatus.intent_recorded
      → next_run step_completed run_id (some view) event (completed_payload output)
        ≡ ok (view_with (set_completed output event.occurred_at))
  unfolding advance_step step_from_row workflow_run_from_rows
  complete_move output a s =
      move step_completed (set_completed output event.occurred_at) row.attempts
        (completed_payload output) refl a (ground arith)

  -- The reducer clears the deadline of a failed step; the row of an attempt in flight has none.
  pub failed_move :
      (error : String)
      → event.attempt ≡ some row.attempts
      → row.status ≡ StepStatus.intent_recorded
      → row.next_attempt_at ≡ none
      → next_run step_failed run_id (some view) event (failed_payload error)
        ≡ ok (view_with (set_failed error event.occurred_at))
  unfolding advance_step step_from_row workflow_run_from_rows
  failed_move error a s n =
      move step_failed (set_failed error event.occurred_at) row.attempts (failed_payload error) refl
        a (ground arith)
