-- ===== src/History.antt =====
-- crashsafe/history.py: the strict reducer, a fold over the events of one run.
pub mod Definitions
pub mod Payloads
pub mod Transitions
pub mod StateMachine
pub mod Steps
pub mod Replay
pub mod Consistent
pub mod Lifecycle
pub mod Order
pub mod Frozen
pub mod Shape
pub mod Queue
pub mod Graph
pub mod Rounds
pub mod Visits
pub mod Ordered
pub mod Agreement
pub mod Counts
use crashsafe.Prelude.{
  ℕ, zero, suc, ◌+◌, String, Bool, true, false, not, ◌&&◌, ◌||◌, ◌≡◌, Option, none, some, List, [],
  ◌∷◌, map, ◌==◌, Result, ok, err, ◌>>=◌, ◌>>◌, raise_if, or_raise, str_eq, subset, any, all, set,
  where_rows, if◌then◌else◌,
}
use crashsafe.Models.{
  WorkflowRunStatus, StepStatus, EventType, workflow_run_created, step_attempt_started,
  step_retry_scheduled, step_completed, step_failed, workflow_run_completed, workflow_run_failed,
  run_status_eq, status_eq, step_name_eq, runnable_status, StepDefinition, StepRequest,
  WorkflowRunCreatedPayload, StepAttemptStartedPayload, EventPayload, created_payload,
  attempt_payload, retry_payload, completed_payload, failed_payload, run_completed_payload,
  run_failed_payload, StepRecord, WorkflowRun, WorkflowRunEvent,
}
use crashsafe.History.Definitions.{
  HistoryIntegrityError, empty_history, multiple_run_ids, unexpected_sequence,
  unsupported_schema_version, invalid_payload, misplaced_creation, creation_version,
  creation_metadata, wrong_payload, missing_creation, after_terminal, completion_metadata,
  completion_incomplete, failure_metadata, failure_step_not_failed, missing_step_or_attempt,
  unknown_step, attempt_without_owner, attempt_not_runnable, attempt_number, attempt_dependencies,
  attempt_changed_definition, stale_attempt, unsupported_event_type, assertion_failed,
  unreported_failure, unreported_completion, validate_definitions,
}
use crashsafe.History.Payloads.{
  type_of, Pydantic, event_schema_version, attempt_event_schema_version,
  workflow_run_created_schema_version, supported, is_none, opt_str_eq, parse_payload,
  require_created, require_started, require_retry, require_completed, require_failed,
  require_run_completed, require_run_failed,
}
use crashsafe.History.Transitions.{create_run, advance}

abbrev pub require_running : Option WorkflowRun → Result HistoryIntegrityError WorkflowRun
require_running run = do
  current ← or_raise run missing_creation
  raise_if (not (run_status_eq current.status WorkflowRunStatus.running)) after_terminal
  ok current

unfoldable pub next_run :
    EventType
    → String
    → Option WorkflowRun
    → WorkflowRunEvent
    → EventPayload
    → Result HistoryIntegrityError WorkflowRun
next_run workflow_run_created run_id run event payload = create_run run_id run event payload
next_run event_type run_id run event payload = do
  current ← require_running run
  advance event_type current event payload

-- The loop's variables.
pub record Cursor : Type 0 where
  pub run : Option WorkflowRun
  pub expected_sequence : ℕ

abbrev pub start : Cursor
start = record { run = none; expected_sequence = 1 }

-- The checks at the head of the loop's body.
abbrev pub check_event : String → ℕ → WorkflowRunEvent → Result HistoryIntegrityError (Unit {0})
check_event run_id expected_sequence event = do
  raise_if (not (str_eq event.run_id run_id)) multiple_run_ids
  raise_if (not (event.sequence == expected_sequence)) unexpected_sequence
  raise_if (not (supported event.schema_version)) unsupported_schema_version

module _ (py : Pydantic) where
  -- The body of the loop.
  unfoldable pub fold_event :
      String → Cursor → WorkflowRunEvent → Result HistoryIntegrityError Cursor
  unfolding parse_payload
  fold_event run_id cursor event = do
    check_event run_id cursor.expected_sequence event
    payload ← or_raise (parse_payload py event.event_type event.payload) invalid_payload
    run ← next_run event.event_type run_id cursor.run event payload
    ok (record { run = some run; expected_sequence = cursor.expected_sequence + 1 })

  unfoldable pub fold_events :
      String → Cursor → List WorkflowRunEvent → Result HistoryIntegrityError Cursor
  fold_events run_id cursor [] = ok cursor
  fold_events run_id cursor (event ∷ events) =
      fold_event run_id cursor event >>= λ next. fold_events run_id next events

-- What follows the loop.
unfoldable pub check_final : WorkflowRun → Result HistoryIntegrityError WorkflowRun
check_final run = do
  raise_if
      (run_status_eq run.status WorkflowRunStatus.running
        && any (λ step. status_eq step.status StepStatus.failed) run.steps)
      unreported_failure
  raise_if
      (run_status_eq run.status WorkflowRunStatus.running
        && all (λ step. status_eq step.status StepStatus.completed) run.steps)
      unreported_completion
  ok run

unfoldable pub reduce_workflow_run_history :
    Pydantic → List WorkflowRunEvent → Result HistoryIntegrityError WorkflowRun
reduce_workflow_run_history py [] = err empty_history
reduce_workflow_run_history py (first ∷ rest) = do
  cursor ← fold_events py first.run_id start (first ∷ rest)
  run ← or_raise cursor.run assertion_failed
  check_final run
