-- ===== src/History/Transitions.antt =====
-- crashsafe/history.py: the branches of the reducer's loop, one function for each event.
use crashsafe.Prelude.{
  ℕ, suc, ◌+◌, String, Bool, not, ◌&&◌, ◌||◌, Option, none, some, List, [], ◌∷◌, map, ◌==◌, Result,
  ok, err, ◌>>=◌, ◌>>◌, raise_if, or_raise, str_eq, subset, any, set, where_rows, if◌then◌else◌,
}
use crashsafe.Models.Values.{Json, json_eq}
use crashsafe.Models.{
  WorkflowRunStatus, StepStatus, EventType, step_attempt_started, step_retry_scheduled,
  step_completed, step_failed, workflow_run_completed, workflow_run_failed, status_eq, step_name_eq,
  runnable_status, StepDefinition, WorkflowRunCreatedPayload, StepAttemptStartedPayload,
  EventPayload, StepRecord, WorkflowRun, WorkflowRunEvent,
}
use crashsafe.History.Definitions.{
  HistoryIntegrityError, misplaced_creation, creation_version, creation_metadata,
  completion_metadata, completion_incomplete, failure_metadata, failure_step_not_failed,
  missing_step_or_attempt, unknown_step, attempt_without_owner, attempt_not_runnable,
  attempt_number, attempt_dependencies, attempt_changed_definition, stale_attempt,
  unsupported_event_type, validate_definitions,
}
use crashsafe.History.Payloads.{
  attempt_event_schema_version, workflow_run_created_schema_version, is_none, opt_str_eq,
  require_created, require_started, require_retry, require_completed, require_failed,
  require_run_completed, require_run_failed,
}

-- the `for` loop of `_find_step_with_index`
unfoldable pub index_from : ℕ → List StepRecord → String → Option (ℕ × StepRecord)
index_from index [] step_id = none
index_from index (step ∷ steps) step_id =
    if str_eq step.id step_id then some (index, step) else index_from (suc index) steps step_id

unfoldable pub find_step_with_index :
    WorkflowRun → String → Result HistoryIntegrityError (ℕ × StepRecord)
find_step_with_index run step_id = or_raise (index_from 0 run.steps step_id) unknown_step

unfoldable pub find_step : WorkflowRun → String → Result HistoryIntegrityError StepRecord
find_step run step_id = do found ← find_step_with_index run step_id; ok found.1

abbrev pub require_current_attempt :
    StepRecord → ℕ → StepStatus → Result HistoryIntegrityError (Unit {0})
require_current_attempt step attempt expected_status =
    raise_if (not (status_eq step.status expected_status) || not (step.attempts == attempt))
      stale_attempt

unfoldable pub step_of_definition : String → ℕ → StepDefinition → StepRecord
step_of_definition run_id occurred_at definition = record {
  id = definition.id;
  run_id = run_id;
  position = definition.position;
  operation = definition.operation;
  depends_on = definition.depends_on;
  status = StepStatus.pending;
  request = definition.request;
  operation_key = definition.operation_key;
  tool_key = definition.tool_key;
  output = none;
  attempts = 0;
  next_attempt_at = none;
  last_error = none;
  created_at = occurred_at;
  updated_at = occurred_at;
  completed_at = none;
}

unfoldable pub created_run : String → WorkflowRunCreatedPayload → ℕ → WorkflowRun
created_run run_id created occurred_at = record {
  run_id = run_id;
  name = created.name;
  status = WorkflowRunStatus.running;
  steps = map (step_of_definition run_id occurred_at) created.steps;
  created_at = occurred_at;
  updated_at = occurred_at;
  completed_at = none;
}

unfoldable pub create_run :
    String
    → Option WorkflowRun
    → WorkflowRunEvent
    → EventPayload
    → Result HistoryIntegrityError WorkflowRun
create_run run_id run event payload = do
  raise_if (not (is_none run) || not (event.sequence == 1)) misplaced_creation
  raise_if (not (event.schema_version == workflow_run_created_schema_version)) creation_version
  raise_if (not (is_none event.step_id) || not (is_none event.attempt)) creation_metadata
  created ← require_created payload
  validate_definitions run_id created.steps
  ok (created_run run_id created event.occurred_at)

unfoldable pub complete_run :
    WorkflowRun → WorkflowRunEvent → EventPayload → Result HistoryIntegrityError WorkflowRun
complete_run run event payload = do
  require_run_completed payload
  raise_if (not (is_none event.step_id) || not (is_none event.attempt)) completion_metadata
  raise_if (any (λ step. not (status_eq step.status StepStatus.completed)) run.steps)
      completion_incomplete
  ok (record run {
    status = WorkflowRunStatus.completed;
    updated_at = event.occurred_at;
    completed_at = some event.occurred_at;
  })

unfoldable pub fail_run :
    WorkflowRun → WorkflowRunEvent → EventPayload → Result HistoryIntegrityError WorkflowRun
fail_run run event payload = do
  failed ← require_run_failed payload
  raise_if (not (opt_str_eq event.step_id failed.0) || not (is_none event.attempt)) failure_metadata
  step ← find_step run failed.0
  raise_if
      (not (status_eq step.status StepStatus.failed) || not (opt_str_eq step.last_error failed.1))
      failure_step_not_failed
  ok (record run { status = WorkflowRunStatus.failed; updated_at = event.occurred_at })

-- the set `completed` of the attempt branch
unfoldable pub completed_ids : List StepRecord → List String
completed_ids steps =
    map (λ step. step.id)
      (where_rows (λ candidate. status_eq candidate.status StepStatus.completed) steps)

abbrev pub missing_owner : ℕ → StepAttemptStartedPayload → Bool
missing_owner version started =
    version == attempt_event_schema_version
    && (is_none started.worker_id || is_none started.fence_token)

abbrev pub changed_definition : StepAttemptStartedPayload → StepRecord → Bool
changed_definition started step =
    not (step_name_eq started.operation step.operation)
    || (not (json_eq started.request step.request)
        || not (str_eq started.operation_key step.operation_key))

-- The four results of `model_copy` on a step.
abbrev pub attempted : StepRecord → ℕ → ℕ → StepRecord
attempted step attempt occurred_at = record step {
  status = StepStatus.intent_recorded;
  attempts = attempt;
  next_attempt_at = none;
  last_error = none;
  updated_at = occurred_at;
}

abbrev pub waiting : StepRecord → String → ℕ → ℕ → StepRecord
waiting step error next_attempt_at occurred_at = record step {
  status = StepStatus.retry_wait;
  last_error = some error;
  next_attempt_at = some next_attempt_at;
  updated_at = occurred_at;
}

abbrev pub finished : StepRecord → Json → ℕ → StepRecord
finished step output occurred_at = record step {
  status = StepStatus.completed;
  output = some output;
  next_attempt_at = none;
  last_error = none;
  updated_at = occurred_at;
  completed_at = some occurred_at;
}

abbrev pub broken : StepRecord → String → ℕ → StepRecord
broken step error occurred_at = record step {
  status = StepStatus.failed;
  last_error = some error;
  next_attempt_at = none;
  updated_at = occurred_at;
}

-- The branch of each step event: the step's new record.
unfoldable pub advance_step :
    EventType
    → WorkflowRun
    → StepRecord
    → ℕ
    → WorkflowRunEvent
    → EventPayload
    → Result HistoryIntegrityError StepRecord
advance_step step_attempt_started run step attempt event payload = do
  started ← require_started payload
  raise_if (missing_owner event.schema_version started) attempt_without_owner
  raise_if (not (runnable_status step.status)) attempt_not_runnable
  raise_if (not (attempt == step.attempts + 1)) attempt_number
  raise_if (not (subset step.depends_on (completed_ids run.steps))) attempt_dependencies
  raise_if (changed_definition started step) attempt_changed_definition
  ok (attempted step attempt event.occurred_at)
advance_step step_retry_scheduled run step attempt event payload = do
  retry ← require_retry payload
  require_current_attempt step attempt StepStatus.intent_recorded
  ok (waiting step retry.0 retry.1 event.occurred_at)
advance_step step_completed run step attempt event payload = do
  output ← require_completed payload
  require_current_attempt step attempt StepStatus.intent_recorded
  ok (finished step output event.occurred_at)
advance_step step_failed run step attempt event payload = do
  error ← require_failed payload
  require_current_attempt step attempt StepStatus.intent_recorded
  ok (broken step error event.occurred_at)
advance_step _ run step attempt event payload = err unsupported_event_type

unfoldable pub advance_run_step :
    EventType
    → WorkflowRun
    → WorkflowRunEvent
    → EventPayload
    → Result HistoryIntegrityError WorkflowRun
advance_run_step event_type run event payload = do
  step_id ← or_raise event.step_id missing_step_or_attempt
  attempt ← or_raise event.attempt missing_step_or_attempt
  found ← find_step_with_index run step_id
  step ← advance_step event_type run found.1 attempt event payload
  ok (record run { steps = set run.steps found.0 step })

unfoldable pub advance :
    EventType
    → WorkflowRun
    → WorkflowRunEvent
    → EventPayload
    → Result HistoryIntegrityError WorkflowRun
advance workflow_run_completed run event payload = complete_run run event payload
advance workflow_run_failed run event payload = fail_run run event payload
advance event_type run event payload = advance_run_step event_type run event payload
