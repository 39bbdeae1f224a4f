-- ===== src/Storage/Attempts.antt =====
-- crashsafe/storage.py: the transitions of a step. `now` is the method's reading of the clock and
-- `checked_at` the later one of `_require_lease`.
use crashsafe.Prelude.{
  ℕ, ◌+◌, String, Bool, not, ◌&&◌, Option, none, some, List, [], ◌∷◌, ◌==◌, ltb, leb, Result, ok,
  err, ◌>>=◌, ◌>>◌, raise_if, str_eq, any, where_rows, length, if◌then◌else◌,
}
use crashsafe.Models.Values.{Json}
use crashsafe.Models.{
  Datetime, WorkflowRunStatus, StepStatus, step_attempt_started, step_retry_scheduled,
  step_completed, step_failed, workflow_run_completed, workflow_run_failed, status_eq,
  runnable_status, attempt_payload, retry_payload, completed_payload, failed_payload,
  run_completed_payload, run_failed_payload, StepRecord, WorkflowRunLease, ToolThrottle,
}
use crashsafe.History.Payloads.{
  Pydantic, event_schema_version, attempt_event_schema_version, is_none,
}
use crashsafe.Storage.Db.{
  StorageError, lease_lost, lease_arguments, step_not_runnable, incomplete_dependencies,
  no_active_attempt, StepRow, Db, transaction, of_run, get_step_row, update_step, update_run,
  dependencies, has_incomplete_dependency, step_from_row, append_event,
}

-- the row of `_require_lease`
abbrev pub holds_lease : String → String → ℕ → Datetime → WorkflowRunLease → Bool
holds_lease run_id owner_id fence_token checked_at lease =
    (str_eq lease.run_id run_id && str_eq lease.owner_id owner_id)
    && (lease.fence_token == fence_token && ltb checked_at lease.lease_expires_at)

unfoldable pub require_lease :
    Db → StepRow → Option String → Option ℕ → Datetime → Result StorageError (Unit {0})
require_lease db step none none checked_at = ok tt
require_lease db step (some owner_id) (some fence_token) checked_at =
    raise_if
      (not (any (holds_lease step.run_id owner_id fence_token checked_at) db.workflow_run_leases))
      lease_lost
require_lease db step _ _ checked_at = err lease_arguments

unfoldable pub require_active_attempt :
    Db → StepRow → Option String → Option ℕ → Datetime → Result StorageError (Unit {0})
require_active_attempt db row owner_id fence_token checked_at = do
  require_lease db row owner_id fence_token checked_at
  raise_if (not (status_eq row.status StepStatus.intent_recorded)) no_active_attempt

-- The arguments that the transitions share.
pub record Caller : Type 0 where
  pub owner_id : Option String
  pub fence_token : Option ℕ
  pub now : Datetime
  pub checked_at : Datetime

-- The SET clauses.
abbrev pub set_intent : ℕ → Datetime → StepRow → StepRow
set_intent attempt now row = record row {
  status = StepStatus.intent_recorded;
  attempts = attempt;
  next_attempt_at = none;
  last_error = none;
  updated_at = now;
}

abbrev pub set_retry : String → Datetime → Datetime → StepRow → StepRow
set_retry error next_attempt_at now row = record row {
  status = StepStatus.retry_wait;
  last_error = some error;
  next_attempt_at = some next_attempt_at;
  updated_at = now;
}

abbrev pub set_failed : String → Datetime → StepRow → StepRow
set_failed error now row = record row {
  status = StepStatus.failed;
  last_error = some error;
  updated_at = now;
}

abbrev pub set_completed : Json → Datetime → StepRow → StepRow
set_completed output now row = record row {
  status = StepStatus.completed;
  output = some output;
  next_attempt_at = none;
  last_error = none;
  completed_at = some now;
  updated_at = now;
}

-- INSERT INTO tool_throttles ... ON CONFLICT(tool_key) DO UPDATE
unfoldable pub upsert_throttle : ToolThrottle → List ToolThrottle → List ToolThrottle
upsert_throttle excluded [] = excluded ∷ []
upsert_throttle excluded (row ∷ rows) =
    if str_eq row.tool_key excluded.tool_key
    then (record row {
      blocked_until =
          if ltb row.blocked_until excluded.blocked_until
          then excluded.blocked_until
          else row.blocked_until;
      reason = if leb row.blocked_until excluded.blocked_until then excluded.reason else row.reason;
      updated_at = excluded.updated_at;
    }
        ∷ rows)
    else row ∷ upsert_throttle excluded rows

-- SELECT COUNT(*) FROM steps WHERE run_id=? AND status != ?
unfoldable pub remaining_steps : String → Db → ℕ
remaining_steps run_id db = length (
    where_rows
      (λ (row : StepRow). of_run run_id row && not (status_eq row.status StepStatus.completed))
      db.steps)

-- The end of `complete_step`.
unfoldable pub complete_run_if_done : Pydantic → String → Datetime → Db → Db
complete_run_if_done py run_id now db =
    if remaining_steps run_id db == 0
    then (update_run run_id
        (λ run. record run {
          status = WorkflowRunStatus.completed;
          completed_at = some now;
          updated_at = now;
        })
        (append_event py run_id workflow_run_completed run_completed_payload now none none
          event_schema_version db))
    else db

module _ (py : Pydantic) (run_id step_id : String) where
  unfoldable pub record_attempt_body : Caller → Db → Result StorageError (StepRecord × Db)
  record_attempt_body caller db = do
    row ← get_step_row db run_id step_id
    require_lease db row caller.owner_id caller.fence_token caller.checked_at
    raise_if (not (runnable_status row.status)) step_not_runnable
    raise_if (has_incomplete_dependency db run_id step_id) incomplete_dependencies
    let attempt = row.attempts + 1
    let payload = attempt_payload (record {
      operation = row.operation;
      request = row.request;
      operation_key = row.operation_key;
      worker_id = caller.owner_id;
      fence_token = caller.fence_token;
    })
    let version =
        if is_none caller.owner_id then event_schema_version else attempt_event_schema_version
    let logged =
        append_event py run_id step_attempt_started payload caller.now (some step_id) (some attempt)
          version db
    let changed = update_step run_id step_id (set_intent attempt caller.now) logged
    updated ← get_step_row changed run_id step_id
    ok (step_from_row (dependencies changed run_id) updated, changed)

  unfoldable pub schedule_retry_body :
      String → Datetime → Bool → Caller → Db → Result StorageError (Unit {0} × Db)
  schedule_retry_body error next_attempt_at throttle_tool caller db = do
    row ← get_step_row db run_id step_id
    require_active_attempt db row caller.owner_id caller.fence_token caller.checked_at
    let logged =
        append_event py run_id step_retry_scheduled (retry_payload error next_attempt_at) caller.now
          (some step_id) (some row.attempts) event_schema_version db
    let changed = update_step run_id step_id (set_retry error next_attempt_at caller.now) logged
    let throttle : ToolThrottle = record {
      tool_key = row.tool_key;
      blocked_until = next_attempt_at;
      reason = error;
      updated_at = caller.now;
    }
    ok (
      tt,
      (if throttle_tool
          then record changed { tool_throttles = upsert_throttle throttle changed.tool_throttles }
          else changed),
    )

  unfoldable pub fail_step_body : String → Caller → Db → Result StorageError (Unit {0} × Db)
  fail_step_body error caller db = do
    row ← get_step_row db run_id step_id
    require_active_attempt db row caller.owner_id caller.fence_token caller.checked_at
    let logged =
        append_event py run_id step_failed (failed_payload error) caller.now (some step_id)
          (some row.attempts) event_schema_version db
    let logged' =
        append_event py run_id workflow_run_failed (run_failed_payload step_id error) caller.now
          (some step_id) none event_schema_version logged
    let changed = update_step run_id step_id (set_failed error caller.now) logged'
    ok (
      tt,
      update_run run_id
          (λ run. record run { status = WorkflowRunStatus.failed; updated_at = caller.now })
          changed,
    )

  unfoldable pub complete_step_body : Json → Caller → Db → Result StorageError (Unit {0} × Db)
  complete_step_body output caller db = do
    row ← get_step_row db run_id step_id
    require_lease db row caller.owner_id caller.fence_token caller.checked_at
    let logged =
        append_event py run_id step_completed (completed_payload output) caller.now (some step_id)
          (some row.attempts) event_schema_version db
    let changed = update_step run_id step_id (set_completed output caller.now) logged
    ok (
      tt,
      (if status_eq row.status StepStatus.intent_recorded
          then complete_run_if_done py run_id caller.now changed
          else db),
    )

  unfoldable pub record_attempt : Caller → Db → Result StorageError StepRecord × Db
  record_attempt caller = transaction (record_attempt_body caller)

  unfoldable pub schedule_retry :
      String → Datetime → Bool → Caller → Db → Result StorageError (Unit {0}) × Db
  schedule_retry error next_attempt_at throttle_tool caller =
      transaction (schedule_retry_body error next_attempt_at throttle_tool caller)

  unfoldable pub fail_step : String → Caller → Db → Result StorageError (Unit {0}) × Db
  fail_step error caller = transaction (fail_step_body error caller)

  unfoldable pub complete_step : Json → Caller → Db → Result StorageError (Unit {0}) × Db
  complete_step output caller = transaction (complete_step_body output caller)
