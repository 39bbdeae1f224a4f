-- ===== src/Storage/Db.antt =====
-- crashsafe/storage.py: the tables, their rows and constraints, the transaction, and the row
-- helpers. A `..._json` column holds the decoded value, a time column the time that `to_db` writes.
use crashsafe.Prelude.{
  ℕ, ◌+◌, String, Bool, not, ◌&&◌, Option, List, [], ◌∷◌, ◌++◌, map, ltb, Result, ok, err, or_raise,
  str_eq, any, where_rows, find?, update_rows, if◌then◌else◌,
}
use crashsafe.Models.Values.{Json}
use crashsafe.Models.{
  Datetime, WorkflowRunStatus, StepStatus, StepName, EventType, status_eq,
  WorkflowRunCreatedPayload, EventPayload, StepRecord, WorkflowRun, WorkflowRunEvent,
  WorkflowRunLease, ToolThrottle,
}
use crashsafe.History.Payloads.{Pydantic}
use crashsafe.History.Definitions.{HistoryIntegrityError}

-- What the methods raise; `integrity_error` is sqlite3.IntegrityError.
pub data StorageError : Type 0 where
  run_not_found : StorageError
  lease_lost : StorageError
  lease_arguments : StorageError
  unknown_step : StorageError
  step_not_runnable : StorageError
  incomplete_dependencies : StorageError
  no_active_attempt : StorageError
  integrity_error : StorageError
  -- pydantic.ValidationError
  validation_error : StorageError
  history_error : HistoryIntegrityError → StorageError

pub record RunRow : Type 0 where
  pub run_id : String
  pub name : String
  pub status : WorkflowRunStatus
  pub definition : WorkflowRunCreatedPayload
  pub created_at : Datetime
  pub updated_at : Datetime
  pub completed_at : Option Datetime

pub record StepRow : Type 0 where
  pub run_id : String
  pub id : String
  pub position : ℕ
  pub operation : StepName
  pub status : StepStatus
  pub request : Json
  pub operation_key : String
  pub tool_key : String
  pub output : Option Json
  pub attempts : ℕ
  pub next_attempt_at : Option Datetime
  pub last_error : Option String
  pub created_at : Datetime
  pub updated_at : Datetime
  pub completed_at : Option Datetime

pub record DependencyRow : Type 0 where
  pub run_id : String
  pub step_id : String
  pub dependency_step_id : String

-- The tables. The rows of events, leases and throttles have the columns of their models.
pub record Db : Type 0 where
  pub workflow_runs : List RunRow
  pub steps : List StepRow
  pub step_dependencies : List DependencyRow
  pub workflow_run_events : List WorkflowRunEvent
  pub workflow_run_leases : List WorkflowRunLease
  pub tool_throttles : List ToolThrottle
  -- the AUTOINCREMENT counter of the events
  pub next_event_id : ℕ

abbrev pub new_db : Db
new_db = record {
  workflow_runs = [];
  steps = [];
  step_dependencies = [];
  workflow_run_events = [];
  workflow_run_leases = [];
  tool_throttles = [];
  next_event_id = 1;
}

-- `_transaction`: the commit publishes what the body wrote, an exception rolls all of it back.
unfoldable pub transaction {ℓ} :
    {A : Type ℓ} → (Db → Result StorageError (A × Db)) → Db → Result StorageError A × Db
transaction body db = elim (body db) [ ok (a, db') ↦ (ok a, db') | err e ↦ (err e, db) ]

-- WHERE run_id = ?
abbrev pub of_run : String → StepRow → Bool
of_run run_id row = str_eq row.run_id run_id

-- WHERE run_id = ? AND id = ?
abbrev pub is_step : String → String → StepRow → Bool
is_step run_id step_id row = str_eq row.run_id run_id && str_eq row.id step_id

unfoldable pub step_rows : Db → String → List StepRow
step_rows db run_id = where_rows (of_run run_id) db.steps

unfoldable pub find_run : Db → String → Option RunRow
find_run db run_id = find? (λ (row : RunRow). str_eq row.run_id run_id) db.workflow_runs

unfoldable pub get_step_row : Db → String → String → Result StorageError StepRow
get_step_row db run_id step_id = or_raise (find? (is_step run_id step_id) db.steps) unknown_step

-- UPDATE steps SET ... WHERE run_id=? AND id=?
unfoldable pub update_step : String → String → (StepRow → StepRow) → Db → Db
update_step run_id step_id f db = record db {
  steps = update_rows (is_step run_id step_id) f db.steps;
}

-- UPDATE workflow_runs SET ... WHERE run_id=?
unfoldable pub update_run : String → (RunRow → RunRow) → Db → Db
update_run run_id f db = record db {
  workflow_runs = update_rows (λ (row : RunRow). str_eq row.run_id run_id) f db.workflow_runs;
}

-- `dependencies.get(step_id, [])` of the dictionary that `_dependencies` builds, in rowid order
unfoldable pub dependencies : Db → String → String → List String
dependencies db run_id step_id =
    map (λ (d : DependencyRow). d.dependency_step_id)
      (where_rows (λ (d : DependencyRow). str_eq d.run_id run_id && str_eq d.step_id step_id)
        db.step_dependencies)

-- The dependency rows of a step that join a step which is not completed.
unfoldable pub has_incomplete_dependency : Db → String → String → Bool
has_incomplete_dependency db run_id step_id =
    any
      (λ (d : DependencyRow).
        (str_eq d.run_id run_id && str_eq d.step_id step_id)
        && any
            (λ (dependency : StepRow).
              is_step d.run_id d.dependency_step_id dependency
              && not (status_eq dependency.status StepStatus.completed))
            db.steps)
      db.step_dependencies

-- `_step_from_row`
unfoldable pub step_from_row : (String → List String) → StepRow → StepRecord
step_from_row dependencies row = record {
  id = row.id;
  run_id = row.run_id;
  position = row.position;
  operation = row.operation;
  depends_on = dependencies row.id;
  status = row.status;
  request = row.request;
  operation_key = row.operation_key;
  tool_key = row.tool_key;
  output = row.output;
  attempts = row.attempts;
  next_attempt_at = row.next_attempt_at;
  last_error = row.last_error;
  created_at = row.created_at;
  updated_at = row.updated_at;
  completed_at = row.completed_at;
}

-- `_workflow_run_from_rows`
unfoldable pub workflow_run_from_rows : RunRow → List StepRow → (String → List String) → WorkflowRun
workflow_run_from_rows run steps dependencies = record {
  run_id = run.run_id;
  name = run.name;
  status = run.status;
  steps = map (step_from_row dependencies) steps;
  created_at = run.created_at;
  updated_at = run.updated_at;
  completed_at = run.completed_at;
}

-- SELECT COALESCE(MAX(sequence), 0) ... WHERE run_id=?
unfoldable pub max_sequence : String → List WorkflowRunEvent → ℕ
max_sequence run_id [] = 0
max_sequence run_id (e ∷ es) =
    let rest = max_sequence run_id es in
    if str_eq e.run_id run_id && ltb rest e.sequence then e.sequence else rest

-- `_append_event`, with its optional arguments
unfoldable pub append_event :
    Pydantic → String → EventType → EventPayload → Datetime → Option String → Option ℕ → ℕ → Db → Db
append_event py run_id event_type payload occurred_at step_id attempt schema_version db =
    record db {
      workflow_run_events =
          db.workflow_run_events
          ++ record {
            id = db.next_event_id;
            run_id = run_id;
            sequence = max_sequence run_id db.workflow_run_events + 1;
            event_type = event_type;
            schema_version = schema_version;
            step_id = step_id;
            attempt = attempt;
            payload = py.dump payload;
            occurred_at = occurred_at;
          }
            ∷ [];
      next_event_id = db.next_event_id + 1;
    }
