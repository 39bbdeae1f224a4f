-- ===== src/Storage/Create.antt =====
-- crashsafe/storage.py: `create_workflow_run`, with the constraints of the tables that it inserts into.
-- `run_id` is the new uuid4, `now` the reading of the clock.
use crashsafe.Prelude.{
  ℕ, suc, String, Bool, not, ◌&&◌, ◌||◌, Option, none, some, List, [], ◌∷◌, ◌++◌, ◌==◌, Result, ok,
  ◌>>=◌, ◌>>◌, raise_if, str_eq, any, if◌then◌else◌,
}
use crashsafe.Models.{
  Datetime, StepStatus, WorkflowRunStatus, workflow_run_created, operation_of, WorkflowStep,
  WorkflowDefinition, StepDefinition, WorkflowRunCreatedPayload, created_payload, WorkflowRun,
}
use crashsafe.History.Definitions.{operation_key_of}
use crashsafe.History.Payloads.{Pydantic, workflow_run_created_schema_version}
use crashsafe.Storage.Db.{
  StorageError, integrity_error, RunRow, StepRow, DependencyRow, Db, transaction, is_step,
  append_event,
}
use crashsafe.Storage.Reads.{get_workflow_run}

-- `tool_key or self.default_tool_key`: an empty string counts as none
abbrev pub selected_tool : Option String → String → String
selected_tool none default_tool_key = default_tool_key
selected_tool (some tool_key) default_tool_key =
    if str_eq tool_key "" then default_tool_key else tool_key

-- The list comprehension of the definitions, from a position on.
unfoldable pub definitions_from :
    Pydantic → String → String → ℕ → List WorkflowStep → List StepDefinition
definitions_from py run_id tool_key position [] = []
definitions_from py run_id tool_key position (step ∷ steps) =
    record {
      id = step.id;
      position = position;
      operation = operation_of step.request;
      depends_on = step.depends_on;
      request = py.dump_request step.request;
      operation_key = operation_key_of run_id step.id;
      tool_key = tool_key;
    }
    ∷ definitions_from py run_id tool_key (suc position) steps

-- INSERT INTO workflow_runs; the key is `run_id`
unfoldable pub insert_run : RunRow → Db → Result StorageError Db
insert_run row db = do
  raise_if (any (λ (r : RunRow). str_eq r.run_id row.run_id) db.workflow_runs) integrity_error
  ok (record db { workflow_runs = db.workflow_runs ++ row ∷ [] })

-- PRIMARY KEY(run_id, id), UNIQUE(run_id, position), operation_key UNIQUE
abbrev pub conflicts : StepRow → StepRow → Bool
conflicts row other =
    (str_eq other.run_id row.run_id && (str_eq other.id row.id || other.position == row.position))
    || str_eq other.operation_key row.operation_key

unfoldable pub insert_step : StepRow → Db → Result StorageError Db
insert_step row db = do
  raise_if (any (conflicts row) db.steps) integrity_error
  raise_if (not (any (λ (r : RunRow). str_eq r.run_id row.run_id) db.workflow_runs)) integrity_error
  ok (record db { steps = db.steps ++ row ∷ [] })

abbrev pub new_step : String → Datetime → StepDefinition → StepRow
new_step run_id now definition = record {
  run_id = run_id;
  id = definition.id;
  position = definition.position;
  operation = definition.operation;
  status = StepStatus.pending;
  request = definition.request;
  operation_key = definition.operation_key;
  tool_key = definition.tool_key;
  output = none;
  attempts = 0;
  next_attempt_at = none;
  last_error = none;
  created_at = now;
  updated_at = now;
  completed_at = none;
}

unfoldable pub insert_steps : String → Datetime → List StepDefinition → Db → Result StorageError Db
insert_steps run_id now [] db = ok db
insert_steps run_id now (definition ∷ rest) db = do
  inserted ← insert_step (new_step run_id now definition) db
  insert_steps run_id now rest inserted

-- INSERT INTO step_dependencies: its key is the whole row, and both steps exist
unfoldable pub insert_dependency : DependencyRow → Db → Result StorageError Db
insert_dependency row db = do
  raise_if
      (any
        (λ (d : DependencyRow).
          str_eq d.run_id row.run_id
          && (str_eq d.step_id row.step_id && str_eq d.dependency_step_id row.dependency_step_id))
        db.step_dependencies)
      integrity_error
  raise_if
      (not (
        any (is_step row.run_id row.step_id) db.steps
        && any (is_step row.run_id row.dependency_step_id) db.steps))
      integrity_error
  ok (record db { step_dependencies = db.step_dependencies ++ row ∷ [] })

unfoldable pub insert_dependencies_of : String → String → List String → Db → Result StorageError Db
insert_dependencies_of run_id step_id [] db = ok db
insert_dependencies_of run_id step_id (dependency ∷ rest) db = do
  inserted ←
      insert_dependency
        (record { run_id = run_id; step_id = step_id; dependency_step_id = dependency }) db
  insert_dependencies_of run_id step_id rest inserted

unfoldable pub insert_dependencies : String → List StepDefinition → Db → Result StorageError Db
insert_dependencies run_id [] db = ok db
insert_dependencies run_id (definition ∷ rest) db = do
  inserted ← insert_dependencies_of run_id definition.id definition.depends_on db
  insert_dependencies run_id rest inserted

unfoldable pub create_body :
    Pydantic
    → String
    → Datetime
    → WorkflowRunCreatedPayload
    → Db
    → Result StorageError (Unit {0} × Db)
create_body py run_id now created db = do
  with_run ←
      insert_run
        (record {
          run_id = run_id;
          name = created.name;
          status = WorkflowRunStatus.running;
          definition = created;
          created_at = now;
          updated_at = now;
          completed_at = none;
        })
        db
  with_steps ← insert_steps run_id now created.steps with_run
  with_dependencies ← insert_dependencies run_id created.steps with_steps
  ok (
    tt,
    append_event py run_id workflow_run_created (created_payload created) now none none
        workflow_run_created_schema_version with_dependencies,
  )

unfoldable pub create_workflow_run :
    Pydantic
    → String
    → Datetime
    → String
    → WorkflowDefinition
    → Option String
    → Db
    → Result StorageError WorkflowRun × Db
create_workflow_run py run_id now default_tool_key definition tool_key db =
    let created : WorkflowRunCreatedPayload = record {
      name = definition.name;
      steps =
          definitions_from py run_id (selected_tool tool_key default_tool_key) 0 definition.steps;
    } in
    let committed = transaction (create_body py run_id now created) db in
    (committed.0 >> get_workflow_run committed.1 run_id, committed.1)
