-- ===== src/Storage/Rebuild.antt =====
-- crashsafe/storage.py: `projection_matches_history`, `rebuild_projection` and `list_workflow_runs`.
-- The events are read before the transaction of `rebuild_projection` begins: `between` is what other
-- processes commit from that reading to the transaction. From the transaction to the last read,
-- which returns the run, nothing is committed.
use crashsafe.Prelude.{
  String, not, some, Option, List, [], ◌∷◌, Result, ok, err, ◌>>=◌, ◌>>◌, str_eq, where_rows,
}
use crashsafe.Models.{
  workflow_run_created, WorkflowRunCreatedPayload, EventPayload, created_payload, StepRecord,
  WorkflowRun, WorkflowRunEvent, WorkflowRunLease,
}
use crashsafe.History.Definitions.{HistoryIntegrityError}
use crashsafe.History.Payloads.{Pydantic}
use crashsafe.History.{reduce_workflow_run_history}
use crashsafe.Storage.Db.{
  StorageError, run_not_found, validation_error, history_error, RunRow, StepRow, DependencyRow, Db,
  of_run, transaction,
}
use crashsafe.Storage.Reads.{get_workflow_run, list_events}
use crashsafe.Storage.Create.{insert_run, insert_step, insert_dependencies_of}

abbrev pub raised_history {ℓ} :
    {A : Type ℓ} → Result HistoryIntegrityError A → Result StorageError A
raised_history (ok a) = ok a
raised_history (err e) = err (history_error e)

abbrev created_of_payload : Option EventPayload → Result StorageError WorkflowRunCreatedPayload
created_of_payload (some (created_payload created)) = ok created
created_of_payload _ = err validation_error

-- `WorkflowRunCreatedPayload.model_validate(events[0].payload)`
unfoldable pub creation_of :
    Pydantic → List WorkflowRunEvent → Result StorageError WorkflowRunCreatedPayload
creation_of py [] = err run_not_found
creation_of py (first ∷ rest) = created_of_payload (py.validate workflow_run_created first.payload)

-- The four DELETEs.
unfoldable pub delete_run : String → Db → Db
delete_run run_id db = record db {
  workflow_run_leases =
      where_rows (λ (l : WorkflowRunLease). not (str_eq l.run_id run_id)) db.workflow_run_leases;
  step_dependencies =
      where_rows (λ (d : DependencyRow). not (str_eq d.run_id run_id)) db.step_dependencies;
  steps = where_rows (λ (row : StepRow). not (of_run run_id row)) db.steps;
  workflow_runs = where_rows (λ (r : RunRow). not (str_eq r.run_id run_id)) db.workflow_runs;
}

abbrev pub rebuilt_run : WorkflowRun → WorkflowRunCreatedPayload → RunRow
rebuilt_run rebuilt created = record {
  run_id = rebuilt.run_id;
  name = rebuilt.name;
  status = rebuilt.status;
  definition = created;
  created_at = rebuilt.created_at;
  updated_at = rebuilt.updated_at;
  completed_at = rebuilt.completed_at;
}

-- the row of `_insert_rebuilt_step`
abbrev pub rebuilt_step : StepRecord → StepRow
rebuilt_step step = record {
  run_id = step.run_id;
  id = step.id;
  position = step.position;
  operation = step.operation;
  status = step.status;
  request = step.request;
  operation_key = step.operation_key;
  tool_key = step.tool_key;
  output = step.output;
  attempts = step.attempts;
  next_attempt_at = step.next_attempt_at;
  last_error = step.last_error;
  created_at = step.created_at;
  updated_at = step.updated_at;
  completed_at = step.completed_at;
}

unfoldable pub insert_rebuilt_steps : List StepRecord → Db → Result StorageError Db
insert_rebuilt_steps [] db = ok db
insert_rebuilt_steps (step ∷ steps) db = do
  inserted ← insert_step (rebuilt_step step) db
  insert_rebuilt_steps steps inserted

unfoldable pub insert_rebuilt_dependencies : String → List StepRecord → Db → Result StorageError Db
insert_rebuilt_dependencies run_id [] db = ok db
insert_rebuilt_dependencies run_id (step ∷ steps) db = do
  inserted ← insert_dependencies_of run_id step.id step.depends_on db
  insert_rebuilt_dependencies run_id steps inserted

unfoldable pub rebuild_body :
    String → WorkflowRun → WorkflowRunCreatedPayload → Db → Result StorageError (Unit {0} × Db)
rebuild_body run_id rebuilt created db = do
  with_run ← insert_run (rebuilt_run rebuilt created) (delete_run run_id db)
  with_steps ← insert_rebuilt_steps rebuilt.steps with_run
  with_dependencies ← insert_rebuilt_dependencies run_id rebuilt.steps with_steps
  ok (tt, with_dependencies)

abbrev pub replayed :
    Pydantic → String → Db → Result StorageError (WorkflowRun × WorkflowRunCreatedPayload)
replayed py run_id db = do
  events ← list_events db run_id
  rebuilt ← raised_history (reduce_workflow_run_history py events)
  created ← creation_of py events
  ok (rebuilt, created)

unfoldable pub rebuild_projection :
    Pydantic → String → (Db → Db) → Db → Result StorageError WorkflowRun × Db
rebuild_projection py run_id between db = elim (replayed py run_id db) [
  | err e ↦ (err e, db)
  | ok (rebuilt, created) ↦
      let committed = transaction (rebuild_body run_id rebuilt created) (between db) in
      (committed.0 >> get_workflow_run committed.1 run_id, committed.1)
]
