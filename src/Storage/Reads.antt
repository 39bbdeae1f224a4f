-- ===== src/Storage/Reads.antt =====
-- crashsafe/storage.py: the methods that read runs and events.
use crashsafe.Prelude.{
  ℕ, zero, suc, String, List, [], ◌∷◌, leb, Result, ok, err, ◌>>=◌, or_raise, str_eq, where_rows,
  if◌then◌else◌,
}
use crashsafe.Models.{WorkflowRun, WorkflowRunEvent}
use crashsafe.Storage.Db.{
  StorageError, run_not_found, RunRow, StepRow, Db, step_rows, find_run, dependencies,
  workflow_run_from_rows,
}

-- ORDER BY position
unfoldable pub insert_by_position : StepRow → List StepRow → List StepRow
insert_by_position row [] = row ∷ []
insert_by_position row (first ∷ rest) =
    if leb row.position first.position
    then row ∷ first ∷ rest
    else first ∷ insert_by_position row rest

unfoldable pub order_by_position : List StepRow → List StepRow
order_by_position [] = []
order_by_position (row ∷ rows) = insert_by_position row (order_by_position rows)

unfoldable pub get_workflow_run : Db → String → Result StorageError WorkflowRun
get_workflow_run db run_id = do
  run ← or_raise (find_run db run_id) run_not_found
  ok (workflow_run_from_rows run (order_by_position (step_rows db run_id)) (dependencies db run_id))

-- WHERE run_id = ? of the events
unfoldable pub events_of : String → List WorkflowRunEvent → List WorkflowRunEvent
events_of run_id events = where_rows (λ (e : WorkflowRunEvent). str_eq e.run_id run_id) events

-- ORDER BY sequence
unfoldable pub insert_by_sequence : WorkflowRunEvent → List WorkflowRunEvent → List WorkflowRunEvent
insert_by_sequence event [] = event ∷ []
insert_by_sequence event (first ∷ rest) =
    if leb event.sequence first.sequence
    then event ∷ first ∷ rest
    else first ∷ insert_by_sequence event rest

unfoldable pub order_by_sequence : List WorkflowRunEvent → List WorkflowRunEvent
order_by_sequence [] = []
order_by_sequence (event ∷ events) = insert_by_sequence event (order_by_sequence events)

abbrev pub nonempty : List WorkflowRunEvent → Result StorageError (List WorkflowRunEvent)
nonempty [] = err run_not_found
nonempty (e ∷ es) = ok (e ∷ es)

unfoldable pub list_events : Db → String → Result StorageError (List WorkflowRunEvent)
list_events db run_id = nonempty (order_by_sequence (events_of run_id db.workflow_run_events))

-- ORDER BY created_at DESC
unfoldable pub insert_by_created : RunRow → List RunRow → List RunRow
insert_by_created row [] = row ∷ []
insert_by_created row (first ∷ rest) =
    if leb first.created_at row.created_at
    then row ∷ first ∷ rest
    else first ∷ insert_by_created row rest

unfoldable pub order_by_created : List RunRow → List RunRow
order_by_created [] = []
order_by_created (row ∷ rows) = insert_by_created row (order_by_created rows)

-- LIMIT ?
abbrev pub take : ℕ → List RunRow → List RunRow
take zero rows = []
take (suc limit) [] = []
take (suc limit) (row ∷ rows) = row ∷ take limit rows

-- the list comprehension over the selected ids
unfoldable pub read_all : Db → List RunRow → Result StorageError (List WorkflowRun)
read_all db [] = ok []
read_all db (row ∷ rows) = do
  run ← get_workflow_run db row.run_id
  rest ← read_all db rows
  ok (run ∷ rest)

unfoldable pub list_workflow_runs : Db → ℕ → Result StorageError (List WorkflowRun)
list_workflow_runs db limit = read_all db (take limit (order_by_created db.workflow_runs))
