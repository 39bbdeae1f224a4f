-- ===== src/Storage/Projection/Steps.antt =====
-- Each transition of storage.py moves the projection as the reducer moves the run.
use crashsafe.Prelude.{
  ℕ, ◌+◌, String, Bool, true, ◌≡◌, some, List, [], ◌∷◌, arith, ok, contains, Nodup, find?,
  update_rows,
}
use crashsafe.Models.{EventType, EventPayload, WorkflowRunEvent}
use crashsafe.History.Payloads.{Pydantic}
use crashsafe.History.Transitions.{find_step_with_index, advance_step, advance_run_step}
use crashsafe.Storage.Db.{
  Db, RunRow, StepRow, step_rows, find_run, update_step, step_from_row, dependencies,
  workflow_run_from_rows,
}
use crashsafe.Storage.Projection.Rows.{
  row_ids, has_id, KeepsKeys, where_rows-update_rows, row_ids-update_rows, index_from-update_rows,
}
use crashsafe.Storage.Projection.Events.{Tracks}

abbrev pub PositionsFrom : ℕ → List StepRow → Type 0
PositionsFrom n [] = Unit
PositionsFrom n (row ∷ rows) = (row.position ≡ n) × PositionsFrom (n + 1) rows

-- The reducer's move of the step is the UPDATE of its row.
pub advance_run_step-update_rows :
    (event_type : EventType) (run : RunRow) (deps : String → List String) (rows : List StepRow)
    (row : StepRow) (f : StepRow → StepRow) (step_id : String) (attempt : ℕ)
    (event : WorkflowRunEvent) (payload : EventPayload)
    → Nodup (row_ids rows)
    → find? (has_id step_id) rows ≡ some row
    → event.step_id ≡ some step_id
    → event.attempt ≡ some attempt
    → advance_step event_type
        (workflow_run_from_rows run rows deps)
        (step_from_row deps row)
        attempt
        event
        payload
      ≡ ok (step_from_row deps (f row))
    → advance_run_step event_type (workflow_run_from_rows run rows deps) event payload
      ≡ ok (workflow_run_from_rows run (update_rows (has_id step_id) f rows) deps)
unfolding advance_run_step find_step_with_index workflow_run_from_rows
advance_run_step-update_rows event_type run deps rows row f step_id attempt event payload d h s a
      m =
    let (index, found, written) = index_from-update_rows deps step_id f row 0 rows d h in
    ground (arith, found, written, s, a, m)

-- The run row, its step rows and its events agree.
pub record Projected (py : Pydantic) (run_id : String) (db : Db) (run : RunRow) : Type 0 where
  pub found : find_run db run_id ≡ some run
  pub positions : PositionsFrom 0 (step_rows db run_id)
  pub distinct : Nodup (row_ids (step_rows db run_id))
  pub known :
      (step_id x : String)
      → contains x (dependencies db run_id step_id) ≡ true
      → contains x (row_ids (step_rows db run_id)) ≡ true
  pub tracked :
      Tracks py run_id db.workflow_run_events
        (workflow_run_from_rows run (step_rows db run_id) (dependencies db run_id))

update_rows-PositionsFrom :
    (f : StepRow → StepRow) (test : StepRow → Bool) (n : ℕ) (rows : List StepRow)
    → KeepsKeys f
    → PositionsFrom n rows
    → PositionsFrom n (update_rows test f rows)
unfolding update_rows
update_rows-PositionsFrom f test n [] keys h = tt
update_rows-PositionsFrom f test n (row ∷ rows) keys h =
    ground (arith, keys.position row, update_rows-PositionsFrom f test (n + 1) rows keys h.1)

-- An UPDATE of a step of the run, with the event whose move it is.
module _ (py : Pydantic) (run_id step_id : String) (f : StepRow → StepRow) (keys : KeepsKeys f)
    (db : Db) (run : RunRow) (projected : Projected py run_id db run)
    (events : List WorkflowRunEvent) (next_id : ℕ) where
  abbrev rows : List StepRow
  rows = step_rows db run_id

  abbrev logged : Db
  logged = record db { workflow_run_events = events; next_event_id = next_id }

  pub update_step-Projected :
      Tracks py run_id events
        (workflow_run_from_rows run (update_rows (has_id step_id) f rows) (dependencies db run_id))
      → Projected py run_id (update_step run_id step_id f logged) run
  unfolding update_step step_rows find_run dependencies
  update_step-Projected tracked = record {
    found = projected.found;
    positions =
        rw (where_rows-update_rows run_id step_id f keys db.steps)
          (update_rows-PositionsFrom f (has_id step_id) 0 rows keys projected.positions);
    distinct =
        rw (where_rows-update_rows run_id step_id f keys db.steps)
          (rw (row_ids-update_rows run_id step_id f keys rows) projected.distinct);
    known = λ s x m.
        rw (where_rows-update_rows run_id step_id f keys db.steps)
          (rw (row_ids-update_rows run_id step_id f keys rows) (projected.known s x m));
    tracked = rw (where_rows-update_rows run_id step_id f keys db.steps) tracked;
  }
