-- ===== src/Storage/Projection/Outcomes.antt =====
-- `schedule_retry`, `fail_step` and `complete_step` keep the projection equal to the history.
use crashsafe.Prelude.{
  ℕ, ◌+◌, String, Bool, ◌≡◌, refl, ap, subst, Option, none, some, List, [], ◌∷◌, map, arith,
  Bool-cases, inl, inr, ok, >>=-eq-ok, ok_injective, str_eq, All, find?, update_rows,
}
use crashsafe.Models.Values.{Json}
use crashsafe.Models.{
  StepStatus, WorkflowRunStatus, step_retry_scheduled, retry_payload, WorkflowRunEvent,
  ToolThrottle,
}
use crashsafe.History.Payloads.{Pydantic, event_schema_version}
use crashsafe.History.Consistent.{ShapeAt, HasShape}
use crashsafe.History.Lifecycle.{fold_events-IsConsistent}
use crashsafe.Storage.Db.{
  Db, RunRow, StepRow, step_rows, find_run, get_step_row, update_run, step_from_row, dependencies,
  workflow_run_from_rows, append_event, max_sequence,
}
use crashsafe.Storage.Attempts.{
  Caller, set_retry, set_failed, set_completed, require_lease, require_active_attempt,
  schedule_retry_body,
}
use crashsafe.Storage.Projection.Rows.{has_id, KeepsKeys}
use crashsafe.Storage.Projection.Events.{Tracks, append-Tracks}
use crashsafe.Storage.Projection.Steps.{Projected, update_step-Projected}
use crashsafe.Storage.Projection.Moves.{retry_move}
use crashsafe.Storage.Projection.Attempt.{get_step_row-found}

pub set_retry-KeepsKeys : (error : String) (next now : ℕ) → KeepsKeys (set_retry error next now)
set_retry-KeepsKeys error next now = record {
  run_id = λ row. refl;
  id = λ row. refl;
  position = λ row. refl;
}

pub set_failed-KeepsKeys : (error : String) (now : ℕ) → KeepsKeys (set_failed error now)
set_failed-KeepsKeys error now = record {
  run_id = λ row. refl;
  id = λ row. refl;
  position = λ row. refl;
}

pub set_completed-KeepsKeys : (output : Json) (now : ℕ) → KeepsKeys (set_completed output now)
set_completed-KeepsKeys output now = record {
  run_id = λ row. refl;
  id = λ row. refl;
  position = λ row. refl;
}

pub find?-update_rows :
    (step_id : String) (f : StepRow → StepRow) (row : StepRow) (rows : List StepRow)
    → KeepsKeys f
    → find? (has_id step_id) rows ≡ some row
    → find? (has_id step_id) (update_rows (has_id step_id) f rows) ≡ some (f row)
unfolding find? update_rows
find?-update_rows step_id f row [] keys h = absurd (ground arith)
find?-update_rows step_id f row (r ∷ rows) keys h =
    ground (arith, keys.id r, find?-update_rows step_id f row rows keys)

find_run-update_run :
    (run_id : String) (g : RunRow → RunRow) (run : RunRow) (runs : List RunRow)
    → ((r : RunRow) → (g r).run_id ≡ r.run_id)
    → find? (λ (r : RunRow). str_eq r.run_id run_id) runs ≡ some run
    → find?
        (λ (r : RunRow). str_eq r.run_id run_id)
        (update_rows (λ (r : RunRow). str_eq r.run_id run_id) g runs)
      ≡ some (g run)
unfolding find? update_rows
find_run-update_run run_id g run [] keys h = absurd (ground arith)
find_run-update_run run_id g run (r ∷ runs) keys h =
    ground (arith, keys r, find_run-update_run run_id g run runs keys)

-- An UPDATE of the run's row, with the event whose move it is.
module _ (py : Pydantic) (run_id : String) (g : RunRow → RunRow)
    (keys : (r : RunRow) → (g r).run_id ≡ r.run_id) (db : Db) (run : RunRow)
    (projected : Projected py run_id db run) (events : List WorkflowRunEvent) (next_id : ℕ) where
  pub update_run-Projected :
      Tracks py run_id events
        (workflow_run_from_rows (g run) (step_rows db run_id) (dependencies db run_id))
      → Projected py run_id
          (update_run run_id g
            (record db { workflow_run_events = events; next_event_id = next_id }))
          (g run)
  unfolding update_run step_rows find_run dependencies
  update_run-Projected tracked = record {
    found = find_run-update_run run_id g run db.workflow_runs keys projected.found;
    positions = projected.positions;
    distinct = projected.distinct;
    known = projected.known;
    tracked = tracked;
  }

pub require_active_attempt_lem :
    (db : Db) (row : StepRow) (owner : Option String) (fence : Option ℕ) (at : ℕ)
    → require_active_attempt db row owner fence at ≡ ok tt
    → row.status ≡ StepStatus.intent_recorded
unfolding require_active_attempt
require_active_attempt_lem db row owner fence at h =
    let (_, _, rest) = >>=-eq-ok (require_lease db row owner fence at) _ h in ground arith

-- A row in the status of an attempt in flight has no deadline.
shape_of_row :
    (deps : String → List String) (step_id : String) (row : StepRow) (rows : List StepRow)
    → find? (has_id step_id) rows ≡ some row
    → All HasShape (map (step_from_row deps) rows)
    → HasShape (step_from_row deps row)
unfolding find?
shape_of_row deps step_id row [] h shapes = absurd (ground arith)
shape_of_row deps step_id row (r ∷ rows) h shapes = elim (Bool-cases (has_id step_id r)) [
  | inl e ↦ subst (λ x. HasShape (step_from_row deps x)) (ground arith) shapes.0
  | inr e ↦ shape_of_row deps step_id row rows (ground arith) shapes.1
]

throttle-Projected :
    (py : Pydantic) (run_id : String) (db : Db) (run : RunRow) (throttles : List ToolThrottle)
    → Projected py run_id db run
    → Projected py run_id (record db { tool_throttles = throttles }) run
unfolding step_rows find_run dependencies
throttle-Projected py run_id db run throttles p = record {
  found = p.found;
  positions = p.positions;
  distinct = p.distinct;
  known = p.known;
  tracked = p.tracked;
}

module _ (py : Pydantic) (run_id step_id : String) (caller : Caller) (db : Db) (run : RunRow)
    (projected : Projected py run_id db run)
    (running : run.status ≡ WorkflowRunStatus.running) where
  pub no_deadline :
      (row : StepRow)
      → get_step_row db run_id step_id ≡ ok row
      → row.status ≡ StepStatus.intent_recorded
      → row.next_attempt_at ≡ none
  unfolding step_from_row workflow_run_from_rows
  no_deadline row at active =
      let (found, named) = get_step_row-found db run_id step_id row at in
      let consistent = fold_events-IsConsistent py run_id _ _ projected.tracked.folded in
      let shape =
        shape_of_row (dependencies db run_id) step_id row (step_rows db run_id) found
          consistent.shapes in
      (subst (λ s. ShapeAt s (step_from_row (dependencies db run_id) row)) active shape).1

  pub schedule_retry_body-Projected :
      (error : String) (next : ℕ) (throttle_tool : Bool) (after : Db)
      → schedule_retry_body py run_id step_id error next throttle_tool caller db ≡ ok (tt, after)
      → Projected py run_id after run
  unfolding schedule_retry_body append_event
  schedule_retry_body-Projected error next throttle_tool after h =
      let (row, at, h₁) = >>=-eq-ok (get_step_row db run_id step_id) _ h in
      let (_, active, h₂) =
        >>=-eq-ok
          (require_active_attempt db row caller.owner_id caller.fence_token caller.checked_at) _
          h₁ in
      let status = require_active_attempt_lem db row _ _ _ active in
      let (found, _) = get_step_row-found db run_id step_id row at in
      let tracked =
        append-Tracks py run_id db.workflow_run_events _ projected.tracked
          (record {
            id = db.next_event_id;
            run_id = run_id;
            sequence = max_sequence run_id db.workflow_run_events + 1;
            event_type = step_retry_scheduled;
            schema_version = event_schema_version;
            step_id = some step_id;
            attempt = some row.attempts;
            payload = py.dump (retry_payload error next);
            occurred_at = caller.now;
          })
          (retry_payload error next) _ refl refl refl refl refl
          (retry_move run (dependencies db run_id) (step_rows db run_id) row run_id step_id _
            running projected.distinct found refl error next refl status) in
      let p =
        update_step-Projected py run_id step_id (set_retry error next caller.now)
          (set_retry-KeepsKeys error next caller.now) db run projected _ (db.next_event_id + 1)
          tracked in
      let same = ap (λ (q : Unit {0} × Db). q.1) (ok_injective h₂) in
      subst (λ d. Projected py run_id d run) same
        (elim (Bool-cases throttle_tool) [
          | inl e ↦ rw e (throttle-Projected py run_id _ run _ p)
          | inr e ↦ rw e p
        ])
