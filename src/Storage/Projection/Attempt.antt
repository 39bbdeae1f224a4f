-- ===== src/Storage/Projection/Attempt.antt =====
-- `record_attempt` keeps the projection equal to the history.
use crashsafe.Prelude.{
  ℕ, ◌+◌, String, true, false, not, ◌≡◌, refl, ap, subst, Option, some, List, [], ◌∷◌, arith, ok,
  >>=-eq-ok, ok_injective, raise_if, str_eq_iff, find?, update_rows, if◌then◌else◌,
}
use crashsafe.Models.{
  WorkflowRunStatus, step_attempt_started, runnable_status, attempt_payload,
  StepAttemptStartedPayload, StepRecord,
}
use crashsafe.History.Payloads.{
  Pydantic, is_none, supported, event_schema_version, attempt_event_schema_version,
}
use crashsafe.History.Transitions.{missing_owner}
use crashsafe.Storage.Db.{
  Db, RunRow, StepRow, is_step, step_rows, get_step_row, update_step, dependencies,
  has_incomplete_dependency, workflow_run_from_rows, append_event, step_not_runnable,
  incomplete_dependencies,
}
use crashsafe.Storage.Attempts.{Caller, set_intent, require_lease, record_attempt_body}
use crashsafe.Storage.Projection.Rows.{has_id, KeepsKeys, find?-where_rows, dependencies_completed}
use crashsafe.Storage.Projection.Events.{Tracks, append-Tracks}
use crashsafe.Storage.Projection.Steps.{Projected, update_step-Projected}
use crashsafe.Storage.Projection.Moves.{intent_move}

abbrev version_of : Option String → ℕ
version_of owner = if is_none owner then event_schema_version else attempt_event_schema_version

caller_version :
    (db : Db) (row : StepRow) (caller : Caller) (payload : StepAttemptStartedPayload)
    → require_lease db row caller.owner_id caller.fence_token caller.checked_at ≡ ok tt
    → payload.worker_id ≡ caller.owner_id
    → payload.fence_token ≡ caller.fence_token
    → (supported (version_of caller.owner_id) ≡ true)
      × (missing_owner (version_of caller.owner_id) payload ≡ false)
unfolding require_lease
caller_version db row caller payload h w f = (ground arith, ground arith)

pub get_step_row-found :
    (db : Db) (run_id step_id : String) (row : StepRow)
    → get_step_row db run_id step_id ≡ ok row
    → (find? (has_id step_id) (step_rows db run_id) ≡ some row) × (row.id ≡ step_id)
unfolding get_step_row step_rows find?
get_step_row-found db run_id step_id row h =
    (find?-where_rows run_id step_id row db.steps (ground arith), named db.steps (ground arith))
  where
    named :
        (rows : List StepRow) → find? (is_step run_id step_id) rows ≡ some row → row.id ≡ step_id
    named [] e = absurd (ground arith)
    named (r ∷ rows) e = ground (arith, named rows, str_eq_iff r.id step_id)

pub set_intent-KeepsKeys : (attempt now : ℕ) → KeepsKeys (set_intent attempt now)
set_intent-KeepsKeys attempt now = record {
  run_id = λ row. refl;
  id = λ row. refl;
  position = λ row. refl;
}

module _ (py : Pydantic) (run_id step_id : String) (caller : Caller) (db : Db) (run : RunRow)
    (projected : Projected py run_id db run)
    (running : run.status ≡ WorkflowRunStatus.running) where
  abbrev intent_logged : StepRow → StepAttemptStartedPayload → Db
  intent_logged row payload =
      append_event py run_id step_attempt_started (attempt_payload payload) caller.now
        (some step_id) (some (row.attempts + 1)) (version_of caller.owner_id) db

  attempt-Tracks :
      (row : StepRow)
      → get_step_row db run_id step_id ≡ ok row
      → require_lease db row caller.owner_id caller.fence_token caller.checked_at ≡ ok tt
      → runnable_status row.status ≡ true
      → has_incomplete_dependency db run_id step_id ≡ false
      → (payload : StepAttemptStartedPayload) → payload.operation ≡ row.operation
      → payload.request ≡ row.request
      → payload.operation_key ≡ row.operation_key
      → payload.worker_id ≡ caller.owner_id
      → payload.fence_token ≡ caller.fence_token
      → Tracks py run_id (intent_logged row payload).workflow_run_events (
          workflow_run_from_rows run
            (update_rows
              (has_id step_id)
              (set_intent (row.attempts + 1) caller.now)
              (step_rows db run_id))
            (dependencies db run_id))
  unfolding append_event has_incomplete_dependency dependencies step_rows
  attempt-Tracks row at leased runnable done payload o r k w f =
      let (found, named) = get_step_row-found db run_id step_id row at in
      let (version, owner) = caller_version db row caller payload leased w f in
      let complete =
        dependencies_completed (dependencies db run_id) run_id step_id db.steps db.step_dependencies
          (projected.known step_id) done in
      append-Tracks py run_id db.workflow_run_events _ projected.tracked _ (attempt_payload payload)
        _ refl refl version refl refl
        (intent_move run (dependencies db run_id) (step_rows db run_id) row run_id step_id _ running
          projected.distinct found refl payload refl owner runnable (rw named complete) o r k)

  pub record_attempt_body-Projected :
      (step : StepRecord) (after : Db)
      → record_attempt_body py run_id step_id caller db ≡ ok (step, after)
      → Projected py run_id after run
  unfolding record_attempt_body append_event
  record_attempt_body-Projected step after h =
      let (row, at, h₁) = >>=-eq-ok (get_step_row db run_id step_id) _ h in
      let (_, leased, h₂) =
        >>=-eq-ok (require_lease db row caller.owner_id caller.fence_token caller.checked_at) _
          h₁ in
      let (_, runnable, h₃) =
        >>=-eq-ok (raise_if (not (runnable_status row.status)) step_not_runnable) _ h₂ in
      let (_, done, h₄) =
        >>=-eq-ok (raise_if (has_incomplete_dependency db run_id step_id) incomplete_dependencies) _
          h₃ in
      let payload : StepAttemptStartedPayload = record {
        operation = row.operation;
        request = row.request;
        operation_key = row.operation_key;
        worker_id = caller.owner_id;
        fence_token = caller.fence_token;
      } in
      let f = set_intent (row.attempts + 1) caller.now in
      let changed = update_step run_id step_id f (intent_logged row payload) in
      let (updated, _, h₅) = >>=-eq-ok (get_step_row changed run_id step_id) _ h₄ in
      let same : changed ≡ after = ap (λ (p : StepRecord × Db). p.1) (ok_injective h₅) in
      subst (λ d. Projected py run_id d run) same
        (update_step-Projected py run_id step_id f
          (set_intent-KeepsKeys (row.attempts + 1) caller.now) db run projected
          (intent_logged row payload).workflow_run_events (db.next_event_id + 1)
          (attempt-Tracks row at leased (ground arith) (ground arith) payload refl refl refl refl
            refl))
