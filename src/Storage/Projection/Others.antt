-- ===== src/Storage/Projection/Others.antt =====
-- Calls on one run leave every other run alone.
use crashsafe.Prelude.{
  ◌+◌, ◌==◌, String, Bool, true, false, not, ◌≡◌, refl, ap, subst, none, some, List, Bool-cases,
  inl, inr, ok, ok_injective, >>=-eq-ok, raise_if, str_eq, if◌then◌else◌,
}
use crashsafe.Models.Values.{Json}
use crashsafe.Models.{
  Datetime, StepStatus, status_eq, runnable_status, step_attempt_started, step_retry_scheduled,
  step_completed, step_failed, workflow_run_completed, workflow_run_failed, attempt_payload,
  retry_payload, completed_payload, failed_payload, run_completed_payload, run_failed_payload,
  StepRecord, ToolThrottle,
}
use crashsafe.History.Payloads.{
  Pydantic, event_schema_version, attempt_event_schema_version, is_none,
}
use crashsafe.Storage.Db.{
  step_not_runnable, incomplete_dependencies, Db, StepRow, get_step_row, update_step,
  has_incomplete_dependency, append_event, step_rows, find_run, dependencies,
}
use crashsafe.Storage.Attempts.{
  Caller, set_intent, set_retry, set_failed, set_completed, remaining_steps, complete_run_if_done,
  require_lease, require_active_attempt, record_attempt_body, schedule_retry_body, fail_step_body,
  complete_step_body,
}
use crashsafe.Storage.Projection.Rows.{KeepsKeys}
use crashsafe.Storage.Projection.Attempt.{set_intent-KeepsKeys}
use crashsafe.Storage.Projection.Outcomes.{
  set_retry-KeepsKeys, set_failed-KeepsKeys, set_completed-KeepsKeys,
}
use crashsafe.Storage.Projection.Frame.{
  SameRun, SameRun-refl, SameRun-trans, update_step-SameRun, update_run-SameRun,
  append_event-SameRun,
}

module _ (py : Pydantic) (run_id other : String) (apart : str_eq other run_id ≡ false)
    (step_id : String) (caller : Caller) (db : Db) where
  -- an event of the other run, and the UPDATE of its step
  logged-SameRun :
      (logged : Db) (f : StepRow → StepRow)
      → KeepsKeys f
      → SameRun run_id db logged
      → SameRun run_id db (update_step other step_id f logged)
  logged-SameRun logged f keys same =
      SameRun-trans run_id db logged (update_step other step_id f logged) same
        (update_step-SameRun run_id other apart step_id f keys logged)

  pub record_attempt_body-SameRun :
      (step : StepRecord) (after : Db)
      → record_attempt_body py other step_id caller db ≡ ok (step, after)
      → SameRun run_id db after
  unfolding record_attempt_body
  record_attempt_body-SameRun step after h =
      let (row, a, h₁) = >>=-eq-ok (get_step_row db other step_id) _ h in
      let (_, b, h₂) =
        >>=-eq-ok (require_lease db row caller.owner_id caller.fence_token caller.checked_at) _
          h₁ in
      let (_, c, h₃) =
        >>=-eq-ok (raise_if (not (runnable_status row.status)) step_not_runnable) _ h₂ in
      let (_, d, h₄) =
        >>=-eq-ok (raise_if (has_incomplete_dependency db other step_id) incomplete_dependencies) _
          h₃ in
      let attempt = row.attempts + 1 in
      let payload = attempt_payload (record {
        operation = row.operation;
        request = row.request;
        operation_key = row.operation_key;
        worker_id = caller.owner_id;
        fence_token = caller.fence_token;
      }) in
      let version =
        if is_none caller.owner_id then event_schema_version else attempt_event_schema_version in
      let logged =
        append_event py other step_attempt_started payload caller.now (some step_id) (some attempt)
          version db in
      let changed = update_step other step_id (set_intent attempt caller.now) logged in
      let (updated, e, h₅) = >>=-eq-ok (get_step_row changed other step_id) _ h₄ in
      let same : changed ≡ after = ap (λ (q : StepRecord × Db). q.1) (ok_injective h₅) in
      subst (SameRun run_id db) same (
        logged-SameRun logged (set_intent attempt caller.now)
          (set_intent-KeepsKeys attempt caller.now)
          (append_event-SameRun run_id other apart py step_attempt_started payload caller.now
            (some step_id) (some attempt) version db))

  throttled-SameRun :
      (changed : Db) (throttle_tool : Bool) (throttles : List ToolThrottle)
      → SameRun run_id db changed
      → SameRun run_id db
          (if throttle_tool then record changed { tool_throttles = throttles } else changed)
  unfolding step_rows find_run dependencies
  throttled-SameRun changed true throttles same = record {
    run = same.run;
    steps = same.steps;
    dependencies = same.dependencies;
    events = same.events;
    sequence = same.sequence;
  }
  throttled-SameRun changed false throttles same = same

  pub schedule_retry_body-SameRun :
      (error : String) (next : Datetime) (throttle_tool : Bool) (u : Unit {0}) (after : Db)
      → schedule_retry_body py other step_id error next throttle_tool caller db ≡ ok (u, after)
      → SameRun run_id db after
  unfolding schedule_retry_body
  schedule_retry_body-SameRun error next throttle_tool u after h =
      let (row, a, h₁) = >>=-eq-ok (get_step_row db other step_id) _ h in
      let (_, b, h₂) =
        >>=-eq-ok
          (require_active_attempt db row caller.owner_id caller.fence_token caller.checked_at) _
          h₁ in
      let logged =
        append_event py other step_retry_scheduled (retry_payload error next) caller.now
          (some step_id) (some row.attempts) event_schema_version db in
      let changed = update_step other step_id (set_retry error next caller.now) logged in
      subst (SameRun run_id db) (ap (λ (q : Unit {0} × Db). q.1) (ok_injective h₂)) (
        throttled-SameRun changed throttle_tool _ (
          logged-SameRun logged (set_retry error next caller.now)
            (set_retry-KeepsKeys error next caller.now)
            (append_event-SameRun run_id other apart py step_retry_scheduled
              (retry_payload error next) caller.now (some step_id) (some row.attempts)
              event_schema_version db)))

  pub fail_step_body-SameRun :
      (error : String) (u : Unit {0}) (after : Db)
      → fail_step_body py other step_id error caller db ≡ ok (u, after)
      → SameRun run_id db after
  unfolding fail_step_body
  fail_step_body-SameRun error u after h =
      let (row, a, h₁) = >>=-eq-ok (get_step_row db other step_id) _ h in
      let (_, b, h₂) =
        >>=-eq-ok
          (require_active_attempt db row caller.owner_id caller.fence_token caller.checked_at) _
          h₁ in
      let logged =
        append_event py other step_failed (failed_payload error) caller.now (some step_id)
          (some row.attempts) event_schema_version db in
      let logged' =
        append_event py other workflow_run_failed (run_failed_payload step_id error) caller.now
          (some step_id) none event_schema_version logged in
      let changed = update_step other step_id (set_failed error caller.now) logged' in
      let one =
        append_event-SameRun run_id other apart py step_failed (failed_payload error) caller.now
          (some step_id) (some row.attempts) event_schema_version db in
      let two =
        append_event-SameRun run_id other apart py workflow_run_failed
          (run_failed_payload step_id error) caller.now (some step_id) none event_schema_version
          logged in
      let three =
        logged-SameRun logged' (set_failed error caller.now) (set_failed-KeepsKeys error caller.now)
          (SameRun-trans run_id db logged logged' one two) in
      subst (SameRun run_id db) (ap (λ (q : Unit {0} × Db). q.1) (ok_injective h₂)) (
        SameRun-trans run_id db changed _ three
          (update_run-SameRun run_id other apart _ (λ r. refl) changed))

  complete_run_if_done-SameRun :
      (now : Datetime) (changed : Db)
      → SameRun run_id db changed
      → SameRun run_id db (complete_run_if_done py other now changed)
  unfolding complete_run_if_done
  complete_run_if_done-SameRun now changed same =
      elim (Bool-cases (remaining_steps other changed == 0)) [
        | inr e ↦ rw e same
        | inl e ↦
            let logged =
              append_event py other workflow_run_completed run_completed_payload now none none
                event_schema_version changed in
            let one =
              append_event-SameRun run_id other apart py workflow_run_completed
                run_completed_payload now none none event_schema_version changed in
            rw e (
              SameRun-trans run_id db logged _ (SameRun-trans run_id db changed logged same one)
                (update_run-SameRun run_id other apart _ (λ r. refl) logged))
      ]

  pub complete_step_body-SameRun :
      (output : Json) (u : Unit {0}) (after : Db)
      → complete_step_body py other step_id output caller db ≡ ok (u, after)
      → SameRun run_id db after
  unfolding complete_step_body
  complete_step_body-SameRun output u after h =
      let (row, a, h₁) = >>=-eq-ok (get_step_row db other step_id) _ h in
      let (_, b, h₂) =
        >>=-eq-ok (require_lease db row caller.owner_id caller.fence_token caller.checked_at) _
          h₁ in
      let logged =
        append_event py other step_completed (completed_payload output) caller.now (some step_id)
          (some row.attempts) event_schema_version db in
      let changed = update_step other step_id (set_completed output caller.now) logged in
      let moved =
        logged-SameRun logged (set_completed output caller.now)
          (set_completed-KeepsKeys output caller.now)
          (append_event-SameRun run_id other apart py step_completed (completed_payload output)
            caller.now (some step_id) (some row.attempts) event_schema_version db) in
      let same = ap (λ (q : Unit {0} × Db). q.1) (ok_injective h₂) in
      elim (Bool-cases (status_eq row.status StepStatus.intent_recorded)) [
        | inl e ↦
            subst (SameRun run_id db) (rw e at same)
              (complete_run_if_done-SameRun caller.now changed moved)
        | inr e ↦ subst (SameRun run_id db) (rw e at same) (SameRun-refl run_id db)
      ]
