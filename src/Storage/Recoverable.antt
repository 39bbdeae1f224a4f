-- ===== src/Storage/Recoverable.antt =====
-- A worker that dies after `record_attempt` leaves a step that can be claimed again.
use crashsafe.Prelude.{
  arith, ℕ, ◌+◌, String, true, false, not, ◌≡◌, ◌≢◌, refl, sym, ap, subst, ◌∙◌, some, none, ok,
  >>=-eq-ok, ok_injective, or_raise-some, raise_if, str_eq_iff, find?, find?-update_rows,
  update_rows, if◌then◌else◌, Result-cases, inl, inr,
}
use crashsafe.Models.{
  Datetime, StepStatus, runnable_status, WorkflowRunStatus, StepRecord, step_attempt_started,
  EventPayload, attempt_payload,
}
use crashsafe.History.Payloads.{
  Pydantic, event_schema_version, attempt_event_schema_version, is_none,
}
use crashsafe.Storage.Db.{
  unknown_step, step_not_runnable, incomplete_dependencies, Db, RunRow, StepRow, transaction,
  is_step, find_run, get_step_row, has_incomplete_dependency, update_step, append_event,
  step_from_row,
}
use crashsafe.Storage.Attempts.{
  Caller, set_intent, require_lease, record_attempt_body, record_attempt,
}
use crashsafe.Storage.Claims.{
  get_lease, get_tool_throttle, lease_free, not_throttled, eligible, select_runnable,
}
use crashsafe.Storage.Projection.Attempt.{set_intent-KeepsKeys}
use crashsafe.Storage.Candidates.{In, IsCandidate, no-IsCandidate}
use crashsafe.Storage.Incomplete.{find?-In, find?-holds, dependencies-update}

module _ (py : Pydantic) (run_id step_id : String) (caller : Caller) (db : Db) (run : RunRow)
    (found : find_run db run_id ≡ some run) (running : run.status ≡ WorkflowRunStatus.running)
    (now : Datetime) where
  granted-IsCandidate :
      (row updated : StepRow) (attempt : ℕ) (payload : EventPayload) (version : ℕ)
      → get_step_row db run_id step_id ≡ ok row
      → runnable_status row.status ≡ true
      → has_incomplete_dependency db run_id step_id ≡ false
      → get_step_row
          (update_step run_id step_id (set_intent attempt caller.now) (
            append_event py run_id step_attempt_started payload caller.now
              (some step_id)
              (some attempt)
              version
              db))
          run_id
          step_id
        ≡ ok updated
      → not_throttled (get_tool_throttle db updated.tool_key) now ≡ true
      → lease_free (get_lease db run_id) now ≡ true
      → In updated (update_rows (is_step run_id step_id) (set_intent attempt caller.now) db.steps)
        × IsCandidate
            (update_step run_id step_id (set_intent attempt caller.now) (
              append_event py run_id step_attempt_started payload caller.now
                (some step_id)
                (some attempt)
                version
                db))
            now
            true
            run.created_at
            updated
  unfolding get_step_row has_incomplete_dependency update_step append_event find_run eligible
      get_tool_throttle get_lease
  granted-IsCandidate row updated attempt payload version at open' complete stored tool_free
        lease_over =
      let f = set_intent attempt caller.now in
      let rows = update_rows (is_step run_id step_id) f db.steps in
      let first : find? (is_step run_id step_id) db.steps ≡ some row =
        or_raise-some (find? (is_step run_id step_id) db.steps) unknown_step row at in
      let second : find? (is_step run_id step_id) rows ≡ some updated =
        or_raise-some (find? (is_step run_id step_id) rows) unknown_step updated stored in
      let again = find?-update_rows (is_step run_id step_id) f db.steps row (λ r. refl) first in
      let same : f row ≡ updated = let both = sym again ∙ second in cc in
      let own : is_step run_id step_id updated ≡ true =
        find?-holds (is_step run_id step_id) rows updated second in
      let of_run' : updated.run_id ≡ run_id =
        ground (arith, own, str_eq_iff updated.run_id run_id) in
      let of_step' : updated.id ≡ step_id = ground (arith, own, str_eq_iff updated.id step_id) in
      let still =
        dependencies-update run_id step_id f (set_intent-KeepsKeys attempt caller.now) db.steps row
          db.step_dependencies first open' complete in
      let status : updated.status ≡ StepStatus.intent_recorded =
        ap (λ (r : StepRow). r.status) (sym same) in
      let next : updated.next_attempt_at ≡ none =
        ap (λ (r : StepRow). r.next_attempt_at) (sym same) in
      (
        find?-In (is_step run_id step_id) rows updated second,
        record {
          run = run;
          joined = rw of_run' found;
          created_at = refl;
          where_holds =
              rw (of_run', of_step', status, next, running, tool_free, lease_over, still) refl;
        },
      )

  record_attempt_body-IsCandidate :
      (step : StepRecord) (after : Db)
      → record_attempt_body py run_id step_id caller db ≡ ok (step, after)
      → not_throttled (get_tool_throttle db step.tool_key) now ≡ true
      → lease_free (get_lease db run_id) now ≡ true
      → (row : StepRow) × In row after.steps × IsCandidate after now true run.created_at row
  unfolding record_attempt_body update_step append_event step_from_row
  record_attempt_body-IsCandidate step after h tool_free lease_over =
      let (row, at, h₁) = >>=-eq-ok (get_step_row db run_id step_id) _ h in
      let (_, _, h₂) =
        >>=-eq-ok (require_lease db row caller.owner_id caller.fence_token caller.checked_at) _
          h₁ in
      let (_, open', h₃) =
        >>=-eq-ok (raise_if (not (runnable_status row.status)) step_not_runnable) _ h₂ in
      let (_, complete, h₄) =
        >>=-eq-ok (raise_if (has_incomplete_dependency db run_id step_id) incomplete_dependencies) _
          h₃ in
      let attempt = row.attempts + 1 in
      let payload = attempt_payload (record {
        operation = row.operation;
        request = row.request;
        operation_key = row.operation_key;
        worker_id = caller.owner_id;
        fence_token = caller.fence_token;
      }) in
      let version =
        if is_none caller.owner_id then event_schema_version else attempt_event_schema_version in
      let logged =
        append_event py run_id step_attempt_started payload caller.now (some step_id) (some attempt)
          version db in
      let changed = update_step run_id step_id (set_intent attempt caller.now) logged in
      let (updated, stored, h₅) = >>=-eq-ok (get_step_row changed run_id step_id) _ h₄ in
      let same_step = ap (λ (p : StepRecord × Db). p.0) (ok_injective h₅) in
      let same : changed ≡ after = ap (λ (p : StepRecord × Db). p.1) (ok_injective h₅) in
      let free : not_throttled (get_tool_throttle db updated.tool_key) now ≡ true =
        subst (λ key. not_throttled (get_tool_throttle db key) now ≡ true)
          (ap (λ (s : StepRecord). s.tool_key) (sym same_step)) tool_free in
      let (m, good) =
        granted-IsCandidate row updated attempt payload version at (ground (arith, open'))
          (ground (arith, complete)) stored free lease_over in
      subst (λ d. (row : StepRow) × In row d.steps × IsCandidate d now true run.created_at row) same
        (updated, m, good)

  -- A worker that dies after `record_attempt` returned leaves its run recoverable: at any time at
  -- which no lease of the run is live and the step's tool is not throttled, a claim on the database
  -- that the attempt left selects a step. The run is RUNNING, as it was for the claim.
  pub record_attempt-recoverable :
      (step : StepRecord)
      → (record_attempt py run_id step_id caller db).0 ≡ ok step
      → not_throttled (get_tool_throttle db step.tool_key) now ≡ true
      → lease_free (get_lease db run_id) now ≡ true
      → select_runnable (record_attempt py run_id step_id caller db).1 now true ≢ none
  unfolding record_attempt transaction
  record_attempt-recoverable step h tool_free lease_over stuck =
      elim (Result-cases (record_attempt_body py run_id step_id caller db)) [
        | inr (error, e) ↦ absurd (ground (arith, e))
        | inl ((s, after), e) ↦
            let same : s ≡ step = ground (arith, e) in
            let left : after ≡ (record_attempt py run_id step_id caller db).1 = ground (arith, e) in
            let (row, m, good) =
              record_attempt_body-IsCandidate s after e
                (subst
                  (λ (x : StepRecord). not_throttled (get_tool_throttle db x.tool_key) now ≡ true)
                  (sym same) tool_free)
                lease_over in
            no-IsCandidate after now true
              (subst (λ d. select_runnable d now true ≡ none) (sym left) stuck) run.created_at row m
              good
      ]
