-- ===== src/Engine/Intent.antt =====
-- What `run_once` has committed before it calls the tool, and what it leaves behind.
use crashsafe.Prelude.{
  arith, List, ℕ, ◌+◌, ◌<◌, All, str_eq_self, str_eq_iff, String, not, ◌≡◌, refl, sym, ap, subst,
  ◌∙◌, some, [], ◌∷◌, ◌++◌, ok, >>=-eq-ok, ok_injective, or_raise-some, raise_if, find?,
  find?-update_rows, update_rows, if◌then◌else◌, Result-cases, inl, inr,
}
use crashsafe.Models.{
  StepStatus, runnable_status, step_attempt_started, attempt_payload, StepRecord, WorkflowRunEvent,
}
use crashsafe.History.Payloads.{
  Pydantic, event_schema_version, attempt_event_schema_version, is_none,
}
use crashsafe.Storage.Db.{
  unknown_step, step_not_runnable, incomplete_dependencies, Db, StepRow, is_step, transaction,
  get_step_row, has_incomplete_dependency, update_step, step_from_row, append_event, dependencies,
}
use crashsafe.Storage.Db.{max_sequence}
use crashsafe.Storage.Reads.{events_of}
use crashsafe.Storage.Projection.Events.{events_of-append}
use crashsafe.Storage.Attempts.{
  Caller, set_intent, require_lease, record_attempt_body, record_attempt,
}

-- Every event of a run has a sequence number below the next one.
below_next :
    (run_id : String) (events : List WorkflowRunEvent) (next : ℕ)
    → max_sequence run_id events < next
    → All (λ (e : WorkflowRunEvent). e.run_id ≡ run_id → e.sequence < next) events
unfolding max_sequence
below_next run_id [] next h = tt
below_next run_id (e ∷ events) next h = (
  λ own. ground (arith, str_eq_iff e.run_id run_id, own),
  below_next run_id events next (ground arith),
)

-- The log has the intent, and the step carries it.
pub record IsRecorded (py : Pydantic) (run_id step_id : String) (caller : Caller) (row : StepRow)
    (step : StepRecord) (db after : Db) : Type 0 where
  pub status : step.status ≡ StepStatus.intent_recorded
  pub attempts : step.attempts ≡ row.attempts + 1
  pub operation_key : step.operation_key ≡ row.operation_key
  pub request : step.request ≡ row.request
  pub stored : get_step_row after run_id step_id ≡ ok (set_intent (row.attempts + 1) caller.now row)
  pub event : WorkflowRunEvent
  pub logged : after.workflow_run_events ≡ db.workflow_run_events ++ event ∷ []
  pub of_run : event.run_id ≡ run_id
  pub listed :
      events_of run_id after.workflow_run_events
      ≡ events_of run_id db.workflow_run_events ++ event ∷ []
  pub newest :
      All
        (λ (e : WorkflowRunEvent). e.run_id ≡ run_id → e.sequence < event.sequence)
        db.workflow_run_events
  pub kind : event.event_type ≡ step_attempt_started
  pub of_step : event.step_id ≡ some step_id
  pub numbered : event.attempt ≡ some step.attempts
  pub payload :
      event.payload
      ≡ py.dump (
          attempt_payload (record {
            operation = step.operation;
            request = step.request;
            operation_key = step.operation_key;
            worker_id = caller.owner_id;
            fence_token = caller.fence_token;
          }))

module _ (py : Pydantic) (run_id step_id : String) (caller : Caller) (db : Db) where
  updated_row :
      (row : StepRow)
      → get_step_row db run_id step_id ≡ ok row
      → find?
          (is_step run_id step_id)
          (update_rows (is_step run_id step_id) (set_intent (row.attempts + 1) caller.now) db.steps)
        ≡ some (set_intent (row.attempts + 1) caller.now row)
  unfolding get_step_row
  updated_row row at =
      find?-update_rows (is_step run_id step_id) (set_intent (row.attempts + 1) caller.now) db.steps
        row (λ r. refl)
        (or_raise-some (find? (is_step run_id step_id) db.steps) unknown_step row at)

  abbrev intent_db : StepRow → Db
  intent_db row = update_step run_id step_id (set_intent (row.attempts + 1) caller.now) (
      append_event py run_id step_attempt_started
        (attempt_payload (record {
          operation = row.operation;
          request = row.request;
          operation_key = row.operation_key;
          worker_id = caller.owner_id;
          fence_token = caller.fence_token;
        }))
        caller.now (some step_id) (some (row.attempts + 1))
        (if is_none caller.owner_id then event_schema_version else attempt_event_schema_version) db)

  abbrev intent_step : StepRow → StepRecord
  intent_step row =
      step_from_row (dependencies (intent_db row) run_id)
        (set_intent (row.attempts + 1) caller.now row)

  intent-IsRecorded :
      (row : StepRow)
      → get_step_row db run_id step_id ≡ ok row
      → IsRecorded py run_id step_id caller row (intent_step row) db (intent_db row)
  unfolding append_event update_step step_from_row get_step_row
  intent-IsRecorded row at = record {
    status = refl;
    attempts = refl;
    operation_key = refl;
    request = refl;
    stored = rw (updated_row row at) refl;
    event = _;
    logged = refl;
    of_run = refl;
    listed = events_of-append run_id db.workflow_run_events _ (str_eq_self run_id);
    newest = below_next run_id db.workflow_run_events _ (omega arith);
    kind = refl;
    of_step = refl;
    numbered = refl;
    payload = refl;
  }

  record_attempt_body-IsRecorded :
      (step : StepRecord) (after : Db)
      → record_attempt_body py run_id step_id caller db ≡ ok (step, after)
      → (row : StepRow) × (get_step_row db run_id step_id ≡ ok row)
        × IsRecorded py run_id step_id caller row step db after
  unfolding record_attempt_body
  record_attempt_body-IsRecorded step after h =
      let (row, at, h₁) = >>=-eq-ok (get_step_row db run_id step_id) _ h in
      let (_, _, h₂) =
        >>=-eq-ok (require_lease db row caller.owner_id caller.fence_token caller.checked_at) _
          h₁ in
      let (_, _, h₃) =
        >>=-eq-ok (raise_if (not (runnable_status row.status)) step_not_runnable) _ h₂ in
      let (_, _, h₄) =
        >>=-eq-ok (raise_if (has_incomplete_dependency db run_id step_id) incomplete_dependencies) _
          h₃ in
      let (updated, e, h₅) = >>=-eq-ok (get_step_row (intent_db row) run_id step_id) _ h₄ in
      let recorded = intent-IsRecorded row at in
      let found : set_intent (row.attempts + 1) caller.now row ≡ updated =
        ok_injective (sym recorded.stored ∙ e) in
      let same = ok_injective h₅ in
      let same_step : intent_step row ≡ step =
        ap (λ r. step_from_row (dependencies (intent_db row) run_id) r) found
        ∙ ap (λ (p : StepRecord × Db). p.0) same in
      let same_db : intent_db row ≡ after = ap (λ (p : StepRecord × Db). p.1) same in
      (
        row,
        at,
        subst (λ s. IsRecorded py run_id step_id caller row s db after) same_step
            (subst (IsRecorded py run_id step_id caller row (intent_step row) db) same_db recorded),
      )

  -- An attempt that `record_attempt` grants is in the log before the step is handed out for the tool
  -- call: the events of the run are the former ones and one more, numbered above all of them, for this
  -- step, with the number, the request and the operation key of the step, and with the caller's worker
  -- and fence token; the stored step has this attempt's intent.
  pub record_attempt-IsRecorded :
      (step : StepRecord)
      → (record_attempt py run_id step_id caller db).0 ≡ ok step
      → (row : StepRow) × (get_step_row db run_id step_id ≡ ok row)
        × IsRecorded py run_id step_id caller row step db
            (record_attempt py run_id step_id caller db).1
  unfolding record_attempt transaction
  record_attempt-IsRecorded step h =
      elim (Result-cases (record_attempt_body py run_id step_id caller db)) [
        | inl ((s, after), e) ↦ record_attempt_body-IsRecorded step _ (ground (arith, e))
        | inr (error, e) ↦ absurd (ground (arith, e))
      ]
