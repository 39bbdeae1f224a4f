-- ===== src/Storage/Projection/Keeping.antt =====
-- The four transitions, as one operation on the database, keep the agreement.
use crashsafe.Prelude.{
  ℕ, ◌+◌, String, Bool, not, ◌≡◌, refl, ap, subst, arith, ok, >>=-eq-ok, ok_injective, raise_if,
  where_rows, update_rows,
}
use crashsafe.Models.{runnable_status, StepRecord}
use crashsafe.History.Payloads.{Pydantic}
use crashsafe.Storage.Db.{
  step_not_runnable, incomplete_dependencies, is_step, Db, RunRow, of_run, step_rows, get_step_row,
  has_incomplete_dependency, update_step, append_event,
}
use crashsafe.Storage.Attempts.{
  Caller, set_intent, set_retry, require_lease, require_active_attempt, record_attempt_body,
  schedule_retry_body,
}
use crashsafe.Storage.Projection.Settled.{IsSettled, unfinished-IsSettled}

module _ (py : Pydantic) (run_id step_id : String) (caller : Caller) (db : Db) (run : RunRow)
    (settled : IsSettled run (step_rows db run_id)) where
  pub record_attempt_body-IsSettled :
      (step : StepRecord) (after : Db)
      → record_attempt_body py run_id step_id caller db ≡ ok (step, after)
      → IsSettled run (step_rows after run_id)
  unfolding record_attempt_body step_rows update_step append_event
  record_attempt_body-IsSettled step after h =
      let (row, at, h₁) = >>=-eq-ok (get_step_row db run_id step_id) _ h in
      let (_, _, h₂) =
        >>=-eq-ok (require_lease db row caller.owner_id caller.fence_token caller.checked_at) _
          h₁ in
      let (_, _, h₃) =
        >>=-eq-ok (raise_if (not (runnable_status row.status)) step_not_runnable) _ h₂ in
      let (_, _, h₄) =
        >>=-eq-ok (raise_if (has_incomplete_dependency db run_id step_id) incomplete_dependencies) _
          h₃ in
      let (_, _, h₅) = >>=-eq-ok (get_step_row _ run_id step_id) _ h₄ in
      let same =
        ap (λ (p : StepRecord × Db). where_rows (of_run run_id) p.1.steps) (ok_injective h₅) in
      subst (IsSettled run) same (
        unfinished-IsSettled run_id step_id db run settled row
          (set_intent (row.attempts + 1) caller.now)
          (record { run_id = λ r. refl; id = λ r. refl; position = λ r. refl }) at (λ r. refl) refl)

  pub schedule_retry_body-IsSettled :
      (error : String) (next : ℕ) (throttle_tool : Bool) (after : Db)
      → schedule_retry_body py run_id step_id error next throttle_tool caller db ≡ ok (tt, after)
      → IsSettled run (step_rows after run_id)
  unfolding schedule_retry_body step_rows update_step append_event
  schedule_retry_body-IsSettled error next throttle_tool after h =
      let (row, at, h₁) = >>=-eq-ok (get_step_row db run_id step_id) _ h in
      let (_, _, h₂) =
        >>=-eq-ok
          (require_active_attempt db row caller.owner_id caller.fence_token caller.checked_at) _
          h₁ in
      let same : update_rows (is_step run_id step_id) (set_retry error next caller.now) db.steps
          ≡ after.steps =
        ground arith in
      subst (λ rows. IsSettled run (where_rows (of_run run_id) rows)) same
        (unfinished-IsSettled run_id step_id db run settled row (set_retry error next caller.now)
          (record { run_id = λ r. refl; id = λ r. refl; position = λ r. refl }) at (λ r. refl) refl)
