-- ===== src/Engine/Running.antt =====
-- Calls on the steps of running runs.
use crashsafe.Prelude.{
  arith, ℕ, String, true, ◌≡◌, sym, ap, subst, some, ok, str_eq, str_eq_iff, Bool-cases, inl, inr,
}
use crashsafe.Models.{WorkflowRunStatus, ClaimedStep}
use crashsafe.History.Payloads.{Pydantic}
use crashsafe.Storage.Db.{Db, RunRow, find_run, transaction, step_from_row}
use crashsafe.Storage.Attempts.{Caller}
use crashsafe.Storage.Claims.{eligible, upsert_lease, claim_runnable_step, claim_runnable_step_body}
use crashsafe.Storage.Candidates.{select_runnable-IsCandidate}
use crashsafe.Storage.Fencing.{IsFenced, claim_cases}
use crashsafe.Storage.Projection.Commit.{
  StepCall, records_attempt, schedules_retry, fails_step, completes_step, perform,
}
use crashsafe.Storage.Projection.Isolation.{transition}
use crashsafe.Storage.Projection.Lifetime.{Leads, calls, elsewhere}

-- The run has the status RUNNING.
abbrev pub IsRunning : String → Db → Type 0
IsRunning run_id db =
    (run : RunRow) × (find_run db run_id ≡ some run) × (run.status ≡ WorkflowRunStatus.running)

-- A claimed step is one of a running run, and the claim changes no run.
pub claimed-IsRunning :
    (owner_id : String) (ttl now : ℕ) (db : Db) (claim : ClaimedStep)
    → (claim_runnable_step owner_id ttl now db).0 ≡ ok (some claim)
    → IsRunning claim.step.run_id (claim_runnable_step owner_id ttl now db).1
unfolding claim_runnable_step claim_runnable_step_body transaction find_run eligible step_from_row
claimed-IsRunning owner_id ttl now db claim h =
    let (row, e, _, after) = claim_cases owner_id ttl now db claim h in
    let (_, (created, good)) = select_runnable-IsCandidate db now true row e in
    let same : row.run_id ≡ claim.step.run_id = ground (arith, e) in
    let joined : find_run
          (record db { workflow_run_leases = upsert_lease claim.lease db.workflow_run_leases })
          claim.step.run_id
        ≡ some good.run =
      subst (λ r. find_run db r ≡ some good.run) same good.joined in
    (
      good.run,
      subst (λ d. find_run d claim.step.run_id ≡ some good.run) (sym after) joined,
      ground (arith, good.where_holds),
    )

-- A caller without the lease changes nothing by its calls.
pub perform-IsFenced :
    (py : Pydantic) (run_id step_id : String) (caller : Caller) (call : StepCall) (db : Db)
    → IsFenced py run_id step_id caller db
    → perform py run_id step_id caller call db ≡ db
unfolding perform
perform-IsFenced py run_id step_id caller records_attempt db f = ap (λ q. q.1) f.attempt
perform-IsFenced py run_id step_id caller (schedules_retry error next throttle_tool) db f =
    ap (λ q. q.1) (f.retry error next throttle_tool)
perform-IsFenced py run_id step_id caller (fails_step error) db f = ap (λ q. q.1) (f.fail error)
perform-IsFenced py run_id step_id caller (completes_step output) db f =
    ap (λ q. q.1) (f.complete output)

module _ (py : Pydantic) (run_id : String) (start : Db) where
  -- A call on the step of a running run, which is this run or another.
  pub Leads-perform :
      (middle : Db) (other step_id : String) (caller : Caller) (call : StepCall)
      → Leads py run_id start middle
      → IsRunning other middle
      → Leads py run_id start (perform py other step_id caller call middle)
  Leads-perform middle other step_id caller call before (run, found, running) =
      elim (Bool-cases (str_eq other run_id)) [
        | inl e ↦
            let same : run_id ≡ other = ground (arith, str_eq_iff other run_id) in
            subst (λ r. Leads py run_id start (perform py r step_id caller call middle)) same
              (calls middle run step_id caller call before
                (subst (λ r. find_run middle r ≡ some run) (sym same) found) running)
        | inr e ↦ elsewhere middle _ other before e (transition step_id caller call)
      ]
