-- ===== src/Engine/Recovery.antt =====
-- The run of a turn that exits before the request can be claimed again.
use crashsafe.Prelude.{
  arith, ℕ, ◌+◌, ◌≤◌, String, true, ◌≡◌, ◌≢◌, refl, sym, ap, subst, Option, some, none, List, [],
  ◌∷◌, ok, str_eq, str_eq_self, find?,
}
use crashsafe.Models.Values.{Json}
use crashsafe.Models.{Datetime, StepRecord, ClaimedStep, WorkflowRunLease, ToolResult}
use crashsafe.History.Payloads.{Pydantic}
use crashsafe.Storage.Db.{Db, transaction, step_from_row}
use crashsafe.Storage.Attempts.{record_attempt}
use crashsafe.Storage.Claims.{
  get_lease, get_tool_throttle, lease_free, lease_for, not_throttled, upsert_lease, select_runnable,
  claim_runnable_step_body, claim_runnable_step,
}
use crashsafe.Storage.Fencing.{claim_cases}
use crashsafe.Storage.Recoverable.{record_attempt-recoverable}
use crashsafe.Engine.{ToolOutcome, Settings, Moments}
use crashsafe.Engine.Crash.{before_request, crash_requested, crashed_claim, crashed_run_once}
use crashsafe.Engine.Running.{claimed-IsRunning}
use crashsafe.Engine.Agreement.{attempter}

find?-upsert_lease :
    (lease : WorkflowRunLease) (rows : List WorkflowRunLease)
    → find? (λ (l : WorkflowRunLease). str_eq l.run_id lease.run_id) (upsert_lease lease rows)
      ≡ some lease
unfolding find? upsert_lease
find?-upsert_lease lease [] = ground (arith, str_eq_self lease.run_id)
find?-upsert_lease lease (row ∷ rows) =
    ground (arith, str_eq_self lease.run_id, find?-upsert_lease lease rows)

-- The lease of a claim, as the claim leaves it in the table.
claimed-lease :
    (owner_id : String) (ttl now : ℕ) (db : Db) (claim : ClaimedStep)
    → (claim_runnable_step owner_id ttl now db).0 ≡ ok (some claim)
    → (get_lease (claim_runnable_step owner_id ttl now db).1 claim.step.run_id ≡ some claim.lease)
      × (claim.lease.lease_expires_at ≡ now + ttl)
unfolding claim_runnable_step claim_runnable_step_body transaction get_lease lease_for step_from_row
claimed-lease owner_id ttl now db claim h =
    let (row, e, lease, after) = claim_cases owner_id ttl now db claim h in
    let same : claim.lease.run_id ≡ claim.step.run_id = ground (arith, e) in
    let stored =
      subst
        (λ r.
          find? (λ (l : WorkflowRunLease). str_eq l.run_id r)
            (upsert_lease claim.lease db.workflow_run_leases)
          ≡ some claim.lease)
        same (find?-upsert_lease claim.lease db.workflow_run_leases) in
    (
      subst (λ d. get_lease d claim.step.run_id ≡ some claim.lease) (sym after) stored,
      ap (λ (l : WorkflowRunLease). l.lease_expires_at) lease,
    )

module _ (py : Pydantic) (dump_result : ToolResult → Json) (settings : Settings) (moments : Moments)
    (specification : Option String) (worker_id : String) (gateway : StepRecord → ToolOutcome)
    (between : Db → Db) (db : Db) (claim : ClaimedStep)
    (claimed : (claim_runnable_step worker_id settings.lease_ttl moments.claim db).0
      ≡ ok (some claim)) where
  abbrev claimed_db : Db
  claimed_db = (claim_runnable_step worker_id settings.lease_ttl moments.claim db).1

  -- When the injected crash ends a turn before the request of a step whose attempt was recorded, the
  -- run is not lost: at any time from the end of the claim's lease on, at which the step's tool is
  -- not throttled, a claim on the database that the crash left selects a step.
  pub crashed_run_once-recoverable :
      (step : StepRecord) (now : Datetime)
      → (record_attempt py claim.step.run_id claim.step.id
          (attempter py dump_result settings moments claim)
          claimed_db).0
        ≡ ok step
      → crash_requested specification step before_request ≡ true
      → moments.claim + settings.lease_ttl ≤ now
      → not_throttled (get_tool_throttle claimed_db step.tool_key) now ≡ true
      → (after : Db) × (crashed_run_once py dump_result settings moments specification worker_id
            gateway between db
          ≡ some after)
        × (select_runnable after now true ≢ none)
  unfolding crashed_run_once crashed_claim
  crashed_run_once-recoverable step now granted crash over tool_free =
      let (run, found, running) =
        claimed-IsRunning worker_id settings.lease_ttl moments.claim db claim claimed in
      let (stored, expiry) =
        claimed-lease worker_id settings.lease_ttl moments.claim db claim claimed in
      let free : lease_free (get_lease claimed_db claim.step.run_id) now ≡ true =
        rw stored (ground (arith, expiry, over)) in
      (
        _,
        rw (claimed, crashed_run_once, granted, crashed_claim, crash) refl,
        record_attempt-recoverable py claim.step.run_id claim.step.id
            (attempter py dump_result settings moments claim) claimed_db run found running now step
            granted tool_free free,
      )
