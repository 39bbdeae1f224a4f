-- ===== src/Engine/Release.antt =====
-- `run_once` gives its lease up, on every path.
use crashsafe.Prelude.{
  arith, ℕ, String, Bool, false, ◌&&◌, ◌≡◌, refl, some, List, [], ◌∷◌, ok, ltb, any, update_rows,
}
use crashsafe.Models.Values.{Json}
use crashsafe.Models.{Datetime, StepRecord, ClaimedStep, WorkflowRunLease, ToolResult}
use crashsafe.History.Payloads.{Pydantic}
use crashsafe.Storage.Db.{Db}
use crashsafe.Storage.Claims.{owned_lease, claim_runnable_step, release_lease}
use crashsafe.Engine.{ToolOutcome, Settings, Moments, run_claim, run_once}

abbrev pub is_live : String → String → ℕ → Datetime → WorkflowRunLease → Bool
is_live run_id owner_id fence_token now l =
    owned_lease run_id owner_id fence_token l && ltb now l.lease_expires_at

released :
    (run_id owner_id : String) (token : ℕ) (now : Datetime) (ls : List WorkflowRunLease)
    → any (is_live run_id owner_id token now) (
        update_rows
          (owned_lease run_id owner_id token)
          (λ l. record l { lease_expires_at = now; updated_at = now })
          ls)
      ≡ false
unfolding update_rows
released run_id owner_id token now [] = refl
released run_id owner_id token now (l ∷ ls) = ground (arith, released run_id owner_id token now ls)

module _ (py : Pydantic) (dump_result : ToolResult → Json) (settings : Settings) (moments : Moments)
    (worker_id : String) (gateway : StepRecord → ToolOutcome) (between : Db → Db) (db : Db)
    (claim : ClaimedStep)
    (claimed : (claim_runnable_step worker_id settings.lease_ttl moments.claim db).0
      ≡ ok (some claim)) where
  -- When `run_once` has claimed a step, then however it ends (completed, retried, failed, lease lost
  -- or with an exception), the lease of the claim is not live at its last clock reading: the run
  -- waits for no expiry.
  pub run_once_releases :
      any
        (is_live claim.step.run_id claim.lease.owner_id claim.lease.fence_token moments.release)
        (run_once py dump_result settings moments worker_id gateway between
          db).1.workflow_run_leases
      ≡ false
  unfolding run_once release_lease
  run_once_releases =
      let middle =
        (run_claim py dump_result settings moments gateway between claim
          (claim_runnable_step worker_id settings.lease_ttl moments.claim db).1).1 in
      ground (
        arith,
        claimed,
        released claim.step.run_id claim.lease.owner_id claim.lease.fence_token moments.release
            middle.workflow_run_leases,
      )
