-- ===== src/Engine/Crash.antt =====
-- crashsafe/engine.py: `FailureInjector`, and what a turn of `run_once` leaves when it exits there.
use Prim.Native.String.{◌++◌ as str_append}
use crashsafe.Prelude.{String, Bool, false, Option, none, some, ok, err, str_eq, if◌then◌else◌}
use crashsafe.Models.Values.{Json}
use crashsafe.Models.{StepName, StepRecord, ClaimedStep, ToolResult}
use crashsafe.History.Payloads.{Pydantic}
use crashsafe.Storage.Db.{Db}
use crashsafe.Storage.Attempts.{record_attempt, complete_step}
use crashsafe.Storage.Claims.{claim_runnable_step}
use crashsafe.Engine.{
  ToolOutcome, answered, retryable, permanent, unexpected, Settings, Moments, committer,
}

pub data CrashPoint : Type 0 where
  before_request after_response after_commit : CrashPoint

abbrev pub point_value : CrashPoint → String
point_value before_request = "before_request"
point_value after_response = "after_response"
point_value after_commit = "after_commit"

abbrev pub operation_value : StepName → String
operation_value StepName.charge = "charge"
operation_value StepName.provision = "provision"
operation_value StepName.notify = "notify"

-- `specification or os.getenv(...)`: an empty string counts as none
abbrev pub injector_specification : Option String → Option String → Option String
injector_specification none environment = environment
injector_specification (some specification) environment =
    if str_eq specification "" then environment else some specification

-- the test of `crash_if_requested`; it exits the process with `os._exit`
abbrev pub crash_requested : Option String → StepRecord → CrashPoint → Bool
crash_requested none step point = false
crash_requested (some specification) step point =
    str_eq specification
      (str_append (operation_value step.operation) (str_append ":" (point_value point)))

module _ (py : Pydantic) (dump_result : ToolResult → Json) (settings : Settings) (moments : Moments)
    (specification : Option String) where
  -- From the tool's answer on. The exceptions of the gateway pass both points by.
  unfoldable pub crashed_after_call : ClaimedStep → StepRecord → ToolOutcome → Db → Option Db
  crashed_after_call claim step (answered result) db =
      if crash_requested specification step after_response
      then some db
      else let (done, db') =
          complete_step py step.run_id step.id (dump_result result)
            (committer py dump_result settings moments claim.lease) db in
        elim done [
          | err e ↦ none
          | ok _ ↦ if crash_requested specification step after_commit then some db' else none
        ]
  crashed_after_call claim step (retryable message retry_after throttle_tool) db = none
  crashed_after_call claim step (permanent message) db = none
  crashed_after_call claim step unexpected db = none

  -- The database that a turn leaves when the process exits at a point of it: `finally` does not run.
  -- None, where the turn meets no such point.
  unfoldable pub crashed_claim :
      (StepRecord → ToolOutcome) → (Db → Db) → ClaimedStep → Db → Option Db
  crashed_claim gateway between claim db =
      let (started, db') =
        record_attempt py claim.step.run_id claim.step.id
          (record {
            owner_id = some claim.lease.owner_id;
            fence_token = some claim.lease.fence_token;
            now = moments.attempt;
            checked_at = moments.attempt_checked;
          })
          db in
      elim started [
        | err e ↦ none
        | ok step ↦
            if crash_requested specification step before_request
            then some db'
            else crashed_after_call claim step (gateway step) (between db')
      ]

  unfoldable pub crashed_run_once : String → (StepRecord → ToolOutcome) → (Db → Db) → Db → Option Db
  crashed_run_once worker_id gateway between db =
      let (claimed, db') = claim_runnable_step worker_id settings.lease_ttl moments.claim db in
      elim claimed [
        | err e ↦ none
        | ok none ↦ none
        | ok (some claim) ↦ crashed_claim gateway between claim db'
      ]
