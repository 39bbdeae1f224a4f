-- ===== src/Engine.antt =====
-- crashsafe/engine.py: the outcomes of a tool call, the retry policy and `run_once`.
-- The duration of a lease is whole microseconds, the delays are floats of seconds. Parameters: `decimal` writes a status code, `dump_result` is
-- pydantic's dump of a result, and `gateway` answers a call. `between` is what the transactions of
-- other processes and of the heartbeat do to the database while the tool runs.
pub mod Policy
pub mod Intent
pub mod Release
pub mod Running
pub mod Agreement
pub mod Crash
pub mod Durable
pub mod Recovery
use Prim.Native.String.{◌++◌ as str_append}
use crashsafe.Prelude.{
  ℕ, suc, ◌+◌, ◌-◌, ◌*◌, ◌^◌, String, Bool, true, false, ◌&&◌, Option, none, some, List, Result, ok,
  err, ltb, leb, ◌==◌, if◌then◌else◌, pos, negsuc, negate, Float, finite, infinite, minus_infinite,
  nan, less,
}
use crashsafe.Models.Values.{Json}
use crashsafe.Models.{Datetime, StepName, StepRecord, ClaimedStep, WorkflowRunLease, ToolResult}
use crashsafe.History.Payloads.{Pydantic}
use crashsafe.Storage.Db.{StorageError, lease_lost, Db}
use crashsafe.Storage.Attempts.{Caller, record_attempt, schedule_retry, fail_step, complete_step}
use crashsafe.Storage.Claims.{claim_runnable_step, release_lease}

-- What `ToolGateway.execute` returns or raises.
pub data ToolOutcome : Type 0 where
  answered : ToolResult → ToolOutcome
  retryable : (message : String) (retry_after : Option Float) (throttle_tool : Bool) → ToolOutcome
  permanent : (message : String) → ToolOutcome
  unexpected : ToolOutcome

pub record HttpResponse : Type 0 where
  pub status_code : ℕ
  -- the header, where it is there and `float` reads it
  pub retry_after : Option Float
  pub text : String
  -- the body, where it validates
  pub result : Option ToolResult

pub data HttpReply : Type 0 where
  request_error : String → HttpReply
  response : HttpResponse → HttpReply

abbrev result_or_raise : Option ToolResult → ToolOutcome
result_or_raise none = unexpected
result_or_raise (some result) = answered result

-- `HttpToolGateway.execute`, from the reply on
unfoldable pub outcome_of : (ℕ → String) → HttpReply → ToolOutcome
outcome_of decimal (request_error e) = retryable (str_append "tool transport error: " e) none false
outcome_of decimal (response r) =
    if r.status_code == 429
    then retryable "tool throttled the request" r.retry_after true
    else if r.status_code == 409
    then permanent "idempotency key was reused with a different request"
    else if leb 500 r.status_code && ltb r.status_code 600
    then retryable (str_append "tool returned HTTP " (decimal r.status_code)) none false
    else if leb 400 r.status_code && ltb r.status_code 600
    then permanent (
        str_append "tool returned HTTP "
          (str_append (decimal r.status_code) (str_append ": " r.text)))
    else result_or_raise r.result

pub record Settings : Type 0 where
  pub lease_ttl : ℕ
  pub max_attempts : ℕ
  pub base_backoff : Float
  pub max_backoff : Float

-- `min(a, b)` of floats: the first, unless the second is below it
abbrev pub min : Float → Float → Float
min a b = if less b a then b else a

-- The finite floats end below 2 ^ 1024, which is 2 ^ 2098 units.
unfoldable pub float_bound : ℕ
float_bound = 2 ^ 2098

-- `x * 2 ** n`, where `2 ** n` is a float: exact, or infinite past the largest float
unfoldable pub scaled : Float → ℕ → Float
scaled (finite (pos m)) n =
    if ltb (m * 2 ^ n) float_bound then finite (pos (m * 2 ^ n)) else infinite
scaled (finite (negsuc m)) n =
    if ltb (suc m * 2 ^ n) float_bound then finite (negate (suc m * 2 ^ n)) else minus_infinite
scaled infinite n = infinite
scaled minus_infinite n = minus_infinite
scaled nan n = nan

-- The delay after the `attempts`-th attempt, which is 1 at least once record_attempt returned. None,
-- where the power of two is too large for a float: OverflowError.
unfoldable pub retry_delay : Settings → ℕ → Option Float → Option Float
retry_delay settings attempts (some retry_after) = some retry_after
retry_delay settings attempts none =
    if ltb (attempts - 1) 1024
    then some (min (scaled settings.base_backoff (attempts - 1)) settings.max_backoff)
    else none

-- The readings of the clocks in one `run_once`. `answer` is `self.clock() + timedelta(seconds=delay)` of a
-- delay, none where that raises.
pub record Moments : Type 0 where
  pub claim : Datetime
  pub attempt : Datetime
  pub attempt_checked : Datetime
  pub answer : Float → Option Datetime
  pub commit : Datetime
  pub commit_checked : Datetime
  pub release : Datetime

pub data EngineError : Type 0 where
  storage_error : StorageError → EngineError
  gateway_error : EngineError
  -- the OverflowError or ValueError of a delay
  number_error : EngineError

pub record RunOutcome : Type 0 where
  pub did_work : Bool
  pub run_id : Option String
  pub step_name : Option StepName

abbrev pub idle : RunOutcome
idle = record { did_work = false; run_id = none; step_name = none }

abbrev pub worked : StepRecord → RunOutcome
worked step = record { did_work = true; run_id = some step.run_id; step_name = some step.operation }

-- an exception of the storage goes on
abbrev pub raised : Result StorageError (Unit {0}) → Result EngineError (Unit {0})
raised (ok done) = ok done
raised (err e) = err (storage_error e)

-- `except LeaseLostError`; any other exception goes on
abbrev pub settle :
    ClaimedStep → StepRecord → Result EngineError (Unit {0}) → Result EngineError RunOutcome
settle claim step (ok done) = ok (worked step)
settle claim step (err (storage_error lease_lost)) = ok (worked claim.step)
settle claim step (err e) = err e

-- When the step may be attempted again; none where the delay or its sum with the time raises.
unfoldable pub next_attempt : Settings → Moments → StepRecord → Option Float → Option Datetime
next_attempt settings moments step retry_after =
    elim (retry_delay settings step.attempts retry_after) [
      | none ↦ none
      | some delay ↦ moments.answer delay
    ]

module _ (py : Pydantic) (dump_result : ToolResult → Json) (settings : Settings)
    (moments : Moments) where
  abbrev pub committer : WorkflowRunLease → Caller
  committer lease = record {
    owner_id = some lease.owner_id;
    fence_token = some lease.fence_token;
    now = moments.commit;
    checked_at = moments.commit_checked;
  }

  unfoldable pub handle_retryable_failure :
      StepRecord
      → String
      → Option Float
      → Bool
      → WorkflowRunLease
      → Db
      → Result EngineError (Unit {0}) × Db
  handle_retryable_failure step message retry_after throttle_tool lease db =
      if leb settings.max_attempts step.attempts
      then (let (done, db') =
            fail_step py step.run_id step.id (str_append "retry budget exhausted: " message)
              (committer lease) db in
          (raised done, db'))
      else elim (next_attempt settings moments step retry_after) [
        | none ↦ (err number_error, db)
        | some at ↦
            let (done, db') =
              schedule_retry py step.run_id step.id message at throttle_tool (committer lease) db in
            (raised done, db')
      ]

  -- The outcome of the call, committed under the lease of the claim.
  unfoldable pub commit_outcome :
      ClaimedStep → StepRecord → ToolOutcome → Db → Result EngineError RunOutcome × Db
  commit_outcome claim step (answered result) db =
      let (done, db') =
        complete_step py step.run_id step.id (dump_result result) (committer claim.lease) db in
      (settle claim step (raised done), db')
  commit_outcome claim step (retryable message retry_after throttle_tool) db =
      let (done, db') =
        handle_retryable_failure step message retry_after throttle_tool claim.lease db in
      (settle claim step done, db')
  commit_outcome claim step (permanent message) db =
      let (done, db') = fail_step py step.run_id step.id message (committer claim.lease) db in
      (settle claim step (raised done), db')
  commit_outcome claim step unexpected db = (err gateway_error, db)

  abbrev pub not_started : ClaimedStep → StorageError → Result EngineError RunOutcome
  not_started claim lease_lost = ok (worked claim.step)
  not_started claim e = err (storage_error e)

  -- The `try` block: the intent, the call, the commit.
  unfoldable pub run_claim :
      (StepRecord → ToolOutcome) → (Db → Db) → ClaimedStep → Db → Result EngineError RunOutcome × Db
  run_claim gateway between claim db =
      let (started, db') =
        record_attempt py claim.step.run_id claim.step.id
          (record {
            owner_id = some claim.lease.owner_id;
            fence_token = some claim.lease.fence_token;
            now = moments.attempt;
            checked_at = moments.attempt_checked;
          })
          db in
      elim started [
        | err e ↦ (not_started claim e, db')
        | ok step ↦ commit_outcome claim step (gateway step) (between db')
      ]

  unfoldable pub run_once :
      String → (StepRecord → ToolOutcome) → (Db → Db) → Db → Result EngineError RunOutcome × Db
  run_once worker_id gateway between db =
      let (claimed, db') = claim_runnable_step worker_id settings.lease_ttl moments.claim db in
      elim claimed [
        | err e ↦ (err (storage_error e), db')
        | ok none ↦ (ok idle, db')
        | ok (some claim) ↦
            let (answer, db'') = run_claim gateway between claim db' in
            (
              answer,
              (release_lease claim.step.run_id claim.lease.owner_id claim.lease.fence_token
                  moments.release db'').1,
            )
      ]
