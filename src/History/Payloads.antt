-- ===== src/History/Payloads.antt =====
-- crashsafe/history.py: the payload registry, the schema versions and `_require_payload`.
-- `Pydantic` holds what the code takes from pydantic: validation of a stored payload against the
-- class of its event type, and the dump of a payload, which validates to the payload again.
use crashsafe.Prelude.{
  ℕ, String, Bool, true, false, ◌||◌, ◌≡◌, Option, none, some, ◌==◌, Result, ok, err, str_eq,
}
use crashsafe.Models.Values.{Json}
use crashsafe.Models.{
  EventType, workflow_run_created, step_attempt_started, step_retry_scheduled, step_completed,
  step_failed, workflow_run_completed, workflow_run_failed, StepRequest, WorkflowRunCreatedPayload,
  StepAttemptStartedPayload, EventPayload, created_payload, attempt_payload, retry_payload,
  completed_payload, failed_payload, run_completed_payload, run_failed_payload,
}
use crashsafe.History.Definitions.{HistoryIntegrityError, wrong_payload}

-- PAYLOAD_MODELS: the event type whose class a payload has.
abbrev pub type_of : EventPayload → EventType
type_of (created_payload p) = workflow_run_created
type_of (attempt_payload p) = step_attempt_started
type_of (retry_payload error next) = step_retry_scheduled
type_of (completed_payload output) = step_completed
type_of (failed_payload error) = step_failed
type_of run_completed_payload = workflow_run_completed
type_of (run_failed_payload step error) = workflow_run_failed

pub record Pydantic : Type 0 where
  pub validate : EventType → Json → Option EventPayload
  pub dump : EventPayload → Json
  pub dump_request : StepRequest → Json
  pub validate-dump : (p : EventPayload) → validate (type_of p) (dump p) ≡ some p

abbrev pub event_schema_version : ℕ
event_schema_version = 1

abbrev pub attempt_event_schema_version : ℕ
attempt_event_schema_version = 2

abbrev pub workflow_run_created_schema_version : ℕ
workflow_run_created_schema_version = 3

-- SUPPORTED_EVENT_SCHEMA_VERSIONS
abbrev pub supported : ℕ → Bool
supported v =
    v == event_schema_version
    || (v == attempt_event_schema_version || v == workflow_run_created_schema_version)

abbrev pub is_none {ℓ} : {A : Type ℓ} → Option A → Bool
is_none none = true
is_none (some a) = false

-- `a == b` where `a` may be None
abbrev pub opt_str_eq : Option String → String → Bool
opt_str_eq none t = false
opt_str_eq (some s) t = str_eq s t

unfoldable pub parse_payload : Pydantic → EventType → Json → Option EventPayload
parse_payload py event_type payload = py.validate event_type payload

-- `_require_payload`, at each class that the reducer asks for
abbrev pub require_created : EventPayload → Result HistoryIntegrityError WorkflowRunCreatedPayload
require_created (created_payload p) = ok p
require_created _ = err wrong_payload

abbrev pub require_started : EventPayload → Result HistoryIntegrityError StepAttemptStartedPayload
require_started (attempt_payload p) = ok p
require_started _ = err wrong_payload

abbrev pub require_retry : EventPayload → Result HistoryIntegrityError (String × ℕ)
require_retry (retry_payload error next) = ok (error, next)
require_retry _ = err wrong_payload

abbrev pub require_completed : EventPayload → Result HistoryIntegrityError Json
require_completed (completed_payload output) = ok output
require_completed _ = err wrong_payload

abbrev pub require_failed : EventPayload → Result HistoryIntegrityError String
require_failed (failed_payload error) = ok error
require_failed _ = err wrong_payload

abbrev pub require_run_completed : EventPayload → Result HistoryIntegrityError (Unit {0})
require_run_completed run_completed_payload = ok tt
require_run_completed _ = err wrong_payload

abbrev pub require_run_failed : EventPayload → Result HistoryIntegrityError (String × String)
require_run_failed (run_failed_payload step error) = ok (step, error)
require_run_failed _ = err wrong_payload
