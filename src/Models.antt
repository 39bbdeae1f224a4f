-- ===== src/Models.antt =====
-- crashsafe/models.py: statuses, submitted definitions, persisted payloads, records and views.
-- `Json` is a decoded JSON value. The texts are those that the program compares whole; a datetime
-- is the number of microseconds since a fixed origin.
pub mod Values
pub mod Graph
pub mod Timeline
use crashsafe.Prelude.{ℕ, String, Bool, true, false, Option, List, not, ◌&&◌}
use crashsafe.Models.Values.{Json}

abbrev pub Datetime : Type 0
Datetime = ℕ

pub data WorkflowRunStatus : Type 0 where
  running completed failed : WorkflowRunStatus

pub data StepStatus : Type 0 where
  pending intent_recorded retry_wait completed failed : StepStatus

pub data StepName : Type 0 where
  charge provision notify : StepName

pub data EventType : Type 0 where
  workflow_run_created : EventType
  step_attempt_started : EventType
  step_retry_scheduled : EventType
  step_completed : EventType
  step_failed : EventType
  workflow_run_completed : EventType
  workflow_run_failed : EventType

-- The comparisons of enum members.
abbrev pub run_status_eq : WorkflowRunStatus → WorkflowRunStatus → Bool
run_status_eq WorkflowRunStatus.running WorkflowRunStatus.running = true
run_status_eq WorkflowRunStatus.completed WorkflowRunStatus.completed = true
run_status_eq WorkflowRunStatus.failed WorkflowRunStatus.failed = true
run_status_eq _ _ = false

abbrev pub status_eq : StepStatus → StepStatus → Bool
status_eq StepStatus.pending StepStatus.pending = true
status_eq StepStatus.intent_recorded StepStatus.intent_recorded = true
status_eq StepStatus.retry_wait StepStatus.retry_wait = true
status_eq StepStatus.completed StepStatus.completed = true
status_eq StepStatus.failed StepStatus.failed = true
status_eq _ _ = false

abbrev pub step_name_eq : StepName → StepName → Bool
step_name_eq StepName.charge StepName.charge = true
step_name_eq StepName.provision StepName.provision = true
step_name_eq StepName.notify StepName.notify = true
step_name_eq _ _ = false

-- `status in {PENDING, INTENT_RECORDED, RETRY_WAIT}`
abbrev pub runnable_status : StepStatus → Bool
runnable_status StepStatus.pending = true
runnable_status StepStatus.intent_recorded = true
runnable_status StepStatus.retry_wait = true
runnable_status _ = false

pub record ChargeRequest : Type 0 where
  pub customer_id : String
  pub amount_cents : ℕ

pub record ProvisionRequest : Type 0 where
  pub customer_id : String
  pub plan : String

pub record NotifyRequest : Type 0 where
  pub customer_id : String
  pub email : String
  pub message : String

-- The union of the steps, discriminated by `operation`: the request of each.
pub data StepRequest : Type 0 where
  charge_step : ChargeRequest → StepRequest
  provision_step : ProvisionRequest → StepRequest
  notify_step : NotifyRequest → StepRequest

pub record WorkflowStep : Type 0 where
  pub id : String
  pub depends_on : List String
  pub request : StepRequest

abbrev pub operation_of : StepRequest → StepName
operation_of (charge_step r) = StepName.charge
operation_of (provision_step r) = StepName.provision
operation_of (notify_step r) = StepName.notify

pub record WorkflowDefinition : Type 0 where
  pub name : String
  pub steps : List WorkflowStep

pub record StepDefinition : Type 0 where
  pub id : String
  pub position : ℕ
  pub operation : StepName
  pub depends_on : List String
  pub request : Json
  pub operation_key : String
  pub tool_key : String

pub record WorkflowRunCreatedPayload : Type 0 where
  pub name : String
  pub steps : List StepDefinition

pub record StepAttemptStartedPayload : Type 0 where
  pub operation : StepName
  pub request : Json
  pub operation_key : String
  pub worker_id : Option String
  pub fence_token : Option ℕ

-- The subclasses of `EventPayload`.
pub data EventPayload : Type 0 where
  created_payload : WorkflowRunCreatedPayload → EventPayload
  attempt_payload : StepAttemptStartedPayload → EventPayload
  retry_payload : (error : String) (next_attempt_at : Datetime) → EventPayload
  completed_payload : (output : Json) → EventPayload
  failed_payload : (error : String) → EventPayload
  run_completed_payload : EventPayload
  run_failed_payload : (step_id error : String) → EventPayload

pub record StepRecord : Type 0 where
  pub id : String
  pub run_id : String
  pub position : ℕ
  pub operation : StepName
  pub depends_on : List String
  pub status : StepStatus
  pub request : Json
  pub operation_key : String
  pub tool_key : String
  pub output : Option Json
  pub attempts : ℕ
  pub next_attempt_at : Option Datetime
  pub last_error : Option String
  pub created_at : Datetime
  pub updated_at : Datetime
  pub completed_at : Option Datetime

pub record WorkflowRun : Type 0 where
  pub run_id : String
  pub name : String
  pub status : WorkflowRunStatus
  pub steps : List StepRecord
  pub created_at : Datetime
  pub updated_at : Datetime
  pub completed_at : Option Datetime

pub record WorkflowRunEvent : Type 0 where
  pub id : ℕ
  pub run_id : String
  pub sequence : ℕ
  pub event_type : EventType
  pub schema_version : ℕ
  pub step_id : Option String
  pub attempt : Option ℕ
  pub payload : Json
  pub occurred_at : Datetime

pub record WorkflowRunLease : Type 0 where
  pub run_id : String
  pub owner_id : String
  pub fence_token : ℕ
  pub lease_expires_at : Datetime
  pub updated_at : Datetime

pub record ClaimedStep : Type 0 where
  pub step : StepRecord
  pub lease : WorkflowRunLease

pub record ToolThrottle : Type 0 where
  pub tool_key : String
  pub blocked_until : Datetime
  pub reason : String
  pub updated_at : Datetime

pub record ToolResult : Type 0 where
  pub operation : StepName
  pub reference_id : String
  pub deduplicated : Bool
