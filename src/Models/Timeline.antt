-- ===== src/Models/Timeline.antt =====
-- crashsafe/models.py: the views of a timeline.
use crashsafe.Prelude.{ℕ, String, Option, List, ℤ}
use crashsafe.Models.{Datetime, WorkflowRunStatus, StepName, EventType}

pub record TimelineEntry : Type 0 where
  pub sequence : ℕ
  pub elapsed_ms : ℤ
  pub occurred_at : Datetime
  pub event_type : EventType
  pub step_id : Option String
  pub operation : Option StepName
  pub attempt : Option ℕ
  pub worker_id : Option String
  pub fence_token : Option ℕ
  pub wait_ms : Option ℕ
  pub detail : Option String

pub record TimelineSummary : Type 0 where
  pub status : WorkflowRunStatus
  pub duration_ms : ℤ
  pub attempts : ℕ
  pub retries : ℕ
  pub planned_wait_ms : ℕ
  pub step_duration_ms : List (String × ℤ)

pub record WorkflowRunTimeline : Type 0 where
  pub run_id : String
  pub entries : List TimelineEntry
  pub summary : TimelineSummary
