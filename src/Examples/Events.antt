-- ===== src/Examples/Events.antt =====
-- A history of the run of `Runs`: the payment completes, the mail is retried and fails, and the run
-- with it.
use crashsafe.Prelude.{ℕ, String, Option, none, some, List, [], ◌∷◌}
use crashsafe.Models.Values.{Json, string}
use crashsafe.Models.{
  StepName, WorkflowRunStatus, EventType, workflow_run_created, step_attempt_started,
  step_retry_scheduled, step_completed, step_failed, workflow_run_failed, EventPayload,
  created_payload, attempt_payload, retry_payload, completed_payload, failed_payload,
  run_failed_payload, charge_step, notify_step, StepRecord, WorkflowRun, WorkflowRunEvent,
}
use crashsafe.History.Transitions.{step_of_definition, attempted, waiting, finished, broken}
use crashsafe.Examples.Codec.{codec}
use crashsafe.Examples.Runs.{signup_created}

abbrev pub event :
    ℕ → EventType → ℕ → Option String → Option ℕ → EventPayload → ℕ → WorkflowRunEvent
event n event_type version step_id attempt payload at = record {
  id = n;
  run_id = "r1";
  sequence = n;
  event_type = event_type;
  schema_version = version;
  step_id = step_id;
  attempt = attempt;
  payload = codec.dump payload;
  occurred_at = at;
}

abbrev pub pay_request : Json
pay_request = codec.dump_request (charge_step (record { customer_id = "c1"; amount_cents = 2 }))

abbrev pub mail_request : Json
mail_request =
    codec.dump_request
      (notify_step (record { customer_id = "c1"; email = "a@b"; message = "welcome" }))

abbrev pub pay_attempt : EventPayload
pay_attempt = attempt_payload (record {
  operation = StepName.charge;
  request = pay_request;
  operation_key = "r1:pay";
  worker_id = some "w1";
  fence_token = some 1;
})

abbrev pub mail_attempt : EventPayload
mail_attempt = attempt_payload (record {
  operation = StepName.notify;
  request = mail_request;
  operation_key = "r1:mail";
  worker_id = some "w1";
  fence_token = some 1;
})

-- The payment done, and the mail waiting for its second attempt.
abbrev pub early_events : List WorkflowRunEvent
early_events =
    event 1 workflow_run_created 3 none none (created_payload signup_created) 5
    ∷ event 2 step_attempt_started 2 (some "pay") (some 1) pay_attempt 7
    ∷ event 3 step_completed 1 (some "pay") (some 1) (completed_payload (string "paid")) 8
    ∷ event 4 step_attempt_started 2 (some "mail") (some 1) mail_attempt 9
    ∷ event 5 step_retry_scheduled 1 (some "mail") (some 1) (retry_payload "busy" 12) 10
    ∷ []

-- The second attempt fails.
abbrev pub attempt_event : WorkflowRunEvent
attempt_event = event 6 step_attempt_started 2 (some "mail") (some 2) mail_attempt 12

abbrev pub late_events : List WorkflowRunEvent
late_events =
    attempt_event
    ∷ event 7 step_failed 1 (some "mail") (some 2) (failed_payload "no such address") 13
    ∷ event 8 workflow_run_failed 1 (some "mail") none (run_failed_payload "mail" "no such address")
        13
    ∷ []

abbrev pub pay_pending : StepRecord
pay_pending = step_of_definition "r1" 5 (record {
  id = "pay";
  position = 0;
  operation = StepName.charge;
  depends_on = [];
  request = pay_request;
  operation_key = "r1:pay";
  tool_key = "tool";
})

abbrev pub mail_pending : StepRecord
mail_pending = step_of_definition "r1" 5 (record {
  id = "mail";
  position = 1;
  operation = StepName.notify;
  depends_on = "pay" ∷ [];
  request = mail_request;
  operation_key = "r1:mail";
  tool_key = "tool";
})

abbrev pub pay_done : StepRecord
pay_done = finished (attempted pay_pending 1 7) (string "paid") 8

abbrev pub mail_waiting : StepRecord
mail_waiting = waiting (attempted mail_pending 1 9) "busy" 12 10

abbrev pub mail_broken : StepRecord
mail_broken = broken (attempted mail_waiting 2 12) "no such address" 13

abbrev pub early_run : WorkflowRun
early_run = record {
  run_id = "r1";
  name = "signup";
  status = WorkflowRunStatus.running;
  steps = pay_done ∷ mail_waiting ∷ [];
  created_at = 5;
  updated_at = 5;
  completed_at = none;
}

abbrev pub late_run : WorkflowRun
late_run = record {
  run_id = "r1";
  name = "signup";
  status = WorkflowRunStatus.failed;
  steps = pay_done ∷ mail_broken ∷ [];
  created_at = 5;
  updated_at = 13;
  completed_at = none;
}
