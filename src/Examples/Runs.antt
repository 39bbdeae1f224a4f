-- ===== src/Examples/Runs.antt =====
-- A run of two steps, the second after the first: its creation and its life.
use crashsafe.Prelude.{ℕ, none, some, [], ◌∷◌}
use crashsafe.Models.{
  StepName, StepStatus, ClaimedStep, WorkflowRunLease, WorkflowRunStatus, charge_step, notify_step,
  WorkflowDefinition, WorkflowRunCreatedPayload,
}
use crashsafe.Storage.Db.{Db, RunRow, StepRow, new_db}
use crashsafe.Storage.Create.{create_workflow_run, definitions_from, new_step}
use crashsafe.Storage.Attempts.{Caller, record_attempt}
use crashsafe.Storage.Claims.{claim_runnable_step}
use crashsafe.Examples.Codec.{codec}

abbrev pub signup : WorkflowDefinition
signup = record {
  name = "signup";
  steps =
      record {
        id = "pay";
        depends_on = [];
        request = charge_step (record { customer_id = "c1"; amount_cents = 2 });
      }
      ∷ record {
        id = "mail";
        depends_on = "pay" ∷ [];
        request = notify_step (record { customer_id = "c1"; email = "a@b"; message = "welcome" });
      }
      ∷ [];
}

abbrev pub signup_created : WorkflowRunCreatedPayload
signup_created = record {
  name = "signup";
  steps = definitions_from codec "r1" "tool" 0 signup.steps;
}

abbrev pub signup_row : RunRow
signup_row = record {
  run_id = "r1";
  name = "signup";
  status = WorkflowRunStatus.running;
  definition = signup_created;
  created_at = 5;
  updated_at = 5;
  completed_at = none;
}

-- The database after the creation, after the worker w1 claimed, and after it recorded an attempt.
abbrev pub created_db : Db
created_db = (create_workflow_run codec "r1" 5 "tool" signup none new_db).1

abbrev pub claimed_db : Db
claimed_db = (claim_runnable_step "w1" 10 6 created_db).1

abbrev pub by_w1 : ℕ → Caller
by_w1 now = record { owner_id = some "w1"; fence_token = some 1; now = now; checked_at = now }

abbrev pub attempted_db : Db
attempted_db = (record_attempt codec "r1" "pay" (by_w1 7) claimed_db).1

-- w2 takes the run over when the lease of w1, which ends at 16, has expired.
abbrev pub taken_claim : ClaimedStep
taken_claim = record {
  step = record {
    id = "pay";
    run_id = "r1";
    position = 0;
    operation = StepName.charge;
    depends_on = [];
    status = StepStatus.intent_recorded;
    request = codec.dump_request (charge_step (record { customer_id = "c1"; amount_cents = 2 }));
    operation_key = "r1:pay";
    tool_key = "tool";
    output = none;
    attempts = 1;
    next_attempt_at = none;
    last_error = none;
    created_at = 5;
    updated_at = 7;
    completed_at = none;
  };
  lease = record {
    run_id = "r1";
    owner_id = "w2";
    fence_token = 2;
    lease_expires_at = 27;
    updated_at = 17;
  };
}

abbrev pub first_lease : WorkflowRunLease
first_lease = record {
  run_id = "r1";
  owner_id = "w1";
  fence_token = 1;
  lease_expires_at = 16;
  updated_at = 6;
}

-- The row of the payment, before and after the attempt.
abbrev pub pay_row : StepRow
pay_row = new_step "r1" 5 (record {
  id = "pay";
  position = 0;
  operation = StepName.charge;
  depends_on = [];
  request = codec.dump_request (charge_step (record { customer_id = "c1"; amount_cents = 2 }));
  operation_key = "r1:pay";
  tool_key = "tool";
})

abbrev pub attempted_row : StepRow
attempted_row = record pay_row { status = StepStatus.intent_recorded; attempts = 1; updated_at = 7 }
