-- ===== src/Examples/Storage.antt =====
-- The agreement of tables and history at the run of `Runs`: created, claimed, attempted and failed.
use crashsafe.Prelude.{
  ◌≡◌, ◌≢◌, refl, none, some, [], ◌∷◌, ok, str_eq, contains, subset, has_duplicates, to_set, find?,
  where_rows, update_rows,
}
use crashsafe.Models.{WorkflowRun, WorkflowRunStatus}
use crashsafe.Models.Graph.{check_steps, visit_all, visit, ready_ids, without, validate_graph}
use crashsafe.Storage.Rebuild.{rebuild_projection}
use crashsafe.History.Definitions.{
  operation_key_of, check_definitions, remaining, visit_ready, validate_definitions,
}
use crashsafe.History.Transitions.{step_of_definition}
use crashsafe.Storage.Db.{
  Db, new_db, transaction, step_rows, find_run, get_step_row, update_step, update_run, dependencies,
  has_incomplete_dependency, step_from_row, workflow_run_from_rows, max_sequence, append_event,
}
use crashsafe.Storage.Reads.{
  events_of, list_events, get_workflow_run, order_by_position, insert_by_position,
}
use crashsafe.Storage.Create.{
  definitions_from, insert_run, insert_step, insert_steps, insert_dependency,
  insert_dependencies_of, insert_dependencies, create_body, create_workflow_run,
}
use crashsafe.Storage.Claims.{
  get_lease, get_tool_throttle, eligible, candidates, first_in_order, select_runnable, upsert_lease,
  lease_for, claim_runnable_step_body, claim_runnable_step,
}
use crashsafe.Storage.Attempts.{
  require_lease, require_active_attempt, record_attempt_body, schedule_retry_body, fail_step_body,
  complete_step_body, record_attempt, schedule_retry, fail_step, complete_step, remaining_steps,
  complete_run_if_done,
}
use crashsafe.Storage.Projection.Match.{ProjectionMatchesHistory}
use crashsafe.Storage.Projection.Commit.{records_attempt, fails_step, perform}
use crashsafe.Storage.Leases.{claims, lease_call}
use crashsafe.Storage.Projection.Creation.{IsFresh}
use crashsafe.Storage.Projection.Isolation.{transition, creation, OnRun-reads}
use crashsafe.Storage.Projection.Lifetime.{
  Leads, stays, calls, leases, rebuilds, elsewhere, Leads-ProjectionMatchesHistory,
}
use crashsafe.Examples.Codec.{codec}
use crashsafe.Examples.Events.{pay_pending, mail_pending}
use crashsafe.Examples.Runs.{signup, signup_row, created_db, by_w1}

abbrev pub new_run : WorkflowRun
new_run = record {
  run_id = "r1";
  name = "signup";
  status = WorkflowRunStatus.running;
  steps = pay_pending ∷ mail_pending ∷ [];
  created_at = 5;
  updated_at = 5;
  completed_at = none;
}

pub new_db-IsFresh : IsFresh "r1" new_db
unfolding step_rows where_rows events_of
new_db-IsFresh = record { steps = refl; dependencies = λ step_id. refl; events = refl }

abbrev pub leased_db : Db
leased_db = lease_call (claims "w1" 10 6) created_db

abbrev pub started_db : Db
started_db = perform codec "r1" "pay" (by_w1 7) records_attempt leased_db

abbrev pub failed_db : Db
failed_db = perform codec "r1" "pay" (by_w1 8) (fails_step "declined") started_db

-- What the creation and the calls compute to.
pub record StorageFacts : Type 0 where
  accepted : validate_graph signup ≡ ok signup
  pub created : (create_workflow_run codec "r1" 5 "tool" signup none new_db).0 ≡ ok new_run
  pub running_at_start : find_run leased_db "r1" ≡ some signup_row
  running_at_failure : find_run started_db "r1" ≡ some signup_row
  failed :
      find_run failed_db "r1"
      ≡ some (record signup_row { status = WorkflowRunStatus.failed; updated_at = 8 })

pub storage_facts : StorageFacts
unfolding str_eq contains subset has_duplicates to_set find? where_rows update_rows operation_key_of
    check_definitions remaining visit_ready validate_definitions check_steps visit_all visit
    ready_ids without validate_graph transaction step_rows find_run dependencies
    has_incomplete_dependency step_from_row workflow_run_from_rows max_sequence append_event
    events_of get_workflow_run order_by_position insert_by_position definitions_from insert_run
    insert_step insert_steps insert_dependency insert_dependencies_of insert_dependencies
    create_body create_workflow_run get_lease get_tool_throttle eligible candidates first_in_order
    select_runnable upsert_lease lease_for claim_runnable_step_body claim_runnable_step get_step_row
    update_step update_run require_lease require_active_attempt record_attempt_body
    schedule_retry_body fail_step_body complete_step_body record_attempt schedule_retry fail_step
    complete_step perform remaining_steps complete_run_if_done lease_call step_of_definition
storage_facts = record {
  accepted = refl;
  created = refl;
  running_at_start = refl;
  running_at_failure = refl;
  failed = refl;
}

pub start-Leads : Leads codec "r1" created_db started_db
start-Leads =
    calls leased_db signup_row "pay" (by_w1 7) records_attempt
      (leases created_db (claims "w1" 10 6) stays) storage_facts.running_at_start refl

failure-Leads : Leads codec "r1" created_db failed_db
failure-Leads =
    calls started_db signup_row "pay" (by_w1 8) (fails_step "declined") start-Leads
      storage_facts.running_at_failure refl

pub signup-nonempty : signup.steps ≢ []
signup-nonempty h = cc

abbrev rebuilt_db : Db
rebuilt_db = (rebuild_projection codec "r1" (λ d. d) failed_db).1

-- a second run of the same workflow
abbrev joined_db : Db
joined_db = (create_workflow_run codec "r2" 9 "tool" signup none rebuilt_db).1

Leads-ProjectionMatchesHistory_example : ProjectionMatchesHistory codec "r1" joined_db
unfolding str_eq
Leads-ProjectionMatchesHistory_example =
    Leads-ProjectionMatchesHistory codec "r1" 5 "tool" signup none new_db new_run joined_db
      new_db-IsFresh signup-nonempty storage_facts.accepted storage_facts.created
      (elsewhere rebuilt_db joined_db "r2" (rebuilds failed_db failure-Leads) refl
        (creation 9 "tool" signup none))

OnRun-reads_example :
    (get_workflow_run failed_db "r2" ≡ get_workflow_run started_db "r2")
    × (list_events failed_db "r2" ≡ list_events started_db "r2")
unfolding str_eq
OnRun-reads_example =
    OnRun-reads codec "r2" "r1" started_db failed_db refl
      (transition "pay" (by_w1 8) (fails_step "declined"))
