-- ===== src/Examples/Throttle.antt =====
-- The theorem of the shared throttle: a run of another tool is served meanwhile.
use crashsafe.Prelude.{
  arith, true, ◌≡◌, ◌≢◌, refl, some, ok, str_eq, find?, where_rows, update_rows,
}
use crashsafe.Storage.Db.{Db}
use crashsafe.History.Definitions.{operation_key_of}
use crashsafe.Storage.Db.{
  transaction, step_rows, find_run, get_step_row, update_step, update_run, dependencies,
  has_incomplete_dependency, step_from_row, workflow_run_from_rows, max_sequence, append_event,
}
use crashsafe.Storage.Create.{
  definitions_from, insert_run, insert_step, insert_steps, insert_dependency,
  insert_dependencies_of, insert_dependencies, create_body, create_workflow_run,
}
use crashsafe.Storage.Claims.{
  get_lease, get_tool_throttle, eligible, candidates, first_in_order, select_runnable, upsert_lease,
  lease_for, claim_runnable_step_body, claim_runnable_step, release_lease,
}
use crashsafe.Storage.Attempts.{
  require_lease, require_active_attempt, record_attempt_body, record_attempt,
}
use crashsafe.Storage.Leases.{lease_call, fence_of}
use crashsafe.Storage.Db.{Db, StepRow}
use crashsafe.Storage.Attempts.{schedule_retry_body, schedule_retry, upsert_throttle}
use crashsafe.Storage.Projection.Commit.{schedules_retry, perform}
use crashsafe.Storage.Deadlines.{at_once, steps}
use crashsafe.Storage.Throttle.{schedule_retry-throttles}
use crashsafe.Examples.Codec.{codec}
use crashsafe.Examples.Runs.{signup, pay_row, attempted_row, attempted_db, by_w1}

abbrev two_runs : Db
two_runs = (create_workflow_run codec "r2" 9 "tool" signup (some "other") attempted_db).1

abbrev throttled_db : Db
throttled_db = (schedule_retry codec "r1" "pay" "busy" 40 true (by_w1 10) two_runs).1

-- w1 reports the same answer once more, with a shorter delay.
abbrev later_db : Db
later_db = perform codec "r1" "pay" (by_w1 11) (schedules_retry "busy" 15 true) throttled_db

abbrev other_row : StepRow
other_row = record pay_row {
  run_id = "r2";
  operation_key = "r2:pay";
  tool_key = "other";
  created_at = 9;
  updated_at = 9;
}

record ThrottleFacts : Type 0 where
  row : get_step_row two_runs "r1" "pay" ≡ ok attempted_row
  scheduled : (schedule_retry codec "r1" "pay" "busy" 40 true (by_w1 10) two_runs).0 ≡ ok tt
  selected : select_runnable later_db 20 true ≡ some other_row

throttle_facts : ThrottleFacts
unfolding str_eq find? where_rows update_rows operation_key_of transaction step_rows find_run
    dependencies has_incomplete_dependency step_from_row workflow_run_from_rows max_sequence
    append_event definitions_from insert_run insert_step insert_steps insert_dependency
    insert_dependencies_of insert_dependencies create_body create_workflow_run get_lease
    get_tool_throttle eligible candidates first_in_order select_runnable upsert_lease lease_for
    claim_runnable_step_body claim_runnable_step get_step_row update_step update_run require_lease
    require_active_attempt record_attempt_body record_attempt lease_call fence_of release_lease
    schedule_retry_body schedule_retry upsert_throttle perform
throttle_facts = record { row = refl; scheduled = refl; selected = refl }

schedule_retry-throttles_example : other_row.tool_key ≢ attempted_row.tool_key
schedule_retry-throttles_example =
    schedule_retry-throttles codec "r1" "pay" "busy" 40 (by_w1 10) two_runs attempted_row 20
      other_row later_db throttle_facts.row throttle_facts.scheduled
      (steps throttled_db "r1" "pay" (by_w1 11) (schedules_retry "busy" 15 true) at_once)
      (omega arith) throttle_facts.selected
