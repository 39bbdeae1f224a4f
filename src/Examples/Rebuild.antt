-- ===== src/Examples/Rebuild.antt =====
-- `validate_graph` and `rebuild_projection` at the run of `Runs`.
use crashsafe.Prelude.{
  ◌≡◌, refl, [], ◌∷◌, ok, str_eq, contains, subset, has_duplicates, to_set, find?, where_rows,
  update_rows,
}
use crashsafe.Models.{WorkflowRun, WorkflowRunStatus}
use crashsafe.Models.Graph.{validate_graph}
use crashsafe.Storage.Rebuild.{rebuild_projection}
use crashsafe.History.Definitions.{
  operation_key_of, check_definitions, remaining, visit_ready, validate_definitions,
}
use crashsafe.History.Transitions.{step_of_definition}
use crashsafe.Storage.Db.{
  Db, transaction, step_rows, find_run, get_step_row, update_step, update_run, dependencies,
  has_incomplete_dependency, step_from_row, workflow_run_from_rows, max_sequence, append_event,
}
use crashsafe.Storage.Reads.{events_of, get_workflow_run, order_by_position, insert_by_position}
use crashsafe.Storage.Create.{
  definitions_from, insert_run, insert_step, insert_steps, insert_dependency,
  insert_dependencies_of, insert_dependencies, create_body, create_workflow_run,
}
use crashsafe.Storage.Claims.{
  get_lease, get_tool_throttle, eligible, candidates, first_in_order, select_runnable, upsert_lease,
  lease_for, claim_runnable_step_body, claim_runnable_step,
}
use crashsafe.Storage.Attempts.{
  require_lease, require_active_attempt, record_attempt_body, schedule_retry_body, fail_step_body,
  complete_step_body, record_attempt, schedule_retry, fail_step, complete_step, remaining_steps,
  complete_run_if_done,
}
use crashsafe.Storage.Projection.Match.{ProjectionMatchesHistory}
use crashsafe.Storage.Projection.Commit.{perform}
use crashsafe.Storage.Leases.{lease_call}
use crashsafe.Examples.Codec.{codec}
use crashsafe.Examples.Events.{pay_pending, mail_pending}
use crashsafe.Examples.Runs.{signup}
use crashsafe.Prelude.{◌↔◌}
use crashsafe.Models.Values.{json_eq, items_eq, fields_eq}
use crashsafe.History.Payloads.{parse_payload}
use crashsafe.History.Transitions.{
  created_run, create_run, complete_run, fail_run, completed_ids, index_from, find_step,
  find_step_with_index, advance_step, advance_run_step, advance, attempted, broken,
}
use crashsafe.History.{fold_event, fold_events, next_run, check_final, reduce_workflow_run_history}
use crashsafe.History.Agreement.{validate_graph_agrees}
use crashsafe.Storage.Reads.{list_events, order_by_sequence, insert_by_sequence}
use crashsafe.Storage.Rebuild.{
  rebuild_body, creation_of, delete_run, insert_rebuilt_steps, insert_rebuilt_dependencies,
}
use crashsafe.Storage.Projection.Recovery.{rebuild_projection-ProjectionMatchesHistory}
use crashsafe.Storage.Leases.{fence_of}
use crashsafe.Storage.Refence.{rebuild_projection-fence_of}
use crashsafe.Examples.Storage.{new_run, failed_db, signup-nonempty}

validate_graph_agrees_example :
    (validate_graph signup ≡ ok signup)
    ↔ (validate_definitions "r1" (definitions_from codec "r1" "tool" 0 signup.steps) ≡ ok tt)
validate_graph_agrees_example = validate_graph_agrees codec "r1" "tool" signup signup-nonempty

-- a projection that lost its rows
abbrev pub lost_db : Db
lost_db = record failed_db { workflow_runs = []; steps = []; step_dependencies = [] }

abbrev failed_run : WorkflowRun
failed_run = record new_run {
  status = WorkflowRunStatus.failed;
  steps = broken (attempted pay_pending 1 7) "declined" 8 ∷ mail_pending ∷ [];
  updated_at = 8;
}

lost-rebuilt : (rebuild_projection codec "r1" (λ d. d) lost_db).0 ≡ ok failed_run
unfolding str_eq contains subset has_duplicates to_set find? where_rows update_rows operation_key_of
    check_definitions remaining visit_ready validate_definitions transaction step_rows find_run
    dependencies has_incomplete_dependency step_from_row workflow_run_from_rows max_sequence
    append_event events_of get_workflow_run order_by_position insert_by_position definitions_from
    insert_run insert_step insert_steps insert_dependency insert_dependencies_of insert_dependencies
    create_body create_workflow_run get_lease get_tool_throttle eligible candidates first_in_order
    select_runnable upsert_lease lease_for claim_runnable_step_body claim_runnable_step get_step_row
    update_step update_run require_lease require_active_attempt record_attempt_body
    schedule_retry_body fail_step_body complete_step_body record_attempt schedule_retry fail_step
    complete_step perform remaining_steps complete_run_if_done lease_call step_of_definition
    rebuild_projection rebuild_body creation_of delete_run insert_rebuilt_steps
    insert_rebuilt_dependencies list_events order_by_sequence insert_by_sequence parse_payload
    json_eq items_eq fields_eq created_run create_run complete_run fail_run completed_ids index_from
    find_step find_step_with_index advance_step advance_run_step advance fold_event fold_events
    next_run check_final reduce_workflow_run_history
lost-rebuilt = refl

rebuild_projection-ProjectionMatchesHistory_example :
    ProjectionMatchesHistory codec "r1" (rebuild_projection codec "r1" (λ d. d) lost_db).1
    × (get_workflow_run (rebuild_projection codec "r1" (λ d. d) lost_db).1 "r1" ≡ ok failed_run)
rebuild_projection-ProjectionMatchesHistory_example =
    rebuild_projection-ProjectionMatchesHistory codec "r1" (λ d. d) lost_db failed_run refl
      lost-rebuilt

rebuild_projection-fence_of_example :
    (fence_of (rebuild_projection codec "r1" (λ d. d) lost_db).1 "r1" ≡ 0)
    × ((lease_for (rebuild_projection codec "r1" (λ d. d) lost_db).1 "r1" "w3" 10 30).fence_token
        ≡ 1)
rebuild_projection-fence_of_example =
    rebuild_projection-fence_of codec "r1" (λ d. d) lost_db failed_run lost-rebuilt "w3" 10 30

pub rebuilt-ProjectionMatchesHistory :
    ProjectionMatchesHistory codec "r1" (rebuild_projection codec "r1" (λ d. d) lost_db).1
rebuilt-ProjectionMatchesHistory =
    (rebuild_projection-ProjectionMatchesHistory codec "r1" (λ d. d) lost_db failed_run refl
      lost-rebuilt).0
