-- ===== src/Examples/Worker.antt =====
-- The worker's loops and the handlers at the run of `Runs`.
use crashsafe.Prelude.{
  ◌≡◌, ◌≢◌, refl, [], ◌∷◌, ok, str_eq, contains, subset, has_duplicates, to_set, find?, where_rows,
  update_rows,
}
use crashsafe.Models.Graph.{check_steps, visit_all, visit, ready_ids, without, validate_graph}
use crashsafe.Storage.Rebuild.{rebuild_projection}
use crashsafe.History.Definitions.{
  operation_key_of, check_definitions, remaining, visit_ready, validate_definitions,
}
use crashsafe.History.Transitions.{step_of_definition}
use crashsafe.Storage.Db.{
  Db, new_db, transaction, step_rows, find_run, get_step_row, update_step, update_run, dependencies,
  has_incomplete_dependency, step_from_row, workflow_run_from_rows, max_sequence, append_event,
}
use crashsafe.Storage.Reads.{events_of, get_workflow_run, order_by_position, insert_by_position}
use crashsafe.Storage.Create.{
  definitions_from, insert_run, insert_step, insert_steps, insert_dependency,
  insert_dependencies_of, insert_dependencies, create_body, create_workflow_run,
}
use crashsafe.Storage.Claims.{
  get_lease, get_tool_throttle, eligible, candidates, first_in_order, select_runnable, upsert_lease,
  lease_for, claim_runnable_step_body, claim_runnable_step,
}
use crashsafe.Storage.Attempts.{
  require_lease, require_active_attempt, record_attempt_body, schedule_retry_body, fail_step_body,
  complete_step_body, record_attempt, schedule_retry, fail_step, complete_step, remaining_steps,
  complete_run_if_done,
}
use crashsafe.Storage.Projection.Commit.{perform}
use crashsafe.Storage.Leases.{lease_call}
use crashsafe.Storage.Leases.{claims, lease_call}
use crashsafe.Storage.Projection.Lifetime.{stays, leases}
use crashsafe.Examples.Codec.{codec}
use crashsafe.Examples.Runs.{signup, created_db}
use crashsafe.Models.Values.{json_eq, items_eq, fields_eq}
use crashsafe.History.Payloads.{parse_payload}
use crashsafe.History.Transitions.{
  created_run, create_run, complete_run, fail_run, completed_ids, index_from, find_step,
  find_step_with_index, advance_step, advance_run_step, advance,
}
use crashsafe.History.{fold_event, fold_events, next_run, check_final, reduce_workflow_run_history}
use crashsafe.Storage.Reads.{list_events, order_by_sequence, insert_by_sequence}
use crashsafe.Storage.Rebuild.{
  rebuild_body, creation_of, delete_run, insert_rebuilt_steps, insert_rebuilt_dependencies,
}
use crashsafe.Examples.Storage.{new_run, new_db-IsFresh, signup-nonempty}
use crashsafe.Examples.Rebuild.{lost_db, rebuilt-ProjectionMatchesHistory}
use crashsafe.Prelude.{true, false, some, pos, finite}
use crashsafe.Models.Values.{Json, string}
use crashsafe.Models.{StepRecord, ToolResult}
use crashsafe.Engine.{
  ToolOutcome, answered, Settings, Moments, retry_delay, handle_retryable_failure, commit_outcome,
  run_claim, run_once,
}
use crashsafe.Storage.Claims.{release_lease, renew_lease}
use crashsafe.Worker.{Round, returned, still_running, run_forever, run_until_terminal}
use crashsafe.Worker.Draining.{run_forever-drains}
use crashsafe.Worker.Exits.{Says, run_until_terminal-Says, run_until_terminal_ends}
use crashsafe.Api.{created, post_workflow_run}
use crashsafe.Api.Reading.{Agree, get_timeline-Agree, post_workflow_run-Agree}
use crashsafe.Examples.Timeline.{shown}

abbrev settings : Settings
settings = record {
  lease_ttl = 10;
  max_attempts = 3;
  base_backoff = finite (pos 2);
  max_backoff = finite (pos 30);
}

abbrev dump_result : ToolResult → Json
dump_result result = string result.reference_id

abbrev moments : Moments
moments = record {
  claim = 6;
  attempt = 7;
  attempt_checked = 7;
  answer = λ delay. some 9;
  commit = 9;
  commit_checked = 9;
  release = 10;
}

abbrev serves : StepRecord → ToolOutcome
serves step =
    answered (record { operation = step.operation; reference_id = "ref"; deduplicated = false })

-- a turn that makes the payment
abbrev pays : Round
pays = record {
  drain_requested = false;
  clock = 1;
  moments = moments;
  gateway = serves;
  between = λ db. db;
  since = λ db. db;
}

abbrev draining : Round
draining = record pays { drain_requested = true; clock = 2 }

abbrev paid_db : Db
paid_db = (run_forever codec dump_result settings "w1" (pays ∷ []) created_db).1

pays-still_running :
    run_forever codec dump_result settings "w1" (pays ∷ []) created_db ≡ (still_running, paid_db)
unfolding run_forever run_once run_claim commit_outcome handle_retryable_failure retry_delay
    release_lease renew_lease str_eq contains subset has_duplicates to_set find? where_rows
    update_rows operation_key_of check_definitions remaining visit_ready validate_definitions
    transaction step_rows find_run dependencies has_incomplete_dependency step_from_row
    workflow_run_from_rows max_sequence append_event events_of get_workflow_run order_by_position
    insert_by_position definitions_from insert_run insert_step insert_steps insert_dependency
    insert_dependencies_of insert_dependencies create_body create_workflow_run get_lease
    get_tool_throttle eligible candidates first_in_order select_runnable upsert_lease lease_for
    claim_runnable_step_body claim_runnable_step get_step_row update_step update_run require_lease
    require_active_attempt record_attempt_body schedule_retry_body fail_step_body complete_step_body
    record_attempt schedule_retry fail_step complete_step perform remaining_steps
    complete_run_if_done lease_call step_of_definition rebuild_projection rebuild_body creation_of
    delete_run insert_rebuilt_steps insert_rebuilt_dependencies list_events order_by_sequence
    insert_by_sequence parse_payload json_eq items_eq fields_eq created_run create_run complete_run
    fail_run completed_ids index_from find_step find_step_with_index advance_step advance_run_step
    advance fold_event fold_events next_run check_final reduce_workflow_run_history
pays-still_running = refl

run_forever-drains_example :
    run_forever codec dump_result settings "w1" (pays ∷ draining ∷ pays ∷ []) created_db
    ≡ (returned 0, paid_db)
run_forever-drains_example =
    run_forever-drains codec dump_result settings "w1" (pays ∷ []) (pays ∷ []) draining created_db
      paid_db pays-still_running refl

run_until_terminal-Says_example :
    Says "r1"
      (run_until_terminal codec dump_result settings "w1" "r1" 30
        (pays ∷ draining ∷ [])
        created_db).0
      (run_until_terminal codec dump_result settings "w1" "r1" 30
        (pays ∷ draining ∷ [])
        created_db).1
run_until_terminal-Says_example =
    run_until_terminal-Says codec dump_result settings "w1" "r1" 30 (pays ∷ draining ∷ [])
      created_db

run_until_terminal_ends_example :
    (run_until_terminal codec dump_result settings "w1" "r1" 30 (pays ∷ draining ∷ []) created_db).0
    ≢ still_running
run_until_terminal_ends_example =
    run_until_terminal_ends codec dump_result settings "w1" "r1" 30 (pays ∷ draining ∷ [])
      created_db refl

posted : (post_workflow_run codec "r1" 5 "tool" signup new_db).0 ≡ created new_run
unfolding post_workflow_run check_steps visit_all visit ready_ids without validate_graph str_eq
    contains subset has_duplicates to_set find? where_rows update_rows operation_key_of
    check_definitions remaining visit_ready validate_definitions transaction step_rows find_run
    dependencies has_incomplete_dependency step_from_row workflow_run_from_rows max_sequence
    append_event events_of get_workflow_run order_by_position insert_by_position definitions_from
    insert_run insert_step insert_steps insert_dependency insert_dependencies_of insert_dependencies
    create_body create_workflow_run get_lease get_tool_throttle eligible candidates first_in_order
    select_runnable upsert_lease lease_for claim_runnable_step_body claim_runnable_step get_step_row
    update_step update_run require_lease require_active_attempt record_attempt_body
    schedule_retry_body fail_step_body complete_step_body record_attempt schedule_retry fail_step
    complete_step perform remaining_steps complete_run_if_done lease_call step_of_definition
    rebuild_projection rebuild_body creation_of delete_run insert_rebuilt_steps
    insert_rebuilt_dependencies list_events order_by_sequence insert_by_sequence parse_payload
    json_eq items_eq fields_eq created_run create_run complete_run fail_run completed_ids index_from
    find_step find_step_with_index advance_step advance_run_step advance fold_event fold_events
    next_run check_final reduce_workflow_run_history
posted = refl

post_workflow_run-Agree_example :
    (validate_graph signup ≡ ok signup)
    × Agree shown codec "r1"
        (lease_call (claims "w1" 10 6) (post_workflow_run codec "r1" 5 "tool" signup new_db).1)
post_workflow_run-Agree_example =
    post_workflow_run-Agree shown codec "r1" 5 "tool" signup new_db new_run _ new_db-IsFresh
      signup-nonempty posted
      (leases (post_workflow_run codec "r1" 5 "tool" signup new_db).1 (claims "w1" 10 6) stays)

get_timeline-Agree_example :
    Agree shown codec "r1" (rebuild_projection codec "r1" (λ d. d) lost_db).1
get_timeline-Agree_example =
    get_timeline-Agree shown codec "r1" (rebuild_projection codec "r1" (λ d. d) lost_db).1
      rebuilt-ProjectionMatchesHistory
