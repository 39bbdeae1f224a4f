-- ===== src/Examples/Engine.antt =====
-- The theorems of the engine: w2 takes the run over, and the tool is busy.
use crashsafe.Prelude.{
  some, pos, finite, true, false, ◌≡◌, refl, none, ok, str_eq, any, find?, where_rows, update_rows,
}
use crashsafe.Models.Values.{Json, string}
use crashsafe.Models.{StepRecord, ToolResult}
use crashsafe.Storage.Db.{Db}
use crashsafe.History.Definitions.{operation_key_of}
use crashsafe.Storage.Db.{
  transaction, step_rows, find_run, get_step_row, update_step, update_run, dependencies,
  has_incomplete_dependency, step_from_row, workflow_run_from_rows, max_sequence, append_event,
}
use crashsafe.Storage.Create.{
  definitions_from, insert_run, insert_step, insert_steps, insert_dependency,
  insert_dependencies_of, insert_dependencies, create_body, create_workflow_run,
}
use crashsafe.Storage.Claims.{
  get_lease, get_tool_throttle, eligible, candidates, first_in_order, select_runnable, upsert_lease,
  lease_for, claim_runnable_step_body, claim_runnable_step,
}
use crashsafe.Storage.Attempts.{
  require_lease, require_active_attempt, record_attempt_body, record_attempt,
}
use crashsafe.Storage.Db.{StepRow}
use crashsafe.Engine.{ToolOutcome, retryable, Settings, Moments, run_once}
use crashsafe.Engine.Intent.{IsRecorded, record_attempt-IsRecorded}
use crashsafe.Engine.Release.{is_live, run_once_releases}
use crashsafe.Examples.Codec.{codec}
use crashsafe.Examples.Runs.{claimed_db, attempted_db, by_w1, taken_claim}
use crashsafe.Examples.Leases.{run_facts}

abbrev pub settings : Settings
settings = record {
  lease_ttl = 10;
  max_attempts = 3;
  base_backoff = finite (pos 2);
  max_backoff = finite (pos 30);
}

abbrev pub moments : Moments
moments = record {
  claim = 17;
  attempt = 18;
  attempt_checked = 18;
  answer = λ delay. some 30;
  commit = 20;
  commit_checked = 20;
  release = 21;
}

abbrev pub busy : StepRecord → ToolOutcome
busy step = retryable "tool throttled the request" none true

abbrev pub undisturbed : Db → Db
undisturbed db = db

abbrev pub dump_result : ToolResult → Json
dump_result result = string result.reference_id

run_once_releases_example :
    any
      (is_live "r1" "w2" 2 21)
      (run_once codec dump_result settings moments "w2" busy undisturbed
        attempted_db).1.workflow_run_leases
    ≡ false
run_once_releases_example =
    run_once_releases codec dump_result settings moments "w2" busy undisturbed attempted_db
      taken_claim run_facts.w2_claims

first_attempt : (record_attempt codec "r1" "pay" (by_w1 7) claimed_db).0 ≡ ok taken_claim.step
unfolding str_eq find? where_rows update_rows operation_key_of transaction step_rows find_run
    dependencies has_incomplete_dependency step_from_row workflow_run_from_rows max_sequence
    append_event definitions_from insert_run insert_step insert_steps insert_dependency
    insert_dependencies_of insert_dependencies create_body create_workflow_run get_lease
    get_tool_throttle eligible candidates first_in_order select_runnable upsert_lease lease_for
    claim_runnable_step_body claim_runnable_step get_step_row update_step update_run require_lease
    require_active_attempt record_attempt_body record_attempt
first_attempt = refl

record_attempt-IsRecorded_example :
    (row : StepRow) × (get_step_row claimed_db "r1" "pay" ≡ ok row)
    × IsRecorded codec "r1" "pay"
        (by_w1 7)
        row
        taken_claim.step
        claimed_db
        (record_attempt codec "r1" "pay" (by_w1 7) claimed_db).1
record_attempt-IsRecorded_example =
    record_attempt-IsRecorded codec "r1" "pay" (by_w1 7) claimed_db taken_claim.step first_attempt
