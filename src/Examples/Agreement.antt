-- ===== src/Examples/Agreement.antt =====
-- A turn of the engine, whole and crashed: w2 takes the run over.
use crashsafe.Prelude.{
  arith, true, false, ◌≡◌, ◌≢◌, refl, sym, subst, ◌∙◌, some, none, ok, ok_injective, inl, str_eq,
  contains, subset, has_duplicates, to_set, find?, where_rows, update_rows,
}
use crashsafe.Models.{StepName, StepRecord, ClaimedStep}
use crashsafe.History.Definitions.{
  operation_key_of, check_definitions, remaining, visit_ready, validate_definitions,
}
use crashsafe.Storage.Db.{
  Db, RunRow, new_db, transaction, step_rows, find_run, get_step_row, update_step, update_run,
  dependencies, has_incomplete_dependency, step_from_row, workflow_run_from_rows, max_sequence,
  append_event,
}
use crashsafe.Storage.Create.{
  definitions_from, insert_run, insert_step, insert_steps, insert_dependency,
  insert_dependencies_of, insert_dependencies, create_body, create_workflow_run,
}
use crashsafe.Storage.Claims.{
  get_lease, get_tool_throttle, not_throttled, eligible, candidates, first_in_order,
  select_runnable, upsert_lease, lease_for, claim_runnable_step_body, claim_runnable_step,
}
use crashsafe.Storage.Attempts.{
  require_lease, require_active_attempt, record_attempt_body, record_attempt,
}
use crashsafe.Storage.Leases.{lease_call}
use crashsafe.Storage.Projection.Commit.{perform}
use crashsafe.Storage.Projection.Settled.{Matches}
use crashsafe.Storage.Projection.Match.{ProjectionMatchesHistory}
use crashsafe.Storage.Projection.Lifetime.{
  stays, Leads-Matches, create_workflow_run-Matches, created_of,
}
use crashsafe.Engine.{ToolOutcome, answered, run_once}
use crashsafe.Engine.Crash.{
  before_request, crash_requested, crashed_after_call, crashed_claim, crashed_run_once,
}
use crashsafe.Engine.Durable.{crashed_run_once-ProjectionMatchesHistory}
use crashsafe.Engine.Recovery.{crashed_run_once-recoverable}
use crashsafe.Engine.Running.{IsRunning}
use crashsafe.Engine.Agreement.{attempter, Meanwhile, run_once-ProjectionMatchesHistory}
use crashsafe.Examples.Codec.{codec}
use crashsafe.Examples.Runs.{signup, signup_row, created_db, attempted_db, taken_claim}
use crashsafe.Examples.Leases.{run_facts}
use crashsafe.Examples.Engine.{settings, moments, busy, undisturbed, dump_result}
use crashsafe.Examples.Storage.{new_run, new_db-IsFresh, started_db, storage_facts, start-Leads}

abbrev taken_db : Db
taken_db = (claim_runnable_step "w2" 10 17 attempted_db).1

abbrev second_db : Db
second_db =
    (record_attempt codec "r1" "pay" (attempter codec dump_result settings moments taken_claim)
      taken_db).1

-- the tool's answer to the charge
abbrev charged : StepRecord → ToolOutcome
charged step =
    answered
      (record { operation = StepName.charge; reference_id = "charge_1"; deduplicated = false })

-- the step of the second attempt
abbrev second_step : StepRecord
second_step = record taken_claim.step { attempts = 2; updated_at = 18 }

record TurnFacts : Type 0 where
  valid : validate_definitions "r1" (created_of codec "r1" "tool" signup none).steps ≡ ok tt
  granted :
      (record_attempt codec "r1" "pay"
        (attempter codec dump_result settings moments taken_claim)
        taken_db).0
      ≡ ok second_step
  still : find_run second_db "r1" ≡ some signup_row
  same : started_db ≡ attempted_db
  crashed :
      crashed_run_once codec dump_result settings moments
        (some "charge:after_response")
        "w2"
        charged
        undisturbed
        attempted_db
      ≡ some second_db
  requested : crash_requested (some "charge:before_request") second_step before_request ≡ true
  unthrottled : not_throttled (get_tool_throttle taken_db second_step.tool_key) 27 ≡ true

turn_facts : TurnFacts
unfolding str_eq contains subset has_duplicates to_set find? where_rows update_rows operation_key_of
    check_definitions remaining visit_ready validate_definitions transaction step_rows find_run
    dependencies has_incomplete_dependency step_from_row workflow_run_from_rows max_sequence
    append_event definitions_from insert_run insert_step insert_steps insert_dependency
    insert_dependencies_of insert_dependencies create_body create_workflow_run get_lease
    get_tool_throttle eligible candidates first_in_order select_runnable upsert_lease lease_for
    claim_runnable_step_body claim_runnable_step get_step_row update_step update_run require_lease
    require_active_attempt record_attempt_body record_attempt perform lease_call crashed_after_call
    crashed_claim crashed_run_once
turn_facts = record {
  valid = refl;
  granted = refl;
  still = refl;
  same = refl;
  crashed = refl;
  requested = refl;
  unthrottled = refl;
}

attempted-Matches : (row : RunRow) × Matches codec "r1" attempted_db row
attempted-Matches =
    subst (λ d. (row : RunRow) × Matches codec "r1" d row) turn_facts.same
      (Leads-Matches codec "r1" created_db started_db _
        (create_workflow_run-Matches codec "r1" 5 "tool" signup none new_db new_run new_db-IsFresh
          turn_facts.valid storage_facts.created)
        start-Leads)

taken-Meanwhile : Meanwhile codec dump_result settings moments undisturbed "r1" taken_claim taken_db
taken-Meanwhile = record {
  leads = stays;
  held = λ step e. inl (
      subst (λ (s : StepRecord). IsRunning s.run_id second_db)
        (ok_injective (sym turn_facts.granted ∙ e)) (signup_row, turn_facts.still, refl));
}

claimed-Meanwhile :
    (claim : ClaimedStep)
    → (claim_runnable_step "w2" 10 17 attempted_db).0 ≡ ok (some claim)
    → Meanwhile codec dump_result settings moments undisturbed "r1" claim taken_db
claimed-Meanwhile claim e =
    let both = ok_injective (sym run_facts.w2_claims ∙ e) in
    let same : taken_claim ≡ claim = cc in
    subst (λ c. Meanwhile codec dump_result settings moments undisturbed "r1" c taken_db) same
      taken-Meanwhile

run_once-ProjectionMatchesHistory_example :
    ((row : RunRow) × Matches codec "r1"
        (run_once codec dump_result settings moments "w2" busy undisturbed attempted_db).1
        row)
    × ProjectionMatchesHistory codec "r1"
        (run_once codec dump_result settings moments "w2" busy undisturbed attempted_db).1
run_once-ProjectionMatchesHistory_example =
    run_once-ProjectionMatchesHistory codec dump_result settings moments busy undisturbed "r1"
      attempted_db "w2" attempted-Matches.0 attempted-Matches.1 claimed-Meanwhile

crashed_run_once-ProjectionMatchesHistory_example :
    ((row : RunRow) × Matches codec "r1" second_db row)
    × ProjectionMatchesHistory codec "r1" second_db
crashed_run_once-ProjectionMatchesHistory_example =
    crashed_run_once-ProjectionMatchesHistory codec dump_result settings moments
      (some "charge:after_response") charged undisturbed "r1" attempted_db "w2" attempted-Matches.0
      second_db attempted-Matches.1 claimed-Meanwhile turn_facts.crashed

crashed_run_once-recoverable_example :
    (after : Db) × (crashed_run_once codec dump_result settings moments
        (some "charge:before_request")
        "w2"
        busy
        undisturbed
        attempted_db
      ≡ some after)
    × (select_runnable after 27 true ≢ none)
crashed_run_once-recoverable_example =
    crashed_run_once-recoverable codec dump_result settings moments (some "charge:before_request")
      "w2" busy undisturbed attempted_db taken_claim run_facts.w2_claims second_step 27
      turn_facts.granted turn_facts.requested (omega arith) turn_facts.unthrottled
