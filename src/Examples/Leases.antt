-- ===== src/Examples/Leases.antt =====
-- The theorems of the leases and of the selection at the run of `Runs`.
use crashsafe.Storage.Db.{Db, RunRow, StepRow}
use crashsafe.Prelude.{
  ◌≤◌, ◌<◌, ◌+◌, true, false, ◌≡◌, refl, arith, none, some, ok, str_eq, any, find?, where_rows,
  update_rows, inl, inr, ◌⊎◌,
}
use crashsafe.History.Definitions.{operation_key_of}
use crashsafe.Storage.Db.{
  transaction, step_rows, find_run, get_step_row, update_step, update_run, dependencies,
  has_incomplete_dependency, step_from_row, workflow_run_from_rows, max_sequence, append_event,
}
use crashsafe.Storage.Create.{
  definitions_from, insert_run, insert_step, insert_steps, insert_dependency,
  insert_dependencies_of, insert_dependencies, create_body, create_workflow_run,
}
use crashsafe.Storage.Claims.{
  get_lease, get_tool_throttle, eligible, candidates, first_in_order, select_runnable, upsert_lease,
  lease_for, claim_runnable_step_body, claim_runnable_step, release_lease,
}
use crashsafe.Storage.Attempts.{
  holds_lease, require_lease, require_active_attempt, record_attempt_body, record_attempt,
}
use crashsafe.Storage.Leases.{
  claims, releases, lease_call, none_yet, then_call, fence_of, LeaseCalls-keeps,
  LeaseCalls-IsFenced,
}
use crashsafe.Storage.Fencing.{IsFenced, OneLease, no_lease-IsFenced, claim_fences}
use crashsafe.Storage.Projection.Lifetime.{created_of}
use crashsafe.Storage.Candidates.{In, IsCandidate}
use crashsafe.Storage.Eligibility.{
  IsEligible, candidate-IsEligible, select_runnable-IsEligible, select_runnable_first,
  select_runnable-none,
}
use crashsafe.Examples.Codec.{codec}
use crashsafe.Examples.Runs.{
  signup, signup_row, pay_row, attempted_row, created_db, claimed_db, attempted_db, by_w1,
  taken_claim, first_lease,
}

-- w2 takes over, and later releases the run.
abbrev taken_db : Db
taken_db = lease_call (claims "w2" 10 17) attempted_db

abbrev released_db : Db
released_db = lease_call (releases "r1" "w2" 2 20) taken_db

-- What the run of `Runs` computes to.
-- a second run of the same workflow, created four units of time later
abbrev two_runs : Db
two_runs = (create_workflow_run codec "r2" 9 "tool" signup none created_db).1

abbrev later_run : RunRow
later_run = record signup_row {
  run_id = "r2";
  definition = created_of codec "r2" "tool" signup none;
  created_at = 9;
  updated_at = 9;
}

abbrev later_row : StepRow
later_row = record pay_row {
  run_id = "r2";
  operation_key = "r2:pay";
  created_at = 9;
  updated_at = 9;
}

pub record RunFacts : Type 0 where
  pub w2_claims : (claim_runnable_step "w2" 10 17 attempted_db).0 ≡ ok (some taken_claim)
  pub one_lease : OneLease "r1" attempted_db.workflow_run_leases
  pub former_lease : get_lease attempted_db "r1" ≡ some first_lease
  pub row_after :
      get_step_row (claim_runnable_step "w2" 10 17 attempted_db).1 "r1" "pay" ≡ ok attempted_row
  pub row_before : get_step_row attempted_db "r1" "pay" ≡ ok attempted_row
  pub expired : any (holds_lease "r1" "w1" 1 16) attempted_db.workflow_run_leases ≡ false
  pub pay_selected : select_runnable created_db 6 true ≡ some pay_row
  pub first_selected : select_runnable two_runs 12 true ≡ some pay_row
  pub later_stored : In later_row two_runs.steps
  pub later_joined : find_run two_runs "r2" ≡ some later_run
  pub later_where : IsCandidate two_runs 12 true 9 later_row
  pub none_selected : select_runnable claimed_db 6 true ≡ none
  pub pay_leased : In pay_row claimed_db.steps
  pub one_taken : OneLease "r1" taken_db.workflow_run_leases
  pub passed : 1 < fence_of taken_db "r1"
  pub row_released : get_step_row released_db "r1" "pay" ≡ ok attempted_row

pub run_facts : RunFacts
unfolding str_eq find? where_rows update_rows operation_key_of transaction step_rows find_run
    dependencies has_incomplete_dependency step_from_row workflow_run_from_rows max_sequence
    append_event definitions_from insert_run insert_step insert_steps insert_dependency
    insert_dependencies_of insert_dependencies create_body create_workflow_run get_lease
    get_tool_throttle eligible candidates first_in_order select_runnable upsert_lease lease_for
    claim_runnable_step_body claim_runnable_step get_step_row update_step update_run require_lease
    require_active_attempt record_attempt_body record_attempt lease_call fence_of release_lease
run_facts = record {
  w2_claims = refl;
  one_lease = (tt, λ _. refl);
  former_lease = refl;
  row_after = refl;
  row_before = refl;
  expired = refl;
  pay_selected = refl;
  first_selected = refl;
  later_stored = inr (inr (inl refl));
  later_joined = refl;
  later_where = record { run = later_run; joined = refl; created_at = refl; where_holds = refl };
  none_selected = refl;
  pay_leased = inl refl;
  one_taken = (tt, λ _. refl);
  passed = omega arith;
  row_released = refl;
}

later_candidate : IsEligible two_runs 12 true later_row
later_candidate = (candidate-IsEligible two_runs 12 true 9 later_row run_facts.later_where).0

abbrev later_eligible : IsEligible two_runs 12 true later_row
later_eligible = record {
  run = later_run;
  joined = run_facts.later_joined;
  running = refl;
  runnable = inl refl;
  past = later_candidate.past;
  completed = later_candidate.completed;
  unthrottled = later_candidate.unthrottled;
  unleased = later_candidate.unleased;
}

-- w1 comes back at 18 with its old token.
claim_fences_example :
    (taken_claim.lease.fence_token ≡ first_lease.fence_token + 1)
    × IsFenced codec "r1" "pay" (by_w1 18) (claim_runnable_step "w2" 10 17 attempted_db).1
claim_fences_example =
    claim_fences codec "w2" 10 17 attempted_db taken_claim run_facts.w2_claims first_lease "pay"
      "w1" 1 (by_w1 18) attempted_row run_facts.one_lease run_facts.former_lease run_facts.row_after
      refl refl (omega arith)

-- At 16 the lease of w1 has expired, though no other worker claimed the run.
no_lease-IsFenced_example : IsFenced codec "r1" "pay" (by_w1 16) attempted_db
no_lease-IsFenced_example =
    no_lease-IsFenced codec "r1" "pay" attempted_row (by_w1 16) attempted_db "w1" 1
      run_facts.row_before refl refl run_facts.expired

select_runnable-IsEligible_example :
    In pay_row created_db.steps × IsEligible created_db 6 true pay_row
select_runnable-IsEligible_example =
    select_runnable-IsEligible created_db 6 true pay_row run_facts.pay_selected

select_runnable_first_example :
    (good : IsEligible two_runs 12 true pay_row) × ((good.run.created_at < 9)
      ⊎ ((good.run.created_at ≡ 9) × (pay_row.position ≤ later_row.position)))
select_runnable_first_example =
    select_runnable_first two_runs 12 true pay_row later_row run_facts.first_selected
      run_facts.later_stored later_eligible

-- While w1 holds the lease, no other worker finds the payment eligible.
select_runnable-none_example : ¬ IsEligible claimed_db 6 true pay_row
select_runnable-none_example =
    select_runnable-none claimed_db 6 true run_facts.none_selected pay_row run_facts.pay_leased

LeaseCalls-keeps_example :
    (fence_of attempted_db "r1" ≤ fence_of released_db "r1")
    × OneLease "r1" released_db.workflow_run_leases
LeaseCalls-keeps_example = LeaseCalls-keeps "r1" attempted_db released_db run_facts.one_lease (
    then_call taken_db (releases "r1" "w2" 2 20)
      (then_call attempted_db (claims "w2" 10 17) none_yet))

LeaseCalls-IsFenced_example : IsFenced codec "r1" "pay" (by_w1 21) released_db
LeaseCalls-IsFenced_example =
    LeaseCalls-IsFenced codec "r1" "pay" "w1" 1 (by_w1 21) attempted_row taken_db released_db
      run_facts.one_taken run_facts.passed (then_call taken_db (releases "r1" "w2" 2 20) none_yet)
      run_facts.row_released refl refl
