-- ===== src/History/Counts.antt =====
-- What one accepted event adds to the attempts of a run's steps, and the class of its payload.
use crashsafe.Prelude.{
  ℕ, zero, suc, ◌+◌, ◌≤◌, String, ◌≡◌, refl, sym, ap, subst, Option, none, some, List, [], ◌∷◌, map,
  arith, ok, ok_injective, or_raise-some, >>=-eq-ok, or_raise, get_elem?, set, if◌then◌else◌,
}
use crashsafe.Models.{
  StepStatus, EventType, workflow_run_created, step_attempt_started, step_retry_scheduled,
  step_completed, step_failed, workflow_run_completed, workflow_run_failed, status_eq,
  StepDefinition, StepRecord, EventPayload, created_payload, attempt_payload, retry_payload,
  completed_payload, failed_payload, run_completed_payload, run_failed_payload, WorkflowRun,
  WorkflowRunEvent,
}
use crashsafe.History.Definitions.{missing_step_or_attempt, invalid_payload}
use crashsafe.History.Payloads.{Pydantic, type_of, parse_payload}
use crashsafe.History.Transitions.{
  find_step_with_index, step_of_definition, created_run, create_run, complete_run, fail_run,
  advance_step, advance_run_step, advance,
}
use crashsafe.History.StateMachine.{find_step_with_index-get_elem?}
use crashsafe.History.{Cursor, require_running, check_event, next_run, fold_event}

abbrev pub sum_of : (StepRecord → ℕ) → List StepRecord → ℕ
sum_of f [] = 0
sum_of f (s ∷ steps) = f s + sum_of f steps

sum_of-set :
    (f : StepRecord → ℕ) (steps : List StepRecord) (index : ℕ) (step moved : StepRecord)
    → get_elem? steps index ≡ some step
    → sum_of f (set steps index moved) + f step ≡ sum_of f steps + f moved
sum_of-set f [] index step moved g = absurd (cc)
sum_of-set f (s ∷ steps) zero step moved g =
    let same : f s ≡ f step = ap f (cc) in omega (arith, same)
sum_of-set f (s ∷ steps) (suc index) step moved g =
    omega (arith, sum_of-set f steps index step moved g)

abbrev pub attempts_of : StepRecord → ℕ
attempts_of s = s.attempts

-- 1 for a step with a recorded intent
abbrev pub open_attempt : StepRecord → ℕ
open_attempt s = if status_eq s.status StepStatus.intent_recorded then 1 else 0

abbrev pub sum_on : (StepRecord → ℕ) → Option WorkflowRun → ℕ
sum_on f none = 0
sum_on f (some run) = sum_of f run.steps

abbrev pub is_attempt : EventType → ℕ
is_attempt step_attempt_started = 1
is_attempt _ = 0

abbrev pub is_retry : EventType → ℕ
is_retry step_retry_scheduled = 1
is_retry _ = 0

-- The effect of an event of a type on the two sums.
pub record Counts (event_type : EventType) (old : Option WorkflowRun) (next : WorkflowRun)
    : Type 0 where
  pub attempts : sum_of attempts_of next.steps ≡ sum_on attempts_of old + is_attempt event_type
  pub retries :
      is_retry event_type + sum_of open_attempt next.steps
      ≤ sum_on open_attempt old + is_attempt event_type

new-sums :
    (run_id : String) (at : ℕ) (ds : List StepDefinition)
    → (sum_of attempts_of (map (step_of_definition run_id at) ds) ≡ 0)
      × (sum_of open_attempt (map (step_of_definition run_id at) ds) ≡ 0)
unfolding step_of_definition
new-sums run_id at [] = (refl, refl)
new-sums run_id at (d ∷ ds) =
    let (a, b) = new-sums run_id at ds in (omega (arith, a), omega (arith, b))

create_run-Counts :
    (run_id : String) (old : Option WorkflowRun) (event : WorkflowRunEvent) (payload : EventPayload)
    (next : WorkflowRun)
    → create_run run_id old event payload ≡ ok next
    → (type_of payload ≡ workflow_run_created) × Counts workflow_run_created old next
unfolding create_run created_run
create_run-Counts run_id old event (created_payload created) next h =
    let sums = new-sums run_id event.occurred_at created.steps in
    let none_yet : old ≡ none = ground arith in
    let same : created_run run_id created event.occurred_at ≡ next = ground arith in
    (
      refl,
      subst (λ n. Counts workflow_run_created old n) same
          (record {
            attempts = rw none_yet (omega (arith, sums.0));
            retries = rw none_yet (omega (arith, sums.1));
          }),
    )
create_run-Counts run_id old event _ next h = absurd (ground arith)

advance_step-Counts :
    (event_type : EventType) (run : WorkflowRun) (step : StepRecord) (attempt : ℕ)
    (event : WorkflowRunEvent) (payload : EventPayload) (moved : StepRecord)
    → advance_step event_type run step attempt event payload ≡ ok moved
    → (type_of payload ≡ event_type)
      × (moved.attempts ≡ step.attempts + is_attempt event_type)
      × (is_retry event_type + open_attempt moved ≤ open_attempt step + is_attempt event_type)
unfolding advance_step
advance_step-Counts step_attempt_started run step attempt event (attempt_payload p) moved h =
    (refl, ground arith, ground arith)
advance_step-Counts step_retry_scheduled run step attempt event (retry_payload e n) moved h =
    (refl, ground arith, ground arith)
advance_step-Counts step_completed run step attempt event (completed_payload o) moved h =
    (refl, ground arith, ground arith)
advance_step-Counts step_failed run step attempt event (failed_payload e) moved h =
    (refl, ground arith, ground arith)
advance_step-Counts _ run step attempt event payload moved h = absurd (cc)

advance_run_step-Counts :
    (event_type : EventType) (run : WorkflowRun) (event : WorkflowRunEvent) (payload : EventPayload)
    (next : WorkflowRun)
    → advance_run_step event_type run event payload ≡ ok next
    → (type_of payload ≡ event_type) × Counts event_type (some run) next
unfolding advance_run_step
advance_run_step-Counts event_type run event payload next h =
    let (step_id, a, h₁) = >>=-eq-ok (or_raise event.step_id missing_step_or_attempt) _ h in
    let (attempt, b, h₂) = >>=-eq-ok (or_raise event.attempt missing_step_or_attempt) _ h₁ in
    let (found, c, h₃) = >>=-eq-ok (find_step_with_index run step_id) _ h₂ in
    let (moved, d, h₄) =
      >>=-eq-ok (advance_step event_type run found.1 attempt event payload) _ h₃ in
    let (at, _) = find_step_with_index-get_elem? run step_id found c in
    let (kind, more, opened) =
      advance_step-Counts event_type run found.1 attempt event payload moved d in
    let same : record run { steps = set run.steps found.0 moved } ≡ next = ok_injective h₄ in
    (
      kind,
      subst (Counts event_type (some run)) same (record {
        attempts = omega (arith, more, sum_of-set attempts_of run.steps found.0 found.1 moved at);
        retries = omega (arith, opened, sum_of-set open_attempt run.steps found.0 found.1 moved at);
      }),
    )

complete_run-Counts :
    (run : WorkflowRun) (event : WorkflowRunEvent) (payload : EventPayload) (next : WorkflowRun)
    → complete_run run event payload ≡ ok next
    → (type_of payload ≡ workflow_run_completed) × Counts workflow_run_completed (some run) next
unfolding complete_run
complete_run-Counts run event run_completed_payload next h =
    let same : run.steps ≡ next.steps = ground arith in
    (refl, record { attempts = rw same (omega arith); retries = rw same (omega arith) })
complete_run-Counts run event _ next h = absurd (cc)

fail_run-Counts :
    (run : WorkflowRun) (event : WorkflowRunEvent) (payload : EventPayload) (next : WorkflowRun)
    → fail_run run event payload ≡ ok next
    → (type_of payload ≡ workflow_run_failed) × Counts workflow_run_failed (some run) next
unfolding fail_run
fail_run-Counts run event (run_failed_payload step_id error) next h =
    let same : run.steps ≡ next.steps = ground arith in
    (refl, record { attempts = rw same (omega arith); retries = rw same (omega arith) })
fail_run-Counts run event _ next h = absurd (cc)

advance-Counts :
    (event_type : EventType) (run : WorkflowRun) (event : WorkflowRunEvent) (payload : EventPayload)
    (next : WorkflowRun)
    → advance event_type run event payload ≡ ok next
    → (type_of payload ≡ event_type) × Counts event_type (some run) next
unfolding advance
advance-Counts workflow_run_completed run event payload next h =
    complete_run-Counts run event payload next h
advance-Counts workflow_run_failed run event payload next h =
    fail_run-Counts run event payload next h
advance-Counts event_type run event payload next h =
    advance_run_step-Counts event_type run event payload next h

require_running-some :
    (old : Option WorkflowRun) (current : WorkflowRun)
    → require_running old ≡ ok current
    → old ≡ some current
require_running-some old current h = ground arith

next_run-Counts :
    (event_type : EventType) (run_id : String) (old : Option WorkflowRun) (event : WorkflowRunEvent)
    (payload : EventPayload) (next : WorkflowRun)
    → next_run event_type run_id old event payload ≡ ok next
    → (type_of payload ≡ event_type) × Counts event_type old next
unfolding next_run
next_run-Counts workflow_run_created run_id old event payload next h =
    create_run-Counts run_id old event payload next h
next_run-Counts event_type run_id old event payload next h =
    let (current, e, m) = >>=-eq-ok (require_running old) _ h in
    rw (require_running-some old current e) (advance-Counts event_type current event payload next m)

-- An accepted event has a payload of the class of its type, and moves the two sums by its type.
pub fold_event-Counts :
    (py : Pydantic) (run_id : String) (cursor : Cursor) (event : WorkflowRunEvent) (after : Cursor)
    → fold_event py run_id cursor event ≡ ok after
    → (payload : EventPayload) × (next : WorkflowRun) × (parse_payload py event.event_type
          event.payload
        ≡ some payload)
      × (type_of payload ≡ event.event_type)
      × (after.run ≡ some next)
      × Counts event.event_type cursor.run next
unfolding fold_event
fold_event-Counts py run_id cursor event after h =
    let (checked, e, h₁) = >>=-eq-ok (check_event run_id cursor.expected_sequence event) _ h in
    let (payload, p, h₂) =
      >>=-eq-ok (or_raise (parse_payload py event.event_type event.payload) invalid_payload) _ h₁ in
    let (next, n, h₃) =
      >>=-eq-ok (next_run event.event_type run_id cursor.run event payload) _ h₂ in
    let (kind, counts) = next_run-Counts event.event_type run_id cursor.run event payload next n in
    (
      payload,
      next,
      or_raise-some (parse_payload py event.event_type event.payload) invalid_payload payload p,
      kind,
      ap (λ c. c.run) (sym (ok_injective h₃)),
      counts,
    )
