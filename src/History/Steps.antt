-- ===== src/History/Steps.antt =====
-- What each type of event does to a run, by the type: the transitions that the reducer accepts.
use crashsafe.Prelude.{
  ℕ, ◌+◌, String, true, false, not, ◌≡◌, refl, sym, ap, ◌∙◌, some, none, Option, ◌⊎◌, arith, ok,
  >>=-eq-ok, ok_injective, or_raise, or_raise-some, Result-cases, inl, inr, subset, any, get_elem?,
  set, str_eq_iff,
}
use crashsafe.Models.{
  WorkflowRunStatus, StepStatus, EventType, workflow_run_created, step_attempt_started,
  step_retry_scheduled, step_completed, step_failed, workflow_run_completed, workflow_run_failed,
  status_eq, runnable_status, EventPayload, attempt_payload, retry_payload, completed_payload,
  failed_payload, run_completed_payload, run_failed_payload, StepRecord, WorkflowRun,
  WorkflowRunEvent,
}
use crashsafe.History.Definitions.{missing_step_or_attempt}
use crashsafe.History.Payloads.{opt_str_eq}
use crashsafe.History.Transitions.{
  find_step_with_index, find_step, completed_ids, complete_run, fail_run, advance_step,
  advance_run_step, advance,
}
use crashsafe.History.StateMachine.{find_step_with_index-get_elem?}

-- PENDING, INTENT_RECORDED or RETRY_WAIT
abbrev pub Runnable : StepStatus → Type 0
Runnable status =
    (status ≡ StepStatus.pending)
    ⊎ ((status ≡ StepStatus.intent_recorded) ⊎ (status ≡ StepStatus.retry_wait))

-- The new record of a step, by the type and the payload of the event.
abbrev pub StepChange :
    EventType → WorkflowRun → StepRecord → WorkflowRunEvent → EventPayload → StepRecord → Type 0
StepChange step_attempt_started run step event (attempt_payload started) moved =
    Runnable step.status
    × (event.attempt ≡ some (step.attempts + 1))
    × (subset step.depends_on (completed_ids run.steps) ≡ true)
    × (moved ≡ record step {
      status = StepStatus.intent_recorded;
      attempts = step.attempts + 1;
      next_attempt_at = none;
      last_error = none;
      updated_at = event.occurred_at;
    })
StepChange step_retry_scheduled run step event (retry_payload error next) moved =
    (step.status ≡ StepStatus.intent_recorded)
    × (event.attempt ≡ some step.attempts)
    × (moved ≡ record step {
      status = StepStatus.retry_wait;
      last_error = some error;
      next_attempt_at = some next;
      updated_at = event.occurred_at;
    })
StepChange step_completed run step event (completed_payload output) moved =
    (step.status ≡ StepStatus.intent_recorded)
    × (event.attempt ≡ some step.attempts)
    × (moved ≡ record step {
      status = StepStatus.completed;
      output = some output;
      next_attempt_at = none;
      last_error = none;
      updated_at = event.occurred_at;
      completed_at = some event.occurred_at;
    })
StepChange step_failed run step event (failed_payload error) moved =
    (step.status ≡ StepStatus.intent_recorded)
    × (event.attempt ≡ some step.attempts)
    × (moved ≡ record step {
      status = StepStatus.failed;
      last_error = some error;
      next_attempt_at = none;
      updated_at = event.occurred_at;
    })
StepChange _ run step event payload moved = ⊥

-- One step of the run, the event's, changes; the rest of the run stays.
abbrev pub StepOf : EventType → WorkflowRun → WorkflowRunEvent → EventPayload → WorkflowRun → Type 0
StepOf event_type run event payload next =
    (index : ℕ) × (step : StepRecord) × (moved : StepRecord) × (get_elem? run.steps index
      ≡ some step)
    × (event.step_id ≡ some step.id)
    × StepChange event_type run step event payload moved
    × (next ≡ record run { steps = set run.steps index moved })

-- The new record of the run.
abbrev pub RunChange :
    EventType → WorkflowRun → WorkflowRunEvent → EventPayload → WorkflowRun → Type 0
RunChange workflow_run_completed run event payload next =
    (any (λ step. not (status_eq step.status StepStatus.completed)) run.steps ≡ false)
    × (next ≡ record run {
      status = WorkflowRunStatus.completed;
      updated_at = event.occurred_at;
      completed_at = some event.occurred_at;
    })
RunChange workflow_run_failed run event payload next =
    (index : ℕ) × (step : StepRecord) × (get_elem? run.steps index ≡ some step)
    × (event.step_id ≡ some step.id)
    × (step.status ≡ StepStatus.failed)
    × (next ≡ record run { status = WorkflowRunStatus.failed; updated_at = event.occurred_at })
RunChange event_type run event payload next = StepOf event_type run event payload next

pub Runnable-cases : (status : StepStatus) → runnable_status status ≡ true → Runnable status
Runnable-cases StepStatus.pending h = inl refl
Runnable-cases StepStatus.intent_recorded h = inr (inl refl)
Runnable-cases StepStatus.retry_wait h = inr (inr refl)
Runnable-cases StepStatus.completed h = absurd (cc)
Runnable-cases StepStatus.failed h = absurd (cc)

opt_str_eq-some : (o : Option String) (t : String) → opt_str_eq o t ≡ true → o ≡ some t
opt_str_eq-some none t h = absurd (cc)
opt_str_eq-some (some s) t h = ap some (ground (arith, h, str_eq_iff s t))

advance_step-StepChange :
    (event_type : EventType) (run : WorkflowRun) (step : StepRecord) (attempt : ℕ)
    (event : WorkflowRunEvent) (payload : EventPayload) (moved : StepRecord)
    → event.attempt ≡ some attempt
    → advance_step event_type run step attempt event payload ≡ ok moved
    → StepChange event_type run step event payload moved
unfolding advance_step
advance_step-StepChange step_attempt_started run step attempt event (attempt_payload p) moved a h =
    let same : attempt ≡ step.attempts + 1 = ground (arith, h) in
    (
      Runnable-cases step.status (ground (arith, h)),
      a ∙ ap some same,
      ground (arith, h),
      ground (arith, h, same),
    )
advance_step-StepChange step_retry_scheduled run step attempt event (retry_payload e n) moved a h =
    (ground (arith, h), a ∙ ap some (ground (arith, h)), ground (arith, h))
advance_step-StepChange step_completed run step attempt event (completed_payload o) moved a h =
    (ground (arith, h), a ∙ ap some (ground (arith, h)), ground (arith, h))
advance_step-StepChange step_failed run step attempt event (failed_payload e) moved a h =
    (ground (arith, h), a ∙ ap some (ground (arith, h)), ground (arith, h))
advance_step-StepChange _ run step attempt event payload moved a h = absurd (cc)

advance_run_step-StepOf :
    (event_type : EventType) (run : WorkflowRun) (event : WorkflowRunEvent) (payload : EventPayload)
    (next : WorkflowRun)
    → advance_run_step event_type run event payload ≡ ok next
    → StepOf event_type run event payload next
unfolding advance_run_step
advance_run_step-StepOf event_type run event payload next h =
    let (step_id, a, h₁) = >>=-eq-ok (or_raise event.step_id missing_step_or_attempt) _ h in
    let (attempt, b, h₂) = >>=-eq-ok (or_raise event.attempt missing_step_or_attempt) _ h₁ in
    let (found, e, h₃) = >>=-eq-ok (find_step_with_index run step_id) _ h₂ in
    let (moved, m, h₄) =
      >>=-eq-ok (advance_step event_type run found.1 attempt event payload) _ h₃ in
    let (at, id) = find_step_with_index-get_elem? run step_id found e in
    (
      found.0,
      found.1,
      moved,
      at,
      or_raise-some event.step_id missing_step_or_attempt step_id a ∙ ap some (sym id),
      advance_step-StepChange event_type run found.1 attempt event payload moved
          (or_raise-some event.attempt missing_step_or_attempt attempt b) m,
      sym (ok_injective h₄),
    )

complete_run-RunChange :
    (run : WorkflowRun) (event : WorkflowRunEvent) (payload : EventPayload) (next : WorkflowRun)
    → complete_run run event payload ≡ ok next
    → RunChange workflow_run_completed run event payload next
unfolding complete_run
complete_run-RunChange run event run_completed_payload next h = (ground arith, ground arith)
complete_run-RunChange run event _ next h = absurd (cc)

fail_run-RunChange :
    (run : WorkflowRun) (event : WorkflowRunEvent) (payload : EventPayload) (next : WorkflowRun)
    → fail_run run event payload ≡ ok next
    → RunChange workflow_run_failed run event payload next
unfolding fail_run find_step
fail_run-RunChange run event (run_failed_payload step_id error) next h =
    elim (Result-cases (find_step_with_index run step_id)) [
      | inl (found, e) ↦
          let (at, id) = find_step_with_index-get_elem? run step_id found e in
          (
            found.0,
            found.1,
            at,
            opt_str_eq-some event.step_id step_id (ground (arith, e, h)) ∙ ap some (sym id),
            ground (arith, e, h),
            ground (arith, e, h),
          )
      | inr (error', e) ↦ absurd (ground (arith, e, h))
    ]
fail_run-RunChange run event _ next h = absurd (cc)

-- Each event that the reducer accepts after the creation makes the transition of its type, on the step
-- that it names: a started attempt moves a runnable step whose dependencies are completed to
-- INTENT_RECORDED with the next attempt number, which is the event's; a retry, a completion and a
-- failure of the current attempt move an INTENT_RECORDED step to RETRY_WAIT, COMPLETED and FAILED, with
-- the payload's error, deadline or output; the run is completed only when all its steps are, and failed
-- only by a step that is. The other steps and fields stay.
pub advance-RunChange :
    (event_type : EventType) (run : WorkflowRun) (event : WorkflowRunEvent) (payload : EventPayload)
    (next : WorkflowRun)
    → advance event_type run event payload ≡ ok next
    → RunChange event_type run event payload next
unfolding advance
advance-RunChange workflow_run_completed run event payload next h =
    complete_run-RunChange run event payload next h
advance-RunChange workflow_run_failed run event payload next h =
    fail_run-RunChange run event payload next h
advance-RunChange workflow_run_created run event payload next h =
    advance_run_step-StepOf workflow_run_created run event payload next h
advance-RunChange step_attempt_started run event payload next h =
    advance_run_step-StepOf step_attempt_started run event payload next h
advance-RunChange step_retry_scheduled run event payload next h =
    advance_run_step-StepOf step_retry_scheduled run event payload next h
advance-RunChange step_completed run event payload next h =
    advance_run_step-StepOf step_completed run event payload next h
advance-RunChange step_failed run event payload next h =
    advance_run_step-StepOf step_failed run event payload next h
