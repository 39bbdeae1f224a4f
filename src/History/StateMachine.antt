-- ===== src/History/StateMachine.antt =====
-- The run's state machine, as a relation, and the reducer's branches against it.
use crashsafe.Prelude.{
  ℕ, suc, ◌+◌, String, true, false, not, ◌≡◌, ◌∙◌, some, List, [], ◌∷◌, arith, ok, >>=-eq-ok,
  or_raise, Result-cases, Bool-cases, inl, inr, str_eq, str_eq_iff, subset, any, get_elem?, set,
}
use crashsafe.Models.Values.{Json}
use crashsafe.Models.{
  WorkflowRunStatus, StepStatus, EventType, step_attempt_started, step_retry_scheduled,
  step_completed, step_failed, workflow_run_completed, workflow_run_failed, status_eq,
  runnable_status, EventPayload, attempt_payload, retry_payload, completed_payload, failed_payload,
  run_completed_payload, run_failed_payload, StepRecord, WorkflowRun, WorkflowRunEvent,
}
use crashsafe.History.Definitions.{missing_step_or_attempt}
use crashsafe.History.Transitions.{
  index_from, find_step_with_index, find_step, completed_ids, attempted, waiting, finished, broken,
  complete_run, fail_run, advance_step, advance_run_step, advance,
}

-- pending, intent_recorded, retry_wait → intent_recorded → retry_wait, completed, failed
pub data StepMove (run : WorkflowRun) (step : StepRecord) (at : ℕ) (moved : StepRecord)
    : Type 0 where
  attempts :
      runnable_status step.status ≡ true
      → subset step.depends_on (completed_ids run.steps) ≡ true
      → moved ≡ attempted step (step.attempts + 1) at
      → StepMove run step at moved
  retries :
      (error : String) (next : ℕ)
      → step.status ≡ StepStatus.intent_recorded
      → moved ≡ waiting step error next at
      → StepMove run step at moved
  finishes :
      (output : Json)
      → step.status ≡ StepStatus.intent_recorded
      → moved ≡ finished step output at
      → StepMove run step at moved
  breaks :
      (error : String)
      → step.status ≡ StepStatus.intent_recorded
      → moved ≡ broken step error at
      → StepMove run step at moved

pub data RunMove (run : WorkflowRun) (at : ℕ) (next : WorkflowRun) : Type 0 where
  completes :
      any (λ step. not (status_eq step.status StepStatus.completed)) run.steps ≡ false
      → next ≡ record run {
        status = WorkflowRunStatus.completed;
        updated_at = at;
        completed_at = some at;
      }
      → RunMove run at next
  fails :
      (index : ℕ) (step : StepRecord)
      → get_elem? run.steps index ≡ some step
      → step.status ≡ StepStatus.failed
      → next ≡ record run { status = WorkflowRunStatus.failed; updated_at = at }
      → RunMove run at next
  moves :
      (index : ℕ) (step moved : StepRecord)
      → get_elem? run.steps index ≡ some step
      → StepMove run step at moved
      → next ≡ record run { steps = set run.steps index moved }
      → RunMove run at next

abbrev AtIndex : List StepRecord → ℕ → String → ℕ × StepRecord → Type 0
AtIndex steps first step_id found =
    (offset : ℕ) × (found.0 ≡ first + offset)
    × (get_elem? steps offset ≡ some found.1)
    × (found.1.id ≡ step_id)

index_from-AtIndex :
    (first : ℕ) (steps : List StepRecord) (step_id : String) (found : ℕ × StepRecord)
    → index_from first steps step_id ≡ some found
    → AtIndex steps first step_id found
unfolding index_from
index_from-AtIndex first [] step_id found h = absurd (ground arith)
index_from-AtIndex first (step ∷ steps) step_id found h =
    elim (Bool-cases (str_eq step.id step_id)) [
      | inl e ↦ (0, ground arith, ground arith, ground (arith, str_eq_iff step.id step_id))
      | inr e ↦
          let (offset, a, b, c) = index_from-AtIndex (suc first) steps step_id found (rw e at h) in
          (suc offset, omega arith, b, c)
    ]

-- What the reducer finds is the step at the index, and it has the identifier.
pub find_step_with_index-get_elem? :
    (run : WorkflowRun) (step_id : String) (found : ℕ × StepRecord)
    → find_step_with_index run step_id ≡ ok found
    → (get_elem? run.steps found.0 ≡ some found.1) × (found.1.id ≡ step_id)
unfolding find_step_with_index
find_step_with_index-get_elem? run step_id found h =
    let (offset, a, b, c) = index_from-AtIndex 0 run.steps step_id found (ground arith) in
    let same : found.0 ≡ offset = omega arith in (rw same b, c)

advance_step-StepMove :
    (event_type : EventType) (run : WorkflowRun) (step : StepRecord) (attempt : ℕ)
    (event : WorkflowRunEvent) (payload : EventPayload) (moved : StepRecord)
    → advance_step event_type run step attempt event payload ≡ ok moved
    → StepMove run step event.occurred_at moved
unfolding advance_step
advance_step-StepMove step_attempt_started run step attempt event (attempt_payload p) moved h =
    attempts (ground arith) (ground arith) (ground arith)
advance_step-StepMove step_retry_scheduled run step attempt event (retry_payload e n) moved h =
    retries e n (ground arith) (ground arith)
advance_step-StepMove step_completed run step attempt event (completed_payload o) moved h =
    finishes o (ground arith) (ground arith)
advance_step-StepMove step_failed run step attempt event (failed_payload e) moved h =
    breaks e (ground arith) (ground arith)
advance_step-StepMove _ run step attempt event payload moved h = absurd (cc)

complete_run-RunMove :
    (run : WorkflowRun) (event : WorkflowRunEvent) (payload : EventPayload) (next : WorkflowRun)
    → complete_run run event payload ≡ ok next
    → RunMove run event.occurred_at next
unfolding complete_run
complete_run-RunMove run event run_completed_payload next h =
    completes (ground arith) (ground arith)
complete_run-RunMove run event _ next h = absurd (cc)

find_step-get_elem? :
    (run : WorkflowRun) (step_id : String) (step : StepRecord)
    → find_step run step_id ≡ ok step
    → (index : ℕ) × (get_elem? run.steps index ≡ some step)
unfolding find_step
find_step-get_elem? run step_id step h =
    let (found, e, same) = >>=-eq-ok (find_step_with_index run step_id) (λ found. ok found.1) h in
    (found.0, (find_step_with_index-get_elem? run step_id found e).0 ∙ ground arith)

fail_run-RunMove :
    (run : WorkflowRun) (event : WorkflowRunEvent) (payload : EventPayload) (next : WorkflowRun)
    → fail_run run event payload ≡ ok next
    → RunMove run event.occurred_at next
unfolding fail_run
fail_run-RunMove run event (run_failed_payload step_id error) next h =
    elim (Result-cases (find_step run step_id)) [
      | inl (step, e) ↦
          let (index, at) = find_step-get_elem? run step_id step e in
          fails index step at (ground arith) (ground arith)
      | inr (error', e) ↦ absurd (ground arith)
    ]
fail_run-RunMove run event _ next h = absurd (cc)

advance_run_step-RunMove :
    (event_type : EventType) (run : WorkflowRun) (event : WorkflowRunEvent) (payload : EventPayload)
    (next : WorkflowRun)
    → advance_run_step event_type run event payload ≡ ok next
    → RunMove run event.occurred_at next
unfolding advance_run_step
advance_run_step-RunMove event_type run event payload next h =
    let (step_id, _, h₁) = >>=-eq-ok (or_raise event.step_id missing_step_or_attempt) _ h in
    let (attempt, _, h₂) = >>=-eq-ok (or_raise event.attempt missing_step_or_attempt) _ h₁ in
    let (found, e, h₃) = >>=-eq-ok (find_step_with_index run step_id) _ h₂ in
    let (moved, m, h₄) =
      >>=-eq-ok (advance_step event_type run found.1 attempt event payload) _ h₃ in
    moves found.0 found.1 moved (find_step_with_index-get_elem? run step_id found e).0
      (advance_step-StepMove event_type run found.1 attempt event payload moved m) (cc)

-- Each event that the reducer accepts after the creation makes a move of the state machine.
pub advance-RunMove :
    (event_type : EventType) (run : WorkflowRun) (event : WorkflowRunEvent) (payload : EventPayload)
    (next : WorkflowRun)
    → advance event_type run event payload ≡ ok next
    → RunMove run event.occurred_at next
unfolding advance
advance-RunMove workflow_run_completed run event payload next h =
    complete_run-RunMove run event payload next h
advance-RunMove workflow_run_failed run event payload next h =
    fail_run-RunMove run event payload next h
advance-RunMove event_type run event payload next h =
    advance_run_step-RunMove event_type run event payload next h
