-- ===== src/History/Consistent.antt =====
-- What a consistent run is, and what a transition of a step does to the step.
use crashsafe.Prelude.{
  ℕ, zero, suc, ◌<◌, String, true, false, ◌≡◌, refl, none, some, List, [], ◌∷◌, arith, ◌⊎◌, inl,
  inr, contains, subset, any, All, get_elem?, set, where_rows,
}
use crashsafe.Models.{
  WorkflowRunStatus, StepStatus, status_eq, runnable_status, StepRecord, WorkflowRun,
}
use crashsafe.History.Payloads.{is_none}
use crashsafe.History.Transitions.{completed_ids}
use crashsafe.History.StateMachine.{StepMove, attempts, retries, finishes, breaks}

-- The fields that are set in each status.
abbrev pub ShapeAt : StepStatus → StepRecord → Type 0
ShapeAt StepStatus.pending s =
    (s.attempts ≡ 0)
    × (s.next_attempt_at ≡ none)
    × (s.last_error ≡ none)
    × (s.output ≡ none)
    × (s.completed_at ≡ none)
ShapeAt StepStatus.intent_recorded s =
    (0 < s.attempts)
    × (s.next_attempt_at ≡ none)
    × (s.last_error ≡ none)
    × (s.output ≡ none)
    × (s.completed_at ≡ none)
ShapeAt StepStatus.retry_wait s =
    (0 < s.attempts)
    × (is_none s.next_attempt_at ≡ false)
    × (is_none s.last_error ≡ false)
    × (s.output ≡ none)
    × (s.completed_at ≡ none)
ShapeAt StepStatus.completed s =
    (0 < s.attempts)
    × (s.next_attempt_at ≡ none)
    × (s.last_error ≡ none)
    × (is_none s.output ≡ false)
    × (is_none s.completed_at ≡ false)
ShapeAt StepStatus.failed s =
    (0 < s.attempts)
    × (s.next_attempt_at ≡ none)
    × (is_none s.last_error ≡ false)
    × (s.output ≡ none)
    × (s.completed_at ≡ none)

abbrev pub HasShape : StepRecord → Type 0
HasShape s = ShapeAt s.status s

-- A step that was attempted has all its dependencies completed.
abbrev pub DependenciesDone : List StepRecord → StepRecord → Type 0
DependenciesDone steps s = 0 < s.attempts → subset s.depends_on (completed_ids steps) ≡ true

abbrev pub IsCompleted : StepRecord → Type 0
IsCompleted s = s.status ≡ StepStatus.completed

pub record IsConsistent (run : WorkflowRun) : Type 0 where
  pub shapes : All HasShape run.steps
  pub dependencies : All (DependenciesDone run.steps) run.steps
  pub completed : run.status ≡ WorkflowRunStatus.completed → All IsCompleted run.steps
  pub failed :
      run.status ≡ WorkflowRunStatus.failed
      → any (λ s. status_eq s.status StepStatus.failed) run.steps ≡ true

runnable_fields :
    (s : StepRecord)
    → runnable_status s.status ≡ true
    → HasShape s
    → (s.output ≡ none) × (s.completed_at ≡ none)
runnable_fields s r h = (ground arith, ground arith)

pub StepMove-HasShape :
    (run : WorkflowRun) (step : StepRecord) (at : ℕ) (moved : StepRecord)
    → StepMove run step at moved
    → HasShape step
    → HasShape moved
StepMove-HasShape run step at moved (attempts r d e) h =
    let (o, c) = runnable_fields step r h in rw e (omega arith, refl, refl, o, c)
StepMove-HasShape run step at moved (retries error next r e) h = ground arith
StepMove-HasShape run step at moved (finishes output r e) h = ground arith
StepMove-HasShape run step at moved (breaks error r e) h = ground arith

-- A step that is not completed is replaced: what was completed stays so.
pub completed_ids-set :
    (steps : List StepRecord) (index : ℕ) (step moved : StepRecord) (x : String)
    → get_elem? steps index ≡ some step
    → status_eq step.status StepStatus.completed ≡ false
    → contains x (completed_ids steps) ≡ true
    → contains x (completed_ids (set steps index moved)) ≡ true
unfolding completed_ids where_rows contains
completed_ids-set [] index step moved x g n c = c
completed_ids-set (s ∷ steps) zero step moved x g n c = ground arith
completed_ids-set (s ∷ steps) (suc index) step moved x g n c =
    ground (arith, completed_ids-set steps index step moved x g n)

pub StepMove-uncompleted :
    (run : WorkflowRun) (step : StepRecord) (at : ℕ) (moved : StepRecord)
    → StepMove run step at moved
    → status_eq step.status StepStatus.completed ≡ false
StepMove-uncompleted run step at moved (attempts r d e) = ground arith
StepMove-uncompleted run step at moved (retries error next r e) = ground arith
StepMove-uncompleted run step at moved (finishes output r e) = ground arith
StepMove-uncompleted run step at moved (breaks error r e) = ground arith

pub StepMove-same :
    (run : WorkflowRun) (step : StepRecord) (at : ℕ) (moved : StepRecord)
    → StepMove run step at moved
    → (moved.depends_on ≡ step.depends_on)
      × ((subset step.depends_on (completed_ids run.steps) ≡ true)
          ⊎ (moved.attempts ≡ step.attempts))
StepMove-same run step at moved (attempts r d e) = (ground arith, inl d)
StepMove-same run step at moved (retries error next r e) = (ground arith, inr (ground arith))
StepMove-same run step at moved (finishes output r e) = (ground arith, inr (ground arith))
StepMove-same run step at moved (breaks error r e) = (ground arith, inr (ground arith))
