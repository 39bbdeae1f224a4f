-- ===== src/History/Lifecycle.antt =====
-- What holds of every run that the reducer rebuilds: the shape of a step in each status, its
-- dependencies, and the terminal statuses of the run.
use crashsafe.Prelude.{
  ℕ, zero, suc, ◌<◌, String, true, false, not, ◌≡◌, refl, sym, subst, some, List, [], ◌∷◌, map,
  arith, inl, inr, ok, contains, subset, subset-contains, subset_intro, any, All, All-set,
  get_elem?, set,
}
use crashsafe.Models.{
  WorkflowRunStatus, StepStatus, status_eq, StepDefinition, WorkflowRunCreatedPayload, StepRecord,
  WorkflowRun, WorkflowRunEvent,
}
use crashsafe.History.Payloads.{Pydantic}
use crashsafe.History.Transitions.{step_of_definition, created_run, completed_ids}
use crashsafe.History.StateMachine.{StepMove, RunMove, completes, fails, moves}
use crashsafe.History.Replay.{reduce-keeps, fold_events-keeps, OnRun}
use crashsafe.History.{Cursor, start, fold_events, reduce_workflow_run_history}
use crashsafe.History.Consistent.{
  HasShape, DependenciesDone, IsCompleted, IsConsistent, StepMove-HasShape, completed_ids-set,
  StepMove-uncompleted, StepMove-same,
}

All-map {ℓ κ μ} :
    {A : Type ℓ} (P : A → Type κ) (Q : A → Type μ) (xs : List A)
    → ((x : A) → P x → Q x)
    → All P xs
    → All Q xs
All-map P Q [] f h = tt
All-map P Q (x ∷ xs) f h = (f x h.0, All-map P Q xs f h.1)

All-get {ℓ κ} :
    {A : Type ℓ} (P : A → Type κ) (xs : List A) (index : ℕ) (x : A)
    → get_elem? xs index ≡ some x
    → All P xs
    → P x
All-get P [] index x g h = absurd (cc)
All-get P (y ∷ ys) zero x g h = subst P (cc) h.0
All-get P (y ∷ ys) (suc index) x g h = All-get P ys index x g h.1

subset_mono :
    (deps xs ys : List String)
    → ((x : String) → contains x xs ≡ true → contains x ys ≡ true)
    → subset deps xs ≡ true
    → subset deps ys ≡ true
subset_mono deps xs ys f h = subset_intro deps ys (λ x m. f x (subset-contains deps xs x h m))

module _ (run : WorkflowRun) (index : ℕ) (step moved : StepRecord) (at : ℕ)
    (found : get_elem? run.steps index ≡ some step) (move : StepMove run step at moved) where
  still_done :
      (deps : List String)
      → subset deps (completed_ids run.steps) ≡ true
      → subset deps (completed_ids (set run.steps index moved)) ≡ true
  still_done deps =
      subset_mono deps (completed_ids run.steps) (completed_ids (set run.steps index moved)) λ x.
        completed_ids-set run.steps index step moved x found
          (StepMove-uncompleted run step at moved move)

  moved-DependenciesDone :
      DependenciesDone run.steps step → DependenciesDone (set run.steps index moved) moved
  moved-DependenciesDone done positive =
      let (same, why) = StepMove-same run step at moved move in
      subst (λ deps. subset deps (completed_ids (set run.steps index moved)) ≡ true) (sym same)
        (still_done step.depends_on
          (elim why [ inl d ↦ d | inr e ↦ done (subst (λ n. 0 < n) e positive) ]))

  moves-IsConsistent :
      run.status ≡ WorkflowRunStatus.running
      → IsConsistent run
      → IsConsistent (record run { steps = set run.steps index moved })
  moves-IsConsistent running c = record {
    shapes = All-set HasShape run.steps index moved c.shapes (
        StepMove-HasShape run step at moved move
          (All-get HasShape run.steps index step found c.shapes));
    dependencies =
        All-set (DependenciesDone (set run.steps index moved)) run.steps index moved
          (All-map (DependenciesDone run.steps) (DependenciesDone (set run.steps index moved))
            run.steps (λ s done positive. still_done s.depends_on (done positive)) c.dependencies)
          (moved-DependenciesDone
            (All-get (DependenciesDone run.steps) run.steps index step found c.dependencies));
    completed = λ e. absurd (ground arith);
    failed = λ e. absurd (ground arith);
  }

none_pending :
    (steps : List StepRecord)
    → any (λ s. not (status_eq s.status StepStatus.completed)) steps ≡ false
    → All IsCompleted steps
none_pending [] h = tt
none_pending (s ∷ steps) h = (ground arith, none_pending steps (ground arith))

some_failed :
    (steps : List StepRecord) (index : ℕ) (step : StepRecord)
    → get_elem? steps index ≡ some step
    → step.status ≡ StepStatus.failed
    → any (λ s. status_eq s.status StepStatus.failed) steps ≡ true
some_failed [] index step g e = absurd (cc)
some_failed (s ∷ steps) zero step g e = ground arith
some_failed (s ∷ steps) (suc index) step g e = ground (arith, some_failed steps index step g e)

RunMove-IsConsistent :
    (run : WorkflowRun) (at : ℕ) (next : WorkflowRun)
    → run.status ≡ WorkflowRunStatus.running
    → IsConsistent run
    → RunMove run at next
    → IsConsistent next
RunMove-IsConsistent run at next running c (completes done e) = rw e (record {
  shapes = c.shapes;
  dependencies = c.dependencies;
  completed = λ _. none_pending run.steps done;
  failed = λ e'. absurd (ground arith);
})
RunMove-IsConsistent run at next running c (fails index step g f e) = rw e (record {
  shapes = c.shapes;
  dependencies = c.dependencies;
  completed = λ e'. absurd (ground arith);
  failed = λ _. some_failed run.steps index step g f;
})
RunMove-IsConsistent run at next running c (moves index step moved g m e) =
    rw e (moves-IsConsistent run index step moved at g m running c)

created-All :
    (P : StepRecord → Type 0) (run_id : String) (at : ℕ) (definitions : List StepDefinition)
    → ((d : StepDefinition) → P (step_of_definition run_id at d))
    → All P (map (step_of_definition run_id at) definitions)
created-All P run_id at [] h = tt
created-All P run_id at (d ∷ ds) h = (h d, created-All P run_id at ds h)

created_run-IsConsistent :
    (run_id : String) (created : WorkflowRunCreatedPayload) (at : ℕ)
    → IsConsistent (created_run run_id created at)
unfolding created_run step_of_definition
created_run-IsConsistent run_id created at = record {
  shapes = created-All HasShape run_id at created.steps (λ d. (refl, refl, refl, refl, refl));
  dependencies = created-All _ run_id at created.steps (λ d positive. absurd (omega arith));
  completed = λ e. absurd (cc);
  failed = λ e. absurd (cc);
}

-- Every run that the reducer rebuilds is consistent: each step has exactly the fields of its status,
-- every step that was attempted has its dependencies completed, a completed run has only completed
-- steps, and a failed run has a failed step.
pub reduce-IsConsistent :
    (py : Pydantic) (events : List WorkflowRunEvent) (run : WorkflowRun)
    → reduce_workflow_run_history py events ≡ ok run
    → IsConsistent run
reduce-IsConsistent py =
    reduce-keeps IsConsistent (λ r c at _. created_run-IsConsistent r c at)
      (λ c at n r p m. RunMove-IsConsistent c at n r p m) py

-- The same of the run in the middle of the fold.
pub fold_events-IsConsistent :
    (py : Pydantic) (run_id : String) (events : List WorkflowRunEvent) (cursor : Cursor)
    → fold_events py run_id start events ≡ ok cursor
    → OnRun IsConsistent cursor.run
fold_events-IsConsistent py run_id events cursor h =
    fold_events-keeps IsConsistent (λ r c at _. created_run-IsConsistent r c at)
      (λ c at n r p m. RunMove-IsConsistent c at n r p m) py run_id start events cursor h tt
