-- ===== src/History/Frozen.antt =====
-- What a longer history cannot change: the materialised definition, and what has completed.
use crashsafe.Prelude.{
  ℕ, zero, suc, ◌≤◌, true, ◌≡◌, ◌≢◌, refl, subst, ap, ◌∙◌, sym, some, List, [], ◌∷◌, ◌++◌, arith,
  ok, get_elem?, set,
}
use crashsafe.Models.{StepStatus, runnable_status, StepRecord, WorkflowRun, WorkflowRunEvent}
use crashsafe.History.Payloads.{Pydantic}
use crashsafe.History.StateMachine.{
  StepMove, attempts, retries, finishes, breaks, RunMove, completes, fails, moves,
}
use crashsafe.History.Replay.{OnSome, fold_events-extends, reduce-append_cases}
use crashsafe.History.{reduce_workflow_run_history}

-- `late` is `early` at a later time.
pub record Keeps (early late : StepRecord) : Type 0 where
  pub id : late.id ≡ early.id
  pub run_id : late.run_id ≡ early.run_id
  pub position : late.position ≡ early.position
  pub operation : late.operation ≡ early.operation
  pub depends_on : late.depends_on ≡ early.depends_on
  pub request : late.request ≡ early.request
  pub operation_key : late.operation_key ≡ early.operation_key
  pub tool_key : late.tool_key ≡ early.tool_key
  pub created_at : late.created_at ≡ early.created_at
  pub attempts : early.attempts ≤ late.attempts
  pub completed : early.status ≡ StepStatus.completed → late ≡ early
  pub failed : early.status ≡ StepStatus.failed → late ≡ early

abbrev pub AllKeep : List StepRecord → List StepRecord → Type 0
AllKeep [] [] = Unit
AllKeep (a ∷ as') (b ∷ bs) = Keeps a b × AllKeep as' bs
AllKeep _ _ = ⊥

Keeps-refl : (a : StepRecord) → Keeps a a
Keeps-refl a = record {
  id = refl;
  run_id = refl;
  position = refl;
  operation = refl;
  depends_on = refl;
  request = refl;
  operation_key = refl;
  tool_key = refl;
  created_at = refl;
  attempts = omega arith;
  completed = λ _. refl;
  failed = λ _. refl;
}

Keeps-trans : (a b c : StepRecord) → Keeps a b → Keeps b c → Keeps a c
Keeps-trans a b c p q = record {
  id = q.id ∙ p.id;
  run_id = q.run_id ∙ p.run_id;
  position = q.position ∙ p.position;
  operation = q.operation ∙ p.operation;
  depends_on = q.depends_on ∙ p.depends_on;
  request = q.request ∙ p.request;
  operation_key = q.operation_key ∙ p.operation_key;
  tool_key = q.tool_key ∙ p.tool_key;
  created_at = q.created_at ∙ p.created_at;
  attempts = omega (arith, p.attempts, q.attempts);
  completed =
      λ e. q.completed (ap (λ (s : StepRecord). s.status) (p.completed e) ∙ e) ∙ p.completed e;
  failed = λ e. q.failed (ap (λ (s : StepRecord). s.status) (p.failed e) ∙ e) ∙ p.failed e;
}

runnable-ne_terminal :
    (s : StepStatus)
    → runnable_status s ≡ true
    → (s ≢ StepStatus.completed) × (s ≢ StepStatus.failed)
runnable-ne_terminal s h = (λ e. ground arith, λ e. ground arith)

pub StepMove-Keeps :
    (run : WorkflowRun) (step : StepRecord) (at : ℕ) (moved : StepRecord)
    → StepMove run step at moved
    → Keeps step moved
StepMove-Keeps run step at moved (attempts r d e) =
    let live = runnable-ne_terminal step.status r in ground arith
StepMove-Keeps run step at moved (retries error next r e) = ground arith
StepMove-Keeps run step at moved (finishes output r e) = ground arith
StepMove-Keeps run step at moved (breaks error r e) = ground arith

AllKeep-refl : (steps : List StepRecord) → AllKeep steps steps
AllKeep-refl [] = tt
AllKeep-refl (s ∷ steps) = (Keeps-refl s, AllKeep-refl steps)

AllKeep-set :
    (early steps : List StepRecord) (index : ℕ) (step moved : StepRecord)
    → AllKeep early steps
    → get_elem? steps index ≡ some step
    → Keeps step moved
    → AllKeep early (set steps index moved)
AllKeep-set [] [] index step moved h g k = h
AllKeep-set (a ∷ early) (b ∷ steps) zero step moved h g k =
    let same : b ≡ step = cc in
    (Keeps-trans a b moved h.0 (subst (λ s. Keeps s moved) (sym same) k), h.1)
AllKeep-set (a ∷ early) (b ∷ steps) (suc index) step moved h g k =
    (h.0, AllKeep-set early steps index step moved h.1 g k)
AllKeep-set _ _ index step moved h g k = absurd h

-- `late` is the run `early` after more events.
pub record Continues (early late : WorkflowRun) : Type 0 where
  pub run_id : late.run_id ≡ early.run_id
  pub name : late.name ≡ early.name
  pub created_at : late.created_at ≡ early.created_at
  pub steps : AllKeep early.steps late.steps

RunMove-Continues :
    (early current : WorkflowRun) (at : ℕ) (next : WorkflowRun)
    → Continues early current
    → RunMove current at next
    → Continues early next
RunMove-Continues early current at next c (completes d e) =
    rw e (record { run_id = c.run_id; name = c.name; created_at = c.created_at; steps = c.steps })
RunMove-Continues early current at next c (fails i s g f e) =
    rw e (record { run_id = c.run_id; name = c.name; created_at = c.created_at; steps = c.steps })
RunMove-Continues early current at next c (moves i s m g d e) = rw e (record {
  run_id = c.run_id;
  name = c.name;
  created_at = c.created_at;
  steps = AllKeep-set early.steps current.steps i s m c.steps g (StepMove-Keeps current s at m d);
})

-- When a history and a longer one are both accepted, the longer one rebuilds the same run: the same
-- identity, name and steps with the same definitions and operation keys, no fewer attempts of any
-- step, and every completed or failed step unchanged.
pub reduce-Continues :
    (py : Pydantic) (xs ys : List WorkflowRunEvent) (early late : WorkflowRun)
    → reduce_workflow_run_history py xs ≡ ok early
    → reduce_workflow_run_history py (xs ++ ys) ≡ ok late
    → Continues early late
reduce-Continues py xs ys early late h k =
    let (run_id, middle, after, m, a, folded) = reduce-append_cases py xs ys early late h k in
    subst (OnSome (Continues early)) a (
      fold_events-extends (Continues early) (λ c at n _ p d. RunMove-Continues early c at n p d) py
        run_id middle ys after folded
        (rw m (record {
          run_id = refl;
          name = refl;
          created_at = refl;
          steps = AllKeep-refl early.steps;
        })))
