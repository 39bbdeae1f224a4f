-- ===== src/History/Shape.antt =====
-- The steps of a rebuilt run carry the definitions that its creation was checked with.
use crashsafe.Prelude.{
  ℕ, zero, suc, String, ◌≡◌, refl, sym, ap, subst, ◌∙◌, arith, some, List, [], ◌∷◌, map, ok,
  >>=-eq-ok, ok_injective, get_elem?, set, All, All-set,
}
use crashsafe.Models.{
  StepDefinition, WorkflowRunCreatedPayload, StepRecord, WorkflowRun, WorkflowRunEvent,
}
use crashsafe.History.Definitions.{validate_definitions}
use crashsafe.History.Payloads.{Pydantic}
use crashsafe.History.Transitions.{step_of_definition, created_run}
use crashsafe.History.StateMachine.{RunMove, completes, fails, moves}
use crashsafe.History.Replay.{reduce-keeps, fold_event-Evolves, Evolves, creation, movement}
use crashsafe.History.Frozen.{Keeps, StepMove-Keeps}
use crashsafe.History.{Cursor, fold_event, fold_events, start, reduce_workflow_run_history}

-- The definition that a step carries.
abbrev pub as_definition : StepRecord → StepDefinition
as_definition step = record {
  id = step.id;
  position = step.position;
  operation = step.operation;
  depends_on = step.depends_on;
  request = step.request;
  operation_key = step.operation_key;
  tool_key = step.tool_key;
}

abbrev pub definitions_of : WorkflowRun → List StepDefinition
definitions_of run = map as_definition run.steps

pub record HasDefinitions (run : WorkflowRun) : Type 0 where
  pub valid : validate_definitions run.run_id (definitions_of run) ≡ ok tt
  pub owned : All (λ (s : StepRecord). s.run_id ≡ run.run_id) run.steps

as_definition-new :
    (run_id : String) (at : ℕ) (ds : List StepDefinition)
    → map as_definition (map (step_of_definition run_id at) ds) ≡ ds
unfolding step_of_definition
as_definition-new run_id at [] = refl
as_definition-new run_id at (d ∷ ds) = ap (λ rest. d ∷ rest) (as_definition-new run_id at ds)

owned-new :
    (run_id : String) (at : ℕ) (ds : List StepDefinition)
    → All (λ (s : StepRecord). s.run_id ≡ run_id) (map (step_of_definition run_id at) ds)
unfolding step_of_definition
owned-new run_id at [] = tt
owned-new run_id at (d ∷ ds) = (refl, owned-new run_id at ds)

as_definition-set :
    (steps : List StepRecord) (index : ℕ) (step moved : StepRecord)
    → get_elem? steps index ≡ some step
    → as_definition moved ≡ as_definition step
    → map as_definition (set steps index moved) ≡ map as_definition steps
as_definition-set [] index step moved g k = refl
as_definition-set (s ∷ steps) zero step moved g k =
    let same : s ≡ step = cc in
    ap (λ d. d ∷ map as_definition steps) (k ∙ ap as_definition (sym same))
as_definition-set (s ∷ steps) (suc index) step moved g k =
    ap (λ ds. as_definition s ∷ ds) (as_definition-set steps index step moved g k)

Keeps-as_definition :
    (step moved : StepRecord) → Keeps step moved → as_definition moved ≡ as_definition step
Keeps-as_definition step moved k =
    cc (k.id, k.position, k.operation, k.depends_on, k.request, k.operation_key, k.tool_key)

All-get {ℓ κ} :
    {A : Type ℓ} (P : A → Type κ) (xs : List A) (index : ℕ) (x : A)
    → All P xs
    → get_elem? xs index ≡ some x
    → P x
All-get P [] index x h g = absurd (cc)
All-get P (y ∷ ys) zero x h g = (let same : y ≡ x = cc in subst P same h.0)
All-get P (y ∷ ys) (suc index) x h g = All-get P ys index x h.1 g

created_run-HasDefinitions :
    (run_id : String) (created : WorkflowRunCreatedPayload) (at : ℕ)
    → validate_definitions run_id created.steps ≡ ok tt
    → HasDefinitions (created_run run_id created at)
unfolding created_run
created_run-HasDefinitions run_id created at valid = record {
  valid = rw (as_definition-new run_id at created.steps) valid;
  owned = owned-new run_id at created.steps;
}

RunMove-HasDefinitions :
    (run : WorkflowRun) (at : ℕ) (next : WorkflowRun)
    → HasDefinitions run
    → RunMove run at next
    → HasDefinitions next
RunMove-HasDefinitions run at next p (completes d e) =
    rw e (record { valid = p.valid; owned = p.owned })
RunMove-HasDefinitions run at next p (fails i s g f e) =
    rw e (record { valid = p.valid; owned = p.owned })
RunMove-HasDefinitions run at next p (moves i s m g d e) =
    let k = StepMove-Keeps run s at m d in
    let owner = All-get (λ (x : StepRecord). x.run_id ≡ run.run_id) run.steps i s p.owned g in
    rw e (record {
      valid = rw (as_definition-set run.steps i s m g (Keeps-as_definition s m k)) p.valid;
      owned =
          All-set (λ (x : StepRecord). x.run_id ≡ run.run_id) run.steps i m p.owned
            (k.run_id ∙ owner);
    })

-- The run that a history reduces to has steps that carry valid definitions, under its own id.
pub reduce-HasDefinitions :
    (py : Pydantic) (events : List WorkflowRunEvent) (run : WorkflowRun)
    → reduce_workflow_run_history py events ≡ ok run
    → HasDefinitions run
reduce-HasDefinitions =
    reduce-keeps HasDefinitions created_run-HasDefinitions
      (λ current at next running p m. RunMove-HasDefinitions current at next p m)

Owned : String → Cursor → Type 0
Owned run_id cursor = (run : WorkflowRun) → cursor.run ≡ some run → run.run_id ≡ run_id

RunMove-run_id :
    (run : WorkflowRun) (at : ℕ) (next : WorkflowRun)
    → RunMove run at next
    → next.run_id ≡ run.run_id
RunMove-run_id run at next (completes d e) = ap (λ (r : WorkflowRun). r.run_id) e
RunMove-run_id run at next (fails i s g f e) = ap (λ (r : WorkflowRun). r.run_id) e
RunMove-run_id run at next (moves i s m g d e) = ap (λ (r : WorkflowRun). r.run_id) e

Evolves-run_id :
    (run_id : String) (cursor : Cursor) (at : ℕ) (next : WorkflowRun)
    → Owned run_id cursor
    → Evolves run_id cursor.run at next
    → next.run_id ≡ run_id
unfolding Owned created_run
Evolves-run_id run_id cursor at next own (creation created valid none_yet e) =
    ap (λ (r : WorkflowRun). r.run_id) e
Evolves-run_id run_id cursor at next own (movement current same running m) =
    RunMove-run_id current at next m ∙ own current same

fold_events-Owned :
    (py : Pydantic) (run_id : String) (cursor : Cursor) (events : List WorkflowRunEvent)
    (after : Cursor)
    → fold_events py run_id cursor events ≡ ok after
    → Owned run_id cursor
    → Owned run_id after
unfolding fold_events Owned
fold_events-Owned py run_id cursor [] after h own = subst (Owned run_id) (ok_injective h) own
fold_events-Owned py run_id cursor (event ∷ events) after h own =
    let (middle, e, rest) = >>=-eq-ok (fold_event py run_id cursor event) _ h in
    let (next, _, same, evolves) = fold_event-Evolves py run_id cursor event middle e in
    let key = Evolves-run_id run_id cursor event.occurred_at next own evolves in
    fold_events-Owned py run_id middle events after rest (λ run found.
      let it : next ≡ run = ground (arith, found, same) in
      subst (λ (r : WorkflowRun). r.run_id ≡ run_id) it key)

-- The run that is rebuilt is the run of the events.
pub fold_events-run_id :
    (py : Pydantic) (run_id : String) (events : List WorkflowRunEvent) (after : Cursor)
    (run : WorkflowRun)
    → fold_events py run_id start events ≡ ok after
    → after.run ≡ some run
    → run.run_id ≡ run_id
unfolding Owned
fold_events-run_id py run_id events after run h same =
    fold_events-Owned py run_id start events after h (λ r none_yet. absurd (cc)) run same
