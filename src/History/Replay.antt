-- ===== src/History/Replay.antt =====
-- The fold over a history: what one accepted event does, and the rule for invariants of the run.
use crashsafe.Prelude.{
  ℕ, ◌+◌, String, sym, or_raise-some, ◌≡◌, refl, ◌∙◌, Option, none, some, List, [], ◌∷◌, ◌++◌,
  arith, ok, ◌>>=◌, >>=-eq-ok, or_raise, Result-cases, inl, inr, subst, ap, ok_injective,
}
use crashsafe.Models.{
  WorkflowRunStatus, EventType, workflow_run_created, EventPayload, created_payload,
  WorkflowRunCreatedPayload, WorkflowRun, WorkflowRunEvent,
}
use crashsafe.History.Definitions.{invalid_payload, assertion_failed, validate_definitions}
use crashsafe.History.Payloads.{Pydantic, parse_payload}
use crashsafe.History.Transitions.{created_run, create_run}
use crashsafe.History.StateMachine.{RunMove, advance-RunMove}
use crashsafe.History.{
  Cursor, start, require_running, check_event, next_run, fold_event, fold_events, check_final,
  reduce_workflow_run_history,
}

-- What one accepted event does to the run.
pub data Evolves (run_id : String) (old : Option WorkflowRun) (at : ℕ) (next : WorkflowRun)
    : Type 0 where
  creation :
      (created : WorkflowRunCreatedPayload)
      → validate_definitions run_id created.steps ≡ ok tt
      → old ≡ none
      → next ≡ created_run run_id created at
      → Evolves run_id old at next
  movement :
      (current : WorkflowRun)
      → old ≡ some current
      → current.status ≡ WorkflowRunStatus.running
      → RunMove current at next
      → Evolves run_id old at next

create_run-Evolves :
    (run_id : String) (old : Option WorkflowRun) (event : WorkflowRunEvent) (payload : EventPayload)
    (next : WorkflowRun)
    → create_run run_id old event payload ≡ ok next
    → Evolves run_id old event.occurred_at next
unfolding create_run
create_run-Evolves run_id old event (created_payload created) next h =
    creation created (ground arith) (ground arith) (ground arith)
create_run-Evolves run_id old event _ next h = absurd (ground arith)

require_running_lem :
    (old : Option WorkflowRun) (current : WorkflowRun)
    → require_running old ≡ ok current
    → (old ≡ some current) × (current.status ≡ WorkflowRunStatus.running)
require_running_lem old current h = (ground arith, ground arith)

next_run-Evolves :
    (event_type : EventType) (run_id : String) (old : Option WorkflowRun) (event : WorkflowRunEvent)
    (payload : EventPayload) (next : WorkflowRun)
    → next_run event_type run_id old event payload ≡ ok next
    → Evolves run_id old event.occurred_at next
unfolding next_run
next_run-Evolves workflow_run_created run_id old event payload next h =
    create_run-Evolves run_id old event payload next h
next_run-Evolves event_type run_id old event payload next h =
    let (current, e, m) = >>=-eq-ok (require_running old) _ h in
    let (same, running) = require_running_lem old current e in
    movement current same running (advance-RunMove event_type current event payload next m)

module _ (py : Pydantic) where
  -- An accepted event passed the checks of the loop's head, and makes one step.
  pub fold_event-Evolves :
      (run_id : String) (cursor : Cursor) (event : WorkflowRunEvent) (after : Cursor)
      → fold_event py run_id cursor event ≡ ok after
      → (next : WorkflowRun) × (check_event run_id cursor.expected_sequence event ≡ ok tt)
        × (after ≡ record { run = some next; expected_sequence = cursor.expected_sequence + 1 })
        × Evolves run_id cursor.run event.occurred_at next
  unfolding fold_event
  fold_event-Evolves run_id cursor event after h =
      let (checked, e, h₁) = >>=-eq-ok (check_event run_id cursor.expected_sequence event) _ h in
      let (payload, p, h₂) =
        >>=-eq-ok (or_raise (parse_payload py event.event_type event.payload) invalid_payload) _
          h₁ in
      let (next, n, h₃) =
        >>=-eq-ok (next_run event.event_type run_id cursor.run event payload) _ h₂ in
      (next, e, cc, next_run-Evolves event.event_type run_id cursor.run event payload next n)

  pub fold_events-append :
      (run_id : String) (cursor : Cursor) (xs ys : List WorkflowRunEvent)
      → fold_events py run_id cursor (xs ++ ys)
        ≡ (fold_events py run_id cursor xs >>= λ next. fold_events py run_id next ys)
  unfolding fold_events
  fold_events-append run_id cursor [] ys = refl
  fold_events-append run_id cursor (x ∷ xs) ys =
      elim (Result-cases (fold_event py run_id cursor x)) [
        | inl (next, e) ↦ rw e (fold_events-append run_id next xs ys)
        | inr (error, e) ↦ rw e refl
      ]

abbrev pub OnRun : (WorkflowRun → Type 0) → Option WorkflowRun → Type 0
OnRun P none = Unit
OnRun P (some run) = P run

-- An invariant that creation establishes and every move of a running run keeps.
module _ (P : WorkflowRun → Type 0)
    (born : (run_id : String) (created : WorkflowRunCreatedPayload) (at : ℕ)
      → validate_definitions run_id created.steps ≡ ok tt
      → P (created_run run_id created at))
    (kept : (current : WorkflowRun) (at : ℕ) (next : WorkflowRun)
      → current.status ≡ WorkflowRunStatus.running
      → P current
      → RunMove current at next
      → P next)
    (py : Pydantic) where
  Evolves-keeps :
      (run_id : String) (old : Option WorkflowRun) (at : ℕ) (next : WorkflowRun)
      → Evolves run_id old at next
      → OnRun P old
      → P next
  Evolves-keeps run_id old at next (creation created valid none_yet e) p =
      rw e (born run_id created at valid)
  Evolves-keeps run_id old at next (movement current e running m) p =
      kept current at next running (subst (OnRun P) e p) m

  pub fold_events-keeps :
      (run_id : String) (cursor : Cursor) (events : List WorkflowRunEvent) (after : Cursor)
      → fold_events py run_id cursor events ≡ ok after
      → OnRun P cursor.run
      → OnRun P after.run
  unfolding fold_events
  fold_events-keeps run_id cursor [] after h p =
      subst (OnRun P) (ap (λ c. c.run) (ok_injective h)) p
  fold_events-keeps run_id cursor (event ∷ events) after h p =
      let (middle, e, rest) = >>=-eq-ok (fold_event py run_id cursor event) _ h in
      let (next, _, same, evolves) = fold_event-Evolves py run_id cursor event middle e in
      fold_events-keeps run_id middle events after rest
        (rw same (Evolves-keeps run_id cursor.run event.occurred_at next evolves p))

pub check_final_same : (run result : WorkflowRun) → check_final run ≡ ok result → run ≡ result
unfolding check_final
check_final_same run result h = ground arith

-- The parts of an accepted history.
pub reduce_cases :
    (py : Pydantic) (events : List WorkflowRunEvent) (run : WorkflowRun)
    → reduce_workflow_run_history py events ≡ ok run
    → (first : WorkflowRunEvent) × (rest : List WorkflowRunEvent) × (cursor : Cursor) × (events
        ≡ first ∷ rest)
      × (fold_events py first.run_id start events ≡ ok cursor)
      × (cursor.run ≡ some run)
      × (check_final run ≡ ok run)
unfolding reduce_workflow_run_history check_final
reduce_cases py [] run h = absurd (cc)
reduce_cases py (first ∷ rest) run h =
    let (cursor, e, h₁) = >>=-eq-ok (fold_events py first.run_id start (first ∷ rest)) _ h in
    let (run', e', h₂) = >>=-eq-ok (or_raise cursor.run assertion_failed) _ h₁ in
    (first, rest, cursor, refl, e, ground arith, ground arith)

-- The rule for the whole reducer.
module _ (P : WorkflowRun → Type 0)
    (born : (run_id : String) (created : WorkflowRunCreatedPayload) (at : ℕ)
      → validate_definitions run_id created.steps ≡ ok tt
      → P (created_run run_id created at))
    (kept : (current : WorkflowRun) (at : ℕ) (next : WorkflowRun)
      → current.status ≡ WorkflowRunStatus.running
      → P current
      → RunMove current at next
      → P next)
    (py : Pydantic) where
  pub reduce-keeps :
      (events : List WorkflowRunEvent) (run : WorkflowRun)
      → reduce_workflow_run_history py events ≡ ok run
      → P run
  reduce-keeps events run h =
      let (first, rest, cursor, _, folded, same, _) = reduce_cases py events run h in
      subst (OnRun P) same
        (fold_events-keeps P born kept py first.run_id start events cursor folded tt)

abbrev pub OnSome : (WorkflowRun → Type 0) → Option WorkflowRun → Type 0
OnSome P none = ⊥
OnSome P (some run) = P run

-- The rule for the events that follow the creation.
module _ (P : WorkflowRun → Type 0)
    (kept : (current : WorkflowRun) (at : ℕ) (next : WorkflowRun)
      → current.status ≡ WorkflowRunStatus.running
      → P current
      → RunMove current at next
      → P next)
    (py : Pydantic) where
  Evolves-extends :
      (run_id : String) (old : Option WorkflowRun) (at : ℕ) (next : WorkflowRun)
      → Evolves run_id old at next
      → OnSome P old
      → P next
  Evolves-extends run_id old at next (creation created valid none_yet e) p =
      absurd (subst (OnSome P) none_yet p)
  Evolves-extends run_id old at next (movement current e running m) p =
      kept current at next running (subst (OnSome P) e p) m

  pub fold_events-extends :
      (run_id : String) (cursor : Cursor) (events : List WorkflowRunEvent) (after : Cursor)
      → fold_events py run_id cursor events ≡ ok after
      → OnSome P cursor.run
      → OnSome P after.run
  unfolding fold_events
  fold_events-extends run_id cursor [] after h p =
      subst (OnSome P) (ap (λ c. c.run) (ok_injective h)) p
  fold_events-extends run_id cursor (event ∷ events) after h p =
      let (middle, e, rest) = >>=-eq-ok (fold_event py run_id cursor event) _ h in
      let (next, _, same, evolves) = fold_event-Evolves py run_id cursor event middle e in
      fold_events-extends run_id middle events after rest
        (rw same (Evolves-extends run_id cursor.run event.occurred_at next evolves p))

-- Two accepted histories, one a prefix of the other: the fold goes on from the prefix's run.
pub reduce-append_cases :
    (py : Pydantic) (xs ys : List WorkflowRunEvent) (early late : WorkflowRun)
    → reduce_workflow_run_history py xs ≡ ok early
    → reduce_workflow_run_history py (xs ++ ys) ≡ ok late
    → (run_id : String) × (middle : Cursor) × (after : Cursor) × (middle.run ≡ some early)
      × (after.run ≡ some late)
      × (fold_events py run_id middle ys ≡ ok after)
unfolding reduce_workflow_run_history
reduce-append_cases py [] ys early late h k = absurd (cc)
reduce-append_cases py (first ∷ rest) ys early late h k =
    let (middle, e, h₁) = >>=-eq-ok (fold_events py first.run_id start (first ∷ rest)) _ h in
    let (run, f, h₂) = >>=-eq-ok (or_raise middle.run assertion_failed) _ h₁ in
    let (after, e', k₁) =
      >>=-eq-ok (fold_events py first.run_id start (first ∷ (rest ++ ys))) _ k in
    let (run', f', k₂) = >>=-eq-ok (or_raise after.run assertion_failed) _ k₁ in
    let joined : fold_events py first.run_id start ((first ∷ rest) ++ ys) ≡ ok after = e' in
    let split = sym (fold_events-append py first.run_id start (first ∷ rest) ys) ∙ joined in
    (
      first.run_id,
      middle,
      after,
      or_raise-some middle.run assertion_failed run f ∙ ap some (check_final_same run early h₂),
      or_raise-some after.run assertion_failed run' f' ∙ ap some (check_final_same run' late k₂),
      rw e at split,
    )
