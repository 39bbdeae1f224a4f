-- ===== src/History/Order.antt =====
-- The order of an accepted history: its sequence numbers, its owner, and its end.
use crashsafe.Prelude.{
  ℕ, ◌+◌, String, true, ◌≡◌, ◌≢◌, subst, ap, ◌∙◌, sym, Option, some, List, [], ◌∷◌, ◌++◌, arith, ok,
  >>=-eq-ok, ok_injective, str_eq_iff,
}
use crashsafe.Models.{WorkflowRunStatus, WorkflowRun, WorkflowRunEvent}
use crashsafe.History.Payloads.{Pydantic, supported}
use crashsafe.History.Transitions.{created_run}
use crashsafe.History.StateMachine.{RunMove, completes, fails, moves}
use crashsafe.History.Replay.{
  Evolves, creation, movement, OnRun, fold_event-Evolves, reduce_cases, reduce-append_cases,
}
use crashsafe.History.{
  Cursor, start, check_event, fold_event, fold_events, reduce_workflow_run_history,
}

-- The events belong to the run and are numbered without a gap from `n` on.
abbrev pub IsNumbered : String → ℕ → List WorkflowRunEvent → Type 0
IsNumbered run_id n [] = Unit
IsNumbered run_id n (e ∷ es) =
    (e.run_id ≡ run_id)
    × (e.sequence ≡ n)
    × (supported e.schema_version ≡ true)
    × IsNumbered run_id (n + 1) es

abbrev pub Owned : String → WorkflowRun → Type 0
Owned run_id run = run.run_id ≡ run_id

RunMove-run_id :
    (run : WorkflowRun) (at : ℕ) (next : WorkflowRun)
    → RunMove run at next
    → next.run_id ≡ run.run_id
RunMove-run_id run at next (completes d e) = rw e
RunMove-run_id run at next (fails i s g f e) = rw e
RunMove-run_id run at next (moves i s m g d e) = rw e

Evolves-Owned :
    (run_id : String) (old : Option WorkflowRun) (at : ℕ) (next : WorkflowRun)
    → Evolves run_id old at next
    → OnRun (Owned run_id) old
    → next.run_id ≡ run_id
unfolding created_run
Evolves-Owned run_id old at next (creation created valid none_yet e) p = rw e
Evolves-Owned run_id old at next (movement current e running m) p =
    RunMove-run_id current at next m ∙ subst (OnRun (Owned run_id)) e p

check_event_lem :
    (run_id : String) (n : ℕ) (e : WorkflowRunEvent)
    → check_event run_id n e ≡ ok tt
    → (e.run_id ≡ run_id) × (e.sequence ≡ n) × (supported e.schema_version ≡ true)
check_event_lem run_id n e h =
    (ground (arith, str_eq_iff e.run_id run_id), ground arith, ground arith)

module _ (py : Pydantic) where
  pub fold_events-IsNumbered :
      (run_id : String) (cursor : Cursor) (events : List WorkflowRunEvent) (after : Cursor)
      → fold_events py run_id cursor events ≡ ok after
      → OnRun (Owned run_id) cursor.run
      → IsNumbered run_id cursor.expected_sequence events × OnRun (Owned run_id) after.run
  unfolding fold_events
  fold_events-IsNumbered run_id cursor [] after h p =
      (tt, subst (OnRun (Owned run_id)) (ap (λ c. c.run) (ok_injective h)) p)
  fold_events-IsNumbered run_id cursor (event ∷ events) after h p =
      let (middle, e, rest) = >>=-eq-ok (fold_event py run_id cursor event) _ h in
      let (next, checked, same, evolves) = fold_event-Evolves py run_id cursor event middle e in
      let (a, b, c) = check_event_lem run_id cursor.expected_sequence event checked in
      let (numbered, owned) =
        fold_events-IsNumbered run_id middle events after rest
          (rw same (Evolves-Owned run_id cursor.run event.occurred_at next evolves p)) in
      let count = ap (λ (m : Cursor). m.expected_sequence) same in
      ((a, b, c, subst (λ n. IsNumbered run_id n events) count numbered), owned)

-- An accepted history belongs to one run, the rebuilt one, and its events are numbered 1, 2, 3 and
-- so on without a gap, each with a supported schema version.
pub reduce-IsNumbered :
    (py : Pydantic) (events : List WorkflowRunEvent) (run : WorkflowRun)
    → reduce_workflow_run_history py events ≡ ok run
    → IsNumbered run.run_id 1 events
reduce-IsNumbered py events run h =
    let (first, rest, cursor, _, folded, same, _) = reduce_cases py events run h in
    let (numbered, owned) = fold_events-IsNumbered py first.run_id start events cursor folded tt in
    let owner : run.run_id ≡ first.run_id = subst (OnRun (Owned first.run_id)) same owned in
    subst (λ r. IsNumbered r 1 events) (sym owner) numbered

Evolves-running :
    (run_id : String) (run : WorkflowRun) (old : Option WorkflowRun) (at : ℕ) (next : WorkflowRun)
    → old ≡ some run
    → Evolves run_id old at next
    → run.status ≡ WorkflowRunStatus.running
Evolves-running run_id run old at next e (creation created valid none_yet _) = absurd (cc)
Evolves-running run_id run old at next e (movement current e' running m) = ground arith

-- Once the run that a history rebuilds is terminal, no longer history is accepted.
pub reduce-terminal_closed :
    (py : Pydantic) (xs : List WorkflowRunEvent) (e : WorkflowRunEvent) (ys : List WorkflowRunEvent)
    (early late : WorkflowRun)
    → reduce_workflow_run_history py xs ≡ ok early
    → early.status ≢ WorkflowRunStatus.running
    → reduce_workflow_run_history py (xs ++ e ∷ ys) ≢ ok late
unfolding fold_events
reduce-terminal_closed py xs e ys early late h terminal k =
    let (run_id, middle, after, m, _, folded) = reduce-append_cases py xs (e ∷ ys) early late h k in
    let (cursor, first, _) = >>=-eq-ok (fold_event py run_id middle e) _ folded in
    let (next, _, _, evolves) = fold_event-Evolves py run_id middle e cursor first in
    terminal (Evolves-running run_id early middle.run e.occurred_at next m evolves)
