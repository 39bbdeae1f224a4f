-- ===== src/Storage/Projection/Match.antt =====
-- The rows read back are the run that the history reduces to.
use crashsafe.Prelude.{
  ℕ, ◌+◌, String, ◌≡◌, refl, sym, subst, List, [], ◌∷◌, map, arith, ok, any, all,
}
use crashsafe.Models.{StepStatus, status_eq, WorkflowRun, WorkflowRunEvent}
use crashsafe.History.Payloads.{Pydantic}
use crashsafe.History.Order.{IsNumbered, fold_events-IsNumbered}
use crashsafe.History.{start, fold_events, check_final, reduce_workflow_run_history}
use crashsafe.Storage.Db.{
  Db, RunRow, StepRow, step_rows, dependencies, step_from_row, workflow_run_from_rows, max_sequence,
}
use crashsafe.Storage.Reads.{
  insert_by_position, order_by_position, get_workflow_run, events_of, insert_by_sequence,
  order_by_sequence, list_events,
}
use crashsafe.Storage.Projection.Events.{cursor_at}
use crashsafe.Storage.Projection.Steps.{PositionsFrom}
use crashsafe.Storage.Projection.Settled.{IsSettled, Matches}

-- Rows in position order are returned as they stand.
pub order_by_position-id :
    (n : ℕ) (rows : List StepRow) → PositionsFrom n rows → order_by_position rows ≡ rows
unfolding order_by_position insert_by_position
order_by_position-id n [] h = refl
order_by_position-id n (row ∷ []) h = refl
order_by_position-id n (row ∷ next ∷ rows) h =
    ground (arith, order_by_position-id (n + 1) (next ∷ rows) h.1)

order_by_sequence-id :
    (run_id : String) (n : ℕ) (events : List WorkflowRunEvent)
    → IsNumbered run_id n events
    → order_by_sequence events ≡ events
unfolding order_by_sequence insert_by_sequence
order_by_sequence-id run_id n [] h = refl
order_by_sequence-id run_id n (e ∷ []) h = refl
order_by_sequence-id run_id n (e ∷ next ∷ events) h =
    ground (arith, order_by_sequence-id run_id (n + 1) (next ∷ events) h.3)

pub any-view :
    (deps : String → List String) (rows : List StepRow)
    → any (λ step. status_eq step.status StepStatus.failed) (map (step_from_row deps) rows)
      ≡ any (λ (row : StepRow). status_eq row.status StepStatus.failed) rows
unfolding step_from_row
any-view deps [] = refl
any-view deps (row ∷ rows) = ground (arith, any-view deps rows)

pub all-view :
    (deps : String → List String) (rows : List StepRow)
    → all (λ step. status_eq step.status StepStatus.completed) (map (step_from_row deps) rows)
      ≡ all (λ (row : StepRow). status_eq row.status StepStatus.completed) rows
unfolding step_from_row
all-view deps [] = refl
all-view deps (row ∷ rows) = ground (arith, all-view deps rows)

check_final-IsSettled :
    (run : RunRow) (rows : List StepRow) (deps : String → List String)
    → IsSettled run rows
    → check_final (workflow_run_from_rows run rows deps) ≡ ok (workflow_run_from_rows run rows deps)
unfolding check_final workflow_run_from_rows
check_final-IsSettled run rows deps s =
    ground (arith, any-view deps rows, all-view deps rows, s.none_failed, s.some_left)

-- `projection_matches_history`: both sides are the same run.
pub record ProjectionMatchesHistory (py : Pydantic) (run_id : String) (db : Db) : Type 0 where
  pub run : WorkflowRun
  pub events : List WorkflowRunEvent
  pub read : get_workflow_run db run_id ≡ ok run
  pub listed : list_events db run_id ≡ ok events
  pub reduced : reduce_workflow_run_history py events ≡ ok run

events_nonempty :
    (py : Pydantic) (run_id : String) (events : List WorkflowRunEvent) (run : WorkflowRun) (n : ℕ)
    → fold_events py run_id start events ≡ ok (cursor_at run n)
    → (first : WorkflowRunEvent) × (rest : List WorkflowRunEvent) × (events ≡ first ∷ rest)
unfolding fold_events
events_nonempty py run_id [] run n h = absurd (cc)
events_nonempty py run_id (first ∷ rest) run n h = (first, rest, refl)

reduce-fold :
    (py : Pydantic) (first : WorkflowRunEvent) (rest : List WorkflowRunEvent) (run : WorkflowRun)
    (n : ℕ)
    → fold_events py first.run_id start (first ∷ rest) ≡ ok (cursor_at run n)
    → check_final run ≡ ok run
    → reduce_workflow_run_history py (first ∷ rest) ≡ ok run
unfolding reduce_workflow_run_history
reduce-fold py first rest run n h k = rw h k

pub Matches-history :
    (py : Pydantic) (run_id : String) (db : Db) (run : RunRow)
    → Matches py run_id db run
    → ProjectionMatchesHistory py run_id db
unfolding get_workflow_run list_events
Matches-history py run_id db run m =
    let p = m.projected in
    let rows = step_rows db run_id in
    let deps = dependencies db run_id in
    let view = workflow_run_from_rows run rows deps in
    let n = max_sequence run_id db.workflow_run_events + 1 in
    let events = events_of run_id db.workflow_run_events in
    let (first, rest, split) = events_nonempty py run_id events view _ p.tracked.folded in
    let numbered = (fold_events-IsNumbered py run_id start events _ p.tracked.folded tt).0 in
    let owner : first.run_id ≡ run_id = (subst (IsNumbered run_id 1) split numbered).0 in
    let folded : fold_events py first.run_id start (first ∷ rest) ≡ ok (cursor_at view n) =
      subst (λ r. fold_events py r start (first ∷ rest) ≡ ok (cursor_at view n)) (sym owner)
        (subst (λ es. fold_events py run_id start es ≡ ok (cursor_at view n)) split
          p.tracked.folded) in
    record {
      run = view;
      events = first ∷ rest;
      read = rw (p.found, order_by_position-id 0 rows p.positions) refl;
      listed = rw (order_by_sequence-id run_id 1 events numbered, split) refl;
      reduced =
          reduce-fold py first rest view n folded (check_final-IsSettled run rows deps m.settled);
    }
