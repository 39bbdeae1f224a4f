-- ===== src/Storage/Projection/Endings.antt =====
-- `complete_step`, which may end the run, keeps the projection equal to the history.
use crashsafe.Prelude.{
  ◌+◌, String, true, false, not, ◌&&◌, ◌≡◌, refl, ap, subst, none, some, List, [], ◌∷◌, map, arith,
  Bool-cases, inl, inr, ok, >>=-eq-ok, ok_injective, length, ◌==◌, any, where_rows, update_rows,
}
use crashsafe.Models.Values.{Json}
use crashsafe.Models.{
  Datetime, StepStatus, WorkflowRunStatus, step_completed, workflow_run_completed,
  run_completed_payload, completed_payload, status_eq, WorkflowRunEvent,
}
use crashsafe.History.Payloads.{Pydantic, event_schema_version}
use crashsafe.History.Transitions.{complete_run, advance}
use crashsafe.History.{next_run}
use crashsafe.Storage.Db.{
  is_step, Db, RunRow, StepRow, of_run, step_rows, get_step_row, update_step, update_run,
  step_from_row, dependencies, workflow_run_from_rows, append_event, max_sequence,
}
use crashsafe.Storage.Attempts.{
  Caller, set_completed, require_lease, remaining_steps, complete_run_if_done, complete_step_body,
}
use crashsafe.Storage.Projection.Rows.{has_id, where_rows-update_rows}
use crashsafe.Storage.Projection.Events.{append-Tracks}
use crashsafe.Storage.Projection.Steps.{Projected, update_step-Projected}
use crashsafe.Storage.Projection.Moves.{complete_move}
use crashsafe.Storage.Projection.Attempt.{get_step_row-found}
use crashsafe.Storage.Projection.Settled.{
  IsSettled, Matches, any_failed, all_completed, any_failed-update_rows, count-all_completed,
}
use crashsafe.Storage.Projection.Outcomes.{set_completed-KeepsKeys, update_run-Projected}

abbrev pub set_run_completed : Datetime → RunRow → RunRow
set_run_completed now run = record run {
  status = WorkflowRunStatus.completed;
  completed_at = some now;
  updated_at = now;
}

all_done :
    (deps : String → List String) (run_id : String) (rows : List StepRow)
    → length (
        where_rows
          (λ (row : StepRow). of_run run_id row && not (status_eq row.status StepStatus.completed))
          rows)
      ≡ 0
    → any
        (λ step. not (status_eq step.status StepStatus.completed))
        (map (step_from_row deps) (where_rows (of_run run_id) rows))
      ≡ false
unfolding where_rows step_from_row
all_done deps run_id [] h = refl
all_done deps run_id (row ∷ rows) h = ground (arith, all_done deps run_id rows)

none_remaining :
    (deps : String → List String) (run_id : String) (db : Db)
    → (remaining_steps run_id db == 0) ≡ true
    → any
        (λ step. not (status_eq step.status StepStatus.completed))
        (map (step_from_row deps) (step_rows db run_id))
      ≡ false
unfolding remaining_steps step_rows
none_remaining deps run_id db h = all_done deps run_id db.steps (ground arith)

some_remaining :
    (run_id : String) (db : Db)
    → (remaining_steps run_id db == 0) ≡ false
    → all_completed (step_rows db run_id) ≡ false
unfolding remaining_steps step_rows
some_remaining run_id db h = count-all_completed run_id db.steps h

complete_run-rows :
    (run : RunRow) (deps : String → List String) (rows : List StepRow) (run_id : String)
    (event : WorkflowRunEvent)
    → run.status ≡ WorkflowRunStatus.running
    → any (λ step. not (status_eq step.status StepStatus.completed)) (map (step_from_row deps) rows)
      ≡ false
    → event.step_id ≡ none
    → event.attempt ≡ none
    → next_run workflow_run_completed run_id
        (some (workflow_run_from_rows run rows deps))
        event
        run_completed_payload
      ≡ ok (workflow_run_from_rows (set_run_completed event.occurred_at run) rows deps)
unfolding next_run advance complete_run workflow_run_from_rows
complete_run-rows run deps rows run_id event running done s a = ground arith

module _ (py : Pydantic) (run_id : String) (now : Datetime) (db : Db) (run : RunRow)
    (projected : Projected py run_id db run)
    (running : run.status ≡ WorkflowRunStatus.running) where
  complete_run_if_done-Matches :
      any_failed (step_rows db run_id) ≡ false
      → (run' : RunRow) × Matches py run_id (complete_run_if_done py run_id now db) run'
  unfolding complete_run_if_done append_event update_run
  complete_run_if_done-Matches calm = elim (Bool-cases (remaining_steps run_id db == 0)) [
    | inl e ↦
        let done = none_remaining (dependencies db run_id) run_id db e in
        let tracked =
          append-Tracks py run_id db.workflow_run_events _ projected.tracked
            (record {
              id = db.next_event_id;
              run_id = run_id;
              sequence = max_sequence run_id db.workflow_run_events + 1;
              event_type = workflow_run_completed;
              schema_version = event_schema_version;
              step_id = none;
              attempt = none;
              payload = py.dump run_completed_payload;
              occurred_at = now;
            })
            run_completed_payload _ refl refl refl refl refl
            (complete_run-rows run (dependencies db run_id) (step_rows db run_id) run_id _ running
              done refl refl) in
        (
          set_run_completed now run,
          rw e (record {
            projected =
                update_run-Projected py run_id (set_run_completed now) (λ r. refl) db run projected
                  _ (db.next_event_id + 1) tracked;
            settled = record { none_failed = λ r. absurd (cc); some_left = λ r. absurd (cc) };
          }),
        )
    | inr e ↦ (
      run,
      rw e (record {
        projected = projected;
        settled = record { none_failed = λ _. calm; some_left = λ _. some_remaining run_id db e };
      }),
    )
  ]

module _ (py : Pydantic) (run_id step_id : String) (caller : Caller) (db : Db) (run : RunRow)
    (projected : Projected py run_id db run)
    (running : run.status ≡ WorkflowRunStatus.running) where
  calm :
      (output : Json)
      → IsSettled run (step_rows db run_id)
      → any_failed (
          where_rows
            (of_run run_id)
            (update_rows (is_step run_id step_id) (set_completed output caller.now) db.steps))
        ≡ false
  unfolding step_rows
  calm output settled =
      rw
        (where_rows-update_rows run_id step_id (set_completed output caller.now)
          (set_completed-KeepsKeys output caller.now) db.steps)
        (any_failed-update_rows (has_id step_id) (set_completed output caller.now)
          (step_rows db run_id) (λ r. refl) (settled.none_failed running))

  pub complete_step_body-Matches :
      IsSettled run (step_rows db run_id)
      → (output : Json) (after : Db)
      → complete_step_body py run_id step_id output caller db ≡ ok (tt, after)
      → (run' : RunRow) × Matches py run_id after run'
  unfolding complete_step_body append_event step_rows update_step
  complete_step_body-Matches settled output after h =
      let (row, at, h₁) = >>=-eq-ok (get_step_row db run_id step_id) _ h in
      let (_, _, h₂) =
        >>=-eq-ok (require_lease db row caller.owner_id caller.fence_token caller.checked_at) _
          h₁ in
      let same = ap (λ (q : Unit {0} × Db). q.1) (ok_injective h₂) in
      let (found, _) = get_step_row-found db run_id step_id row at in
      elim (Bool-cases (status_eq row.status StepStatus.intent_recorded)) [
        | inr e ↦ (
          run,
          subst (λ d. Matches py run_id d run) (rw e at same)
              (record { projected = projected; settled = settled }),
        )
        | inl e ↦
            let tracked =
              append-Tracks py run_id db.workflow_run_events _ projected.tracked
                (record {
                  id = db.next_event_id;
                  run_id = run_id;
                  sequence = max_sequence run_id db.workflow_run_events + 1;
                  event_type = step_completed;
                  schema_version = event_schema_version;
                  step_id = some step_id;
                  attempt = some row.attempts;
                  payload = py.dump (completed_payload output);
                  occurred_at = caller.now;
                })
                (completed_payload output) _ refl refl refl refl refl
                (complete_move run (dependencies db run_id) (step_rows db run_id) row run_id step_id
                  _ running projected.distinct found refl output refl (ground arith)) in
            let (run', p) =
              complete_run_if_done-Matches py run_id caller.now _ run
                (update_step-Projected py run_id step_id (set_completed output caller.now)
                  (set_completed-KeepsKeys output caller.now) db run projected _
                  (db.next_event_id + 1) tracked)
                running (calm output settled) in
            (run', subst (λ d. Matches py run_id d run') (rw e at same) p)
      ]
