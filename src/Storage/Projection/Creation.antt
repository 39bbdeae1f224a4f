-- ===== src/Storage/Projection/Creation.antt =====
-- `create_workflow_run` starts the agreement.
use crashsafe.Prelude.{
  String, true, false, ◌≡◌, refl, sym, ap, subst, ◌∙◌, arith, none, List, [], ◌∷◌, ◌++◌, map, ok,
  >>=-eq-ok, ok_injective, str_eq, str_eq_self, contains, Nodup, any, all, All, where_rows,
}
use crashsafe.Models.{
  Datetime, StepDefinition, StepStatus, WorkflowRunStatus, WorkflowRunCreatedPayload,
  workflow_run_created, created_payload, status_eq,
}
use crashsafe.History.Definitions.{ids_of, remaining, validate_definitions}
use crashsafe.History.Payloads.{Pydantic, workflow_run_created_schema_version}
use crashsafe.History.Transitions.{created_run, create_run}
use crashsafe.History.Graph.{IsWellFormed, validate_definitions-IsOrder}
use crashsafe.History.{next_run}
use crashsafe.Storage.Db.{
  RunRow, StepRow, Db, of_run, step_rows, find_run, dependencies, step_from_row,
  workflow_run_from_rows, append_event,
}
use crashsafe.Storage.Reads.{events_of}
use crashsafe.Storage.Create.{insert_run, new_step, insert_steps, insert_dependencies, create_body}
use crashsafe.Storage.Projection.Rows.{row_ids}
use crashsafe.Storage.Projection.Events.{Tracks, max_sequence_fresh, first-Tracks}
use crashsafe.Storage.Projection.Steps.{PositionsFrom}
use crashsafe.Storage.Projection.Settled.{Matches}
use crashsafe.Storage.Projection.Inserts.{
  with_steps, with_dependencies, dependency_rows, of_step, names_in, where_rows-append,
  insert_steps-rows, insert_dependencies-rows, dependency_rows-remaining,
}
use crashsafe.Storage.Projection.NewRows.{
  find?-append_last, where_rows-new, new-PositionsFrom, row_ids-new, none_failed-new, some_left-new,
  views-new, remaining_own, remaining_known,
}

abbrev pub created_row : String → Datetime → WorkflowRunCreatedPayload → RunRow
created_row run_id now created = record {
  run_id = run_id;
  name = created.name;
  status = WorkflowRunStatus.running;
  definition = created;
  created_at = now;
  updated_at = now;
  completed_at = none;
}

-- No row of the run: its id is a new uuid.
pub record IsFresh (run_id : String) (db : Db) : Type 0 where
  pub steps : step_rows db run_id ≡ []
  pub dependencies :
      (step_id : String) → where_rows (of_step run_id step_id) db.step_dependencies ≡ []
  pub events : events_of run_id db.workflow_run_events ≡ []

module _ (py : Pydantic) (run_id : String) (now : Datetime) (created : WorkflowRunCreatedPayload)
    (db : Db) (fresh : IsFresh run_id db)
    (valid : validate_definitions run_id created.steps ≡ ok tt) where
  -- the database with every row of the creation
  abbrev filled : Db
  filled =
      append_event py run_id workflow_run_created (created_payload created) now none none
        workflow_run_created_schema_version
        (with_dependencies
          (with_steps
            (record db { workflow_runs = db.workflow_runs ++ created_row run_id now created ∷ [] })
            (map (new_step run_id now) created.steps))
          (dependency_rows run_id created.steps))

  filled-steps : step_rows filled run_id ≡ map (new_step run_id now) created.steps
  unfolding step_rows append_event
  filled-steps =
      where_rows-append (of_run run_id) db.steps (map (new_step run_id now) created.steps)
      ∙ ap (λ rows. rows ++ where_rows (of_run run_id) (map (new_step run_id now) created.steps))
          fresh.steps
      ∙ where_rows-new run_id now created.steps

  wellformed : IsWellFormed run_id created.steps
  wellformed = (validate_definitions-IsOrder run_id created.steps valid).0

  filled-dependencies :
      (step_id : String) → dependencies filled run_id step_id ≡ remaining created.steps step_id
  unfolding dependencies append_event
  filled-dependencies step_id =
      ap names_in (
        where_rows-append (of_step run_id step_id) db.step_dependencies
          (dependency_rows run_id created.steps))
      ∙ ap
          (λ rows.
            names_in
              (rows ++ where_rows (of_step run_id step_id) (dependency_rows run_id created.steps)))
          (fresh.dependencies step_id)
      ∙ dependency_rows-remaining run_id step_id created.steps wellformed.distinct

  All-dependencies :
      (ds : List StepDefinition)
      → All (λ (d : StepDefinition). remaining created.steps d.id ≡ d.depends_on) ds
      → All (λ (d : StepDefinition). dependencies filled run_id d.id ≡ d.depends_on) ds
  All-dependencies [] h = tt
  All-dependencies (d ∷ ds) h = (filled-dependencies d.id ∙ h.0, All-dependencies ds h.1)

  filled-view :
      workflow_run_from_rows
        (created_row run_id now created)
        (step_rows filled run_id)
        (dependencies filled run_id)
      ≡ created_run run_id created now
  unfolding workflow_run_from_rows created_run
  filled-view =
      let steps =
        ap (λ rows. map (step_from_row (dependencies filled run_id)) rows) filled-steps
        ∙ views-new run_id now (dependencies filled run_id) created.steps
            (All-dependencies created.steps (remaining_own created.steps wellformed.distinct)) in
      ap (λ ss. record (created_run run_id created now) { steps = ss }) steps

  filled-Tracks : Tracks py run_id filled.workflow_run_events (created_run run_id created now)
  unfolding append_event next_run create_run
  filled-Tracks =
      let none_yet = max_sequence_fresh run_id db.workflow_run_events fresh.events in
      first-Tracks py run_id db.workflow_run_events _ (created_payload created)
        (created_run run_id created now) fresh.events refl refl refl refl refl
        (rw none_yet (ground (arith, valid)))

  filled-Matches :
      any (λ (r : RunRow). str_eq r.run_id run_id) db.workflow_runs ≡ false
      → Matches py run_id filled (created_row run_id now created)
  unfolding find_run append_event
  filled-Matches absent = record {
    projected = record {
      found =
          find?-append_last (λ (r : RunRow). str_eq r.run_id run_id) db.workflow_runs _ absent
            (str_eq_self run_id);
      positions =
          subst (PositionsFrom 0) (sym filled-steps)
            (new-PositionsFrom run_id now 0 created.steps wellformed.positions);
      distinct =
          subst (λ rows. Nodup (row_ids rows)) (sym filled-steps)
            (subst Nodup (sym (row_ids-new run_id now created.steps)) wellformed.distinct);
      known = λ step_id x h.
          subst (λ rows. contains x (row_ids rows) ≡ true) (sym filled-steps)
            (subst (λ ids. contains x ids ≡ true) (sym (row_ids-new run_id now created.steps))
              (remaining_known run_id step_id x (ids_of created.steps) created.steps
                wellformed.sound
                (subst (λ names. contains x names ≡ true) (filled-dependencies step_id) h)));
      tracked = subst (Tracks py run_id filled.workflow_run_events) (sym filled-view) filled-Tracks;
    };
    settled = record {
      none_failed = λ _.
          subst
            (λ rows. any (λ (row : StepRow). status_eq row.status StepStatus.failed) rows ≡ false)
            (sym filled-steps) (none_failed-new run_id now created.steps);
      some_left = λ _.
          subst
            (λ rows.
              all (λ (row : StepRow). status_eq row.status StepStatus.completed) rows ≡ false)
            (sym filled-steps) (some_left-new run_id now created.steps wellformed.nonempty);
    };
  }

  -- A creation that commits, under a new run id and with definitions that the reducer accepts, leaves
  -- the run's rows in agreement with its history: `projection_matches_history` holds from the start,
  -- and with the transitions of the run's steps from then on.
  pub create_body-Matches :
      (after : Db)
      → create_body py run_id now created db ≡ ok (tt, after)
      → Matches py run_id after (created_row run_id now created)
  unfolding create_body insert_run
  create_body-Matches after h =
      let (with_run, a, h₁) = >>=-eq-ok (insert_run (created_row run_id now created) db) _ h in
      let (stepped, b, h₂) = >>=-eq-ok (insert_steps run_id now created.steps with_run) _ h₁ in
      let (linked, c, h₃) = >>=-eq-ok (insert_dependencies run_id created.steps stepped) _ h₂ in
      let absent : any (λ (r : RunRow). str_eq r.run_id run_id) db.workflow_runs ≡ false =
        ground (arith, a) in
      let one : record db {
        workflow_runs = db.workflow_runs ++ created_row run_id now created ∷ [];
      }
          ≡ with_run =
        ground (arith, a) in
      let two = insert_steps-rows run_id now created.steps with_run stepped b in
      let three = insert_dependencies-rows run_id created.steps stepped linked c in
      let commit = λ (d : Db).
        append_event py run_id workflow_run_created (created_payload created) now none none
          workflow_run_created_schema_version d in
      let chain =
        three
        ∙ ap (λ d. with_dependencies d (dependency_rows run_id created.steps)) two
        ∙ ap
            (λ d.
              with_dependencies (with_steps d (map (new_step run_id now) created.steps))
                (dependency_rows run_id created.steps))
            (sym one) in
      let base : filled ≡ after =
        sym (ap commit chain) ∙ ap (λ (q : Unit {0} × Db). q.1) (ok_injective h₃) in
      subst (λ d. Matches py run_id d (created_row run_id now created)) base (filled-Matches absent)
