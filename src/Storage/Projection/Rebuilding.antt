-- ===== src/Storage/Projection/Rebuilding.antt =====
-- `rebuild_projection` makes the projection the run that the history reduces to.
use crashsafe.Prelude.{
  String, true, not, ◌≡◌, refl, sym, ap, subst, ◌∙◌, arith, some, List, [], ◌∷◌, ◌++◌, map, ok,
  str_eq, str_eq_self, contains, Nodup, any, all, All, where_rows,
}
use crashsafe.Models.{
  StepDefinition, WorkflowRunCreatedPayload, StepRecord, WorkflowRun, StepStatus, status_eq,
}
use crashsafe.History.Definitions.{ids_of, remaining}
use crashsafe.History.Payloads.{Pydantic}
use crashsafe.History.{check_final}
use crashsafe.History.Graph.{IsWellFormed, validate_definitions-IsOrder}
use crashsafe.History.Shape.{definitions_of, HasDefinitions}
use crashsafe.Storage.Db.{
  RunRow, StepRow, DependencyRow, Db, of_run, step_rows, find_run, dependencies, step_from_row,
  workflow_run_from_rows,
}
use crashsafe.Storage.Reads.{get_workflow_run}
use crashsafe.Storage.Rebuild.{delete_run, rebuilt_run, rebuilt_step}
use crashsafe.Storage.Projection.Rows.{row_ids}
use crashsafe.Storage.Projection.Events.{Tracks}
use crashsafe.Storage.Projection.Steps.{PositionsFrom}
use crashsafe.Storage.Projection.Settled.{IsSettled, Matches}
use crashsafe.Storage.Projection.Match.{order_by_position-id, any-view, all-view}
use crashsafe.Storage.Projection.Inserts.{
  dependency_rows, of_step, names_in, where_rows-append, dependency_rows-remaining,
}
use crashsafe.Storage.Projection.NewRows.{find?-append_last, remaining_own, remaining_known}
use crashsafe.Storage.Projection.Restored.{
  where_rows-complement, any-complement, of_step-deleted, where_rows-rebuilt, row_ids-rebuilt,
  rebuilt-PositionsFrom, views-rebuilt, restored,
}

view-steps :
    (row : RunRow) (rows : List StepRow) (deps : String → List String)
    → record (workflow_run_from_rows row rows deps) { steps = map (step_from_row deps) rows }
      ≡ workflow_run_from_rows row rows deps
unfolding workflow_run_from_rows
view-steps row rows deps = refl

module _ (run_id : String) (run : WorkflowRun) (created : WorkflowRunCreatedPayload) (db : Db)
    (owner : run.run_id ≡ run_id) (shape : HasDefinitions run) where
  abbrev after : Db
  after = restored run_id run created db

  abbrev definitions : List StepDefinition
  definitions = definitions_of run

  wellformed : IsWellFormed run.run_id definitions
  wellformed = (validate_definitions-IsOrder run.run_id definitions shape.valid).0

  restored-steps : step_rows after run_id ≡ map rebuilt_step run.steps
  unfolding step_rows delete_run
  restored-steps =
      where_rows-append (of_run run_id) (where_rows (λ row. not (of_run run_id row)) db.steps)
        (map rebuilt_step run.steps)
      ∙ ap (λ rows. rows ++ where_rows (of_run run_id) (map rebuilt_step run.steps))
          (where_rows-complement (of_run run_id) db.steps)
      ∙ where_rows-rebuilt run_id run.steps
          (subst (λ r. All (λ (s : StepRecord). s.run_id ≡ r) run.steps) owner shape.owned)

  restored-dependencies :
      (step_id : String) → dependencies after run_id step_id ≡ remaining definitions step_id
  unfolding dependencies delete_run
  restored-dependencies step_id =
      ap names_in (
        where_rows-append (of_step run_id step_id)
          (where_rows (λ (d : DependencyRow). not (str_eq d.run_id run_id)) db.step_dependencies)
          (dependency_rows run_id definitions))
      ∙ ap
          (λ rows.
            names_in
              (rows ++ where_rows (of_step run_id step_id) (dependency_rows run_id definitions)))
          (of_step-deleted run_id step_id db.step_dependencies)
      ∙ dependency_rows-remaining run_id step_id definitions wellformed.distinct

  All-restored :
      (ds : List StepDefinition)
      → All (λ (d : StepDefinition). remaining definitions d.id ≡ d.depends_on) ds
      → All (λ (d : StepDefinition). dependencies after run_id d.id ≡ d.depends_on) ds
  All-restored [] h = tt
  All-restored (d ∷ ds) h = (restored-dependencies d.id ∙ h.0, All-restored ds h.1)

  restored-view :
      workflow_run_from_rows
        (rebuilt_run run created)
        (step_rows after run_id)
        (dependencies after run_id)
      ≡ run
  unfolding workflow_run_from_rows
  restored-view =
      let steps =
        ap (λ rows. map (step_from_row (dependencies after run_id)) rows) restored-steps
        ∙ views-rebuilt (dependencies after run_id) run.steps
            (All-restored definitions (remaining_own definitions wellformed.distinct)) in
      ap (λ ss. record run { steps = ss }) steps

  restored-found : find_run after run_id ≡ some (rebuilt_run run created)
  unfolding find_run delete_run
  restored-found =
      find?-append_last (λ (r : RunRow). str_eq r.run_id run_id)
        (where_rows (λ (r : RunRow). not (str_eq r.run_id run_id)) db.workflow_runs) _
        (any-complement (λ (r : RunRow). str_eq r.run_id run_id) db.workflow_runs)
        (rw owner (str_eq_self run_id))

  restored-positions : PositionsFrom 0 (step_rows after run_id)
  restored-positions =
      subst (PositionsFrom 0) (sym restored-steps)
        (rebuilt-PositionsFrom 0 run.steps wellformed.positions)

  pub restored-get_workflow_run : get_workflow_run after run_id ≡ ok run
  unfolding get_workflow_run
  restored-get_workflow_run =
      rw (restored-found, order_by_position-id 0 (step_rows after run_id) restored-positions)
        (ap ok restored-view)

  restored-known :
      (step_id x : String)
      → contains x (dependencies after run_id step_id) ≡ true
      → contains x (row_ids (step_rows after run_id)) ≡ true
  restored-known step_id x h =
      subst (λ rows. contains x (row_ids rows) ≡ true) (sym restored-steps)
        (subst (λ ids. contains x ids ≡ true) (sym (row_ids-rebuilt run.steps))
          (remaining_known run.run_id step_id x (ids_of definitions) definitions wellformed.sound
            (subst (λ names. contains x names ≡ true) (restored-dependencies step_id) h)))

  restored-IsSettled :
      check_final run ≡ ok run → IsSettled (rebuilt_run run created) (step_rows after run_id)
  unfolding check_final
  restored-IsSettled final =
      let deps = dependencies after run_id in
      let views : map (step_from_row deps) (step_rows after run_id) ≡ run.steps =
        ap (λ (r : WorkflowRun). r.steps)
          (view-steps (rebuilt_run run created) (step_rows after run_id) deps ∙ restored-view) in
      record {
        none_failed = λ running.
            sym (any-view deps (step_rows after run_id))
            ∙ ap (any (λ (s : StepRecord). status_eq s.status StepStatus.failed)) views
            ∙ ground (arith, final, running);
        some_left = λ running.
            sym (all-view deps (step_rows after run_id))
            ∙ ap (all (λ (s : StepRecord). status_eq s.status StepStatus.completed)) views
            ∙ ground (arith, final, running);
      }

  -- The rebuilt rows agree with the history that the run was rebuilt from.
  pub restored-Matches :
      (py : Pydantic)
      → Tracks py run_id db.workflow_run_events run
      → check_final run ≡ ok run
      → Matches py run_id after (rebuilt_run run created)
  unfolding delete_run
  restored-Matches py tracked final = record {
    projected = record {
      found = restored-found;
      positions = restored-positions;
      distinct =
          subst (λ rows. Nodup (row_ids rows)) (sym restored-steps)
            (subst Nodup (sym (row_ids-rebuilt run.steps)) wellformed.distinct);
      known = restored-known;
      tracked = subst (Tracks py run_id db.workflow_run_events) (sym restored-view) tracked;
    };
    settled = restored-IsSettled final;
  }
