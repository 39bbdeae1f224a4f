-- ===== src/Storage/Projection/Apart.antt =====
-- Calls on the steps of another run, and the creation of another run, as whole transactions.
use crashsafe.Prelude.{
  arith, String, false, ◌≡◌, refl, sym, ap, subst, ◌∙◌, Option, none, List, [], ◌∷◌, ◌++◌, map, ok,
  ok_injective, >>=-eq-ok, str_eq, where_rows, find?,
}
use crashsafe.Models.{
  Datetime, workflow_run_created, created_payload, StepDefinition, WorkflowDefinition,
  WorkflowRunCreatedPayload,
}
use crashsafe.History.Payloads.{Pydantic, workflow_run_created_schema_version}
use crashsafe.Storage.Db.{Db, RunRow, DependencyRow, of_run, find_run, step_rows, dependencies}
use crashsafe.Storage.Create.{
  insert_run, new_step, insert_steps, insert_dependencies, create_body, create_workflow_run,
}
use crashsafe.Storage.Attempts.{
  Caller, record_attempt_body, schedule_retry_body, fail_step_body, complete_step_body,
  record_attempt, schedule_retry, fail_step, complete_step,
}
use crashsafe.Storage.Projection.Commit.{
  StepCall, records_attempt, schedules_retry, fails_step, completes_step, perform,
  transaction-keeps,
}
use crashsafe.Storage.Projection.Inserts.{
  of_step, where_rows-append, append-nil, with_steps, with_dependencies, dependency_rows, rows_of,
  insert_steps-rows, insert_dependencies-rows,
}
use crashsafe.Storage.Projection.Frame.{SameRun, SameRun-refl, SameRun-trans, append_event-SameRun}
use crashsafe.Storage.Projection.Others.{
  record_attempt_body-SameRun, schedule_retry_body-SameRun, fail_step_body-SameRun,
  complete_step_body-SameRun,
}

module _ (py : Pydantic) (run_id other : String) (apart : str_eq other run_id ≡ false) where
  pub perform-SameRun :
      (step_id : String) (caller : Caller) (call : StepCall) (db : Db)
      → SameRun run_id db (perform py other step_id caller call db)
  unfolding perform record_attempt schedule_retry fail_step complete_step
  perform-SameRun step_id caller records_attempt db =
      transaction-keeps {P = SameRun run_id db} (record_attempt_body py other step_id caller) db
        (SameRun-refl run_id db)
        (record_attempt_body-SameRun py run_id other apart step_id caller db)
  perform-SameRun step_id caller (schedules_retry error next throttle_tool) db =
      transaction-keeps {P = SameRun run_id db}
        (schedule_retry_body py other step_id error next throttle_tool caller) db
        (SameRun-refl run_id db)
        (schedule_retry_body-SameRun py run_id other apart step_id caller db error next
          throttle_tool)
  perform-SameRun step_id caller (fails_step error) db =
      transaction-keeps {P = SameRun run_id db} (fail_step_body py other step_id error caller) db
        (SameRun-refl run_id db)
        (fail_step_body-SameRun py run_id other apart step_id caller db error)
  perform-SameRun step_id caller (completes_step output) db =
      transaction-keeps {P = SameRun run_id db} (complete_step_body py other step_id output caller)
        db (SameRun-refl run_id db)
        (complete_step_body-SameRun py run_id other apart step_id caller db output)

  pub find?-append_other :
      (rows : List RunRow) (row : RunRow)
      → row.run_id ≡ other
      → find? (λ (r : RunRow). str_eq r.run_id run_id) (rows ++ row ∷ [])
        ≡ find? (λ (r : RunRow). str_eq r.run_id run_id) rows
  unfolding find?
  find?-append_other [] row own = ground (arith, own, apart)
  find?-append_other (r ∷ rows) row own = ground (arith, find?-append_other rows row own)

  insert_run-SameRun :
      (row : RunRow) (db after : Db)
      → row.run_id ≡ other
      → insert_run row db ≡ ok after
      → SameRun run_id db after
  unfolding insert_run find_run step_rows dependencies
  insert_run-SameRun row db after own h =
      let inserted : Db = record db { workflow_runs = db.workflow_runs ++ row ∷ [] } in
      let same : inserted ≡ after = ground (arith, h) in
      subst (SameRun run_id db) same (record {
        run = find?-append_other db.workflow_runs row own;
        steps = refl;
        dependencies = λ s. refl;
        events = refl;
        sequence = refl;
      })

  where_rows-new_steps :
      (now : Datetime) (definitions : List StepDefinition)
      → where_rows (of_run run_id) (map (new_step other now) definitions) ≡ []
  unfolding where_rows
  where_rows-new_steps now [] = refl
  where_rows-new_steps now (d ∷ rest) = ground (arith, where_rows-new_steps now rest, apart)

  with_steps-SameRun :
      (now : Datetime) (definitions : List StepDefinition) (db : Db)
      → SameRun run_id db (with_steps db (map (new_step other now) definitions))
  unfolding find_run step_rows dependencies
  with_steps-SameRun now definitions db = record {
    run = refl;
    steps =
        where_rows-append (of_run run_id) db.steps _
        ∙ ap (λ rows. where_rows (of_run run_id) db.steps ++ rows)
            (where_rows-new_steps now definitions)
        ∙ append-nil _;
    dependencies = λ s. refl;
    events = refl;
    sequence = refl;
  }

  where_rows-rows_of :
      (step_id id : String) (names : List String)
      → where_rows (of_step run_id step_id) (rows_of other id names) ≡ []
  unfolding where_rows
  where_rows-rows_of step_id id [] = refl
  where_rows-rows_of step_id id (name ∷ names) =
      ground (arith, where_rows-rows_of step_id id names, apart)

  pub where_rows-dependency_rows :
      (step_id : String) (definitions : List StepDefinition)
      → where_rows (of_step run_id step_id) (dependency_rows other definitions) ≡ []
  unfolding where_rows
  where_rows-dependency_rows step_id [] = refl
  where_rows-dependency_rows step_id (d ∷ rest) =
      where_rows-append (of_step run_id step_id) (rows_of other d.id d.depends_on) _
      ∙ ap (λ rows. rows ++ where_rows (of_step run_id step_id) (dependency_rows other rest))
          (where_rows-rows_of step_id d.id d.depends_on)
      ∙ where_rows-dependency_rows step_id rest

  with_dependencies-SameRun :
      (definitions : List StepDefinition) (db : Db)
      → SameRun run_id db (with_dependencies db (dependency_rows other definitions))
  unfolding find_run step_rows dependencies
  with_dependencies-SameRun definitions db = record {
    run = refl;
    steps = refl;
    dependencies = λ s. ap (map (λ (d : DependencyRow). d.dependency_step_id)) (
        where_rows-append (of_step run_id s) db.step_dependencies _
        ∙ ap (λ rows. where_rows (of_step run_id s) db.step_dependencies ++ rows)
            (where_rows-dependency_rows s definitions)
        ∙ append-nil _);
    events = refl;
    sequence = refl;
  }

  create_body-SameRun :
      (now : Datetime) (created : WorkflowRunCreatedPayload) (db : Db) (u : Unit {0}) (after : Db)
      → create_body py other now created db ≡ ok (u, after)
      → SameRun run_id db after
  unfolding create_body
  create_body-SameRun now created db u after h =
      let (with_run, a, h₁) = >>=-eq-ok (insert_run _ db) _ h in
      let (stepped, b, h₂) = >>=-eq-ok (insert_steps other now created.steps with_run) _ h₁ in
      let (joined, c, h₃) = >>=-eq-ok (insert_dependencies other created.steps stepped) _ h₂ in
      let one = insert_run-SameRun _ db with_run refl a in
      let two =
        subst (SameRun run_id with_run)
          (sym (insert_steps-rows other now created.steps with_run stepped b))
          (with_steps-SameRun now created.steps with_run) in
      let three =
        subst (SameRun run_id stepped)
          (sym (insert_dependencies-rows other created.steps stepped joined c))
          (with_dependencies-SameRun created.steps stepped) in
      subst (SameRun run_id db) (ap (λ (q : Unit {0} × Db). q.1) (ok_injective h₃)) (
        SameRun-trans run_id db joined _
          (SameRun-trans run_id db stepped joined (SameRun-trans run_id db with_run stepped one two)
            three)
          (append_event-SameRun run_id other apart py workflow_run_created (created_payload created)
            now none none workflow_run_created_schema_version joined))

  pub create_workflow_run-SameRun :
      (now : Datetime) (default_tool_key : String) (definition : WorkflowDefinition)
      (tool_key : Option String) (db : Db)
      → SameRun run_id db
          (create_workflow_run py other now default_tool_key definition tool_key db).1
  unfolding create_workflow_run
  create_workflow_run-SameRun now default_tool_key definition tool_key db =
      transaction-keeps {P = SameRun run_id db} (create_body py other now _) db
        (SameRun-refl run_id db) (create_body-SameRun now _ db)
