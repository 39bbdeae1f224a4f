-- ===== src/Storage/Projection/Restored.antt =====
-- What `rebuild_projection` leaves in the tables, when none of its INSERTs fails.
use crashsafe.Prelude.{
  ℕ, ◌+◌, String, Bool, true, false, not, ◌≡◌, refl, sym, ap, ◌∙◌, arith, List, [], ◌∷◌, ◌++◌, map,
  ok, >>=-eq-ok, ok_injective, Result-cases, str_eq, str_eq_iff, inl, inr, any, All, where_rows,
}
use crashsafe.Models.{StepDefinition, WorkflowRunCreatedPayload, StepRecord, WorkflowRun}
use crashsafe.History.Definitions.{ids_of, contiguous_from}
use crashsafe.History.Shape.{as_definition, definitions_of}
use crashsafe.Storage.Db.{DependencyRow, Db, of_run, step_from_row}
use crashsafe.Storage.Create.{insert_run, insert_step, insert_dependencies_of, insert_dependencies}
use crashsafe.Storage.Rebuild.{
  delete_run, rebuilt_run, rebuilt_step, insert_rebuilt_steps, insert_rebuilt_dependencies,
  rebuild_body,
}
use crashsafe.Storage.Projection.Rows.{row_ids}
use crashsafe.Storage.Projection.Steps.{PositionsFrom}
use crashsafe.Storage.Projection.Inserts.{
  append-nil, append_assoc, with_steps, with_dependencies, dependency_rows, of_step,
  insert_dependencies-rows,
}

insert_rebuilt_steps-rows :
    (steps : List StepRecord) (db after : Db)
    → insert_rebuilt_steps steps db ≡ ok after
    → after ≡ with_steps db (map rebuilt_step steps)
unfolding insert_rebuilt_steps insert_step
insert_rebuilt_steps-rows [] db after h =
    sym (ok_injective h) ∙ ap (λ rows. record db { steps = rows }) (sym (append-nil db.steps))
insert_rebuilt_steps-rows (s ∷ ss) db after h =
    let (inserted, e, h₁) = >>=-eq-ok (insert_step (rebuilt_step s) db) _ h in
    let one : inserted ≡ with_steps db (rebuilt_step s ∷ []) = ground (arith, e) in
    insert_rebuilt_steps-rows ss inserted after h₁
    ∙ ap (λ base. with_steps base (map rebuilt_step ss)) one
    ∙ ap (λ rows. record db { steps = rows })
        (append_assoc db.steps (rebuilt_step s ∷ []) (map rebuilt_step ss))

insert_rebuilt_dependencies-same :
    (run_id : String) (steps : List StepRecord) (db : Db)
    → insert_rebuilt_dependencies run_id steps db
      ≡ insert_dependencies run_id (map as_definition steps) db
unfolding insert_rebuilt_dependencies insert_dependencies
insert_rebuilt_dependencies-same run_id [] db = refl
insert_rebuilt_dependencies-same run_id (s ∷ ss) db =
    elim (Result-cases (insert_dependencies_of run_id s.id s.depends_on db)) [
      | inl (inserted, e) ↦ rw e (insert_rebuilt_dependencies-same run_id ss inserted)
      | inr (error, e) ↦ rw e refl
    ]

pub where_rows-complement {ℓ} :
    {A : Type ℓ} (test : A → Bool) (xs : List A)
    → where_rows test (where_rows (λ x. not (test x)) xs) ≡ []
unfolding where_rows
where_rows-complement test [] = refl
where_rows-complement test (x ∷ xs) = ground (arith, where_rows-complement test xs)

pub any-complement {ℓ} :
    {A : Type ℓ} (test : A → Bool) (xs : List A)
    → any test (where_rows (λ x. not (test x)) xs) ≡ false
unfolding where_rows
any-complement test [] = refl
any-complement test (x ∷ xs) = ground (arith, any-complement test xs)

pub of_step-deleted :
    (run_id step_id : String) (ds : List DependencyRow)
    → where_rows
        (of_step run_id step_id)
        (where_rows (λ (d : DependencyRow). not (str_eq d.run_id run_id)) ds)
      ≡ []
unfolding where_rows
of_step-deleted run_id step_id [] = refl
of_step-deleted run_id step_id (d ∷ ds) = ground (arith, of_step-deleted run_id step_id ds)

pub where_rows-rebuilt :
    (run_id : String) (steps : List StepRecord)
    → All (λ (s : StepRecord). s.run_id ≡ run_id) steps
    → where_rows (of_run run_id) (map rebuilt_step steps) ≡ map rebuilt_step steps
unfolding where_rows
where_rows-rebuilt run_id [] own = refl
where_rows-rebuilt run_id (s ∷ ss) own =
    ground (arith, where_rows-rebuilt run_id ss own.1, str_eq_iff s.run_id run_id, own.0)

pub row_ids-rebuilt :
    (steps : List StepRecord) → row_ids (map rebuilt_step steps) ≡ ids_of (map as_definition steps)
row_ids-rebuilt [] = refl
row_ids-rebuilt (s ∷ ss) = ap (λ rest. s.id ∷ rest) (row_ids-rebuilt ss)

pub rebuilt-PositionsFrom :
    (n : ℕ) (steps : List StepRecord)
    → contiguous_from n (map as_definition steps) ≡ true
    → PositionsFrom n (map rebuilt_step steps)
rebuilt-PositionsFrom n [] h = tt
rebuilt-PositionsFrom n (s ∷ ss) h = (ground arith, rebuilt-PositionsFrom (n + 1) ss (ground arith))

pub views-rebuilt :
    (deps : String → List String) (steps : List StepRecord)
    → All (λ (d : StepDefinition). deps d.id ≡ d.depends_on) (map as_definition steps)
    → map (step_from_row deps) (map rebuilt_step steps) ≡ steps
unfolding step_from_row
views-rebuilt deps [] h = refl
views-rebuilt deps (s ∷ ss) h = rw (h.0, views-rebuilt deps ss h.1) refl

-- The database with the rebuilt rows in place of the run's old ones.
abbrev pub restored : String → WorkflowRun → WorkflowRunCreatedPayload → Db → Db
restored run_id run created db =
    let kept = delete_run run_id db in
    with_dependencies
      (with_steps
        (record kept { workflow_runs = kept.workflow_runs ++ rebuilt_run run created ∷ [] })
        (map rebuilt_step run.steps))
      (dependency_rows run_id (definitions_of run))

pub rebuild_body-restored :
    (run_id : String) (run : WorkflowRun) (created : WorkflowRunCreatedPayload) (db after : Db)
    → rebuild_body run_id run created db ≡ ok (tt, after)
    → after ≡ restored run_id run created db
unfolding rebuild_body insert_run
rebuild_body-restored run_id run created db after h =
    let kept = delete_run run_id db in
    let (with_run, a, h₁) = >>=-eq-ok (insert_run (rebuilt_run run created) kept) _ h in
    let (stepped, b, h₂) = >>=-eq-ok (insert_rebuilt_steps run.steps with_run) _ h₁ in
    let (linked, c, h₃) = >>=-eq-ok (insert_rebuilt_dependencies run_id run.steps stepped) _ h₂ in
    let one : with_run
        ≡ record kept { workflow_runs = kept.workflow_runs ++ rebuilt_run run created ∷ [] } =
      ground (arith, a) in
    let two = insert_rebuilt_steps-rows run.steps with_run stepped b in
    let three =
      insert_dependencies-rows run_id (definitions_of run) stepped linked
        (sym (insert_rebuilt_dependencies-same run_id run.steps stepped) ∙ c) in
    ap (λ (q : Unit {0} × Db). q.1) (sym (ok_injective h₃))
    ∙ three
    ∙ ap (λ d. with_dependencies d (dependency_rows run_id (definitions_of run))) two
    ∙ ap
        (λ d.
          with_dependencies (with_steps d (map rebuilt_step run.steps))
            (dependency_rows run_id (definitions_of run)))
        one
