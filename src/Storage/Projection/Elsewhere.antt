-- ===== src/Storage/Projection/Elsewhere.antt =====
-- `rebuild_projection` of another run.
use crashsafe.Prelude.{
  arith, String, Bool, true, false, not, ◌≡◌, refl, ap, subst, ◌∙◌, List, [], ◌∷◌, ◌++◌, map, All,
  str_eq, str_eq_iff, where_rows, find?,
}
use crashsafe.Models.{StepRecord, WorkflowRun, WorkflowRunCreatedPayload}
use crashsafe.History.Payloads.{Pydantic}
use crashsafe.History.Shape.{definitions_of, reduce-HasDefinitions}
use crashsafe.Storage.Db.{
  Db, RunRow, StepRow, DependencyRow, of_run, find_run, step_rows, dependencies,
}
use crashsafe.Storage.Rebuild.{delete_run, rebuilt_run, rebuilt_step, rebuild_projection}
use crashsafe.Storage.Projection.Inserts.{of_step, where_rows-append, append-nil, names_in}
use crashsafe.Storage.Projection.Restored.{restored}
use crashsafe.Storage.Projection.Recovery.{rebuilding-lands}
use crashsafe.Storage.Projection.Frame.{SameRun, SameRun-refl}
use crashsafe.Storage.Projection.Apart.{find?-append_other, where_rows-dependency_rows}

-- A filter that keeps what is looked for does not change what is found.
where_rows-kept {ℓ} :
    {A : Type ℓ}
    → (test keep : A → Bool) → ((x : A) → test x ≡ true → keep x ≡ true)
    → (xs : List A) → where_rows test (where_rows keep xs) ≡ where_rows test xs
unfolding where_rows
where_rows-kept test keep implies [] = refl
where_rows-kept test keep implies (x ∷ xs) =
    ground (arith, where_rows-kept test keep implies xs, implies x)

find?-kept {ℓ} :
    {A : Type ℓ}
    → (test keep : A → Bool) → ((x : A) → test x ≡ true → keep x ≡ true)
    → (xs : List A) → find? test (where_rows keep xs) ≡ find? test xs
unfolding where_rows find?
find?-kept test keep implies [] = refl
find?-kept test keep implies (x ∷ xs) = ground (arith, find?-kept test keep implies xs, implies x)

module _ (run_id other : String) (apart : str_eq other run_id ≡ false) where
  differs : (id : String) → str_eq id run_id ≡ true → not (str_eq id other) ≡ true
  differs id h = ground (arith, h, apart, str_eq_iff id run_id, str_eq_iff id other)

  where_rows-rebuilt_other :
      (steps : List StepRecord)
      → All (λ (s : StepRecord). s.run_id ≡ other) steps
      → where_rows (of_run run_id) (map rebuilt_step steps) ≡ []
  unfolding where_rows
  where_rows-rebuilt_other [] own = refl
  where_rows-rebuilt_other (s ∷ ss) own =
      ground (arith, where_rows-rebuilt_other ss own.1, own.0, apart)

  restored-SameRun :
      (py : Pydantic) (run : WorkflowRun) (created : WorkflowRunCreatedPayload) (db : Db)
      → run.run_id ≡ other
      → All (λ (s : StepRecord). s.run_id ≡ run.run_id) run.steps
      → SameRun run_id db (restored other run created db)
  unfolding find_run step_rows dependencies delete_run
  restored-SameRun py run created db owner owned = record {
    run =
        find?-append_other py run_id other apart _ (rebuilt_run run created) owner
        ∙ find?-kept _ _ (λ (r : RunRow). differs r.run_id) db.workflow_runs;
    steps =
        where_rows-append (of_run run_id) _ (map rebuilt_step run.steps)
        ∙ ap (λ rows. where_rows (of_run run_id) (delete_run other db).steps ++ rows)
            (where_rows-rebuilt_other run.steps
              (subst (λ r. All (λ (s : StepRecord). s.run_id ≡ r) run.steps) owner owned))
        ∙ append-nil _
        ∙ where_rows-kept _ _ (λ (r : StepRow). differs r.run_id) db.steps;
    dependencies = λ s. ap names_in (
        where_rows-append (of_step run_id s) (delete_run other db).step_dependencies _
        ∙ ap (λ rows. where_rows (of_step run_id s) (delete_run other db).step_dependencies ++ rows)
            (where_rows-dependency_rows py run_id other apart s (definitions_of run))
        ∙ append-nil _
        ∙ where_rows-kept (of_step run_id s) _
            (λ (d : DependencyRow) h. differs d.run_id (ground (arith, h))) db.step_dependencies);
    events = refl;
    sequence = refl;
  }

  pub rebuild_projection-SameRun :
      (py : Pydantic) (db : Db) → SameRun run_id db (rebuild_projection py other (λ d. d) db).1
  rebuild_projection-SameRun py db =
      rebuilding-lands (SameRun run_id db) py other db (SameRun-refl run_id db)
        (λ events rebuilt created listed reduced owner.
          restored-SameRun py rebuilt created db owner
            (reduce-HasDefinitions py events rebuilt reduced).owned)
