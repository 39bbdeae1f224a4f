-- ===== src/Storage/Projection/Rows.antt =====
-- The step rows of one run, as the reducer sees them.
use crashsafe.Prelude.{
  ℕ, suc, ◌+◌, String, Bool, true, false, not, ◌&&◌, ◌≡◌, refl, subst, some, List, [], ◌∷◌, map,
  arith, Bool-cases, inl, inr, str_eq, str_eq_iff, str_eq_self, contains, subset, Nodup, any, set,
  where_rows, find?, update_rows,
}
use crashsafe.Models.{StepStatus, status_eq}
use crashsafe.History.Transitions.{index_from, completed_ids}
use crashsafe.Storage.Db.{StepRow, DependencyRow, of_run, is_step, step_from_row}

abbrev pub row_ids : List StepRow → List String
row_ids = map (λ (row : StepRow). row.id)

abbrev pub has_id : String → StepRow → Bool
has_id step_id row = str_eq row.id step_id

-- An UPDATE that leaves the keys alone.
pub record KeepsKeys (f : StepRow → StepRow) : Type 0 where
  pub run_id : (row : StepRow) → (f row).run_id ≡ row.run_id
  pub id : (row : StepRow) → (f row).id ≡ row.id
  pub position : (row : StepRow) → (f row).position ≡ row.position

module _ (run_id step_id : String) (f : StepRow → StepRow) (keys : KeepsKeys f) where
  pub where_rows-update_rows :
      (rows : List StepRow)
      → where_rows (of_run run_id) (update_rows (is_step run_id step_id) f rows)
        ≡ update_rows (has_id step_id) f (where_rows (of_run run_id) rows)
  unfolding where_rows update_rows
  where_rows-update_rows [] = refl
  where_rows-update_rows (row ∷ rows) = ground (arith, keys.run_id row, where_rows-update_rows rows)

  pub row_ids-update_rows :
      (rows : List StepRow) → row_ids (update_rows (has_id step_id) f rows) ≡ row_ids rows
  unfolding update_rows
  row_ids-update_rows [] = refl
  row_ids-update_rows (row ∷ rows) = ground (arith, keys.id row, row_ids-update_rows rows)

pub find?-where_rows :
    (run_id step_id : String) (row : StepRow) (rows : List StepRow)
    → find? (is_step run_id step_id) rows ≡ some row
    → find? (has_id step_id) (where_rows (of_run run_id) rows) ≡ some row
unfolding find? where_rows
find?-where_rows run_id step_id row [] h = absurd (ground arith)
find?-where_rows run_id step_id row (r ∷ rows) h =
    ground (arith, find?-where_rows run_id step_id row rows)

update_rows_absent :
    (step_id : String) (f : StepRow → StepRow) (rows : List StepRow)
    → contains step_id (row_ids rows) ≡ false
    → update_rows (has_id step_id) f rows ≡ rows
unfolding update_rows contains
update_rows_absent step_id f [] h = refl
update_rows_absent step_id f (row ∷ rows) h =
    ground (
      arith,
      update_rows_absent step_id f rows,
      str_eq_iff row.id step_id,
      str_eq_iff step_id row.id,
    )

-- The reducer finds the step of the row, and its write at the index is the UPDATE.
pub index_from-update_rows :
    (deps : String → List String) (step_id : String) (f : StepRow → StepRow) (row : StepRow)
    (first : ℕ) (rows : List StepRow)
    → Nodup (row_ids rows)
    → find? (has_id step_id) rows ≡ some row
    → (index : ℕ) × (index_from first (map (step_from_row deps) rows) step_id
        ≡ some (first + index, step_from_row deps row))
      × (set (map (step_from_row deps) rows) index (step_from_row deps (f row))
          ≡ map (step_from_row deps) (update_rows (has_id step_id) f rows))
unfolding find? update_rows index_from step_from_row
index_from-update_rows deps step_id f row first [] d h = absurd (ground arith)
index_from-update_rows deps step_id f row first (r ∷ rows) d h =
    elim (Bool-cases (str_eq r.id step_id)) [
      | inl hit ↦
          let same : r ≡ row = ground arith in
          let key : r.id ≡ step_id = (str_eq_iff r.id step_id).0 hit in
          let rest =
            update_rows_absent step_id f rows
              (subst (λ k. contains k (row_ids rows) ≡ false) key d.0) in
          (0, ground arith, ground (arith, rest))
      | inr miss ↦
          let (index, a, b) =
            index_from-update_rows deps step_id f row (suc first) rows d.1 (ground arith) in
          (suc index, ground arith, ground arith)
    ]

-- A step that is there and not incomplete is completed.
completed_of_complete :
    (deps : String → List String) (run_id x : String) (rows : List StepRow)
    → contains x (row_ids (where_rows (of_run run_id) rows)) ≡ true
    → any
        (λ (dependency : StepRow).
          is_step run_id x dependency && not (status_eq dependency.status StepStatus.completed))
        rows
      ≡ false
    → contains x (completed_ids (map (step_from_row deps) (where_rows (of_run run_id) rows))) ≡ true
unfolding where_rows contains completed_ids step_from_row
completed_of_complete deps run_id x [] c h = absurd (ground arith)
completed_of_complete deps run_id x (row ∷ rows) c h =
    ground
      (arith, completed_of_complete deps run_id x rows, str_eq_iff row.id x, str_eq_iff x row.id)

-- The rows of a step's dependencies, without the rest of the database.
abbrev pub depends_from : String → String → List DependencyRow → List String
depends_from run_id step_id ds =
    map (λ (d : DependencyRow). d.dependency_step_id)
      (where_rows (λ (d : DependencyRow). str_eq d.run_id run_id && str_eq d.step_id step_id) ds)

abbrev of_step : String → String → DependencyRow → Bool
of_step run_id step_id d = str_eq d.run_id run_id && str_eq d.step_id step_id

abbrev incomplete_at : String → String → List StepRow → Bool
incomplete_at run_id x rows =
    any
      (λ (dependency : StepRow).
        is_step run_id x dependency && not (status_eq dependency.status StepStatus.completed))
      rows

depends_from-hit :
    (run_id step_id : String) (d : DependencyRow) (ds : List DependencyRow)
    → of_step run_id step_id d ≡ true
    → depends_from run_id step_id (d ∷ ds) ≡ d.dependency_step_id ∷ depends_from run_id step_id ds
unfolding where_rows
depends_from-hit run_id step_id d ds h = ground arith

depends_from-miss :
    (run_id step_id : String) (d : DependencyRow) (ds : List DependencyRow)
    → of_step run_id step_id d ≡ false
    → depends_from run_id step_id (d ∷ ds) ≡ depends_from run_id step_id ds
unfolding where_rows
depends_from-miss run_id step_id d ds h = ground arith

contains_later :
    (x y : String) (ys : List String) → contains x ys ≡ true → contains x (y ∷ ys) ≡ true
unfolding contains
contains_later x y ys h = ground arith

contains_head : (y : String) (ys : List String) → contains y (y ∷ ys) ≡ true
unfolding contains
contains_head y ys = ground (arith, str_eq_self y)

subset_cons :
    (x : String) (xs ys : List String)
    → contains x ys ≡ true
    → subset xs ys ≡ true
    → subset (x ∷ xs) ys ≡ true
unfolding subset
subset_cons x xs ys c h = ground arith

-- The query of `record_attempt` finds no incomplete dependency: the reducer's set inclusion holds.
pub dependencies_completed :
    (deps : String → List String) (run_id step_id : String) (rows : List StepRow)
    (ds : List DependencyRow)
    → ((x : String)
        → contains x (depends_from run_id step_id ds) ≡ true
        → contains x (row_ids (where_rows (of_run run_id) rows)) ≡ true)
    → any
        (λ (d : DependencyRow).
          of_step run_id step_id d && incomplete_at d.run_id d.dependency_step_id rows)
        ds
      ≡ false
    → subset
        (depends_from run_id step_id ds)
        (completed_ids (map (step_from_row deps) (where_rows (of_run run_id) rows)))
      ≡ true
dependencies_completed deps run_id step_id rows [] known h = unfold where_rows subset in refl
dependencies_completed deps run_id step_id rows (d ∷ ds) known h =
    elim (Bool-cases (of_step run_id step_id d)) [
      | inl hit ↦
          let split = depends_from-hit run_id step_id d ds hit in
          let owner : d.run_id ≡ run_id = (str_eq_iff d.run_id run_id).0 (ground arith) in
          let head =
            completed_of_complete deps run_id d.dependency_step_id rows
              (known d.dependency_step_id (rw split (contains_head d.dependency_step_id _)))
              (subst (λ r. incomplete_at r d.dependency_step_id rows ≡ false) owner
                (ground arith)) in
          let tail =
            dependencies_completed deps run_id step_id rows ds
              (λ x m. known x (rw split (contains_later x d.dependency_step_id _ m)))
              (ground arith) in
          rw split (subset_cons _ _ _ head tail)
      | inr miss ↦
          let split = depends_from-miss run_id step_id d ds miss in
          rw split (
            dependencies_completed deps run_id step_id rows ds (λ x m. known x (rw split m))
              (ground arith))
    ]
