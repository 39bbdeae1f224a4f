-- ===== src/Storage/Incomplete.antt =====
-- Writes to a step that is not completed leave what others wait for as it was.
use crashsafe.Prelude.{
  arith, String, Bool, true, false, not, ◌&&◌, ◌≡◌, refl, subst, ◌∙◌, some, List, [], ◌∷◌, str_eq,
  str_eq_iff, any, find?, update_rows, Bool-cases, inl, inr,
}
use crashsafe.Models.{StepStatus, status_eq, runnable_status}
use crashsafe.Storage.Db.{StepRow, DependencyRow, is_step}
use crashsafe.Storage.Projection.Rows.{KeepsKeys}
use crashsafe.Storage.Candidates.{In}

-- a row of the step that is not completed
abbrev incomplete : String → String → StepRow → Bool
incomplete run_id step_id row =
    is_step run_id step_id row && not (status_eq row.status StepStatus.completed)

pub find?-In :
    (test : StepRow → Bool) (rows : List StepRow) (row : StepRow)
    → find? test rows ≡ some row
    → In row rows
unfolding find?
find?-In test [] row h = absurd (cc)
find?-In test (r ∷ rows) row h = elim (Bool-cases (test r)) [
  | inl e ↦ inl (ground (arith, e))
  | inr e ↦ inr (find?-In test rows row (ground (arith, e)))
]

runnable-incomplete :
    (status : StepStatus)
    → runnable_status status ≡ true
    → status_eq status StepStatus.completed ≡ false
runnable-incomplete StepStatus.pending h = refl
runnable-incomplete StepStatus.intent_recorded h = refl
runnable-incomplete StepStatus.retry_wait h = refl
runnable-incomplete StepStatus.completed h = absurd (cc)
runnable-incomplete StepStatus.failed h = refl

pub find?-holds :
    (test : StepRow → Bool) (rows : List StepRow) (row : StepRow)
    → find? test rows ≡ some row
    → test row ≡ true
unfolding find?
find?-holds test [] row h = absurd (cc)
find?-holds test (r ∷ rows) row h = elim (Bool-cases (test r)) [
  | inl e ↦ ground (arith, e, h)
  | inr e ↦ find?-holds test rows row (ground (arith, e))
]

module _ (run_id step_id : String) (f : StepRow → StepRow) (keys : KeepsKeys f) where
  any-update_apart :
      (a b : String) (rows : List StepRow)
      → (str_eq a run_id && str_eq b step_id) ≡ false
      → any (incomplete a b) (update_rows (is_step run_id step_id) f rows)
        ≡ any (incomplete a b) rows
  unfolding update_rows
  any-update_apart a b [] h = refl
  any-update_apart a b (r ∷ rows) h = ground (
    arith,
    any-update_apart a b rows h,
    keys.run_id r,
    keys.id r,
    str_eq_iff r.run_id run_id,
    str_eq_iff r.run_id a,
    str_eq_iff a run_id,
    str_eq_iff r.id step_id,
    str_eq_iff r.id b,
    str_eq_iff b step_id,
  )

  any-found :
      (rows : List StepRow) (row : StepRow)
      → find? (is_step run_id step_id) rows ≡ some row
      → runnable_status row.status ≡ true
      → any (incomplete run_id step_id) rows ≡ true
  unfolding find?
  any-found [] row h open' = absurd (cc)
  any-found (r ∷ rows) row h open' = elim (Bool-cases (is_step run_id step_id r)) [
    | inl e ↦
        let same : r ≡ row = ground (arith, e) in
        let left : status_eq r.status StepStatus.completed ≡ false =
          runnable-incomplete r.status (rw same open') in
        ground (arith, e, left)
    | inr e ↦ ground (arith, e, any-found rows row)
  ]

  any-update_incomplete :
      (rows : List StepRow) (row : StepRow) (a b : String)
      → find? (is_step run_id step_id) rows ≡ some row
      → runnable_status row.status ≡ true
      → any (incomplete a b) rows ≡ false
      → any (incomplete a b) (update_rows (is_step run_id step_id) f rows) ≡ false
  any-update_incomplete rows row a b h open' complete =
      elim (Bool-cases (str_eq a run_id && str_eq b step_id)) [
        | inr e ↦ any-update_apart a b rows e ∙ complete
        | inl e ↦
            let same_run : run_id ≡ a = ground (arith, e, str_eq_iff a run_id) in
            let same_step : step_id ≡ b = ground (arith, e, str_eq_iff b step_id) in
            let there =
              subst (λ r. any (incomplete r b) rows ≡ true) same_run
                (subst (λ s. any (incomplete run_id s) rows ≡ true) same_step
                  (any-found rows row h open')) in
            absurd (cc)
      ]

  -- No dependency becomes incomplete by the write.
  pub dependencies-update :
      (rows : List StepRow) (row : StepRow) (ds : List DependencyRow)
      → find? (is_step run_id step_id) rows ≡ some row
      → runnable_status row.status ≡ true
      → any
          (λ (d : DependencyRow).
            (str_eq d.run_id run_id && str_eq d.step_id step_id)
            && any (incomplete d.run_id d.dependency_step_id) rows)
          ds
        ≡ false
      → any
          (λ (d : DependencyRow).
            (str_eq d.run_id run_id && str_eq d.step_id step_id)
            && any
                (incomplete d.run_id d.dependency_step_id)
                (update_rows (is_step run_id step_id) f rows))
          ds
        ≡ false
  dependencies-update rows row [] h open' complete = refl
  dependencies-update rows row (d ∷ ds) h open' complete = ground (
    arith,
    dependencies-update rows row ds h open',
    any-update_incomplete rows row d.run_id d.dependency_step_id h open',
  )
