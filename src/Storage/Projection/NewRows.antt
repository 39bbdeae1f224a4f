-- ===== src/Storage/Projection/NewRows.antt =====
-- The rows of a new run, as they are read back.
use crashsafe.Prelude.{
  ℕ, ◌+◌, String, Bool, true, false, ◌≡◌, ◌≢◌, refl, ap, arith, some, List, [], ◌∷◌, ◌++◌, map,
  str_eq, str_eq_self, contains, subset-contains, Nodup, Bool-cases, inl, inr, any, all, All, find?,
  where_rows,
}
use crashsafe.Models.{Datetime, StepDefinition, StepStatus, status_eq}
use crashsafe.History.Definitions.{ids_of, remaining, contiguous_from}
use crashsafe.History.Transitions.{step_of_definition}
use crashsafe.History.Graph.{IsSound}
use crashsafe.Storage.Db.{StepRow, of_run, step_from_row}
use crashsafe.Storage.Create.{new_step}
use crashsafe.Storage.Projection.Rows.{row_ids}
use crashsafe.Storage.Projection.Steps.{PositionsFrom}

pub find?-append_last {ℓ} :
    {A : Type ℓ} (test : A → Bool) (xs : List A) (x : A)
    → any test xs ≡ false
    → test x ≡ true
    → find? test (xs ++ x ∷ []) ≡ some x
unfolding find?
find?-append_last test [] x h t = ground arith
find?-append_last test (y ∷ xs) x h t = ground (arith, find?-append_last test xs x)

module _ (run_id : String) (now : Datetime) where
  pub where_rows-new :
      (ds : List StepDefinition)
      → where_rows (of_run run_id) (map (new_step run_id now) ds) ≡ map (new_step run_id now) ds
  unfolding where_rows
  where_rows-new [] = refl
  where_rows-new (d ∷ ds) = ground (arith, where_rows-new ds, str_eq_self run_id)

  pub new-PositionsFrom :
      (n : ℕ) (ds : List StepDefinition)
      → contiguous_from n ds ≡ true
      → PositionsFrom n (map (new_step run_id now) ds)
  new-PositionsFrom n [] h = tt
  new-PositionsFrom n (d ∷ ds) h = (ground arith, new-PositionsFrom (n + 1) ds (ground arith))

  pub row_ids-new : (ds : List StepDefinition) → row_ids (map (new_step run_id now) ds) ≡ ids_of ds
  row_ids-new [] = refl
  row_ids-new (d ∷ ds) = ap (λ rest. d.id ∷ rest) (row_ids-new ds)

  pub none_failed-new :
      (ds : List StepDefinition)
      → any
          (λ (row : StepRow). status_eq row.status StepStatus.failed)
          (map (new_step run_id now) ds)
        ≡ false
  none_failed-new [] = refl
  none_failed-new (d ∷ ds) = none_failed-new ds

  pub some_left-new :
      (ds : List StepDefinition)
      → ds ≢ []
      → all
          (λ (row : StepRow). status_eq row.status StepStatus.completed)
          (map (new_step run_id now) ds)
        ≡ false
  some_left-new [] h = absurd (h refl)
  some_left-new (d ∷ ds) h = refl

  pub views-new :
      (deps : String → List String) (ds : List StepDefinition)
      → All (λ (d : StepDefinition). deps d.id ≡ d.depends_on) ds
      → map (step_from_row deps) (map (new_step run_id now) ds)
        ≡ map (step_of_definition run_id now) ds
  unfolding step_from_row step_of_definition
  views-new deps [] h = refl
  views-new deps (d ∷ ds) h = rw (h.0, views-new deps ds h.1) refl

remaining_behind :
    (d : StepDefinition) (ds es : List StepDefinition)
    → contains d.id (ids_of es) ≡ false
    → All (λ (e : StepDefinition). remaining ds e.id ≡ e.depends_on) es
    → All (λ (e : StepDefinition). remaining (d ∷ ds) e.id ≡ e.depends_on) es
unfolding remaining contains
remaining_behind d ds [] c h = tt
remaining_behind d ds (e ∷ es) c h =
    (ground (arith, h.0), remaining_behind d ds es (ground arith) h.1)

pub remaining_own :
    (ds : List StepDefinition)
    → Nodup (ids_of ds)
    → All (λ (d : StepDefinition). remaining ds d.id ≡ d.depends_on) ds
unfolding remaining
remaining_own [] h = tt
remaining_own (d ∷ ds) h =
    (rw (str_eq_self d.id) refl, remaining_behind d ds ds h.0 (remaining_own ds h.1))

pub remaining_known :
    (run_id step_id x : String) (known : List String) (ds : List StepDefinition)
    → All (IsSound run_id known) ds
    → contains x (remaining ds step_id) ≡ true
    → contains x known ≡ true
unfolding remaining contains
remaining_known run_id step_id x known [] sound h = absurd (cc)
remaining_known run_id step_id x known (d ∷ ds) sound h = elim (Bool-cases (str_eq d.id step_id)) [
  | inl e ↦ subset-contains d.depends_on known x sound.0.known (ground arith)
  | inr e ↦ remaining_known run_id step_id x known ds sound.1 (ground arith)
]
