-- ===== src/History/Definitions.antt =====
-- crashsafe/history.py: the integrity errors, one for each `raise`, and `_validate_definitions`.
use crashsafe.Prelude.{
  ℕ, zero, suc, String, Bool, true, not, ◌&&◌, ◌||◌, none, some, List, [], ◌∷◌, map, ◌==◌, ltb,
  Result, ok, err, ◌>>◌, raise_if, str_eq, contains, subset, has_duplicates, length, find?,
  if◌then◌else◌,
}
use crashsafe.Models.{StepDefinition}
use Prim.Native.String.{◌++◌ as str_append}

pub data HistoryIntegrityError : Type 0 where
  empty_history : HistoryIntegrityError
  multiple_run_ids : HistoryIntegrityError
  unexpected_sequence : HistoryIntegrityError
  unsupported_schema_version : HistoryIntegrityError
  invalid_payload : HistoryIntegrityError
  misplaced_creation : HistoryIntegrityError
  creation_version : HistoryIntegrityError
  creation_metadata : HistoryIntegrityError
  wrong_payload : HistoryIntegrityError
  no_steps : HistoryIntegrityError
  positions_not_contiguous : HistoryIntegrityError
  duplicate_step_ids : HistoryIntegrityError
  operation_key_mismatch : HistoryIntegrityError
  repeated_dependency : HistoryIntegrityError
  invalid_dependency : HistoryIntegrityError
  cyclic_definitions : HistoryIntegrityError
  missing_creation : HistoryIntegrityError
  after_terminal : HistoryIntegrityError
  completion_metadata : HistoryIntegrityError
  completion_incomplete : HistoryIntegrityError
  failure_metadata : HistoryIntegrityError
  failure_step_not_failed : HistoryIntegrityError
  missing_step_or_attempt : HistoryIntegrityError
  unknown_step : HistoryIntegrityError
  attempt_without_owner : HistoryIntegrityError
  attempt_not_runnable : HistoryIntegrityError
  attempt_number : HistoryIntegrityError
  attempt_dependencies : HistoryIntegrityError
  attempt_changed_definition : HistoryIntegrityError
  stale_attempt : HistoryIntegrityError
  unsupported_event_type : HistoryIntegrityError
  assertion_failed : HistoryIntegrityError
  unreported_failure : HistoryIntegrityError
  unreported_completion : HistoryIntegrityError
  -- no `raise` of the source: the rounds given to the loop of `_validate_definitions` ran out
  no_rounds_left : HistoryIntegrityError

-- f"{run_id}:{step_id}"
unfoldable pub operation_key_of : String → String → String
operation_key_of run_id step_id = str_append run_id (str_append ":" step_id)

abbrev pub ids_of : List StepDefinition → List String
ids_of = map (λ definition. definition.id)

-- `positions == list(range(n))`, from a first position on
abbrev pub contiguous_from : ℕ → List StepDefinition → Bool
contiguous_from position [] = true
contiguous_from position (definition ∷ rest) =
    definition.position == position && contiguous_from (suc position) rest

-- The body of the `for` loop over the definitions.
abbrev pub check_definition :
    String → List String → StepDefinition → Result HistoryIntegrityError (Unit {0})
check_definition run_id known definition = do
  raise_if (not (str_eq definition.operation_key (operation_key_of run_id definition.id)))
      operation_key_mismatch
  raise_if (has_duplicates definition.depends_on) repeated_dependency
  raise_if
      (contains definition.id definition.depends_on || not (subset definition.depends_on known))
      invalid_dependency

unfoldable pub check_definitions :
    String → List String → List StepDefinition → Result HistoryIntegrityError (Unit {0})
check_definitions run_id known [] = ok tt
check_definitions run_id known (definition ∷ rest) =
    check_definition run_id known definition >> check_definitions run_id known rest

-- `remaining[step_id]`: the entry of the dictionary built from the definitions
unfoldable pub remaining : List StepDefinition → String → List String
remaining [] step_id = []
remaining (definition ∷ rest) step_id =
    if str_eq definition.id step_id then definition.depends_on else remaining rest step_id

-- the list comprehension that binds `ready`
abbrev pub is_ready : List StepDefinition → List String → String → Bool
is_ready definitions visited step_id =
    not (contains step_id visited) && subset (remaining definitions step_id) visited

-- The `while` loop, one round of fuel for each step to visit.
unfoldable pub visit_ready :
    List StepDefinition → ℕ → List String → Result HistoryIntegrityError (Unit {0})
visit_ready definitions zero visited =
    if ltb (length visited) (length definitions) then err no_rounds_left else ok tt
visit_ready definitions (suc rounds) visited =
    if ltb (length visited) (length definitions)
    then (elim (find? (is_ready definitions visited) (ids_of definitions)) [
      | none ↦ err cyclic_definitions
      | some step_id ↦ visit_ready definitions rounds (step_id ∷ visited)
    ])
    else ok tt

unfoldable pub validate_definitions :
    String → List StepDefinition → Result HistoryIntegrityError (Unit {0})
validate_definitions run_id [] = err no_steps
validate_definitions run_id (first ∷ rest) = do
  raise_if (not (contiguous_from 0 (first ∷ rest))) positions_not_contiguous
  raise_if (has_duplicates (ids_of (first ∷ rest))) duplicate_step_ids
  check_definitions run_id (ids_of (first ∷ rest)) (first ∷ rest)
  visit_ready (first ∷ rest) (length (first ∷ rest)) []
