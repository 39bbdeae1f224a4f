-- ===== src/Examples/History.antt =====
-- The theorems of the reducer at the history of `Events`.
use crashsafe.Prelude.{
  ◌<◌, sym, subst, Bool-cases, inl, inr, str_eq_iff, ℕ, String, true, ◌≡◌, ◌≢◌, refl, List, [], ◌∷◌,
  ◌++◌, if◌then◌else◌, ok, arith, length, str_eq, contains, subset, has_duplicates, to_set, find?,
  where_rows,
}
use crashsafe.Models.Values.{json_eq, items_eq, fields_eq}
use crashsafe.Models.{StepDefinition, step_attempt_started}
use crashsafe.History.Definitions.{
  operation_key_of, ids_of, check_definitions, remaining, visit_ready, validate_definitions,
}
use crashsafe.History.Payloads.{parse_payload}
use crashsafe.History.Transitions.{
  step_of_definition, created_run, create_run, complete_run, fail_run, completed_ids, index_from,
  find_step, find_step_with_index, advance_step, advance_run_step, advance, attempted,
}
use crashsafe.History.{fold_event, fold_events, next_run, check_final, reduce_workflow_run_history}
use crashsafe.History.Steps.{RunChange, advance-RunChange}
use crashsafe.History.Consistent.{IsConsistent}
use crashsafe.History.Lifecycle.{reduce-IsConsistent}
use crashsafe.History.Order.{IsNumbered, reduce-IsNumbered, reduce-terminal_closed}
use crashsafe.History.Frozen.{Continues, reduce-Continues}
use crashsafe.History.Graph.{
  IsOrder, IsRanked, IsWellFormed, validate_definitions-IsOrder, validate_definitions_accepts,
}
use crashsafe.Storage.Create.{definitions_from}
use crashsafe.Examples.Codec.{codec}
use crashsafe.Examples.Runs.{signup_created}
use crashsafe.Examples.Events.{
  early_events, late_events, attempt_event, mail_attempt, pay_done, mail_waiting, early_run,
  late_run,
}

early-reduced : reduce_workflow_run_history codec early_events ≡ ok early_run
unfolding str_eq contains subset has_duplicates to_set find? where_rows json_eq items_eq fields_eq
    operation_key_of check_definitions remaining visit_ready validate_definitions parse_payload
    step_of_definition created_run create_run complete_run fail_run completed_ids index_from
    find_step find_step_with_index advance_step advance_run_step advance fold_event fold_events
    next_run check_final reduce_workflow_run_history definitions_from
early-reduced = refl

pub late-reduced : reduce_workflow_run_history codec (early_events ++ late_events) ≡ ok late_run
unfolding str_eq contains subset has_duplicates to_set find? where_rows json_eq items_eq fields_eq
    operation_key_of check_definitions remaining visit_ready validate_definitions parse_payload
    step_of_definition created_run create_run complete_run fail_run completed_ids index_from
    find_step find_step_with_index advance_step advance_run_step advance fold_event fold_events
    next_run check_final reduce_workflow_run_history definitions_from
late-reduced = refl

advance-RunChange_example :
    RunChange step_attempt_started early_run attempt_event mail_attempt
      (record early_run { steps = pay_done ∷ attempted mail_waiting 2 12 ∷ [] })
unfolding str_eq contains subset has_duplicates to_set where_rows json_eq items_eq fields_eq
    completed_ids index_from find_step_with_index advance_step advance_run_step advance
    step_of_definition
advance-RunChange_example =
    advance-RunChange step_attempt_started early_run attempt_event mail_attempt
      (record early_run { steps = pay_done ∷ attempted mail_waiting 2 12 ∷ [] }) refl

reduce-IsConsistent_example : IsConsistent late_run
reduce-IsConsistent_example =
    reduce-IsConsistent codec (early_events ++ late_events) late_run late-reduced

reduce-IsNumbered_example : IsNumbered "r1" 1 (early_events ++ late_events)
reduce-IsNumbered_example =
    reduce-IsNumbered codec (early_events ++ late_events) late_run late-reduced

reduce-Continues_example : Continues early_run late_run
reduce-Continues_example =
    reduce-Continues codec early_events late_events early_run late_run early-reduced late-reduced

reduce-terminal_closed_example :
    reduce_workflow_run_history codec ((early_events ++ late_events) ++ attempt_event ∷ [])
    ≢ ok late_run
reduce-terminal_closed_example =
    reduce-terminal_closed codec (early_events ++ late_events) attempt_event [] late_run late_run
      late-reduced (λ e. cc)

abbrev definitions : List StepDefinition
definitions = signup_created.steps

signup_valid : validate_definitions "r1" signup_created.steps ≡ ok tt
unfolding str_eq contains subset has_duplicates to_set find? operation_key_of check_definitions
    remaining visit_ready validate_definitions definitions_from
signup_valid = refl

validate_definitions-IsOrder_example :
    IsWellFormed "r1" definitions
    × ((order : List String) × (length order ≡ length definitions) × IsOrder definitions order)
validate_definitions-IsOrder_example = validate_definitions-IsOrder "r1" definitions signup_valid

abbrev rank : String → ℕ
rank x = if str_eq x "mail" then 1 else 0

needs_pay :
    (x d : String) → contains d (remaining definitions x) ≡ true → (x ≡ "mail") × (d ≡ "pay")
unfolding contains remaining definitions_from
needs_pay x d needed = elim (Bool-cases (str_eq "pay" x)) [
  | inl e ↦ absurd (ground arith)
  | inr e ↦ elim (Bool-cases (str_eq "mail" x)) [
    | inl f ↦ (sym ((str_eq_iff "mail" x).0 f), (str_eq_iff d "pay").0 (ground arith))
    | inr f ↦ absurd (ground arith)
  ]
]

pay_first : (rank "pay" < rank "mail") × (contains "pay" (ids_of definitions) ≡ true)
unfolding str_eq contains definitions_from
pay_first = (omega arith, refl)

signup-IsRanked : IsRanked rank definitions
signup-IsRanked x d known needed =
    let (later, first) = needs_pay x d needed in
    subst (λ x. (rank d < rank x) × (contains d (ids_of definitions) ≡ true)) (sym later)
      (subst (λ d. (rank d < rank "mail") × (contains d (ids_of definitions) ≡ true)) (sym first)
        pay_first)

validate_definitions_accepts_example : validate_definitions "r1" definitions ≡ ok tt
validate_definitions_accepts_example =
    validate_definitions_accepts rank "r1" definitions
      (validate_definitions-IsOrder "r1" definitions signup_valid).0 signup-IsRanked
