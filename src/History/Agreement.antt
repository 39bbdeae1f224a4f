-- ===== src/History/Agreement.antt =====
-- The two checks of a workflow's graph, `validate_graph` and `_validate_definitions`, agree.
use crashsafe.Prelude.{
  ℕ, suc, String, true, not, ◌≡◌, ◌≢◌, ◌↔◌, refl, sym, subst, ap, ◌∙◌, List, [], ◌∷◌, arith, map,
  contains, has_duplicates, has_duplicates-false_iff, where_rows, Nodup, length, All, ok,
  ok_injective, >>=-eq-ok, raise_if, ◌==◌,
}
use crashsafe.Models.{StepDefinition, WorkflowStep, WorkflowDefinition}
use crashsafe.Models.Graph.{
  repeated_ids, cyclic_dependencies, step_ids, check_step, check_steps, waiting_of, ready_ids,
  visit_all, validate_graph,
}
use crashsafe.History.Definitions.{ids_of, contiguous_from, validate_definitions}
use crashsafe.History.Payloads.{Pydantic}
use crashsafe.History.Queue.{waiting_after, left_after}
use crashsafe.History.Graph.{IsSound, validate_definitions-IsOrder}
use crashsafe.History.Rounds.{Front}
use crashsafe.History.Visits.{visit_all-first, Front-length}
use crashsafe.History.Ordered.{validate_definitions_ordered}
use crashsafe.Storage.Create.{definitions_from}

-- The validator returns the definition that it was given.
pub validate_graph_same :
    (definition accepted : WorkflowDefinition)
    → validate_graph definition ≡ ok accepted
    → accepted ≡ definition
unfolding validate_graph
validate_graph_same definition accepted h =
    let ids = step_ids definition.steps in
    let (_, a, h₁) = >>=-eq-ok (raise_if (has_duplicates ids) repeated_ids) _ h in
    let (_, b, h₂) = >>=-eq-ok (check_steps ids definition.steps) _ h₁ in
    let (visited, c, h₃) =
      >>=-eq-ok
        (visit_all (length definition.steps) (map waiting_of definition.steps)
          (ready_ids (map waiting_of definition.steps)) [])
        _ h₂ in
    let (_, d, h₄) =
      >>=-eq-ok (raise_if (not (length visited == length definition.steps)) cyclic_dependencies) _
        h₃ in
    sym (ok_injective h₄)

module _ (py : Pydantic) (run_id tool_key : String) where
  abbrev made : ℕ → List WorkflowStep → List StepDefinition
  made = definitions_from py run_id tool_key

  made-ids :
      (position : ℕ) (steps : List WorkflowStep) → ids_of (made position steps) ≡ step_ids steps
  unfolding definitions_from
  made-ids position [] = refl
  made-ids position (s ∷ ss) = ap (◌∷◌ s.id) (made-ids (suc position) ss)

  made-length :
      (position : ℕ) (steps : List WorkflowStep) → length (made position steps) ≡ length steps
  unfolding definitions_from
  made-length position [] = refl
  made-length position (s ∷ ss) = ap suc (made-length (suc position) ss)

  made-contiguous :
      (position : ℕ) (steps : List WorkflowStep)
      → contiguous_from position (made position steps) ≡ true
  unfolding definitions_from
  made-contiguous position [] = refl
  made-contiguous position (s ∷ ss) = ground (arith, made-contiguous (suc position) ss)

  made-nonempty : (position : ℕ) (steps : List WorkflowStep) → steps ≢ [] → made position steps ≢ []
  unfolding definitions_from
  made-nonempty position [] n h = n refl
  made-nonempty position (s ∷ ss) n h = cc

  left_after-none : (xs : List String) → left_after [] xs ≡ xs
  unfolding where_rows contains
  left_after-none [] = refl
  left_after-none (x ∷ xs) = ap (◌∷◌ x) (left_after-none xs)

  made-waiting :
      (position : ℕ) (steps : List WorkflowStep)
      → waiting_after [] (made position steps) ≡ map waiting_of steps
  unfolding definitions_from
  made-waiting position [] = refl
  made-waiting position (s ∷ ss) =
      rw (left_after-none s.depends_on, made-waiting (suc position) ss) refl

  made-IsSound :
      (known : List String) (position : ℕ) (steps : List WorkflowStep)
      → (check_steps known steps ≡ ok tt) ↔ All (IsSound run_id known) (made position steps)
  unfolding definitions_from check_steps
  made-IsSound known position [] = (λ _. tt, λ _. refl)
  made-IsSound known position (s ∷ ss) = (
    λ h.
        let (_, a, b) = >>=-eq-ok (check_step known s) _ h in
        (
          record {
            key = refl;
            distinct = (has_duplicates-false_iff s.depends_on).0 (ground arith);
            other = ground arith;
            known = ground arith;
          },
          (made-IsSound known (suc position) ss).0 b,
        ),
    λ v. ground (
      arith,
      (has_duplicates-false_iff s.depends_on).1 v.0.distinct,
      v.0.other,
      v.0.known,
      (made-IsSound known (suc position) ss).1 v.1,
    ),
  )

module _ (py : Pydantic) (run_id tool_key : String) (definition : WorkflowDefinition)
    (nonempty : definition.steps ≢ []) where
  abbrev steps : List WorkflowStep
  steps = definition.steps

  abbrev definitions : List StepDefinition
  definitions = made py run_id tool_key 0 steps

  loop :
      Nodup (ids_of definitions)
      → (last : List String) × (visit_all
            (length steps)
            (map waiting_of steps)
            (ready_ids (map waiting_of steps))
            []
          ≡ ok last)
        × Front definitions last []
  loop distinct =
      let (last, e, front) = visit_all-first definitions distinct in
      let e' : visit_all (length steps) (waiting_after [] definitions)
            (ready_ids (waiting_after [] definitions)) []
          ≡ ok last =
        subst
          (λ n.
            visit_all n (waiting_after [] definitions) (ready_ids (waiting_after [] definitions)) []
            ≡ ok last)
          (made-length py run_id tool_key 0 steps) e in
      (
        last,
        subst (λ ws. visit_all (length steps) ws (ready_ids ws) [] ≡ ok last)
            (made-waiting py run_id tool_key 0 steps) e',
        front,
      )

  checked_graph :
      validate_graph definition ≡ ok definition → validate_definitions run_id definitions ≡ ok tt
  unfolding validate_graph
  checked_graph h =
      let ids = step_ids steps in
      let same = made-ids py run_id tool_key 0 steps in
      let (_, a, h₁) = >>=-eq-ok (raise_if (has_duplicates ids) repeated_ids) _ h in
      let (_, b, h₂) = >>=-eq-ok (check_steps ids steps) _ h₁ in
      let distinct : Nodup ids = (has_duplicates-false_iff ids).0 (ground arith) in
      let (last, c, front) = loop (subst Nodup (sym same) distinct) in
      let n : length last ≡ length steps = ground arith in
      validate_definitions_ordered run_id definitions last
        (record {
          nonempty = made-nonempty py run_id tool_key 0 steps nonempty;
          positions = made-contiguous py run_id tool_key 0 steps;
          distinct = subst Nodup (sym same) distinct;
          sound =
              subst (λ xs. All (IsSound run_id xs) definitions) (sym same)
                ((made-IsSound py run_id tool_key ids 0 steps).0 b);
        })
        (n ∙ sym (made-length py run_id tool_key 0 steps)) front.order

  checked_definitions :
      validate_definitions run_id definitions ≡ ok tt → validate_graph definition ≡ ok definition
  unfolding validate_graph
  checked_definitions h =
      let ids = step_ids steps in
      let same = made-ids py run_id tool_key 0 steps in
      let (w, found) = validate_definitions-IsOrder run_id definitions h in
      let (order, n, o) = found in
      let (last, c, front) = loop w.distinct in
      let visited = Front-length definitions last order front o n in
      let count : length last ≡ length steps = visited ∙ made-length py run_id tool_key 0 steps in
      rw
        (
          (has_duplicates-false_iff ids).1 (subst Nodup same w.distinct),
          (made-IsSound py run_id tool_key ids 0 steps).1
              (subst (λ xs. All (IsSound run_id xs) definitions) same w.sound),
          c,
        )
        (ground (arith, count))

  -- A nonempty workflow definition is accepted by `validate_graph` exactly when the definitions that
  -- `create_workflow_run` makes of it, for any run id and tool key, are accepted by the reducer's
  -- `_validate_definitions`: no run that is created is refused by the reducer, and no graph that the
  -- reducer would take is refused at submission.
  pub validate_graph_agrees :
      (validate_graph definition ≡ ok definition)
      ↔ (validate_definitions run_id definitions ≡ ok tt)
  validate_graph_agrees = (checked_graph, checked_definitions)
