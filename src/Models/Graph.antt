-- ===== src/Models/Graph.antt =====
-- crashsafe/models.py: `validate_graph`, the validator of a submitted `WorkflowDefinition`.
use crashsafe.Prelude.{
  ℕ, zero, suc, String, Bool, true, false, not, ◌&&◌, List, [], ◌∷◌, ◌++◌, map, ◌==◌, Result, ok,
  err, ◌>>=◌, ◌>>◌, raise_if, str_eq, contains, subset, has_duplicates, length, where_rows,
  if◌then◌else◌,
}
use crashsafe.Models.{WorkflowStep, WorkflowDefinition}

-- One for each `raise`.
pub data GraphError : Type 0 where
  repeated_ids : GraphError
  repeated_dependencies : GraphError
  depends_on_itself : GraphError
  unknown_dependencies : GraphError
  cyclic_dependencies : GraphError
  -- no `raise` of the source: the rounds given to the loop ran out
  out_of_rounds : GraphError

abbrev pub step_ids : List WorkflowStep → List String
step_ids = map (λ step. step.id)

-- The body of the `for` loop over the steps.
abbrev pub check_step : List String → WorkflowStep → Result GraphError (Unit {0})
check_step known step = do
  raise_if (has_duplicates step.depends_on) repeated_dependencies
  raise_if (contains step.id step.depends_on) depends_on_itself
  raise_if (not (subset step.depends_on known)) unknown_dependencies

unfoldable pub check_steps : List String → List WorkflowStep → Result GraphError (Unit {0})
check_steps known [] = ok tt
check_steps known (step ∷ steps) = check_step known step >> check_steps known steps

-- An item of the dictionary `dependencies`: a step with the dependencies that are still left.
pub record Waiting : Type 0 where
  pub step_id : String
  pub left : List String

abbrev pub waiting_of : WorkflowStep → Waiting
waiting_of step = record { step_id = step.id; left = step.depends_on }

abbrev pub is_empty : List String → Bool
is_empty [] = true
is_empty (x ∷ xs) = false

-- the list comprehension of the first `ready`
unfoldable pub ready_ids : List Waiting → List String
ready_ids [] = []
ready_ids (w ∷ ws) = let rest = ready_ids ws in if is_empty w.left then w.step_id ∷ rest else rest

-- `dependencies[candidate].remove(current)`
unfoldable pub without : String → List String → List String
without current left = where_rows (λ x. not (str_eq x current)) left

-- `ready.append(candidate)`, under its condition
abbrev pub enqueue : String → List String → Waiting → List String → List String
enqueue current visited w ready =
    if contains current w.left
      && (is_empty (without current w.left)
          && (not (contains w.step_id visited) && not (contains w.step_id ready)))
    then ready ++ w.step_id ∷ []
    else ready

abbrev pub discharge : String → Waiting → Waiting
discharge current w =
    if contains current w.left then record w { left = without current w.left } else w

-- The `for` loop over the candidates.
unfoldable pub visit :
    String → List String → List Waiting → List String → List Waiting × List String
visit current visited [] ready = ([], ready)
visit current visited (w ∷ ws) ready =
    let (others, final) = visit current visited ws (enqueue current visited w ready) in
    (discharge current w ∷ others, final)

-- The `while` loop; `visited` has the latest first.
unfoldable pub visit_all :
    ℕ → List Waiting → List String → List String → Result GraphError (List String)
visit_all rounds dependencies [] visited = ok visited
visit_all zero dependencies (current ∷ ready) visited = err out_of_rounds
visit_all (suc rounds) dependencies (current ∷ ready) visited =
    let (dependencies', ready') = visit current (current ∷ visited) dependencies ready in
    visit_all rounds dependencies' ready' (current ∷ visited)

unfoldable pub validate_graph : WorkflowDefinition → Result GraphError WorkflowDefinition
validate_graph definition = do
  raise_if (has_duplicates (step_ids definition.steps)) repeated_ids
  check_steps (step_ids definition.steps) definition.steps
  visited ←
      visit_all (length definition.steps) (map waiting_of definition.steps)
        (ready_ids (map waiting_of definition.steps)) []
  raise_if (not (length visited == length definition.steps)) cyclic_dependencies
  ok definition
