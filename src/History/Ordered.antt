-- ===== src/History/Ordered.antt =====
-- `_validate_definitions` accepts well formed definitions that can be ordered.
use crashsafe.Prelude.{
  ℕ, zero, suc, String, true, ◌≡◌, ◌≢◌, refl, List, [], ◌∷◌, arith, Bool-cases, Option-cases, none,
  inl, inr, str_eq, str_eq_iff, contains, subset, subset_intro, subset-contains,
  has_duplicates-false_iff, find?, length, length-le_of_contained, ok, err,
}
use crashsafe.Models.{StepDefinition}
use crashsafe.History.Definitions.{
  cyclic_definitions, ids_of, remaining, is_ready, visit_ready, validate_definitions,
}
use crashsafe.History.Graph.{
  IsOrder, IsWellFormed, find?-none, visit_ready_cases, check_definitions_iff,
}
use crashsafe.History.Rounds.{IsOrder-Nodup}

module _ (ds : List StepDefinition) (visited : List String)
    (stuck : find? (is_ready ds visited) (ids_of ds) ≡ none) where
  -- Where no step is ready, all that can be ordered was visited.
  stuck_visited :
      (xs : List String)
      → IsOrder ds xs
      → (x : String) → contains x xs ≡ true
      → contains x visited ≡ true
  unfolding contains
  stuck_visited [] o x m = absurd (cc)
  stuck_visited (y ∷ ys) o x m =
      let below : subset (remaining ds y) visited ≡ true =
        subset_intro (remaining ds y) visited
          λ z k. stuck_visited ys o.3 z (subset-contains (remaining ds y) ys z o.2 k) in
      let idle = find?-none (is_ready ds visited) (ids_of ds) y stuck o.1 in
      elim (Bool-cases (str_eq x y)) [
        | inl e ↦ (let same : x ≡ y = (str_eq_iff x y).0 e in rw same (ground arith))
        | inr e ↦ stuck_visited ys o.3 x (ground arith)
      ]

module _ (ds : List StepDefinition) (order : List String) (n : length order ≡ length ds)
    (o : IsOrder ds order) where
  visit_ready_ordered :
      (rounds : ℕ) (visited : List String) → visit_ready ds rounds visited ≢ err cyclic_definitions
  unfolding visit_ready
  visit_ready_ordered zero visited h = ground arith
  visit_ready_ordered (suc rounds) visited h =
      elim (Option-cases (find? (is_ready ds visited) (ids_of ds))) [
        | inl e ↦
            let enough =
              length-le_of_contained order visited (IsOrder-Nodup ds order o)
                (stuck_visited ds visited e order o) in
            ground (arith, n)
        | inr (x, e) ↦ visit_ready_ordered rounds (x ∷ visited) (ground arith)
      ]

-- Well formed definitions that can be ordered are accepted.
pub validate_definitions_ordered :
    (run_id : String) (ds : List StepDefinition) (order : List String)
    → IsWellFormed run_id ds
    → length order ≡ length ds
    → IsOrder ds order
    → validate_definitions run_id ds ≡ ok tt
unfolding validate_definitions
validate_definitions_ordered run_id [] order w n o = absurd (w.nonempty refl)
validate_definitions_ordered run_id (d ∷ ds) order w n o =
    let all = d ∷ ds in
    rw
      (
        w.positions,
        (has_duplicates-false_iff (ids_of all)).1 w.distinct,
        (check_definitions_iff run_id (ids_of all) all).1 w.sound,
      )
      (elim (visit_ready_cases all (length all) [] (omega arith) tt) [
        | inl bad ↦ absurd (visit_ready_ordered all order n o (length all) [] bad)
        | inr (good, found) ↦ good
      ])
