-- ===== src/History/Graph.antt =====
-- The cycle check of `_validate_definitions`: it terminates, and it accepts the graphs that can be
-- ordered.
use crashsafe.Prelude.{
  ℕ, zero, suc, ◌+◌, ◌<◌, String, Bool, true, false, not, ◌≡◌, ◌≢◌, refl, subst, none, some, List,
  [], ◌∷◌, arith, Bool-cases, Option-cases, ◌⊎◌, inl, inr, ok, err, >>=-eq-ok, raise_if, str_eq,
  str_eq_iff, contains, subset, subset_intro, Nodup, has_duplicates, has_duplicates-false_iff,
  length, find?, length-le_of_contained, ◌↔◌, All,
}
use crashsafe.Models.{StepDefinition}
use crashsafe.History.Definitions.{
  operation_key_of, cyclic_definitions, positions_not_contiguous, duplicate_step_ids, ids_of,
  contiguous_from, check_definition, check_definitions, remaining, is_ready, visit_ready,
  validate_definitions,
}

-- The latest first: a definition stands before all that it depends on.
abbrev pub IsOrder : List StepDefinition → List String → Type 0
IsOrder definitions [] = Unit
IsOrder definitions (x ∷ xs) =
    (contains x xs ≡ false)
    × (contains x (ids_of definitions) ≡ true)
    × (subset (remaining definitions x) xs ≡ true)
    × IsOrder definitions xs

find?-some :
    (test : String → Bool) (xs : List String) (x : String)
    → find? test xs ≡ some x
    → (test x ≡ true) × (contains x xs ≡ true)
unfolding find? contains
find?-some test [] x h = absurd (cc)
find?-some test (y ∷ ys) x h = elim (Bool-cases (test y)) [
  | inl e ↦
      (let same : y ≡ x = ground arith in
        (subst (λ z. test z ≡ true) same e, ground (arith, str_eq_iff x y)))
  | inr e ↦ (let (a, b) = find?-some test ys x (rw e at h) in (a, ground arith))
]

pub find?-none :
    (test : String → Bool) (xs : List String) (x : String)
    → find? test xs ≡ none
    → contains x xs ≡ true
    → test x ≡ false
unfolding find? contains
find?-none test [] x h c = absurd (cc)
find?-none test (y ∷ ys) x h c = elim (Bool-cases (str_eq x y)) [
  | inl e ↦ (let same : x ≡ y = (str_eq_iff x y).0 e in rw same (ground arith))
  | inr e ↦ find?-none test ys x (ground arith) (ground arith)
]

length-ids_of :
    (definitions : List StepDefinition) → length (ids_of definitions) ≡ length definitions
length-ids_of [] = refl
length-ids_of (d ∷ ds) = omega (arith, length-ids_of ds)

module _ (definitions : List StepDefinition) where
  -- The rounds are enough, and what was visited is an order of all steps.
  pub visit_ready_cases :
      (rounds : ℕ) (visited : List String)
      → rounds + length visited ≡ length definitions
      → IsOrder definitions visited
      → (visit_ready definitions rounds visited ≡ err cyclic_definitions)
        ⊎ ((visit_ready definitions rounds visited ≡ ok tt)
            × ((order : List String) × (length order ≡ length definitions)
                × IsOrder definitions order))
  unfolding visit_ready
  visit_ready_cases zero visited n o = inr (ground arith, (visited, omega arith, o))
  visit_ready_cases (suc rounds) visited n o =
      elim (Option-cases (find? (is_ready definitions visited) (ids_of definitions))) [
        | inl e ↦ inl (ground arith)
        | inr (x, e) ↦
            let (ready, known) =
              find?-some (is_ready definitions visited) (ids_of definitions) x e in
            let more : IsOrder definitions (x ∷ visited) = (ground arith, known, ground arith, o) in
            elim (visit_ready_cases rounds (x ∷ visited) (omega arith) more) [
              | inl bad ↦ inl (ground arith)
              | inr (good, order) ↦ inr (ground arith, order)
            ]
      ]

-- `rank` puts every dependency below its step: the graph has no cycle.
abbrev pub IsRanked : (String → ℕ) → List StepDefinition → Type 0
IsRanked rank definitions =
    (x d : String)
    → contains x (ids_of definitions) ≡ true
    → contains d (remaining definitions x) ≡ true
    → (rank d < rank x) × (contains d (ids_of definitions) ≡ true)

module _ (rank : String → ℕ) (definitions : List StepDefinition)
    (ranked : IsRanked rank definitions) (visited : List String)
    (stuck : find? (is_ready definitions visited) (ids_of definitions) ≡ none) where
  -- Where no step is ready, every step of every rank was visited.
  all_visited :
      (n : ℕ) (x : String)
      → contains x (ids_of definitions) ≡ true
      → rank x < n
      → contains x visited ≡ true
  all_visited zero x known h = elim h [ ]
  all_visited (suc n) x known h =
      let below : subset (remaining definitions x) visited ≡ true =
        subset_intro (remaining definitions x) visited
          λ d m. let (lower, known') = ranked x d known m in all_visited n d known' (omega arith) in
      let idle = find?-none (is_ready definitions visited) (ids_of definitions) x stuck known in
      ground arith

module _ (rank : String → ℕ) (definitions : List StepDefinition)
    (ranked : IsRanked rank definitions) (distinct : Nodup (ids_of definitions)) where
  visit_ready-ne-cyclic :
      (rounds : ℕ) (visited : List String)
      → visit_ready definitions rounds visited ≢ err cyclic_definitions
  unfolding visit_ready
  visit_ready-ne-cyclic zero visited h = ground arith
  visit_ready-ne-cyclic (suc rounds) visited h =
      elim (Option-cases (find? (is_ready definitions visited) (ids_of definitions))) [
        | inl e ↦
            let enough = length-le_of_contained (ids_of definitions) visited distinct (λ x m.
              all_visited rank definitions ranked visited e (suc (rank x)) x m (omega arith)) in
            ground (arith, length-ids_of definitions)
        | inr (x, e) ↦ visit_ready-ne-cyclic rounds (x ∷ visited) (ground arith)
      ]

-- What the checks before the loop ask of one definition.
pub record IsSound (run_id : String) (ids : List String) (d : StepDefinition) : Type 0 where
  pub key : d.operation_key ≡ operation_key_of run_id d.id
  pub distinct : Nodup d.depends_on
  pub other : contains d.id d.depends_on ≡ false
  pub known : subset d.depends_on ids ≡ true

check_definition-IsSound :
    (run_id : String) (known : List String) (d : StepDefinition)
    → check_definition run_id known d ≡ ok tt
    → IsSound run_id known d
check_definition-IsSound run_id known d h = record {
  key = ground (arith, str_eq_iff d.operation_key (operation_key_of run_id d.id));
  distinct = (has_duplicates-false_iff d.depends_on).0 (ground arith);
  other = ground arith;
  known = ground arith;
}

IsSound-check_definition :
    (run_id : String) (known : List String) (d : StepDefinition)
    → IsSound run_id known d
    → check_definition run_id known d ≡ ok tt
IsSound-check_definition run_id known d v = ground (
  arith,
  str_eq_iff d.operation_key (operation_key_of run_id d.id),
  (has_duplicates-false_iff d.depends_on).1 v.distinct,
)

pub check_definitions_iff :
    (run_id : String) (known : List String) (ds : List StepDefinition)
    → (check_definitions run_id known ds ≡ ok tt) ↔ All (IsSound run_id known) ds
unfolding check_definitions
check_definitions_iff run_id known [] = (λ _. tt, λ _. refl)
check_definitions_iff run_id known (d ∷ ds) = (
  λ h.
      let (u, a, b) = >>=-eq-ok (check_definition run_id known d) _ h in
      (check_definition-IsSound run_id known d a, (check_definitions_iff run_id known ds).0 b),
  λ v.
      rw (IsSound-check_definition run_id known d v.0)
        ((check_definitions_iff run_id known ds).1 v.1),
)

-- The shape that the checks before the loop ask of the whole list.
pub record IsWellFormed (run_id : String) (ds : List StepDefinition) : Type 0 where
  pub nonempty : ds ≢ []
  pub positions : contiguous_from 0 ds ≡ true
  pub distinct : Nodup (ids_of ds)
  pub sound : All (IsSound run_id (ids_of ds)) ds

-- Definitions that the reducer accepts are well formed, and all of them can be put in an order in
-- which every step stands behind its dependencies.
pub validate_definitions-IsOrder :
    (run_id : String) (ds : List StepDefinition)
    → validate_definitions run_id ds ≡ ok tt
    → IsWellFormed run_id ds
      × ((order : List String) × (length order ≡ length ds) × IsOrder ds order)
unfolding validate_definitions
validate_definitions-IsOrder run_id [] h = absurd (cc)
validate_definitions-IsOrder run_id (d ∷ ds) h =
    let all = d ∷ ds in
    let (_, p, h₁) =
      >>=-eq-ok (raise_if (not (contiguous_from 0 all)) positions_not_contiguous) _ h in
    let (_, q, h₂) = >>=-eq-ok (raise_if (has_duplicates (ids_of all)) duplicate_step_ids) _ h₁ in
    let (_, c, v) = >>=-eq-ok (check_definitions run_id (ids_of all) all) _ h₂ in
    (
      record {
        nonempty = λ e. cc;
        positions = ground arith;
        distinct = (has_duplicates-false_iff (ids_of all)).0 (ground arith);
        sound = (check_definitions_iff run_id (ids_of all) all).0 c;
      },
      elim (visit_ready_cases all (length all) [] (omega arith) tt) [
        | inl bad ↦ absurd (cc)
        | inr (good, order) ↦ order
      ],
    )

-- Well formed definitions with an acyclic graph are accepted.
pub validate_definitions_accepts :
    (rank : String → ℕ) (run_id : String) (ds : List StepDefinition)
    → IsWellFormed run_id ds
    → IsRanked rank ds
    → validate_definitions run_id ds ≡ ok tt
unfolding validate_definitions
validate_definitions_accepts rank run_id [] w ranked = absurd (w.nonempty refl)
validate_definitions_accepts rank run_id (d ∷ ds) w ranked =
    let all = d ∷ ds in
    rw
      (
        w.positions,
        (has_duplicates-false_iff (ids_of all)).1 w.distinct,
        (check_definitions_iff run_id (ids_of all) all).1 w.sound,
      )
      (elim (visit_ready_cases all (length all) [] (omega arith) tt) [
        | inl bad ↦ absurd (visit_ready-ne-cyclic rank all ranked w.distinct (length all) [] bad)
        | inr (good, order) ↦ good
      ])
