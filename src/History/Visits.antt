-- ===== src/History/Visits.antt =====
-- The start of the loop of `validate_graph`, and how many steps it visits.
use crashsafe.Prelude.{
  String, true, false, ◌&&◌, ◌≡◌, refl, sym, subst, List, [], ◌∷◌, arith, Bool-cases, inl, inr,
  str_eq, str_eq_iff, str_eq_self, contains, subset, Nodup, length, length-le_of_contained, All, ok,
}
use crashsafe.Models.{StepDefinition}
use crashsafe.Models.Graph.{is_empty, ready_ids, visit_all}
use crashsafe.History.Definitions.{ids_of, remaining}
use crashsafe.History.Queue.{left_after, waiting_after, IsNext, IsEntry, is_empty-left_after}
use crashsafe.History.Graph.{IsOrder}
use crashsafe.History.Rounds.{Front, visit_all-Front, visited_all, IsOrder-Nodup, IsOrder-length}

-- At the start nothing was visited, and the queue holds the steps without a dependency.
module _ (ids : List String) (deps : String → List String) where
  abbrev IsFirst : String → Type 0
  IsFirst = IsNext ids deps []

  ready_ids-IsNext :
      (ds : List StepDefinition)
      → All (IsEntry ids deps) ds
      → (x : String) → contains x (ready_ids (waiting_after [] ds)) ≡ true
      → IsFirst x
  unfolding ready_ids contains
  ready_ids-IsNext [] e x m = absurd (cc)
  ready_ids-IsNext (d ∷ ds) e x m =
      let later = ready_ids-IsNext ds e.1 x in
      elim (Bool-cases (str_eq x d.id && is_empty (left_after [] d.depends_on))) [
        | inl here ↦
            let same : x ≡ d.id = (str_eq_iff x d.id).0 (ground arith) in
            subst IsFirst (sym same)
              (refl, e.0.0, rw e.0.1 (ground (arith, is_empty-left_after [] d.depends_on)))
        | inr other ↦ later (ground arith)
      ]

  ready_ids_complete :
      (ds : List StepDefinition)
      → All (IsEntry ids deps) ds
      → (x : String) → contains x (ids_of ds) ≡ true
      → IsFirst x
      → contains x (ready_ids (waiting_after [] ds)) ≡ true
  unfolding ready_ids contains
  ready_ids_complete [] e x known next = absurd (cc)
  ready_ids_complete (d ∷ ds) e x known next = elim (Bool-cases (str_eq x d.id)) [
    | inl e' ↦
        let same : x ≡ d.id = (str_eq_iff x d.id).0 e' in
        let none_left : subset d.depends_on [] ≡ true =
          subst (λ xs. subset xs [] ≡ true) e.0.1 (subst IsFirst same next).2 in
        ground (arith, is_empty-left_after [] d.depends_on)
    | inr other ↦ (let more = ready_ids_complete ds e.1 x (ground arith) next in ground arith)
  ]

ready_ids-known :
    (ds : List StepDefinition) (x : String)
    → contains x (ready_ids (waiting_after [] ds)) ≡ true
    → contains x (ids_of ds) ≡ true
unfolding ready_ids contains
ready_ids-known [] x m = m
ready_ids-known (d ∷ ds) x m = ground (arith, ready_ids-known ds x)

ready_ids-Nodup :
    (ds : List StepDefinition) → Nodup (ids_of ds) → Nodup (ready_ids (waiting_after [] ds))
unfolding ready_ids
ready_ids-Nodup [] d = tt
ready_ids-Nodup (d ∷ ds) distinct =
    let rest = ready_ids-Nodup ds distinct.1 in
    let fresh = ready_ids-known ds d.id in
    elim (Bool-cases (is_empty (left_after [] d.depends_on))) [
      | inl e ↦ rw e (ground arith, rest)
      | inr e ↦ rw e rest
    ]

-- Distinct ids make the definitions the entries of a dictionary.
entries_under :
    (d : StepDefinition) (ds es : List StepDefinition)
    → All (IsEntry (ids_of ds) (remaining ds)) es
    → contains d.id (ids_of es) ≡ false
    → All (IsEntry (ids_of (d ∷ ds)) (remaining (d ∷ ds))) es
unfolding contains remaining
entries_under d ds [] entries absent = tt
entries_under d ds (e ∷ es) entries absent = (
  (
    ground (arith, entries.0),
    ground (arith, entries.0, str_eq_iff e.id d.id, str_eq_iff d.id e.id),
  ),
  entries_under d ds es entries.1 (ground arith),
)

entries_of :
    (ds : List StepDefinition) → Nodup (ids_of ds) → All (IsEntry (ids_of ds) (remaining ds)) ds
unfolding contains remaining
entries_of [] distinct = tt
entries_of (d ∷ ds) distinct = (
  (ground (arith, str_eq_self d.id), ground (arith, str_eq_self d.id)),
  entries_under d ds ds (entries_of ds distinct.1) distinct.0,
)

pub visit_all-first :
    (ds : List StepDefinition)
    → Nodup (ids_of ds)
    → (last : List String) × (visit_all
          (length ds)
          (waiting_after [] ds)
          (ready_ids (waiting_after [] ds))
          []
        ≡ ok last)
      × Front ds last []
visit_all-first ds distinct =
    let entries = entries_of ds distinct in
    visit_all-Front ds entries (length ds) [] (ready_ids (waiting_after [] ds))
      (record {
        order = tt;
        distinct = ready_ids-Nodup ds distinct;
        sound = ready_ids-IsNext (ids_of ds) (remaining ds) ds entries;
        complete = λ x next. ready_ids_complete (ids_of ds) (remaining ds) ds entries x next.1 next;
      })
      (omega arith)

-- Where the steps can be ordered, the loop visits as many as there are.
pub Front-length :
    (ds : List StepDefinition) (visited order : List String)
    → Front ds visited []
    → IsOrder ds order
    → length order ≡ length ds
    → length visited ≡ length ds
Front-length ds visited order f o n =
    let at_least =
      length-le_of_contained order visited (IsOrder-Nodup ds order o)
        (visited_all ds visited order f o) in
    let at_most = IsOrder-length ds visited f.order in omega (arith, at_least, at_most)
