-- ===== src/History/Rounds.antt =====
-- The `while` loop of `validate_graph` visits every step that an order of the steps contains.
use crashsafe.Prelude.{
  ℕ, zero, suc, ◌+◌, ◌≤◌, String, true, false, ◌≡◌, refl, sym, subst, List, [], ◌∷◌, arith,
  Bool-cases, inl, inr, str_eq, str_eq_iff, str_eq_self, contains, subset, subset_intro,
  subset-contains, Nodup, length, length-le_of_contained, All, ok,
}
use crashsafe.Models.{StepDefinition}
use crashsafe.Models.Graph.{visit, visit_all}
use crashsafe.History.Definitions.{ids_of, remaining}
use crashsafe.History.Queue.{
  contains_self, waiting_after, IsNext, IsEntry, visit-left, visit-Nodup, visit-keeps, visit-IsNext,
  visit_complete,
}
use crashsafe.History.Graph.{IsOrder}

pub IsOrder-Nodup : (ds : List StepDefinition) (xs : List String) → IsOrder ds xs → Nodup xs
IsOrder-Nodup ds [] o = tt
IsOrder-Nodup ds (x ∷ xs) o = (o.0, IsOrder-Nodup ds xs o.3)

IsOrder-known :
    (ds : List StepDefinition) (xs : List String)
    → IsOrder ds xs
    → (x : String) → contains x xs ≡ true
    → contains x (ids_of ds) ≡ true
unfolding contains
IsOrder-known ds [] o x m = absurd (cc)
IsOrder-known ds (y ∷ ys) o x m = elim (Bool-cases (str_eq x y)) [
  | inl e ↦ (let same : x ≡ y = (str_eq_iff x y).0 e in rw same o.1)
  | inr e ↦ IsOrder-known ds ys o.3 x (ground arith)
]

length-ids_of : (ds : List StepDefinition) → length (ids_of ds) ≡ length ds
length-ids_of [] = refl
length-ids_of (d ∷ ds) = omega (arith, length-ids_of ds)

-- An order has no more steps than there are.
pub IsOrder-length :
    (ds : List StepDefinition) (xs : List String) → IsOrder ds xs → length xs ≤ length ds
IsOrder-length ds xs o =
    let most =
      length-le_of_contained xs (ids_of ds) (IsOrder-Nodup ds xs o) (IsOrder-known ds xs o) in
    omega (arith, most, length-ids_of ds)

-- Between two rounds: what was visited is an order, and the queue holds what may run next.
pub record Front (ds : List StepDefinition) (visited ready : List String) : Type 0 where
  pub order : IsOrder ds visited
  pub distinct : Nodup ready
  pub sound : (x : String) → contains x ready ≡ true → IsNext (ids_of ds) (remaining ds) visited x
  pub complete :
      (x : String) → IsNext (ids_of ds) (remaining ds) visited x → contains x ready ≡ true

subset_more : (x : String) (xs ys : List String) → subset xs ys ≡ true → subset xs (x ∷ ys) ≡ true
unfolding contains subset
subset_more x [] ys h = refl
subset_more x (y ∷ xs) ys h = ground (arith, subset_more x xs ys)

module _ (ds : List StepDefinition) (entries : All (IsEntry (ids_of ds) (remaining ds)) ds) where
  Front-visit :
      (visited ready : List String) (current : String)
      → Front ds visited (current ∷ ready)
      → Front ds
          (current ∷ visited)
          (visit current (current ∷ visited) (waiting_after visited ds) ready).1
  unfolding contains
  Front-visit visited ready current f =
      let here = f.sound current (ground (arith, str_eq_self current)) in
      record {
        order = (here.0, here.1, here.2, f.order);
        distinct = visit-Nodup current visited (waiting_after visited ds) ready f.distinct.1;
        sound = visit-IsNext current visited (ids_of ds) (remaining ds) ds ready entries (λ x m.
            let before = f.sound x (ground arith) in
            (other x m, before.1, subset_more current (remaining ds x) visited before.2));
        complete = λ x next.
            elim (visit_complete current visited (ids_of ds) (remaining ds) ds ready entries x
              next.1 next) [
                | inl queued ↦ queued
                | inr earlier ↦
                    let old = f.complete x (ground arith, next.1, earlier) in
                    visit-keeps current visited (waiting_after visited ds) ready x (ground arith)
              ];
      }
    where
      other : (x : String) → contains x ready ≡ true → contains x (current ∷ visited) ≡ false
      other x m = elim (Bool-cases (str_eq x current)) [
        | inl e ↦
            absurd (
              let same : x ≡ current = (str_eq_iff x current).0 e in let apart = f.distinct.0 in cc)
        | inr e ↦ (let before = f.sound x (ground arith) in ground arith)
      ]

  -- The rounds are enough: the loop ends with an empty queue.
  pub visit_all-Front :
      (rounds : ℕ) (visited ready : List String)
      → Front ds visited ready
      → rounds + length visited ≡ length ds
      → (last : List String) × (visit_all rounds (waiting_after visited ds) ready visited ≡ ok last)
        × Front ds last []
  unfolding visit_all
  visit_all-Front zero visited [] f n = (visited, refl, f)
  visit_all-Front (suc rounds) visited [] f n = (visited, refl, f)
  visit_all-Front zero visited (current ∷ ready) f n =
      let next = f.sound current (contains_self current ready) in
      let most = IsOrder-length ds (current ∷ visited) (next.0, next.1, next.2, f.order) in
      absurd (omega (arith, most))
  visit_all-Front (suc rounds) visited (current ∷ ready) f n =
      let queue = (visit current (current ∷ visited) (waiting_after visited ds) ready).1 in
      let (last, e, front) =
        visit_all-Front rounds (current ∷ visited) queue (Front-visit visited ready current f)
          (omega arith) in
      (
        last,
        subst (λ ws. visit_all rounds ws queue (current ∷ visited) ≡ ok last)
            (sym (visit-left current visited ds ready)) e,
        front,
      )

-- When the queue is empty, whatever can be ordered was visited.
pub visited_all :
    (ds : List StepDefinition) (visited xs : List String)
    → Front ds visited []
    → IsOrder ds xs
    → (x : String) → contains x xs ≡ true
    → contains x visited ≡ true
unfolding contains
visited_all ds visited [] f o x m = absurd (cc)
visited_all ds visited (y ∷ ys) f o x m =
    let earlier = visited_all ds visited ys f o.3 in
    let below : subset (remaining ds y) visited ≡ true =
      subset_intro (remaining ds y) visited
        λ z k. earlier z (subset-contains (remaining ds y) ys z o.2 k) in
    elim (Bool-cases (str_eq x y)) [
      | inl e ↦
          let same : x ≡ y = (str_eq_iff x y).0 e in
          elim (Bool-cases (contains y visited)) [
            | inl was ↦ rw same was
            | inr not_yet ↦ absurd (let queued = f.complete y (not_yet, o.1, below) in cc)
          ]
      | inr e ↦ earlier x (ground arith)
    ]
