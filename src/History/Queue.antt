-- ===== src/History/Queue.antt =====
-- The queue of `validate_graph`: what one round of its `while` loop keeps.
use crashsafe.Prelude.{
  String, true, false, not, ◌≡◌, refl, sym, subst, List, [], ◌∷◌, ◌++◌, arith, Bool-cases, ◌⊎◌, inl,
  inr, str_eq, str_eq_iff, str_eq_self, contains, contains-append, subset, Nodup, where_rows, All,
}
use crashsafe.Models.{StepDefinition}
use crashsafe.Models.Graph.{Waiting, is_empty, without, enqueue, visit}
use crashsafe.History.Definitions.{ids_of}

-- The dependencies that are left when some steps were visited.
abbrev pub left_after : List String → List String → List String
left_after visited depends_on = where_rows (λ x. not (contains x visited)) depends_on

abbrev pub waiting_after : List String → List StepDefinition → List Waiting
waiting_after visited [] = []
waiting_after visited (d ∷ ds) =
    record { step_id = d.id; left = left_after visited d.depends_on } ∷ waiting_after visited ds

without-left_after :
    (current : String) (visited xs : List String)
    → without current (left_after visited xs) ≡ left_after (current ∷ visited) xs
unfolding without where_rows contains
without-left_after current visited [] = refl
without-left_after current visited (x ∷ xs) = ground (arith, without-left_after current visited xs)

left_after-absent :
    (current : String) (visited xs : List String)
    → contains current (left_after visited xs) ≡ false
    → left_after visited xs ≡ left_after (current ∷ visited) xs
unfolding where_rows contains
left_after-absent current visited [] h = refl
left_after-absent current visited (x ∷ xs) h =
    ground (arith, left_after-absent current visited xs, str_eq_iff x current, str_eq_iff current x)

pub is_empty-left_after :
    (visited xs : List String) → is_empty (left_after visited xs) ≡ subset xs visited
unfolding where_rows contains subset
is_empty-left_after visited [] = refl
is_empty-left_after visited (x ∷ xs) = ground (arith, is_empty-left_after visited xs)

subset_earlier :
    (current : String) (visited xs : List String)
    → contains current (left_after visited xs) ≡ false
    → subset xs (current ∷ visited) ≡ true
    → subset xs visited ≡ true
unfolding where_rows contains subset
subset_earlier current visited [] h s = refl
subset_earlier current visited (x ∷ xs) h s =
    ground (arith, subset_earlier current visited xs, str_eq_iff x current, str_eq_iff current x)

pub contains_self : (x : String) (xs : List String) → contains x (x ∷ xs) ≡ true
unfolding contains
contains_self x xs = ground (arith, str_eq_self x)

Nodup-append_one :
    (xs : List String) (x : String) → Nodup xs → contains x xs ≡ false → Nodup (xs ++ x ∷ [])
unfolding contains
Nodup-append_one [] x d n = (refl, tt)
Nodup-append_one (y ∷ ys) x d n = (
  ground (arith, contains-append y ys (x ∷ []), str_eq_iff y x, str_eq_iff x y),
  Nodup-append_one ys x d.1 (ground arith),
)

-- A step that may run next.
abbrev pub IsNext : List String → (String → List String) → List String → String → Type 0
IsNext ids deps visited x =
    (contains x visited ≡ false) × (contains x ids ≡ true) × (subset (deps x) visited ≡ true)

-- `deps` reads the dependencies of a known step.
abbrev pub IsEntry : List String → (String → List String) → StepDefinition → Type 0
IsEntry ids deps d = (contains d.id ids ≡ true) × (deps d.id ≡ d.depends_on)

module _ (current : String) (visited : List String) where
  abbrev seen : List String
  seen = current ∷ visited

  pub visit-left :
      (ds : List StepDefinition) (ready : List String)
      → (visit current seen (waiting_after visited ds) ready).0 ≡ waiting_after seen ds
  unfolding visit
  visit-left [] ready = refl
  visit-left (d ∷ ds) ready =
      let queue =
        enqueue current seen (record { step_id = d.id; left = left_after visited d.depends_on })
          ready in
      ground (
        arith,
        visit-left ds queue,
        without-left_after current visited d.depends_on,
        left_after-absent current visited d.depends_on,
      )

  enqueue-Nodup :
      (w : Waiting) (ready : List String) → Nodup ready → Nodup (enqueue current seen w ready)
  enqueue-Nodup w ready d = ground (arith, Nodup-append_one ready w.step_id d)

  enqueued :
      (w : Waiting) (ready : List String) (y : String)
      → contains y (enqueue current seen w ready) ≡ true
      → (contains y ready ≡ true)
        ⊎ ((y ≡ w.step_id)
            × (contains w.step_id seen ≡ false)
            × (is_empty (without current w.left) ≡ true))
  unfolding contains
  enqueued w ready y h = elim (Bool-cases (contains y ready)) [
    | inl old ↦ inl old
    | inr new ↦
        let known = contains-append y ready (w.step_id ∷ []) in
        inr (
          ground (arith, known, str_eq_iff y w.step_id),
          ground (arith, known),
          ground (arith, known),
        )
  ]

  enqueue_adds :
      (w : Waiting) (ready : List String)
      → contains current w.left ≡ true
      → is_empty (without current w.left) ≡ true
      → contains w.step_id seen ≡ false
      → contains w.step_id (enqueue current seen w ready) ≡ true
  enqueue_adds w ready waits empty fresh =
      let known = contains-append w.step_id ready (w.step_id ∷ []) in
      let self : contains w.step_id (w.step_id ∷ []) ≡ true = contains_self w.step_id [] in
      ground (arith, known, self)

  pub visit-Nodup :
      (ws : List Waiting) (ready : List String)
      → Nodup ready
      → Nodup (visit current seen ws ready).1
  unfolding visit
  visit-Nodup [] ready d = d
  visit-Nodup (w ∷ ws) ready d =
      visit-Nodup ws (enqueue current seen w ready) (enqueue-Nodup w ready d)

  pub visit-keeps :
      (ws : List Waiting) (ready : List String) (x : String)
      → contains x ready ≡ true
      → contains x (visit current seen ws ready).1 ≡ true
  unfolding visit
  visit-keeps [] ready x m = m
  visit-keeps (w ∷ ws) ready x m =
      visit-keeps ws (enqueue current seen w ready) x
        (ground (arith, contains-append x ready (w.step_id ∷ [])))

  module _ (ids : List String) (deps : String → List String) where
    abbrev Next : String → Type 0
    Next = IsNext ids deps seen

    abbrev Entry : StepDefinition → Type 0
    Entry = IsEntry ids deps

    pub visit-IsNext :
        (ds : List StepDefinition) (ready : List String)
        → All Entry ds
        → ((x : String) → contains x ready ≡ true → Next x)
        → (x : String) → contains x (visit current seen (waiting_after visited ds) ready).1 ≡ true
        → Next x
    unfolding visit
    visit-IsNext [] ready e r x m = r x m
    visit-IsNext (d ∷ ds) ready e r x m =
        let w : Waiting = record { step_id = d.id; left = left_after visited d.depends_on } in
        visit-IsNext ds (enqueue current seen w ready) e.1
          (λ y h. elim (enqueued w ready y h) [
            | inl old ↦ r y old
            | inr (same, fresh, empty) ↦ subst Next (sym same) (
              fresh,
              e.0.0,
              rw e.0.1 (
                  ground (
                    arith,
                    without-left_after current visited d.depends_on,
                    is_empty-left_after seen d.depends_on,
                  )),
            )
          ])
          x m

    -- A step that a round makes ready is queued.
    pub visit_complete :
        (ds : List StepDefinition) (ready : List String)
        → All Entry ds
        → (x : String) → contains x (ids_of ds) ≡ true
        → Next x
        → (contains x (visit current seen (waiting_after visited ds) ready).1 ≡ true)
          ⊎ (subset (deps x) visited ≡ true)
    unfolding visit contains
    visit_complete [] ready e x known next = absurd (cc)
    visit_complete (d ∷ ds) ready e x known next =
        let w : Waiting = record { step_id = d.id; left = left_after visited d.depends_on } in
        let queue = enqueue current seen w ready in
        elim (Bool-cases (str_eq x d.id)) [
          | inl e' ↦
              let same : x ≡ d.id = (str_eq_iff x d.id).0 e' in
              let here : subset d.depends_on seen ≡ true =
                subst (λ xs. subset xs seen ≡ true) e.0.1 (subst Next same next).2 in
              let fresh : contains d.id seen ≡ false = (subst Next same next).0 in
              elim (Bool-cases (contains current w.left)) [
                | inl waits ↦
                    let empty : is_empty (without current w.left) ≡ true = ground (
                      arith,
                      without-left_after current visited d.depends_on,
                      is_empty-left_after seen d.depends_on,
                    ) in
                    inl (
                      visit-keeps (waiting_after visited ds) queue x
                        (rw same (enqueue_adds w ready waits empty fresh)))
                | inr free ↦
                    inr (rw (same, e.0.1) (subset_earlier current visited d.depends_on free here))
              ]
          | inr other ↦ visit_complete ds queue e.1 x (ground arith) next
        ]
