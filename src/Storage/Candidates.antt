-- ===== src/Storage/Candidates.antt =====
-- The candidates of the eligibility query: what it returns is one, and first among them.
use crashsafe.Prelude.{
  Bool, true, false, ◌≡◌, sym, ◌∙◌, subst, ap, ap₂, none, some, List, [], ◌∷◌, ◌⊎◌, arith,
  Bool-cases, Option-cases, inl, inr,
}
use crashsafe.Models.{Datetime}
use crashsafe.Storage.Db.{Db, StepRow, RunRow, find_run}
use crashsafe.Storage.Claims.{eligible, candidates, sorts_before, first_in_order, select_runnable}

abbrev pub In : StepRow → List StepRow → Type 0
In row [] = ⊥
In row (r ∷ rows) = (row ≡ r) ⊎ In row rows

abbrev InPairs : Datetime × StepRow → List (Datetime × StepRow) → Type 0
InPairs row [] = ⊥
InPairs row (r ∷ rows) = (row ≡ r) ⊎ InPairs row rows

-- The row joins its run, and the WHERE clause holds of the two.
pub record IsCandidate (db : Db) (current : Datetime) (include_lease : Bool) (created : Datetime)
    (row : StepRow) : Type 0 where
  pub run : RunRow
  pub joined : find_run db row.run_id ≡ some run
  pub created_at : created ≡ run.created_at
  pub where_holds : eligible db current include_lease run row ≡ true

module _ (db : Db) (current : Datetime) (include_lease : Bool) where
  candidates_sound :
      (rows : List StepRow) (created : Datetime) (row : StepRow)
      → InPairs (created, row) (candidates db current include_lease rows)
      → In row rows × IsCandidate db current include_lease created row
  unfolding candidates
  candidates_sound [] created row m = absurd m
  candidates_sound (r ∷ rows) created row m = elim (Option-cases (find_run db r.run_id)) [
    | inl e ↦
        let (at, good) = candidates_sound rows created row (rw (e, candidates) at m) in
        (inr at, good)
    | inr (run, e) ↦ elim (Bool-cases (eligible db current include_lease run r)) [
      | inl yes' ↦
          let m' : InPairs (created, row)
              ((run.created_at, r) ∷ candidates db current include_lease rows) =
            rw (e, yes', candidates) at m in
          elim m' [
            | inl same ↦ (
              inl (ap (λ (p : Datetime × StepRow). p.1) same),
              record {
                run = run;
                joined = rw (ap (λ (p : Datetime × StepRow). p.1) same) e;
                created_at = ap (λ (p : Datetime × StepRow). p.0) same;
                where_holds = rw (ap (λ (p : Datetime × StepRow). p.1) same) yes';
              },
            )
            | inr later ↦ let (at, good) = candidates_sound rows created row later in (inr at, good)
          ]
      | inr no' ↦
          let (at, good) = candidates_sound rows created row (rw (e, no', candidates) at m) in
          (inr at, good)
    ]
  ]

  candidates_complete :
      (rows : List StepRow) (created : Datetime) (row : StepRow)
      → In row rows
      → IsCandidate db current include_lease created row
      → InPairs (created, row) (candidates db current include_lease rows)
  unfolding candidates
  candidates_complete [] created row m good = absurd m
  candidates_complete (r ∷ rows) created row (inl same) good =
      let e : find_run db r.run_id ≡ some good.run = rw same at good.joined in
      let w : eligible db current include_lease good.run r ≡ true = rw same at good.where_holds in
      rw (e, w, candidates)
        (inl (ap₂ (λ (a : Datetime) (b : StepRow). (a, b)) good.created_at same))
  candidates_complete (r ∷ rows) created row (inr m) good =
      let later = candidates_complete rows created row m good in
      elim (Option-cases (find_run db r.run_id)) [
        | inl e ↦ rw (e, candidates) later
        | inr (run, e) ↦ elim (Bool-cases (eligible db current include_lease run r)) [
          | inl yes' ↦ rw (e, yes', candidates) (inr later)
          | inr no' ↦ rw (e, no', candidates) later
        ]
      ]

not_before_trans :
    (a b c : Datetime × StepRow)
    → sorts_before a b ≡ false
    → sorts_before b c ≡ false
    → sorts_before a c ≡ false
not_before_trans a b c h k = ground arith

before_asym : (a b : Datetime × StepRow) → sorts_before a b ≡ true → sorts_before b a ≡ false
before_asym a b h = ground arith

before_irrefl : (a : Datetime × StepRow) → sorts_before a a ≡ false
before_irrefl a = ground arith

first_in_order-none :
    (rows : List (Datetime × StepRow)) (other : Datetime × StepRow)
    → first_in_order rows ≡ none
    → InPairs other rows
    → ⊥
unfolding first_in_order
first_in_order-none [] other h m = m
first_in_order-none (r ∷ rows) other h m = elim (Option-cases (first_in_order rows)) [
  | inl e ↦ absurd (ground arith)
  | inr (best, e) ↦ absurd (ground arith)
]

-- `LIMIT 1` of the sorted rows is one of them, and none stands before it.
first_in_order_least :
    (rows : List (Datetime × StepRow)) (row : Datetime × StepRow)
    → first_in_order rows ≡ some row
    → InPairs row rows
      × ((other : Datetime × StepRow) → InPairs other rows → sorts_before other row ≡ false)
unfolding first_in_order
first_in_order_least [] row h = absurd (cc)
first_in_order_least (r ∷ rows) row h = elim (Option-cases (first_in_order rows)) [
  | inl e ↦
      let same : r ≡ row = ground arith in
      (
        inl (sym same),
        λ other m. elim m [
          | inl at ↦ subst (λ x. sorts_before other x ≡ false) (at ∙ same) (before_irrefl other)
          | inr later ↦ absurd (first_in_order-none rows other e later)
        ],
      )
  | inr (best, e) ↦
      let (m, least) = first_in_order_least rows best e in
      elim (Bool-cases (sorts_before best r)) [
        | inl sooner ↦
            let same : best ≡ row = ground arith in
            (
              inr (subst (λ x. InPairs x rows) same m),
              λ other m'.
                  subst (λ x. sorts_before other x ≡ false) same
                    (elim m' [
                      | inl at ↦ rw at (before_asym best r sooner)
                      | inr later ↦ least other later
                    ]),
            )
        | inr later ↦
            let same : r ≡ row = ground arith in
            (
              inl (sym same),
              λ other m'.
                  subst (λ x. sorts_before other x ≡ false) same
                    (elim m' [
                      | inl at ↦ rw at (before_irrefl r)
                      | inr m'' ↦ not_before_trans other best r (least other m'') later
                    ]),
            )
      ]
]

module _ (db : Db) (current : Datetime) (include_lease : Bool) where
  pub select_runnable_cases :
      (row : StepRow)
      → select_runnable db current include_lease ≡ some row
      → In row db.steps
        × ((created : Datetime) × IsCandidate db current include_lease created row
            × ((created' : Datetime) (other : StepRow)
                → In other db.steps
                → IsCandidate db current include_lease created' other
                → sorts_before (created', other) (created, row) ≡ false))
  unfolding select_runnable
  select_runnable_cases row h =
      elim (Option-cases (first_in_order (candidates db current include_lease db.steps))) [
        | inl e ↦ absurd (ground arith)
        | inr (found, e) ↦
            let same : found.1 ≡ row = ground arith in
            let (m, least) =
              first_in_order_least (candidates db current include_lease db.steps) found e in
            let (at, good) = candidates_sound db current include_lease db.steps found.0 found.1 m in
            subst
              (λ r.
                In r db.steps
                × ((created : Datetime) × IsCandidate db current include_lease created r
                    × ((created' : Datetime) (other : StepRow)
                        → In other db.steps
                        → IsCandidate db current include_lease created' other
                        → sorts_before (created', other) (created, r) ≡ false)))
              same
              (
                at,
                (
                  found.0,
                  good,
                  λ created' other m' good'.
                      least (created', other)
                        (candidates_complete db current include_lease db.steps created' other m'
                          good'),
                ),
              )
      ]

  pub select_runnable-IsCandidate :
      (row : StepRow)
      → select_runnable db current include_lease ≡ some row
      → In row db.steps × ((created : Datetime) × IsCandidate db current include_lease created row)
  select_runnable-IsCandidate row h =
      let (m, (created, good, _)) = select_runnable_cases row h in (m, (created, good))

  pub no-IsCandidate :
      select_runnable db current include_lease ≡ none
      → (created : Datetime) (row : StepRow) → In row db.steps
      → ¬ IsCandidate db current include_lease created row
  unfolding select_runnable
  no-IsCandidate h created row m good =
      first_in_order-none (candidates db current include_lease db.steps) (created, row)
        (elim (Option-cases (first_in_order (candidates db current include_lease db.steps))) [
          | inl e ↦ e
          | inr (found, e) ↦ absurd (ground arith)
        ])
        (candidates_complete db current include_lease db.steps created row m good)
