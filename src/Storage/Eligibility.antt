-- ===== src/Storage/Eligibility.antt =====
-- The eligibility query against what it is to ask: the clauses of its WHERE and its ORDER BY, by
-- themselves.
use crashsafe.Prelude.{
  arith, ◌≤◌, ◌<◌, Bool, true, false, not, ◌&&◌, ◌==◌, ◌≡◌, refl, ap, Option, none, some, List, [],
  ◌∷◌, ◌⊎◌, Bool-cases, inl, inr, any, find?, str_eq, str_eq_iff,
}
use crashsafe.Models.{
  Datetime, WorkflowRunStatus, run_status_eq, StepStatus, status_eq, runnable_status,
  WorkflowRunLease, ToolThrottle,
}
use crashsafe.Storage.Db.{
  Db, StepRow, RunRow, DependencyRow, is_step, find_run, has_incomplete_dependency,
}
use crashsafe.Storage.Claims.{
  due, lease_free, not_throttled, get_lease, get_tool_throttle, eligible, select_runnable,
}
use crashsafe.History.Steps.{Runnable, Runnable-cases}
use crashsafe.Storage.Candidates.{In, IsCandidate, select_runnable_cases, no-IsCandidate}

abbrev pub Depends : DependencyRow → List DependencyRow → Type 0
Depends d [] = ⊥
Depends d (e ∷ es) = (d ≡ e) ⊎ Depends d es

-- A row that may be selected at a time: its run is RUNNING, its own status is runnable and its deadline
-- past, every step that it depends on is COMPLETED, and for a claim the tool's throttle and the run's
-- lease, where there is one, are over.
pub record IsEligible (db : Db) (current : Datetime) (for_claim : Bool) (row : StepRow)
    : Type 0 where
  pub run : RunRow
  pub joined : find_run db row.run_id ≡ some run
  pub running : run.status ≡ WorkflowRunStatus.running
  pub runnable : Runnable row.status
  pub past : (t : Datetime) → row.next_attempt_at ≡ some t → t ≤ current
  pub completed :
      (d : DependencyRow) (dependency : StepRow)
      → Depends d db.step_dependencies
      → d.run_id ≡ row.run_id
      → d.step_id ≡ row.id
      → In dependency db.steps
      → dependency.run_id ≡ row.run_id
      → dependency.id ≡ d.dependency_step_id
      → dependency.status ≡ StepStatus.completed
  pub unthrottled :
      for_claim ≡ true
      → (t : ToolThrottle) → find? (λ x. str_eq x.tool_key row.tool_key) db.tool_throttles ≡ some t
      → t.blocked_until ≤ current
  pub unleased :
      for_claim ≡ true
      → (l : WorkflowRunLease)
      → find? (λ x. str_eq x.run_id row.run_id) db.workflow_run_leases ≡ some l
      → l.lease_expires_at ≤ current

Runnable-holds : (status : StepStatus) → Runnable status → runnable_status status ≡ true
Runnable-holds status (inl e) = ap runnable_status e
Runnable-holds status (inr (inl e)) = ap runnable_status e
Runnable-holds status (inr (inr e)) = ap runnable_status e

completed_cases :
    (status : StepStatus)
    → status_eq status StepStatus.completed ≡ true
    → status ≡ StepStatus.completed
completed_cases StepStatus.completed h = refl
completed_cases StepStatus.pending h = absurd (cc)
completed_cases StepStatus.intent_recorded h = absurd (cc)
completed_cases StepStatus.retry_wait h = absurd (cc)
completed_cases StepStatus.failed h = absurd (cc)

running_cases :
    (status : WorkflowRunStatus)
    → run_status_eq status WorkflowRunStatus.running ≡ true
    → status ≡ WorkflowRunStatus.running
running_cases WorkflowRunStatus.running h = refl
running_cases WorkflowRunStatus.completed h = absurd (cc)
running_cases WorkflowRunStatus.failed h = absurd (cc)

any-step :
    (test : StepRow → Bool) (rows : List StepRow) (row : StepRow)
    → any test rows ≡ false
    → In row rows
    → test row ≡ false
any-step test [] row h m = absurd m
any-step test (r ∷ rows) row h (inl same) = rw same (ground arith)
any-step test (r ∷ rows) row h (inr m) = any-step test rows row (ground arith) m

no_step :
    (test : StepRow → Bool) (rows : List StepRow)
    → ((row : StepRow) → In row rows → test row ≡ false)
    → any test rows ≡ false
no_step test [] h = refl
no_step test (r ∷ rows) h =
    ground (arith, h r (inl refl), no_step test rows (λ row m. h row (inr m)))

any-dependency :
    (test : DependencyRow → Bool) (rows : List DependencyRow) (row : DependencyRow)
    → any test rows ≡ false
    → Depends row rows
    → test row ≡ false
any-dependency test [] row h m = absurd m
any-dependency test (r ∷ rows) row h (inl same) = rw same (ground arith)
any-dependency test (r ∷ rows) row h (inr m) = any-dependency test rows row (ground arith) m

no_dependency :
    (test : DependencyRow → Bool) (rows : List DependencyRow)
    → ((row : DependencyRow) → Depends row rows → test row ≡ false)
    → any test rows ≡ false
no_dependency test [] h = refl
no_dependency test (r ∷ rows) h =
    ground (arith, h r (inl refl), no_dependency test rows (λ row m. h row (inr m)))

module _ (db : Db) (current : Datetime) (for_claim : Bool) where
  abbrev waits : StepRow → DependencyRow → Bool
  waits row d =
      (str_eq d.run_id row.run_id && str_eq d.step_id row.id)
      && any
          (λ (s : StepRow).
            is_step d.run_id d.dependency_step_id s
            && not (status_eq s.status StepStatus.completed))
          db.steps

  complete-completed :
      (row : StepRow) (d : DependencyRow) (dependency : StepRow)
      → waits row d ≡ false
      → d.run_id ≡ row.run_id
      → d.step_id ≡ row.id
      → In dependency db.steps
      → dependency.run_id ≡ row.run_id
      → dependency.id ≡ d.dependency_step_id
      → dependency.status ≡ StepStatus.completed
  complete-completed row d dependency clear own step at run_id id =
      let all_of : any
            (λ (s : StepRow).
              is_step d.run_id d.dependency_step_id s
              && not (status_eq s.status StepStatus.completed))
            db.steps
          ≡ false =
        ground
          (arith, clear, str_eq_iff d.run_id row.run_id, str_eq_iff d.step_id row.id, own, step) in
      let one = any-step _ db.steps dependency all_of at in
      completed_cases dependency.status (
        ground (
          arith,
          one,
          str_eq_iff dependency.run_id d.run_id,
          str_eq_iff dependency.id d.dependency_step_id,
          own,
          run_id,
          id,
        ))

  completed_complete :
      (row : StepRow) (good : IsEligible db current for_claim row) (d : DependencyRow)
      → Depends d db.step_dependencies
      → waits row d ≡ false
  completed_complete row good d m =
      elim (Bool-cases (str_eq d.run_id row.run_id && str_eq d.step_id row.id)) [
        | inr e ↦ ground (arith, e)
        | inl e ↦
            let own : d.run_id ≡ row.run_id = ground (arith, e, str_eq_iff d.run_id row.run_id) in
            let step : d.step_id ≡ row.id = ground (arith, e, str_eq_iff d.step_id row.id) in
            let clear =
              no_step
                (λ (s : StepRow).
                  is_step d.run_id d.dependency_step_id s
                  && not (status_eq s.status StepStatus.completed))
                db.steps
                (λ s at. elim (Bool-cases (is_step d.run_id d.dependency_step_id s)) [
                  | inr f ↦ ground (arith, f)
                  | inl f ↦
                      let of_run : s.run_id ≡ row.run_id =
                        ground (arith, f, str_eq_iff s.run_id d.run_id, own) in
                      let of_step : s.id ≡ d.dependency_step_id =
                        ground (arith, f, str_eq_iff s.id d.dependency_step_id) in
                      let done = good.completed d s m own step at of_run of_step in
                      rw done (ground (arith, f))
                ]) in
            ground (arith, clear)
      ]

  pub candidate-IsEligible :
      (created : Datetime) (row : StepRow)
      → IsCandidate db current for_claim created row
      → (good : IsEligible db current for_claim row) × (created ≡ good.run.created_at)
  unfolding eligible has_incomplete_dependency get_lease get_tool_throttle
  candidate-IsEligible created row c =
      let w = c.where_holds in
      let clear : any (waits row) db.step_dependencies ≡ false = ground (arith, w) in
      (
        record {
          run = c.run;
          joined = c.joined;
          running = running_cases c.run.status (ground (arith, w));
          runnable = Runnable-cases row.status (ground (arith, w));
          past = λ t e. ground (arith, w, e);
          completed = λ d dependency m own step at run_id id.
              complete-completed row d dependency
                (any-dependency (waits row) db.step_dependencies d clear m) own step at run_id id;
          unthrottled = λ claim t e. ground (arith, w, e, claim);
          unleased = λ claim l e. ground (arith, w, e, claim);
        },
        c.created_at,
      )

  past-due :
      (next : Option Datetime)
      → ((t : Datetime) → next ≡ some t → t ≤ current)
      → due next current ≡ true
  past-due none h = refl
  past-due (some t) h = ground (arith, h t refl)

  unthrottled-free :
      (found : Option ToolThrottle)
      → ((t : ToolThrottle) → found ≡ some t → t.blocked_until ≤ current)
      → not_throttled found current ≡ true
  unthrottled-free none h = refl
  unthrottled-free (some t) h = ground (arith, h t refl)

  unleased-free :
      (found : Option WorkflowRunLease)
      → ((l : WorkflowRunLease) → found ≡ some l → l.lease_expires_at ≤ current)
      → lease_free found current ≡ true
  unleased-free none h = refl
  unleased-free (some l) h = ground (arith, h l refl)

  eligible-IsCandidate :
      (row : StepRow) (good : IsEligible db current for_claim row)
      → IsCandidate db current for_claim good.run.created_at row
  unfolding eligible has_incomplete_dependency get_lease get_tool_throttle
  eligible-IsCandidate row good =
      let clear = no_dependency (waits row) db.step_dependencies (completed_complete row good) in
      let open' = Runnable-holds row.status good.runnable in
      let past = past-due row.next_attempt_at good.past in
      record {
        run = good.run;
        joined = good.joined;
        created_at = refl;
        where_holds = elim (Bool-cases for_claim) [
          | inr e ↦ ground (arith, clear, open', past, e, good.running)
          | inl e ↦ ground (
            arith,
            clear,
            open',
            past,
            e,
            good.running,
            unthrottled-free _ (good.unthrottled e),
            unleased-free _ (good.unleased e),
          )
        ];
      }

  -- The selected row is a row of the table that joins its run, and the run is RUNNING, the row's status
  -- PENDING, INTENT_RECORDED or RETRY_WAIT, its deadline not in the future, and each of its dependencies
  -- COMPLETED; for a claim, the throttle of its tool and the lease of its run are over, where there is
  -- one.
  pub select_runnable-IsEligible :
      (row : StepRow)
      → select_runnable db current for_claim ≡ some row
      → In row db.steps × IsEligible db current for_claim row
  select_runnable-IsEligible row h =
      let (m, (created, c, _)) = select_runnable_cases db current for_claim row h in
      (m, (candidate-IsEligible created row c).0)

  -- The run of the selected row was created before the run of any other row that may be selected, or at
  -- the same time, and then the selected row's position is not above the other's: the oldest run is
  -- served first, and a run's steps in the order of their positions.
  pub select_runnable_first :
      (row other : StepRow)
      → select_runnable db current for_claim ≡ some row
      → In other db.steps
      → (right : IsEligible db current for_claim other)
      → (good : IsEligible db current for_claim row) × ((good.run.created_at < right.run.created_at)
          ⊎ ((good.run.created_at ≡ right.run.created_at) × (row.position ≤ other.position)))
  select_runnable_first row other h m right =
      let (_, (created, c, least)) = select_runnable_cases db current for_claim row h in
      let (good, same) = candidate-IsEligible created row c in
      let after = least right.run.created_at other m (eligible-IsCandidate other right) in
      (
        good,
        elim (Bool-cases (created == right.run.created_at)) [
          | inl e ↦ inr (ground (arith, e, same), ground (arith, e, after))
          | inr e ↦ inl (ground (arith, e, after, same))
        ],
      )

  -- Nothing is selected only when no row of the table may be: a row whose run is RUNNING, with a
  -- runnable status, a deadline that is not in the future, dependencies that are COMPLETED, and for a
  -- claim no throttle and no lease that lasts, is never passed over.
  pub select_runnable-none :
      select_runnable db current for_claim ≡ none
      → (row : StepRow) → In row db.steps
      → ¬ IsEligible db current for_claim row
  select_runnable-none h row m good =
      no-IsCandidate db current for_claim h good.run.created_at row m
        (eligible-IsCandidate row good)
