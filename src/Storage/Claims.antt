-- ===== src/Storage/Claims.antt =====
-- crashsafe/storage.py: the eligibility query, the claim of a run, and its lease.
use crashsafe.Prelude.{
  ℕ, ◌+◌, String, Bool, true, false, not, ◌&&◌, ◌||◌, Option, none, some, List, [], ◌∷◌, ◌==◌, ltb,
  leb, Result, ok, str_eq, any, find?, update_rows, if◌then◌else◌,
}
use crashsafe.Models.{
  Datetime, WorkflowRunStatus, run_status_eq, runnable_status, StepRecord, WorkflowRunLease,
  ClaimedStep, ToolThrottle,
}
use crashsafe.Storage.Db.{
  StorageError, RunRow, StepRow, Db, transaction, find_run, dependencies, has_incomplete_dependency,
  step_from_row,
}

-- column IS NULL OR column <= current
abbrev pub due : Option Datetime → Datetime → Bool
due none current = true
due (some t) current = leb t current

unfoldable pub get_lease : Db → String → Option WorkflowRunLease
get_lease db run_id =
    find? (λ (l : WorkflowRunLease). str_eq l.run_id run_id) db.workflow_run_leases

unfoldable pub get_tool_throttle : Db → String → Option ToolThrottle
get_tool_throttle db tool_key =
    find? (λ (t : ToolThrottle). str_eq t.tool_key tool_key) db.tool_throttles

-- The clauses on the joined lease and throttle rows.
abbrev pub lease_free : Option WorkflowRunLease → Datetime → Bool
lease_free none current = true
lease_free (some lease) current = leb lease.lease_expires_at current

abbrev pub not_throttled : Option ToolThrottle → Datetime → Bool
not_throttled none current = true
not_throttled (some throttle) current = leb throttle.blocked_until current

-- The WHERE clause, for a step row and the run row that it joins.
unfoldable pub eligible : Db → Datetime → Bool → RunRow → StepRow → Bool
eligible db current include_lease run row =
    (run_status_eq run.status WorkflowRunStatus.running && runnable_status row.status)
    && (due row.next_attempt_at current
        && ((not include_lease
              || (not_throttled (get_tool_throttle db row.tool_key) current
                  && lease_free (get_lease db row.run_id) current))
            && not (has_incomplete_dependency db row.run_id row.id)))

-- FROM steps s JOIN workflow_runs w: the eligible rows, each with its `w.created_at`
unfoldable pub candidates : Db → Datetime → Bool → List StepRow → List (Datetime × StepRow)
candidates db current include_lease [] = []
candidates db current include_lease (row ∷ rows) =
    let rest = candidates db current include_lease rows in
    elim (find_run db row.run_id) [
      | none ↦ rest
      | some run ↦
          if eligible db current include_lease run row then (run.created_at, row) ∷ rest else rest
    ]

abbrev pub sorts_before : Datetime × StepRow → Datetime × StepRow → Bool
sorts_before a b = ltb a.0 b.0 || (a.0 == b.0 && ltb a.1.position b.1.position)

-- ORDER BY w.created_at, s.position LIMIT 1; of equal rows the first of the table
unfoldable pub first_in_order : List (Datetime × StepRow) → Option (Datetime × StepRow)
first_in_order [] = none
first_in_order (row ∷ rows) = elim (first_in_order rows) [
  | none ↦ some row
  | some other ↦ if sorts_before other row then some other else some row
]

unfoldable pub select_runnable : Db → Datetime → Bool → Option StepRow
select_runnable db current include_lease =
    elim (first_in_order (candidates db current include_lease db.steps)) [
      | none ↦ none
      | some found ↦ some found.1
    ]

unfoldable pub next_runnable_step : Db → Datetime → Option StepRecord
next_runnable_step db now = elim (select_runnable db now false) [
  | none ↦ none
  | some row ↦ some (step_from_row (dependencies db row.run_id) row)
]

-- INSERT INTO workflow_run_leases ... ON CONFLICT(run_id) DO UPDATE
unfoldable pub upsert_lease : WorkflowRunLease → List WorkflowRunLease → List WorkflowRunLease
upsert_lease excluded [] = excluded ∷ []
upsert_lease excluded (row ∷ rows) =
    if str_eq row.run_id excluded.run_id then excluded ∷ rows else row ∷ upsert_lease excluded rows

abbrev pub next_fence : Option WorkflowRunLease → ℕ
next_fence none = 1
next_fence (some existing) = existing.fence_token + 1

-- The new lease of `claim_runnable_step`.
unfoldable pub lease_for : Db → String → String → ℕ → Datetime → WorkflowRunLease
lease_for db run_id owner_id ttl now = record {
  run_id = run_id;
  owner_id = owner_id;
  fence_token = next_fence (get_lease db run_id);
  lease_expires_at = now + ttl;
  updated_at = now;
}

unfoldable pub claim_runnable_step_body :
    String → ℕ → Datetime → Db → Result StorageError (Option ClaimedStep × Db)
claim_runnable_step_body owner_id ttl now db = elim (select_runnable db now true) [
  | none ↦ ok (none, db)
  | some row ↦
      let lease = lease_for db row.run_id owner_id ttl now in
      ok (
        some (record { step = step_from_row (dependencies db row.run_id) row; lease = lease }),
        record db { workflow_run_leases = upsert_lease lease db.workflow_run_leases },
      )
]

unfoldable pub claim_runnable_step :
    String → ℕ → Datetime → Db → Result StorageError (Option ClaimedStep) × Db
claim_runnable_step owner_id ttl now = transaction (claim_runnable_step_body owner_id ttl now)

abbrev pub owned_lease : String → String → ℕ → WorkflowRunLease → Bool
owned_lease run_id owner_id fence_token lease =
    (str_eq lease.run_id run_id && str_eq lease.owner_id owner_id)
    && lease.fence_token == fence_token

-- `renew_lease`; `run_id` is the primary key, so that at most one row matches
unfoldable pub renew_lease : String → String → ℕ → ℕ → Datetime → Db → Bool × Db
renew_lease run_id owner_id fence_token ttl now db =
    let live = λ (l : WorkflowRunLease).
      owned_lease run_id owner_id fence_token l && ltb now l.lease_expires_at in
    (
      any live db.workflow_run_leases,
      record db {
        workflow_run_leases =
            update_rows live (λ l. record l { lease_expires_at = now + ttl; updated_at = now })
              db.workflow_run_leases;
      },
    )

unfoldable pub release_lease : String → String → ℕ → Datetime → Db → Bool × Db
release_lease run_id owner_id fence_token now db = (
  any (owned_lease run_id owner_id fence_token) db.workflow_run_leases,
  record db {
    workflow_run_leases =
        update_rows (owned_lease run_id owner_id fence_token)
          (λ l. record l { lease_expires_at = now; updated_at = now }) db.workflow_run_leases;
  },
)
