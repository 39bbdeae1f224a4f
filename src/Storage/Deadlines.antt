-- ===== src/Storage/Deadlines.antt =====
-- The deadline of a tool's throttle never comes down: `MAX` in the upsert of `schedule_retry`.
use crashsafe.Prelude.{
  arith, ℕ, ◌≤◌, ◌==◌, String, Bool, not, ◌≡◌, refl, sym, ap, subst, none, some, List, [], ◌∷◌,
  Bool-cases, >>=-eq-ok, ok_injective, raise_if, inl, inr, ok, str_eq, find?,
}
use crashsafe.Models.Values.{Json}
use crashsafe.Models.{Datetime, ToolThrottle, StepStatus, status_eq, StepRecord, runnable_status}
use crashsafe.History.Payloads.{Pydantic}
use crashsafe.Storage.Db.{
  Db, get_step_row, update_step, update_run, append_event, has_incomplete_dependency,
  step_not_runnable, incomplete_dependencies,
}
use crashsafe.Storage.Attempts.{
  Caller, upsert_throttle, require_lease, require_active_attempt, remaining_steps,
  complete_run_if_done, record_attempt_body, schedule_retry_body, fail_step_body,
  complete_step_body, record_attempt, schedule_retry, fail_step, complete_step,
}
use crashsafe.Storage.Leases.{LeaseCall, lease_call}
use crashsafe.Storage.Projection.Commit.{
  StepCall, records_attempt, schedules_retry, fails_step, completes_step, perform,
  transaction-keeps,
}
use crashsafe.Storage.Projection.Lifetime.{lease_call-leases}

-- Until when a tool is blocked, 0 where it never was.
abbrev pub deadline_in : String → List ToolThrottle → ℕ
deadline_in tool_key rows = elim (find? (λ (t : ToolThrottle). str_eq t.tool_key tool_key) rows) [
  | none ↦ 0
  | some t ↦ t.blocked_until
]

-- Calls of any workers on steps and leases, in any order.
pub data Later (py : Pydantic) (db : Db) : Db → Type 0 where
  at_once : Later py db db
  steps :
      (middle : Db) (run_id step_id : String) (caller : Caller) (call : StepCall)
      → Later py db middle
      → Later py db (perform py run_id step_id caller call middle)
  leases :
      (middle : Db) (call : LeaseCall) → Later py db middle → Later py db (lease_call call middle)

upsert_throttle-rises :
    (tool_key : String) (x : ToolThrottle) (rows : List ToolThrottle)
    → deadline_in tool_key rows ≤ deadline_in tool_key (upsert_throttle x rows)
unfolding upsert_throttle find?
upsert_throttle-rises tool_key x [] = ground arith
upsert_throttle-rises tool_key x (row ∷ rows) =
    ground (arith, upsert_throttle-rises tool_key x rows)

module _ (py : Pydantic) (tool_key run_id step_id : String) (caller : Caller) (db : Db) where
  abbrev Rises : Db → Type 0
  Rises after = deadline_in tool_key db.tool_throttles ≤ deadline_in tool_key after.tool_throttles

  record_attempt_body-Rises :
      (step : StepRecord) (after : Db)
      → record_attempt_body py run_id step_id caller db ≡ ok (step, after)
      → Rises after
  unfolding record_attempt_body update_step append_event
  record_attempt_body-Rises step after h =
      let (row, _, h₁) = >>=-eq-ok (get_step_row db run_id step_id) _ h in
      let (_, _, h₂) =
        >>=-eq-ok (require_lease db row caller.owner_id caller.fence_token caller.checked_at) _
          h₁ in
      let (_, _, h₃) =
        >>=-eq-ok (raise_if (not (runnable_status row.status)) step_not_runnable) _ h₂ in
      let (_, _, h₄) =
        >>=-eq-ok (raise_if (has_incomplete_dependency db run_id step_id) incomplete_dependencies) _
          h₃ in
      let (_, _, h₅) = >>=-eq-ok (get_step_row _ run_id step_id) _ h₄ in
      subst (λ rows. deadline_in tool_key db.tool_throttles ≤ deadline_in tool_key rows)
        (ap (λ (q : StepRecord × Db). q.1.tool_throttles) (ok_injective h₅)) (omega arith)

  schedule_retry_body-Rises :
      (error : String) (next : Datetime) (throttle_tool : Bool) (u : Unit {0}) (after : Db)
      → schedule_retry_body py run_id step_id error next throttle_tool caller db ≡ ok (u, after)
      → Rises after
  unfolding schedule_retry_body update_step append_event
  schedule_retry_body-Rises error next throttle_tool u after h =
      let (row, _, h₁) = >>=-eq-ok (get_step_row db run_id step_id) _ h in
      let (_, _, h₂) =
        >>=-eq-ok
          (require_active_attempt db row caller.owner_id caller.fence_token caller.checked_at) _
          h₁ in
      let same = ap (λ (q : Unit {0} × Db). q.1) (ok_injective h₂) in
      elim (Bool-cases throttle_tool) [
        | inl e ↦ subst Rises (rw e at same) (upsert_throttle-rises tool_key _ db.tool_throttles)
        | inr e ↦ subst Rises (rw e at same) (omega arith)
      ]

  fail_step_body-Rises :
      (error : String) (u : Unit {0}) (after : Db)
      → fail_step_body py run_id step_id error caller db ≡ ok (u, after)
      → Rises after
  unfolding fail_step_body update_step update_run append_event
  fail_step_body-Rises error u after h =
      let (row, _, h₁) = >>=-eq-ok (get_step_row db run_id step_id) _ h in
      let (_, _, h₂) =
        >>=-eq-ok
          (require_active_attempt db row caller.owner_id caller.fence_token caller.checked_at) _
          h₁ in
      subst Rises (ap (λ (q : Unit {0} × Db). q.1) (ok_injective h₂)) (omega arith)

  complete_run_if_done-throttles :
      (now : Datetime) (d : Db)
      → (complete_run_if_done py run_id now d).tool_throttles ≡ d.tool_throttles
  unfolding complete_run_if_done update_run append_event
  complete_run_if_done-throttles now d = elim (Bool-cases (remaining_steps run_id d == 0)) [
    | inl e ↦ rw e refl
    | inr e ↦ rw e refl
  ]

  complete_step_body-Rises :
      (output : Json) (u : Unit {0}) (after : Db)
      → complete_step_body py run_id step_id output caller db ≡ ok (u, after)
      → Rises after
  unfolding complete_step_body update_step append_event
  complete_step_body-Rises output u after h =
      let (row, _, h₁) = >>=-eq-ok (get_step_row db run_id step_id) _ h in
      let (_, _, h₂) =
        >>=-eq-ok (require_lease db row caller.owner_id caller.fence_token caller.checked_at) _
          h₁ in
      let same = ap (λ (q : Unit {0} × Db). q.1) (ok_injective h₂) in
      elim (Bool-cases (status_eq row.status StepStatus.intent_recorded)) [
        | inl e ↦ subst Rises (rw e at same) (
            omega (
              arith,
              ap (λ rows. deadline_in tool_key rows) (complete_run_if_done-throttles caller.now _),
            ))
        | inr e ↦ subst Rises (rw e at same) (omega arith)
      ]

  perform-Rises : (call : StepCall) → Rises (perform py run_id step_id caller call db)
  unfolding perform record_attempt schedule_retry fail_step complete_step
  perform-Rises records_attempt =
      transaction-keeps {P = Rises} (record_attempt_body py run_id step_id caller) db (omega arith)
        record_attempt_body-Rises
  perform-Rises (schedules_retry error next throttle_tool) =
      transaction-keeps {P = Rises}
        (schedule_retry_body py run_id step_id error next throttle_tool caller) db (omega arith)
        (schedule_retry_body-Rises error next throttle_tool)
  perform-Rises (fails_step error) =
      transaction-keeps {P = Rises} (fail_step_body py run_id step_id error caller) db (omega arith)
        (fail_step_body-Rises error)
  perform-Rises (completes_step output) =
      transaction-keeps {P = Rises} (complete_step_body py run_id step_id output caller) db
        (omega arith) (complete_step_body-Rises output)

-- No call brings a deadline forward.
pub Later-rises :
    (py : Pydantic) (tool_key : String) (db after : Db)
    → Later py db after
    → deadline_in tool_key db.tool_throttles ≤ deadline_in tool_key after.tool_throttles
Later-rises py tool_key db after at_once = omega arith
Later-rises py tool_key db after (steps middle run_id step_id caller call before) = omega (
  arith,
  Later-rises py tool_key db middle before,
  perform-Rises py tool_key run_id step_id caller middle call,
)
Later-rises py tool_key db after (leases middle call before) =
    let (rows, same) = lease_call-leases call middle in
    subst
      (λ (d : Db). deadline_in tool_key db.tool_throttles ≤ deadline_in tool_key d.tool_throttles)
      (sym same) (Later-rises py tool_key db middle before)
