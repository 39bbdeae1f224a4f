-- ===== src/Storage/Throttle.antt =====
-- The shared throttle of a tool: a 429 holds back every run that uses it.
use crashsafe.Prelude.{
  arith, ◌≤◌, ◌<◌, String, true, ◌≡◌, ◌≢◌, subst, some, List, [], ◌∷◌, Option-cases, Result-cases,
  inl, inr, ok, str_eq, str_eq_self, find?,
}
use crashsafe.Models.{Datetime, ToolThrottle}
use crashsafe.History.Payloads.{Pydantic}
use crashsafe.Storage.Db.{Db, StepRow, transaction, get_step_row, update_step, append_event}
use crashsafe.Storage.Attempts.{Caller, upsert_throttle, schedule_retry_body, schedule_retry}
use crashsafe.Storage.Claims.{get_tool_throttle, not_throttled, eligible, select_runnable}
use crashsafe.Storage.Deadlines.{deadline_in, Later, Later-rises}
use crashsafe.Storage.Candidates.{select_runnable-IsCandidate}

upsert_throttle-deadline :
    (x : ToolThrottle) (rows : List ToolThrottle)
    → x.blocked_until ≤ deadline_in x.tool_key (upsert_throttle x rows)
unfolding upsert_throttle find?
upsert_throttle-deadline x [] = ground (arith, str_eq_self x.tool_key)
upsert_throttle-deadline x (row ∷ rows) = ground (arith, upsert_throttle-deadline x rows)

not_throttled-deadline :
    (tool_key : String) (rows : List ToolThrottle) (current : Datetime)
    → not_throttled (find? (λ (t : ToolThrottle). str_eq t.tool_key tool_key) rows) current ≡ true
    → deadline_in tool_key rows ≤ current
not_throttled-deadline tool_key rows current h =
    elim (Option-cases (find? (λ (t : ToolThrottle). str_eq t.tool_key tool_key) rows)) [
      | inl e ↦ ground (arith, e)
      | inr (t, e) ↦ ground (arith, e)
    ]

module _ (py : Pydantic) (run_id step_id error : String) (next : Datetime) (caller : Caller)
    (db : Db) (row : StepRow) where
  schedule_retry_body-throttle :
      (after : Db)
      → get_step_row db run_id step_id ≡ ok row
      → schedule_retry_body py run_id step_id error next true caller db ≡ ok (tt, after)
      → next ≤ deadline_in row.tool_key after.tool_throttles
  unfolding schedule_retry_body update_step append_event
  schedule_retry_body-throttle after at h =
      let throttle : ToolThrottle = record {
        tool_key = row.tool_key;
        blocked_until = next;
        reason = error;
        updated_at = caller.now;
      } in
      let same : upsert_throttle throttle db.tool_throttles ≡ after.tool_throttles =
        ground (arith, at) in
      subst (λ rows. next ≤ deadline_in row.tool_key rows) same
        (upsert_throttle-deadline throttle db.tool_throttles)

  -- Once a retry was scheduled for a throttled tool, then whatever calls on steps and leases follow,
  -- other throttles of the tool with an earlier deadline among them, no claim before the deadline
  -- selects a step of any run that uses the same tool.
  pub schedule_retry-throttles :
      (current : Datetime) (other : StepRow) (later : Db)
      → get_step_row db run_id step_id ≡ ok row
      → (schedule_retry py run_id step_id error next true caller db).0 ≡ ok tt
      → Later py (schedule_retry py run_id step_id error next true caller db).1 later
      → current < next
      → select_runnable later current true ≡ some other
      → other.tool_key ≢ row.tool_key
  unfolding schedule_retry transaction eligible get_tool_throttle
  schedule_retry-throttles current other later at h follows early selected same =
      let after = (schedule_retry py run_id step_id error next true caller db).1 in
      let blocked : next ≤ deadline_in row.tool_key after.tool_throttles =
        elim (Result-cases (schedule_retry_body py run_id step_id error next true caller db)) [
          | inl ((u, d), e) ↦ schedule_retry_body-throttle after at (ground (arith, e))
          | inr (raised, e) ↦ absurd (ground (arith, e))
        ] in
      let (_, (created, good)) = select_runnable-IsCandidate later current true other selected in
      let free : not_throttled
            (find? (λ (t : ToolThrottle). str_eq t.tool_key other.tool_key) later.tool_throttles)
            current
          ≡ true =
        ground (arith, good.where_holds) in
      let open' = not_throttled-deadline other.tool_key later.tool_throttles current free in
      let shared : deadline_in row.tool_key later.tool_throttles ≤ current =
        subst (λ key. deadline_in key later.tool_throttles ≤ current) same open' in
      let risen = Later-rises py row.tool_key after later follows in
      omega (arith, blocked, risen, shared, early)
