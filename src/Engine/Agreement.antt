-- ===== src/Engine/Agreement.antt =====
-- `run_once` is a sequence of the calls that keep the tables and the history in agreement.
use crashsafe.Prelude.{
  String, ◌≡◌, refl, sym, ap, subst, ◌∙◌, some, none, ok, Bool-cases, Option-cases, Result-cases,
  inl, inr, ◌⊎◌, leb,
}
use crashsafe.Models.Values.{Json}
use crashsafe.Models.{StepRecord, ClaimedStep, ToolResult}
use crashsafe.History.Payloads.{Pydantic}
use crashsafe.Storage.Db.{Db, RunRow}
use crashsafe.Storage.Attempts.{Caller, record_attempt}
use crashsafe.Storage.Claims.{claim_runnable_step}
use crashsafe.Storage.Fencing.{IsFenced}
use crashsafe.Storage.Leases.{claims, releases, lease_call}
use crashsafe.Storage.Projection.Commit.{
  StepCall, records_attempt, schedules_retry, fails_step, completes_step, perform,
}
use crashsafe.Storage.Projection.Settled.{Matches}
use crashsafe.Storage.Projection.Match.{ProjectionMatchesHistory, Matches-history}
use crashsafe.Storage.Projection.Lifetime.{Leads, stays, leases, Leads-Matches, Leads-trans}
use Prim.Native.String.{◌++◌ as str_append}
use crashsafe.Engine.{
  ToolOutcome, answered, retryable, permanent, unexpected, Settings, Moments, committer,
  handle_retryable_failure, commit_outcome, run_claim, run_once, next_attempt,
}
use crashsafe.Engine.Running.{IsRunning, claimed-IsRunning, perform-IsFenced, Leads-perform}

module _ (py : Pydantic) (dump_result : ToolResult → Json) (settings : Settings)
    (moments : Moments) where
  -- What the outcome of a call writes: one call of the storage, or nothing.
  commit_outcome_call :
      (claim : ClaimedStep) (step : StepRecord) (outcome : ToolOutcome) (db : Db)
      → ((commit_outcome py dump_result settings moments claim step outcome db).1 ≡ db)
        ⊎ ((call : StepCall) × ((commit_outcome py dump_result settings moments claim step outcome
                db).1
              ≡ perform py step.run_id step.id
                  (committer py dump_result settings moments claim.lease)
                  call
                  db))
  unfolding commit_outcome perform handle_retryable_failure
  commit_outcome_call claim step (answered result) db =
      inr (completes_step (dump_result result), refl)
  commit_outcome_call claim step (permanent message) db = inr (fails_step message, refl)
  commit_outcome_call claim step unexpected db = inl refl
  commit_outcome_call claim step (retryable message retry_after throttle_tool) db =
      elim (Bool-cases (leb settings.max_attempts step.attempts)) [
        | inl e ↦ inr (
          fails_step (str_append "retry budget exhausted: " message),
          rw (e, handle_retryable_failure) refl,
        )
        | inr e ↦ elim (Option-cases (next_attempt settings moments step retry_after)) [
          | inl none_left ↦ inl (rw (e, none_left, handle_retryable_failure) refl)
          | inr (at, found) ↦ inr (
            schedules_retry message at throttle_tool,
            rw (e, found, handle_retryable_failure) refl,
          )
        ]
      ]

  -- the caller of the intent
  abbrev pub attempter : ClaimedStep → Caller
  attempter claim = record {
    owner_id = some claim.lease.owner_id;
    fence_token = some claim.lease.fence_token;
    now = moments.attempt;
    checked_at = moments.attempt_checked;
  }

  -- What other processes and the heartbeat commit while the tool runs: calls on leases and on other
  -- runs, and on this one while it is RUNNING; and when they are done, the run of the step is still
  -- RUNNING, or the worker has lost its lease.
  pub record Meanwhile (between : Db → Db) (run_id : String) (claim : ClaimedStep) (db : Db)
      : Type 0 where
    pub leads :
        Leads py run_id
          (record_attempt py claim.step.run_id claim.step.id (attempter claim) db).1
          (between (record_attempt py claim.step.run_id claim.step.id (attempter claim) db).1)
    pub held :
        (step : StepRecord)
        → (record_attempt py claim.step.run_id claim.step.id (attempter claim) db).0 ≡ ok step
        → IsRunning step.run_id
            (between (record_attempt py claim.step.run_id claim.step.id (attempter claim) db).1)
          ⊎ IsFenced py step.run_id step.id
              (committer py dump_result settings moments claim.lease)
              (between (record_attempt py claim.step.run_id claim.step.id (attempter claim) db).1)

  module _ (gateway : StepRecord → ToolOutcome) (between : Db → Db) (run_id : String)
      (start : Db) where
    commit_outcome-Leads :
        (claim : ClaimedStep) (step : StepRecord) (outcome : ToolOutcome) (db : Db)
        → Leads py run_id start db
        → IsRunning step.run_id db
          ⊎ IsFenced py step.run_id step.id
              (committer py dump_result settings moments claim.lease)
              db
        → Leads py run_id start
            (commit_outcome py dump_result settings moments claim step outcome db).1
    commit_outcome-Leads claim step outcome db before held =
        elim (commit_outcome_call claim step outcome db) [
          | inl e ↦ subst (Leads py run_id start) (sym e) before
          | inr (call, e) ↦ elim held [
            | inl running ↦
                subst (Leads py run_id start) (sym e)
                  (Leads-perform py run_id start db step.run_id step.id _ call before running)
            | inr fenced ↦
                subst (Leads py run_id start)
                  (sym (e ∙ perform-IsFenced py step.run_id step.id _ call db fenced)) before
          ]
        ]

    run_claim-Leads :
        (claim : ClaimedStep) (db : Db)
        → Leads py run_id start db
        → IsRunning claim.step.run_id db
        → Meanwhile between run_id claim db
        → Leads py run_id start
            (run_claim py dump_result settings moments gateway between claim db).1
    unfolding run_claim perform
    run_claim-Leads claim db before running meanwhile =
        let started = record_attempt py claim.step.run_id claim.step.id (attempter claim) db in
        let one : Leads py run_id start started.1 =
          Leads-perform py run_id start db claim.step.run_id claim.step.id (attempter claim)
            records_attempt before running in
        elim (Result-cases started.0) [
          | inr (error, e) ↦ rw (e, run_claim) one
          | inl (step, e) ↦
              rw (e, run_claim)
                (commit_outcome-Leads claim step (gateway step) (between started.1)
                  (Leads-trans py run_id start started.1 _ one meanwhile.leads)
                  (meanwhile.held step e))
        ]

    run_once-Leads :
        (worker_id : String) (db : Db)
        → Leads py run_id start db
        → ((claim : ClaimedStep)
            → (claim_runnable_step worker_id settings.lease_ttl moments.claim db).0
              ≡ ok (some claim)
            → Meanwhile between run_id claim
                (claim_runnable_step worker_id settings.lease_ttl moments.claim db).1)
        → Leads py run_id start
            (run_once py dump_result settings moments worker_id gateway between db).1
    unfolding run_once lease_call
    run_once-Leads worker_id db before meanwhile =
        let claimed = claim_runnable_step worker_id settings.lease_ttl moments.claim db in
        let one : Leads py run_id start claimed.1 =
          leases db (claims worker_id settings.lease_ttl moments.claim) before in
        elim (Result-cases claimed.0) [
          | inr (error, e) ↦ rw (e, run_once) one
          | inl (found, e) ↦ elim (Option-cases found) [
            | inl none' ↦ let e' : claimed.0 ≡ ok none = e ∙ ap ok none' in rw (e', run_once) one
            | inr (claim, some') ↦
                let e' : claimed.0 ≡ ok (some claim) = e ∙ ap ok some' in
                rw (e', run_once)
                  (leases _
                    (releases claim.step.run_id claim.lease.owner_id claim.lease.fence_token
                      moments.release)
                    (run_claim-Leads claim claimed.1 one
                      (claimed-IsRunning worker_id settings.lease_ttl moments.claim db claim e')
                      (meanwhile claim e')))
          ]
        ]

    -- One turn of a worker keeps the agreement of a run, be it the claimed one or another: whatever
    -- the tool answers, and whatever the storage refuses, the rows of the run are again what the
    -- reducer makes of its events, and `projection_matches_history` finds both sides equal. While
    -- the tool runs, other processes may make calls on leases, on other runs, and on this one while
    -- it is RUNNING; after them the run of the claimed step is RUNNING, or the worker is fenced.
    pub run_once-ProjectionMatchesHistory :
        (worker_id : String) (run : RunRow)
        → Matches py run_id start run
        → ((claim : ClaimedStep)
            → (claim_runnable_step worker_id settings.lease_ttl moments.claim start).0
              ≡ ok (some claim)
            → Meanwhile between run_id claim
                (claim_runnable_step worker_id settings.lease_ttl moments.claim start).1)
        → ((run' : RunRow) × Matches py run_id
              (run_once py dump_result settings moments worker_id gateway between start).1
              run')
          × ProjectionMatchesHistory py run_id
              (run_once py dump_result settings moments worker_id gateway between start).1
    run_once-ProjectionMatchesHistory worker_id run m meanwhile =
        let after = (run_once py dump_result settings moments worker_id gateway between start).1 in
        let (run', m') =
          Leads-Matches py run_id start after run m
            (run_once-Leads worker_id start stays meanwhile) in
        ((run', m'), Matches-history py run_id after run' m')
