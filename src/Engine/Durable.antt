-- ===== src/Engine/Durable.antt =====
-- An exit in the middle of a turn leaves the tables and the history in agreement.
use crashsafe.Prelude.{
  String, ◌≡◌, sym, ap, subst, ◌∙◌, Option, some, none, ok, Bool-cases, Option-cases, Result-cases,
  inl, inr, ◌⊎◌,
}
use crashsafe.Models.Values.{Json}
use crashsafe.Models.{StepRecord, ClaimedStep, ToolResult}
use crashsafe.History.Payloads.{Pydantic}
use crashsafe.Storage.Db.{Db, RunRow}
use crashsafe.Storage.Attempts.{record_attempt, complete_step}
use crashsafe.Storage.Claims.{claim_runnable_step}
use crashsafe.Storage.Fencing.{IsFenced}
use crashsafe.Storage.Leases.{claims, lease_call}
use crashsafe.Storage.Projection.Commit.{records_attempt, completes_step, perform}
use crashsafe.Storage.Projection.Settled.{Matches}
use crashsafe.Storage.Projection.Match.{ProjectionMatchesHistory, Matches-history}
use crashsafe.Storage.Projection.Lifetime.{Leads, stays, leases, Leads-Matches, Leads-trans}
use crashsafe.Engine.{
  ToolOutcome, answered, retryable, permanent, unexpected, Settings, Moments, committer,
}
use crashsafe.Engine.Crash.{
  before_request, after_response, after_commit, crash_requested, crashed_after_call, crashed_claim,
  crashed_run_once,
}
use crashsafe.Engine.Running.{IsRunning, claimed-IsRunning, perform-IsFenced, Leads-perform}
use crashsafe.Engine.Agreement.{attempter, Meanwhile}

-- What an optional database has, when it is there.
abbrev Left {ℓ} : (Db → Type ℓ) → Option Db → Type ℓ
Left P none = Unit
Left P (some db) = P db

module _ (py : Pydantic) (dump_result : ToolResult → Json) (settings : Settings) (moments : Moments)
    (specification : Option String) (gateway : StepRecord → ToolOutcome) (between : Db → Db)
    (run_id : String) (start : Db) where
  crashed_after_call-Leads :
      (claim : ClaimedStep) (step : StepRecord) (outcome : ToolOutcome) (db : Db)
      → Leads py run_id start db
      → IsRunning step.run_id db
        ⊎ IsFenced py step.run_id step.id (committer py dump_result settings moments claim.lease) db
      → Left
          (Leads py run_id start)
          (crashed_after_call py dump_result settings moments specification claim step outcome db)
  unfolding crashed_after_call perform
  crashed_after_call-Leads claim step (retryable message retry_after throttle_tool) db before held =
      tt
  crashed_after_call-Leads claim step (permanent message) db before held = tt
  crashed_after_call-Leads claim step unexpected db before held = tt
  crashed_after_call-Leads claim step (answered result) db before held =
      let caller = committer py dump_result settings moments claim.lease in
      let done = complete_step py step.run_id step.id (dump_result result) caller db in
      let moved : Leads py run_id start done.1 = elim held [
        | inl running ↦
            Leads-perform py run_id start db step.run_id step.id caller
              (completes_step (dump_result result)) before running
        | inr fenced ↦
            subst (Leads py run_id start)
              (sym (
                perform-IsFenced py step.run_id step.id caller (completes_step (dump_result result))
                  db fenced))
              before
      ] in
      elim (Bool-cases (crash_requested specification step after_response)) [
        | inl e ↦ rw e before
        | inr e ↦ elim (Result-cases done.0) [
          | inr (error, f) ↦ rw (e, f) tt
          | inl (u, f) ↦ elim (Bool-cases (crash_requested specification step after_commit)) [
            | inl g ↦ rw (e, f, g) moved
            | inr g ↦ rw (e, f, g) tt
          ]
        ]
      ]

  crashed_claim-Leads :
      (claim : ClaimedStep) (db : Db)
      → Leads py run_id start db
      → IsRunning claim.step.run_id db
      → Meanwhile py dump_result settings moments between run_id claim db
      → Left
          (Leads py run_id start)
          (crashed_claim py dump_result settings moments specification gateway between claim db)
  unfolding crashed_claim perform
  crashed_claim-Leads claim db before running meanwhile =
      let caller = attempter py dump_result settings moments claim in
      let started = record_attempt py claim.step.run_id claim.step.id caller db in
      let one : Leads py run_id start started.1 =
        Leads-perform py run_id start db claim.step.run_id claim.step.id caller records_attempt
          before running in
      elim (Result-cases started.0) [
        | inr (error, e) ↦ rw (e, crashed_claim) tt
        | inl (step, e) ↦ elim (Bool-cases (crash_requested specification step before_request)) [
          | inl f ↦ rw (e, f, crashed_claim) one
          | inr f ↦
              rw (e, f, crashed_claim)
                (crashed_after_call-Leads claim step (gateway step) (between started.1)
                  (Leads-trans py run_id start started.1 _ one meanwhile.leads)
                  (meanwhile.held step e))
        ]
      ]

  crashed_run_once-Leads :
      (worker_id : String) (db : Db)
      → Leads py run_id start db
      → ((claim : ClaimedStep)
          → (claim_runnable_step worker_id settings.lease_ttl moments.claim db).0 ≡ ok (some claim)
          → Meanwhile py dump_result settings moments between run_id claim
              (claim_runnable_step worker_id settings.lease_ttl moments.claim db).1)
      → Left (Leads py run_id start) (
          crashed_run_once py dump_result settings moments specification worker_id gateway between
            db)
  unfolding crashed_run_once lease_call
  crashed_run_once-Leads worker_id db before meanwhile =
      let claimed = claim_runnable_step worker_id settings.lease_ttl moments.claim db in
      let one : Leads py run_id start claimed.1 =
        leases db (claims worker_id settings.lease_ttl moments.claim) before in
      elim (Result-cases claimed.0) [
        | inr (error, e) ↦ rw (e, crashed_run_once) tt
        | inl (found, e) ↦ elim (Option-cases found) [
          | inl none' ↦
              let e' : claimed.0 ≡ ok none = e ∙ ap ok none' in rw (e', crashed_run_once) tt
          | inr (claim, some') ↦
              let e' : claimed.0 ≡ ok (some claim) = e ∙ ap ok some' in
              rw (e', crashed_run_once)
                (crashed_claim-Leads claim claimed.1 one
                  (claimed-IsRunning worker_id settings.lease_ttl moments.claim db claim e')
                  (meanwhile claim e'))
        ]
      ]

  -- Wherever the injected crash ends a turn of a worker, before the request, after the response or
  -- after the commit, and without the release of the lease, the rows of a run are what the reducer
  -- makes of its events, and `projection_matches_history` finds both sides equal. While the tool
  -- runs, other processes may make calls on leases, on other runs, and on this one while it is
  -- RUNNING; after them the run of the claimed step is RUNNING, or the worker is fenced.
  pub crashed_run_once-ProjectionMatchesHistory :
      (worker_id : String) (run : RunRow) (after : Db)
      → Matches py run_id start run
      → ((claim : ClaimedStep)
          → (claim_runnable_step worker_id settings.lease_ttl moments.claim start).0
            ≡ ok (some claim)
          → Meanwhile py dump_result settings moments between run_id claim
              (claim_runnable_step worker_id settings.lease_ttl moments.claim start).1)
      → crashed_run_once py dump_result settings moments specification worker_id gateway between
          start
        ≡ some after
      → ((run' : RunRow) × Matches py run_id after run') × ProjectionMatchesHistory py run_id after
  crashed_run_once-ProjectionMatchesHistory worker_id run after m meanwhile crashed =
      let leads : Leads py run_id start after =
        subst (Left (Leads py run_id start)) crashed
          (crashed_run_once-Leads worker_id start stays meanwhile) in
      let (run', m') = Leads-Matches py run_id start after run m leads in
      ((run', m'), Matches-history py run_id after run' m')
