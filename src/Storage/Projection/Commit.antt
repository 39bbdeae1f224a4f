-- ===== src/Storage/Projection/Commit.antt =====
-- The four transitions through `_transaction`, whose exception leaves the database as it was.
use crashsafe.Prelude.{String, Bool, ◌≡◌, refl, sym, subst, Result, Result-cases, inl, inr, ok, err}
use crashsafe.Models.Values.{Json}
use crashsafe.Models.{Datetime, WorkflowRunStatus}
use crashsafe.History.Payloads.{Pydantic}
use crashsafe.Storage.Db.{StorageError, Db, RunRow, transaction}
use crashsafe.Storage.Attempts.{
  Caller, record_attempt_body, schedule_retry_body, fail_step_body, complete_step_body,
  record_attempt, schedule_retry, fail_step, complete_step,
}
use crashsafe.Storage.Projection.Attempt.{record_attempt_body-Projected}
use crashsafe.Storage.Projection.Outcomes.{schedule_retry_body-Projected}
use crashsafe.Storage.Projection.Endings.{complete_step_body-Matches}
use crashsafe.Storage.Projection.Failing.{set_run_failed, fail_step_body-Projected}
use crashsafe.Storage.Projection.Settled.{Matches}
use crashsafe.Storage.Projection.Keeping.{
  record_attempt_body-IsSettled, schedule_retry_body-IsSettled,
}

pub transaction-commits {ℓ} :
    {A : Type ℓ}
    → (body : Db → Result StorageError (A × Db)) (db : Db) (a : A) (after : Db)
    → body db ≡ ok (a, after)
    → (transaction body db).1 ≡ after
unfolding transaction
transaction-commits body db a after h = rw (transaction, h) refl

pub transaction-aborts {ℓ} :
    {A : Type ℓ}
    → (body : Db → Result StorageError (A × Db)) (db : Db) (error : StorageError)
    → body db ≡ err error
    → (transaction body db).1 ≡ db
unfolding transaction
transaction-aborts body db error h = rw (transaction, h) refl

-- What a commit keeps, the transaction keeps.
pub transaction-keeps {ℓ κ} :
    {A : Type ℓ}
    → {P : Db → Type κ} → (body : Db → Result StorageError (A × Db)) (db : Db) → P db
    → ((a : A) (after : Db) → body db ≡ ok (a, after) → P after)
    → P (transaction body db).1
transaction-keeps {P = P} body db p keeps = elim (Result-cases (body db)) [
  | inl ((a, after), e) ↦ subst P (sym (transaction-commits body db a after e)) (keeps a after e)
  | inr (error, e) ↦ subst P (sym (transaction-aborts body db error e)) p
]

module _ (py : Pydantic) (run_id step_id : String) (caller : Caller) (db : Db) (run : RunRow)
    (matches : Matches py run_id db run) (running : run.status ≡ WorkflowRunStatus.running) where
  -- the agreement, at whichever row the run then has
  abbrev Agrees : Db → Type 0
  Agrees after = (run' : RunRow) × Matches py run_id after run'

  pub record_attempt-Matches : Agrees (record_attempt py run_id step_id caller db).1
  unfolding record_attempt
  record_attempt-Matches =
      transaction-keeps {P = Agrees} (record_attempt_body py run_id step_id caller) db
        (run, matches)
        (λ step after h. (
          run,
          record {
            projected =
                record_attempt_body-Projected py run_id step_id caller db run matches.projected
                  running step after h;
            settled =
                record_attempt_body-IsSettled py run_id step_id caller db run matches.settled step
                  after h;
          },
        ))

  pub schedule_retry-Matches :
      (error : String) (next : Datetime) (throttle_tool : Bool)
      → Agrees (schedule_retry py run_id step_id error next throttle_tool caller db).1
  unfolding schedule_retry
  schedule_retry-Matches error next throttle_tool =
      transaction-keeps {P = Agrees}
        (schedule_retry_body py run_id step_id error next throttle_tool caller) db (run, matches)
        (λ _ after h. (
          run,
          record {
            projected =
                schedule_retry_body-Projected py run_id step_id caller db run matches.projected
                  running error next throttle_tool after h;
            settled =
                schedule_retry_body-IsSettled py run_id step_id caller db run matches.settled error
                  next throttle_tool after h;
          },
        ))

  pub fail_step-Matches : (error : String) → Agrees (fail_step py run_id step_id error caller db).1
  unfolding fail_step
  fail_step-Matches error =
      transaction-keeps {P = Agrees} (fail_step_body py run_id step_id error caller) db
        (run, matches)
        (λ _ after h. (
          set_run_failed caller.now run,
          record {
            projected =
                fail_step_body-Projected py run_id step_id caller db run matches.projected running
                  error after h;
            settled = record { none_failed = λ r. absurd (cc); some_left = λ r. absurd (cc) };
          },
        ))

  pub complete_step-Matches :
      (output : Json) → Agrees (complete_step py run_id step_id output caller db).1
  unfolding complete_step
  complete_step-Matches output =
      transaction-keeps {P = Agrees} (complete_step_body py run_id step_id output caller) db
        (run, matches)
        (λ _ after h.
          complete_step_body-Matches py run_id step_id caller db run matches.projected running
            matches.settled output after h)

-- The calls that a worker makes on a step, with their arguments.
pub data StepCall : Type 0 where
  records_attempt : StepCall
  schedules_retry : String → Datetime → Bool → StepCall
  fails_step : String → StepCall
  completes_step : Json → StepCall

-- The database after a call, whether the method returned or raised.
unfoldable pub perform : Pydantic → String → String → Caller → StepCall → Db → Db
perform py run_id step_id caller records_attempt db = (record_attempt py run_id step_id caller db).1
perform py run_id step_id caller (schedules_retry error next throttle_tool) db =
    (schedule_retry py run_id step_id error next throttle_tool caller db).1
perform py run_id step_id caller (fails_step error) db =
    (fail_step py run_id step_id error caller db).1
perform py run_id step_id caller (completes_step output) db =
    (complete_step py run_id step_id output caller db).1

pub perform-Matches :
    (py : Pydantic) (run_id step_id : String) (caller : Caller) (call : StepCall) (db : Db)
    (run : RunRow)
    → Matches py run_id db run
    → run.status ≡ WorkflowRunStatus.running
    → (run' : RunRow) × Matches py run_id (perform py run_id step_id caller call db) run'
unfolding perform
perform-Matches py run_id step_id caller records_attempt db run m r =
    record_attempt-Matches py run_id step_id caller db run m r
perform-Matches py run_id step_id caller (schedules_retry error next throttle_tool) db run m r =
    schedule_retry-Matches py run_id step_id caller db run m r error next throttle_tool
perform-Matches py run_id step_id caller (fails_step error) db run m r =
    fail_step-Matches py run_id step_id caller db run m r error
perform-Matches py run_id step_id caller (completes_step output) db run m r =
    complete_step-Matches py run_id step_id caller db run m r output
