-- ===== src/Worker.antt =====
-- crashsafe/worker.py: the polling loops of `Worker` and the exit codes of `main`.
-- A round is what one turn of a loop meets: whether a drain was requested, the clocks, the answer of
-- the tool, and what other processes commit (`between` during the tool call, `since` before the turn).
-- The rounds are a list; a loop whose list ends is still running.
pub mod Draining
pub mod Exits
use crashsafe.Prelude.{
  ℕ, String, Bool, true, false, not, ◌||◌, List, [], ◌∷◌, Result, ok, err, leb, if◌then◌else◌,
  Option, none, some,
}
use crashsafe.Models.Values.{Json}
use crashsafe.Models.{Datetime, WorkflowRunStatus, StepRecord, ToolResult, WorkflowRun}
use crashsafe.History.Payloads.{Pydantic}
use crashsafe.Storage.Db.{StorageError, run_not_found, Db}
use crashsafe.Storage.Reads.{get_workflow_run}
use crashsafe.Engine.{
  ToolOutcome, Settings, Moments, EngineError, storage_error, RunOutcome, run_once,
}

pub record Round : Type 0 where
  pub drain_requested : Bool
  -- `time.monotonic()`
  pub clock : ℕ
  pub moments : Moments
  pub gateway : StepRecord → ToolOutcome
  pub between : Db → Db
  pub since : Db → Db

-- How a loop ends.
pub data Ending : Type 0 where
  returned : (code : ℕ) → Ending
  unread : StorageError → Ending
  raised : EngineError → Ending
  still_running : Ending

module _ (py : Pydantic) (dump_result : ToolResult → Json) (settings : Settings)
    (worker_id : String) where
  abbrev pub turn : Round → Db → Result EngineError RunOutcome × Db
  turn round db =
      run_once py dump_result settings round.moments worker_id round.gateway round.between db

  -- `run_forever`; its return has no code, 0 here
  unfoldable pub run_forever : List Round → Db → Ending × Db
  run_forever [] db = (still_running, db)
  run_forever (round ∷ rounds) db =
      let (outcome, db') = turn round (round.since db) in
      let rest = run_forever rounds db' in
      if round.drain_requested
      then (returned 0, round.since db)
      else elim outcome [ err e ↦ (raised e, db') | ok done ↦ rest ]

  -- `run_until_terminal`
  unfoldable pub run_until_terminal : String → ℕ → List Round → Db → Ending × Db
  run_until_terminal run_id deadline [] db = (still_running, db)
  run_until_terminal run_id deadline (round ∷ rounds) db =
      let db₁ = round.since db in
      let (outcome, db') = turn round db₁ in
      let rest = run_until_terminal run_id deadline rounds db' in
      if round.drain_requested || leb deadline round.clock
      then (returned 3, db₁)
      else elim (get_workflow_run db₁ run_id) [
        | err e ↦ (unread e, db₁)
        | ok run ↦ elim run.status [
          | WorkflowRunStatus.completed ↦ (returned 0, db₁)
          | WorkflowRunStatus.failed ↦ (returned 2, db₁)
          | WorkflowRunStatus.running ↦ elim outcome [ err e ↦ (raised e, db') | ok done ↦ rest ]
        ]
      ]

-- The exit code of `main --until-terminal`: 4 for WorkflowRunNotFoundError, 1 for any other
-- exception.
abbrev pub exit_code : Ending → Option ℕ
exit_code (returned code) = some code
exit_code (unread run_not_found) = some 4
exit_code (unread e) = some 1
exit_code (raised (storage_error run_not_found)) = some 4
exit_code (raised e) = some 1
exit_code still_running = none
