-- ===== src/Worker/Exits.antt =====
-- What the end of `run_until_terminal` says of the run, and that it ends.
use crashsafe.Prelude.{
  ℕ, zero, suc, String, Bool, true, false, ◌||◌, ◌≡◌, ◌≢◌, ◌⊎◌, refl, sym, ap, subst, ◌∙◌, List, [],
  ◌∷◌, arith, Result, ok, err, any, leb, Bool-cases, Result-cases, inl, inr,
}
use crashsafe.Models.Values.{Json}
use crashsafe.Models.{WorkflowRunStatus, ToolResult, WorkflowRun}
use crashsafe.History.Payloads.{Pydantic}
use crashsafe.Storage.Db.{StorageError, Db}
use crashsafe.Storage.Reads.{get_workflow_run}
use crashsafe.Engine.{EngineError, Settings, RunOutcome}
use crashsafe.Worker.{
  Round, Ending, returned, unread, raised, still_running, turn, run_until_terminal,
}

-- `get_workflow_run` shows the run in a status.
abbrev pub Shown : Db → String → WorkflowRunStatus → Type 0
Shown db run_id status =
    (run : WorkflowRun) × (get_workflow_run db run_id ≡ ok run) × (run.status ≡ status)

-- What an ending says of the database: 0 completed, 2 failed, 3 nothing, and no other code.
abbrev pub Says : String → Ending → Db → Type 0
Says run_id (returned zero) db = Shown db run_id WorkflowRunStatus.completed
Says run_id (returned (suc (suc zero))) db = Shown db run_id WorkflowRunStatus.failed
Says run_id (returned (suc (suc (suc zero)))) db = Unit
Says run_id (returned code) db = ⊥
Says run_id (unread e) db = get_workflow_run db run_id ≡ err e
Says run_id (raised e) db = Unit
Says run_id still_running db = Unit

module _ (py : Pydantic) (dump_result : ToolResult → Json) (settings : Settings)
    (worker_id run_id : String) (deadline : ℕ) where
  abbrev runs : List Round → Db → Ending × Db
  runs = run_until_terminal py dump_result settings worker_id run_id deadline

  abbrev turned : Round → Db → Result EngineError RunOutcome × Db
  turned round db = turn py dump_result settings worker_id round (round.since db)

  abbrev stops : Round → Bool
  stops round = round.drain_requested || leb deadline round.clock

  abbrev read : Round → Db → Result StorageError WorkflowRun
  read round db = get_workflow_run (round.since db) run_id

  -- The ways of one turn.
  gives_up :
      (round : Round) (rounds : List Round) (db : Db)
      → stops round ≡ true
      → runs (round ∷ rounds) db ≡ (returned 3, round.since db)
  unfolding run_until_terminal
  gives_up round rounds db e = rw e refl

  cannot_read :
      (round : Round) (rounds : List Round) (db : Db) (error : StorageError)
      → stops round ≡ false
      → read round db ≡ err error
      → runs (round ∷ rounds) db ≡ (unread error, round.since db)
  unfolding run_until_terminal
  cannot_read round rounds db error e f = rw (e, f) refl

  sees_completed :
      (round : Round) (rounds : List Round) (db : Db) (run : WorkflowRun)
      → stops round ≡ false
      → read round db ≡ ok run
      → run.status ≡ WorkflowRunStatus.completed
      → runs (round ∷ rounds) db ≡ (returned 0, round.since db)
  unfolding run_until_terminal
  sees_completed round rounds db run e f s = rw (e, f, s) refl

  sees_failed :
      (round : Round) (rounds : List Round) (db : Db) (run : WorkflowRun)
      → stops round ≡ false
      → read round db ≡ ok run
      → run.status ≡ WorkflowRunStatus.failed
      → runs (round ∷ rounds) db ≡ (returned 2, round.since db)
  unfolding run_until_terminal
  sees_failed round rounds db run e f s = rw (e, f, s) refl

  breaks_off :
      (round : Round) (rounds : List Round) (db : Db) (run : WorkflowRun) (error : EngineError)
      → stops round ≡ false
      → read round db ≡ ok run
      → run.status ≡ WorkflowRunStatus.running
      → (turned round db).0 ≡ err error
      → runs (round ∷ rounds) db ≡ (raised error, (turned round db).1)
  unfolding run_until_terminal
  breaks_off round rounds db run error e f s t = rw (e, f, s, t) refl

  goes_on :
      (round : Round) (rounds : List Round) (db : Db) (run : WorkflowRun) (outcome : RunOutcome)
      → stops round ≡ false
      → read round db ≡ ok run
      → run.status ≡ WorkflowRunStatus.running
      → (turned round db).0 ≡ ok outcome
      → runs (round ∷ rounds) db ≡ runs rounds (turned round db).1
  unfolding run_until_terminal
  goes_on round rounds db run outcome e f s t = rw (e, f, s, t) refl

  status_cases :
      (status : WorkflowRunStatus)
      → (status ≡ WorkflowRunStatus.completed)
        ⊎ ((status ≡ WorkflowRunStatus.failed) ⊎ (status ≡ WorkflowRunStatus.running))
  status_cases WorkflowRunStatus.completed = inl refl
  status_cases WorkflowRunStatus.failed = inr (inl refl)
  status_cases WorkflowRunStatus.running = inr (inr refl)

  abbrev Fits : Ending × Db → Type 0
  Fits end = Says run_id end.0 end.1

  -- Whatever the rounds bring, `run_until_terminal` returns 0 only where the database then shows the run
  -- COMPLETED, 2 only where it shows it FAILED, and otherwise 3; where the reading of the run raises,
  -- the run cannot be read from that database.
  pub run_until_terminal-Says :
      (rounds : List Round) (db : Db) → Says run_id (runs rounds db).0 (runs rounds db).1
  unfolding run_until_terminal
  run_until_terminal-Says [] db = tt
  run_until_terminal-Says (round ∷ rounds) db = elim (Bool-cases (stops round)) [
    | inl e ↦ subst Fits (sym (gives_up round rounds db e)) tt
    | inr e ↦ elim (Result-cases (read round db)) [
      | inr (error, f) ↦ subst Fits (sym (cannot_read round rounds db error e f)) f
      | inl (run, f) ↦ elim (status_cases run.status) [
        | inl s ↦ subst Fits (sym (sees_completed round rounds db run e f s)) (run, f, s)
        | inr (inl s) ↦ subst Fits (sym (sees_failed round rounds db run e f s)) (run, f, s)
        | inr (inr s) ↦ elim (Result-cases (turned round db).0) [
          | inl (outcome, t) ↦
              subst Fits (sym (goes_on round rounds db run outcome e f s t))
                (run_until_terminal-Says rounds (turned round db).1)
          | inr (error, t) ↦ subst Fits (sym (breaks_off round rounds db run error e f s t)) tt
        ]
      ]
    ]
  ]

  -- When some round finds the deadline passed or a drain requested, `run_until_terminal` ends by then.
  pub run_until_terminal_ends :
      (rounds : List Round) (db : Db) → any stops rounds ≡ true → (runs rounds db).0 ≢ still_running
  unfolding run_until_terminal
  run_until_terminal_ends [] db h end = absurd (cc)
  run_until_terminal_ends (round ∷ rounds) db h end = elim (Bool-cases (stops round)) [
    | inl e ↦ (let last = ap (λ q. q.0) (gives_up round rounds db e) in cc)
    | inr e ↦ elim (Result-cases (read round db)) [
      | inr (error, f) ↦ (let last = ap (λ q. q.0) (cannot_read round rounds db error e f) in cc)
      | inl (run, f) ↦ elim (status_cases run.status) [
        | inl s ↦ (let last = ap (λ q. q.0) (sees_completed round rounds db run e f s) in cc)
        | inr (inl s) ↦ (let last = ap (λ q. q.0) (sees_failed round rounds db run e f s) in cc)
        | inr (inr s) ↦ elim (Result-cases (turned round db).0) [
          | inl (outcome, t) ↦
              run_until_terminal_ends rounds (turned round db).1 (ground (arith, h, e))
                (sym (ap (λ q. q.0) (goes_on round rounds db run outcome e f s t)) ∙ end)
          | inr (error, t) ↦
              (let last = ap (λ q. q.0) (breaks_off round rounds db run error e f s t) in cc)
        ]
      ]
    ]
  ]
