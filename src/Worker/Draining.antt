-- ===== src/Worker/Draining.antt =====
-- A requested drain of `run_forever`.
use crashsafe.Prelude.{
  String, true, false, ◌≡◌, refl, sym, ap, ◌∙◌, List, [], ◌∷◌, ◌++◌, Result, ok, err, Bool-cases,
  Result-cases, inl, inr,
}
use crashsafe.Models.Values.{Json}
use crashsafe.Models.{ToolResult}
use crashsafe.History.Payloads.{Pydantic}
use crashsafe.Storage.Db.{Db}
use crashsafe.Engine.{EngineError, Settings, RunOutcome}
use crashsafe.Worker.{Round, Ending, returned, raised, still_running, turn, run_forever}

module _ (py : Pydantic) (dump_result : ToolResult → Json) (settings : Settings)
    (worker_id : String) where
  abbrev runs : List Round → Db → Ending × Db
  runs = run_forever py dump_result settings worker_id

  abbrev turned : Round → Db → Result EngineError RunOutcome × Db
  turned round db = turn py dump_result settings worker_id round (round.since db)

  -- The three ways of one turn.
  drained :
      (round : Round) (rounds : List Round) (db : Db)
      → round.drain_requested ≡ true
      → runs (round ∷ rounds) db ≡ (returned 0, round.since db)
  unfolding run_forever
  drained round rounds db e = rw e refl

  goes_on :
      (round : Round) (rounds : List Round) (db : Db) (outcome : RunOutcome)
      → round.drain_requested ≡ false
      → (turned round db).0 ≡ ok outcome
      → runs (round ∷ rounds) db ≡ runs rounds (turned round db).1
  unfolding run_forever
  goes_on round rounds db outcome e f = rw (e, f) refl

  breaks_off :
      (round : Round) (rounds : List Round) (db : Db) (error : EngineError)
      → round.drain_requested ≡ false
      → (turned round db).0 ≡ err error
      → runs (round ∷ rounds) db ≡ (raised error, (turned round db).1)
  unfolding run_forever
  breaks_off round rounds db error e f = rw (e, f) refl

  -- A worker that a number of turns left running, and that meets a drain request next, stops with the
  -- database as those turns and the other processes left it: every turn that it began was finished, and
  -- no step is claimed after the request, whatever rounds would have followed.
  pub run_forever-drains :
      (rounds later : List Round) (drain : Round) (db db' : Db)
      → run_forever py dump_result settings worker_id rounds db ≡ (still_running, db')
      → drain.drain_requested ≡ true
      → run_forever py dump_result settings worker_id (rounds ++ drain ∷ later) db
        ≡ (returned 0, drain.since db')
  unfolding run_forever
  run_forever-drains [] later drain db db' h d =
      let same : db ≡ db' = ap (λ q. q.1) h in
      drained drain later db d ∙ ap (λ q. (returned 0, drain.since q)) same
  run_forever-drains (round ∷ rounds) later drain db db' h d =
      elim (Bool-cases round.drain_requested) [
        | inl e ↦ absurd (
            let stopped = sym (drained round rounds db e) ∙ h in
            let ended : returned 0 ≡ still_running = ap (λ q. q.0) stopped in cc)
        | inr e ↦ elim (Result-cases (turned round db).0) [
          | inl (outcome, f) ↦
              goes_on round (rounds ++ drain ∷ later) db outcome e f
              ∙ run_forever-drains rounds later drain (turned round db).1 db'
                  (sym (goes_on round rounds db outcome e f) ∙ h) d
          | inr (error, f) ↦ absurd (
              let stopped = sym (breaks_off round rounds db error e f) ∙ h in
              let ended : raised error ≡ still_running = ap (λ q. q.0) stopped in cc)
        ]
      ]
