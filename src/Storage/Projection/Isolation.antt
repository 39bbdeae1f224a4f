-- ===== src/Storage/Projection/Isolation.antt =====
-- Runs are isolated: a call on one of them leaves every other as it was.
use crashsafe.Prelude.{String, false, ◌≡◌, refl, Option, str_eq}
use crashsafe.Models.{Datetime, WorkflowDefinition}
use crashsafe.History.Payloads.{Pydantic}
use crashsafe.Storage.Db.{Db, dependencies}
use crashsafe.Storage.Reads.{get_workflow_run, list_events}
use crashsafe.Storage.Create.{create_workflow_run}
use crashsafe.Storage.Rebuild.{rebuild_projection}
use crashsafe.Storage.Attempts.{Caller}
use crashsafe.Storage.Projection.Commit.{StepCall, perform}
use crashsafe.Storage.Projection.Frame.{SameRun}
use crashsafe.Storage.Projection.Apart.{perform-SameRun, create_workflow_run-SameRun}
use crashsafe.Storage.Projection.Elsewhere.{rebuild_projection-SameRun}

-- A call on one run: a transition of a step of it, its creation, or its rebuild.
pub data OnRun (py : Pydantic) (run_id : String) (db : Db) : Db → Type 0 where
  transition :
      (step_id : String) (caller : Caller) (call : StepCall)
      → OnRun py run_id db (perform py run_id step_id caller call db)
  creation :
      (now : Datetime) (default_tool_key : String) (definition : WorkflowDefinition)
      (tool_key : Option String)
      → OnRun py run_id db
          (create_workflow_run py run_id now default_tool_key definition tool_key db).1
  rebuild : OnRun py run_id db (rebuild_projection py run_id (λ d. d) db).1

pub OnRun-SameRun :
    (py : Pydantic) (run_id other : String) (db after : Db)
    → str_eq other run_id ≡ false
    → OnRun py other db after
    → SameRun run_id db after
OnRun-SameRun py run_id other db after apart (transition step_id caller call) =
    perform-SameRun py run_id other apart step_id caller call db
OnRun-SameRun py run_id other db after apart (creation now default_tool_key definition tool_key) =
    create_workflow_run-SameRun py run_id other apart now default_tool_key definition tool_key db
OnRun-SameRun py run_id other db after apart rebuild =
    rebuild_projection-SameRun run_id other apart py db

-- Whatever is done to one run, a transition of a step by any caller, its creation or its rebuild,
-- returning or raising, `get_workflow_run` and `list_events` give the same for every other run id
-- as before, errors included.
pub OnRun-reads :
    (py : Pydantic) (run_id other : String) (db after : Db)
    → str_eq other run_id ≡ false
    → OnRun py other db after
    → (get_workflow_run after run_id ≡ get_workflow_run db run_id)
      × (list_events after run_id ≡ list_events db run_id)
unfolding get_workflow_run list_events
OnRun-reads py run_id other db after apart call =
    let same = OnRun-SameRun py run_id other db after apart call in
    let deps : dependencies after run_id ≡ dependencies db run_id =
      λ i step_id. same.dependencies step_id i in
    (rw (same.run, same.steps, deps) refl, rw (list_events, same.events) refl)
