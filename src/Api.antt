-- ===== src/Api.antt =====
-- crashsafe/api.py: the handlers of the HTTP boundary.
-- FastAPI is not modelled beyond what the handlers rely on: a body that `WorkflowDefinition` refuses
-- and a `limit` outside its bounds are answered 422 before the handler runs, an exception 500.
pub mod Reading
use crashsafe.Prelude.{
  ℕ, String, Bool, true, false, not, ◌||◌, Option, none, List, Result, ok, err, ltb, if◌then◌else◌,
}
use crashsafe.Models.Values.{Json}
use crashsafe.Models.{Datetime, WorkflowDefinition, WorkflowRun, WorkflowRunEvent}
use crashsafe.Models.Graph.{validate_graph}
use crashsafe.Models.Timeline.{WorkflowRunTimeline}
use crashsafe.History.Payloads.{Pydantic}
use crashsafe.Storage.Db.{StorageError, run_not_found, Db}
use crashsafe.Storage.Reads.{get_workflow_run, list_events, list_workflow_runs}
use crashsafe.Storage.Create.{create_workflow_run}
use crashsafe.Timeline.{TimelineError, build_timeline}

pub data Answer {ℓ} (A : Type ℓ) : Type ℓ where
  -- 201
  created : A → Answer A
  -- 200
  found : A → Answer A
  -- 404, "workflow run not found"
  not_found : Answer A
  -- 422
  unprocessable : Answer A
  -- 500
  server_error : Answer A

-- `except WorkflowRunNotFoundError`
abbrev pub answer_read {ℓ} : {A : Type ℓ} → Result StorageError A → Answer A
answer_read (ok a) = found a
answer_read (err run_not_found) = not_found
answer_read (err e) = server_error

module _ (py : Pydantic) where
  -- POST /workflow_runs
  unfoldable pub post_workflow_run :
      String → Datetime → String → WorkflowDefinition → Db → Answer WorkflowRun × Db
  post_workflow_run run_id now default_tool_key definition db =
      let (made, db') = create_workflow_run py run_id now default_tool_key definition none db in
      elim (validate_graph definition) [
        | err e ↦ (unprocessable, db)
        | ok accepted ↦ elim made [ ok run ↦ (created run, db') | err e ↦ (server_error, db') ]
      ]

  -- GET /workflow_runs/{run_id}
  abbrev pub get_run : String → Db → Answer WorkflowRun
  get_run run_id db = answer_read (get_workflow_run db run_id)

  -- GET /workflow_runs
  unfoldable pub get_runs : ℕ → Db → Answer (List WorkflowRun)
  get_runs limit db =
      if ltb limit 1 || ltb 500 limit
      then unprocessable
      else elim (list_workflow_runs db limit) [ ok runs ↦ found runs | err e ↦ server_error ]

  -- GET /workflow_runs/{run_id}/events
  abbrev pub get_events : String → Db → Answer (List WorkflowRunEvent)
  get_events run_id db = answer_read (list_events db run_id)

  abbrev pub answer_timeline : Result TimelineError WorkflowRunTimeline → Answer WorkflowRunTimeline
  answer_timeline (ok timeline) = found timeline
  answer_timeline (err e) = server_error

  -- GET /workflow_runs/{run_id}/timeline
  unfoldable pub get_timeline : (Json → String) → String → Db → Answer WorkflowRunTimeline
  get_timeline str run_id db = elim (list_events db run_id) [
    | ok events ↦ answer_timeline (build_timeline str py events)
    | err run_not_found ↦ not_found
    | err e ↦ server_error
  ]
