-- ===== src/Api/Reading.antt =====
-- What the reading handlers answer where the tables agree with the history.
use crashsafe.Prelude.{
  String, List, [], ◌≡◌, ◌≢◌, refl, ap, subst, ◌∙◌, none, ok, Result-cases, inl, inr, arith,
}
use crashsafe.Models.Values.{Json}
use crashsafe.Models.{Datetime, WorkflowDefinition, WorkflowRun, WorkflowRunEvent}
use crashsafe.Models.Graph.{validate_graph}
use crashsafe.Storage.Create.{create_workflow_run}
use crashsafe.Storage.Projection.Creation.{IsFresh}
use crashsafe.Storage.Projection.Lifetime.{Leads, Leads-ProjectionMatchesHistory}
use crashsafe.History.Agreement.{validate_graph_same}
use crashsafe.Models.Timeline.{WorkflowRunTimeline}
use crashsafe.History.Payloads.{Pydantic}
use crashsafe.Storage.Db.{Db}
use crashsafe.Storage.Projection.Match.{ProjectionMatchesHistory}
use crashsafe.Timeline.Reading.{IsTimelineOf, build_timeline-IsTimelineOf}
use crashsafe.Api.{created, found, post_workflow_run, get_run, get_events, get_timeline}

-- Three answers 200 that tell the same story of a run.
pub record Agree (str : Json → String) (py : Pydantic) (run_id : String) (db : Db) : Type 0 where
  pub run : WorkflowRun
  pub events : List WorkflowRunEvent
  pub timeline : WorkflowRunTimeline
  pub run_answer : get_run py run_id db ≡ found run
  pub events_answer : get_events py run_id db ≡ found events
  pub timeline_answer : get_timeline py str run_id db ≡ found timeline
  pub shown : IsTimelineOf str events run timeline

-- Where the projection of a run matches its history, its three resources are answered 200, and the
-- timeline is one of the listed events and of the run that is shown: an entry for each event, the
-- run's status, and the attempts of its steps together.
pub get_timeline-Agree :
    (str : Json → String) (py : Pydantic) (run_id : String) (db : Db)
    → ProjectionMatchesHistory py run_id db
    → Agree str py run_id db
unfolding get_timeline
get_timeline-Agree str py run_id db m =
    let (timeline, built, shown) = build_timeline-IsTimelineOf str py m.events m.run m.reduced in
    record {
      run = m.run;
      events = m.events;
      timeline = timeline;
      run_answer = rw m.read refl;
      events_answer = rw m.listed refl;
      timeline_answer = rw (get_timeline, m.listed, built) refl;
      shown = shown;
    }

module _ (str : Json → String) (py : Pydantic) (run_id : String) (now : Datetime)
    (default_tool_key : String) (definition : WorkflowDefinition) (db : Db) where
  posted-created :
      (run : WorkflowRun)
      → (post_workflow_run py run_id now default_tool_key definition db).0 ≡ created run
      → (validate_graph definition ≡ ok definition)
        × ((create_workflow_run py run_id now default_tool_key definition none db).0 ≡ ok run)
        × ((post_workflow_run py run_id now default_tool_key definition db).1
            ≡ (create_workflow_run py run_id now default_tool_key definition none db).1)
  unfolding post_workflow_run
  posted-created run h = elim (Result-cases (validate_graph definition)) [
    | inr (error, e) ↦ absurd (ground (arith, e))
    | inl (accepted, e) ↦
        elim (Result-cases
          (create_workflow_run py run_id now default_tool_key definition none db).0) [
            | inl (made, f) ↦ (
              e ∙ ap ok (validate_graph_same definition accepted e),
              ground (arith, e, f),
              ground (arith, e, f),
            )
            | inr (error, f) ↦ absurd (ground (arith, e, f))
          ]
  ]

  -- A workflow that is answered 201 under a new run id is one that `validate_graph` accepts, and its
  -- three resources are answered 200 and agree, then and after whatever attempts, retries, failures and
  -- completions of its steps while it is RUNNING, lease calls, rebuilds of its projection and calls on
  -- other runs follow.
  pub post_workflow_run-Agree :
      (run : WorkflowRun) (after : Db)
      → IsFresh run_id db
      → definition.steps ≢ []
      → (post_workflow_run py run_id now default_tool_key definition db).0 ≡ created run
      → Leads py run_id (post_workflow_run py run_id now default_tool_key definition db).1 after
      → (validate_graph definition ≡ ok definition) × Agree str py run_id after
  post_workflow_run-Agree run after fresh nonempty h leads =
      let (accepted, made, left) = posted-created run h in
      (
        accepted,
        get_timeline-Agree str py run_id after (
            Leads-ProjectionMatchesHistory py run_id now default_tool_key definition none db run
              after fresh nonempty accepted made (subst (λ d. Leads py run_id d after) left leads)),
      )
