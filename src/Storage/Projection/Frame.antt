-- ===== src/Storage/Projection/Frame.antt =====
-- Writes to the rows of one run leave another run's rows and events alone.
use crashsafe.Prelude.{
  ℕ, String, false, ◌≡◌, refl, ◌∙◌, arith, Option, List, [], ◌∷◌, ◌++◌, str_eq, str_eq_iff, find?,
  where_rows, update_rows,
}
use crashsafe.Models.{Datetime, EventType, EventPayload, WorkflowRunEvent}
use crashsafe.History.Payloads.{Pydantic}
use crashsafe.Storage.Db.{
  RunRow, StepRow, Db, of_run, is_step, step_rows, find_run, update_step, update_run, dependencies,
  max_sequence, append_event,
}
use crashsafe.Storage.Reads.{events_of}
use crashsafe.Storage.Projection.Rows.{KeepsKeys}
use crashsafe.Storage.Projection.Settled.{Matches}

-- What the agreement of a run reads is the same in two databases.
pub record SameRun (run_id : String) (db after : Db) : Type 0 where
  pub run : find_run after run_id ≡ find_run db run_id
  pub steps : step_rows after run_id ≡ step_rows db run_id
  pub dependencies :
      (step_id : String) → dependencies after run_id step_id ≡ dependencies db run_id step_id
  pub events : events_of run_id after.workflow_run_events ≡ events_of run_id db.workflow_run_events
  pub sequence :
      max_sequence run_id after.workflow_run_events ≡ max_sequence run_id db.workflow_run_events

pub SameRun-refl : (run_id : String) (db : Db) → SameRun run_id db db
SameRun-refl run_id db = record {
  run = refl;
  steps = refl;
  dependencies = λ step_id. refl;
  events = refl;
  sequence = refl;
}

pub SameRun-trans :
    (run_id : String) (a b c : Db) → SameRun run_id a b → SameRun run_id b c → SameRun run_id a c
SameRun-trans run_id a b c p q = record {
  run = q.run ∙ p.run;
  steps = q.steps ∙ p.steps;
  dependencies = λ step_id. q.dependencies step_id ∙ p.dependencies step_id;
  events = q.events ∙ p.events;
  sequence = q.sequence ∙ p.sequence;
}

pub SameRun-Matches :
    (py : Pydantic) (run_id : String) (db after : Db) (run : RunRow)
    → SameRun run_id db after
    → Matches py run_id db run
    → Matches py run_id after run
SameRun-Matches py run_id db after run same m =
    let deps : dependencies after run_id ≡ dependencies db run_id =
      λ i step_id. same.dependencies step_id i in
    record {
      projected = record {
        found = same.run ∙ m.projected.found;
        positions = rw same.steps m.projected.positions;
        distinct = rw same.steps m.projected.distinct;
        known =
            λ step_id x h. rw same.steps (m.projected.known step_id x (rw same.dependencies at h));
        tracked =
            rw (same.steps, deps)
              (record { folded = rw (same.events, same.sequence) m.projected.tracked.folded });
      };
      settled = rw same.steps m.settled;
    }

module _ (run_id other : String) (apart : str_eq other run_id ≡ false) where
  where_rows-update_other :
      (step_id : String) (f : StepRow → StepRow) (keys : KeepsKeys f) (rows : List StepRow)
      → where_rows (of_run run_id) (update_rows (is_step other step_id) f rows)
        ≡ where_rows (of_run run_id) rows
  unfolding where_rows update_rows
  where_rows-update_other step_id f keys [] = refl
  where_rows-update_other step_id f keys (row ∷ rows) = ground (
    arith,
    where_rows-update_other step_id f keys rows,
    keys.run_id row,
    str_eq_iff row.run_id other,
    str_eq_iff row.run_id run_id,
    apart,
  )

  pub update_step-SameRun :
      (step_id : String) (f : StepRow → StepRow)
      → KeepsKeys f
      → (db : Db) → SameRun run_id db (update_step other step_id f db)
  unfolding update_step step_rows find_run dependencies
  update_step-SameRun step_id f keys db = record {
    run = refl;
    steps = where_rows-update_other step_id f keys db.steps;
    dependencies = λ s. refl;
    events = refl;
    sequence = refl;
  }

  find?-update_other :
      (f : RunRow → RunRow)
      → ((row : RunRow) → (f row).run_id ≡ row.run_id)
      → (rows : List RunRow)
      → find?
          (λ (r : RunRow). str_eq r.run_id run_id)
          (update_rows (λ (r : RunRow). str_eq r.run_id other) f rows)
        ≡ find? (λ (r : RunRow). str_eq r.run_id run_id) rows
  unfolding find? update_rows
  find?-update_other f keeps [] = refl
  find?-update_other f keeps (row ∷ rows) = ground (
    arith,
    find?-update_other f keeps rows,
    keeps row,
    str_eq_iff row.run_id other,
    str_eq_iff row.run_id run_id,
    apart,
  )

  pub update_run-SameRun :
      (f : RunRow → RunRow)
      → ((row : RunRow) → (f row).run_id ≡ row.run_id)
      → (db : Db) → SameRun run_id db (update_run other f db)
  unfolding update_run step_rows find_run dependencies
  update_run-SameRun f keeps db = record {
    run = find?-update_other f keeps db.workflow_runs;
    steps = refl;
    dependencies = λ s. refl;
    events = refl;
    sequence = refl;
  }

  events_of-append_other :
      (events : List WorkflowRunEvent) (event : WorkflowRunEvent)
      → event.run_id ≡ other
      → events_of run_id (events ++ event ∷ []) ≡ events_of run_id events
  unfolding events_of where_rows
  events_of-append_other [] event own = ground (arith, own, apart)
  events_of-append_other (e ∷ events) event own =
      ground (arith, events_of-append_other events event own)

  max_sequence-append_other :
      (events : List WorkflowRunEvent) (event : WorkflowRunEvent)
      → event.run_id ≡ other
      → max_sequence run_id (events ++ event ∷ []) ≡ max_sequence run_id events
  unfolding max_sequence
  max_sequence-append_other [] event own = ground (arith, own, apart)
  max_sequence-append_other (e ∷ events) event own =
      ground (arith, max_sequence-append_other events event own)

  pub append_event-SameRun :
      (py : Pydantic) (event_type : EventType) (payload : EventPayload) (at : Datetime)
      (step_id : Option String) (attempt : Option ℕ) (version : ℕ) (db : Db)
      → SameRun run_id db (append_event py other event_type payload at step_id attempt version db)
  unfolding append_event step_rows find_run dependencies
  append_event-SameRun py event_type payload at step_id attempt version db = record {
    run = refl;
    steps = refl;
    dependencies = λ s. refl;
    events = events_of-append_other db.workflow_run_events _ refl;
    sequence = max_sequence-append_other db.workflow_run_events _ refl;
  }
