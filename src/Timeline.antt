-- ===== src/Timeline.antt =====
-- crashsafe/observability.py: `build_timeline`.
-- `str` is Python's `str` of a decoded JSON value that is not a text.
pub mod Entries
pub mod Reading
pub mod Rendering
pub mod Width
use Prim.Native.String.{◌++◌ as str_append}
use crashsafe.Prelude.{
  int_eq, ℕ, suc, ◌+◌, ◌-◌, ◌/◌, ◌%◌, String, Bool, true, false, not, ◌&&◌, ◌||◌, Option, none,
  some, List, [], ◌∷◌, ◌++◌, map, Result, ok, err, ◌>>=◌, or_raise, ltb, leb, ◌==◌, str_eq, length,
  if◌then◌else◌, ℤ, pos, negate, not_below_zero, decimal, lookup, put, put_default,
}
use crashsafe.Models.Values.{
  Json, null, boolean, integer, real, string, array, object, Items, nil, cons, Fields, end, field,
}
use crashsafe.Models.{
  Datetime, EventType, workflow_run_created, step_attempt_started, step_retry_scheduled,
  step_completed, step_failed, workflow_run_completed, workflow_run_failed, StepName,
  StepAttemptStartedPayload, EventPayload, attempt_payload, retry_payload, completed_payload,
  failed_payload, StepRecord, WorkflowRun, WorkflowRunEvent,
}
use crashsafe.Models.Timeline.{TimelineEntry, TimelineSummary, WorkflowRunTimeline}
use crashsafe.History.Definitions.{HistoryIntegrityError}
use crashsafe.History.Payloads.{Pydantic, parse_payload}
use crashsafe.History.{reduce_workflow_run_history}

pub data TimelineError : Type 0 where
  -- ValueError: no events
  no_events : TimelineError
  history_refused : HistoryIntegrityError → TimelineError
  -- pydantic.ValidationError
  payload_refused : TimelineError
  -- TypeError of `_as`
  other_payload : TimelineError

-- `round` of a number of microseconds over a thousand: to the nearest, and of two to the even one
unfoldable pub rounded : ℕ → ℕ
rounded n =
    let whole = n / 1000 in
    let rest = n % 1000 in
    if ltb rest 500 || (rest == 500 && whole % 2 == 0) then whole else suc whole

-- `_milliseconds(later - earlier)`
abbrev pub milliseconds : Datetime → Datetime → ℤ
milliseconds later earlier =
    if leb earlier later
    then pos (rounded (later - earlier))
    else negate (rounded (earlier - later))

-- `_as`, at each class
abbrev pub as_started : EventPayload → Result TimelineError StepAttemptStartedPayload
as_started (attempt_payload started) = ok started
as_started _ = err other_payload

abbrev pub as_retry : EventPayload → Result TimelineError (String × Datetime)
as_retry (retry_payload error next_attempt_at) = ok (error, next_attempt_at)
as_retry _ = err other_payload

abbrev pub as_completed : EventPayload → Result TimelineError Json
as_completed (completed_payload output) = ok output
as_completed _ = err other_payload

abbrev pub as_failed : EventPayload → Result TimelineError String
as_failed (failed_payload error) = ok error
as_failed _ = err other_payload

unfoldable pub field_in : String → Fields → Option Json
field_in key end = none
field_in key (field k value rest) = if str_eq k key then some value else field_in key rest

-- `value.get(key, default)` of a dictionary
abbrev pub get_or : Json → String → Json → Json
get_or (object fields) key default = elim (field_in key fields) [ none ↦ default | some v ↦ v ]
get_or _ key default = default

-- `bool(value)`; a number is false where its literal is a zero
abbrev pub truthy : Json → Bool
truthy null = false
truthy (boolean b) = b
truthy (integer n) = not (int_eq n (pos 0))
truthy (real x) = not (int_eq x (pos 0))
truthy (string s) = not (str_eq s "")
truthy (array nil) = false
truthy (array (cons item items)) = true
truthy (object end) = false
truthy (object (field key value rest)) = true

-- The `operations` dictionary.
abbrev pub operation_in : List StepRecord → Option String → Option StepName
operation_in steps none = lookup "" (map (λ (s : StepRecord). (s.id, s.operation)) steps)
operation_in steps (some step_id) =
    lookup step_id (map (λ (s : StepRecord). (s.id, s.operation)) steps)

-- The loop's variables.
pub record Progress : Type 0 where
  pub entries : List TimelineEntry
  pub attempts : ℕ
  pub retries : ℕ
  pub planned_wait_ms : ℕ
  pub first_attempt_at : List (String × Datetime)
  pub step_duration_ms : List (String × ℤ)

abbrev pub no_progress : Progress
no_progress = record {
  entries = [];
  attempts = 0;
  retries = 0;
  planned_wait_ms = 0;
  first_attempt_at = [];
  step_duration_ms = [];
}

-- `values` before the branches
abbrev pub entry_of : WorkflowRun → Datetime → WorkflowRunEvent → TimelineEntry
entry_of rebuilt origin event = record {
  sequence = event.sequence;
  elapsed_ms = milliseconds event.occurred_at origin;
  occurred_at = event.occurred_at;
  event_type = event.event_type;
  step_id = event.step_id;
  operation = operation_in rebuilt.steps event.step_id;
  attempt = event.attempt;
  worker_id = none;
  fence_token = none;
  wait_ms = none;
  detail = none;
}

abbrev pub note_first :
    Option String → Datetime → List (String × Datetime) → List (String × Datetime)
note_first none at firsts = firsts
note_first (some step_id) at firsts = put_default step_id at firsts

abbrev pub note_duration :
    Option String → Datetime → List (String × Datetime) → List (String × ℤ) → List (String × ℤ)
note_duration none at firsts durations = durations
note_duration (some step_id) at firsts durations = elim (lookup step_id firsts) [
  | none ↦ durations
  | some first ↦ put step_id (milliseconds at first) durations
]

abbrev pub last_at : Datetime → List WorkflowRunEvent → Datetime
last_at at [] = at
last_at at (event ∷ events) = last_at event.occurred_at events

abbrev pub refuse {ℓ} : {A : Type ℓ} → Result HistoryIntegrityError A → Result TimelineError A
refuse (ok a) = ok a
refuse (err e) = err (history_refused e)

-- the `return` of `build_timeline`
abbrev pub timeline_of :
    WorkflowRunEvent → List WorkflowRunEvent → WorkflowRun → Progress → WorkflowRunTimeline
timeline_of first rest rebuilt viewed = record {
  run_id = first.run_id;
  entries = viewed.entries;
  summary = record {
    status = rebuilt.status;
    duration_ms = milliseconds (last_at first.occurred_at rest) first.occurred_at;
    attempts = viewed.attempts;
    retries = viewed.retries;
    planned_wait_ms = viewed.planned_wait_ms;
    step_duration_ms = viewed.step_duration_ms;
  };
}

module _ (str : Json → String) where
  abbrev pub text_of : Json → String
  text_of (string s) = s
  text_of value = str value

  unfoldable pub completion_detail : Json → String
  completion_detail output =
      let reference = get_or output "reference_id" (get_or output "receipt" (string "persisted")) in
      let suffix =
        if truthy (get_or output "deduplicated" (boolean false)) then " deduplicated" else "" in
      str_append "result=" (str_append (text_of reference) suffix)

  -- The branches: the entry of the event, and the variables after it.
  unfoldable pub view_event :
      EventType
      → WorkflowRun
      → WorkflowRunEvent
      → EventPayload
      → TimelineEntry
      → Progress
      → Result TimelineError (TimelineEntry × Progress)
  view_event workflow_run_created rebuilt event payload entry progress = ok (
    record entry {
      detail = some (str_append (decimal (length rebuilt.steps)) " materialized steps persisted");
    },
    progress,
  )
  view_event step_attempt_started rebuilt event payload entry progress = do
    started ← as_started payload
    ok (
      record entry {
        worker_id = started.worker_id;
        fence_token = started.fence_token;
        detail = some (str_append "intent persisted; key=" started.operation_key);
      },
      record progress {
        attempts = progress.attempts + 1;
        first_attempt_at = note_first event.step_id event.occurred_at progress.first_attempt_at;
      },
    )
  view_event step_retry_scheduled rebuilt event payload entry progress = do
    retry ← as_retry payload
    ok (
      record entry {
        wait_ms = some (not_below_zero (milliseconds retry.1 event.occurred_at));
        detail = some retry.0;
      },
      record progress {
        retries = progress.retries + 1;
        planned_wait_ms =
            progress.planned_wait_ms + not_below_zero (milliseconds retry.1 event.occurred_at);
      },
    )
  view_event step_completed rebuilt event payload entry progress = do
    output ← as_completed payload
    ok (
      record entry { detail = some (completion_detail output) },
      record progress {
        step_duration_ms =
            note_duration event.step_id event.occurred_at progress.first_attempt_at
              progress.step_duration_ms;
      },
    )
  view_event step_failed rebuilt event payload entry progress = do
    error ← as_failed payload
    ok (record entry { detail = some error }, progress)
  view_event workflow_run_completed rebuilt event payload entry progress =
      ok (record entry { detail = some "all committed steps complete" }, progress)
  view_event workflow_run_failed rebuilt event payload entry progress = ok (
    record entry {
      detail = some (text_of (get_or event.payload "error" (string "workflow run failed")));
    },
    progress,
  )

  module _ (py : Pydantic) (rebuilt : WorkflowRun) (origin : Datetime) where
    -- The body of the loop.
    unfoldable pub add_event : Progress → WorkflowRunEvent → Result TimelineError Progress
    unfolding parse_payload
    add_event progress event = do
      payload ← or_raise (parse_payload py event.event_type event.payload) payload_refused
      viewed ←
          view_event event.event_type rebuilt event payload (entry_of rebuilt origin event) progress
      ok (record viewed.1 { entries = viewed.1.entries ++ viewed.0 ∷ [] })

    unfoldable pub add_events : Progress → List WorkflowRunEvent → Result TimelineError Progress
    add_events progress [] = ok progress
    add_events progress (event ∷ events) = do
      next ← add_event progress event
      add_events next events

  unfoldable pub build_timeline :
      Pydantic → List WorkflowRunEvent → Result TimelineError WorkflowRunTimeline
  build_timeline py [] = err no_events
  build_timeline py (first ∷ rest) = do
    rebuilt ← refuse (reduce_workflow_run_history py (first ∷ rest))
    viewed ← add_events py rebuilt first.occurred_at no_progress (first ∷ rest)
    ok (timeline_of first rest rebuilt viewed)
