-- ===== src/Timeline/Entries.antt =====
-- The entries of a timeline, and what each branch of `build_timeline` does.
use crashsafe.Prelude.{◌+◌, String, ◌≡◌, refl, List, [], ◌∷◌, ◌++◌, arith, ok}
use crashsafe.Models.Values.{Json}
use crashsafe.Models.{
  Datetime, EventType, EventPayload, created_payload, attempt_payload, retry_payload,
  completed_payload, failed_payload, run_completed_payload, run_failed_payload, WorkflowRun,
  WorkflowRunEvent,
}
use crashsafe.Models.Timeline.{TimelineEntry}
use crashsafe.History.Payloads.{type_of}
use crashsafe.History.Counts.{is_attempt, is_retry}
use crashsafe.Timeline.{Progress, entry_of, view_event}

-- An entry shows its event.
pub record Shows (event : WorkflowRunEvent) (entry : TimelineEntry) : Type 0 where
  pub sequence : entry.sequence ≡ event.sequence
  pub occurred_at : entry.occurred_at ≡ event.occurred_at
  pub event_type : entry.event_type ≡ event.event_type
  pub step_id : entry.step_id ≡ event.step_id
  pub attempt : entry.attempt ≡ event.attempt

-- One entry for each event, in their order.
abbrev pub AllShow : List WorkflowRunEvent → List TimelineEntry → Type 0
AllShow [] [] = Unit
AllShow (event ∷ events) (entry ∷ entries) = Shows event entry × AllShow events entries
AllShow _ _ = ⊥

module _ (str : Json → String) where
  -- What a branch does, on the payload of its class.
  pub record Viewed (event_type : EventType) (rebuilt : WorkflowRun) (origin : Datetime)
      (event : WorkflowRunEvent) (payload : EventPayload) (progress : Progress) : Type 0 where
    pub entry : TimelineEntry
    pub after : Progress
    pub viewed :
        view_event str event_type rebuilt event payload (entry_of rebuilt origin event) progress
        ≡ ok (entry, after)
    pub shows : Shows event entry
    pub attempts : after.attempts ≡ progress.attempts + is_attempt event_type
    pub retries : after.retries ≡ progress.retries + is_retry event_type
    pub entries : after.entries ≡ progress.entries

  pub view_event-Viewed :
      (rebuilt : WorkflowRun) (origin : Datetime) (event : WorkflowRunEvent)
      (payload : EventPayload) (progress : Progress)
      → Viewed (type_of payload) rebuilt origin event payload progress
  unfolding view_event
  view_event-Viewed rebuilt origin event (created_payload created) progress = record {
    entry = _;
    after = _;
    viewed = refl;
    shows = ground arith;
    attempts = omega arith;
    retries = omega arith;
    entries = refl;
  }
  view_event-Viewed rebuilt origin event (attempt_payload started) progress = record {
    entry = _;
    after = _;
    viewed = refl;
    shows = ground arith;
    attempts = omega arith;
    retries = omega arith;
    entries = refl;
  }
  view_event-Viewed rebuilt origin event (retry_payload error next) progress = record {
    entry = _;
    after = _;
    viewed = refl;
    shows = ground arith;
    attempts = omega arith;
    retries = omega arith;
    entries = refl;
  }
  view_event-Viewed rebuilt origin event (completed_payload output) progress = record {
    entry = _;
    after = _;
    viewed = refl;
    shows = ground arith;
    attempts = omega arith;
    retries = omega arith;
    entries = refl;
  }
  view_event-Viewed rebuilt origin event (failed_payload error) progress = record {
    entry = _;
    after = _;
    viewed = refl;
    shows = ground arith;
    attempts = omega arith;
    retries = omega arith;
    entries = refl;
  }
  view_event-Viewed rebuilt origin event run_completed_payload progress = record {
    entry = _;
    after = _;
    viewed = refl;
    shows = ground arith;
    attempts = omega arith;
    retries = omega arith;
    entries = refl;
  }
  view_event-Viewed rebuilt origin event (run_failed_payload step_id error) progress = record {
    entry = _;
    after = _;
    viewed = refl;
    shows = ground arith;
    attempts = omega arith;
    retries = omega arith;
    entries = refl;
  }

  pub append-AllShow :
      (events : List WorkflowRunEvent) (entries : List TimelineEntry) (event : WorkflowRunEvent)
      (entry : TimelineEntry)
      → AllShow events entries
      → Shows event entry
      → AllShow (events ++ event ∷ []) (entries ++ entry ∷ [])
  append-AllShow [] [] event entry h s = (s, tt)
  append-AllShow (e ∷ es) (n ∷ ns) event entry h s = (h.0, append-AllShow es ns event entry h.1 s)
  append-AllShow [] (n ∷ ns) event entry h s = elim h [ ]
  append-AllShow (e ∷ es) [] event entry h s = elim h [ ]
