-- ===== src/Storage/Projection/Events.antt =====
-- One more event: the append of storage.py against the fold of history.py.
use crashsafe.Prelude.{
  refl, none, ℕ, ◌+◌, ◌≤◌, String, true, ◌≡◌, some, List, [], ◌∷◌, ◌++◌, arith, ok, str_eq,
  str_eq_self, where_rows,
}
use crashsafe.Models.{EventPayload, WorkflowRun, WorkflowRunEvent}
use crashsafe.History.Payloads.{Pydantic, type_of, supported, parse_payload}
use crashsafe.History.{Cursor, start, next_run, fold_event, fold_events}
use crashsafe.History.Replay.{fold_events-append}
use crashsafe.Storage.Db.{max_sequence}
use crashsafe.Storage.Reads.{events_of}

abbrev pub cursor_at : WorkflowRun → ℕ → Cursor
cursor_at run n = record { run = some run; expected_sequence = n }

-- The events of the run fold to `run`, and the next sequence number is the one that the fold expects.
pub record Tracks (py : Pydantic) (run_id : String) (events : List WorkflowRunEvent)
    (run : WorkflowRun) : Type 0 where
  pub folded :
      fold_events py run_id start (events_of run_id events)
      ≡ ok (cursor_at run (max_sequence run_id events + 1))

pub events_of-append :
    (run_id : String) (events : List WorkflowRunEvent) (event : WorkflowRunEvent)
    → str_eq event.run_id run_id ≡ true
    → events_of run_id (events ++ event ∷ []) ≡ events_of run_id events ++ event ∷ []
unfolding events_of where_rows
events_of-append run_id [] event h = ground arith
events_of-append run_id (e ∷ events) event h =
    ground (arith, events_of-append run_id events event h)

max_sequence-append :
    (run_id : String) (events : List WorkflowRunEvent) (event : WorkflowRunEvent)
    → str_eq event.run_id run_id ≡ true
    → event.sequence ≡ max_sequence run_id events + 1
    → max_sequence run_id (events ++ event ∷ []) ≡ event.sequence
unfolding max_sequence
max_sequence-append run_id events event h s = above events (omega arith)
  where
    above :
        (es : List WorkflowRunEvent)
        → max_sequence run_id es + 1 ≤ event.sequence
        → max_sequence run_id (es ++ event ∷ []) ≡ event.sequence
    above [] b = ground arith
    above (e ∷ es) b = ground (arith, above es)

pub max_sequence_fresh :
    (run_id : String) (events : List WorkflowRunEvent)
    → events_of run_id events ≡ []
    → max_sequence run_id events ≡ 0
unfolding max_sequence events_of where_rows
max_sequence_fresh run_id [] h = refl
max_sequence_fresh run_id (e ∷ events) h = ground (arith, max_sequence_fresh run_id events)

-- The first event of a run.
pub first-Tracks :
    (py : Pydantic) (run_id : String) (events : List WorkflowRunEvent) (event : WorkflowRunEvent)
    (payload : EventPayload) (run : WorkflowRun)
    → events_of run_id events ≡ []
    → event.run_id ≡ run_id
    → event.sequence ≡ max_sequence run_id events + 1
    → supported event.schema_version ≡ true
    → event.event_type ≡ type_of payload
    → event.payload ≡ py.dump payload
    → next_run event.event_type run_id none event payload ≡ ok run
    → Tracks py run_id (events ++ event ∷ []) run
unfolding fold_events fold_event parse_payload
first-Tracks py run_id events event payload run fresh own numbered version kind dumped step =
    record {
      folded =
          let mine : str_eq event.run_id run_id ≡ true = rw own (str_eq_self run_id) in
          let parsed : py.validate event.event_type event.payload ≡ some payload =
            rw (kind, dumped) (py.validate-dump payload) in
          let count = max_sequence-append run_id events event mine numbered in
          let zero' = max_sequence_fresh run_id events fresh in
          rw (events_of-append run_id events event mine, fresh)
            (ground (arith, mine, parsed, count, zero', step));
    }

module _ (py : Pydantic) (run_id : String) (events : List WorkflowRunEvent) (run : WorkflowRun)
    (tracked : Tracks py run_id events run) where
  pub append-Tracks :
      (event : WorkflowRunEvent) (payload : EventPayload) (next : WorkflowRun)
      → event.run_id ≡ run_id
      → event.sequence ≡ max_sequence run_id events + 1
      → supported event.schema_version ≡ true
      → event.event_type ≡ type_of payload
      → event.payload ≡ py.dump payload
      → next_run event.event_type run_id (some run) event payload ≡ ok next
      → Tracks py run_id (events ++ event ∷ []) next
  unfolding fold_events fold_event parse_payload
  append-Tracks event payload next own numbered version kind dumped step = record {
    folded =
        let mine : str_eq event.run_id run_id ≡ true = rw own (str_eq_self run_id) in
        let parsed : py.validate event.event_type event.payload ≡ some payload =
          rw (kind, dumped) (py.validate-dump payload) in
        let count = max_sequence-append run_id events event mine numbered in
        rw (events_of-append run_id events event mine, fold_events-append, tracked.folded)
          (ground (arith, mine, parsed, count, step));
  }
