-- ===== src/Timeline/Reading.antt =====
-- What a timeline shows: every event of the history, and the attempts that the run's steps made.
use mathlib.Core.List.{append-nil, append_assoc}
use crashsafe.Prelude.{
  ◌+◌, ◌≤◌, String, ◌≡◌, refl, sym, subst, Option, none, some, List, [], ◌∷◌, ◌++◌, arith, ok,
  ok_injective, >>=-eq-ok,
}
use crashsafe.Models.Values.{Json}
use crashsafe.Models.{Datetime, EventPayload, WorkflowRun, WorkflowRunEvent}
use crashsafe.Models.Timeline.{TimelineEntry, WorkflowRunTimeline}
use crashsafe.History.Payloads.{Pydantic, parse_payload}
use crashsafe.History.{Cursor, start, fold_event, fold_events, reduce_workflow_run_history}
use crashsafe.History.Replay.{reduce_cases}
use crashsafe.History.Counts.{sum_of, attempts_of, open_attempt, sum_on, fold_event-Counts}
use crashsafe.Timeline.{
  Progress, no_progress, entry_of, view_event, add_event, add_events, timeline_of, build_timeline,
}
use crashsafe.Timeline.Entries.{AllShow, Viewed, view_event-Viewed, append-AllShow}

module _ (str : Json → String) where
  module _ (py : Pydantic) (rebuilt : WorkflowRun) (origin : Datetime) where
    -- The loop beside the reducer's: it raises nothing, shows every event, and counts the attempts that
    -- the steps make.
    record Read (done events : List WorkflowRunEvent) (progress : Progress)
        (before after : Option WorkflowRun) : Type 0 where
      last : Progress
      read : add_events str py rebuilt origin progress events ≡ ok last
      shown : AllShow (done ++ events) last.entries
      attempts :
          last.attempts + sum_on attempts_of before ≡ progress.attempts + sum_on attempts_of after
      retries :
          last.retries + sum_on open_attempt after + progress.attempts
          ≤ progress.retries + sum_on open_attempt before + last.attempts

    add_event-viewed :
        (progress : Progress) (event : WorkflowRunEvent) (payload : EventPayload)
        (entry : TimelineEntry) (after : Progress)
        → parse_payload py event.event_type event.payload ≡ some payload
        → view_event str event.event_type rebuilt event payload
            (entry_of rebuilt origin event)
            progress
          ≡ ok (entry, after)
        → add_event str py rebuilt origin progress event
          ≡ ok (record after { entries = after.entries ++ entry ∷ [] })
    unfolding add_event parse_payload
    add_event-viewed progress event payload entry after parsed viewed = rw (parsed, viewed) refl

    add_events-Read :
        (run_id : String) (cursor : Cursor) (done events : List WorkflowRunEvent) (after : Cursor)
        (progress : Progress)
        → fold_events py run_id cursor events ≡ ok after
        → AllShow done progress.entries
        → Read done events progress cursor.run after.run
    unfolding fold_events add_events add_event parse_payload
    add_events-Read run_id cursor done [] after progress h shown =
        let same : cursor ≡ after = ok_injective h in
        record {
          last = progress;
          read = refl;
          shown = subst (λ es. AllShow es progress.entries) (sym (append-nil done)) shown;
          attempts = rw same refl;
          retries = rw same (omega arith);
        }
    add_events-Read run_id cursor done (event ∷ events) after progress h shown =
        let (middle, e, rest) = >>=-eq-ok (fold_event py run_id cursor event) _ h in
        let (payload, next, parsed, kind, same, counts) =
          fold_event-Counts py run_id cursor event middle e in
        let viewed =
          subst (λ t. Viewed str t rebuilt origin event payload progress) kind
            (view_event-Viewed str rebuilt origin event payload progress) in
        let moved : Progress = record viewed.after {
          entries = viewed.after.entries ++ viewed.entry ∷ [];
        } in
        let one : add_event str py rebuilt origin progress event ≡ ok moved =
          add_event-viewed progress event payload viewed.entry viewed.after parsed viewed.viewed in
        let more : AllShow (done ++ event ∷ []) moved.entries =
          rw viewed.entries
            (append-AllShow str done progress.entries event viewed.entry shown viewed.shows) in
        let ih = add_events-Read run_id middle (done ++ event ∷ []) events after moved rest more in
        let a : sum_on attempts_of middle.run ≡ sum_of attempts_of next.steps = rw same refl in
        let o : sum_on open_attempt middle.run ≡ sum_of open_attempt next.steps = rw same refl in
        record {
          last = ih.last;
          read = rw one ih.read;
          shown =
              subst (λ es. AllShow es ih.last.entries) (append_assoc done (event ∷ []) events)
                ih.shown;
          attempts = omega (arith, ih.attempts, a, counts.attempts, viewed.attempts);
          retries = omega (
            arith, ih.retries, ih.attempts, a, o, counts.attempts, counts.retries, viewed.attempts,
            viewed.retries,
          );
        }

  last_of :
      (py : Pydantic) (events : List WorkflowRunEvent) (run : WorkflowRun)
      → reduce_workflow_run_history py events ≡ ok run
      → (first : WorkflowRunEvent) × (rest : List WorkflowRunEvent) × (events ≡ first ∷ rest)
        × Read py run first.occurred_at [] events no_progress none (some run)
  last_of py events run h =
      let (first, rest, cursor, split, folded, same, final) = reduce_cases py events run h in
      (
        first,
        rest,
        split,
        subst (Read py run first.occurred_at [] events no_progress none) same (
            add_events-Read py run first.occurred_at first.run_id start [] events cursor no_progress
              folded tt),
      )

  -- What the timeline of an accepted history says.
  pub record IsTimelineOf (events : List WorkflowRunEvent) (run : WorkflowRun)
      (timeline : WorkflowRunTimeline) : Type 0 where
    pub entries : AllShow events timeline.entries
    pub status : timeline.summary.status ≡ run.status
    pub attempts : timeline.summary.attempts ≡ sum_of attempts_of run.steps
    pub retries : timeline.summary.retries ≤ timeline.summary.attempts

  -- From every history that the reducer accepts, `build_timeline` builds a timeline and raises nothing:
  -- it has one entry for each event, in their order and with the event's number, time, type, step and
  -- attempt; its status is that of the rebuilt run; its attempts are those of the run's steps together;
  -- and it counts no more retries than attempts.
  pub build_timeline-IsTimelineOf :
      (py : Pydantic) (events : List WorkflowRunEvent) (run : WorkflowRun)
      → reduce_workflow_run_history py events ≡ ok run
      → (timeline : WorkflowRunTimeline) × (build_timeline str py events ≡ ok timeline)
        × IsTimelineOf events run timeline
  unfolding build_timeline
  build_timeline-IsTimelineOf py events run h =
      let (first, rest, split, read) = last_of py events run h in
      let reduced : reduce_workflow_run_history py (first ∷ rest) ≡ ok run =
        subst (λ es. reduce_workflow_run_history py es ≡ ok run) split h in
      let added : add_events str py run first.occurred_at no_progress (first ∷ rest)
          ≡ ok read.last =
        subst (λ es. add_events str py run first.occurred_at no_progress es ≡ ok read.last) split
          read.read in
      (
        timeline_of first rest run read.last,
        subst (λ es. build_timeline str py es ≡ ok (timeline_of first rest run read.last))
            (sym split) (rw (reduced, added) refl),
        record {
          entries = read.shown;
          status = refl;
          attempts = omega (arith, read.attempts);
          retries = omega (arith, read.attempts, read.retries);
        },
      )
