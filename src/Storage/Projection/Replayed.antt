-- ===== src/Storage/Projection/Replayed.antt =====
-- What `rebuild_projection` reads: the listed events of a run and the run that they reduce to.
use crashsafe.Prelude.{
  String, ◌≡◌, refl, sym, ap, subst, ◌∙◌, List, [], ◌∷◌, ok, err, >>=-eq-ok, ok_injective, Result,
  str_eq, str_eq_iff, Bool-cases, inl, inr, All, where_rows, leb,
}
use crashsafe.Models.{WorkflowRunCreatedPayload, WorkflowRun, WorkflowRunEvent}
use crashsafe.History.Definitions.{HistoryIntegrityError}
use crashsafe.History.Payloads.{Pydantic}
use crashsafe.History.{reduce_workflow_run_history}
use crashsafe.History.Replay.{reduce_cases}
use crashsafe.History.Shape.{fold_events-run_id}
use crashsafe.Storage.Db.{Db, RunRow, step_rows, dependencies, workflow_run_from_rows}
use crashsafe.Storage.Reads.{
  get_workflow_run, nonempty, list_events, events_of, insert_by_sequence, order_by_sequence,
}
use crashsafe.Storage.Rebuild.{delete_run, raised_history, creation_of, replayed}
use crashsafe.Storage.Projection.Match.{order_by_position-id, Matches-history}
use crashsafe.Storage.Projection.Settled.{Matches}
use crashsafe.Storage.Projection.Events.{Tracks}
use crashsafe.Storage.Projection.Restored.{restored}

abbrev pub IsOf : String → WorkflowRunEvent → Type 0
IsOf run_id e = e.run_id ≡ run_id

events_of-IsOf :
    (run_id : String) (events : List WorkflowRunEvent) → All (IsOf run_id) (events_of run_id events)
unfolding events_of where_rows
events_of-IsOf run_id [] = tt
events_of-IsOf run_id (e ∷ events) = elim (Bool-cases (str_eq e.run_id run_id)) [
  | inl h ↦ rw h ((str_eq_iff e.run_id run_id).0 h, events_of-IsOf run_id events)
  | inr h ↦ rw h (events_of-IsOf run_id events)
]

insert_by_sequence-IsOf :
    (run_id : String) (event : WorkflowRunEvent) (events : List WorkflowRunEvent)
    → IsOf run_id event
    → All (IsOf run_id) events
    → All (IsOf run_id) (insert_by_sequence event events)
unfolding insert_by_sequence
insert_by_sequence-IsOf run_id event [] h hs = (h, tt)
insert_by_sequence-IsOf run_id event (e ∷ events) h hs =
    elim (Bool-cases (leb event.sequence e.sequence)) [
      | inl le ↦ rw le (h, hs)
      | inr gt ↦ rw gt (hs.0, insert_by_sequence-IsOf run_id event events h hs.1)
    ]

order_by_sequence-IsOf :
    (run_id : String) (events : List WorkflowRunEvent)
    → All (IsOf run_id) events
    → All (IsOf run_id) (order_by_sequence events)
unfolding order_by_sequence
order_by_sequence-IsOf run_id [] h = tt
order_by_sequence-IsOf run_id (e ∷ events) h =
    insert_by_sequence-IsOf run_id e (order_by_sequence events) h.0
      (order_by_sequence-IsOf run_id events h.1)

nonempty_same : (xs events : List WorkflowRunEvent) → nonempty xs ≡ ok events → xs ≡ events
nonempty_same [] events h = absurd (cc)
nonempty_same (x ∷ xs) events h = ok_injective h

pub list_events-IsOf :
    (db : Db) (run_id : String) (events : List WorkflowRunEvent)
    → list_events db run_id ≡ ok events
    → All (IsOf run_id) events
unfolding list_events
list_events-IsOf db run_id events h =
    let sorted =
      order_by_sequence-IsOf run_id (events_of run_id db.workflow_run_events)
        (events_of-IsOf run_id db.workflow_run_events) in
    let same : order_by_sequence (events_of run_id db.workflow_run_events) ≡ events =
      nonempty_same _ events h in
    subst (All (IsOf run_id)) same sorted

-- The run rebuilt from the events of a run has its id.
pub reduced-run_id :
    (py : Pydantic) (run_id : String) (events : List WorkflowRunEvent) (run : WorkflowRun)
    → All (IsOf run_id) events
    → reduce_workflow_run_history py events ≡ ok run
    → run.run_id ≡ run_id
reduced-run_id py run_id events run own h =
    let (first, rest, cursor, split, folded, same, _) = reduce_cases py events run h in
    let head : first.run_id ≡ run_id = (subst (All (IsOf run_id)) split own).0 in
    fold_events-run_id py first.run_id events cursor run folded same ∙ head

raised_history-ok {ℓ} :
    {A : Type ℓ} (r : Result HistoryIntegrityError A) (a : A) → raised_history r ≡ ok a → r ≡ ok a
raised_history-ok (ok b) a h = ap ok (ok_injective h)
raised_history-ok (err e) a h = absurd (cc)

-- What was replayed is the run that the listed events reduce to.
pub replayed_cases :
    (py : Pydantic) (run_id : String) (db : Db) (rebuilt : WorkflowRun)
    (created : WorkflowRunCreatedPayload)
    → replayed py run_id db ≡ ok (rebuilt, created)
    → (events : List WorkflowRunEvent) × (list_events db run_id ≡ ok events)
      × (reduce_workflow_run_history py events ≡ ok rebuilt)
replayed_cases py run_id db rebuilt created read =
    let (events, a, h₁) = >>=-eq-ok (list_events db run_id) _ read in
    let (run, b, h₂) = >>=-eq-ok (raised_history (reduce_workflow_run_history py events)) _ h₁ in
    let (payload, c, h₃) = >>=-eq-ok (creation_of py events) _ h₂ in
    let same : run ≡ rebuilt =
      ap (λ (q : WorkflowRun × WorkflowRunCreatedPayload). q.0) (ok_injective h₃) in
    (events, a, raised_history-ok (reduce_workflow_run_history py events) rebuilt (b ∙ ap ok same))

Matches-get_workflow_run :
    (py : Pydantic) (run_id : String) (db : Db) (row : RunRow)
    → Matches py run_id db row
    → get_workflow_run db run_id
      ≡ ok (workflow_run_from_rows row (step_rows db run_id) (dependencies db run_id))
unfolding get_workflow_run
Matches-get_workflow_run py run_id db row m =
    rw (m.projected.found, order_by_position-id 0 (step_rows db run_id) m.projected.positions) refl

-- Where the tables agree, the run that is replayed is the one that they show.
pub replayed-Tracks :
    (py : Pydantic) (run_id : String) (db : Db) (row : RunRow)
    → Matches py run_id db row
    → (events : List WorkflowRunEvent) (rebuilt : WorkflowRun) → list_events db run_id ≡ ok events
    → reduce_workflow_run_history py events ≡ ok rebuilt
    → Tracks py run_id db.workflow_run_events rebuilt
unfolding get_workflow_run
replayed-Tracks py run_id db row m events rebuilt listed reduced =
    let agreed = Matches-history py run_id db row m in
    let same_events : agreed.events ≡ events = ok_injective (sym agreed.listed ∙ listed) in
    let same_run : agreed.run ≡ rebuilt =
      ok_injective
        (sym agreed.reduced ∙ ap (reduce_workflow_run_history py) same_events ∙ reduced) in
    let view = workflow_run_from_rows row (step_rows db run_id) (dependencies db run_id) in
    let shown : view ≡ agreed.run =
      ok_injective (sym (Matches-get_workflow_run py run_id db row m) ∙ agreed.read) in
    subst (Tracks py run_id db.workflow_run_events) (shown ∙ same_run) m.projected.tracked

pub restored-list_events :
    (run_id : String) (run : WorkflowRun) (created : WorkflowRunCreatedPayload) (db : Db)
    → list_events (restored run_id run created db) run_id ≡ list_events db run_id
unfolding list_events delete_run
restored-list_events run_id run created db = refl
