-- ===== src/Storage/Projection/Recovery.antt =====
-- `rebuild_projection` makes the projection the run that the history reduces to.
use crashsafe.Prelude.{
  String, ◌≡◌, refl, sym, ap, subst, ◌∙◌, List, ok, err, ok_injective, Result, Result-cases, inl,
  inr,
}
use crashsafe.Models.{WorkflowRunCreatedPayload, WorkflowRun, WorkflowRunEvent}
use crashsafe.History.{reduce_workflow_run_history}
use crashsafe.History.Payloads.{Pydantic}
use crashsafe.History.Replay.{reduce_cases}
use crashsafe.History.Shape.{reduce-HasDefinitions}
use crashsafe.Storage.Db.{StorageError, Db, RunRow, transaction}
use crashsafe.Storage.Reads.{get_workflow_run, list_events}
use crashsafe.Storage.Rebuild.{rebuilt_run, rebuild_body, replayed, rebuild_projection}
use crashsafe.Storage.Projection.Match.{ProjectionMatchesHistory}
use crashsafe.Storage.Projection.Settled.{Matches}
use crashsafe.Storage.Projection.Restored.{restored, rebuild_body-restored}
use crashsafe.Storage.Projection.Rebuilding.{restored-Matches, restored-get_workflow_run}
use crashsafe.Storage.Projection.Replayed.{
  list_events-IsOf, reduced-run_id, replayed_cases, replayed-Tracks, restored-list_events,
}

module _ (py : Pydantic) (run_id : String) (between : Db → Db) (db : Db) where
  abbrev rebuilding : Result StorageError WorkflowRun × Db
  rebuilding = rebuild_projection py run_id between db

  rebuilding-committed :
      (rebuilt : WorkflowRun) (created : WorkflowRunCreatedPayload) (u : Unit {0}) (after : Db)
      → replayed py run_id db ≡ ok (rebuilt, created)
      → rebuild_body run_id rebuilt created (between db) ≡ ok (u, after)
      → rebuilding ≡ (get_workflow_run after run_id, after)
  unfolding rebuild_projection transaction
  rebuilding-committed rebuilt created u after e f = rw (rebuild_projection, e, transaction, f) refl

  rebuilding-aborted :
      (rebuilt : WorkflowRun) (created : WorkflowRunCreatedPayload) (error : StorageError)
      → replayed py run_id db ≡ ok (rebuilt, created)
      → rebuild_body run_id rebuilt created (between db) ≡ err error
      → rebuilding ≡ (err error, between db)
  unfolding rebuild_projection transaction
  rebuilding-aborted rebuilt created error e f = rw (rebuild_projection, e, transaction, f) refl

  rebuilding-unread :
      (error : StorageError) → replayed py run_id db ≡ err error → rebuilding ≡ (err error, db)
  unfolding rebuild_projection
  rebuilding-unread error e = rw (rebuild_projection, e) refl

  -- What a committed rebuild returns and leaves.
  rebuilding-restored :
      (rebuilt : WorkflowRun) (created : WorkflowRunCreatedPayload) (u : Unit {0}) (after : Db)
      → replayed py run_id db ≡ ok (rebuilt, created)
      → rebuild_body run_id rebuilt created (between db) ≡ ok (u, after)
      → rebuilding ≡ (ok rebuilt, restored run_id rebuilt created (between db))
  rebuilding-restored rebuilt created u after e f =
      let (events, listed, reduced) = replayed_cases py run_id db rebuilt created e in
      let owner =
        reduced-run_id py run_id events rebuilt (list_events-IsOf db run_id events listed)
          reduced in
      let shape = reduce-HasDefinitions py events rebuilt reduced in
      let left = rebuild_body-restored run_id rebuilt created (between db) after f in
      rebuilding-committed rebuilt created u after e f
      ∙ ap (λ d. (get_workflow_run d run_id, d)) left
      ∙ ap (λ r. (r, restored run_id rebuilt created (between db)))
          (restored-get_workflow_run run_id rebuilt created (between db) owner shape)

  -- A rebuild that returned: the run it returns, and the database it leaves.
  pub rebuild_projection_cases :
      (run : WorkflowRun)
      → rebuilding.0 ≡ ok run
      → (created : WorkflowRunCreatedPayload) × (replayed py run_id db ≡ ok (run, created))
        × (rebuilding.1 ≡ restored run_id run created (between db))
  rebuild_projection_cases run returned = elim (Result-cases (replayed py run_id db)) [
    | inr (error, e) ↦ absurd (let failed = ap (λ q. q.0) (rebuilding-unread error e) in cc)
    | inl ((rebuilt, created), e) ↦
        elim (Result-cases (rebuild_body run_id rebuilt created (between db))) [
          | inr (error, f) ↦
              absurd
                (let failed = ap (λ q. q.0) (rebuilding-aborted rebuilt created error e f) in cc)
          | inl ((u, after), f) ↦
              let left = rebuilding-restored rebuilt created u after e f in
              let same : rebuilt ≡ run = ok_injective (sym (ap (λ q. q.0) left) ∙ returned) in
              (
                created,
                subst (λ r. replayed py run_id db ≡ ok (r, created)) same e,
                subst (λ r. rebuilding.1 ≡ restored run_id r created (between db)) same
                    (ap (λ q. q.1) left),
              )
        ]
  ]

  -- `rebuild_projection` recovers from whatever the projection tables hold: when it returns a run, and
  -- no event of the run was added between its reading of the history and its transaction, then that
  -- run is what the events reduce to, `get_workflow_run` reads the same run from the new rows, and
  -- `projection_matches_history` finds both sides equal.
  pub rebuild_projection-ProjectionMatchesHistory :
      (run : WorkflowRun)
      → list_events (between db) run_id ≡ list_events db run_id
      → rebuilding.0 ≡ ok run
      → ProjectionMatchesHistory py run_id rebuilding.1
        × (get_workflow_run rebuilding.1 run_id ≡ ok run)
  rebuild_projection-ProjectionMatchesHistory run quiet returned =
      let (created, e, left) = rebuild_projection_cases run returned in
      let (events, listed, reduced) = replayed_cases py run_id db run created e in
      let owner =
        reduced-run_id py run_id events run (list_events-IsOf db run_id events listed) reduced in
      let shape = reduce-HasDefinitions py events run reduced in
      let read = restored-get_workflow_run run_id run created (between db) owner shape in
      subst (λ d. ProjectionMatchesHistory py run_id d × (get_workflow_run d run_id ≡ ok run))
        (sym left)
        (
          record {
            run = run;
            events = events;
            read = read;
            listed = restored-list_events run_id run created (between db) ∙ quiet ∙ listed;
            reduced = reduced;
          },
          read,
        )

-- What a rebuild leaves: the database as it was, or the one with the rows of the replayed run.
pub rebuilding-lands {ℓ} :
    (P : Db → Type ℓ) (py : Pydantic) (run_id : String) (db : Db)
    → P db
    → ((events : List WorkflowRunEvent) (rebuilt : WorkflowRun)
          (created : WorkflowRunCreatedPayload)
        → list_events db run_id ≡ ok events
        → reduce_workflow_run_history py events ≡ ok rebuilt
        → rebuilt.run_id ≡ run_id
        → P (restored run_id rebuilt created db))
    → P (rebuild_projection py run_id (λ d. d) db).1
rebuilding-lands P py run_id db before lands = elim (Result-cases (replayed py run_id db)) [
  | inr (error, e) ↦
      subst P (sym (ap (λ q. q.1) (rebuilding-unread py run_id (λ d. d) db error e))) before
  | inl ((rebuilt, created), e) ↦ elim (Result-cases (rebuild_body run_id rebuilt created db)) [
    | inr (error, f) ↦
        let aborted = rebuilding-aborted py run_id (λ d. d) db rebuilt created error e f in
        subst P (sym (ap (λ q. q.1) aborted)) before
    | inl ((u, after), f) ↦
        let left = rebuilding-restored py run_id (λ d. d) db rebuilt created u after e f in
        let (events, listed, reduced) = replayed_cases py run_id db rebuilt created e in
        let owner =
          reduced-run_id py run_id events rebuilt (list_events-IsOf db run_id events listed)
            reduced in
        subst P (sym (ap (λ q. q.1) left)) (lands events rebuilt created listed reduced owner)
  ]
]

-- A rebuild, with no other process between its reading and its transaction, keeps the agreement.
pub rebuild_projection-Matches :
    (py : Pydantic) (run_id : String) (db : Db) (row : RunRow)
    → Matches py run_id db row
    → (row' : RunRow) × Matches py run_id (rebuild_projection py run_id (λ d. d) db).1 row'
rebuild_projection-Matches py run_id db row m =
    rebuilding-lands (λ d. (row' : RunRow) × Matches py run_id d row') py run_id db (row, m)
      (λ events rebuilt created listed reduced owner. (
        rebuilt_run rebuilt created,
        restored-Matches run_id rebuilt created db owner
            (reduce-HasDefinitions py events rebuilt reduced) py
            (replayed-Tracks py run_id db row m events rebuilt listed reduced)
            (reduce_cases py events rebuilt reduced).6,
      ))
