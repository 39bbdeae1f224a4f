-- ===== src/Storage/Refence.antt =====
-- What a rebuild of the projection does to the fence tokens of the run.
use crashsafe.Prelude.{
  ℕ, String, not, ◌≡◌, refl, ap, ◌∙◌, arith, none, List, [], ◌∷◌, ok, str_eq, find?, where_rows,
}
use crashsafe.Models.{Datetime, WorkflowRun, WorkflowRunLease, WorkflowRunCreatedPayload}
use crashsafe.History.Payloads.{Pydantic}
use crashsafe.Storage.Db.{Db}
use crashsafe.Storage.Claims.{get_lease, lease_for}
use crashsafe.Storage.Rebuild.{delete_run, rebuild_projection}
use crashsafe.Storage.Leases.{fence_of}
use crashsafe.Storage.Projection.Restored.{restored}
use crashsafe.Storage.Projection.Recovery.{rebuild_projection_cases}

deleted-find :
    (run_id : String) (ls : List WorkflowRunLease)
    → find?
        (λ (l : WorkflowRunLease). str_eq l.run_id run_id)
        (where_rows (λ (l : WorkflowRunLease). not (str_eq l.run_id run_id)) ls)
      ≡ none
unfolding find? where_rows
deleted-find run_id [] = refl
deleted-find run_id (l ∷ ls) = ground (arith, deleted-find run_id ls)

restored-fence_of :
    (run_id : String) (run : WorkflowRun) (created : WorkflowRunCreatedPayload) (db : Db)
    → fence_of (restored run_id run created db) run_id ≡ 0
unfolding fence_of delete_run
restored-fence_of run_id run created db = rw (deleted-find run_id db.workflow_run_leases) refl

fence_of-next :
    (db : Db) (run_id owner_id : String) (ttl : ℕ) (now : Datetime)
    → fence_of db run_id ≡ 0
    → find? (λ (l : WorkflowRunLease). str_eq l.run_id run_id) db.workflow_run_leases ≡ none
    → (lease_for db run_id owner_id ttl now).fence_token ≡ 1
unfolding lease_for get_lease
fence_of-next db run_id owner_id ttl now h none_left = rw none_left refl

module _ (py : Pydantic) (run_id : String) (between : Db → Db) (db : Db) (run : WorkflowRun)
    (returned : (rebuild_projection py run_id between db).0 ≡ ok run) where
  -- A rebuild that returned forgets the fence tokens of the run: no token is recorded for it, and the
  -- lease of its next claim, by any owner, has token 1, whatever tokens were given out before.
  pub rebuild_projection-fence_of :
      (owner_id : String) (ttl : ℕ) (now : Datetime)
      → (fence_of (rebuild_projection py run_id between db).1 run_id ≡ 0)
        × ((lease_for
              (rebuild_projection py run_id between db).1
              run_id
              owner_id
              ttl
              now).fence_token
            ≡ 1)
  unfolding delete_run
  rebuild_projection-fence_of owner_id ttl now =
      let (created, read, left) = rebuild_projection_cases py run_id between db run returned in
      let forgotten = restored-fence_of run_id run created (between db) in
      (
        ap (λ d. fence_of d run_id) left ∙ forgotten,
        ap (λ d. (lease_for d run_id owner_id ttl now).fence_token) left
            ∙ fence_of-next (restored run_id run created (between db)) run_id owner_id ttl now
                forgotten (deleted-find run_id (between db).workflow_run_leases),
      )
