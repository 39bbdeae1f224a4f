-- ===== src/Storage/Projection/Lifetime.antt =====
-- A run from its creation on: the transitions of its steps, and the leases of all workers.
use crashsafe.Prelude.{
  arith, String, true, false, str_eq, ◌≡◌, ◌≢◌, [], refl, sym, subst, Option, some, List,
  Result-cases, Option-cases, inl, inr, ok,
}
use crashsafe.Models.{
  Datetime, WorkflowRunStatus, WorkflowDefinition, WorkflowRunCreatedPayload, WorkflowRunLease,
  WorkflowRun,
}
use crashsafe.History.Definitions.{validate_definitions}
use crashsafe.Models.Graph.{validate_graph}
use crashsafe.History.Agreement.{validate_graph_agrees}
use crashsafe.Storage.Rebuild.{rebuild_projection}
use crashsafe.Storage.Projection.Recovery.{rebuild_projection-Matches}
use crashsafe.History.Payloads.{Pydantic}
use crashsafe.Storage.Db.{Db, RunRow, transaction, find_run, step_rows, dependencies}
use crashsafe.Storage.Create.{selected_tool, definitions_from, create_body, create_workflow_run}
use crashsafe.Storage.Attempts.{Caller}
use crashsafe.Storage.Leases.{LeaseCall, claims, renews, releases, lease_call}
use crashsafe.Storage.Claims.{
  select_runnable, claim_runnable_step_body, upsert_lease, lease_for, claim_runnable_step,
  renew_lease, release_lease,
}
use crashsafe.Storage.Projection.Settled.{Matches}
use crashsafe.Storage.Projection.Match.{ProjectionMatchesHistory, Matches-history}
use crashsafe.Storage.Projection.Frame.{SameRun-Matches}
use crashsafe.Storage.Projection.Isolation.{OnRun, OnRun-SameRun}
use crashsafe.Storage.Projection.Creation.{IsFresh, created_row, create_body-Matches}
use crashsafe.Storage.Projection.Commit.{StepCall, perform, perform-Matches, transaction-commits}

pub lease_call-leases :
    (call : LeaseCall) (db : Db)
    → (leases : List WorkflowRunLease) × (lease_call call db
        ≡ record db { workflow_run_leases = leases })
unfolding lease_call claim_runnable_step claim_runnable_step_body transaction renew_lease
    release_lease
lease_call-leases (claims owner_id ttl now) db = elim (Option-cases (select_runnable db now true)) [
  | inl e ↦ (db.workflow_run_leases, ground (arith, e))
  | inr (row, e) ↦ (
    upsert_lease (lease_for db row.run_id owner_id ttl now) db.workflow_run_leases,
    ground (arith, e),
  )
]
lease_call-leases (renews run_id owner_id fence_token ttl now) db = (_, refl)
lease_call-leases (releases run_id owner_id fence_token now) db = (_, refl)

with_leases-Matches :
    (py : Pydantic) (run_id : String) (db : Db) (run : RunRow) (leases : List WorkflowRunLease)
    → Matches py run_id db run
    → Matches py run_id (record db { workflow_run_leases = leases }) run
unfolding find_run step_rows dependencies
with_leases-Matches py run_id db run leases m = record {
  projected = record {
    found = m.projected.found;
    positions = m.projected.positions;
    distinct = m.projected.distinct;
    known = m.projected.known;
    tracked = m.projected.tracked;
  };
  settled = record { none_failed = m.settled.none_failed; some_left = m.settled.some_left };
}

-- The databases that a run goes through: calls on its steps, each made while the run is RUNNING, as
-- the claims of the workers are, calls on leases, rebuilds of its projection, and the creation, the
-- transitions and the rebuilds of other runs, in any order.
pub data Leads (py : Pydantic) (run_id : String) (db : Db) : Db → Type 0 where
  stays : Leads py run_id db db
  calls :
      (middle : Db) (run : RunRow) (step_id : String) (caller : Caller) (call : StepCall)
      → Leads py run_id db middle
      → find_run middle run_id ≡ some run
      → run.status ≡ WorkflowRunStatus.running
      → Leads py run_id db (perform py run_id step_id caller call middle)
  leases :
      (middle : Db) (call : LeaseCall)
      → Leads py run_id db middle
      → Leads py run_id db (lease_call call middle)
  rebuilds :
      (middle : Db)
      → Leads py run_id db middle
      → Leads py run_id db (rebuild_projection py run_id (λ d. d) middle).1
  elsewhere :
      (middle after : Db) (other : String)
      → Leads py run_id db middle
      → str_eq other run_id ≡ false
      → OnRun py other middle after
      → Leads py run_id db after

pub Leads-Matches :
    (py : Pydantic) (run_id : String) (db after : Db) (run : RunRow)
    → Matches py run_id db run
    → Leads py run_id db after
    → (run' : RunRow) × Matches py run_id after run'
Leads-Matches py run_id db after run m stays = (run, m)
Leads-Matches py run_id db after run m (calls middle row step_id caller call before found running) =
    let (row', m') = Leads-Matches py run_id db middle run m before in
    perform-Matches py run_id step_id caller call middle row' m'
      (ground (arith, found, running, m'.projected.found))
Leads-Matches py run_id db after run m (leases middle call before) =
    let (row', m') = Leads-Matches py run_id db middle run m before in
    let (rows, same) = lease_call-leases call middle in
    (
      row',
      subst (λ d. Matches py run_id d row') (sym same)
          (with_leases-Matches py run_id middle row' rows m'),
    )
Leads-Matches py run_id db after run m (rebuilds middle before) =
    let (row', m') = Leads-Matches py run_id db middle run m before in
    rebuild_projection-Matches py run_id middle row' m'
Leads-Matches py run_id db after run m (elsewhere middle left other before apart call) =
    let (row', m') = Leads-Matches py run_id db middle run m before in
    let same = OnRun-SameRun py run_id other middle left apart call in
    (row', SameRun-Matches py run_id middle left row' same m')

pub Leads-trans :
    (py : Pydantic) (run_id : String) (db middle after : Db)
    → Leads py run_id db middle
    → Leads py run_id middle after
    → Leads py run_id db after
Leads-trans py run_id db middle after p stays = p
Leads-trans py run_id db middle after p (calls at run step_id caller call q found running) =
    calls at run step_id caller call (Leads-trans py run_id db middle at p q) found running
Leads-trans py run_id db middle after p (leases at call q) =
    leases at call (Leads-trans py run_id db middle at p q)
Leads-trans py run_id db middle after p (rebuilds at q) =
    rebuilds at (Leads-trans py run_id db middle at p q)
Leads-trans py run_id db middle after p (elsewhere at last other q apart call) =
    elsewhere at last other (Leads-trans py run_id db middle at p q) apart call

-- The payload of `create_workflow_run`.
abbrev pub created_of :
    Pydantic → String → String → WorkflowDefinition → Option String → WorkflowRunCreatedPayload
created_of py run_id default_tool_key definition tool_key = record {
  name = definition.name;
  steps = definitions_from py run_id (selected_tool tool_key default_tool_key) 0 definition.steps;
}

module _ (py : Pydantic) (run_id : String) (now : Datetime) (default_tool_key : String)
    (definition : WorkflowDefinition) (tool_key : Option String) (db : Db) where
  pub create_workflow_run-Matches :
      (run : WorkflowRun)
      → IsFresh run_id db
      → validate_definitions run_id
          (created_of py run_id default_tool_key definition tool_key).steps
        ≡ ok tt
      → (create_workflow_run py run_id now default_tool_key definition tool_key db).0 ≡ ok run
      → Matches py run_id
          (create_workflow_run py run_id now default_tool_key definition tool_key db).1
          (created_row run_id now (created_of py run_id default_tool_key definition tool_key))
  unfolding create_workflow_run transaction
  create_workflow_run-Matches run fresh valid h =
      let created = created_of py run_id default_tool_key definition tool_key in
      elim (Result-cases (create_body py run_id now created db)) [
        | inl ((u, after), e) ↦
            subst (λ d. Matches py run_id d (created_row run_id now created))
              (sym (transaction-commits (create_body py run_id now created) db u after e))
              (create_body-Matches py run_id now created db fresh valid after e)
        | inr (error, e) ↦ absurd (ground (arith, e))
      ]

  -- From the creation of a run under a new id, of a nonempty workflow that `validate_graph` accepts,
  -- whatever attempts, retries, failures and completions of its steps follow while it is RUNNING, by
  -- any callers and returning or raising, whatever leases are claimed, renewed and released between
  -- them, however often its projection is rebuilt, and whatever runs under other ids are created,
  -- moved and rebuilt meanwhile, `projection_matches_history` finds both sides equal: the rows read
  -- back are the run that the reducer rebuilds from the events.
  pub Leads-ProjectionMatchesHistory :
      (run : WorkflowRun) (after : Db)
      → IsFresh run_id db
      → definition.steps ≢ []
      → validate_graph definition ≡ ok definition
      → (create_workflow_run py run_id now default_tool_key definition tool_key db).0 ≡ ok run
      → Leads py run_id
          (create_workflow_run py run_id now default_tool_key definition tool_key db).1
          after
      → ProjectionMatchesHistory py run_id after
  Leads-ProjectionMatchesHistory run after fresh nonempty accepted h leads =
      let created = created_of py run_id default_tool_key definition tool_key in
      let valid =
        (validate_graph_agrees py run_id (selected_tool tool_key default_tool_key) definition
            nonempty).0
          accepted in
      let (run', m') =
        Leads-Matches py run_id _ after (created_row run_id now created)
          (create_workflow_run-Matches run fresh valid h) leads in
      Matches-history py run_id after run' m'
