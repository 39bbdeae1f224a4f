-- ===== src/Storage/Fencing.antt =====
-- The fence: what the lease table says of a worker decides what the worker can commit.
use crashsafe.Prelude.{
  ◌≤◌, ℕ, ◌+◌, ◌≤◌, String, Bool, true, false, ◌≡◌, ◌≢◌, refl, some, List, [], ◌∷◌, arith,
  Option-cases, inl, inr, ok, err, str_eq, str_eq_iff, any, find?,
}
use crashsafe.Models.Values.{Json}
use crashsafe.Models.{WorkflowRunLease, ClaimedStep}
use crashsafe.History.Payloads.{Pydantic}
use crashsafe.Storage.Db.{lease_lost, Db, StepRow, transaction, is_step, get_step_row}
use crashsafe.Storage.Attempts.{
  Caller, holds_lease, require_lease, require_active_attempt, record_attempt_body,
  schedule_retry_body, fail_step_body, complete_step_body, record_attempt, schedule_retry,
  fail_step, complete_step,
}
use crashsafe.Storage.Claims.{
  get_lease, lease_for, upsert_lease, select_runnable, claim_runnable_step_body,
  claim_runnable_step,
}

-- Every commit of the caller for the step is refused with LeaseLostError, and changes nothing.
pub record IsFenced (py : Pydantic) (run_id step_id : String) (caller : Caller) (db : Db)
    : Type 0 where
  pub attempt : record_attempt py run_id step_id caller db ≡ (err lease_lost, db)
  pub retry :
      (error : String) (next : ℕ) (throttle : Bool)
      → schedule_retry py run_id step_id error next throttle caller db ≡ (err lease_lost, db)
  pub fail : (error : String) → fail_step py run_id step_id error caller db ≡ (err lease_lost, db)
  pub complete :
      (output : Json) → complete_step py run_id step_id output caller db ≡ (err lease_lost, db)

get_step_row-run_id :
    (db : Db) (run_id step_id : String) (row : StepRow)
    → get_step_row db run_id step_id ≡ ok row
    → row.run_id ≡ run_id
unfolding get_step_row find?
get_step_row-run_id db run_id step_id row h = found db.steps (ground arith)
  where
    found :
        (rows : List StepRow) → find? (is_step run_id step_id) rows ≡ some row → row.run_id ≡ run_id
    found [] h = absurd (cc)
    found (r ∷ rows) h = ground (arith, found rows, str_eq_iff r.run_id run_id)

module _ (py : Pydantic) (run_id step_id : String) (row : StepRow) (caller : Caller) (db : Db)
    (owner_id : String) (fence_token : ℕ) where
  -- A caller with no live lease of the run, by owner, fence token and expiry, is refused by all
  -- four transitions of an existing step, with the database unchanged.
  pub no_lease-IsFenced :
      get_step_row db run_id step_id ≡ ok row
      → caller.owner_id ≡ some owner_id
      → caller.fence_token ≡ some fence_token
      → any (holds_lease run_id owner_id fence_token caller.checked_at) db.workflow_run_leases
        ≡ false
      → IsFenced py run_id step_id caller db
  unfolding record_attempt schedule_retry fail_step complete_step record_attempt_body
      schedule_retry_body fail_step_body complete_step_body require_active_attempt require_lease
      transaction
  no_lease-IsFenced found o f none_live =
      let own = get_step_row-run_id db run_id step_id row found in
      let refused : require_lease db row caller.owner_id caller.fence_token caller.checked_at
          ≡ err lease_lost =
        rw (o, f, own, none_live) in
      record {
        attempt = ground (arith, found, refused);
        retry = λ error next throttle. ground (arith, found, refused);
        fail = λ error. ground (arith, found, refused);
        complete = λ output. ground (arith, found, refused);
      }

-- The lease table has one row for a run: `run_id` is its primary key.
abbrev pub OneLease : String → List WorkflowRunLease → Type 0
OneLease run_id [] = Unit
OneLease run_id (l ∷ ls) =
    OneLease run_id ls
    × (str_eq l.run_id run_id ≡ true
        → any (λ (k : WorkflowRunLease). str_eq k.run_id run_id) ls ≡ false)

-- No row of the run: no lease is held.
pub no_rows-not_held :
    (run_id owner_id : String) (fence_token at : ℕ) (ls : List WorkflowRunLease)
    → any (λ (k : WorkflowRunLease). str_eq k.run_id run_id) ls ≡ false
    → any (holds_lease run_id owner_id fence_token at) ls ≡ false
no_rows-not_held run_id owner_id fence_token at [] h = refl
no_rows-not_held run_id owner_id fence_token at (l ∷ ls) h =
    ground (arith, no_rows-not_held run_id owner_id fence_token at ls)

-- After the claim's upsert only the new token holds the lease of the run.
upsert_lease-not_held :
    (new : WorkflowRunLease) (owner_id : String) (fence_token at : ℕ) (ls : List WorkflowRunLease)
    → OneLease new.run_id ls
    → fence_token ≢ new.fence_token
    → any (holds_lease new.run_id owner_id fence_token at) (upsert_lease new ls) ≡ false
unfolding upsert_lease
upsert_lease-not_held new owner_id fence_token at [] one ne = ground arith
upsert_lease-not_held new owner_id fence_token at (l ∷ ls) one ne = ground (
  arith,
  one.1,
  no_rows-not_held new.run_id owner_id fence_token at ls,
  upsert_lease-not_held new owner_id fence_token at ls one.0 ne,
)

-- What a successful claim did.
pub claim_cases :
    (owner_id : String) (ttl now : ℕ) (db : Db) (claim : ClaimedStep)
    → (claim_runnable_step owner_id ttl now db).0 ≡ ok (some claim)
    → (row : StepRow) × (select_runnable db now true ≡ some row)
      × (claim.lease ≡ lease_for db row.run_id owner_id ttl now)
      × ((claim_runnable_step owner_id ttl now db).1
          ≡ record db { workflow_run_leases = upsert_lease claim.lease db.workflow_run_leases })
unfolding claim_runnable_step claim_runnable_step_body transaction
claim_cases owner_id ttl now db claim h = elim (Option-cases (select_runnable db now true)) [
  | inl e ↦ absurd (ground arith)
  | inr (row, e) ↦ (row, e, ground arith, ground arith)
]

module _ (py : Pydantic) (owner_id : String) (ttl now : ℕ) (db : Db) (claim : ClaimedStep)
    (claimed : (claim_runnable_step owner_id ttl now db).0 ≡ ok (some claim)) where
  -- Where the lease table has at most one row for the run, a claim that replaces a lease raises its
  -- fence token by one, and in the database that it leaves every commit of the run under a token up
  -- to the former one is refused and changes nothing, whoever asks and however long the former lease
  -- was to last.
  pub claim_fences :
      (old : WorkflowRunLease) (step_id stale_owner : String) (stale_token : ℕ) (caller : Caller)
      (row : StepRow)
      → OneLease claim.lease.run_id db.workflow_run_leases
      → get_lease db claim.lease.run_id ≡ some old
      → get_step_row (claim_runnable_step owner_id ttl now db).1 claim.lease.run_id step_id ≡ ok row
      → caller.owner_id ≡ some stale_owner
      → caller.fence_token ≡ some stale_token
      → stale_token ≤ old.fence_token
      → (claim.lease.fence_token ≡ old.fence_token + 1)
        × IsFenced py claim.lease.run_id step_id caller (claim_runnable_step owner_id ttl now db).1
  unfolding lease_for
  claim_fences old step_id stale_owner stale_token caller row one held found o f stale =
      let (selected, _, lease, after) = claim_cases owner_id ttl now db claim claimed in
      let raised : claim.lease.fence_token ≡ old.fence_token + 1 = ground (arith, lease, held) in
      (
        raised,
        no_lease-IsFenced py claim.lease.run_id step_id row caller
            (claim_runnable_step owner_id ttl now db).1 stale_owner stale_token found o f
            (rw after (
              upsert_lease-not_held claim.lease stale_owner stale_token caller.checked_at
                db.workflow_run_leases one (λ e. omega arith))),
      )
