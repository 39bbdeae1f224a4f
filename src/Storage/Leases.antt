-- ===== src/Storage/Leases.antt =====
-- Sequences of lease calls: fence tokens only grow, and a token that was passed commits nothing again.
use crashsafe.Prelude.{
  arith, ℕ, ◌+◌, ◌≤◌, ◌<◌, String, Bool, true, false, ◌&&◌, ◌≡◌, refl, sym, subst, ◌∙◌, Option,
  none, some, List, [], ◌∷◌, Option-cases, Bool-cases, inl, inr, ok, ltb, str_eq, str_eq_iff, any,
  find?, update_rows,
}
use crashsafe.Models.{Datetime, WorkflowRunLease}
use crashsafe.History.Payloads.{Pydantic}
use crashsafe.Storage.Db.{Db, StepRow, transaction, get_step_row}
use crashsafe.Storage.Attempts.{Caller, holds_lease}
use crashsafe.Storage.Claims.{
  select_runnable, claim_runnable_step_body, get_lease, next_fence, upsert_lease, lease_for,
  claim_runnable_step, owned_lease, renew_lease, release_lease,
}
use crashsafe.Storage.Fencing.{IsFenced, OneLease, no_rows-not_held, no_lease-IsFenced}

-- The calls on leases, of any run.
pub data LeaseCall : Type 0 where
  claims : (owner_id : String) (ttl : ℕ) (now : Datetime) → LeaseCall
  renews : (run_id owner_id : String) (fence_token ttl : ℕ) (now : Datetime) → LeaseCall
  releases : (run_id owner_id : String) (fence_token : ℕ) (now : Datetime) → LeaseCall

unfoldable pub lease_call : LeaseCall → Db → Db
lease_call (claims owner_id ttl now) db = (claim_runnable_step owner_id ttl now db).1
lease_call (renews run_id owner_id fence_token ttl now) db =
    (renew_lease run_id owner_id fence_token ttl now db).1
lease_call (releases run_id owner_id fence_token now) db =
    (release_lease run_id owner_id fence_token now db).1

pub data LeaseCalls (db : Db) : Db → Type 0 where
  none_yet : LeaseCalls db db
  then_call :
      (middle : Db) (call : LeaseCall)
      → LeaseCalls db middle
      → LeaseCalls db (lease_call call middle)

-- The token of the run's row, 0 where there is none.
abbrev pub token_in : Option WorkflowRunLease → ℕ
token_in none = 0
token_in (some lease) = lease.fence_token

abbrev find_lease : String → List WorkflowRunLease → Option WorkflowRunLease
find_lease run_id ls = find? (λ (l : WorkflowRunLease). str_eq l.run_id run_id) ls

abbrev has_lease : String → List WorkflowRunLease → Bool
has_lease run_id ls = any (λ (l : WorkflowRunLease). str_eq l.run_id run_id) ls

unfoldable pub fence_of : Db → String → ℕ
fence_of db run_id = token_in (find_lease run_id db.workflow_run_leases)

module _ (run_id : String) where
  -- Setting the expiry keeps the tokens and the keys.
  module _ (test : WorkflowRunLease → Bool) (at now : Datetime) where
    abbrev expire : WorkflowRunLease → WorkflowRunLease
    expire l = record l { lease_expires_at = at; updated_at = now }

    expire-token :
        (ls : List WorkflowRunLease)
        → token_in (find_lease run_id (update_rows test expire ls))
          ≡ token_in (find_lease run_id ls)
    unfolding update_rows find?
    expire-token [] = refl
    expire-token (l ∷ ls) = ground (arith, expire-token ls)

    expire-has :
        (ls : List WorkflowRunLease)
        → has_lease run_id (update_rows test expire ls) ≡ has_lease run_id ls
    unfolding update_rows
    expire-has [] = refl
    expire-has (l ∷ ls) = ground (arith, expire-has ls)

    expire-OneLease :
        (ls : List WorkflowRunLease)
        → OneLease run_id ls
        → OneLease run_id (update_rows test expire ls)
    unfolding update_rows
    expire-OneLease [] one = tt
    expire-OneLease (l ∷ ls) one =
        (expire-OneLease ls one.0, λ e. expire-has ls ∙ one.1 (ground (arith, e)))

  upsert-token :
      (new : WorkflowRunLease) (ls : List WorkflowRunLease)
      → new.fence_token ≡ token_in (find_lease new.run_id ls) + 1
      → token_in (find_lease run_id ls) ≤ token_in (find_lease run_id (upsert_lease new ls))
  unfolding upsert_lease find?
  upsert-token new [] h = omega arith
  upsert-token new (l ∷ ls) h = elim (Bool-cases (str_eq l.run_id new.run_id)) [
    | inl e ↦ (let same = (str_eq_iff l.run_id new.run_id).0 e in ground (arith, e, same))
    | inr e ↦ ground (arith, e, upsert-token new ls)
  ]

  upsert-has :
      (new : WorkflowRunLease) (ls : List WorkflowRunLease)
      → str_eq new.run_id run_id ≡ false
      → has_lease run_id (upsert_lease new ls) ≡ has_lease run_id ls
  unfolding upsert_lease
  upsert-has new [] h = ground arith
  upsert-has new (l ∷ ls) h = ground (arith, upsert-has new ls h, str_eq_iff l.run_id new.run_id)

  upsert-OneLease :
      (new : WorkflowRunLease) (ls : List WorkflowRunLease)
      → OneLease run_id ls
      → OneLease run_id (upsert_lease new ls)
  unfolding upsert_lease
  upsert-OneLease new [] one = (tt, λ e. refl)
  upsert-OneLease new (l ∷ ls) one = elim (Bool-cases (str_eq l.run_id new.run_id)) [
    | inl e ↦
        let same = (str_eq_iff l.run_id new.run_id).0 e in
        rw e (one.0, subst (λ r. str_eq r run_id ≡ true → has_lease run_id ls ≡ false) same one.1)
    | inr e ↦ rw e (
      upsert-OneLease new ls one.0,
      λ f.
          upsert-has new ls
            (ground (arith, e, f, str_eq_iff l.run_id run_id, str_eq_iff new.run_id run_id))
          ∙ one.1 f,
    )
  ]

  -- A token below the row's is held by nobody.
  passed-not_held :
      (owner_id : String) (token at : ℕ) (ls : List WorkflowRunLease)
      → OneLease run_id ls
      → token < token_in (find_lease run_id ls)
      → any (holds_lease run_id owner_id token at) ls ≡ false
  unfolding find?
  passed-not_held owner_id token at [] one h = refl
  passed-not_held owner_id token at (l ∷ ls) one h = ground (
    arith,
    one.1,
    no_rows-not_held run_id owner_id token at ls,
    passed-not_held owner_id token at ls one.0,
  )

next_fence-token : (lease : Option WorkflowRunLease) → next_fence lease ≡ token_in lease + 1
next_fence-token none = refl
next_fence-token (some lease) = refl

lease_call-keeps :
    (run_id : String) (call : LeaseCall) (db : Db)
    → OneLease run_id db.workflow_run_leases
    → (fence_of db run_id ≤ fence_of (lease_call call db) run_id)
      × OneLease run_id (lease_call call db).workflow_run_leases
unfolding fence_of lease_call claim_runnable_step claim_runnable_step_body transaction renew_lease
    release_lease lease_for get_lease
lease_call-keeps run_id (claims owner_id ttl now) db one =
    elim (Option-cases (select_runnable db now true)) [
      | inl e ↦
          let same : lease_call (claims owner_id ttl now) db ≡ db = ground (arith, e) in
          subst
            (λ d. (fence_of db run_id ≤ fence_of d run_id) × OneLease run_id d.workflow_run_leases)
            (sym same) (omega arith, one)
      | inr (row, e) ↦
          let new = lease_for db row.run_id owner_id ttl now in
          let same : lease_call (claims owner_id ttl now) db
              ≡ record db { workflow_run_leases = upsert_lease new db.workflow_run_leases } =
            ground (arith, e) in
          subst
            (λ d. (fence_of db run_id ≤ fence_of d run_id) × OneLease run_id d.workflow_run_leases)
            (sym same)
            (
              upsert-token run_id new db.workflow_run_leases
                  (next_fence-token (get_lease db row.run_id)),
              upsert-OneLease run_id new db.workflow_run_leases one,
            )
    ]
lease_call-keeps run_id (renews other owner_id fence_token ttl now) db one =
    let live = λ (l : WorkflowRunLease).
      owned_lease other owner_id fence_token l && ltb now l.lease_expires_at in
    (
      omega (arith, expire-token run_id live (now + ttl) now db.workflow_run_leases),
      expire-OneLease run_id live (now + ttl) now db.workflow_run_leases one,
    )
lease_call-keeps run_id (releases other owner_id fence_token now) db one = (
  omega (
    arith,
    expire-token run_id (owned_lease other owner_id fence_token) now now db.workflow_run_leases,
  ),
  expire-OneLease run_id (owned_lease other owner_id fence_token) now now db.workflow_run_leases
      one,
)

-- Where a run has at most one lease row, then whatever leases of any runs the workers claim, renew and
-- release, in any order, it still has at most one, and its fence token has not gone back.
pub LeaseCalls-keeps :
    (run_id : String) (db later : Db)
    → OneLease run_id db.workflow_run_leases
    → LeaseCalls db later
    → (fence_of db run_id ≤ fence_of later run_id) × OneLease run_id later.workflow_run_leases
LeaseCalls-keeps run_id db later one none_yet = (omega arith, one)
LeaseCalls-keeps run_id db later one (then_call middle call before) =
    let (grown, one') = LeaseCalls-keeps run_id db middle one before in
    let (step, one'') = lease_call-keeps run_id call middle one' in
    (omega (arith, grown, step), one'')

-- Where a run has at most one lease row, and that row's token has passed a worker's, all four
-- transitions of an existing step of the run refuse the worker, with the database unchanged, after
-- any further claims, renewals and releases.
pub LeaseCalls-IsFenced :
    (py : Pydantic) (run_id step_id owner_id : String) (token : ℕ) (caller : Caller) (row : StepRow)
    (db later : Db)
    → OneLease run_id db.workflow_run_leases
    → token < fence_of db run_id
    → LeaseCalls db later
    → get_step_row later run_id step_id ≡ ok row
    → caller.owner_id ≡ some owner_id
    → caller.fence_token ≡ some token
    → IsFenced py run_id step_id caller later
unfolding fence_of
LeaseCalls-IsFenced py run_id step_id owner_id token caller row db later one passed calls found o
      f =
    let (grown, one') = LeaseCalls-keeps run_id db later one calls in
    no_lease-IsFenced py run_id step_id row caller later owner_id token found o f (
      passed-not_held run_id owner_id token caller.checked_at later.workflow_run_leases one'
        (omega (arith, grown, passed)))
