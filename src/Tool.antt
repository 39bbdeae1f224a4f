-- ===== src/Tool.antt =====
-- crashsafe/mock_tool.py: the store of effects and cached results, and the handler `execute`.
-- Parameters: `request_hash` is the SHA-256 of a request's canonical dump, `validate_request` is
-- pydantic's validation of a request body. A call's uuid, clock and random draw are arguments,
-- and so is whether the signal file and the delay after a commit raise.
pub mod Replay
pub mod Ledger
pub mod Faults
pub mod Summary
use Prim.Native.String.{◌++◌ as str_append}
use crashsafe.Prelude.{
  ℕ, zero, suc, String, Bool, true, false, not, ◌&&◌, ◌||◌, Option, none, some, List, [], ◌∷◌, ◌++◌,
  Result, ok, err, ◌>>=◌, ◌>>◌, raise_if, str_eq, any, find?, if◌then◌else◌,
}
use crashsafe.Models.Values.{Json}
use crashsafe.Models.{Datetime, StepName, step_name_eq, StepRequest, ToolResult}
use crashsafe.History.Payloads.{Pydantic}

-- The tables. `response` is the stored JSON of the result.
pub record ResultRow : Type 0 where
  pub operation_key : String
  pub operation : StepName
  pub request_hash : String
  pub response : ToolResult
  pub created_at : Datetime

pub record EffectRow : Type 0 where
  pub id : String
  pub operation_key : String
  pub operation : StepName
  pub request : Json
  pub created_at : Datetime

pub record ToolDb : Type 0 where
  pub idempotency_results : List ResultRow
  pub side_effects : List EffectRow

pub data ToolError : Type 0 where
  idempotency_conflict : ToolError
  unique_violation : ToolError

-- What the calls of a handler share: the database and the scripted faults.
pub record ToolState : Type 0 where
  pub db : ToolDb
  pub forced_failures : ℕ
  pub operation_failure_pending : Bool

pub data Response : Type 0 where
  served : ToolResult → Response
  conflict throttled server_error : Response

pub record ToolCall : Type 0 where
  pub operation : StepName
  pub operation_key : String
  pub payload : Json
  -- of the call's own: the uuid's digits, the clock, and `rng.random() < flaky_rate`
  pub uuid : String
  pub now : Datetime
  pub flaky : Bool
  -- of the environment's, when an effect was created: the signal file was written, where one is set,
  -- and the delay was read and slept, where the header asks for it
  pub signals : Bool
  pub sleeps : Bool

abbrev pub deduplicate : ToolResult → ToolResult
deduplicate result = record result { deduplicated = true }

-- SELECT * FROM idempotency_results WHERE operation_key = ?
unfoldable pub find_result : ToolDb → String → Option ResultRow
find_result db operation_key =
    find? (λ (row : ResultRow). str_eq row.operation_key operation_key) db.idempotency_results

-- f"{operation.value}_{...}"
abbrev pub reference_of : StepName → String → String
reference_of StepName.charge uuid = str_append "charge_" uuid
reference_of StepName.provision uuid = str_append "provision_" uuid
reference_of StepName.notify uuid = str_append "notify_" uuid

abbrev pub new_result : StepName → String → ToolResult
new_result operation uuid = record {
  operation = operation;
  reference_id = reference_of operation uuid;
  deduplicated = false;
}

-- an effect with the id or the key is there
abbrev pub taken : StepName → String → String → ToolDb → Bool
taken operation operation_key uuid db =
    any
      (λ (row : EffectRow).
        str_eq row.id (reference_of operation uuid) || str_eq row.operation_key operation_key)
      db.side_effects

module _ (py : Pydantic) (request_hash : Json → String) where
  -- the check of a row that is there
  abbrev pub cached : StepName → StepRequest → ResultRow → Result ToolError ToolResult
  cached operation request row = do
    raise_if
        (not (step_name_eq row.operation operation)
          || not (str_eq row.request_hash (request_hash (py.dump_request request))))
        idempotency_conflict
    ok (deduplicate row.response)

  -- The rows of the two INSERTs.
  abbrev pub with_effect : StepName → String → StepRequest → String → Datetime → ToolDb → ToolDb
  with_effect operation operation_key request uuid now db = record {
    side_effects =
        db.side_effects
        ++ record {
          id = reference_of operation uuid;
          operation_key = operation_key;
          operation = operation;
          request = py.dump_request request;
          created_at = now;
        }
          ∷ [];
    idempotency_results =
        db.idempotency_results
        ++ record {
          operation_key = operation_key;
          operation = operation;
          request_hash = request_hash (py.dump_request request);
          response = new_result operation uuid;
          created_at = now;
        }
          ∷ [];
  }

  -- An effect's id and key are unique; the key of the result was looked up before.
  unfoldable pub insert_effect :
      StepName
      → String
      → StepRequest
      → String
      → Datetime
      → ToolDb
      → Result ToolError ((ToolResult × Bool) × ToolDb)
  insert_effect operation operation_key request uuid now db =
      if taken operation operation_key uuid db
      then err unique_violation
      else ok (
        (new_result operation uuid, true),
        with_effect operation operation_key request uuid now db,
      )

  unfoldable pub apply_body :
      StepName
      → String
      → StepRequest
      → String
      → Datetime
      → ToolDb
      → Result ToolError ((ToolResult × Bool) × ToolDb)
  apply_body operation operation_key request uuid now db = elim (find_result db operation_key) [
    | some existing ↦ cached operation request existing >>= λ saved. ok ((saved, false), db)
    | none ↦ insert_effect operation operation_key request uuid now db
  ]

  -- `apply`: the transaction rolls back what raised
  unfoldable pub apply :
      StepName
      → String
      → StepRequest
      → String
      → Datetime
      → ToolDb
      → Result ToolError (ToolResult × Bool) × ToolDb
  apply operation operation_key request uuid now db =
      elim (apply_body operation operation_key request uuid now db) [
        | ok (value, db') ↦ (ok value, db')
        | err e ↦ (err e, db)
      ]

  unfoldable pub find :
      StepName → String → StepRequest → ToolDb → Result ToolError (Option ToolResult)
  find operation operation_key request db = elim (find_result db operation_key) [
    | none ↦ ok none
    | some row ↦ cached operation request row >>= λ saved. ok (some saved)
  ]

-- The faults, under `failure_lock`: whether this call fails, and what is left of the script.
unfoldable pub inject : Option StepName → StepName → ToolState → Bool × ToolState
inject forced operation state = elim state.forced_failures [
  | suc left ↦ (true, record state { forced_failures = left })
  | zero ↦ elim forced [
    | none ↦ (false, state)
    | some target ↦
        if state.operation_failure_pending && step_name_eq operation target
        then (true, record state { operation_failure_pending = false })
        else (false, state)
  ]
]

abbrev pub response_of : Result ToolError (ToolResult × Bool) → Response
response_of (ok (result, created)) = served result
response_of (err idempotency_conflict) = conflict
response_of (err unique_violation) = server_error

-- The response to the answer of `apply`: after the commit of a new effect, the signal and the delay.
abbrev pub respond : ToolCall → Result ToolError (ToolResult × Bool) → Response
respond call (ok (result, created)) =
    if created && not (call.signals && call.sleeps) then server_error else served result
respond call (err e) = response_of (err e)

module _ (py : Pydantic) (request_hash : Json → String)
    (validate_request : StepName → Json → Option StepRequest) where
  -- What follows the faults.
  unfoldable pub attempt_effect :
      Option StepName → ToolCall → StepRequest → ToolState → Response × ToolState
  attempt_effect forced call request state =
      let (failing, left) = inject forced call.operation state in
      if failing || call.flaky
      then (throttled, left)
      else (let (answer, db') =
            apply py request_hash call.operation call.operation_key request call.uuid call.now
              left.db in
          (respond call answer, record left { db = db' }))

  unfoldable pub execute : Option StepName → ToolCall → ToolState → Response × ToolState
  execute forced call state = elim (validate_request call.operation call.payload) [
    | none ↦ (server_error, state)
    | some request ↦
        elim (find py request_hash call.operation call.operation_key request state.db) [
          | err e ↦ (response_of (err e), state)
          | ok none ↦ attempt_effect forced call request state
          | ok (some committed) ↦ (served committed, state)
        ]
  ]
