-- ===== src/Tool/Summary.antt =====
-- crashsafe/mock_tool.py: `ToolStore.summary`, the counts that the ledger page shows.
-- `like` is SQLite's LIKE of a pattern and a text, which ignores the case of ASCII letters and takes
-- `%` and `_` in a run id as wildcards.
use Prim.Native.String.{◌++◌ as str_append}
use crashsafe.Prelude.{
  arith, ℕ, ◌+◌, String, Bool, true, false, ◌&&◌, ◌≡◌, refl, sym, subst, ◌⊎◌, Option, none, some,
  List, [], ◌∷◌, ◌++◌, Result, ok, err, where_rows, if◌then◌else◌, Option-cases, Bool-cases,
  Result-cases, inl, inr,
}
use crashsafe.Models.Values.{Json}
use crashsafe.Models.{Datetime, StepName, step_name_eq, StepRequest, ToolResult}
use crashsafe.History.Payloads.{Pydantic}
use crashsafe.Tool.{
  ToolError, EffectRow, ToolDb, find_result, taken, reference_of, cached, new_result, with_effect,
  insert_effect, apply_body, apply,
}

pub record LedgerSummary : Type 0 where
  pub charges : ℕ
  pub provisions : ℕ
  pub notifications : ℕ

-- the count of a group, 0 where there is none
unfoldable pub count_of : StepName → List EffectRow → ℕ
count_of operation [] = 0
count_of operation (row ∷ rows) =
    if step_name_eq row.operation operation
    then 1 + count_of operation rows
    else count_of operation rows

-- the WHERE clause on an operation key
unfoldable pub counts_key : (String → String → Bool) → Option String → String → Bool
counts_key like none operation_key = true
counts_key like (some run_id) operation_key = like (str_append run_id ":%") operation_key

unfoldable pub summary : (String → String → Bool) → Option String → ToolDb → LedgerSummary
summary like run_id db =
    let rows =
      where_rows (λ (row : EffectRow). counts_key like run_id row.operation_key) db.side_effects in
    record {
      charges = count_of StepName.charge rows;
      provisions = count_of StepName.provision rows;
      notifications = count_of StepName.notify rows;
    }

-- One effect more of an operation.
abbrev pub counted : StepName → LedgerSummary → LedgerSummary
counted StepName.charge s = record s { charges = s.charges + 1 }
counted StepName.provision s = record s { provisions = s.provisions + 1 }
counted StepName.notify s = record s { notifications = s.notifications + 1 }

-- The flag that `apply` returns, false where it raises.
abbrev pub was_created : Result ToolError (ToolResult × Bool) → Bool
was_created (ok answer) = answer.1
was_created (err e) = false

module _ (like : String → String → Bool) (run_id : Option String) where
  abbrev of_key : EffectRow → Bool
  of_key row = counts_key like run_id row.operation_key

  count_of-append :
      (operation : StepName) (rows : List EffectRow) (row : EffectRow)
      → count_of operation (where_rows of_key (rows ++ row ∷ [])) ≡ (
          if of_key row && step_name_eq row.operation operation
          then count_of operation (where_rows of_key rows) + 1
          else count_of operation (where_rows of_key rows))
  unfolding count_of where_rows
  count_of-append operation [] row = ground arith
  count_of-append operation (r ∷ rows) row = ground (arith, count_of-append operation rows row)

  module _ (py : Pydantic) (request_hash : Json → String) (operation_key : String)
      (request : StepRequest) (uuid : String) (now : Datetime) (db : ToolDb) where
    -- the row that the call inserts
    abbrev new_effect : StepName → EffectRow
    new_effect operation = record {
      id = reference_of operation uuid;
      operation_key = operation_key;
      operation = operation;
      request = py.dump_request request;
      created_at = now;
    }

    one_more :
        (operation other : StepName)
        → count_of other (where_rows of_key (db.side_effects ++ new_effect operation ∷ [])) ≡ (
            if counts_key like run_id operation_key && step_name_eq operation other
            then count_of other (where_rows of_key db.side_effects) + 1
            else count_of other (where_rows of_key db.side_effects))
    one_more operation other = count_of-append other db.side_effects (new_effect operation)

    with_effect-summary :
        (operation : StepName)
        → summary like run_id
            (with_effect py request_hash operation operation_key request uuid now db)
          ≡ (if counts_key like run_id operation_key
              then counted operation (summary like run_id db)
              else summary like run_id db)
    unfolding summary
    with_effect-summary StepName.charge = ground (
      arith,
      one_more StepName.charge StepName.charge,
      one_more StepName.charge StepName.provision,
      one_more StepName.charge StepName.notify,
    )
    with_effect-summary StepName.provision = ground (
      arith,
      one_more StepName.provision StepName.charge,
      one_more StepName.provision StepName.provision,
      one_more StepName.provision StepName.notify,
    )
    with_effect-summary StepName.notify = ground (
      arith,
      one_more StepName.notify StepName.charge,
      one_more StepName.notify StepName.provision,
      one_more StepName.notify StepName.notify,
    )

    abbrev Counts : StepName → Result ToolError (ToolResult × Bool) × ToolDb → Type 0
    Counts operation called = summary like run_id called.1 ≡ (
        if was_created called.0 && counts_key like run_id operation_key
        then counted operation (summary like run_id db)
        else summary like run_id db)

    apply_cases :
        (operation : StepName)
        → ((was_created (apply py request_hash operation operation_key request uuid now db).0
              ≡ false)
            × (apply py request_hash operation operation_key request uuid now db
                ≡ ((apply py request_hash operation operation_key request uuid now db).0, db)))
          ⊎ ((result : ToolResult) × (apply py request_hash operation operation_key request uuid now
                  db
                ≡ (
                  ok (result, true),
                  with_effect py request_hash operation operation_key request uuid now db,
                )))
    unfolding apply apply_body insert_effect
    apply_cases operation = elim (Option-cases (find_result db operation_key)) [
      | inl e ↦ elim (Bool-cases (taken operation operation_key uuid db)) [
        | inl t ↦ inl (ground (arith, e, t), ground (arith, e, t))
        | inr t ↦ inr (new_result operation uuid, ground (arith, e, t))
      ]
      | inr (row, e) ↦ elim (Result-cases (cached py request_hash operation request row)) [
        | inl (saved, c) ↦ inl (ground (arith, e, c), ground (arith, e, c))
        | inr (error, c) ↦ inl (ground (arith, e, c), ground (arith, e, c))
      ]
    ]

    apply-counted :
        (operation : StepName)
        → Counts operation (apply py request_hash operation operation_key request uuid now db)
    apply-counted operation = elim (apply_cases operation) [
      | inl (same, unchanged) ↦ subst (Counts operation) (sym unchanged) (rw same refl)
      | inr (result, e) ↦ subst (Counts operation) (sym e) (with_effect-summary operation)
    ]

-- `summary` counts each effect once. After a call of `apply`, the counts of the whole ledger are the
-- former ones with the operation counted once more when the call returned that it created the effect,
-- and the former ones after a repeated call and after one that raised. The counts of a run change in
-- the same way when the call's key matches `{run_id}:%` by LIKE, and not at all when it does not.
pub apply-summary :
    (like : String → String → Bool) (py : Pydantic) (request_hash : Json → String)
    (operation : StepName) (operation_key : String) (request : StepRequest) (uuid : String)
    (now : Datetime) (db : ToolDb) (run_id : String)
    → let called = apply py request_hash operation operation_key request uuid now db in
      (summary like none called.1 ≡ (
        if was_created called.0
        then counted operation (summary like none db)
        else summary like none db))
      × (summary like (some run_id) called.1 ≡ (
          if was_created called.0 && like (str_append run_id ":%") operation_key
          then counted operation (summary like (some run_id) db)
          else summary like (some run_id) db))
unfolding counts_key
apply-summary like py request_hash operation operation_key request uuid now db run_id =
    let called = apply py request_hash operation operation_key request uuid now db in
    let all = apply-counted like none py request_hash operation_key request uuid now db operation in
    (
      elim (Bool-cases (was_created called.0)) [
        | inl e ↦ rw e (rw e at all)
        | inr e ↦ rw e (rw e at all)
      ],
      apply-counted like (some run_id) py request_hash operation_key request uuid now db operation,
    )
