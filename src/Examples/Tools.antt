-- ===== src/Examples/Tools.antt =====
-- The theorems of the mock tool at two calls, for a charge and for a mail.
use crashsafe.Prelude.{
  String, Bool, true, false, ◌&&◌, ◌||◌, ◌≡◌, refl, Option, none, some, [], ok, str_eq, find?,
  if◌then◌else◌,
}
use crashsafe.Models.Values.{Json, json_eq, items_eq, fields_eq}
use crashsafe.Models.{StepName, StepRequest, charge_step, notify_step, ToolResult}
use crashsafe.Tool.{
  ToolDb, ToolState, ToolCall, served, deduplicate, new_result, find_result, insert_effect,
  apply_body, apply, find, execute,
}
use crashsafe.Tool.Replay.{Commits, stays, applies, apply-replay, execute-replay}
use crashsafe.Tool.Ledger.{IsLedger, Commits-IsLedger}
use crashsafe.Tool.Summary.{summary, counted, was_created, apply-summary}
use crashsafe.Examples.Codec.{codec}

abbrev charge : StepRequest
charge = charge_step (record { customer_id = "c1"; amount_cents = 2 })

abbrev mail : StepRequest
mail = notify_step (record { customer_id = "c1"; email = "a@b"; message = "welcome" })

-- A digest and a validation that tell the two requests apart.
abbrev digest : Json → String
digest j = if json_eq j (codec.dump_request charge) then "d1" else "d2"

abbrev accepts : StepName → Json → Option StepRequest
accepts StepName.charge j = if json_eq j (codec.dump_request charge) then some charge else none
accepts _ j = none

abbrev empty_db : ToolDb
empty_db = record { idempotency_results = []; side_effects = [] }

abbrev charged_db : ToolDb
charged_db = (apply codec digest StepName.charge "r1:pay" charge "01" 3 empty_db).1

abbrev mailed_db : ToolDb
mailed_db = (apply codec digest StepName.notify "r1:mail" mail "02" 4 charged_db).1

abbrev charge_result : ToolResult
charge_result = new_result StepName.charge "01"

charged :
    (apply codec digest StepName.charge "r1:pay" charge "01" 3 empty_db).0
    ≡ ok (charge_result, true)
unfolding str_eq find? json_eq items_eq fields_eq find_result insert_effect apply_body apply
charged = refl

mail-Commits : Commits codec digest charged_db mailed_db
mail-Commits = applies charged_db StepName.notify "r1:mail" mail "02" 4 stays

apply-replay_example :
    (apply codec digest StepName.charge "r1:pay" charge "03" 9 mailed_db
      ≡ (ok (deduplicate charge_result, false), mailed_db))
    × (find codec digest StepName.charge "r1:pay" charge mailed_db
        ≡ ok (some (deduplicate charge_result)))
apply-replay_example =
    apply-replay codec digest StepName.charge "r1:pay" charge "01" 3 empty_db mailed_db
      charge_result true charged mail-Commits "03" 9

-- A call with every fault scripted.
abbrev repeated : ToolCall
repeated = record {
  operation = StepName.charge;
  operation_key = "r1:pay";
  payload = codec.dump_request charge;
  uuid = "04";
  now = 10;
  flaky = true;
  signals = true;
  sleeps = true;
}

abbrev faulty : ToolDb → ToolState
faulty db = record { db = db; forced_failures = 2; operation_failure_pending = true }

accepted : accepts StepName.charge (codec.dump_request charge) ≡ some charge
unfolding str_eq json_eq items_eq fields_eq
accepted = refl

execute-replay_example :
    execute codec digest accepts (some StepName.charge) repeated (faulty mailed_db)
    ≡ (served (deduplicate charge_result), faulty mailed_db)
execute-replay_example =
    execute-replay codec digest StepName.charge "r1:pay" charge "01" 3 empty_db mailed_db
      charge_result true charged mail-Commits accepts (some StepName.charge) repeated
      (faulty mailed_db) refl refl accepted refl

empty-IsLedger : IsLedger digest empty_db
empty-IsLedger = record { paired = tt; once = tt }

two_calls : Commits codec digest empty_db mailed_db
two_calls =
    applies charged_db StepName.notify "r1:mail" mail "02" 4
      (applies empty_db StepName.charge "r1:pay" charge "01" 3 stays)

Commits-IsLedger_example : IsLedger digest mailed_db
Commits-IsLedger_example = Commits-IsLedger codec digest empty_db mailed_db empty-IsLedger two_calls

-- A first charge, whose signal file cannot be written.
abbrev unsignalled : ToolCall
unsignalled = record repeated { flaky = false; signals = false }

abbrev calm : ToolState
calm = record { db = empty_db; forced_failures = 0; operation_failure_pending = false }

-- a LIKE for the keys of r1
abbrev of_r1 : String → String → Bool
of_r1 pattern key = str_eq pattern "r1:%" && (str_eq key "r1:pay" || str_eq key "r1:mail")

apply-summary_example :
    let called = apply codec digest StepName.notify "r1:mail" mail "02" 4 charged_db in
    (summary of_r1 none called.1 ≡ (
      if was_created called.0
      then counted StepName.notify (summary of_r1 none charged_db)
      else summary of_r1 none charged_db))
    × (summary of_r1 (some "r1") called.1 ≡ (
        if was_created called.0 && of_r1 "r1:%" "r1:mail"
        then counted StepName.notify (summary of_r1 (some "r1") charged_db)
        else summary of_r1 (some "r1") charged_db))
apply-summary_example =
    apply-summary of_r1 codec digest StepName.notify "r1:mail" mail "02" 4 charged_db "r1"
