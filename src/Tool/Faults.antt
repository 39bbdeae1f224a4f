-- ===== src/Tool/Faults.antt =====
-- Calls that are not served leave the tables alone, and the script of faults runs out.
use crashsafe.Prelude.{String, Bool, true, false, ◌≡◌, Option}
use crashsafe.Models.Values.{Json}
use crashsafe.Models.{StepName, StepRequest, ToolResult}
use crashsafe.History.Payloads.{Pydantic}
use crashsafe.Tool.{ToolDb, ToolState, ToolCall, Response, served, execute, deduplicate}

abbrev pub is_served : Response → Bool
is_served (served result) = true
is_served _ = false

module _ (py : Pydantic) (request_hash : Json → String)
    (validate_request : StepName → Json → Option StepRequest) (forced : Option StepName)
    (call : ToolCall) (state : ToolState) where
  -- The same call again, with or without a fault drawn.
  abbrev Repeats : ToolResult → ToolState → Bool → ToolDb → Type 0
  Repeats result left again db =
      execute py request_hash validate_request forced (record call { flaky = again })
        (record left { db = db })
      ≡ (served (deduplicate result), record left { db = db })
