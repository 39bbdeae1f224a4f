-- ===== src/Examples/Codec.antt =====
-- A concrete stand-in for the payload classes: a payload is an array of its fields, and a number an
-- array of that many nulls.
use crashsafe.Prelude.{
  ℕ, zero, suc, String, ◌≡◌, refl, ap, Option, none, some, List, [], ◌∷◌, str_eq, if◌then◌else◌,
}
use crashsafe.Models.Values.{Json, null, string, array, object, Items, nil, cons, end, field}
use crashsafe.Models.{
  StepName, StepDefinition, EventType, workflow_run_created, step_attempt_started,
  step_retry_scheduled, step_completed, step_failed, workflow_run_completed, workflow_run_failed,
  StepRequest, charge_step, provision_step, notify_step, EventPayload, created_payload,
  attempt_payload, retry_payload, completed_payload, failed_payload, run_completed_payload,
  run_failed_payload,
}
use crashsafe.History.Payloads.{Pydantic, type_of}

infixl 1 ◌>>=◌
abbrev ◌>>=◌ : {A B : Type 0} → Option A → (A → Option B) → Option B
none >>= f = none
some a >>= f = f a

abbrev nulls : ℕ → Items
nulls zero = nil
nulls (suc n) = cons null (nulls n)

abbrev count : Items → ℕ
count nil = zero
count (cons j js) = suc (count js)

count-nulls : (n : ℕ) → count (nulls n) ≡ n
count-nulls zero = refl
count-nulls (suc n) = ap suc (count-nulls n)

abbrev strings : List String → Items
strings [] = nil
strings (s ∷ ss) = cons (string s) (strings ss)

abbrev texts : Items → Option (List String)
texts nil = some []
texts (cons (string s) js) = do ss ← texts js; some (s ∷ ss)
texts _ = none

texts-strings : (ss : List String) → texts (strings ss) ≡ some ss
texts-strings [] = refl
texts-strings (s ∷ ss) = rw (texts-strings ss) refl

abbrev name_text : StepName → String
name_text StepName.charge = "charge"
name_text StepName.provision = "provision"
name_text StepName.notify = "notify"

abbrev text_name : String → Option StepName
text_name s =
    if str_eq s "charge"
    then some StepName.charge
    else if str_eq s "provision"
    then some StepName.provision
    else if str_eq s "notify"
    then some StepName.notify
    else none

text_name-name_text : (n : StepName) → text_name (name_text n) ≡ some n
unfolding str_eq
text_name-name_text StepName.charge = refl
text_name-name_text StepName.provision = refl
text_name-name_text StepName.notify = refl

abbrev definition_json : StepDefinition → Json
definition_json d = array (
    cons (string d.id) (
      cons (array (nulls d.position)) (
        cons (string (name_text d.operation)) (
          cons (array (strings d.depends_on))
            (cons d.request (cons (string d.operation_key) (cons (string d.tool_key) nil)))))))

abbrev json_definition : Json → Option StepDefinition
json_definition
      (array (
        cons (string id) (
          cons (array position) (
            cons
              (string name)
              (cons (array deps) (cons request (cons (string key) (cons (string tool) nil)))))))) =
    do
      operation ← text_name name
      depends_on ← texts deps
      some (record {
        id = id;
        position = count position;
        operation = operation;
        depends_on = depends_on;
        request = request;
        operation_key = key;
        tool_key = tool;
      })
json_definition _ = none

json_definition-definition_json :
    (d : StepDefinition) → json_definition (definition_json d) ≡ some d
json_definition-definition_json d =
    rw (text_name-name_text d.operation, texts-strings d.depends_on, count-nulls d.position) refl

abbrev definition_items : List StepDefinition → Items
definition_items [] = nil
definition_items (d ∷ ds) = cons (definition_json d) (definition_items ds)

abbrev items_definitions : Items → Option (List StepDefinition)
items_definitions nil = some []
items_definitions (cons j js) = do d ← json_definition j; ds ← items_definitions js; some (d ∷ ds)

items_definitions-definition_items :
    (ds : List StepDefinition) → items_definitions (definition_items ds) ≡ some ds
items_definitions-definition_items [] = refl
items_definitions-definition_items (d ∷ ds) =
    rw (json_definition-definition_json d, items_definitions-definition_items ds) refl

abbrev opt_string : Option String → Json
opt_string none = null
opt_string (some s) = string s

abbrev opt_number : Option ℕ → Json
opt_number none = null
opt_number (some n) = array (nulls n)

abbrev dump : EventPayload → Json
dump (created_payload p) = array (cons (string p.name) (definition_items p.steps))
dump (attempt_payload p) = array (
    cons (string (name_text p.operation)) (
      cons p.request (
        cons (string p.operation_key)
          (cons (opt_string p.worker_id) (cons (opt_number p.fence_token) nil)))))
dump (retry_payload error next) = array (cons (string error) (nulls next))
dump (completed_payload output) = array (cons output nil)
dump (failed_payload error) = string error
dump run_completed_payload = null
dump (run_failed_payload step error) = array (cons (string step) (cons (string error) nil))

abbrev json_opt_string : Json → Option (Option String)
json_opt_string null = some none
json_opt_string (string s) = some (some s)
json_opt_string _ = none

abbrev json_opt_number : Json → Option (Option ℕ)
json_opt_number null = some none
json_opt_number (array js) = some (some (count js))
json_opt_number _ = none

abbrev validate : EventType → Json → Option EventPayload
validate workflow_run_created (array (cons (string name) js)) = do
  ds ← items_definitions js
  some (created_payload (record { name = name; steps = ds }))
validate step_attempt_started
      (array (cons (string name) (cons request (cons (string key) (cons w (cons f nil)))))) =
    do
      operation ← text_name name
      worker_id ← json_opt_string w
      fence_token ← json_opt_number f
      some (
          attempt_payload (record {
            operation = operation;
            request = request;
            operation_key = key;
            worker_id = worker_id;
            fence_token = fence_token;
          }))
validate step_retry_scheduled (array (cons (string error) js)) =
    some (retry_payload error (count js))
validate step_completed (array (cons output nil)) = some (completed_payload output)
validate step_failed (string error) = some (failed_payload error)
validate workflow_run_completed null = some run_completed_payload
validate workflow_run_failed (array (cons (string step) (cons (string error) nil))) =
    some (run_failed_payload step error)
validate _ _ = none

json_opt_string-opt_string : (s : Option String) → json_opt_string (opt_string s) ≡ some s
json_opt_string-opt_string none = refl
json_opt_string-opt_string (some s) = refl

json_opt_number-opt_number : (n : Option ℕ) → json_opt_number (opt_number n) ≡ some n
json_opt_number-opt_number none = refl
json_opt_number-opt_number (some n) = rw (count-nulls n) refl

pub validate-dump : (p : EventPayload) → validate (type_of p) (dump p) ≡ some p
validate-dump (created_payload p) = rw (items_definitions-definition_items p.steps) refl
validate-dump (attempt_payload p) =
    rw
      (
        text_name-name_text p.operation,
        json_opt_string-opt_string p.worker_id,
        json_opt_number-opt_number p.fence_token,
      )
      refl
validate-dump (retry_payload error next) = rw (count-nulls next) refl
validate-dump (completed_payload output) = refl
validate-dump (failed_payload error) = refl
validate-dump run_completed_payload = refl
validate-dump (run_failed_payload step error) = refl

abbrev request_json : StepRequest → Json
request_json (charge_step r) = object (
    field "amount_cents" (array (nulls r.amount_cents))
      (field "customer_id" (string r.customer_id) end))
request_json (provision_step r) =
    object (field "customer_id" (string r.customer_id) (field "plan" (string r.plan) end))
request_json (notify_step r) = object (
    field "customer_id" (string r.customer_id)
      (field "email" (string r.email) (field "message" (string r.message) end)))

abbrev pub codec : Pydantic
codec = record {
  validate = validate;
  dump = dump;
  dump_request = request_json;
  validate-dump = validate-dump;
}
