-- ===== src/Tool/Replay.antt =====
-- Once an effect is committed, the same request gets its result again and no other effect.
use crashsafe.Prelude.{
  String, Bool, true, false, ◌≡◌, refl, sym, subst, arith, ◌⊎◌, Option, none, some, List, [], ◌∷◌,
  ◌++◌, ok, >>=-eq-ok, str_eq, str_eq_self, find?, Bool-cases, Option-cases, Result-cases, inl, inr,
}
use crashsafe.Models.Values.{Json}
use crashsafe.Models.{Datetime, StepName, step_name_eq, StepRequest, ToolResult}
use crashsafe.History.Payloads.{Pydantic}
use crashsafe.Tool.{
  ResultRow, ToolDb, ToolState, served, ToolCall, deduplicate, taken, new_result, with_effect,
  find_result, cached, insert_effect, apply_body, apply, find, execute,
}

find?-append {ℓ} :
    {A : Type ℓ} (test : A → Bool) (xs ys : List A) (x : A)
    → find? test xs ≡ some x
    → find? test (xs ++ ys) ≡ some x
unfolding find?
find?-append test [] ys x h = absurd (cc)
find?-append test (y ∷ xs) ys x h = ground (arith, find?-append test xs ys x)

find?-append_last {ℓ} :
    {A : Type ℓ} (test : A → Bool) (xs : List A) (x : A)
    → find? test xs ≡ none
    → test x ≡ true
    → find? test (xs ++ x ∷ []) ≡ some x
unfolding find?
find?-append_last test [] x h t = ground arith
find?-append_last test (y ∷ xs) x h t = ground (arith, find?-append_last test xs x)

step_name_eq_self : (n : StepName) → step_name_eq n n ≡ true
step_name_eq_self StepName.charge = refl
step_name_eq_self StepName.provision = refl
step_name_eq_self StepName.notify = refl

module _ (py : Pydantic) (request_hash : Json → String) (operation : StepName)
    (operation_key : String) (request : StepRequest) where
  -- The row answers the request with the result.
  record Answers (result : ToolResult) (db : ToolDb) : Type 0 where
    row : ResultRow
    found : find_result db operation_key ≡ some row
    matching : cached py request_hash operation request row ≡ ok (deduplicate result)

  with_effect-Answers :
      (uuid : String) (now : Datetime) (db : ToolDb)
      → find_result db operation_key ≡ none
      → Answers
          (new_result operation uuid)
          (with_effect py request_hash operation operation_key request uuid now db)
  unfolding find_result
  with_effect-Answers uuid now db absent = record {
    row = record {
      operation_key = operation_key;
      operation = operation;
      request_hash = request_hash (py.dump_request request);
      response = new_result operation uuid;
      created_at = now;
    };
    found =
        find?-append_last (λ (r : ResultRow). str_eq r.operation_key operation_key)
          db.idempotency_results _ absent (str_eq_self operation_key);
    matching =
        ground (
          arith,
          step_name_eq_self operation,
          str_eq_self (request_hash (py.dump_request request)),
        );
  }

  insert_effect-Answers :
      (uuid : String) (now : Datetime) (db after : ToolDb) (result : ToolResult) (created : Bool)
      → find_result db operation_key ≡ none
      → insert_effect py request_hash operation operation_key request uuid now db
        ≡ ok ((result, created), after)
      → Answers result after
  unfolding insert_effect
  insert_effect-Answers uuid now db after result created absent h =
      let same_result : new_result operation uuid ≡ result = ground arith in
      let same_db : with_effect py request_hash operation operation_key request uuid now db
          ≡ after =
        ground arith in
      subst (λ r. Answers r after) same_result
        (subst (Answers (new_result operation uuid)) same_db
          (with_effect-Answers uuid now db absent))

  apply_body-Answers :
      (uuid : String) (now : Datetime) (db after : ToolDb) (result : ToolResult) (created : Bool)
      → apply_body py request_hash operation operation_key request uuid now db
        ≡ ok ((result, created), after)
      → Answers result after
  unfolding apply_body
  apply_body-Answers uuid now db after result created h =
      elim (Option-cases (find_result db operation_key)) [
        | inl e ↦ insert_effect-Answers uuid now db after result created e (rw (apply_body, e) at h)
        | inr (row, e) ↦
            let (saved, c, h₁) =
              >>=-eq-ok (cached py request_hash operation request row) _
                (rw (apply_body, e) at h) in
            let same : db ≡ after = ground (arith, h₁) in
            record {
              row = row;
              found = subst (λ d. find_result d operation_key ≡ some row) same e;
              matching = ground (arith, c, h₁);
            }
      ]

  -- A call changes the tables only by the rows of a new key.
  pub apply_after :
      (uuid : String) (now : Datetime) (db : ToolDb)
      → ((apply py request_hash operation operation_key request uuid now db).1 ≡ db)
        ⊎ ((find_result db operation_key ≡ none)
            × ((apply py request_hash operation operation_key request uuid now db).1
                ≡ with_effect py request_hash operation operation_key request uuid now db))
  unfolding apply apply_body insert_effect
  apply_after uuid now db = elim (Option-cases (find_result db operation_key)) [
    | inl e ↦ elim (Bool-cases (taken operation operation_key uuid db)) [
      | inl t ↦ inl (ground (arith, e, t))
      | inr t ↦ inr (e, ground (arith, e, t))
    ]
    | inr (row, e) ↦ inl (ground (arith, e))
  ]

  apply-Answers :
      (uuid : String) (now : Datetime) (db : ToolDb) (result : ToolResult) (created : Bool)
      → (apply py request_hash operation operation_key request uuid now db).0 ≡ ok (result, created)
      → Answers result (apply py request_hash operation operation_key request uuid now db).1
  unfolding apply
  apply-Answers uuid now db result created h =
      elim (Result-cases (apply_body py request_hash operation operation_key request uuid now db)) [
        | inl ((p, after), e) ↦ apply_body-Answers uuid now db _ result created (ground (arith, e))
        | inr (error, e) ↦ absurd (ground (arith, e))
      ]

  Answers-apply :
      (result : ToolResult) (db : ToolDb)
      → Answers result db
      → (uuid : String) (now : Datetime)
      → apply py request_hash operation operation_key request uuid now db
        ≡ (ok (deduplicate result, false), db)
  unfolding apply apply_body
  Answers-apply result db a uuid now = ground (arith, a.found, a.matching)

  Answers-find :
      (result : ToolResult) (db : ToolDb)
      → Answers result db
      → find py request_hash operation operation_key request db ≡ ok (some (deduplicate result))
  unfolding find
  Answers-find result db a = ground (arith, a.found, a.matching)

-- The calls of `apply` by any handlers, in the order of their transactions.
pub data Commits (py : Pydantic) (request_hash : Json → String) (db : ToolDb)
    : ToolDb → Type 0 where
  stays : Commits py request_hash db db
  applies :
      (middle : ToolDb) (operation : StepName) (operation_key : String) (request : StepRequest)
      (uuid : String) (now : Datetime)
      → Commits py request_hash db middle
      → Commits py request_hash db
          (apply py request_hash operation operation_key request uuid now middle).1

module _ (py : Pydantic) (request_hash : Json → String) where
  apply-find_result :
      (operation : StepName) (other operation_key : String) (request : StepRequest) (uuid : String)
      (now : Datetime) (db : ToolDb) (row : ResultRow)
      → find_result db operation_key ≡ some row
      → find_result (apply py request_hash operation other request uuid now db).1 operation_key
        ≡ some row
  unfolding find_result
  apply-find_result operation other operation_key request uuid now db row h =
      elim (apply_after py request_hash operation other request uuid now db) [
        | inl e ↦ subst (λ d. find_result d operation_key ≡ some row) (sym e) h
        | inr (absent, e) ↦
            subst (λ d. find_result d operation_key ≡ some row) (sym e)
              (find?-append (λ (r : ResultRow). str_eq r.operation_key operation_key)
                db.idempotency_results _ row h)
      ]

  Commits-Answers :
      (operation : StepName) (operation_key : String) (request : StepRequest) (result : ToolResult)
      (db later : ToolDb)
      → Answers py request_hash operation operation_key request result db
      → Commits py request_hash db later
      → Answers py request_hash operation operation_key request result later
  Commits-Answers operation operation_key request result db later a stays = a
  Commits-Answers operation operation_key request result db later a
        (applies middle other_operation other other_request uuid now before) =
      let b = Commits-Answers operation operation_key request result db middle a before in
      record {
        row = b.row;
        found =
            apply-find_result other_operation other operation_key other_request uuid now middle
              b.row b.found;
        matching = b.matching;
      }

module _ (py : Pydantic) (request_hash : Json → String) (operation : StepName)
    (operation_key : String) (request : StepRequest) (uuid : String) (now : Datetime)
    (db later : ToolDb) (result : ToolResult) (created : Bool)
    (applied : (apply py request_hash operation operation_key request uuid now db).0
      ≡ ok (result, created))
    (commits : Commits py request_hash
      (apply py request_hash operation operation_key request uuid now db).1
      later) where
  -- Once `apply` has returned a result for a key, then after any transactions of any calls the same
  -- operation, key and request get that result again, marked as deduplicated, from `apply` and from
  -- `find`, and the tables stay as they are: no second effect.
  pub apply-replay :
      (uuid' : String) (now' : Datetime)
      → (apply py request_hash operation operation_key request uuid' now' later
          ≡ (ok (deduplicate result, false), later))
        × (find py request_hash operation operation_key request later
            ≡ ok (some (deduplicate result)))
  apply-replay uuid' now' =
      let a =
        Commits-Answers py request_hash operation operation_key request result _ later
          (apply-Answers py request_hash operation operation_key request uuid now db result created
            applied)
          commits in
      (
        Answers-apply py request_hash operation operation_key request result later a uuid' now',
        Answers-find py request_hash operation operation_key request result later a,
      )

  -- After it every handler's call with the same operation, key and request is served that result,
  -- whatever faults are still scripted or drawn, and uses none of them up.
  pub execute-replay :
      (validate_request : StepName → Json → Option StepRequest) (forced : Option StepName)
      (call : ToolCall) (state : ToolState)
      → call.operation ≡ operation
      → call.operation_key ≡ operation_key
      → validate_request operation call.payload ≡ some request
      → state.db ≡ later
      → execute py request_hash validate_request forced call state
        ≡ (served (deduplicate result), state)
  unfolding execute
  execute-replay validate_request forced call state o k v same =
      let (_, found) = apply-replay "" 0 in ground (arith, o, k, v, same, found)
