-- ===== src/Tool/Ledger.antt =====
-- The two tables stay in step: an effect for each cached result, and one for a key.
use crashsafe.Prelude.{
  String, false, ◌||◌, ◌≡◌, refl, sym, subst, arith, none, List, [], ◌∷◌, ◌++◌, map, str_eq,
  str_eq_iff, find?, inl, inr, Nodup, contains,
}
use crashsafe.Models.Values.{Json}
use crashsafe.Models.{Datetime, StepName, StepRequest}
use crashsafe.History.Payloads.{Pydantic}
use crashsafe.Tool.{ResultRow, EffectRow, ToolDb, find_result, apply}
use crashsafe.Tool.Replay.{Commits, stays, applies, apply_after}

-- The cached result of an effect, with the digest of the request that the effect carries.
pub record IsCached (request_hash : Json → String) (row : ResultRow) (effect : EffectRow)
    : Type 0 where
  pub operation_key : row.operation_key ≡ effect.operation_key
  pub operation : row.operation ≡ effect.operation
  pub request : row.request_hash ≡ request_hash effect.request
  pub reference : row.response.reference_id ≡ effect.id
  pub answered : row.response.operation ≡ effect.operation
  pub fresh : row.response.deduplicated ≡ false

abbrev pub AllCached : (Json → String) → List ResultRow → List EffectRow → Type 0
AllCached request_hash [] [] = Unit
AllCached request_hash (row ∷ rows) (effect ∷ effects) =
    IsCached request_hash row effect × AllCached request_hash rows effects
AllCached request_hash _ _ = ⊥

abbrev pub effect_keys : List EffectRow → List String
effect_keys = map (λ (effect : EffectRow). effect.operation_key)

pub record IsLedger (request_hash : Json → String) (db : ToolDb) : Type 0 where
  pub paired : AllCached request_hash db.idempotency_results db.side_effects
  pub once : Nodup (effect_keys db.side_effects)

AllCached-append :
    (request_hash : Json → String) (rows : List ResultRow) (effects : List EffectRow)
    (row : ResultRow) (effect : EffectRow)
    → AllCached request_hash rows effects
    → IsCached request_hash row effect
    → AllCached request_hash (rows ++ row ∷ []) (effects ++ effect ∷ [])
AllCached-append request_hash [] [] row effect h c = (c, tt)
AllCached-append request_hash [] (e ∷ effects) row effect h c = elim h [ ]
AllCached-append request_hash (r ∷ rows) [] row effect h c = elim h [ ]
AllCached-append request_hash (r ∷ rows) (e ∷ effects) row effect h c =
    (h.0, AllCached-append request_hash rows effects row effect h.1 c)

-- A key without a cached result has no effect.
absent_key :
    (request_hash : Json → String) (rows : List ResultRow) (effects : List EffectRow) (key : String)
    → AllCached request_hash rows effects
    → find? (λ (row : ResultRow). str_eq row.operation_key key) rows ≡ none
    → contains key (effect_keys effects) ≡ false
unfolding find? contains
absent_key request_hash [] [] key h n = refl
absent_key request_hash [] (effect ∷ effects) key h n = elim h [ ]
absent_key request_hash (row ∷ rows) [] key h n = elim h [ ]
absent_key request_hash (row ∷ rows) (effect ∷ effects) key h n = ground (
  arith,
  absent_key request_hash rows effects key h.1,
  h.0.operation_key,
  str_eq_iff row.operation_key key,
  str_eq_iff key effect.operation_key,
)

contains-effect_keys :
    (key : String) (effects : List EffectRow) (effect : EffectRow)
    → contains key (effect_keys (effects ++ effect ∷ []))
      ≡ (contains key (effect_keys effects) || str_eq key effect.operation_key)
unfolding contains
contains-effect_keys key [] effect = ground arith
contains-effect_keys key (e ∷ effects) effect =
    ground (arith, contains-effect_keys key effects effect)

Nodup-append_last :
    (effects : List EffectRow) (effect : EffectRow)
    → Nodup (effect_keys effects)
    → contains effect.operation_key (effect_keys effects) ≡ false
    → Nodup (effect_keys (effects ++ effect ∷ []))
unfolding contains
Nodup-append_last [] effect d c = (refl, tt)
Nodup-append_last (e ∷ effects) effect d c = (
  ground (
    arith,
    d.0,
    contains-effect_keys e.operation_key effects effect,
    str_eq_iff e.operation_key effect.operation_key,
    str_eq_iff effect.operation_key e.operation_key,
  ),
  Nodup-append_last effects effect d.1 (ground arith),
)

apply-IsLedger :
    (py : Pydantic) (request_hash : Json → String) (operation : StepName) (operation_key : String)
    (request : StepRequest) (uuid : String) (now : Datetime) (db : ToolDb)
    → IsLedger request_hash db
    → IsLedger request_hash (apply py request_hash operation operation_key request uuid now db).1
unfolding find_result
apply-IsLedger py request_hash operation operation_key request uuid now db l =
    elim (apply_after py request_hash operation operation_key request uuid now db) [
      | inl e ↦ subst (IsLedger request_hash) (sym e) l
      | inr (absent, e) ↦ subst (IsLedger request_hash) (sym e) (record {
        paired =
            AllCached-append request_hash db.idempotency_results db.side_effects _ _ l.paired
              (record {
                operation_key = refl;
                operation = refl;
                request = refl;
                reference = refl;
                answered = refl;
                fresh = refl;
              });
        once = Nodup-append_last db.side_effects _ l.once (
            absent_key request_hash db.idempotency_results db.side_effects operation_key l.paired
              absent);
      })
    ]

-- Whatever calls of `apply` commit, and in whatever order, every cached result keeps exactly one
-- effect, of the same key, operation, request digest and reference, and no key has two effects.
pub Commits-IsLedger :
    (py : Pydantic) (request_hash : Json → String) (db later : ToolDb)
    → IsLedger request_hash db
    → Commits py request_hash db later
    → IsLedger request_hash later
Commits-IsLedger py request_hash db later l stays = l
Commits-IsLedger py request_hash db later l
      (applies middle operation operation_key request uuid now before) =
    apply-IsLedger py request_hash operation operation_key request uuid now middle
      (Commits-IsLedger py request_hash db middle l before)
