-- ===== src/Prelude/Maps.antt =====
-- Python's dictionaries keyed by texts, as lists of items in insertion order.
use Prim.Native.String.{String}
use mathlib.Core.Option.{Option, none, some}
use mathlib.Core.List.{List, [], ◌∷◌}
use crashsafe.Prelude.Tests.{if◌then◌else◌}
use crashsafe.Prelude.Texts.{str_eq}

module _ {ℓ} {A : Type ℓ} where
  -- `items.get(key)`
  unfoldable pub lookup : String → List (String × A) → Option A
  lookup key [] = none
  lookup key ((k, v) ∷ items) = if str_eq k key then some v else lookup key items

  -- `items[key] = value`
  unfoldable pub put : String → A → List (String × A) → List (String × A)
  put key value [] = (key, value) ∷ []
  put key value ((k, v) ∷ items) =
      let rest = put key value items in if str_eq k key then (k, value) ∷ items else (k, v) ∷ rest

  -- `items.setdefault(key, value)`
  unfoldable pub put_default : String → A → List (String × A) → List (String × A)
  put_default key value [] = (key, value) ∷ []
  put_default key value ((k, v) ∷ items) =
      let rest = put_default key value items in
      if str_eq k key then (k, v) ∷ items else (k, v) ∷ rest
