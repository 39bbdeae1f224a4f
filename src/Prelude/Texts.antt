-- ===== src/Prelude/Texts.antt =====
-- Texts, compared whole, and Python's sets of texts.
use Prim.Native.Nat.{suc, ◌≤◌}
use Prim.Native.String.{String}
use text.Mathlib.Text.{◌==◌ as eq}
use text.Mathlib.TextEquality.{eq_iff as str_eq_lem}
use mathlib.Core.Path.{◌≡◌, refl}
use mathlib.Core.Logic.{◌↔◌, inl, inr}
use mathlib.Core.Bool.{Bool, true, false, not, ◌&&◌, ◌||◌}
use mathlib.Core.List.{List, [], ◌∷◌, ◌++◌}
use native.Mathlib.Omega.{arith}
use crashsafe.Prelude.Tests.{if◌then◌else◌, ◌==◌, Bool-cases}
use crashsafe.Prelude.Lists.{length}

-- The library's test, shut, so that the tactics take it as an unknown with the law below.
unfoldable pub str_eq : String → String → Bool
str_eq = eq

pub str_eq_iff : (s t : String) → (str_eq s t ≡ true) ↔ (s ≡ t)
unfolding str_eq
str_eq_iff = str_eq_lem

pub str_eq_self : (s : String) → str_eq s s ≡ true
str_eq_self s = (str_eq_iff s s).1 refl

-- `x in xs`
unfoldable pub contains : String → List String → Bool
contains x [] = false
contains x (y ∷ ys) = str_eq x y || contains x ys

-- `set(xs)`: each element once.
unfoldable pub to_set : List String → List String
to_set [] = []
to_set (x ∷ xs) = if contains x xs then to_set xs else x ∷ to_set xs

-- `set(xs) <= set(ys)`
unfoldable pub subset : List String → List String → Bool
subset [] ys = true
subset (x ∷ xs) ys = contains x ys && subset xs ys

-- `len(set(xs)) != len(xs)`
unfoldable pub has_duplicates : List String → Bool
has_duplicates xs = not (length (to_set xs) == length xs)

abbrev pub Nodup : List String → Type 0
Nodup [] = Unit {0}
Nodup (x ∷ xs) = (contains x xs ≡ false) × Nodup xs

length-to_set-le : (xs : List String) → length (to_set xs) ≤ length xs
unfolding to_set
length-to_set-le [] = omega arith
length-to_set-le (x ∷ xs) = ground (arith, length-to_set-le xs)

has_duplicates_sound : (xs : List String) → length (to_set xs) ≡ length xs → Nodup xs
unfolding to_set
has_duplicates_sound [] h = tt
has_duplicates_sound (x ∷ xs) h = elim (Bool-cases (contains x xs)) [
  | inl e ↦ absurd (ground (arith, length-to_set-le xs))
  | inr e ↦ (e, has_duplicates_sound xs (ground arith))
]

has_duplicates_complete : (xs : List String) → Nodup xs → length (to_set xs) ≡ length xs
unfolding to_set
has_duplicates_complete [] h = refl
has_duplicates_complete (x ∷ xs) h = ground (arith, has_duplicates_complete xs h.1)

-- The test on the length of the set decides whether an element repeats.
pub has_duplicates-false_iff : (xs : List String) → (has_duplicates xs ≡ false) ↔ Nodup xs
unfolding has_duplicates
has_duplicates-false_iff xs =
    (λ h. has_duplicates_sound xs (ground arith), λ h. ground (arith, has_duplicates_complete xs h))

pub contains-append :
    (x : String) (xs ys : List String) → contains x (xs ++ ys) ≡ (contains x xs || contains x ys)
unfolding contains
contains-append x [] ys = refl
contains-append x (y ∷ xs) ys = ground (arith, contains-append x xs ys)

pub subset-contains :
    (xs ys : List String) (x : String)
    → subset xs ys ≡ true
    → contains x xs ≡ true
    → contains x ys ≡ true
unfolding subset contains
subset-contains [] ys x h c = cc
subset-contains (y ∷ xs) ys x h c = elim (Bool-cases (str_eq x y)) [
  | inl e ↦ (let p : x ≡ y = (str_eq_iff x y).0 e in ground arith)
  | inr e ↦ subset-contains xs ys x (ground arith) (ground arith)
]

pub subset_intro :
    (xs ys : List String)
    → ((x : String) → contains x xs ≡ true → contains x ys ≡ true)
    → subset xs ys ≡ true
unfolding subset contains
subset_intro [] ys h = refl
subset_intro (x ∷ xs) ys h =
    ground
      (arith, h x (ground (arith, str_eq_self x)), subset_intro xs ys (λ y m. h y (ground arith)))

-- The list without one occurrence of a text.
drop_first : String → List String → List String
drop_first x [] = []
drop_first x (y ∷ ys) = if str_eq x y then ys else y ∷ drop_first x ys

length-drop_first :
    (x : String) (ys : List String)
    → contains x ys ≡ true
    → length ys ≡ suc (length (drop_first x ys))
unfolding contains drop_first
length-drop_first x [] h = absurd (cc)
length-drop_first x (y ∷ ys) h = ground (arith, length-drop_first x ys)

contains-drop_first :
    (x z : String) (ys : List String)
    → str_eq z x ≡ false
    → contains z ys ≡ true
    → contains z (drop_first x ys) ≡ true
unfolding contains drop_first
contains-drop_first x z [] n h = absurd (cc)
contains-drop_first x z (y ∷ ys) n h =
    ground (arith, contains-drop_first x z ys n, str_eq_iff x y, str_eq_iff z y, str_eq_iff z x)

-- Distinct texts that all stand in a list are no more than its length.
pub length-le_of_contained :
    (xs ys : List String)
    → Nodup xs
    → ((x : String) → contains x xs ≡ true → contains x ys ≡ true)
    → length xs ≤ length ys
unfolding contains
length-le_of_contained [] ys d f = omega arith
length-le_of_contained (x ∷ xs) ys d f =
    let rest =
      length-le_of_contained xs (drop_first x ys) d.1
        λ z m. contains-drop_first x z ys (distinct_of x z xs d.0 m) (f z (ground arith)) in
    omega (arith, rest, length-drop_first x ys (f x (ground (arith, str_eq_self x))))
  where
    distinct_of :
        (x z : String) (xs : List String)
        → contains x xs ≡ false
        → contains z xs ≡ true
        → str_eq z x ≡ false
    distinct_of x z xs a b = elim (Bool-cases (str_eq z x)) [
      | inl e ↦ absurd (let same : z ≡ x = (str_eq_iff z x).0 e in cc)
      | inr e ↦ e
    ]
