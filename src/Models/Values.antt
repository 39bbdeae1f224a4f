-- ===== src/Models/Values.antt =====
-- Decoded JSON values (`dict[str, Any]`). The keys of an object stand sorted, as
-- `json.dumps(sort_keys=True)` writes them, so equality of dictionaries is equality of values.
-- Of the floats, JSON has the finite ones, and the sign of a zero is not kept.
use crashsafe.Prelude.{
  String, Bool, true, false, ◌&&◌, ◌≡◌, refl, arith, str_eq, str_eq_iff, ℤ, pos, int_eq,
  int_eq_self, in_units,
}

mutual
  pub data Json : Type 0 where
    null : Json
    boolean : Bool → Json
    integer : ℤ → Json
    -- a float, as a number of units of 2 ^ -1074
    real : ℤ → Json
    string : String → Json
    array : Items → Json
    object : Fields → Json

  pub data Items : Type 0 where
    nil : Items
    cons : Json → Items → Items

  pub data Fields : Type 0 where
    end : Fields
    field : String → Json → Fields → Fields

abbrev bool_eq : Bool → Bool → Bool
bool_eq true true = true
bool_eq false false = true
bool_eq _ _ = false

-- `int(b)`
abbrev of_bool : Bool → ℤ
of_bool true = pos 1
of_bool false = pos 0

-- `==` of two values; Python takes 1, 1.0 and True as equal
unfoldable mutual
  pub json_eq : Json → Json → Bool
  json_eq null null = true
  json_eq (boolean a) (boolean b) = bool_eq a b
  json_eq (boolean a) (integer n) = int_eq (of_bool a) n
  json_eq (boolean a) (real x) = int_eq (in_units (of_bool a)) x
  json_eq (integer m) (boolean b) = int_eq m (of_bool b)
  json_eq (integer m) (integer n) = int_eq m n
  json_eq (integer m) (real x) = int_eq (in_units m) x
  json_eq (real x) (boolean b) = int_eq x (in_units (of_bool b))
  json_eq (real x) (integer n) = int_eq x (in_units n)
  json_eq (real x) (real y) = int_eq x y
  json_eq (string a) (string b) = str_eq a b
  json_eq (array a) (array b) = items_eq a b
  json_eq (object a) (object b) = fields_eq a b
  json_eq _ _ = false

  pub items_eq : Items → Items → Bool
  items_eq nil nil = true
  items_eq (cons a as') (cons b bs) = json_eq a b && items_eq as' bs
  items_eq _ _ = false

  pub fields_eq : Fields → Fields → Bool
  fields_eq end end = true
  fields_eq (field j a as') (field k b bs) = str_eq j k && (json_eq a b && fields_eq as' bs)
  fields_eq _ _ = false

mutual
  unfolding json_eq items_eq fields_eq

  json_eq_refl : (a : Json) → json_eq a a ≡ true
  json_eq_refl null = refl
  json_eq_refl (boolean true) = refl
  json_eq_refl (boolean false) = refl
  json_eq_refl (integer n) = int_eq_self n
  json_eq_refl (real x) = int_eq_self x
  json_eq_refl (string a) = (str_eq_iff a a).1 refl
  json_eq_refl (array a) = items_eq_refl a
  json_eq_refl (object a) = fields_eq_refl a

  items_eq_refl : (a : Items) → items_eq a a ≡ true
  items_eq_refl nil = refl
  items_eq_refl (cons a as') = ground (arith, json_eq_refl a, items_eq_refl as')

  fields_eq_refl : (a : Fields) → fields_eq a a ≡ true
  fields_eq_refl end = refl
  fields_eq_refl (field k a as') =
      ground (arith, (str_eq_iff k k).1 refl, json_eq_refl a, fields_eq_refl as')

pub json_eq_self : (a : Json) → json_eq a a ≡ true
json_eq_self a = json_eq_refl a
