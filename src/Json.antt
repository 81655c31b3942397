-- ===== src/Json.antt =====
-- The JSON values that the program passes on or looks into (Python's dict, list, str, int, bool,
-- float and None after json.loads).
use sandbox_2025team.Base.{
  Bool, true, false, not, Option, none, some, ◌==◌, if◌then◌else◌, is_empty,
}
use sandbox_2025team.Base.Int.{ℤ, pos, negsuc}
use sandbox_2025team.Base.Text.{Text, text_eq}

-- A float is kept as its text, with whether it is zero.
mutual
  pub data Json : Type 0 where
    null : Json
    bool : Bool → Json
    int : ℤ → Json
    float : Bool → Text → Json
    str : Text → Json
    arr : Items → Json
    obj : Fields → Json

  pub data Items : Type 0 where
    nil : Items
    cons : Json → Items → Items

  pub data Fields : Type 0 where
    end : Fields
    field : Text → Json → Fields → Fields

-- `d.get(key)`.
unfoldable pub get : Text → Fields → Option Json
get k end = none
get k (field j v fs) = if text_eq j k then some v else get k fs

-- `d.get(key, default)`.
abbrev pub get_or : Text → Json → Fields → Json
get_or k d fs = elim (get k fs) [ none ↦ d | some v ↦ v ]

abbrev pub is_zero : ℤ → Bool
is_zero (pos n) = n == 0
is_zero (negsuc n) = false

-- The truth value of a value.
unfoldable pub truthy : Json → Bool
truthy null = false
truthy (bool b) = b
truthy (int n) = not (is_zero n)
truthy (float zero_value t) = not zero_value
truthy (str t) = not (is_empty t)
truthy (arr nil) = false
truthy (arr (cons x xs)) = true
truthy (obj end) = false
truthy (obj (field k v fs)) = true

-- `isinstance(v, int)`: a bool is an int.
unfoldable pub is_int : Json → Bool
is_int (bool b) = true
is_int (int n) = true
is_int _ = false

-- `isinstance(v, dict)`.
unfoldable pub is_object : Json → Bool
is_object (obj fs) = true
is_object _ = false
