-- ===== src/Json.antt =====
-- The values of `serde_json`, which the source reads and writes. A number is an integer or the bit
-- pattern of an `f64`, as `serde_json::Number` distinguishes them.
use hoglet.Prelude.{ℕ, ◌^◌, String, Bool, Option, none, some, List, [], ◌∷◌, ltb, if◌then◌else◌}
use hoglet.Prelude.Int.{ℤ}
use hoglet.Prelude.Map.{Map}

pub data Number : Type 0 where
  int : ℤ → Number
  float : ℕ → Number

mutual
  pub data Value : Type 0 where
    null : Value
    bool : Bool → Value
    number : Number → Value
    string : String → Value
    array : Items → Value
    object : Fields → Value

  pub data Items : Type 0 where
    nil : Items
    cons : Value → Items → Items

  pub data Fields : Type 0 where
    end : Fields
    field : String → Value → Fields → Fields

-- `serde_json::Map`.
abbrev pub Object : Type 0
Object = Map String Value

abbrev pub to_object : Fields → Object
to_object end = []
to_object (field k v fs) = (k, v) ∷ to_object fs

abbrev pub to_list : Items → List Value
to_list nil = []
to_list (cons v vs) = v ∷ to_list vs

-- `Value::as_str`, `as_bool`, `as_object`, `as_array`.
abbrev pub as_str : Value → Option String
as_str (string s) = some s
as_str v = none

abbrev pub as_bool : Value → Option Bool
as_bool (bool b) = some b
as_bool v = none

abbrev pub as_object : Value → Option Object
as_object (object fs) = some (to_object fs)
as_object v = none

abbrev pub as_array : Value → Option (List Value)
as_array (array vs) = some (to_list vs)
as_array v = none

-- `Value::as_i64`: an integer in range.
abbrev pub as_i64 : Value → Option ℤ
as_i64 (number (int (ℤ.pos n))) = if ltb n (2 ^ 63) then some (ℤ.pos n) else none
as_i64 (number (int (ℤ.negsuc n))) = if ltb n (2 ^ 63) then some (ℤ.negsuc n) else none
as_i64 v = none
