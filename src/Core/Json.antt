-- ===== src/Core/Json.antt =====
-- JSON documents (`serde_json::Value`, `Metadata` of crates/kengram-core/src/metadata.rs) and the
-- reading of their parts.
use k_engram.Prelude.{Bool, Option, none, some, if◌then◌else◌}
use k_engram.Text.{Text, codes, text_eq}

-- A number is only ever compared: its spelling stands for it.
mutual
  pub data Value : Type 0 where
    null : Value
    bool : Bool → Value
    number : Text → Value
    string : Text → Value
    array : Items → Value
    object : Fields → Value

  pub data Items : Type 0 where
    nil : Items
    cons : Value → Items → Items

  pub data Fields : Type 0 where
    end : Fields
    field : Text → Value → Fields → Fields

unfoldable pub get_field : Fields → Text → Option Value
get_field end key = none
get_field (field k v fs) key = if text_eq k key then some v else get_field fs key

-- `value.get(key)`: none on anything but an object.
unfoldable pub get : Value → Text → Option Value
unfolding get_field
get (object fs) key = get_field fs key
get _ key = none

-- `value.as_str()`.
unfoldable pub as_str : Value → Option Text
as_str (string s) = some s
as_str _ = none

-- `and_then(|v| v.as_str())`.
abbrev pub str_of : Option Value → Option Text
str_of none = none
str_of (some v) = as_str v

-- `as_array().and_then(|items| items.first())`.
unfoldable pub first_item : Value → Option Value
first_item (array (cons v vs)) = some v
first_item _ = none

-- The step `/0` of a JSON pointer: an index of an array, a key of an object.
unfoldable pub pointer_zero : Value → Option Value
unfolding first_item get
pointer_zero (array items) = first_item (array items)
pointer_zero (object fs) = get (object fs) (codes "0")
pointer_zero _ = none

abbrev pub then_value : Option Value → (Value → Option Value) → Option Value
then_value none f = none
then_value (some v) f = f v
