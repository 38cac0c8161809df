-- ===== src/Json.antt =====
-- The values of Go's `any` that encoding/json produces: what `json.Unmarshal` puts into an `any`,
-- and the type assertions by which the handlers of internal/web and internal/chathub read it.
use m365_copilot2api.Prelude.{
  ℕ, ◌^◌, ◌%◌, List, [], ◌∷◌, Option, none, some, Bool, Text, text_eq, nat_eq, if◌then◌else◌,
}

-- A finite float64 is, up to sign, a number over a power of two.
pub record Number : Type 0 where
  pub negative : Bool
  pub magnitude : ℕ
  pub scale : ℕ

-- `math.Trunc(n) == n`.
unfoldable pub is_integral : Number → Bool
is_integral n = nat_eq (n.magnitude % 2 ^ n.scale) 0

-- `map[string]any` is the list of its fields, `[]any` the list of its items.
mutual
  pub data Value : Type 0 where
    null : Value
    bool : Bool → Value
    num : Number → Value
    str : Text → Value
    arr : Items → Value
    obj : Fields → Value

  pub data Items : Type 0 where
    nil : Items
    cons : Value → Items → Items

  pub data Fields : Type 0 where
    end : Fields
    field : Text → Value → Fields → Fields

-- `v, ok := m[k]`.
unfoldable pub get : Text → Fields → Option Value
get k end = none
get k (field j v fs) = let rest = get k fs in if text_eq j k then some v else rest

abbrev pub items_list : Items → List Value
items_list nil = []
items_list (cons v vs) = v ∷ items_list vs

abbrev pub fields_list : Fields → List (Text × Value)
fields_list end = []
fields_list (field k v fs) = (k, v) ∷ fields_list fs

-- `v.(string)`, `v.(bool)`, `v.(map[string]any)` and `v.([]any)` with the flag `ok`. A missing key
-- reads as `nil`, of which every assertion fails.
abbrev pub as_string : Option Value → Option Text
as_string (some (str s)) = some s
as_string (some null) = none
as_string (some (bool b)) = none
as_string (some (num n)) = none
as_string (some (arr vs)) = none
as_string (some (obj fs)) = none
as_string none = none

abbrev pub as_bool : Option Value → Option Bool
as_bool (some (bool b)) = some b
as_bool (some null) = none
as_bool (some (str s)) = none
as_bool (some (num n)) = none
as_bool (some (arr vs)) = none
as_bool (some (obj fs)) = none
as_bool none = none

abbrev pub as_object : Option Value → Option Fields
as_object (some (obj fs)) = some fs
as_object (some null) = none
as_object (some (bool b)) = none
as_object (some (num n)) = none
as_object (some (str s)) = none
as_object (some (arr vs)) = none
as_object none = none

abbrev pub as_array : Option Value → Option Items
as_array (some (arr vs)) = some vs
as_array (some null) = none
as_array (some (bool b)) = none
as_array (some (num n)) = none
as_array (some (str s)) = none
as_array (some (obj fs)) = none
as_array none = none

-- `s, _ := m[k].(string)` and `f, _ := m[k].(map[string]any)`: the zero value on failure.
unfoldable pub string_at : Text → Fields → Text
unfolding get
string_at k fs = elim (as_string (get k fs)) [ none ↦ [] | some s ↦ s ]

unfoldable pub object_at : Text → Fields → Fields
unfolding get
object_at k fs = elim (as_object (get k fs)) [ none ↦ end | some f ↦ f ]
