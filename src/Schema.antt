-- ===== src/Schema.antt =====
-- internal/web/tooldecision.go: the arguments of a tool call checked against the tool's JSON schema.
-- Decoding has left one field for each key. Go walks a map in any order, so of several errors it reports
-- any one; here it is the first.
pub mod Types
pub mod Clauses
pub mod Conforms
mod Tests
use m365_copilot2api.Prelude.{
  ℕ, ◌+◌, ◌≡◌, List, [], ◌∷◌, ◌++◌, Option, none, some, Bool, true, false, ◌&&◌, not, Text, text_eq,
  codes, any, if◌then◌else◌,
}
use m365_copilot2api.Json
use m365_copilot2api.Json.{
  Value, Items, Fields, is_integral, items_list, string_at, object_at, as_array, as_bool, as_object,
  as_string,
}
use m365_copilot2api.Ledger.{decimal}

pub data SchemaError : Type 0 where
  not_in_enum : Text → SchemaError
  must_be : Text → Text → SchemaError
  missing_argument not_allowed : Text → SchemaError

-- `toolFunction`; a tool without one gives no fields, as Go's nil map has none.
unfoldable pub tool_function : Text → List Fields → Fields
unfolding string_at object_at
tool_function name [] = Json.end
tool_function name (t ∷ ts) =
    let rest = tool_function name ts in
    let f = object_at (codes "function") t in
    if text_eq (string_at (codes "name") f) name then f else rest

-- The type that the schema names.
abbrev pub type_of : Fields → Text
type_of s = string_at (codes "type") s

-- The case of `switch typ` that tests the value's own type.
unfoldable pub fits : Text → Value → Bool
fits t Json.null = not (
    any (text_eq t) (
      codes "object"
      ∷ codes "array"
      ∷ codes "string"
      ∷ codes "number"
      ∷ codes "integer"
      ∷ codes "boolean"
      ∷ []))
fits t (Json.bool b) = not (
    any (text_eq t) (
      codes "object"
      ∷ codes "array"
      ∷ codes "string"
      ∷ codes "number"
      ∷ codes "integer"
      ∷ codes "null"
      ∷ []))
fits t (Json.num n) =
    not (
      any (text_eq t)
        (codes "object" ∷ codes "array" ∷ codes "string" ∷ codes "boolean" ∷ codes "null" ∷ []))
    && (if text_eq t (codes "integer") then is_integral n else true)
fits t (Json.str s) = not (
    any (text_eq t) (
      codes "object"
      ∷ codes "array"
      ∷ codes "number"
      ∷ codes "integer"
      ∷ codes "boolean"
      ∷ codes "null"
      ∷ []))
fits t (Json.arr vs) = not (
    any (text_eq t) (
      codes "object"
      ∷ codes "string"
      ∷ codes "number"
      ∷ codes "integer"
      ∷ codes "boolean"
      ∷ codes "null"
      ∷ []))
fits t (Json.obj m) = not (
    any (text_eq t) (
      codes "array"
      ∷ codes "string"
      ∷ codes "number"
      ∷ codes "integer"
      ∷ codes "boolean"
      ∷ codes "null"
      ∷ []))

-- The values of `enum`, if it is a list.
abbrev pub enum_of : Fields → Option Items
enum_of s = as_array (Json.get (codes "enum") s)

-- The names of `required`; an entry that is no text reads as the empty name.
abbrev name_of : Value → Text
name_of (Json.str n) = n
name_of Json.null = []
name_of (Json.bool b) = []
name_of (Json.num n) = []
name_of (Json.arr vs) = []
name_of (Json.obj m) = []

abbrev pub names_of : List Value → List Text
names_of [] = []
names_of (v ∷ vs) = name_of v ∷ names_of vs

abbrev pub required_of : Fields → List Text
required_of s = elim (as_array (Json.get (codes "required") s)) [
  | none ↦ []
  | some vs ↦ names_of (items_list vs)
]

abbrev pub properties_of : Fields → Fields
properties_of s = object_at (codes "properties") s

abbrev pub has_field : Text → Fields → Bool
has_field n m = elim (Json.get n m) [ none ↦ false | some v ↦ true ]

unfoldable pub check_required : List Text → Fields → Option SchemaError
check_required [] m = none
check_required (n ∷ ns) m =
    let rest = check_required ns m in if has_field n m then rest else some (missing_argument n)

-- The loop over the fields where `additionalProperties` is false.
unfoldable pub check_closed : Text → Fields → Fields → Option SchemaError
check_closed path Json.end props = none
check_closed path (Json.field n v m) props =
    let rest = check_closed path m props in
    if has_field n props then rest else some (not_allowed (path ++ codes "." ++ n))

-- Whether `additionalProperties` is there and false.
abbrev pub is_closed : Fields → Bool
is_closed s = elim (as_bool (Json.get (codes "additionalProperties") s)) [
  | some b ↦ not b
  | none ↦ false
]

abbrev pub or_error : Option SchemaError → Option SchemaError → Option SchemaError
or_error none rest = rest
or_error (some e) rest = some e

-- `json.Marshal` is an argument.
module _ (encode : Value → Text) where
  unfoldable pub check_enum : Text → Value → Fields → Option SchemaError
  unfolding any
  check_enum path v s = elim (enum_of s) [
    | none ↦ none
    | some es ↦
        if any (λ e. text_eq (encode v) (encode e)) (items_list es)
        then none
        else some (not_in_enum path)
  ]

  -- The tests that do not go into the value.
  unfoldable pub check_flat : Text → Value → Fields → Option SchemaError
  unfolding check_enum fits
  check_flat path v s =
      or_error (check_enum path v s)
        (if fits (type_of s) v then none else some (must_be path (type_of s)))

  -- `validateJSONSchema`.
  unfoldable mutual
    unfolding check_flat check_required check_closed

    pub check : Text → Value → Fields → Option SchemaError
    check path (Json.obj m) s =
        let inner = check_fields path m (properties_of s) in
        or_error (check_flat path (Json.obj m) s) (
          if text_eq (type_of s) (codes "object")
          then or_error (check_required (required_of s) m)
              (or_error (if is_closed s then check_closed path m (properties_of s) else none) inner)
          else none)
    check path (Json.arr vs) s =
        or_error (check_flat path (Json.arr vs) s) (elim (as_object (Json.get (codes "items") s)) [
          | none ↦ none
          | some item ↦
              let inner = check_items path 0 vs item in
              if text_eq (type_of s) (codes "array") then inner else none
        ])
    check path Json.null s = check_flat path Json.null s
    check path (Json.bool b) s = check_flat path (Json.bool b) s
    check path (Json.num n) s = check_flat path (Json.num n) s
    check path (Json.str t) s = check_flat path (Json.str t) s

    -- The loop over the fields that have a schema.
    pub check_fields : Text → Fields → Fields → Option SchemaError
    check_fields path Json.end props = none
    check_fields path (Json.field n v m) props =
        let rest = check_fields path m props in
        elim (as_object (Json.get n props)) [
          | none ↦ rest
          | some ps ↦ or_error (check (path ++ codes "." ++ n) v ps) rest
        ]

    -- The loop over the items, the first with index `i`.
    pub check_items : Text → ℕ → Items → Fields → Option SchemaError
    check_items path i Json.nil item = none
    check_items path i (Json.cons v vs) item =
        or_error (check (path ++ codes "[" ++ decimal i ++ codes "]") v item)
          (check_items path (i + 1) vs item)

  -- `schemaValid`.
  unfoldable pub schema_valid : Fields → Fields → Option SchemaError
  unfolding check
  schema_valid args fn = elim (as_object (Json.get (codes "parameters") fn)) [
    | none ↦ none
    | some params ↦ check (codes "arguments") (Json.obj args) params
  ]
