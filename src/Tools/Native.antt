-- ===== src/Tools/Native.antt =====
-- internal/web/native_tools.go: the tool calls in the frames of the chat service. Go walks an object in
-- any order; here it is that of its fields.
pub mod Offered
mod Tests
use m365_copilot2api.Prelude.{
  List, [], ◌∷◌, ◌++◌, Option, none, some, Bool, true, false, ◌&&◌, not, Text, text_eq, codes,
  is_empty, any, if◌then◌else◌,
}
use m365_copilot2api.Json
use m365_copilot2api.Json.{Value, Items, Fields, as_string}
use m365_copilot2api.Tools.{DetectedToolCall}

-- The first of the keys that holds the name of a tool of the request.
unfoldable pub native_name : List Text → List Text → Fields → Option Text
unfolding any
native_name names [] m = none
native_name names (k ∷ ks) m =
    let rest = native_name names ks m in
    elim (as_string (Json.get k m)) [
      | none ↦ rest
      | some s ↦ if not (is_empty s) && any (λ n. text_eq n s) names then some s else rest
    ]

-- The value of the first of the keys that is there; `null` counts as missing then.
unfoldable pub native_arguments : List Text → Fields → Option Value
native_arguments [] m = none
native_arguments (k ∷ ks) m =
    let rest = native_arguments ks m in
    elim (Json.get k m) [ none ↦ rest | some Json.null ↦ none | some v ↦ some v ]

abbrev pub native_name_keys : List Text
native_name_keys =
    codes "name" ∷ codes "toolName" ∷ codes "pluginName" ∷ codes "functionName" ∷ codes "id" ∷ []

abbrev pub native_argument_keys : List Text
native_argument_keys =
    codes "arguments"
    ∷ codes "args"
    ∷ codes "parameters"
    ∷ codes "input"
    ∷ codes "functionArguments"
    ∷ []

-- The decoder and the encoder of JSON, and the hash of a name and its arguments.
pub record Native : Type 0 where
  pub decode : Text → Option Value
  pub encode : Value → Text
  pub call_id : Text → Text → Text

module _ (env : Native) (names : List Text) where
  -- The call that an object is, if it is one.
  unfoldable pub object_call : Fields → Option DetectedToolCall
  unfolding native_name native_arguments
  object_call m = elim (native_name names native_name_keys m) [
    | none ↦ none
    | some name ↦ elim (native_arguments native_argument_keys m) [
      | none ↦ none
      | some a ↦
          let b = env.encode a in
          some (record {
            id = codes "call_" ++ env.call_id name b;
            kind = [];
            name = name;
            arguments = b;
          })
    ]
  ]

  -- `walkNative`: what is a call is not searched.
  unfoldable mutual
    pub walk_native : Value → List DetectedToolCall
    walk_native (Json.arr vs) = walk_native_items vs
    walk_native (Json.obj m) =
        let inner = walk_native_fields m in elim (object_call m) [ some c ↦ c ∷ [] | none ↦ inner ]
    walk_native Json.null = []
    walk_native (Json.bool b) = []
    walk_native (Json.num n) = []
    walk_native (Json.str s) = []

    pub walk_native_items : Items → List DetectedToolCall
    walk_native_items Json.nil = []
    walk_native_items (Json.cons v vs) = walk_native v ++ walk_native_items vs

    pub walk_native_fields : Fields → List DetectedToolCall
    walk_native_fields Json.end = []
    walk_native_fields (Json.field k v fs) = walk_native v ++ walk_native_fields fs

  -- `nativeToolCalls`; `names` are those of the tools, empty where one has none.
  unfoldable pub native_tool_calls : List Text → List DetectedToolCall
  unfolding walk_native
  native_tool_calls [] = []
  native_tool_calls (e ∷ es) =
      elim (env.decode e) [ none ↦ [] | some v ↦ walk_native v ] ++ native_tool_calls es
