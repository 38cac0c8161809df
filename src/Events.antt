-- ===== src/Events.antt =====
-- internal/chathub/stream_events.go: the events in an update of the chat service. `json.Marshal` is an
-- argument. Go walks a map in any order; here the fields come in the order of the list.
pub mod Seen
mod Tests
use m365_copilot2api.Prelude.{
  List, [], ◌∷◌, ◌++◌, Option, none, some, Bool, true, false, ◌&&◌, ◌||◌, Text, text_eq, codes,
  is_empty, any, if◌then◌else◌,
}
use m365_copilot2api.Json
use m365_copilot2api.Json.{Value, Items, Fields, as_object, string_at}

pub data Kind : Type 0 where
  plain progress tool : Kind

-- `StreamEvent`; `raw` is set by `extractToolEvents` alone.
pub record StreamEvent : Type 0 where
  pub kind : Kind
  pub text : Text
  pub message_type : Text
  pub content_type : Text
  pub tool_name : Text
  pub arguments : Text
  pub raw : Text

-- The first of the keys that holds a text that is not empty.
unfoldable pub first_name : List Text → Fields → Text
unfolding string_at
first_name [] m = []
first_name (k ∷ ks) m =
    let rest = first_name ks m in if is_empty (string_at k m) then rest else string_at k m

module _ (encode : Value → Text) where
  -- The first of the keys that is there and is encoded as some text.
  unfoldable pub first_arguments : List Text → Fields → Option Text
  first_arguments [] m = none
  first_arguments (k ∷ ks) m =
      let rest = first_arguments ks m in
      elim (Json.get k m) [
        | none ↦ rest
        | some v ↦ if is_empty (encode v) then rest else some (encode v)
      ]

  -- `extractToolFields`: the name and the arguments, or none of them.
  unfoldable pub extract_tool_fields : Fields → Option (Text × Text)
  unfolding first_name first_arguments
  extract_tool_fields m =
      let name =
        first_name
          (codes "name" ∷ codes "toolName" ∷ codes "pluginName" ∷ codes "functionName" ∷ []) m in
      if is_empty name
      then none
      else elim (first_arguments
          (codes "arguments"
            ∷ codes "args"
            ∷ codes "parameters"
            ∷ codes "input"
            ∷ codes "functionArguments"
            ∷ [])
          m) [ none ↦ none | some a ↦ some (name, a) ]

  -- One message of `classifyUpdateMessages`.
  unfoldable pub classify_message : Fields → List StreamEvent
  unfolding extract_tool_fields string_at
  classify_message m =
      let text = string_at (codes "text") m in
      let mt = string_at (codes "messageType") m in
      let ct = string_at (codes "contentType") m in
      let kind =
        (if text_eq mt (codes "Progress")
            || text_eq ct (codes "SearchResults")
            || text_eq ct (codes "Code")
            || text_eq ct (codes "ToolCall")
          then progress
          else plain) in
      elim (extract_tool_fields m) [
        | some (name, args) ↦
            record {
              kind = tool;
              text = text;
              message_type = mt;
              content_type = ct;
              tool_name = name;
              arguments = args;
              raw = [];
            }
            ∷ []
        | none ↦ elim kind [
          | plain ↦
              if is_empty text
              then []
              else record {
                kind = plain;
                text = text;
                message_type = mt;
                content_type = ct;
                tool_name = [];
                arguments = [];
                raw = [];
              }
                ∷ []
          | k ↦
              record {
                kind = k;
                text = text;
                message_type = mt;
                content_type = ct;
                tool_name = [];
                arguments = [];
                raw = [];
              }
              ∷ []
        ]
      ]

  unfoldable pub classify_update_messages : List Value → List StreamEvent
  unfolding classify_message
  classify_update_messages [] = []
  classify_update_messages (v ∷ vs) =
      let rest = classify_update_messages vs in
      elim (as_object (some v)) [ none ↦ rest | some m ↦ classify_message m ++ rest ]

-- The state of `extractToolEvents`: the map `seen`, and `out`.
pub record Walk : Type 0 where
  pub seen : List Text
  pub out : List StreamEvent

-- `name + "|" + string(args)`.
abbrev pub key_of : StreamEvent → Text
key_of e = e.tool_name ++ codes "|" ++ e.arguments

module _ (encode : Value → Text) where
  -- What `walk` does with an object before it goes into it.
  unfoldable pub note : Fields → Walk → Walk
  unfolding any
  note m w = elim (extract_tool_fields encode m) [
    | none ↦ w
    | some (name, args) ↦
        let e : StreamEvent = record {
          kind = tool;
          text = [];
          message_type = [];
          content_type = [];
          tool_name = name;
          arguments = args;
          raw = encode (Json.obj m);
        } in
        if any (text_eq (key_of e)) w.seen
        then w
        else record { seen = w.seen ++ key_of e ∷ []; out = w.out ++ e ∷ [] }
  ]

  unfoldable mutual
    unfolding note

    pub walk : Value → Walk → Walk
    walk (Json.arr vs) w = walk_items vs w
    walk (Json.obj m) w = walk_fields m (note m w)
    walk Json.null w = w
    walk (Json.bool b) w = w
    walk (Json.num n) w = w
    walk (Json.str s) w = w

    pub walk_items : Items → Walk → Walk
    walk_items Json.nil w = w
    walk_items (Json.cons v vs) w = walk_items vs (walk v w)

    pub walk_fields : Fields → Walk → Walk
    walk_fields Json.end w = w
    walk_fields (Json.field k v m) w = walk_fields m (walk v w)

  -- `extractToolEvents`.
  unfoldable pub extract_tool_events : Value → List Text → Walk
  unfolding walk
  extract_tool_events v seen = walk v (record { seen = seen; out = [] })
