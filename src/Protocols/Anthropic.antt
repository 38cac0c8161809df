-- ===== src/Protocols/Anthropic.antt =====
-- `anthropicRequest.openAI` of internal/web/protocol_compat.go, and `writeAnthropicResult` of
-- internal/web/protocol_response.go with `toolCallMaps` of internal/web/xml_tools.go.
pub mod RoundTrip
use m365_copilot2api.Json
use m365_copilot2api.Prelude.{
  none, some, Text, List, [], ◌∷◌, ◌++◌, Option, Bool, text_eq, is_empty, codes, if◌then◌else◌, map,
}
use m365_copilot2api.Json.{Fields, Value, Items, string_at, object_at, as_object, as_string}
use m365_copilot2api.Message.{Message}
use m365_copilot2api.Protocols.{value_at, openai_call, say, tool_result}
use m365_copilot2api.Completions.{Tool, OaiReq}
use m365_copilot2api.Tools.{DetectedToolCall}

pub record AnthropicMessage : Type 0 where
  pub role : Text
  pub content : Value

-- `anthropicTool`; a schema that is missing is the nil map.
pub record AnthropicTool : Type 0 where
  pub name : Text
  pub description : Text
  pub input_schema : Option Fields

pub record AnthropicRequest : Type 0 where
  pub model : Text
  pub system : Value
  pub messages : List AnthropicMessage
  pub tools : List AnthropicTool
  pub tool_choice : Value
  pub stream : Bool

-- What the blocks of a message become: contents, calls, and messages of their own.
pub record Blocks : Type 0 where
  pub texts : Items
  pub calls : List Fields
  pub results : List Message

abbrev no_blocks : Blocks
no_blocks = record { texts = Json.nil; calls = []; results = [] }

abbrev or_octets : Text → Text
or_octets media = if is_empty media then codes "application/octet-stream" else media

-- The case `image`, in front of the other contents.
unfoldable pub image_block : Fields → Items → Items
unfolding string_at object_at
image_block b rest =
    let source = object_at (codes "source") b in
    let bytes = string_at (codes "data") source in
    if is_empty bytes
    then rest
    else Json.cons
        (Json.obj (
          Json.field (codes "type") (Json.str (codes "input_image")) (
            Json.field (codes "image_url")
              (Json.str (
                codes "data:"
                ++ or_octets (string_at (codes "media_type") source)
                ++ codes ";base64,"
                ++ bytes))
              Json.end)))
        rest

pub data Block : Type 0 where
  text image tool_use result other : Block

unfoldable pub block_of : Text → Block
block_of typ =
    if text_eq typ (codes "text")
    then text
    else if text_eq typ (codes "image")
    then image
    else if text_eq typ (codes "tool_use")
    then tool_use
    else if text_eq typ (codes "tool_result")
    then result
    else other

module _ (encode : Value → Text) where
  -- `switch typ`, for a block in front of others.
  unfoldable pub take_block : Block → Fields → Blocks → Blocks
  unfolding image_block string_at
  take_block text b rest = record rest { texts = Json.cons (Json.obj b) rest.texts }
  take_block image b rest = record rest { texts = image_block b rest.texts }
  take_block tool_use b rest = record rest {
    calls =
        openai_call (value_at (codes "id") b) (codes "function") (value_at (codes "name") b)
          (encode (value_at (codes "input") b))
        ∷ rest.calls;
  }
  take_block result b rest = record rest {
    results =
        tool_result (string_at (codes "tool_use_id") b) (value_at (codes "content") b)
        ∷ rest.results;
  }
  take_block other b rest = rest

  unfoldable pub blocks_of : Items → Blocks
  unfolding take_block block_of string_at
  blocks_of Json.nil = no_blocks
  blocks_of (Json.cons v vs) =
      let rest = blocks_of vs in
      elim (as_object (some v)) [
        | none ↦ rest
        | some b ↦ take_block (block_of (string_at (codes "type") b)) b rest
      ]

  -- The messages of the blocks: the tool results first.
  unfoldable pub messages_of : Text → Items → List Fields → List Message → List Message
  messages_of role Json.nil [] results = results
  messages_of role Json.nil (c ∷ cs) results =
      results ++ record (say role (Json.arr Json.nil)) { tool_calls = c ∷ cs } ∷ []
  messages_of role (Json.cons t ts) calls results =
      results ++ record (say role (Json.arr (Json.cons t ts))) { tool_calls = calls } ∷ []

  -- A message; content that is neither a text nor a list is an error.
  unfoldable pub convert_message : AnthropicMessage → Option (List Message)
  unfolding blocks_of messages_of
  convert_message m = elim m.content [
    | Json.str s ↦ some (say m.role (Json.str s) ∷ [])
    | Json.arr bs ↦ let b = blocks_of bs in some (messages_of m.role b.texts b.calls b.results)
    | v ↦ none
  ]

  unfoldable pub convert_messages : List AnthropicMessage → Option (List Message)
  unfolding convert_message
  convert_messages [] = some []
  convert_messages (m ∷ ms) =
      let rest = convert_messages ms in
      elim (convert_message m) [
        | none ↦ none
        | some out ↦ elim rest [ none ↦ none | some outs ↦ some (out ++ outs) ]
      ]

  unfoldable pub convert_tool : AnthropicTool → Tool
  convert_tool t = record {
    kind = codes "function";
    function = encode (
        Json.obj (
          Json.field (codes "name") (Json.str t.name) (
            Json.field (codes "description") (Json.str t.description) (
              Json.field (codes "parameters")
                (elim t.input_schema [ none ↦ Json.null | some m ↦ Json.obj m ]) Json.end))));
  }

-- The choice of a tool, in the words of OpenAI; any other choice is nil.
unfoldable pub choice_of : Value → Value
choice_of (Json.obj c) = elim (value_at (codes "type") c) [
  | Json.str s ↦
      if text_eq s (codes "auto")
      then Json.str (codes "auto")
      else if text_eq s (codes "any")
      then Json.str (codes "required")
      else if text_eq s (codes "none")
      then Json.str (codes "none")
      else if text_eq s (codes "tool")
      then Json.obj (
          Json.field (codes "type") (Json.str (codes "function")) (
            Json.field (codes "function")
              (Json.obj (Json.field (codes "name") (value_at (codes "name") c) Json.end)) Json.end))
      else Json.null
  | v ↦ Json.null
]
choice_of v = Json.null

unfoldable pub system_message : Value → List Message
system_message Json.null = []
system_message v = say (codes "system") v ∷ []

-- `openAI`; `none` is the error.
unfoldable pub anthropic_request : (Value → Text) → AnthropicRequest → Option OaiReq
unfolding convert_messages convert_tool choice_of system_message
anthropic_request encode r = elim (convert_messages encode r.messages) [
  | none ↦ none
  | some ms ↦ some (record {
    model = r.model;
    response_format = none;
    messages = system_message r.system ++ ms;
    stream = r.stream;
    user = [];
    account_id = [];
    conversation_id = [];
    session_id = [];
    session_key = [];
    attachments = [];
    tools = map (convert_tool encode) r.tools;
    functions = [];
    tool_choice = choice_of r.tool_choice;
    function_call = Json.null;
    reasoning = none;
    reasoning_effort = [];
  })
]

-- `toolCallMaps`.
unfoldable pub tool_call_map : DetectedToolCall → Fields
tool_call_map c =
    openai_call (Json.str c.id) (if is_empty c.kind then codes "function" else c.kind)
      (Json.str c.name) c.arguments

-- The input of a `tool_use` block: the arguments, if they are JSON, or else an empty object.
unfoldable pub input_of : (Text → Option Value) → Fields → Value
input_of decode fn = elim (as_string (Json.get (codes "arguments") fn)) [
  | none ↦ Json.obj Json.end
  | some a ↦ elim (decode a) [ none ↦ Json.obj Json.end | some v ↦ v ]
]

unfoldable pub use_block : (Text → Option Value) → Fields → Value
unfolding object_at input_of
use_block decode tc =
    let fn = object_at (codes "function") tc in
    Json.obj (
      Json.field (codes "type") (Json.str (codes "tool_use")) (
        Json.field (codes "id") (value_at (codes "id") tc) (
          Json.field (codes "name") (value_at (codes "name") fn)
            (Json.field (codes "input") (input_of decode fn) Json.end))))

-- The blocks of `writeAnthropicResult` for an answer with calls.
unfoldable pub use_blocks : (Text → Option Value) → List Fields → Items
unfolding use_block
use_blocks decode [] = Json.nil
use_blocks decode (tc ∷ tcs) = Json.cons (use_block decode tc) (use_blocks decode tcs)
