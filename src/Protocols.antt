-- ===== src/Protocols.antt =====
-- internal/web/protocol_compat.go and protocol_response.go: how the requests of the Responses and the
-- Anthropic protocol become requests of openaiChat, and how an answer becomes one of Anthropic's. JSON is
-- decoded and encoded by arguments.
pub mod Responses
pub mod Anthropic
mod Tests
use m365_copilot2api.Json
use m365_copilot2api.Prelude.{none, some, Text, codes, [], ◌∷◌}
use m365_copilot2api.Message.{Message, tool}
use m365_copilot2api.Json.{Value, Fields}

-- `m[k]`; a missing key reads as nil.
abbrev pub value_at : Text → Fields → Value
value_at k m = elim (Json.get k m) [ none ↦ Json.null | some v ↦ v ]

-- A tool call of the OpenAI protocol.
abbrev pub openai_call : Value → Text → Value → Text → Fields
openai_call id kind name arguments = Json.field (codes "id") id (
    Json.field (codes "type") (Json.str kind) (
      Json.field (codes "function")
        (Json.obj (
          Json.field (codes "name") name
            (Json.field (codes "arguments") (Json.str arguments) Json.end)))
        Json.end))

abbrev pub say : Text → Value → Message
say role content = record {
  role = role;
  content = content;
  name = [];
  tool_call_id = [];
  tool_calls = [];
}

abbrev pub tool_result : Text → Value → Message
tool_result id content = record {
  role = tool;
  content = content;
  name = [];
  tool_call_id = id;
  tool_calls = [];
}
