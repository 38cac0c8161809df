-- ===== src/Conversation/Tests.antt =====
-- A conversation with one tool call, for internal/web/tool_state.go.
use m365_copilot2api.Prelude.{◌≡◌, ◌↔◌, [], ◌∷◌, List, codes, ok}
use m365_copilot2api.Json.{Fields, field, end, str, null}
use m365_copilot2api.Message.{Message, assistant, tool}
use m365_copilot2api.Conversation.{State, validate_tool_conversation}
use m365_copilot2api.Conversation.Protocol.{Legal, validate_tool_conversation-Legal}

abbrev call : Fields
call = field (codes "id") (str (codes "c1")) end

abbrev asks : Message
asks = record {
  role = assistant;
  content = null;
  name = [];
  tool_call_id = [];
  tool_calls = call ∷ [];
}

abbrev answers : Message
answers = record {
  role = tool;
  content = str (codes "done");
  name = [];
  tool_call_id = codes "c1";
  tool_calls = [];
}

abbrev talk : List Message
talk = asks ∷ answers ∷ []

validate_tool_conversation-Legal_example :
    ((s : State) × (validate_tool_conversation talk ≡ ok s)) ↔ Legal [] [] talk
validate_tool_conversation-Legal_example = validate_tool_conversation-Legal talk
