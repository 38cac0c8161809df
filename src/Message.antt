-- ===== src/Message.antt =====
-- The chat messages of the OpenAI protocol: `oaiMsg` of internal/web/server.go.
use m365_copilot2api.Prelude.{List, Text, text_eq, codes, Bool}
use m365_copilot2api.Json.{Value, Fields}

pub record Message : Type 0 where
  pub role : Text
  pub content : Value
  pub name : Text
  pub tool_call_id : Text
  pub tool_calls : List Fields

-- `m.Role == "assistant"` and the like.
unfoldable pub is_role : Text → Message → Bool
is_role r m = text_eq m.role r

abbrev pub assistant : Text
assistant = codes "assistant"

abbrev pub tool : Text
tool = codes "tool"

abbrev pub user : Text
user = codes "user"
