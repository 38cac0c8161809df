-- ===== src/Protocols/Tests.antt =====
-- Two calls of one turn, given back in the protocols of internal/web/protocol_compat.go.
use m365_copilot2api.Json
use m365_copilot2api.Prelude.{
  none, some, ok, err, refl, Text, [], ◌∷◌, Option, map, ◌≡◌, codes, true, text_eq, trim_space,
}
use m365_copilot2api.Json.{Fields, Value, Items, string_at}
use m365_copilot2api.Message.{Message, assistant}
use m365_copilot2api.Tools.{DetectedToolCall}
use m365_copilot2api.Protocols.{say}
use m365_copilot2api.Protocols.Anthropic.{convert_messages, use_blocks, tool_call_map}
use m365_copilot2api.Protocols.Anthropic.RoundTrip.{as_function, echo-round_trip}
use m365_copilot2api.Protocols.Responses.{ResponsesRequest, responses_request, item_of, call_item}
use m365_copilot2api.Protocols.Responses.Turns.{parallel_calls-refused}
use m365_copilot2api.Completions.{OaiReq}
use m365_copilot2api.Conversation.{Error, validate_tool_conversation}

abbrev decode : Text → Option Value
decode t = some (Json.obj Json.end)

abbrev encode : Value → Text
encode v = codes "{}"

abbrev call_of : Text → DetectedToolCall
call_of id = record { id = id; kind = []; name = codes "read"; arguments = codes "{}" }

echo-round_trip_example :
    convert_messages encode (
      record {
        role = assistant;
        content = Json.arr (
            use_blocks decode (map tool_call_map (call_of (codes "1") ∷ call_of (codes "2") ∷ [])));
      }
      ∷ [])
    ≡ some (
        record (say assistant (Json.arr Json.nil)) {
          tool_calls = map as_function (call_of (codes "1") ∷ call_of (codes "2") ∷ []);
        }
        ∷ [])
echo-round_trip_example =
    echo-round_trip decode encode (call_of (codes "1")) (call_of (codes "2") ∷ [])
      ((Json.obj Json.end, refl, refl), ((Json.obj Json.end, refl, refl), tt))

abbrev item : Text → Fields
item id = Json.field (codes "type") (Json.str (codes "function_call")) (
    Json.field (codes "call_id") (Json.str id) (
      Json.field (codes "name") (Json.str (codes "read"))
        (Json.field (codes "arguments") (Json.str (codes "{}")) Json.end)))

abbrev items : Items
items = Json.cons (Json.obj (item (codes "1"))) (Json.cons (Json.obj (item (codes "2"))) Json.nil)

abbrev request : ResponsesRequest
request = record {
  model = [];
  account_id = [];
  instructions = [];
  input = Json.arr items;
  tools = [];
  tool_choice = Json.null;
  stream = true;
  user = [];
  reasoning = none;
}

abbrev message_of : Text → Message
message_of id = record (say assistant Json.null) { tool_calls = tool_call_map (call_of id) ∷ [] }

abbrev translated : OaiReq
translated = record {
  model = [];
  response_format = none;
  messages = message_of (codes "1") ∷ message_of (codes "2") ∷ [];
  stream = true;
  user = [];
  account_id = [];
  conversation_id = [];
  session_id = [];
  session_key = [];
  attachments = [];
  tools = [];
  functions = [];
  tool_choice = Json.null;
  function_call = Json.null;
  reasoning = none;
  reasoning_effort = [];
}

becomes_translated : responses_request decode encode request ≡ ok translated
unfolding responses_request text_eq trim_space tool_call_map
becomes_translated = refl

calls_alone : item_of (string_at (codes "type") (item (codes "1"))) ≡ call_item
unfolding item_of string_at text_eq
calls_alone = refl

calls_again : item_of (string_at (codes "type") (item (codes "2"))) ≡ call_item
unfolding item_of string_at text_eq
calls_again = refl

parallel_calls-refused_example :
    (e : Error) × (validate_tool_conversation translated.messages ≡ err e)
parallel_calls-refused_example =
    parallel_calls-refused decode encode request translated items [] (item (codes "1"))
      (item (codes "2")) [] refl refl calls_alone calls_again becomes_translated
