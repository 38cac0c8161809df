-- ===== src/Events/Tests.antt =====
-- An update that holds one tool call twice, for internal/chathub/stream_events.go.
use m365_copilot2api.Prelude.{[], ◌≡◌, refl, length, Text, codes, any, text_eq}
use m365_copilot2api.Json.{Value, Fields, field, end, str, obj, arr, cons, nil, string_at}
use m365_copilot2api.Events.{extract_tool_events, extract_tool_fields}
use m365_copilot2api.Events.Seen.{Adds, objects, extract_tool_events-Adds}

abbrev encode : Value → Text
encode v = codes "{}"

abbrev call : Fields
call = field (codes "name") (str (codes "search")) (field (codes "args") (obj end) end)

abbrev update : Value
update =
    obj
      (field (codes "messages") (arr (cons (obj call) nil)) (field (codes "plugin") (obj call) end))

reported_once : length (extract_tool_events encode update []).out ≡ 1
unfolding extract_tool_events string_at any text_eq extract_tool_fields
reported_once = refl

extract_tool_events-Adds_example :
    Adds encode
      (objects update)
      (record { seen = []; out = [] })
      (extract_tool_events encode update [])
extract_tool_events-Adds_example = extract_tool_events-Adds encode update []
