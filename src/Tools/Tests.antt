-- ===== src/Tools/Tests.antt =====
-- An answer with two calls, for internal/web/toolloop.go.
use m365_copilot2api.Prelude.{
  ◌≡◌, ◌≤◌, refl, min, max, [], ◌∷◌, List, some, Text, codes, All, length, ltb, take, trim_space,
  contains,
}
use m365_copilot2api.Json.{Value, Fields, field, end, str, obj, null, arr, cons, nil}
use m365_copilot2api.Message.{Message, tool}
use m365_copilot2api.Tools.{
  Env, DetectedToolCall, tagged, extract_tool_calls, limit_tool_calls, adaptive_tool_call_limit,
}
use m365_copilot2api.Tools.Extract.{IsPermitted, extract_tool_calls-IsPermitted}
use m365_copilot2api.Tools.Limits.{passed, passed-first}

abbrev named : Text → Value
named n = obj (field (codes "name") (str n) end)

abbrev two_calls : Value
two_calls = arr (cons (named (codes "read_file")) (cons (named (codes "rm")) nil))

abbrev env : Env
env = record {
  decode = λ s. some two_calls;
  encode = λ v. codes "null";
  call_id = λ n a i. n;
  lower = λ s. s;
}

abbrev tools : List Fields
tools = field (codes "function") (named (codes "read_file")) end ∷ []

abbrev answer : Text
answer = codes "go <m365-tool-call>[]</m365-tool-call>"

enclosed : tagged answer ≡ some (codes "[]")
unfolding tagged
enclosed = refl

extract_tool_calls-IsPermitted_example :
    All (IsPermitted env tools null) (extract_tool_calls env answer tools null).0
    × ((extract_tool_calls env answer tools null).1
        ≡ ltb 0 (length (extract_tool_calls env answer tools null).0))
extract_tool_calls-IsPermitted_example = extract_tool_calls-IsPermitted env tools null answer

abbrev result : Message
result = record {
  role = tool;
  content = null;
  name = [];
  tool_call_id = codes "c1";
  tool_calls = [];
}

abbrev read : Text → DetectedToolCall
read n = record { id = n; kind = codes "function"; name = n; arguments = [] }

abbrev reads : List DetectedToolCall
reads = read (codes "read_file") ∷ read (codes "list_dir") ∷ read (codes "search") ∷ []

passed-first_example :
    (passed env reads 2 ≡ take (length (passed env reads 2)) reads)
    × (min 1 (length reads) ≤ length (passed env reads 2))
    × (length (passed env reads 2) ≤ max 1 2)
passed-first_example = passed-first env reads 2

two_pass : length (passed env reads 2) ≡ 2
unfolding limit_tool_calls adaptive_tool_call_limit trim_space contains
two_pass = refl
