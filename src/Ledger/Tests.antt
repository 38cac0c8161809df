-- ===== src/Ledger/Tests.antt =====
-- A conversation with one answered and one open call, for internal/web/agent_ledger.go.
use m365_copilot2api.Prelude.{
  ◌≡◌, ◌≤◌, max, [], ◌∷◌, List, codes, none, Text, filter, length, contains, arith,
}
use m365_copilot2api.Json.{field, end, str, obj, Fields}
use m365_copilot2api.Message.{Message, assistant, tool, user}
use m365_copilot2api.Ledger.{Env, compact_tool_result}
use m365_copilot2api.Ledger.Compact.{length-compact_tool_result-le}
use m365_copilot2api.Ledger.Tally.{build_agent_ledger}
use m365_copilot2api.Ledger.Followed.{calls_of}
use m365_copilot2api.Ledger.Tally.Parts.{has_result, no_result, build_agent_ledger-parts}

abbrev env : Env
env = record {
  failure_signal = λ s. contains s (codes "error");
  unsupported_success = λ s. contains s (codes "done");
  lower = λ s. s;
  sprint = λ v. [];
  canonical_json = λ s. none;
}

abbrev message : Text → Text → Text → List Fields → Message
message role text id calls = record {
  role = role;
  content = str text;
  name = [];
  tool_call_id = id;
  tool_calls = calls;
}

abbrev call : Text → Fields
call id =
    field (codes "id") (str id)
      (field (codes "function") (obj (field (codes "name") (str (codes "ls")) end)) end)

abbrev talk : List Message
talk =
    message user (codes "go") [] []
    ∷ message assistant [] [] (call (codes "c1") ∷ call (codes "c2") ∷ [])
    ∷ message tool (codes "a.txt") (codes "c1") []
    ∷ []

length-compact_tool_result-le_example :
    length (compact_tool_result (codes "  some text ") 10) ≤ max 10 200
length-compact_tool_result-le_example =
    length-compact_tool_result-le (codes "  some text ") 10 (omega arith)

build_agent_ledger-parts_example :
    ((build_agent_ledger env talk).completed ≡ filter has_result (calls_of env talk))
    × ((build_agent_ledger env talk).pending ≡ filter no_result (calls_of env talk))
    × ((build_agent_ledger env talk).tool_rounds ≡ length (calls_of env talk))
build_agent_ledger-parts_example = build_agent_ledger-parts env talk
