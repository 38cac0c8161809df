-- ===== src/Ledger/Collect.antt =====
-- The first loop of `buildAgentLedger`, internal/web/agent_ledger.go: the calls of a conversation and
-- their results.
use m365_copilot2api.Prelude.{
  Text, List, [], ◌∷◌, ◌++◌, none, some, Text_eq, Dict, codes, lookup, false, if◌then◌else◌,
  is_empty, insert,
}
use m365_copilot2api.Json.{string_at, object_at, Fields}
use m365_copilot2api.Message.{Message, is_role, assistant, tool}
use m365_copilot2api.Ledger.{
  Env, ToolEvidence, content_to_string, compact_tool_result, argument_text,
}

-- The state of the first loop: the evidence by identifier, and the identifiers in order.
pub record Calls : Type 0 where
  pub evidence : Dict Text ToolEvidence
  pub order : List Text

abbrev pub no_calls : Calls
no_calls = record { evidence = []; order = [] }

-- One call of an assistant message; a call with no identifier is left out.
unfoldable pub note_call : Env → Fields → Calls → Calls
unfolding argument_text
note_call env raw c =
    let id = string_at (codes "id") raw in
    let fn = object_at (codes "function") raw in
    if is_empty id then c else record {
      evidence =
          insert id
            (record {
              id = id;
              name = string_at (codes "name") fn;
              arguments = argument_text env fn;
              result = [];
              failed = false;
            })
            c.evidence;
      order = c.order ++ id ∷ [];
    }

unfoldable pub note_calls : Env → List Fields → Calls → Calls
note_calls env [] c = c
note_calls env (raw ∷ raws) c = note_calls env raws (note_call env raw c)

-- A tool message: its text becomes the result of the call that it names.
unfoldable pub note_result : Env → Message → Calls → Calls
unfolding content_to_string compact_tool_result
note_result env m c = elim (lookup m.tool_call_id c.evidence) [
  | none ↦ c
  | some e ↦
      let r = compact_tool_result (content_to_string env m.content) 4000 in
      record c {
        evidence =
            insert m.tool_call_id (record e { result = r; failed = env.failure_signal r })
              c.evidence;
      }
]

-- One message of the first loop.
unfoldable pub note_message : Env → Message → Calls → Calls
unfolding is_role
note_message env m c =
    let c1 = (if is_role assistant m then note_calls env m.tool_calls c else c) in
    if is_role tool m then note_result env m c1 else c1

unfoldable pub note_messages : Env → List Message → Calls → Calls
note_messages env [] c = c
note_messages env (m ∷ ms) c = note_messages env ms (note_message env m c)

-- `calls[id]`, the zero value if there is none.
abbrev pub no_evidence : ToolEvidence
no_evidence = record { id = []; name = []; arguments = []; result = []; failed = false }

abbrev pub evidence_of : Dict Text ToolEvidence → Text → ToolEvidence
evidence_of d id = elim (lookup id d) [ none ↦ no_evidence | some e ↦ e ]
