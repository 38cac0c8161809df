-- ===== src/Completions/Prompt.antt =====
-- The texts for the chat service: `flattenPromptMessages` of internal/web/prompt.go, `RouterContext` of
-- agent_ledger.go, `modelToolRouterPrompt` of model_tool_router.go, and the rules that `openaiChat` adds.
use m365_copilot2api.Json
use m365_copilot2api.Prelude.{
  Text, List, codes, trim_space, ◌∷◌, ◌++◌, if◌then◌else◌, is_empty, [], text_eq, none, some,
}
use m365_copilot2api.Completions.Content.{parse_content}
use m365_copilot2api.Message.{Message, user, tool}
use m365_copilot2api.Ledger.{compact_tool_result, AgentLedger}
use m365_copilot2api.Json.{Value, Fields, as_string, as_object}
use m365_copilot2api.Completions.{Attachment, Env}

abbrev nl : Text
nl = codes "\n"

-- What a message becomes, of the given role and the given trimmed text.
unfoldable pub block : Env → Message → Text → Text → Text
unfolding compact_tool_result
block env m role txt =
    let said = codes "\n[" ++ role ++ codes "]\n" ++ txt ++ nl in
    elim m.tool_calls [
      | c ∷ cs ↦
          (if is_empty txt then [] else said)
          ++ codes "\n["
          ++ role
          ++ codes " tool_calls]\n"
          ++ env.encode_calls (c ∷ cs)
          ++ nl
      | [] ↦
          if text_eq role tool
          then codes "\n[tool result id="
            ++ m.tool_call_id
            ++ codes "]\n"
            ++ compact_tool_result txt 4000
            ++ nl
          else if is_empty txt
          then []
          else said
    ]

-- `strings.ToLower(strings.TrimSpace(m.Role))`, or user.
unfoldable pub role_of : Env → Message → Text
role_of env m = let r = env.ledger.lower (trim_space m.role) in if is_empty r then user else r

unfoldable pub blocks : Env → List Message → Text
unfolding block role_of parse_content
blocks env [] = []
blocks env (m ∷ ms) =
    block env m (role_of env m) (trim_space (parse_content env.ledger m.content).0) ++ blocks env ms

unfoldable pub all_files : Env → List Message → List Attachment
unfolding parse_content
all_files env [] = []
all_files env (m ∷ ms) = (parse_content env.ledger m.content).1 ++ all_files env ms

-- `flattenPromptMessages`.
unfoldable pub flatten_prompt_messages :
    Env → List Message → List Attachment → Text × List Attachment
unfolding blocks all_files
flatten_prompt_messages env ms attachments =
    (trim_space (blocks env ms), attachments ++ all_files env ms)

-- `RouterContext`.
unfoldable pub router_context : Env → AgentLedger → Text
router_context env l =
    codes
      "Use only this compact evidence. A completed call is final evidence; do not issue the same name and arguments again."
    ++ (if l.repeated_failure
        then codes
            " The same call failed repeatedly; change strategy instead of retrying unchanged."
        else [])
    ++ codes "\nEVIDENCE_LEDGER: "
    ++ env.encode_evidence l.completed l.pending l.repeated_call

-- `normalizedToolChoiceMode`.
unfoldable pub normalized_tool_choice_mode : Value → Text
normalized_tool_choice_mode (Json.str s) = s
normalized_tool_choice_mode (Json.obj m) =
    let direct : Text = elim (as_string (Json.get (codes "name") m)) [
      | none ↦ codes "auto"
      | some n ↦ codes "named:" ++ n
    ] in
    elim (as_object (Json.get (codes "function") m)) [
      | none ↦ direct
      | some f ↦ elim (as_string (Json.get (codes "name") f)) [
        | none ↦ direct
        | some n ↦ codes "named:" ++ n
      ]
    ]
normalized_tool_choice_mode v = codes "auto"

-- `modelToolRouterPrompt`.
unfoldable pub model_tool_router_prompt : Env → Text → List Fields → Value → Text
unfolding normalized_tool_choice_mode
model_tool_router_prompt env prompt tools choice =
    codes
      "You are a tool selection assistant. Based on the user request, decide which tool to call next.\n\nAvailable tools: "
    ++ env.encode_tools tools
    ++ codes "\n\nMode: "
    ++ normalized_tool_choice_mode choice
    ++ codes "\n\nRules:\n- Prefer a fenced tool_call block:\n```tool_call\n"
    ++ codes "{\"name\":\"tool_name\",\"arguments\":{\"arg1\":\"value1\"}}\n```\n"
    ++ codes "- Legacy formats also accepted: CALL_TOOL: tool_name({\"arg1\":\"value1\"}) or "
    ++ codes "{\"calls\":[{\"name\":\"...\",\"arguments\":{...}}]}\n"
    ++ codes "- If no tool is needed, respond with: NO_TOOL_NEEDED\n"
    ++ codes "- Only use tools from the available list above\n"
    ++ codes "- Validate all arguments against the tool's schema\n"
    ++ codes "- Do not invent tools that are not in the list\n\nUser request and evidence:\n"
    ++ prompt

abbrev repair_head : Text
repair_head =
    codes "Repair this tool routing output into JSON only with shape "
    ++ codes "{\"calls\":[{\"name\":\"function_name\",\"arguments\":{}}]}. "

-- What is asked where a decision cannot be parsed; the first text ends with a backslash and an n, as the
-- source has it between back quotes.
abbrev pub repair_text : Text
repair_text = repair_head ++ codes "Use {\"calls\":[]} if no tool is needed. OUTPUT:\\n"

abbrev pub strict_repair_text : Text
strict_repair_text =
    repair_head ++ codes "Do not invent calls; use {\"calls\":[]} if unrecoverable. OUTPUT:\n"

-- What is asked once more where a tool is required and none was chosen.
unfoldable pub retry_text : Env → Text → AgentLedger → List Fields → Text
unfolding router_context
retry_text env prompt l tools =
    codes
      "Select at least one required next tool call from FUNCTION_DEFINITIONS. Validate every argument against its schema. "
    ++ codes "Return JSON only as {\"calls\":[{\"name\":\"function_name\",\"arguments\":{}}]}.\n"
    ++ codes "APPLICATION_REQUEST_AND_EVIDENCE:\n"
    ++ prompt
    ++ nl
    ++ router_context env l
    ++ codes "\nFUNCTION_DEFINITIONS:\n"
    ++ env.encode_tools tools

-- The rules for the answer, of a stream and of a whole answer.
abbrev pub stream_rule : Text
stream_rule =
    codes "\nFINAL ANSWER RULE: Answer the user directly. "
    ++ codes "Built-in web search may be used for realtime/lookup questions. "
    ++ codes
        "If a client tool is required, emit a ```tool_call block; otherwise return ordinary text."

abbrev pub answer_rule : Text
answer_rule =
    codes
      "\nFINAL ANSWER RULE: For client tools, report only actions supported by completed tool results. "
    ++ codes "Realtime facts may use built-in web search when appropriate. "
    ++ codes "If the goal is not fully verified, state exactly what remains unconfirmed."
