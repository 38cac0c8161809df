-- ===== src/Protocols/Responses.antt =====
-- `responsesRequest.openAI` of internal/web/protocol_compat.go, with internal/web/tool_progress.go.
pub mod Turns
use m365_copilot2api.Json
use m365_copilot2api.Prelude.{
  none, some, ok, err, false, Text, Bool, if◌then◌else◌, Option, List, not, text_eq, Result, codes,
  any, ◌||◌, [], ◌∷◌, is_empty, ◌&&◌, filter, trim_space, map, ◌++◌, ◌>>=◌,
}
use m365_copilot2api.Completions.{Tool, OaiReq}
use m365_copilot2api.Protocols.{value_at, say, tool_result, openai_call}
use m365_copilot2api.Message.{Message, assistant, user}
use m365_copilot2api.Json.{string_at, Value, Fields, as_bool, items_list, as_object}

pub data InputError : Type 0 where
  input_required invalid_progress bad_input : InputError

-- `responsesRequest`, less the fields that the handler reads; a null reasoning is `none`.
pub record ResponsesRequest : Type 0 where
  pub model : Text
  pub account_id : Text
  pub instructions : Text
  pub input : Value
  pub tools : List Fields
  pub tool_choice : Value
  pub stream : Bool
  pub user : Text
  pub reasoning : Option Text

-- `toolProgress`.
pub record ToolProgress : Type 0 where
  pub call_id : Text
  pub phase : Text
  pub message : Text
  pub output : Text
  pub over : Bool

-- `parseToolProgress`.
unfoldable pub parse_tool_progress : Fields → Option ToolProgress
unfolding string_at
parse_tool_progress m =
    if not (text_eq (string_at (codes "type") m) (codes "function_call_progress"))
      || is_empty (trim_space (string_at (codes "call_id") m))
      || is_empty (trim_space (string_at (codes "message") m))
    then none
    else some (record {
      call_id = string_at (codes "call_id") m;
      phase = string_at (codes "phase") m;
      message = string_at (codes "message") m;
      output = string_at (codes "output") m;
      over = elim (as_bool (Json.get (codes "done") m)) [ none ↦ false | some b ↦ b ];
    })

-- The types of an item.
pub data Item : Type 0 where
  progress output call_item custom_call spoken : Item

unfoldable pub item_of : Text → Item
item_of typ =
    if text_eq typ (codes "function_call_progress")
    then progress
    else if text_eq typ (codes "function_call_output")
        || text_eq typ (codes "custom_tool_call_output")
    then output
    else if text_eq typ (codes "function_call")
    then call_item
    else if text_eq typ (codes "custom_tool_call")
    then custom_call
    else spoken

module _ (decode : Text → Option Value) (encode : Value → Text) where
  -- The arguments of a call: a text that is JSON counts as its value.
  unfoldable pub arguments_of : Fields → Value
  arguments_of m = elim (value_at (codes "arguments") m) [
    | Json.str s ↦ elim (decode s) [ none ↦ Json.str s | some v ↦ v ]
    | v ↦ v
  ]

  -- An assistant's message with one call.
  unfoldable pub call_message : Text → Fields → Text → Message
  unfolding string_at
  call_message kind m arguments = record (say assistant Json.null) {
    tool_calls =
        openai_call (Json.str (string_at (codes "call_id") m)) kind
          (Json.str (string_at (codes "name") m)) arguments
        ∷ [];
  }

  unfoldable pub spoken_message : Fields → Message
  unfolding string_at
  spoken_message m =
      let role = string_at (codes "role") m in
      say (if is_empty role then user else role) (elim (value_at (codes "content") m) [
        | Json.null ↦ Json.arr (Json.cons (Json.obj m) Json.nil)
        | c ↦ c
      ])

  -- `switch typ`; a report of progress becomes no message.
  unfoldable pub item_messages : Item → Fields → Result InputError (List Message)
  unfolding parse_tool_progress call_message arguments_of spoken_message string_at
  item_messages progress m = elim (parse_tool_progress m) [
    | none ↦ err invalid_progress
    | some p ↦ ok []
  ]
  item_messages output m =
      ok (tool_result (string_at (codes "call_id") m) (value_at (codes "output") m) ∷ [])
  item_messages call_item m = ok (call_message (codes "function") m (encode (arguments_of m)) ∷ [])
  item_messages custom_call m =
      let input = Json.str (string_at (codes "input") m) in
      ok (
        call_message (codes "custom") m
          (encode (Json.obj (Json.field (codes "input") input Json.end)))
        ∷ [])
  item_messages spoken m = ok (spoken_message m ∷ [])

  -- An item; what is no object is passed over.
  unfoldable pub value_messages : Value → Result InputError (List Message)
  unfolding item_messages item_of string_at
  value_messages v = elim (as_object (some v)) [
    | none ↦ ok []
    | some m ↦ item_messages (item_of (string_at (codes "type") m)) m
  ]

  -- The loop over the items.
  unfoldable pub items_messages : List Value → Result InputError (List Message)
  unfolding value_messages
  items_messages [] = ok []
  items_messages (v ∷ vs) = do ms ← value_messages v; rest ← items_messages vs; ok (ms ++ rest)

  -- `switch v := r.Input.(type)`.
  unfoldable pub input_messages : Value → Result InputError (List Message)
  unfolding items_messages
  input_messages (Json.str s) =
      if is_empty s then err input_required else ok (say user (Json.str s) ∷ [])
  input_messages (Json.arr vs) = items_messages (items_list vs)
  input_messages v = err bad_input

  -- The custom tool `exec`.
  unfoldable pub is_custom_exec : Fields → Bool
  unfolding string_at
  is_custom_exec t =
      text_eq (string_at (codes "type") t) (codes "custom")
      && text_eq (string_at (codes "name") t) (codes "exec")

  -- The schema that carries the raw input of `exec` in one field.
  abbrev exec_parameters : Value
  exec_parameters = Json.obj (
      Json.field (codes "type") (Json.str (codes "object")) (
        Json.field (codes "properties")
          (Json.obj (
            Json.field (codes "input")
              (Json.obj (Json.field (codes "type") (Json.str (codes "string")) Json.end)) Json.end))
          (Json.field (codes "required") (Json.arr (Json.cons (Json.str (codes "input")) Json.nil))
            (Json.field (codes "additionalProperties") (Json.bool false) Json.end))))

  unfoldable pub tool_of : Fields → Tool
  unfolding is_custom_exec string_at
  tool_of t =
      let parameters =
        if is_custom_exec t then exec_parameters else value_at (codes "parameters") t in
      record {
        kind = string_at (codes "type") t;
        function = encode (
            Json.obj (
              Json.field (codes "name") (value_at (codes "name") t) (
                Json.field (codes "description") (value_at (codes "description") t)
                  (Json.field (codes "parameters") parameters Json.end))));
      }

  -- With `exec`, it is the only tool; else the functions are.
  unfoldable pub tools_of : List Fields → List Tool
  unfolding is_custom_exec tool_of any filter string_at
  tools_of ts = map tool_of (
      filter
        (λ t.
          if any is_custom_exec ts
          then is_custom_exec t
          else text_eq (string_at (codes "type") t) (codes "function"))
        ts)

-- `customExecWorkspaceInstruction`.
abbrev custom_exec_instruction : Text
custom_exec_instruction =
    codes "You are operating through the caller's local OpenCode execution bridge. "
    ++ codes "Never use, request, or mention Microsoft 365/Copilot native tools. "
    ++ codes "The only permitted execution tool is the caller-provided custom exec tool. "
    ++ codes "The executor already starts in the caller-selected project workspace. "
    ++ codes
        "Use relative paths only; never guess, cd to, or write under /root, /workspace, /tmp, or any other absolute project path. "
    ++ codes
        "Inspect pwd and ls before changes. Do not create files outside the current working directory. "
    ++ codes
        "Never claim a file was created, modified, or verified until custom exec returns a successful result. "
    ++ codes "After every execution, use custom exec to verify the result."

module _ (decode : Text → Option Value) (encode : Value → Text) where
  -- The messages of the system that come first.
  unfoldable pub system_messages : ResponsesRequest → List Message
  unfolding any is_custom_exec
  system_messages r =
      (if any (is_custom_exec decode encode) r.tools
        then say (codes "system") (Json.str custom_exec_instruction) ∷ []
        else [])
      ++ (if is_empty (trim_space r.instructions)
          then []
          else say (codes "system") (Json.str (trim_space r.instructions)) ∷ [])

  -- `openAI`.
  unfoldable pub responses_request : ResponsesRequest → Result InputError OaiReq
  unfolding input_messages system_messages tools_of
  responses_request r = do
    ms ← input_messages decode encode r.input
    ok (record {
      model = r.model;
      response_format = none;
      messages = system_messages r ++ ms;
      stream = r.stream;
      user = r.user;
      account_id = r.account_id;
      conversation_id = [];
      session_id = [];
      session_key = [];
      attachments = [];
      tools = tools_of decode encode r.tools;
      functions = [];
      tool_choice = r.tool_choice;
      function_call = Json.null;
      reasoning = r.reasoning;
      reasoning_effort = elim r.reasoning [ none ↦ [] | some e ↦ e ];
    })
