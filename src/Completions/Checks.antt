-- ===== src/Completions/Checks.antt =====
-- What `openaiChat` of internal/web/server.go tests, in the order of the code, before it asks the chat
-- service; with the limits that internal/web/agent_ledger.go and settings.go read.
pub mod Ready
use m365_copilot2api.Json
use m365_copilot2api.Sessions
use m365_copilot2api.Conversation
use m365_copilot2api.Ledger.Control
use m365_copilot2api.Prelude.{
  ℕ, Bool, ◌∷◌, Text, some, if◌then◌else◌, ◌*◌, Option, Result, map, trim_space, List, get_elem?,
  is_empty, ◌^◌, codes, nat_eq, ◌||◌, ltb, [], ◌&&◌, length, not, leb, none, ok, err, ◌>>=◌, true,
  false,
}
use m365_copilot2api.Ledger.Control.{active_messages, can_continue}
use m365_copilot2api.Ledger.Tally.{build_agent_ledger}
use m365_copilot2api.Conversation.{validate_tool_conversation}
use m365_copilot2api.Models.Catalog.{reasoning_tone}
use m365_copilot2api.Ledger.{AgentLedger}
use m365_copilot2api.Accounts.Login.{resolve_account, AccountError}
use m365_copilot2api.Accounts.{first_non_empty, AccountToken}
use m365_copilot2api.Completions.Prompt.{flatten_prompt_messages}
use m365_copilot2api.Json.{string_at, Fields, Value}
use m365_copilot2api.Completions.{Attachment, Env, World, OaiReq, Tool}

-- `normalizeLegacyTools`.
unfoldable pub normalize_legacy_tools : OaiReq → OaiReq
normalize_legacy_tools body = record body {
  tools = elim body.tools [
    | t ∷ ts ↦ t ∷ ts
    | [] ↦ map (λ f. record { kind = codes "function"; function = f }) body.functions
  ];
  tool_choice = elim body.tool_choice [ Json.null ↦ body.function_call | c ↦ c ];
}

-- The effort that counts.
unfoldable pub effort_of : OaiReq → Text
effort_of body = elim body.reasoning [
  | none ↦ body.reasoning_effort
  | some e ↦ if is_empty (trim_space e) then body.reasoning_effort else e
]

-- A limit from the environment, or else from the settings.
unfoldable pub max_tool_rounds : Env → ℕ
max_tool_rounds env = elim env.limits.rounds_env [
  | some raw ↦ elim (env.atoi (trim_space raw)) [
    | none ↦ 32
    | some n ↦ if ltb 0 n && leb n 512 then n else 32
  ]
  | none ↦ let n = env.limits.max_tool_rounds in if ltb 0 n && leb n 512 then n else 32
]

unfoldable pub configured_tool_call_limit : Env → ℕ
configured_tool_call_limit env = elim env.limits.calls_env [
  | some raw ↦ elim (env.atoi (trim_space raw)) [
    | none ↦ 1
    | some n ↦ if leb 1 n && leb n 64 then n else 1
  ]
  | none ↦ env.limits.max_tool_calls_per_turn
]

-- `strings.Split(s, ".")`, at bytes of the given code.
unfoldable pub split_at_byte : ℕ → Text → List Text
split_at_byte sep [] = [] ∷ []
split_at_byte sep (b ∷ s) =
    let rest = split_at_byte sep s in
    if nat_eq b sep
    then [] ∷ rest
    else elim rest [ [] ↦ (b ∷ []) ∷ [] | part ∷ parts ↦ (b ∷ part) ∷ parts ]

-- `extractOIDTID`.
unfoldable pub extract_oid_tid : Env → Text → Text × Text
unfolding split_at_byte string_at
extract_oid_tid env access_token = elim (get_elem? (split_at_byte 0x2e access_token) 1) [
  | none ↦ ([], [])
  | some part ↦ elim (env.claims part) [
    | none ↦ ([], [])
    | some m ↦ (string_at (codes "oid") m, string_at (codes "tid") m)
  ]
]

-- The account with the identifiers of its token, where it lacks one.
unfoldable pub with_ids : Env → AccountToken → AccountToken
unfolding extract_oid_tid
with_ids env acc =
    let ids = extract_oid_tid env acc.access_token in
    if (is_empty acc.oid || is_empty acc.tid) && not (is_empty ids.0)
    then record acc { oid = ids.0; tid = ids.1 }
    else acc

-- What the conversation that is stored under the key of the request fills in.
unfoldable pub fill_session : Sessions.Store → OaiReq → OaiReq
unfolding first_non_empty
fill_session s body =
    if is_empty body.session_key then body else elim (Sessions.get body.session_key s) [
      | none ↦ body
      | some v ↦ record body {
        account_id = first_non_empty (body.account_id ∷ v.account_id ∷ []);
        conversation_id = first_non_empty (body.conversation_id ∷ v.conversation_id ∷ []);
        session_id = first_non_empty (body.session_id ∷ v.session_id ∷ []);
      }
    ]

-- The tools as maps; a function that is no object is the nil map.
unfoldable pub tool_map : Env → Tool → Fields
tool_map env t = Json.field (codes "type") (Json.str t.kind) (
    Json.field (codes "function")
      (elim (env.decode_function t.function) [ none ↦ Json.null | some f ↦ Json.obj f ]) Json.end)

-- `auto`, where there are tools and no choice.
unfoldable pub default_choice : OaiReq → Value
default_choice body = elim body.tool_choice [
  | Json.null ↦ elim body.tools [ [] ↦ Json.null | t ∷ ts ↦ Json.str (codes "auto") ]
  | c ↦ c
]

-- Why a request is turned down.
pub data Refusal : Type 0 where
  method_not_allowed unreadable_body bad_json unknown_effort : Refusal
  tool_protocol_error : Conversation.Error → Refusal
  tool_round_limit : Control.Refusal → ℕ → Refusal
  messages_required missing_ids : Refusal
  account_error : AccountError → Refusal

-- A request that may be answered.
pub record Accepted : Type 0 where
  pub body : OaiReq
  pub tone : Text
  pub ledger : AgentLedger
  pub prompt : Text
  pub account : AccountToken
  pub tool_maps : List Fields

-- `10 << 20`; `http.MaxBytesReader` fails on more.
abbrev pub max_chat_request_body : ℕ
max_chat_request_body = 10 * 2 ^ 20

-- The method and the body; a body that cannot be read is `none`.
unfoldable pub read_body : Env → Bool → Option Text → Result Refusal OaiReq
read_body env false raw = err method_not_allowed
read_body env true none = err unreadable_body
read_body env true (some raw) =
    if ltb max_chat_request_body (length raw)
    then err unreadable_body
    else elim (env.decode raw) [ none ↦ err bad_json | some body ↦ ok body ]

-- The tone for the model and the effort of the request.
unfoldable pub check_tone : Env → OaiReq → Result Refusal Text
unfolding effort_of
check_tone env body =
    elim (reasoning_tone env.fold env.limits.model_mappings body.model (effort_of body)) [
      | none ↦ err unknown_effort
      | some tone ↦ ok tone
    ]

-- The conversation is legal, and another turn may follow.
unfoldable pub check_conversation : Env → OaiReq → Result Refusal AgentLedger
unfolding max_tool_rounds
check_conversation env body = elim (validate_tool_conversation body.messages) [
  | err e ↦ err (tool_protocol_error e)
  | ok s ↦
      let active = build_agent_ledger env.ledger (active_messages body.messages) in
      elim (can_continue active (max_tool_rounds env)) [
        | some r ↦ err (tool_round_limit r (length active.completed))
        | none ↦ ok (build_agent_ledger env.ledger body.messages)
      ]
]

unfoldable pub check_prompt : Env → OaiReq → Result Refusal (Text × List Attachment)
unfolding flatten_prompt_messages
check_prompt env body =
    let (text, files) = flatten_prompt_messages env body.messages body.attachments in
    let prompt = trim_space text in
    if is_empty prompt then err messages_required else ok (prompt, files)

-- The account with its identifiers, both of which it needs.
unfoldable pub identified : Env → Result AccountError AccountToken → Result Refusal AccountToken
unfolding with_ids
identified env (err e) = err (account_error e)
identified env (ok acc) =
    let a = with_ids env acc in if is_empty a.oid || is_empty a.tid then err missing_ids else ok a

-- The account, which may be refreshed on the way.
unfoldable pub check_account : Env → OaiReq → World → World × Result Refusal AccountToken
unfolding identified first_non_empty
check_account env body w =
    let (accounts, r) =
      resolve_account env.renewal (first_non_empty (body.account_id ∷ body.user ∷ [])) w.accounts in
    (record w { accounts = accounts }, identified env r)

-- What is known before the account is asked for.
unfoldable pub check_request :
    Env → Bool → Option Text → Result Refusal (OaiReq × Text × AgentLedger × Text)
unfolding read_body check_tone check_conversation check_prompt normalize_legacy_tools
check_request env is_post raw = do
  sent ← read_body env is_post raw
  tone ← check_tone env sent
  ledger ← check_conversation env (normalize_legacy_tools sent)
  (prompt, files) ← check_prompt env (normalize_legacy_tools sent)
  ok (record (normalize_legacy_tools sent) { attachments = files }, tone, ledger, prompt)

-- The request with all that is known of it.
unfoldable pub accept :
    Env → OaiReq → Text → AgentLedger → Text → Result Refusal AccountToken → Result Refusal Accepted
unfolding default_choice tool_map
accept env body tone ledger prompt (err r) = err r
accept env body tone ledger prompt (ok acc) = ok (record {
  body = record body { tool_choice = default_choice body };
  tone = tone;
  ledger = ledger;
  prompt = prompt;
  account = acc;
  tool_maps = map (tool_map env) body.tools;
})

unfoldable pub check_rest :
    Env
    → Result Refusal (OaiReq × Text × AgentLedger × Text)
    → World
    → World × Result Refusal Accepted
unfolding check_account fill_session accept
check_rest env (err r) w = (w, err r)
check_rest env (ok (body, tone, ledger, prompt)) w =
    let filled = fill_session w.sessions body in
    let (w1, r) = check_account env filled w in (w1, accept env filled tone ledger prompt r)

-- The checks.
unfoldable pub check : Env → Bool → Option Text → World → World × Result Refusal Accepted
unfolding check_request check_rest
check env is_post raw w = check_rest env (check_request env is_post raw) w
