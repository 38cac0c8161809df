-- ===== src/Completions/Routing.antt =====
-- How `openaiChat` of internal/web/server.go lets the model choose tools: the router of a streamed request,
-- that of a request that is not streamed, and the recovery of an intent that an answer has in its text.
use m365_copilot2api.Json
use m365_copilot2api.Sessions
use m365_copilot2api.Prelude.{
  none, some, ok, err, true, false, Text, List, ℕ, if◌then◌else◌, codes, Bool, ◌∷◌, map, length, [],
  Option, is_empty, ◌++◌, suc, text_eq, Result,
}
use m365_copilot2api.Tools.{DetectedToolCall, limit_tool_calls, adaptive_tool_call_limit}
use m365_copilot2api.Completions.{Env, Upstream, World, ChatRequest, ChatResult, OaiReq, ask}
use m365_copilot2api.Completions.Checks.{Refusal, Accepted, configured_tool_call_limit}
use m365_copilot2api.Tools.Decision.{parse_model_tool_decision, filter_completed_calls}
use m365_copilot2api.Ledger.{AgentLedger, compact_tool_result, decimal, sprint_value}
use m365_copilot2api.Json.{Value}
use m365_copilot2api.Completions.Prompt.{
  repair_text, strict_repair_text, retry_text, router_context, model_tool_router_prompt,
}
use m365_copilot2api.Accounts.{first_non_empty}

-- What the handler answers. The random identifier of a response is left out.
pub data Reply : Type 0 where
  refused : Refusal → Reply
  bad_gateway : Text → Reply
  stream_unsupported : Reply
  tool_response : Bool → Text → List DetectedToolCall → ChatResult → Reply
  streamed : List Text → List DetectedToolCall → Reply
  cut_off : List Text → Reply
  completion : Text → Value → ChatResult → Reply

-- `firstNonEmpty(body.Model, "m365-copilot")`.
unfoldable pub model_name : OaiReq → Text
unfolding first_non_empty
model_name body = first_non_empty (body.model ∷ codes "m365-copilot" ∷ [])

-- `limitToolCalls` of the limit that `adaptiveToolCallLimit` gives.
unfoldable pub limited : Env → List DetectedToolCall → List DetectedToolCall
limited env calls =
    limit_tool_calls calls
      (adaptive_tool_call_limit env.tools calls (configured_tool_call_limit env))

-- `scopedCallID`.
unfoldable pub scoped_call_id : Env → DetectedToolCall → ℕ → Text → Text
scoped_call_id env c i scope =
    codes "call_"
    ++ env.call_hash
        (scope ++ codes ":" ++ decimal i ++ codes ":" ++ c.name ++ codes ":" ++ c.arguments)

-- The calls with identifiers of their own, the first with index `i`.
unfoldable pub scoped : Env → Text → ℕ → List DetectedToolCall → List DetectedToolCall
unfolding scoped_call_id
scoped env scope i [] = []
scoped env scope i (c ∷ cs) =
    record c { id = scoped_call_id env c i scope } ∷ scoped env scope (suc i) cs

-- `completedCallIDs`.
unfoldable pub completed_call_ids : Env → AgentLedger → List Text
completed_call_ids env l = env.sort (map (λ e. e.id) l.completed)

-- `fmt.Sprintf("%d:%v", len(body.Messages), completedCallIDs(ledger))` with a suffix.
unfoldable pub scope_of : Env → Accepted → Text → Text
unfolding completed_call_ids
scope_of env a suffix =
    decimal (length a.body.messages)
    ++ codes ":"
    ++ env.print_list (completed_call_ids env a.ledger)
    ++ suffix

-- The request of the router and those that follow on it.
abbrev pub routing_request : Accepted → Text → ChatRequest
routing_request a text = record {
  text = text;
  tone = a.tone;
  conversation_id = [];
  session_id = [];
  attachments = a.body.attachments;
  tools = [];
  tool_choice = Json.null;
}

unfoldable pub route_text : Env → Accepted → Text
unfolding model_tool_router_prompt router_context
route_text env a =
    model_tool_router_prompt env (a.prompt ++ codes "\n" ++ router_context env a.ledger) a.tool_maps
      a.body.tool_choice

-- `parseModelToolDecision`.
unfoldable pub decision : Env → Accepted → Text → Option (List DetectedToolCall)
decision env a text =
    parse_model_tool_decision env.tools env.decode_calls a.tool_maps a.body.tool_choice env.fences
      text

-- What the model decided: the router failed, or it gave a result, with the calls if these could be read.
pub data Decided : Type 0 where
  failed : Text → Decided
  decided : ChatResult → Option (List DetectedToolCall) → Decided

unfoldable pub repaired : Env → Accepted → ChatResult → Result Text ChatResult → Decided
unfolding decision
repaired env a res (err e) = decided res none
repaired env a res (ok res2) = decided res (decision env a res2.text)

-- A decision that cannot be read is repaired by one request; `repair` is what that begins with.
unfoldable pub mend :
    Env
    → Upstream
    → Accepted
    → Text
    → ChatResult
    → Option (List DetectedToolCall)
    → World
    → World × Decided
unfolding ask repaired
mend env up a repair res (some calls) w = (w, decided res (some calls))
mend env up a repair res none w =
    let (w1, r) = ask up (routing_request a (repair ++ compact_tool_result res.text 6000)) w in
    (w1, repaired env a res r)

unfoldable pub read_route :
    Env → Upstream → Accepted → Text → Result Text ChatResult → World → World × Decided
unfolding mend decision
read_route env up a repair (err e) w = (w, failed e)
read_route env up a repair (ok res) w = mend env up a repair res (decision env a res.text) w

-- The router.
unfoldable pub route : Env → Upstream → Accepted → Text → World → World × Decided
unfolding ask read_route route_text
route env up a repair w =
    let (w1, r) = ask up (routing_request a (route_text env a)) w in read_route env up a repair r w1

-- The handler goes on, or has answered.
pub data Progress : Type 0 where
  goes_on : Progress
  answered : Reply → Progress

-- The conversation is stored under the key of the request, if it has one.
unfoldable pub remember : Env → Accepted → ChatResult → World → World
remember env a res w = if is_empty a.body.session_key then w else record w {
  sessions =
      (Sessions.upsert (env.uuid 0) env.ambient.now
        (record {
          id = a.body.session_key;
          account_id = a.account.id;
          conversation_id = res.conversation_id;
          session_id = res.session_id;
          title = a.prompt;
          created_at = 0;
          updated_at = 0;
        })
        w.sessions).0;
}

-- The response with the calls of a decision, which get their identifiers in the given scope.
unfoldable pub routed_reply :
    Env → Accepted → Bool → Text → Text → ChatResult → List DetectedToolCall → Reply
unfolding limited scoped scope_of
routed_reply env a stream model suffix res calls =
    tool_response stream model (limited env (scoped env (scope_of env a suffix) 0 calls)) res

unfoldable pub stream_routed :
    Env → Accepted → ChatResult → List DetectedToolCall → World → World × Progress
unfolding remember routed_reply model_name
stream_routed env a res [] w = (w, goes_on)
stream_routed env a res (c ∷ cs) w = (
  remember env a res w,
  answered (routed_reply env a true (model_name a.body) (codes ":stream") res (c ∷ cs)),
)

-- What a streamed request does with a decision; a call that was made before is not made again.
unfoldable pub stream_decided : Env → Accepted → Decided → World → World × Progress
unfolding stream_routed filter_completed_calls
stream_decided env a (failed e) w = (w, answered (bad_gateway (codes "tool router: " ++ e)))
stream_decided env a (decided res none) w = (w, goes_on)
stream_decided env a (decided res (some calls)) w =
    stream_routed env a res (filter_completed_calls env.ledger a.ledger calls) w

-- The router of a streamed request.
unfoldable pub stream_router : Env → Upstream → Accepted → World → World × Progress
unfolding route stream_decided
stream_router env up a w = let (w1, d) = route env up a repair_text w in stream_decided env a d w1

unfoldable pub retried_calls : Env → Accepted → ChatResult → List DetectedToolCall → Reply
unfolding routed_reply model_name
retried_calls env a res [] =
    bad_gateway (codes "model did not select a required tool after constrained retry")
retried_calls env a res (c ∷ cs) =
    routed_reply env a false (model_name a.body) (codes ":required-retry") res (c ∷ cs)

unfoldable pub retried : Env → Accepted → Result Text ChatResult → Reply
unfolding retried_calls decision filter_completed_calls
retried env a (err e) =
    bad_gateway (codes "model did not select a required tool after constrained retry")
retried env a (ok res) = elim (decision env a res.text) [
  | none ↦ retried_calls env a res []
  | some calls ↦ retried_calls env a res (filter_completed_calls env.ledger a.ledger calls)
]

-- The request that is made once more where a tool is required.
unfoldable pub required_retry : Env → Upstream → Accepted → World → World × Reply
unfolding ask retried retry_text
required_retry env up a w =
    let (w1, r) = ask up (routing_request a (retry_text env a.prompt a.ledger a.tool_maps)) w in
    (w1, retried env a r)

-- `fmt.Sprint(body.ToolChoice)`; a missing choice prints as `<nil>`.
unfoldable pub printed_choice : Env → Accepted → Text
unfolding sprint_value
printed_choice env a = sprint_value env.ledger a.body.tool_choice

-- No tool was chosen, though the choice of the request may ask for one.
unfoldable pub none_chosen : Env → Upstream → Accepted → World → World × Progress
unfolding required_retry printed_choice
none_chosen env up a w =
    let (w1, reply) = required_retry env up a w in
    if text_eq (printed_choice env a) (codes "required") then (w1, answered reply) else (w, goes_on)

-- What a request that is not streamed does with a decision.
unfoldable pub act_on : Env → Upstream → Accepted → Decided → World → World × Progress
unfolding none_chosen routed_reply model_name
act_on env up a (failed e) w = (w, answered (bad_gateway (codes "tool router: " ++ e)))
act_on env up a (decided res none) w =
    (w, answered (bad_gateway (codes "model returned an invalid tool routing decision")))
act_on env up a (decided res (some [])) w = none_chosen env up a w
act_on env up a (decided res (some (c ∷ cs))) w =
    (w, answered (routed_reply env a false (model_name a.body) [] res (c ∷ cs)))

-- The router of a request that is not streamed.
unfoldable pub router : Env → Upstream → Accepted → World → World × Progress
unfolding route act_on
router env up a w = let (w1, d) = route env up a strict_repair_text w in act_on env up a d w1
