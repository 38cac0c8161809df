-- ===== src/Completions/Answering.antt =====
-- The answers of `openaiChat` of internal/web/server.go: the streamed one, whose events Answers takes, and
-- the whole one, with `normalizeJSONText` of internal/web/json_format.go.
use m365_copilot2api.Json
use m365_copilot2api.Answers
use m365_copilot2api.Prelude.{
  none, some, ok, err, false, Text, [], if◌then◌else◌, List, Bool, ◌∷◌, not, codes, trim_space,
  text_eq, is_empty, ltb, map, ◌&&◌, ◌++◌, drop, has_prefix, ◌||◌, length, suc, has_suffix, take,
  ◌-◌, Result,
}
use m365_copilot2api.Tools.{DetectedToolCall, index}
use m365_copilot2api.Tools.Fenced.{fenced_tool_calls}
use m365_copilot2api.Tools.Native.{native_tool_calls}
use m365_copilot2api.Completions.{
  Env, Upstream, World, ChatRequest, ChatResult, OaiReq, Tool, ask, ask_events,
}
use m365_copilot2api.Completions.Checks.{Accepted}
use m365_copilot2api.Json.{Value, Items}
use m365_copilot2api.Completions.Prompt.{repair_text, router_context, stream_rule, answer_rule}
use m365_copilot2api.Completions.Routing.{
  Reply, stream_unsupported, bad_gateway, tool_response, streamed, cut_off, completion, limited,
  route, remember, printed_choice, failed, decided, routed_reply, Decided,
}
use m365_copilot2api.Answers.{Held, Ending, nothing_held, take_events, stream_answer}
use m365_copilot2api.Ledger.Control.{completion_evidence_allows}
use m365_copilot2api.Events.{StreamEvent}

-- The request for the answer.
unfoldable pub answer_request : Env → Accepted → Text → List Tool → Value → ChatRequest
unfolding router_context
answer_request env a rule tools choice = record {
  text = a.prompt ++ codes "\n" ++ router_context env a.ledger ++ rule;
  tone = a.tone;
  conversation_id = a.body.conversation_id;
  session_id = a.body.session_id;
  attachments = a.body.attachments;
  tools = tools;
  tool_choice = choice;
}

-- `fencedToolCalls` for the tools and the choice of the request.
unfoldable pub fenced_calls : Env → Accepted → Text → List DetectedToolCall
fenced_calls env a text = fenced_tool_calls env.tools a.tool_maps a.body.tool_choice env.fences text

unfoldable pub stream_ending : Held × Ending → Reply
stream_ending (h, Answers.tool_response calls text) = streamed h.sent calls
stream_ending (h, Answers.done) = streamed h.sent []

unfoldable pub stream_result : Env → Accepted → List StreamEvent → Result Text ChatResult → Reply
unfolding fenced_calls stream_ending limited take_events stream_answer
stream_result env a events (err e) = cut_off (take_events events nothing_held).sent
stream_result env a events (ok res) =
    stream_ending (stream_answer env.uuid (fenced_calls env a) (limited env) events res.text)

-- The streamed answer.
unfoldable pub stream_reply : Env → Upstream → Accepted → World → World × Reply
unfolding answer_request fenced_calls stream_ending ask_events limited take_events stream_answer
stream_reply env up a w =
    let (w1, events, r) =
      ask_events up (answer_request env a stream_rule a.body.tools a.body.tool_choice) w in
    if env.can_flush then (w1, stream_result env a events r) else (w, stream_unsupported)

-- `normalizeJSONText`.
abbrev drop_line : Text → Text
drop_line s = elim (index s (codes "\n")) [ none ↦ s | some i ↦ drop (suc i) s ]

unfoldable pub normalize_json_text : Text → Text
unfolding index
normalize_json_text text =
    let s = trim_space text in
    let t = drop_line s in
    if has_prefix s (codes "```")
    then (if has_suffix t (codes "```") then trim_space (take (length t - 3) t) else t)
    else s

-- The text of an answer, unless it claims what no tool has done.
abbrev pub unconfirmed : Text
unconfirmed =
    codes
      "I cannot confirm completion because no matching tool results were returned. No external action has been verified."

unfoldable pub answer_text : Env → Accepted → ChatResult → Text
unfolding completion_evidence_allows normalize_json_text
answer_text env a res =
    let text =
      if completion_evidence_allows env.ledger res.text a.ledger then res.text else unconfirmed in
    elim a.body.response_format [
      | none ↦ text
      | some format ↦
          if text_eq format (codes "json_object") || text_eq format (codes "json_schema")
          then normalize_json_text text
          else text
    ]

abbrev text_part : Text → Value
text_part text = Json.obj (
    Json.field (codes "type") (Json.str (codes "text"))
      (Json.field (codes "text") (Json.str text) Json.end))

abbrev image_part : Text → Value
image_part url = Json.obj (
    Json.field (codes "type") (Json.str (codes "image_url")) (
      Json.field (codes "image_url") (Json.obj (Json.field (codes "url") (Json.str url) Json.end))
        Json.end))

abbrev image_parts : List Text → Items
image_parts [] = Json.nil
image_parts (u ∷ us) = Json.cons (image_part u) (image_parts us)

-- A text, or the text and the images.
unfoldable pub answer_content : Text → List Text → Value
answer_content text [] = Json.str text
answer_content text (u ∷ us) = Json.arr (Json.cons (text_part text) (image_parts (u ∷ us)))

-- The model of an answer that is not streamed; a blank name is kept.
unfoldable pub default_model : OaiReq → Text
default_model body = if is_empty body.model then codes "m365-copilot" else body.model

abbrev pub native_mode : Env → Bool
native_mode env = text_eq env.limits.planning_mode (codes "native")

-- The router may be asked: there are tools, and the choice is not to use none.
unfoldable pub may_route : Env → Accepted → Bool
unfolding printed_choice
may_route env a = ltb 0 (length a.tool_maps) && not (text_eq (printed_choice env a) (codes "none"))

unfoldable pub plain_reply : Env → Accepted → ChatResult → Reply
unfolding answer_text answer_content default_model
plain_reply env a res =
    completion (default_model a.body) (answer_content (answer_text env a res) res.images) res

unfoldable pub recovered : Env → Accepted → ChatResult → Decided → Reply
unfolding plain_reply routed_reply default_model
recovered env a res (failed e) = plain_reply env a res
recovered env a res (decided routed none) = plain_reply env a res
recovered env a res (decided routed (some [])) = plain_reply env a res
recovered env a res (decided routed (some (c ∷ cs))) =
    routed_reply env a false (default_model a.body) (codes ":native-recovery") routed (c ∷ cs)

-- The recovery of an intent that native mode leaves in the text.
unfoldable pub recover_intent : Env → Upstream → Accepted → ChatResult → World → World × Reply
unfolding route recovered
recover_intent env up a res w =
    let (w1, d) = route env up a repair_text w in (w1, recovered env a res d)

-- The calls that an answer has, in its text or else in its events.
unfoldable pub calls_of_answer : Env → Accepted → ChatResult → List DetectedToolCall
unfolding fenced_calls native_tool_calls
calls_of_answer env a res = elim (fenced_calls env a res.text) [
  | c ∷ cs ↦ c ∷ cs
  | [] ↦
      native_tool_calls env.native (map (λ t. env.decode_name t.function) a.body.tools) res.events
]

-- `upstreamError`, which keeps the details of an error from the client.
unfoldable pub upstream_error : Text → Text
upstream_error e = codes "upstream request failed"

-- What becomes of the calls of an answer, or else of its text.
unfoldable pub act_on_answer :
    Env → Upstream → Accepted → ChatResult → List DetectedToolCall → World → World × Reply
unfolding recover_intent plain_reply may_route limited default_model
act_on_answer env up a res (c ∷ cs) w =
    (w, tool_response false (default_model a.body) (limited env (c ∷ cs)) res)
act_on_answer env up a res [] w =
    let intent = recover_intent env up a res w in
    if native_mode env && may_route env a then intent else (w, plain_reply env a res)

-- What follows the answer of the chat service.
unfoldable pub read_answer :
    Env → Upstream → Accepted → Result Text ChatResult → World → World × Reply
unfolding calls_of_answer act_on_answer remember
read_answer env up a (err e) w = (w, bad_gateway (upstream_error e))
read_answer env up a (ok res) w =
    act_on_answer env up a res (calls_of_answer env a res) (remember env a res w)

-- The request for a whole answer; only native mode passes the tools on.
unfoldable pub whole_request : Env → Accepted → ChatRequest
unfolding answer_request
whole_request env a =
    if native_mode env
    then answer_request env a answer_rule a.body.tools a.body.tool_choice
    else answer_request env a answer_rule [] Json.null

-- The answer that is not streamed.
unfoldable pub whole_reply : Env → Upstream → Accepted → World → World × Reply
unfolding whole_request read_answer ask
whole_reply env up a w = let (w1, r) = ask up (whole_request env a) w in read_answer env up a r w1
