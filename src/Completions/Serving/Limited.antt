-- ===== src/Completions/Serving/Limited.antt =====
-- The calls of an answer of `openaiChat`, internal/web/server.go: how many are passed on.
pub mod Routers
use m365_copilot2api.Prelude.{
  none, some, ok, err, true, false, inl, inr, if-both, Bool, Option-cases, List, [], ◌∷◌, ℕ, ◌≤◌,
  Text, codes, Result, text_eq, arith, ◌&&◌, length, max,
}
use m365_copilot2api.Tools.{DetectedToolCall}
use m365_copilot2api.Completions.{Env, Upstream, World, ChatResult, ask, ask_events}
use m365_copilot2api.Completions.Checks.{Accepted, configured_tool_call_limit}
use m365_copilot2api.Completions.Routing.{
  Reply, Progress, Decided, refused, bad_gateway, stream_unsupported, tool_response, streamed,
  cut_off, completion, limited, scoped, scoped_call_id, scope_of, routed_reply, goes_on, answered,
  failed, decided, stream_routed, stream_decided, retried_calls, retried, none_chosen,
  required_retry, act_on, decision, model_name, route, router, stream_router, routing_request,
  printed_choice, remember,
}
use m365_copilot2api.Tools.Limits.{passed-first}
use m365_copilot2api.Tools.Decision.{filter_completed_calls}
use m365_copilot2api.Completions.Prompt.{repair_text, strict_repair_text, retry_text, stream_rule}
use m365_copilot2api.Answers.{
  Held, close, stream_answer, finish, recover, take_events, nothing_held, calls_in,
}
use m365_copilot2api.Completions.Answering.{
  stream_ending, stream_result, stream_reply, answer_request, recovered, plain_reply, default_model,
  act_on_answer, recover_intent, native_mode, may_route, read_answer, calls_of_answer, whole_reply,
  whole_request, fenced_calls,
}
use m365_copilot2api.Completions.Serving.{or_answer, answer_by, answer, router_mode}
use m365_copilot2api.Events.{StreamEvent}
use m365_copilot2api.Completions.Serving.Limited.Routers.{
  IsLimited, limit_of, OfProgress, limited-IsLimited, routed_reply-IsLimited,
  stream_decided-IsLimited, act_on-IsLimited,
}

close-IsLimited :
    (env : Env) (cs : List DetectedToolCall) (h : Held)
    → IsLimited (limit_of env) (stream_ending (close (limited env) cs h))
unfolding close stream_ending
close-IsLimited env [] h = omega arith
close-IsLimited env (c ∷ cs) h = (limited-IsLimited env c cs).1

stream_result-IsLimited :
    (env : Env) (a : Accepted) (events : List StreamEvent) (r : Result Text ChatResult)
    → IsLimited (limit_of env) (stream_result env a events r)
unfolding stream_result stream_answer finish
stream_result-IsLimited env a events (err e) = tt
stream_result-IsLimited env a events (ok res) =
    let h = recover res.text (take_events events nothing_held) in
    close-IsLimited env (calls_in env.uuid (fenced_calls env a) h) h

stream_reply-IsLimited :
    (env : Env) (up : Upstream) (a : Accepted) (w : World)
    → IsLimited (limit_of env) (stream_reply env up a w).1
unfolding stream_reply
stream_reply-IsLimited env up a w =
    let request = answer_request env a stream_rule a.body.tools a.body.tool_choice in
    let (w1, events, r) = ask_events up request w in
    if-both (λ (x : World × Reply). IsLimited (limit_of env) x.1) env.can_flush
      {x = (w1, stream_result env a events r)} {y = (w, stream_unsupported)}
      (stream_result-IsLimited env a events r) tt

recovered-IsLimited :
    (env : Env) (a : Accepted) (res : ChatResult) (d : Decided)
    → IsLimited (limit_of env) (recovered env a res d)
unfolding recovered plain_reply
recovered-IsLimited env a res (failed e) = tt
recovered-IsLimited env a res (decided routed none) = tt
recovered-IsLimited env a res (decided routed (some [])) = tt
recovered-IsLimited env a res (decided routed (some (c ∷ cs))) =
    routed_reply-IsLimited env a false (default_model a.body) (codes ":native-recovery") routed c cs

act_on_answer-IsLimited :
    (env : Env) (up : Upstream) (a : Accepted) (res : ChatResult) (cs : List DetectedToolCall)
    (w : World)
    → IsLimited (limit_of env) (act_on_answer env up a res cs w).1
unfolding act_on_answer recover_intent plain_reply
act_on_answer-IsLimited env up a res (c ∷ cs) w = limited-IsLimited env c cs
act_on_answer-IsLimited env up a res [] w =
    let (w1, d) = route env up a repair_text w in
    if-both (λ (x : World × Reply). IsLimited (limit_of env) x.1)
      (native_mode env && may_route env a) {x = (w1, recovered env a res d)}
      {y = (w, plain_reply env a res)} (recovered-IsLimited env a res d) tt

read_answer-IsLimited :
    (env : Env) (up : Upstream) (a : Accepted) (r : Result Text ChatResult) (w : World)
    → IsLimited (limit_of env) (read_answer env up a r w).1
unfolding read_answer
read_answer-IsLimited env up a (err e) w = tt
read_answer-IsLimited env up a (ok res) w =
    act_on_answer-IsLimited env up a res (calls_of_answer env a res) (remember env a res w)

whole_reply-IsLimited :
    (env : Env) (up : Upstream) (a : Accepted) (w : World)
    → IsLimited (limit_of env) (whole_reply env up a w).1
unfolding whole_reply
whole_reply-IsLimited env up a w =
    let (w1, r) = ask up (whole_request env a) w in read_answer-IsLimited env up a r w1

pub or_answer-Of :
    (P : Reply → Type 0) (x : World × Progress) (go : World → World × Reply)
    → OfProgress P x.1
    → ((w : World) → P (go w).1)
    → P (or_answer x go).1
unfolding or_answer
or_answer-Of P (w, goes_on) go h g = g w
or_answer-Of P (w, answered r) go h g = h

answer_by-IsLimited :
    (env : Env) (up : Upstream) (a : Accepted) (streams routes : Bool) (w : World)
    → IsLimited (limit_of env) (answer_by env up a streams routes w).1
unfolding answer_by stream_router router
answer_by-IsLimited env up a true true w =
    or_answer-Of (IsLimited (limit_of env)) (stream_router env up a w) (stream_reply env up a)
      (let (w1, d) = route env up a repair_text w in stream_decided-IsLimited env a d w1)
      (stream_reply-IsLimited env up a)
answer_by-IsLimited env up a true false w = stream_reply-IsLimited env up a w
answer_by-IsLimited env up a false true w =
    or_answer-Of (IsLimited (limit_of env)) (router env up a w) (whole_reply env up a)
      (let (w1, d) = route env up a strict_repair_text w in act_on-IsLimited env up a d w1)
      (whole_reply-IsLimited env up a)
answer_by-IsLimited env up a false false w = whole_reply-IsLimited env up a w

-- In every mode, streamed or not, an answer passes on at most as many calls as are configured, or one if
-- that is less; a response of calls has one call at least.
pub answer-IsLimited :
    (env : Env) (up : Upstream) (a : Accepted) (w : World)
    → IsLimited (limit_of env) (answer env up a w).1
unfolding answer
answer-IsLimited env up a w =
    answer_by-IsLimited env up a a.body.stream (router_mode env && may_route env a) w
