-- ===== src/Completions/Serving/Fresh.antt =====
-- The calls that the router of a streamed request passes on: `openaiChat` of internal/web/server.go with
-- `filterCompletedCalls` of agent_ledger.go.
use m365_copilot2api.Answers
use m365_copilot2api.Prelude.{
  none, some, ok, err, true, false, if-both, Bool, All, take, filter, ℕ, zero, suc, sym, subst, ◌≡◌,
  List, [], ◌∷◌, Text, codes, Result, ◌&&◌, arith,
}
use m365_copilot2api.Tools.{DetectedToolCall}
use m365_copilot2api.Completions.{Env, Upstream, World, ChatResult, ask_events}
use m365_copilot2api.Completions.Checks.{Accepted, configured_tool_call_limit}
use m365_copilot2api.Completions.Routing.{
  Reply, Decided, stream_unsupported, limited, scoped, scope_of, routed_reply, failed, decided,
  stream_routed, stream_decided, route, stream_router,
}
use m365_copilot2api.Tools.Limits.{passed-first}
use m365_copilot2api.Tools.Decision.{filter_completed_calls}
use m365_copilot2api.Completions.Prompt.{repair_text, stream_rule}
use m365_copilot2api.Answers.{Held, Ending, stream_answer}
use m365_copilot2api.Completions.Answering.{
  stream_ending, stream_result, stream_reply, answer_request, may_route, fenced_calls,
}
use m365_copilot2api.Completions.Serving.{answer_by, answer, router_mode}
use m365_copilot2api.Completions.Serving.Limited.Routers.{OfCalls, OfProgress}
use m365_copilot2api.Completions.Serving.Limited.{or_answer-Of}
use m365_copilot2api.Events.{StreamEvent}
use m365_copilot2api.Ledger.Control.{has_completed}
use m365_copilot2api.Ledger.{AgentLedger}

-- The call was not made before, with the same arguments.
abbrev pub NotMade : Env → AgentLedger → DetectedToolCall → Type 0
NotMade env l c = has_completed env.ledger l c.name c.arguments ≡ false

-- What a response of calls holds is new; nothing is said of other replies.
abbrev pub IsFresh : Env → AgentLedger → Reply → Type 0
IsFresh env l = OfCalls (All (NotMade env l)) (λ calls. Unit)

filtered-NotMade :
    (env : Env) (l : AgentLedger) (cs : List DetectedToolCall)
    → All (NotMade env l) (filter_completed_calls env.ledger l cs)
unfolding filter_completed_calls filter
filtered-NotMade env l [] = tt
filtered-NotMade env l (c ∷ cs) = ground (arith, filtered-NotMade env l cs)

take-All :
    (env : Env) (l : AgentLedger) (n : ℕ) (cs : List DetectedToolCall)
    → All (NotMade env l) cs
    → All (NotMade env l) (take n cs)
take-All env l zero cs h = tt
take-All env l (suc n) [] h = tt
take-All env l (suc n) (c ∷ cs) h = (h.0, take-All env l n cs h.1)

scoped-NotMade :
    (env : Env) (l : AgentLedger) (scope : Text) (i : ℕ) (cs : List DetectedToolCall)
    → All (NotMade env l) cs
    → All (NotMade env l) (scoped env scope i cs)
unfolding scoped
scoped-NotMade env l scope i [] h = tt
scoped-NotMade env l scope i (c ∷ cs) h = (h.0, scoped-NotMade env l scope (suc i) cs h.1)

limited-NotMade :
    (env : Env) (l : AgentLedger) (cs : List DetectedToolCall)
    → All (NotMade env l) cs
    → All (NotMade env l) (limited env cs)
unfolding limited
limited-NotMade env l cs h =
    let (first, least, most) = passed-first env.tools cs (configured_tool_call_limit env) in
    subst (All (NotMade env l)) (sym first) (take-All env l _ cs h)

stream_routed-IsFresh :
    (env : Env) (a : Accepted) (res : ChatResult) (cs : List DetectedToolCall) (w : World)
    → All (NotMade env a.ledger) cs
    → OfProgress (IsFresh env a.ledger) (stream_routed env a res cs w).1
unfolding stream_routed routed_reply
stream_routed-IsFresh env a res [] w h = tt
stream_routed-IsFresh env a res (c ∷ cs) w h =
    let scope = scope_of env a (codes ":stream") in
    limited-NotMade env a.ledger (scoped env scope 0 (c ∷ cs))
      (scoped-NotMade env a.ledger scope 0 (c ∷ cs) h)

stream_decided-IsFresh :
    (env : Env) (a : Accepted) (d : Decided) (w : World)
    → OfProgress (IsFresh env a.ledger) (stream_decided env a d w).1
unfolding stream_decided
stream_decided-IsFresh env a (failed e) w = tt
stream_decided-IsFresh env a (decided res none) w = tt
stream_decided-IsFresh env a (decided res (some calls)) w =
    stream_routed-IsFresh env a res (filter_completed_calls env.ledger a.ledger calls) w
      (filtered-NotMade env a.ledger calls)

stream_ending-IsFresh :
    (env : Env) (l : AgentLedger) (x : Held × Ending) → IsFresh env l (stream_ending x)
unfolding stream_ending
stream_ending-IsFresh env l (h, Answers.tool_response calls text) = tt
stream_ending-IsFresh env l (h, Answers.done) = tt

stream_result-IsFresh :
    (env : Env) (a : Accepted) (events : List StreamEvent) (r : Result Text ChatResult)
    → IsFresh env a.ledger (stream_result env a events r)
unfolding stream_result
stream_result-IsFresh env a events (err e) = tt
stream_result-IsFresh env a events (ok res) =
    stream_ending-IsFresh env a.ledger
      (stream_answer env.uuid (fenced_calls env a) (limited env) events res.text)

stream_reply-IsFresh :
    (env : Env) (up : Upstream) (a : Accepted) (w : World)
    → IsFresh env a.ledger (stream_reply env up a w).1
unfolding stream_reply
stream_reply-IsFresh env up a w =
    let request = answer_request env a stream_rule a.body.tools a.body.tool_choice in
    let (w1, events, r) = ask_events up request w in
    if-both (λ (x : World × Reply). IsFresh env a.ledger x.1) env.can_flush
      {x = (w1, stream_result env a events r)} {y = (w, stream_unsupported)}
      (stream_result-IsFresh env a events r) tt

answer_by-IsFresh :
    (env : Env) (up : Upstream) (a : Accepted) (routes : Bool) (w : World)
    → IsFresh env a.ledger (answer_by env up a true routes w).1
unfolding answer_by stream_router
answer_by-IsFresh env up a true w =
    or_answer-Of (IsFresh env a.ledger) (stream_router env up a w) (stream_reply env up a)
      (let (w1, d) = route env up a repair_text w in stream_decided-IsFresh env a d w1)
      (stream_reply-IsFresh env up a)
answer_by-IsFresh env up a false w = stream_reply-IsFresh env up a w

-- The router of a streamed request never gives a call again that the conversation has a result for: no
-- call of its response has the name and, as JSON, the arguments of a completed call.
pub answer-IsFresh :
    (env : Env) (up : Upstream) (a : Accepted) (w : World)
    → a.body.stream ≡ true
    → IsFresh env a.ledger (answer env up a w).1
unfolding answer
answer-IsFresh env up a w h =
    subst
      (λ s. IsFresh env a.ledger (answer_by env up a s (router_mode env && may_route env a) w).1)
      (sym h) (answer_by-IsFresh env up a (router_mode env && may_route env a) w)
