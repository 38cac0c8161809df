-- ===== src/Completions/Serving/Limited/Routers.antt =====
-- The calls that the routers of `openaiChat`, internal/web/server.go, pass on.
use m365_copilot2api.Prelude.{
  none, some, ok, err, true, false, inl, inr, if-both, Bool, Option-cases, List, [], ◌∷◌, ℕ, ◌≤◌,
  Text, codes, Result, text_eq, arith, length, max,
}
use m365_copilot2api.Tools.{DetectedToolCall}
use m365_copilot2api.Completions.{Env, Upstream, World, ChatResult, ask}
use m365_copilot2api.Completions.Checks.{Accepted, configured_tool_call_limit}
use m365_copilot2api.Completions.Routing.{
  Reply, Progress, Decided, refused, bad_gateway, stream_unsupported, tool_response, streamed,
  cut_off, completion, limited, scoped, scoped_call_id, scope_of, routed_reply, goes_on, answered,
  failed, decided, stream_routed, stream_decided, retried_calls, retried, none_chosen,
  required_retry, act_on, decision, model_name, routing_request, printed_choice,
}
use m365_copilot2api.Tools.Limits.{passed-first}
use m365_copilot2api.Tools.Decision.{filter_completed_calls}
use m365_copilot2api.Completions.Prompt.{retry_text}

-- What is said of the calls of an answer: of those of a response of calls, and of those that follow a
-- stream. Other answers have none.
abbrev pub OfCalls :
    (List DetectedToolCall → Type 0) → (List DetectedToolCall → Type 0) → Reply → Type 0
OfCalls P Q (tool_response streams model calls res) = P calls
OfCalls P Q (streamed sent calls) = Q calls
OfCalls P Q (refused r) = Unit
OfCalls P Q (bad_gateway e) = Unit
OfCalls P Q stream_unsupported = Unit
OfCalls P Q (cut_off sent) = Unit
OfCalls P Q (completion model content res) = Unit

-- At most the given number, and one at least in a response of calls.
abbrev pub IsLimited : ℕ → Reply → Type 0
IsLimited n = OfCalls (λ calls. (1 ≤ length calls) × (length calls ≤ n)) (λ calls. length calls ≤ n)

abbrev pub limit_of : Env → ℕ
limit_of env = max 1 (configured_tool_call_limit env)

pub limited-IsLimited :
    (env : Env) (c : DetectedToolCall) (cs : List DetectedToolCall)
    → (1 ≤ length (limited env (c ∷ cs))) × (length (limited env (c ∷ cs)) ≤ limit_of env)
unfolding limited
limited-IsLimited env c cs =
    let (first, least, most) = passed-first env.tools (c ∷ cs) (configured_tool_call_limit env) in
    (omega (arith, least), most)

pub routed_reply-IsLimited :
    (env : Env) (a : Accepted) (s : Bool) (model suffix : Text) (res : ChatResult)
    (c : DetectedToolCall) (cs : List DetectedToolCall)
    → IsLimited (limit_of env) (routed_reply env a s model suffix res (c ∷ cs))
unfolding routed_reply scoped
routed_reply-IsLimited env a s model suffix res c cs =
    limited-IsLimited env (record c { id = scoped_call_id env c 0 (scope_of env a suffix) })
      (scoped env (scope_of env a suffix) 1 cs)

-- A router that goes on says nothing of calls.
abbrev pub OfProgress : (Reply → Type 0) → Progress → Type 0
OfProgress P goes_on = Unit
OfProgress P (answered r) = P r

stream_routed-IsLimited :
    (env : Env) (a : Accepted) (res : ChatResult) (cs : List DetectedToolCall) (w : World)
    → OfProgress (IsLimited (limit_of env)) (stream_routed env a res cs w).1
unfolding stream_routed
stream_routed-IsLimited env a res [] w = tt
stream_routed-IsLimited env a res (c ∷ cs) w =
    routed_reply-IsLimited env a true (model_name a.body) (codes ":stream") res c cs

pub stream_decided-IsLimited :
    (env : Env) (a : Accepted) (d : Decided) (w : World)
    → OfProgress (IsLimited (limit_of env)) (stream_decided env a d w).1
unfolding stream_decided
stream_decided-IsLimited env a (failed e) w = tt
stream_decided-IsLimited env a (decided res none) w = tt
stream_decided-IsLimited env a (decided res (some calls)) w =
    stream_routed-IsLimited env a res (filter_completed_calls env.ledger a.ledger calls) w

retried_calls-IsLimited :
    (env : Env) (a : Accepted) (res : ChatResult) (cs : List DetectedToolCall)
    → IsLimited (limit_of env) (retried_calls env a res cs)
unfolding retried_calls
retried_calls-IsLimited env a res [] = tt
retried_calls-IsLimited env a res (c ∷ cs) =
    routed_reply-IsLimited env a false (model_name a.body) (codes ":required-retry") res c cs

retried-IsLimited :
    (env : Env) (a : Accepted) (r : Result Text ChatResult)
    → IsLimited (limit_of env) (retried env a r)
unfolding retried
retried-IsLimited env a (err e) = tt
retried-IsLimited env a (ok res) = elim (Option-cases (decision env a res.text)) [
  | inl unread ↦ rw (unread, retried) (retried_calls-IsLimited env a res [])
  | inr (calls, read) ↦
      rw (read, retried)
        (retried_calls-IsLimited env a res (filter_completed_calls env.ledger a.ledger calls))
]

none_chosen-IsLimited :
    (env : Env) (up : Upstream) (a : Accepted) (w : World)
    → OfProgress (IsLimited (limit_of env)) (none_chosen env up a w).1
unfolding none_chosen required_retry
none_chosen-IsLimited env up a w =
    let (w1, r) = ask up (routing_request a (retry_text env a.prompt a.ledger a.tool_maps)) w in
    if-both (λ (x : World × Progress). OfProgress (IsLimited (limit_of env)) x.1)
      (text_eq (printed_choice env a) (codes "required")) {x = (w1, answered (retried env a r))}
      {y = (w, goes_on)} (retried-IsLimited env a r) tt

pub act_on-IsLimited :
    (env : Env) (up : Upstream) (a : Accepted) (d : Decided) (w : World)
    → OfProgress (IsLimited (limit_of env)) (act_on env up a d w).1
unfolding act_on
act_on-IsLimited env up a (failed e) w = tt
act_on-IsLimited env up a (decided res none) w = tt
act_on-IsLimited env up a (decided res (some [])) w = none_chosen-IsLimited env up a w
act_on-IsLimited env up a (decided res (some (c ∷ cs))) w =
    routed_reply-IsLimited env a false (model_name a.body) [] res c cs
