-- ===== src/Completions/Serving/Bounds.antt =====
-- How often `openaiChat` asks the chat service: internal/web/server.go.
use m365_copilot2api.Prelude.{
  none, some, ok, err, ℕ, arith, Text, length, length-append, Option, Result, ◌≤◌, List, ◌∷◌, [],
  ◌+◌, ◌≡◌, text_eq, if◌then◌else◌, codes, subst, true, false, ◌&&◌, text_eq_iff, refl, if-both,
  Bool,
}
use m365_copilot2api.Completions.{Env, Upstream, World, ask, ask_events, ChatRequest, ChatResult}
use m365_copilot2api.Completions.Checks.{Accepted}
use m365_copilot2api.Completions.Routing.{
  route, routing_request, route_text, mend, read_route, decision, remember, Progress, goes_on,
  answered, Decided, failed, decided, stream_decided, stream_routed, stream_router, none_chosen,
  required_retry, act_on, router, printed_choice, Reply, stream_unsupported,
}
use m365_copilot2api.Tools.{DetectedToolCall}
use m365_copilot2api.Completions.Answering.{
  act_on_answer, recover_intent, read_answer, whole_reply, whole_request, stream_reply,
  answer_request, native_mode, calls_of_answer, may_route, stream_result,
}
use m365_copilot2api.Completions.Prompt.{repair_text, strict_repair_text, retry_text, stream_rule}
use m365_copilot2api.Tools.Decision.{filter_completed_calls}
use m365_copilot2api.Completions.Serving.{answer, or_answer, router_mode, answer_by}

-- At most the given number of requests was made.
abbrev pub Spends : ℕ → World → World → Type 0
Spends n w w1 = length w1.asked ≤ length w.asked + n

ask-Spends : (up : Upstream) (r : ChatRequest) (w : World) → Spends 1 w (ask up r w).0
unfolding ask
ask-Spends up r w = omega (arith, length-append w.asked (r ∷ []))

ask_events-Spends : (up : Upstream) (r : ChatRequest) (w : World) → Spends 1 w (ask_events up r w).0
unfolding ask_events
ask_events-Spends up r w = omega (arith, length-append w.asked (r ∷ []))

mend-Spends :
    (env : Env) (up : Upstream) (a : Accepted) (repair : Text) (res : ChatResult)
    (read : Option (List DetectedToolCall)) (w : World)
    → Spends 1 w (mend env up a repair res read w).0
unfolding mend
mend-Spends env up a repair res none w = ask-Spends up _ w
mend-Spends env up a repair res (some calls) w = omega arith

read_route-Spends :
    (env : Env) (up : Upstream) (a : Accepted) (repair : Text) (r : Result Text ChatResult)
    (w : World)
    → Spends 1 w (read_route env up a repair r w).0
unfolding read_route
read_route-Spends env up a repair (err e) w = omega arith
read_route-Spends env up a repair (ok res) w =
    mend-Spends env up a repair res (decision env a res.text) w

route-Spends :
    (env : Env) (up : Upstream) (a : Accepted) (repair : Text) (w : World)
    → Spends 2 w (route env up a repair w).0
unfolding route
route-Spends env up a repair w =
    let (w1, r) = ask up (routing_request a (route_text env a)) w in
    omega (
      arith,
      ask-Spends up (routing_request a (route_text env a)) w,
      read_route-Spends env up a repair r w1,
    )

remember-asked :
    (env : Env) (a : Accepted) (res : ChatResult) (w : World)
    → (remember env a res w).asked ≡ w.asked
unfolding remember
remember-asked env a res w = ground arith

-- What a router costs: it answers after three requests at most, or goes on after two.
abbrev Costs : World → World × Progress → Type 0
Costs w (w1, goes_on) = Spends 2 w w1
Costs w (w1, answered r) = Spends 3 w w1

stream_routed-Costs :
    (env : Env) (a : Accepted) (res : ChatResult) (cs : List DetectedToolCall) (w w1 : World)
    → Spends 2 w w1
    → Costs w (stream_routed env a res cs w1)
unfolding stream_routed
stream_routed-Costs env a res [] w w1 h = h
stream_routed-Costs env a res (c ∷ cs) w w1 h = rw (remember-asked env a res w1) (omega arith)

stream_decided-Costs :
    (env : Env) (a : Accepted) (d : Decided) (w w1 : World)
    → Spends 2 w w1
    → Costs w (stream_decided env a d w1)
unfolding stream_decided
stream_decided-Costs env a (failed e) w w1 h = omega arith
stream_decided-Costs env a (decided res none) w w1 h = h
stream_decided-Costs env a (decided res (some calls)) w w1 h =
    stream_routed-Costs env a res (filter_completed_calls env.ledger a.ledger calls) w w1 h

stream_router-Costs :
    (env : Env) (up : Upstream) (a : Accepted) (w : World) → Costs w (stream_router env up a w)
unfolding stream_router
stream_router-Costs env up a w =
    let (w1, d) = route env up a repair_text w in
    stream_decided-Costs env a d w w1 (route-Spends env up a repair_text w)

none_chosen-Costs :
    (env : Env) (up : Upstream) (a : Accepted) (w w1 : World)
    → Spends 2 w w1
    → Costs w (none_chosen env up a w1)
unfolding none_chosen required_retry
none_chosen-Costs env up a w w1 h =
    let spent =
      ask-Spends up (routing_request a (retry_text env a.prompt a.ledger a.tool_maps)) w1 in
    let reply = (required_retry env up a w1).1 in
    if-both (Costs w) (text_eq (printed_choice env a) (codes "required"))
      {x = ((required_retry env up a w1).0, answered reply)} {y = (w1, goes_on)}
      (omega (arith, spent, h)) h

act_on-Costs :
    (env : Env) (up : Upstream) (a : Accepted) (d : Decided) (w w1 : World)
    → Spends 2 w w1
    → Costs w (act_on env up a d w1)
unfolding act_on
act_on-Costs env up a (failed e) w w1 h = omega arith
act_on-Costs env up a (decided res none) w w1 h = omega arith
act_on-Costs env up a (decided res (some [])) w w1 h = none_chosen-Costs env up a w w1 h
act_on-Costs env up a (decided res (some (c ∷ cs))) w w1 h = omega arith

router-Costs : (env : Env) (up : Upstream) (a : Accepted) (w : World) → Costs w (router env up a w)
unfolding router
router-Costs env up a w =
    let (w1, d) = route env up a strict_repair_text w in
    act_on-Costs env up a d w w1 (route-Spends env up a strict_repair_text w)

stream_reply-Spends :
    (env : Env) (up : Upstream) (a : Accepted) (w : World) → Spends 1 w (stream_reply env up a w).0
unfolding stream_reply
stream_reply-Spends env up a w =
    let request = answer_request env a stream_rule a.body.tools a.body.tool_choice in
    let (w1, events, r) = ask_events up request w in
    if-both (λ (x : World × Reply). Spends 1 w x.0) env.can_flush
      {x = (w1, stream_result env a events r)} {y = (w, stream_unsupported)}
      (ask_events-Spends up request w) (omega arith)

act_on_answer-Spends :
    (env : Env) (up : Upstream) (a : Accepted) (res : ChatResult) (cs : List DetectedToolCall)
    (w : World)
    → Spends (if native_mode env then 2 else 0) w (act_on_answer env up a res cs w).0
unfolding act_on_answer recover_intent
act_on_answer-Spends env up a res (c ∷ cs) w = ground arith
act_on_answer-Spends env up a res [] w = ground (arith, route-Spends env up a repair_text w)

read_answer-Spends :
    (env : Env) (up : Upstream) (a : Accepted) (r : Result Text ChatResult) (w : World)
    → Spends (if native_mode env then 2 else 0) w (read_answer env up a r w).0
unfolding read_answer
read_answer-Spends env up a (err e) w = ground arith
read_answer-Spends env up a (ok res) w =
    subst
      (λ asked.
        length
          (act_on_answer env up a res (calls_of_answer env a res) (remember env a res w)).0.asked
        ≤ length asked + (if native_mode env then 2 else 0))
      (remember-asked env a res w)
      (act_on_answer-Spends env up a res (calls_of_answer env a res) (remember env a res w))

whole_reply-Spends :
    (env : Env) (up : Upstream) (a : Accepted) (w : World)
    → Spends (if native_mode env then 3 else 1) w (whole_reply env up a w).0
unfolding whole_reply
whole_reply-Spends env up a w =
    let (w1, r) = ask up (whole_request env a) w in
    ground (arith, ask-Spends up (whole_request env a) w, read_answer-Spends env up a r w1)

or_answer-Spends :
    (x : World × Progress) (go : World → World × Reply) (w : World)
    → Costs w x
    → ((w1 : World) → Spends 1 w1 (go w1).0)
    → Spends 3 w (or_answer x go).0
unfolding or_answer
or_answer-Spends (w1, goes_on) go w c h = omega (arith, h w1)
or_answer-Spends (w1, answered r) go w c h = c

native-or-router : (env : Env) → router_mode env ≡ true → native_mode env ≡ false
unfolding text_eq
native-or-router env h = rw ((text_eq_iff env.limits.planning_mode (codes "router")).0 h) refl

answer_by-Spends :
    (env : Env) (up : Upstream) (a : Accepted) (streams routes : Bool) (w : World)
    → (routes ≡ true → native_mode env ≡ false)
    → Spends 3 w (answer_by env up a streams routes w).0
unfolding answer_by
answer_by-Spends env up a true true w h =
    or_answer-Spends (stream_router env up a w) (stream_reply env up a) w
      (stream_router-Costs env up a w) (stream_reply-Spends env up a)
answer_by-Spends env up a true false w h = omega (arith, stream_reply-Spends env up a w)
answer_by-Spends env up a false true w h =
    or_answer-Spends (router env up a w) (whole_reply env up a) w (router-Costs env up a w)
      (λ w1. ground (arith, whole_reply-Spends env up a w1))
answer_by-Spends env up a false false w h = ground (arith, whole_reply-Spends env up a w)

-- For one request of a client, the chat service is asked three times at most: for a route, for its repair,
-- and for the answer or a call that is required, in any mode and whatever it answers.
pub answer-Spends :
    (env : Env) (up : Upstream) (a : Accepted) (w : World)
    → length (answer env up a w).0.asked ≤ length w.asked + 3
unfolding answer
answer-Spends env up a w =
    answer_by-Spends env up a a.body.stream (router_mode env && may_route env a) w
      (λ h. native-or-router env (ground arith))
