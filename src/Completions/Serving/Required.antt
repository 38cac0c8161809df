-- ===== src/Completions/Serving/Required.antt =====
-- What `openaiChat`, internal/web/server.go, answers where the request demands a tool.
use m365_copilot2api.Prelude.{
  none, some, ok, err, true, false, inl, inr, Option-cases, Bool, ◌⊎◌, refl, text_eq_iff, ap, sym,
  subst, ◌∙◌, Text, ◌≡◌, List, Result, ◌∷◌, [], codes, ◌&&◌, arith,
}
use m365_copilot2api.Tools.{DetectedToolCall}
use m365_copilot2api.Completions.{Env, Upstream, World, ChatResult, ask}
use m365_copilot2api.Completions.Checks.{Accepted}
use m365_copilot2api.Completions.Routing.{
  Reply, Progress, Decided, bad_gateway, tool_response, routed_reply, answered, failed, decided,
  retried_calls, retried, none_chosen, required_retry, act_on, decision, model_name, route, router,
  routing_request, printed_choice,
}
use m365_copilot2api.Tools.Decision.{filter_completed_calls}
use m365_copilot2api.Completions.Prompt.{strict_repair_text, retry_text}
use m365_copilot2api.Completions.Answering.{may_route, whole_reply}
use m365_copilot2api.Completions.Serving.{or_answer, answer_by, answer, router_mode}

-- The reply has tool calls, or says that the gateway could not get any.
abbrev pub Chooses : Reply → Type 0
Chooses r =
    ((streams : Bool) × (model : Text) × (calls : List DetectedToolCall) × (res : ChatResult) × (r
        ≡ tool_response streams model calls res))
    ⊎ ((e : Text) × (r ≡ bad_gateway e))

-- The router has answered, with calls or with an error.
abbrev Settles : World × Progress → Type 0
Settles x = (w : World) × (r : Reply) × (x ≡ (w, answered r)) × Chooses r

routed_reply-Chooses :
    (env : Env) (a : Accepted) (s : Bool) (model suffix : Text) (res : ChatResult)
    (cs : List DetectedToolCall)
    → Chooses (routed_reply env a s model suffix res cs)
unfolding routed_reply
routed_reply-Chooses env a s model suffix res cs = inl (s, model, _, res, refl)

retried_calls-Chooses :
    (env : Env) (a : Accepted) (res : ChatResult) (cs : List DetectedToolCall)
    → Chooses (retried_calls env a res cs)
unfolding retried_calls
retried_calls-Chooses env a res [] = inr (_, refl)
retried_calls-Chooses env a res (c ∷ cs) =
    routed_reply-Chooses env a false (model_name a.body) (codes ":required-retry") res (c ∷ cs)

retried-Chooses :
    (env : Env) (a : Accepted) (r : Result Text ChatResult) → Chooses (retried env a r)
unfolding retried
retried-Chooses env a (err e) = inr (_, refl)
retried-Chooses env a (ok res) = elim (Option-cases (decision env a res.text)) [
  | inl unread ↦ rw (unread, retried) (retried_calls-Chooses env a res [])
  | inr (calls, read) ↦
      rw (read, retried)
        (retried_calls-Chooses env a res (filter_completed_calls env.ledger a.ledger calls))
]

act_on-Settles :
    (env : Env) (up : Upstream) (a : Accepted) (d : Decided) (w : World)
    → printed_choice env a ≡ codes "required"
    → Settles (act_on env up a d w)
unfolding act_on none_chosen required_retry
act_on-Settles env up a (failed e) w h = (w, _, refl, inr (_, refl))
act_on-Settles env up a (decided res none) w h = (w, _, refl, inr (_, refl))
act_on-Settles env up a (decided res (some (c ∷ cs))) w h =
    (w, _, refl, routed_reply-Chooses env a false (model_name a.body) [] res (c ∷ cs))
act_on-Settles env up a (decided res (some [])) w h =
    let (w1, r) = ask up (routing_request a (retry_text env a.prompt a.ledger a.tool_maps)) w in
    (
      w1,
      retried env a r,
      rw ((text_eq_iff (printed_choice env a) (codes "required")).1 h, none_chosen) refl,
      retried-Chooses env a r,
    )

-- A request that is not streamed, demands a tool and comes to the router is never answered with a text:
-- the reply is a response of tool calls or an error of the gateway, whatever the chat service says.
pub answer-required :
    (env : Env) (up : Upstream) (a : Accepted) (w : World)
    → a.body.stream ≡ false
    → router_mode env ≡ true
    → may_route env a ≡ true
    → printed_choice env a ≡ codes "required"
    → Chooses (answer env up a w).1
unfolding answer answer_by or_answer router
answer-required env up a w whole routes may required =
    let (w1, d) = route env up a strict_repair_text w in
    let (w2, r, settled, chosen) = act_on-Settles env up a d w1 required in
    let path : (answer env up a w) ≡ or_answer (router env up a w) (whole_reply env up a) =
      ap (λ s. answer_by env up a s (router_mode env && may_route env a) w) whole
      ∙ ap (λ b. answer_by env up a false b w) {y = true} (ground arith) in
    subst (λ x. Chooses x.1) (sym (path ∙ ap (λ x. or_answer x (whole_reply env up a)) settled))
      chosen
