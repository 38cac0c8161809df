-- ===== src/Completions/Serving.antt =====
-- The whole of `openaiChat` of internal/web/server.go: the checks, the router, and the answer.
pub mod Bounds
pub mod Limited
pub mod Outcome
pub mod Fresh
pub mod Required
use m365_copilot2api.Prelude.{
  ok, err, Bool, ◌&&◌, text_eq, if◌then◌else◌, Option, codes, Text, true, false, Result,
}
use m365_copilot2api.Completions.{Env, Upstream, World}
use m365_copilot2api.Completions.Checks.{Accepted, check, Refusal}
use m365_copilot2api.Completions.Routing.{
  Reply, refused, Progress, goes_on, answered, stream_router, router,
}
use m365_copilot2api.Completions.Answering.{stream_reply, whole_reply, may_route}

-- What follows a router: its answer, or else the given one.
unfoldable pub or_answer : World × Progress → (World → World × Reply) → World × Reply
or_answer (w, answered reply) go = (w, reply)
or_answer (w, goes_on) go = go w

abbrev pub router_mode : Env → Bool
router_mode env = text_eq env.limits.planning_mode (codes "router")

-- Whether the request is streamed, and whether a router comes first.
unfoldable pub answer_by : Env → Upstream → Accepted → Bool → Bool → World → World × Reply
unfolding or_answer stream_router router stream_reply whole_reply
answer_by env up a true true w = or_answer (stream_router env up a w) (stream_reply env up a)
answer_by env up a true false w = stream_reply env up a w
answer_by env up a false true w = or_answer (router env up a w) (whole_reply env up a)
answer_by env up a false false w = whole_reply env up a w

-- The answer to a request that passed the checks.
unfoldable pub answer : Env → Upstream → Accepted → World → World × Reply
unfolding answer_by may_route
answer env up a w = answer_by env up a a.body.stream (router_mode env && may_route env a) w

unfoldable pub serve : Env → Upstream → World × Result Refusal Accepted → World × Reply
unfolding answer
serve env up (w, err r) = (w, refused r)
serve env up (w, ok a) = answer env up a w

-- `openaiChat`.
unfoldable pub openai_chat : Env → Upstream → Bool → Option Text → World → World × Reply
unfolding check serve
openai_chat env up is_post raw w = serve env up (check env is_post raw w)
