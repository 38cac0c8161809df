-- ===== src/Completions/Serving/Outcome.antt =====
-- What becomes of a request to `openaiChat`, internal/web/server.go.
use m365_copilot2api.Prelude.{ok, err, inl, inr, ◌≡◌, ◌⊎◌, refl, Result, Bool, Option, Text}
use m365_copilot2api.Completions.{Env, Upstream, World, OaiReq}
use m365_copilot2api.Completions.Checks.{
  Refusal, Accepted, check, check_rest, check_account, check_request,
}
use m365_copilot2api.Completions.Checks.Ready.{IsReady, check-IsReady}
use m365_copilot2api.Completions.Routing.{Reply, refused}
use m365_copilot2api.Completions.Serving.{answer, serve, openai_chat}
use m365_copilot2api.Ledger.{AgentLedger}

-- A request is refused without a word to the chat service and without a change of the stored
-- conversations; or it is ready, and is answered.
abbrev pub Outcome :
    Env → Upstream → World → World × Result Refusal Accepted → World × Reply → Type 0
Outcome env up w checked (w1, r) =
    ((e : Refusal) × (r ≡ refused e) × (w1.asked ≡ w.asked) × (w1.sessions ≡ w.sessions))
    ⊎ ((a : Accepted) × IsReady env a
        × (checked.1 ≡ ok a)
        × (checked.0.asked ≡ w.asked)
        × (checked.0.sessions ≡ w.sessions)
        × ((w1, r) ≡ answer env up a checked.0))

check_rest-keeps :
    (env : Env) (r : Result Refusal (OaiReq × Text × AgentLedger × Text)) (w : World)
    → ((check_rest env r w).0.asked ≡ w.asked) × ((check_rest env r w).0.sessions ≡ w.sessions)
unfolding check_rest check_account
check_rest-keeps env (err e) w = (refl, refl)
check_rest-keeps env (ok (body, tone, l, prompt)) w = (refl, refl)

serve-Outcome :
    (env : Env) (up : Upstream) (w : World) (checked : World × Result Refusal Accepted)
    → ((a : Accepted) → checked.1 ≡ ok a → IsReady env a)
    → (checked.0.asked ≡ w.asked) × (checked.0.sessions ≡ w.sessions)
    → Outcome env up w checked (serve env up checked)
unfolding serve
serve-Outcome env up w (w1, err e) ready kept = inl (e, refl, kept.0, kept.1)
serve-Outcome env up w (w1, ok a) ready kept = inr (a, ready a refl, refl, kept.0, kept.1, refl)

-- The handler refuses a request without asking the chat service and without touching the stored
-- conversations, or answers it: then the request has passed the checks and is ready.
pub openai_chat-Outcome :
    (env : Env) (up : Upstream) (is_post : Bool) (raw : Option Text) (w : World)
    → Outcome env up w (check env is_post raw w) (openai_chat env up is_post raw w)
unfolding openai_chat check
openai_chat-Outcome env up is_post raw w =
    serve-Outcome env up w (check env is_post raw w) (check-IsReady env is_post raw w)
      (check_rest-keeps env (check_request env is_post raw) w)
