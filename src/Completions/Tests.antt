-- ===== src/Completions/Tests.antt =====
-- Runs of `openaiChat` of internal/web/server.go on the samples.
use m365_copilot2api.Json
use m365_copilot2api.Prelude.{
  some, ok, true, false, refl, [], ◌∷◌, codes, length, ◌≡◌, ◌≤◌, ◌+◌, text_eq, trim_space, contains,
  filter, lookup, has_suffix,
}
use m365_copilot2api.Models.{model_tone}
use m365_copilot2api.Sessions.{get}
use m365_copilot2api.Ledger.Control.{has_completed, can_continue, active_messages}
use m365_copilot2api.Tools.{limit_tool_calls, adaptive_tool_call_limit}
use m365_copilot2api.Tools.Decision.{parse_model_tool_decision}
use m365_copilot2api.Json.{Fields}
use m365_copilot2api.Message.{Message}
use m365_copilot2api.Completions.{Env}
use m365_copilot2api.Completions.Checks.{Accepted, check, tool_map}
use m365_copilot2api.Completions.Checks.Ready.{IsReady, check-IsReady}
use m365_copilot2api.Completions.Routing.{printed_choice}
use m365_copilot2api.Completions.Answering.{may_route, stream_result}
use m365_copilot2api.Completions.Serving.{answer, openai_chat}
use m365_copilot2api.Completions.Serving.Bounds.{answer-Spends}
use m365_copilot2api.Completions.Serving.Limited.{answer-IsLimited}
use m365_copilot2api.Completions.Serving.Limited.Routers.{IsLimited, limit_of}
use m365_copilot2api.Completions.Serving.Required.{Chooses, answer-required}
use m365_copilot2api.Completions.Serving.Fresh.{IsFresh, answer-IsFresh}
use m365_copilot2api.Completions.Serving.Outcome.{Outcome, openai_chat-Outcome}
use m365_copilot2api.Accounts.{AccountToken, first, ensure_valid, renew}
use m365_copilot2api.Ledger.Tally.{empty_ledger, build_agent_ledger}
use m365_copilot2api.Models.Catalog.{
  reasoning_tone, normalize_reasoning_effort, configured_model_tone, deepened, is_explicit,
  is_light,
}
use m365_copilot2api.Conversation.{validate_tool_conversation, turns, turn, finish}
use m365_copilot2api.Ledger.Collect.{note_message}
use m365_copilot2api.Accounts.Login.{resolve_account}
use m365_copilot2api.Completions.Prompt.{blocks}
use m365_copilot2api.Completions.Samples.{
  read_fields, hello, routing, slow, quick, world, ready, names_of,
}

three_requests : length (answer routing slow (ready false (codes "required")) world).0.asked ≡ 3
unfolding answer text_eq parse_model_tool_decision trim_space contains
three_requests = refl

-- The router of a request that is not streamed gives a call again that has a result.
call_again :
    names_of (answer routing quick (ready false (codes "auto")) world).1 ≡ codes "read" ∷ []
unfolding answer text_eq parse_model_tool_decision trim_space contains tool_map limit_tool_calls
    adaptive_tool_call_limit
call_again = refl

call_not_streamed_again : names_of (answer routing quick (ready true (codes "auto")) world).1 ≡ []
unfolding answer text_eq parse_model_tool_decision trim_space contains tool_map filter has_completed
    stream_result
call_not_streamed_again = refl

abbrev accepted : Accepted
accepted = record (ready true (codes "auto")) {
  ledger = empty_ledger;
  prompt = codes "[user]\nhello";
}

accepted_request : (check routing true (some (codes "{}")) world).1 ≡ ok accepted
unfolding check reasoning_tone normalize_reasoning_effort trim_space configured_model_tone
    validate_tool_conversation turns turn text_eq finish can_continue build_agent_ledger
    active_messages note_message resolve_account get lookup first ensure_valid
    m365_copilot2api.Accounts.get renew deepened is_explicit contains has_suffix model_tone is_light
accepted_request = refl

answer-Spends_example :
    length (answer routing slow (ready false (codes "required")) world).0.asked
    ≤ length world.asked + 3
answer-Spends_example = answer-Spends routing slow (ready false (codes "required")) world

answer-IsLimited_example :
    IsLimited (limit_of routing) (answer routing quick (ready false (codes "auto")) world).1
answer-IsLimited_example = answer-IsLimited routing quick (ready false (codes "auto")) world

answer-required_example : Chooses (answer routing slow (ready false (codes "required")) world).1
unfolding may_route printed_choice text_eq
answer-required_example =
    answer-required routing slow (ready false (codes "required")) world refl refl refl refl

answer-IsFresh_example :
    IsFresh routing
      (ready true (codes "auto")).ledger
      (answer routing quick (ready true (codes "auto")) world).1
answer-IsFresh_example = answer-IsFresh routing quick (ready true (codes "auto")) world refl

check-IsReady_example : IsReady routing accepted
check-IsReady_example =
    check-IsReady routing true (some (codes "{}")) world accepted accepted_request

openai_chat-Outcome_example :
    Outcome routing quick world
      (check routing true (some (codes "{}")) world)
      (openai_chat routing quick true (some (codes "{}")) world)
openai_chat-Outcome_example = openai_chat-Outcome routing quick true (some (codes "{}")) world

-- `fmt.Sprint` prints a content that is null as `<nil>`.
abbrev printing : Env
printing = record routing { ledger = record (routing.ledger) { sprint = λ v. codes "<nil>" } }

abbrev calling : Message
calling = record hello {
  role = codes "assistant";
  content = Json.null;
  tool_calls = read_fields ∷ [];
}

-- A message that only calls a tool, with the content null, puts words into the mouth of the assistant.
null_is_said :
    blocks printing (calling ∷ []) ≡ codes "\n[assistant]\n<nil>\n\n[assistant tool_calls]\n\n"
unfolding blocks trim_space
null_is_said = refl
