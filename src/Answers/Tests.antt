-- ===== src/Answers/Tests.antt =====
-- A fence that is cut in two, for the stream of internal/web/server.go.
use m365_copilot2api.Chat.{rune_count}
use m365_copilot2api.Chat.Deltas.{concat}
use m365_copilot2api.Prelude.{ℕ, ◌≡◌, refl, List, [], ◌∷◌, Text, codes, contains, false}
use m365_copilot2api.Events.{StreamEvent, plain}
use m365_copilot2api.Tools.{DetectedToolCall}
use m365_copilot2api.Answers.{fence, stream_answer, tool_response, done}
use m365_copilot2api.Answers.Whole.{answer_text, stream_answer-whole}
use m365_copilot2api.Answers.Fences.{stream_answer-unfenced}

abbrev says : Text → StreamEvent
says t = record {
  kind = plain;
  text = t;
  message_type = [];
  content_type = [];
  tool_name = [];
  arguments = [];
  raw = [];
}

abbrev ids : ℕ → Text
ids n = codes "id"

abbrev call : DetectedToolCall
call = record { id = codes "1"; kind = codes "function"; name = codes "ls"; arguments = codes "{}" }

abbrev events : List StreamEvent
events = says (codes "I will look at it: `") ∷ says (codes "``ls") ∷ []

abbrev whole_text : Text
whole_text = codes "I will look at it: ```ls"

no_calls : (stream_answer ids (λ t. []) (λ cs. cs) events []).1 ≡ done
unfolding stream_answer contains rune_count
no_calls = refl

stream_answer-whole_example :
    concat (stream_answer ids (λ t. []) (λ cs. cs) events []).0.sent ≡ answer_text events []
stream_answer-whole_example = stream_answer-whole ids (λ t. []) (λ cs. cs) events [] no_calls

one_call :
    (stream_answer ids (λ t. call ∷ []) (λ cs. cs) events []).1
    ≡ tool_response (call ∷ []) whole_text
unfolding stream_answer contains rune_count
one_call = refl

stream_answer-unfenced_example :
    contains (concat (stream_answer ids (λ t. call ∷ []) (λ cs. cs) events []).0.sent) fence ≡ false
stream_answer-unfenced_example =
    stream_answer-unfenced ids (λ t. call ∷ []) (λ cs. cs) events [] (call ∷ []) whole_text one_call
