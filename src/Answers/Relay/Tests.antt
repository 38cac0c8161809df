-- ===== src/Answers/Relay/Tests.antt =====
-- One message of the socket and the stream that it becomes, for internal/web/server.go.
use m365_copilot2api.Prelude.{
  List, [], ◌∷◌, Option, none, some, Text, codes, text_eq, if◌then◌else◌, ok, ◌≡◌, refl, ℕ, false,
  trim_space, contains,
}
use m365_copilot2api.Json.{Fields, end, field, num, str, arr, obj, cons, nil}
use m365_copilot2api.Events.{StreamEvent, plain}
use m365_copilot2api.Chat.{Cites, unseen_delta, clean, rune_count}
use m365_copilot2api.Chat.Deltas.{concat, emit_snapshot}
use m365_copilot2api.Chat.Frames.{Handlers, Turn, new_turn}
use m365_copilot2api.Chat.Rounds.{Round, received, receive}
use m365_copilot2api.Answers.{stream_answer, done}
use m365_copilot2api.Answers.Relay.{stream_answer-streamed}

abbrev cites : Cites
cites = record {
  lower = λ s. s;
  markdown = λ s. s;
  bare = λ s. s;
  html_body = λ s. s;
  html = λ s. s;
  plain = λ s. s;
  multi_space = λ s. s;
}

abbrev kind : ℕ → Fields → Fields
kind n fs = field (codes "type") (num (record { negative = false; magnitude = n; scale = 0 })) fs

abbrev update : Text → Fields
update t = kind 1 (
    field (codes "target") (str (codes "update")) (
      field (codes "arguments") (arr (cons (obj (field (codes "writeAtCursor") (str t) end)) nil))
        end))

abbrev decode : Text → Option Fields
decode p =
    if text_eq p (codes "end")
    then some (kind 3 end)
    else if text_eq p (codes "bad")
    then none
    else some (update p)

abbrev handlers : Handlers
handlers = record { on_delta = λ ts t. none; on_event = none; decode = decode; encode = λ v. [] }

abbrev rounds : List Round
rounds = received (codes "Hello") ∷ received (codes "end") ∷ []

abbrev turn : Turn
turn = record new_turn {
  stream = record { streamed = codes "Hello"; sent = codes "Hello" ∷ [] };
  events = codes "Hello" ∷ codes "end" ∷ [];
}

ran : receive cites handlers rounds new_turn ≡ ok turn
unfolding receive trim_space text_eq emit_snapshot unseen_delta clean contains
ran = refl

abbrev events : List StreamEvent
events =
    record {
      kind = plain;
      text = codes "Hello";
      message_type = [];
      content_type = [];
      tool_name = [];
      arguments = [];
      raw = [];
    }
    ∷ []

abbrev ids : ℕ → Text
ids n = codes "id"

no_calls : (stream_answer ids (λ t. []) (λ cs. cs) events []).1 ≡ done
unfolding stream_answer contains rune_count
no_calls = refl

stream_answer-streamed_example :
    concat (stream_answer ids (λ t. []) (λ cs. cs) events []).0.sent ≡ codes "Hello"
stream_answer-streamed_example =
    stream_answer-streamed cites handlers rounds turn ran refl ids (λ t. []) (λ cs. cs) events []
      refl no_calls
