-- ===== src/Answers/Relay.antt =====
-- From the socket to the client: the frame loop of internal/chathub/client.go under the stream of
-- `openaiChat`, internal/web/server.go.
mod Tests
use m365_copilot2api.Prelude.{
  ℕ, ◌≡◌, inl, inr, refl, sym, ap, ◌∙◌, List, [], ◌∷◌, ◌++◌, true, false, not, ◌&&◌, Text, is_empty,
  arith, Bool-cases, ok,
}
use mathlib.Core.List.{append_assoc, append-nil}
use m365_copilot2api.Events.{StreamEvent, Kind, plain, progress, tool}
use m365_copilot2api.Tools.{DetectedToolCall}
use m365_copilot2api.Chat.{Cites}
use m365_copilot2api.Chat.Deltas.{concat, IsFaithful}
use m365_copilot2api.Chat.Frames.{Handlers, Turn, new_turn}
use m365_copilot2api.Chat.Rounds.{Round, receive}
use m365_copilot2api.Chat.Frames.Faithful.{receive-IsFaithful}
use m365_copilot2api.Answers.{
  Held, nothing_held, emit_text, split_at, take_text, take_event, take_events, recover,
  stream_answer, done,
}
use m365_copilot2api.Answers.Whole.{texts_of, stream_answer-whole}

-- Where a chat ends well with some streamed text, and the handler of the stream has been given its texts,
-- with other events between them: a client that is not answered with tool calls has been sent exactly
-- the text that was streamed.
pub stream_answer-streamed :
    (cites : Cites) (h : Handlers) (rounds : List Round) (t : Turn)
    → receive cites h rounds new_turn ≡ ok t
    → is_empty t.stream.streamed ≡ false
    → (ids : ℕ → Text) (fenced : Text → List DetectedToolCall)
      (limit : List DetectedToolCall → List DetectedToolCall) (es : List StreamEvent) (res : Text)
    → texts_of es ≡ t.stream.sent
    → (stream_answer ids fenced limit es res).1 ≡ done
    → concat (stream_answer ids fenced limit es res).0.sent ≡ t.stream.streamed
stream_answer-streamed cites h rounds t ran full ids fenced limit es res given e =
    let faithful : IsFaithful t.stream =
      receive-IsFaithful cites h rounds new_turn t (record { whole = refl; pieces = tt }) ran in
    let said : concat (texts_of es) ≡ t.stream.streamed = ap concat given ∙ faithful.whole in
    stream_answer-whole ids fenced limit es res e ∙ rw (ap is_empty said ∙ full) said
