-- ===== src/Chat/Rounds.antt =====
-- The rounds of `chatWithHandlers`, internal/chathub/client.go: one message of the socket after the other,
-- and the result. A list of rounds that ends is the overall deadline.
use m365_copilot2api.Prelude.{
  List, [], ◌∷◌, ◌++◌, Option, Text, nat_eq, if◌then◌else◌, Result, ok, err, ◌>>=◌,
}
use m365_copilot2api.Json.{Value}
use m365_copilot2api.Chat.{Cites, final_text_reconcile}
use m365_copilot2api.Chat.Frames.{
  Handlers, ChatError, stopped, read_before_completion, deadline_exceeded, Turn, new_turn, running,
  complete, parts,
}

-- `strings.Split(msg, "\x1e")`; `field` holds the bytes of the present part.
unfoldable pub split_parts : Text → Text → List Text
split_parts field [] = field ∷ []
split_parts field (c ∷ s) =
    let rest = split_parts [] s in
    let more = split_parts (field ++ c ∷ []) s in if nat_eq c 0x1e then field ∷ rest else more

-- One round of the loop: the request is cancelled, the read fails, or a message comes.
pub data Round : Type 0 where
  cancelled read_failed received : Text → Round

-- `Result`, less the identifiers and what is derived from the events.
pub record Answer : Type 0 where
  pub text : Text
  pub throttling : Option Value
  pub raw_result : Text
  pub events : List Text

module _ (cites : Cites) (h : Handlers) where
  unfoldable pub answer_of : Turn → Answer
  answer_of t = record {
    text = final_text_reconcile cites t.stream.streamed t.final;
    throttling = t.throttling;
    raw_result = t.raw_result;
    events = t.events;
  }

  -- The loop, and the variables at its end.
  unfoldable pub receive : List Round → Turn → Result ChatError Turn
  unfolding parts split_parts
  receive [] t = err deadline_exceeded
  receive (cancelled e ∷ rs) t = err (stopped e)
  receive (read_failed e ∷ rs) t = err (read_before_completion e)
  receive (received m ∷ rs) t = elim (parts cites h (split_parts [] m) t) [
    | err e ↦ err e
    | ok (complete t') ↦ ok t'
    | ok (running t') ↦ receive rs t'
  ]

  unfoldable pub chat : List Round → Result ChatError Answer
  unfolding receive answer_of
  chat rs = do t ← receive rs new_turn; ok (answer_of t)
