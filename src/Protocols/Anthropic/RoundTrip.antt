-- ===== src/Protocols/Anthropic/RoundTrip.antt =====
-- A client of the Anthropic protocol sends the tool calls of an answer back: internal/web/protocol_compat.go
-- against internal/web/protocol_response.go.
use m365_copilot2api.Json
use m365_copilot2api.Prelude.{
  none, some, Text, List, [], ◌∷◌, Option, map, All, ◌≡◌, refl, text_eq, codes,
}
use m365_copilot2api.Json.{Fields, Value, as_object, string_at, object_at}
use m365_copilot2api.Tools.{DetectedToolCall}
use m365_copilot2api.Protocols.Anthropic.{
  Blocks, tool_call_map, take_block, tool_use, use_block, use_blocks, blocks_of, block_of, input_of,
  convert_messages, convert_message, messages_of,
}
use m365_copilot2api.Message.{assistant}
use m365_copilot2api.Protocols.{say}

-- The arguments of a call are JSON in the form in which the encoder writes it.
abbrev pub IsCanonical : (Text → Option Value) → (Value → Text) → DetectedToolCall → Type 0
IsCanonical decode encode c = (v : Value) × (decode c.arguments ≡ some v) × (encode v ≡ c.arguments)

-- As a function, what a call is for the protocol.
abbrev pub as_function : DetectedToolCall → Fields
as_function c = tool_call_map (record c { kind = codes "function" })

module _ (decode : Text → Option Value) (encode : Value → Text) where
  use_block-back :
      (c : DetectedToolCall) (rest : Blocks)
      → IsCanonical decode encode c
      → take_block encode tool_use
          (elim (as_object (some (use_block decode (tool_call_map c)))) [
            | none ↦ Json.end
            | some m ↦ m
          ])
          rest
        ≡ record rest { calls = as_function c ∷ rest.calls }
  unfolding take_block use_block input_of tool_call_map string_at object_at Json.get text_eq
  use_block-back c rest (v, decoded, encoded) = rw (decoded, encoded) refl

  use_blocks-back :
      (cs : List DetectedToolCall)
      → All (IsCanonical decode encode) cs
      → blocks_of encode (use_blocks decode (map tool_call_map cs))
        ≡ record { texts = Json.nil; calls = map as_function cs; results = [] }
  unfolding blocks_of use_blocks use_block block_of string_at Json.get text_eq
  use_blocks-back [] h = refl
  use_blocks-back (c ∷ cs) (h, hs) = rw (use_blocks-back cs hs) (use_block-back c _ h)

  -- A client that sends the `tool_use` blocks of an answer back as a message of the assistant sends the calls
  -- of the answer: the message holds the same calls in the same order, with their identifiers, names and
  -- arguments, as functions. The arguments are JSON as the encoder writes it.
  pub echo-round_trip :
      (c : DetectedToolCall) (cs : List DetectedToolCall)
      → All (IsCanonical decode encode) (c ∷ cs)
      → convert_messages encode (
          record {
            role = assistant;
            content = Json.arr (use_blocks decode (map tool_call_map (c ∷ cs)));
          }
          ∷ [])
        ≡ some (
            record (say assistant (Json.arr Json.nil)) { tool_calls = map as_function (c ∷ cs) }
            ∷ [])
  unfolding convert_messages convert_message messages_of
  echo-round_trip c cs h = rw (use_blocks-back (c ∷ cs) h) refl
