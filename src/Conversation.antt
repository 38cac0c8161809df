-- ===== src/Conversation.antt =====
-- internal/web/tool_state.go: the check that every tool call of a conversation is answered by
-- exactly one tool result before the next assistant message.
pub mod Tracking
pub mod Protocol
mod Tests
use m365_copilot2api.Prelude.{
  ℕ, suc, ◌+◌, List, [], ◌∷◌, Option, none, some, Bool, true, false, ◌||◌, Text, text_eq, is_empty,
  codes, Dict, lookup, insert, delete, has_key, Text_eq, if◌then◌else◌, Result, ok, err, ◌>>=◌,
}
use m365_copilot2api.Json.{Fields, string_at}
use m365_copilot2api.Message.{Message, assistant, tool}

-- The errors, with what their texts name.
pub data Error : Type 0 where
  results_missing : ℕ → Error
  call_without_id : ℕ → Error
  duplicate_id : Text → Error
  result_without_id : ℕ → Error
  unexpected_result : Text → Error
  missing_result : Text → Error

-- The two maps of the loop.
pub record State : Type 0 where
  pub pending : Dict Text Bool
  pub completed : Dict Text Bool

abbrev pub start : State
start = record { pending = []; completed = [] }

-- The identifier of a call, `id, _ := call["id"].(string)`.
unfoldable pub call_id : Fields → Text
unfolding string_at
call_id call = string_at (codes "id") call

-- One turn of the inner loop, over `m.ToolCalls`.
unfoldable pub open_call : ℕ → State → Text → Result Error State
open_call i s id =
    if is_empty id
    then err (call_without_id i)
    else if has_key id s.pending || has_key id s.completed
    then err (duplicate_id id)
    else ok (record s { pending = insert id true s.pending })

unfoldable pub open_calls : ℕ → State → List Fields → Result Error State
open_calls i s [] = ok s
open_calls i s (c ∷ cs) = do s' ← open_call i s (call_id c); open_calls i s' cs

-- The case of an assistant message.
unfoldable pub assistant_turn : ℕ → State → List Fields → Result Error State
assistant_turn i s calls = elim s.pending [
  | [] ↦ open_calls i s calls
  | entry ∷ rest ↦ err (results_missing i)
]

-- The case of a tool message.
unfoldable pub tool_turn : ℕ → State → Text → Result Error State
tool_turn i s id =
    if is_empty id
    then err (result_without_id i)
    else if has_key id s.pending
    then ok (record { pending = delete id s.pending; completed = insert id true s.completed })
    else err (unexpected_result id)

-- One message, `switch m.Role`.
unfoldable pub turn : ℕ → State → Message → Result Error State
turn i s m =
    if text_eq m.role assistant
    then assistant_turn i s m.tool_calls
    else if text_eq m.role tool
    then tool_turn i s m.tool_call_id
    else ok s

unfoldable pub turns : ℕ → State → List Message → Result Error State
turns i s [] = ok s
turns i s (m ∷ ms) = do s' ← turn i s m; turns (suc i) s' ms

-- What is left pending after the last message is an error; Go names any one of the identifiers.
unfoldable pub finish : State → Result Error State
finish s = elim s.pending [ [] ↦ ok s | (id, flag) ∷ rest ↦ err (missing_result id) ]

unfoldable pub validate_tool_conversation : List Message → Result Error State
validate_tool_conversation ms = do s ← turns 0 start ms; finish s
