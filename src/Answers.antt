-- ===== src/Answers.antt =====
-- The streamed answer of `openaiChat`, internal/web/server.go: what the handler of the upstream's events
-- sends on at once, and what it holds back because it may turn out to be a tool call. Texts are valid
-- UTF-8, as `json.Unmarshal` gives them; `fencedToolCalls` and the limit on the calls are arguments.
pub mod Fences
pub mod Whole
pub mod Relay
mod Tests
use m365_copilot2api.Tools.{DetectedToolCall}
use m365_copilot2api.Prelude.{
  ℕ, zero, suc, ◌+◌, ◌-◌, List, [], ◌∷◌, ◌++◌, Option, none, some, Bool, true, false, ◌&&◌, ◌||◌,
  not, Text, codes, is_empty, has_prefix, contains, trim_space, take, drop, ltb, leb, if◌then◌else◌,
}
use m365_copilot2api.Events.{StreamEvent, Kind, plain, progress, tool}
use m365_copilot2api.Chat.{rune_count}

-- The variables of the handler, with the texts that `emitText` has sent.
pub record Held : Type 0 where
  pub text : Text
  pub pending : Text
  pub sent : List Text
  pub tools : List StreamEvent

abbrev pub nothing_held : Held
nothing_held = record { text = []; pending = []; sent = []; tools = [] }

abbrev pub fence : Text
fence = codes "```"

-- `strings.Index(s, "```")`.
unfoldable pub index_fence : Text → Option ℕ
unfolding has_prefix
index_fence [] = none
index_fence (b ∷ s) =
    let rest = index_fence s in
    if has_prefix (b ∷ s) fence then some 0 else elim rest [ none ↦ none | some i ↦ some (suc i) ]

-- The byte at which the rune of the given number begins; bytes from 0x80 to 0xbf begin none.
unfoldable pub rune_offset : ℕ → Text → ℕ
rune_offset n [] = 0
rune_offset zero (b ∷ s) =
    let rest = rune_offset 0 s in if leb 0x80 b && ltb b 0xc0 then suc rest else 0
rune_offset (suc n) (b ∷ s) =
    let same = rune_offset (suc n) s in
    let less = rune_offset n s in if leb 0x80 b && ltb b 0xc0 then suc same else suc less

-- `emitText`.
unfoldable pub emit_text : Text → Held → Held
emit_text part h = if is_empty part then h else record h { sent = h.sent ++ part ∷ [] }

-- The text up to the given byte is sent, the rest stays pending.
unfoldable pub split_at : ℕ → Text → Held → Held
unfolding emit_text
split_at i v h = record (emit_text (take i v) h) { pending = drop i v }

-- A piece of text that is not empty.
unfoldable pub take_text : Text → Held → Held
unfolding split_at index_fence rune_offset
take_text t h =
    let v = h.pending ++ t in
    let h1 = record h { text = h.text ++ t; pending = v } in
    if contains v (codes "```bash") || contains v (codes "\"command\"")
    then h1
    else elim (index_fence v) [
      | some i ↦ split_at i v h1
      | none ↦ if ltb 8 (rune_count v) then split_at (rune_offset (rune_count v - 8) v) v h1 else h1
    ]

-- The handler of an event.
unfoldable pub take_event : StreamEvent → Held → Held
unfolding take_text
take_event ev h = elim ev.kind [
  | tool ↦
      if not (is_empty ev.tool_name) && not (is_empty ev.arguments)
      then record h { tools = h.tools ++ ev ∷ [] }
      else h
  | progress ↦ h
  | plain ↦ if is_empty ev.text then h else take_text ev.text h
]

unfoldable pub take_events : List StreamEvent → Held → Held
unfolding take_event
take_events [] h = h
take_events (e ∷ es) h = take_events es (take_event e h)

-- The calls of the tool events; `ids` gives the identifiers that `uuid.NewString` makes.
unfoldable pub calls_of : (ℕ → Text) → ℕ → List StreamEvent → List DetectedToolCall
calls_of ids n [] = []
calls_of ids n (e ∷ es) =
    record { id = codes "call_" ++ ids n; kind = []; name = e.tool_name; arguments = e.arguments }
    ∷ calls_of ids (suc n) es

-- How the stream ends: with a response of tool calls, or with the end mark of a stream.
pub data Ending : Type 0 where
  tool_response : List DetectedToolCall → Text → Ending
  done : Ending

-- A text that only the result has.
unfoldable pub recover : Text → Held → Held
recover res h =
    if is_empty h.text && not (is_empty (trim_space res))
    then record h { text = h.text ++ res; pending = h.pending ++ res }
    else h

-- The calls of an answer: those of the events, else those that its text holds.
unfoldable pub calls_in : (ℕ → Text) → (Text → List DetectedToolCall) → Held → List DetectedToolCall
unfolding calls_of
calls_in ids fenced h = elim h.tools [ [] ↦ fenced h.text | e ∷ es ↦ calls_of ids 0 (e ∷ es) ]

unfoldable pub close :
    (List DetectedToolCall → List DetectedToolCall) → List DetectedToolCall → Held → Held × Ending
unfolding emit_text
close limit [] h = (emit_text h.pending h, done)
close limit (c ∷ cs) h = (h, tool_response (limit (c ∷ cs)) h.text)

-- What follows the last event; `fenced` is `fencedToolCalls`, `limit` the limit on the calls.
unfoldable pub finish :
    (ℕ → Text)
    → (Text → List DetectedToolCall)
    → (List DetectedToolCall → List DetectedToolCall)
    → Text
    → Held
    → Held × Ending
unfolding recover calls_in close
finish ids fenced limit res h = let h1 = recover res h in close limit (calls_in ids fenced h1) h1

-- The streamed answer.
unfoldable pub stream_answer :
    (ℕ → Text)
    → (Text → List DetectedToolCall)
    → (List DetectedToolCall → List DetectedToolCall)
    → List StreamEvent
    → Text
    → Held × Ending
unfolding finish take_events
stream_answer ids fenced limit es res = finish ids fenced limit res (take_events es nothing_held)
