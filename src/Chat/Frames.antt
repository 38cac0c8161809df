-- ===== src/Chat/Frames.antt =====
-- The frame loop of `chatWithHandlers`, internal/chathub/client.go. What the socket delivers, and the
-- answers of the two callbacks, are arguments.
pub mod Faithful
pub mod Completion
pub mod Steps
pub mod Liveness
use m365_copilot2api.Prelude.{
  ℕ, ◌+◌, ◌^◌, ◌/◌, List, [], ◌∷◌, ◌++◌, Option, none, some, Bool, true, false, ◌&&◌, ◌||◌, not,
  Text, text_eq, codes, is_empty, trim_space, any, nat_eq, if◌then◌else◌, Result, ok, err, ◌>>=◌,
}
use m365_copilot2api.Json
use m365_copilot2api.Json.{
  Number, Value, Items, Fields, items_list, string_at, as_object, as_array, as_string,
}
use m365_copilot2api.Events.{
  StreamEvent, Kind, plain, progress, tool, Walk, extract_tool_events, classify_update_messages,
}
use m365_copilot2api.Chat.{Cites, final_text_reconcile}
use m365_copilot2api.Chat.Deltas.{Stream, no_stream, OnDelta, emit_snapshot}

-- The callbacks and the JSON of the standard library; `on_event` is missing without a handler.
pub record Handlers : Type 0 where
  pub on_delta : OnDelta
  pub on_event : Option (List StreamEvent → StreamEvent → Option Text)
  pub decode : Text → Option Fields
  pub encode : Value → Text

pub data ChatError : Type 0 where
  stopped : Text → ChatError
  read_before_completion : Text → ChatError
  completion_error : Fields → ChatError
  deadline_exceeded : ChatError

-- The variables of the loop, with what the handler was given.
pub record Turn : Type 0 where
  pub stream : Stream
  pub final : Text
  pub throttling : Option Value
  pub raw_result : Text
  pub events : List Text
  pub seen_tools : List Text
  pub handled : List StreamEvent
  pub pongs : ℕ

abbrev pub new_turn : Turn
new_turn = record {
  stream = no_stream;
  final = [];
  throttling = none;
  raw_result = [];
  events = [];
  seen_tools = [];
  handled = [];
  pongs = 0;
}

-- `int(t)` of `t, _ := obj["type"].(float64)`; a number below 0 is none of the types.
unfoldable pub frame_type : Fields → ℕ
frame_type obj = elim (Json.get (codes "type") obj) [
  | some (Json.num n) ↦ if n.negative then 0 else n.magnitude / 2 ^ n.scale
  | _ ↦ 0
]

-- `v, _ := m[k].([]any)`.
abbrev pub items_at : Text → Fields → List Value
items_at k m = elim (as_array (Json.get k m)) [ none ↦ [] | some vs ↦ items_list vs ]

-- A message that makes its frame a tool frame; what is no object has no fields.
unfoldable pub is_tool_message : Value → Bool
unfolding string_at
is_tool_message v =
    let m : Fields = elim (as_object (some v)) [ none ↦ Json.end | some f ↦ f ] in
    let ct = string_at (codes "contentType") m in
    text_eq (string_at (codes "messageType") m) (codes "Progress")
    || text_eq ct (codes "SearchResults")
    || text_eq ct (codes "Code")
    || text_eq ct (codes "ToolCall")

-- The text of a message of the bot, if it is a full snapshot.
unfoldable pub snapshot_of : Value → Text
unfolding string_at
snapshot_of v = elim (as_object (some v)) [
  | none ↦ []
  | some m ↦
      if text_eq (string_at (codes "author") m) (codes "bot")
        && is_empty (string_at (codes "messageType") m)
      then string_at (codes "text") m
      else []
]

-- The new value where the key is there, else the old one.
abbrev pub or_kept : Option Value → Option Value → Option Value
or_kept none old = old
or_kept (some v) old = some v

abbrev is_plain : StreamEvent → Bool
is_plain e = elim e.kind [ plain ↦ true | progress ↦ false | tool ↦ false ]

-- The calls of `onEvent`; its first error ends the chat.
unfoldable pub handle_events :
    (List StreamEvent → StreamEvent → Option Text) → List StreamEvent → Turn → Result ChatError Turn
handle_events f [] t = ok t
handle_events f (e ∷ es) t =
    let rest = handle_events f es (record t { handled = t.handled ++ e ∷ [] }) in
    elim (f t.handled e) [ some x ↦ err (stopped x) | none ↦ rest ]

-- The events of the message list, less the texts, with the update as their raw form.
unfoldable pub progress_events : Text → List StreamEvent → List StreamEvent
progress_events raw [] = []
progress_events raw (e ∷ es) =
    let rest = progress_events raw es in if is_plain e then rest else record e { raw = raw } ∷ rest

-- The frame of type 2.
unfoldable pub take_item : Fields → Turn → Turn
unfolding string_at
take_item obj t = elim (as_object (Json.get (codes "item") obj)) [
  | none ↦ t
  | some item ↦
      let t1 = record t {
        throttling = or_kept (Json.get (codes "throttling") item) t.throttling;
      } in
      elim (as_object (Json.get (codes "result") item)) [
        | none ↦ t1
        | some res ↦ record t1 {
          raw_result = string_at (codes "value") res;
          final = elim (as_string (Json.get (codes "message") res)) [
            | none ↦ t1.final
            | some m ↦ m
          ];
        }
      ]
]

-- One part of a message: the loop goes on, or the answer is complete.
pub data Outcome : Type 0 where
  running complete : Turn → Outcome

module _ (cites : Cites) (h : Handlers) where
  unfoldable pub report_events : Fields → Turn → Result ChatError Turn
  unfolding handle_events progress_events
  report_events arg t = elim h.on_event [
    | none ↦ ok t
    | some f ↦
        let w = extract_tool_events h.encode (Json.obj arg) t.seen_tools in
        let others = classify_update_messages h.encode (items_at (codes "messages") arg) in
        handle_events f (w.out ++ progress_events (h.encode (Json.obj arg)) others)
          (record t { seen_tools = w.seen })
  ]

  -- `emitSnapshot`, on the loop's variables.
  unfoldable pub snapshot : Text → Turn → Result ChatError Turn
  snapshot s t = elim (emit_snapshot cites h.on_delta s t.stream) [
    | ok stream ↦ ok (record t { stream = stream })
    | err e ↦ err (stopped e)
  ]

  unfoldable pub snapshots : List Value → Turn → Result ChatError Turn
  unfolding snapshot
  snapshots [] t = ok t
  snapshots (v ∷ vs) t =
      elim (if is_empty (snapshot_of v) then ok t else snapshot (snapshot_of v) t) [
        | err e ↦ err e
        | ok t' ↦ snapshots vs t'
      ]

  -- One argument of an update.
  unfoldable pub update_argument : Value → Turn → Result ChatError Turn
  unfolding report_events snapshot snapshots any string_at
  update_argument v t = elim (as_object (some v)) [
    | none ↦ ok t
    | some arg ↦ do
      let msgs = items_at (codes "messages") arg
      let w = string_at (codes "writeAtCursor") arg
      t1 ← report_events arg t
      t2 ← (if is_empty w || any is_tool_message msgs then ok t1 else snapshot w t1)
      snapshots msgs
          (record t2 { throttling = or_kept (Json.get (codes "throttling") arg) t2.throttling })
  ]

  unfoldable pub update_arguments : List Value → Turn → Result ChatError Turn
  unfolding update_argument
  update_arguments [] t = ok t
  update_arguments (v ∷ vs) t = do t' ← update_argument v t; update_arguments vs t'

  unfoldable pub frame : Fields → Turn → Result ChatError Outcome
  unfolding frame_type update_arguments take_item string_at
  frame obj t =
      let n = frame_type obj in
      if nat_eq n 6
      then ok (running (record t { pongs = t.pongs + 1 }))
      else if nat_eq n 1 && text_eq (string_at (codes "target") obj) (codes "update")
      then elim (update_arguments (items_at (codes "arguments") obj) t) [
        | err e ↦ err e
        | ok t' ↦ ok (running t')
      ]
      else if nat_eq n 2
      then ok (running (take_item obj t))
      else if nat_eq n 3
      then elim (as_object (Json.get (codes "error") obj)) [
        | some e ↦ err (completion_error e)
        | none ↦ ok (complete t)
      ]
      else ok (running t)

  unfoldable pub part : Text → Turn → Result ChatError Outcome
  unfolding frame
  part raw t =
      let p = trim_space raw in
      if is_empty p
      then ok (running t)
      else let t1 = record t { events = t.events ++ p ∷ [] } in
        elim (h.decode p) [ none ↦ ok (running t1) | some obj ↦ frame obj t1 ]

  -- The parts of one message; after the completing one the rest is not read.
  unfoldable pub parts : List Text → Turn → Result ChatError Outcome
  unfolding part
  parts [] t = ok (running t)
  parts (p ∷ ps) t = elim (part p t) [
    | err e ↦ err e
    | ok (complete t') ↦ ok (complete t')
    | ok (running t') ↦ parts ps t'
  ]
