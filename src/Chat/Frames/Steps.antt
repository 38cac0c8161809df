-- ===== src/Chat/Frames/Steps.antt =====
-- That the steps of a chat go on while its callbacks report no error: the loop of `chatWithHandlers`,
-- internal/chathub/client.go.
use m365_copilot2api.Prelude.{
  ◌≡◌, inl, inr, refl, List, [], ◌∷◌, ◌++◌, Option, none, some, ◌||◌, Text, is_empty, codes, any,
  arith, Result, ok, Bool-cases, Option-cases,
}
use m365_copilot2api.Json
use m365_copilot2api.Json.{Value, Fields, as_object, string_at}
use m365_copilot2api.Events.{StreamEvent}
use m365_copilot2api.Chat.{Cites, clean, unseen_delta}
use m365_copilot2api.Chat.Deltas.{Stream, emit_delta, emit_snapshot}
use m365_copilot2api.Chat.Frames.{
  Handlers, Turn, handle_events, report_events, snapshot, snapshots, snapshot_of, update_argument,
  update_arguments, items_at, is_tool_message, or_kept,
}

abbrev pub AcceptsEvents : Option (List StreamEvent → StreamEvent → Option Text) → Type 0
AcceptsEvents none = Unit {0}
AcceptsEvents (some f) = (es : List StreamEvent) (e : StreamEvent) → f es e ≡ none

-- Neither callback reports an error.
pub record Accepts (h : Handlers) : Type 0 where
  pub deltas : (ts : List Text) (t : Text) → h.on_delta ts t ≡ none
  pub events : AcceptsEvents h.on_event

-- The step goes on with some state.
abbrev pub Goes : {E A : Type 0} → Result E A → Type 0
Goes {E} {A} r = (a : A) × (r ≡ ok a)

handle_events-Goes :
    (f : List StreamEvent → StreamEvent → Option Text)
    → ((es : List StreamEvent) (e : StreamEvent) → f es e ≡ none)
    → (es : List StreamEvent) (t : Turn) → Goes (handle_events f es t)
unfolding handle_events
handle_events-Goes f calm [] t = (t, refl)
handle_events-Goes f calm (e ∷ es) t =
    let (u, ran) = handle_events-Goes f calm es (record t { handled = t.handled ++ e ∷ [] }) in
    (u, ground (arith, calm t.handled e))

module _ (cites : Cites) (h : Handlers) (calm : Accepts h) where
  emit_snapshot-Goes : (p : Text) (s : Stream) → Goes (emit_snapshot cites h.on_delta p s)
  unfolding emit_snapshot emit_delta
  emit_snapshot-Goes p s = elim (Option-cases (unseen_delta cites s.streamed p)) [
    | inl skip ↦ (s, ground arith)
    | inr (d, got) ↦ elim (Bool-cases (is_empty (clean cites d))) [
      | inl bare ↦ (s, ground arith)
      | inr full ↦ (
        record { streamed = s.streamed ++ clean cites d; sent = s.sent ++ clean cites d ∷ [] },
        ground (arith, calm.deltas s.sent (clean cites d)),
      )
    ]
  ]

  snapshot-Goes : (p : Text) (t : Turn) → Goes (snapshot cites h p t)
  unfolding snapshot
  snapshot-Goes p t =
      let (s, ran) = emit_snapshot-Goes p t.stream in (record t { stream = s }, ground arith)

  snapshots-Goes : (vs : List Value) (t : Turn) → Goes (snapshots cites h vs t)
  unfolding snapshots
  snapshots-Goes [] t = (t, refl)
  snapshots-Goes (v ∷ vs) t = elim (Bool-cases (is_empty (snapshot_of v))) [
    | inl bare ↦ let (u, ran) = snapshots-Goes vs t in (u, ground arith)
    | inr full ↦
        let (t1, ran) = snapshot-Goes (snapshot_of v) t in
        let (u, rest) = snapshots-Goes vs t1 in (u, ground arith)
  ]

  report_events-Goes : (arg : Fields) (t : Turn) → Goes (report_events cites h arg t)
  unfolding report_events
  report_events-Goes arg t = go h.on_event calm.events refl
    where
      go :
          (f : Option (List StreamEvent → StreamEvent → Option Text))
          → AcceptsEvents f
          → h.on_event ≡ f
          → Goes (report_events cites h arg t)
      go none quiet at = (t, rw (at, report_events) refl)
      go (some f) quiet at = rw (at, report_events) (handle_events-Goes f quiet _ _)

  update_argument-Goes : (v : Value) (t : Turn) → Goes (update_argument cites h v t)
  unfolding update_argument
  update_argument-Goes v t = elim (Option-cases (as_object (some v))) [
    | inl bare ↦ (t, rw (bare, update_argument) refl)
    | inr (arg, at) ↦
        let msgs = items_at (codes "messages") arg in
        let w = string_at (codes "writeAtCursor") arg in
        let (t1, reported) = report_events-Goes arg t in
        elim (Bool-cases (is_empty w || any is_tool_message msgs)) [
          | inl none_left ↦
              let (u, rest) = snapshots-Goes msgs (record t1 {
                throttling = or_kept (Json.get (codes "throttling") arg) t1.throttling;
              }) in
              (u, rw (at, update_argument, reported, none_left) rest)
          | inr some_left ↦
              let (t2, written) = snapshot-Goes w t1 in
              let (u, rest) = snapshots-Goes msgs (record t2 {
                throttling = or_kept (Json.get (codes "throttling") arg) t2.throttling;
              }) in
              (u, rw (at, update_argument, reported, some_left, written) rest)
        ]
  ]

  pub update_arguments-Goes : (vs : List Value) (t : Turn) → Goes (update_arguments cites h vs t)
  unfolding update_arguments
  update_arguments-Goes [] t = (t, refl)
  update_arguments-Goes (v ∷ vs) t =
      let (u, ran) = update_argument-Goes v t in
      let (u', rest) = update_arguments-Goes vs u in (u', rw ran rest)
