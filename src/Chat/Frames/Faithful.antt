-- ===== src/Chat/Frames/Faithful.antt =====
-- What a client is sent during a chat: the loop of `chatWithHandlers`, internal/chathub/client.go.
use m365_copilot2api.Prelude.{
  ap, ◌||◌, ◌≡◌, ◌⊎◌, inl, inr, refl, subst, sym, List, [], ◌∷◌, ◌++◌, Option, some, Text, is_empty,
  trim_space, codes, any, arith, if◌then◌else◌, ok, >>=-eq-ok, ok-injective, Result-cases,
  Bool-cases, Option-cases,
}
use m365_copilot2api.Json.{string_at, Value, Fields, as_object}
use m365_copilot2api.Events.{StreamEvent}
use m365_copilot2api.Chat.{Cites, final_text_reconcile}
use m365_copilot2api.Chat.Deltas.{no_stream, IsFaithful, emit_snapshot, emit_snapshot-IsFaithful}
use m365_copilot2api.Chat.Frames.{
  is_tool_message, Handlers, Turn, new_turn, handle_events, report_events, snapshot, snapshots,
  snapshot_of, update_argument, update_arguments, take_item, Outcome, running, complete, frame,
  part, parts, items_at,
}
use m365_copilot2api.Chat.Rounds.{
  split_parts, Round, cancelled, read_failed, received, Answer, answer_of, receive, chat,
}

-- The turn inside an outcome.
abbrev pub turn_of : Outcome → Turn
turn_of (running t) = t
turn_of (complete t) = t

module _ (cites : Cites) (h : Handlers) where
  handle_events-stream :
      (f : List StreamEvent → StreamEvent → Option Text) (es : List StreamEvent) (t t' : Turn)
      → handle_events f es t ≡ ok t'
      → t'.stream ≡ t.stream
  unfolding handle_events
  handle_events-stream f [] t t' e = ground arith
  handle_events-stream f (x ∷ es) t t' e =
      ground (arith, handle_events-stream f es (record t { handled = t.handled ++ x ∷ [] }) t')

  report_events-stream :
      (arg : Fields) (t t' : Turn) → report_events cites h arg t ≡ ok t' → t'.stream ≡ t.stream
  unfolding report_events
  report_events-stream arg t t' e = elim (Option-cases h.on_event) [
    | inl bare ↦ ground arith
    | inr (f, given) ↦ handle_events-stream f _ _ t' (rw (given, report_events) at e)
  ]

  snapshot-IsFaithful :
      (s : Text) (t t' : Turn)
      → IsFaithful t.stream
      → snapshot cites h s t ≡ ok t'
      → IsFaithful t'.stream
  unfolding snapshot
  snapshot-IsFaithful s t t' f e = elim (Result-cases (emit_snapshot cites h.on_delta s t.stream)) [
    | inl (u, ran) ↦
        let same : t'.stream ≡ u = ground arith in
        subst IsFaithful (sym same) (emit_snapshot-IsFaithful cites h.on_delta s t.stream u f ran)
    | inr (x, ran) ↦ absurd (ground arith)
  ]

  snapshots-IsFaithful :
      (vs : List Value) (t t' : Turn)
      → IsFaithful t.stream
      → snapshots cites h vs t ≡ ok t'
      → IsFaithful t'.stream
  unfolding snapshots
  snapshots-IsFaithful [] t t' f e = subst (λ (u : Turn). IsFaithful u.stream) (ok-injective e) f
  snapshots-IsFaithful (v ∷ vs) t t' f e = elim (Bool-cases (is_empty (snapshot_of v))) [
    | inl bare ↦ snapshots-IsFaithful vs t t' f (ground arith)
    | inr full ↦ elim (Result-cases (snapshot cites h (snapshot_of v) t)) [
      | inl (u, ran) ↦
          snapshots-IsFaithful vs u t' (snapshot-IsFaithful (snapshot_of v) t u f ran)
            (ground arith)
      | inr (x, ran) ↦ absurd (ground arith)
    ]
  ]

  update_argument-IsFaithful :
      (v : Value) (t t' : Turn)
      → IsFaithful t.stream
      → update_argument cites h v t ≡ ok t'
      → IsFaithful t'.stream
  unfolding update_argument
  update_argument-IsFaithful v t t' f e = elim (Option-cases (as_object (some v))) [
    | inl bare ↦
        subst (λ (u : Turn). IsFaithful u.stream) (ok-injective (rw (bare, update_argument) at e)) f
    | inr (arg, at) ↦
        let msgs = items_at (codes "messages") arg in
        let w = string_at (codes "writeAtCursor") arg in
        let (t1, reported, e1) =
          >>=-eq-ok (report_events cites h arg t) _ (rw (at, update_argument) at e) in
        let f1 = subst IsFaithful (sym (report_events-stream arg t t1 reported)) f in
        let (t2, written, e2) =
          >>=-eq-ok
            (if is_empty w || any is_tool_message msgs then ok t1 else snapshot cites h w t1) _
            e1 in
        let f2 : IsFaithful t2.stream = elim (Bool-cases (is_empty w || any is_tool_message msgs)) [
          | inl none_left ↦
              subst (λ (u : Turn). IsFaithful u.stream) (ok-injective (rw none_left at written)) f1
          | inr some_left ↦ snapshot-IsFaithful w t1 t2 f1 (rw some_left at written)
        ] in
        snapshots-IsFaithful msgs _ t' f2 e2
  ]

  update_arguments-IsFaithful :
      (vs : List Value) (t t' : Turn)
      → IsFaithful t.stream
      → update_arguments cites h vs t ≡ ok t'
      → IsFaithful t'.stream
  unfolding update_arguments
  update_arguments-IsFaithful [] t t' f e =
      subst (λ (u : Turn). IsFaithful u.stream) (ok-injective e) f
  update_arguments-IsFaithful (v ∷ vs) t t' f e =
      let (u, ran, rest) = >>=-eq-ok (update_argument cites h v t) _ e in
      update_arguments-IsFaithful vs u t' (update_argument-IsFaithful v t u f ran) rest

  take_item-stream : (obj : Fields) (t : Turn) → (take_item obj t).stream ≡ t.stream
  unfolding take_item
  take_item-stream obj t = ground arith

  -- What a frame does, by its type.
  frame-cases :
      (obj : Fields) (t : Turn) (o : Outcome)
      → frame cites h obj t ≡ ok o
      → ((turn_of o).stream ≡ t.stream)
        ⊎ (update_arguments cites h (items_at (codes "arguments") obj) t ≡ ok (turn_of o))
  unfolding frame
  frame-cases obj t (running u) e = ground (arith, take_item-stream obj t)
  frame-cases obj t (complete u) e = ground arith

  part-IsFaithful :
      (p : Text) (t : Turn) (o : Outcome)
      → IsFaithful t.stream
      → part cites h p t ≡ ok o
      → IsFaithful (turn_of o).stream
  unfolding part
  part-IsFaithful p t o f e = elim (Bool-cases (is_empty (trim_space p))) [
    | inl bare ↦
        subst (λ (x : Outcome). IsFaithful (turn_of x).stream) (ok-injective (rw (bare, part) at e))
          f
    | inr full ↦ elim (Option-cases (h.decode (trim_space p))) [
      | inl bad ↦
          subst (λ (x : Outcome). IsFaithful (turn_of x).stream)
            (ok-injective (rw (full, bad, part) at e)) f
      | inr (obj, good) ↦
          let t1 : Turn = record t { events = t.events ++ trim_space p ∷ [] } in
          elim (frame-cases obj t1 o (rw (full, good, part) at e)) [
            | inl same ↦ subst IsFaithful (sym same) f
            | inr ran ↦
                update_arguments-IsFaithful (items_at (codes "arguments") obj) t1 (turn_of o) f ran
          ]
    ]
  ]

  parts-IsFaithful :
      (ps : List Text) (t : Turn) (o : Outcome)
      → IsFaithful t.stream
      → parts cites h ps t ≡ ok o
      → IsFaithful (turn_of o).stream
  unfolding parts
  parts-IsFaithful [] t o f e =
      subst (λ (x : Outcome). IsFaithful (turn_of x).stream) (ok-injective e) f
  parts-IsFaithful (p ∷ ps) t o f e = elim (Result-cases (part cites h p t)) [
    | inl (running u, ran) ↦
        parts-IsFaithful ps u o (part-IsFaithful p t (running u) f ran) (ground arith)
    | inl (complete u, ran) ↦
        let same : o ≡ complete u = ground arith in
        subst (λ (x : Outcome). IsFaithful (turn_of x).stream) (sym same)
          (part-IsFaithful p t (complete u) f ran)
    | inr (x, ran) ↦ absurd (ground arith)
  ]

  pub receive-IsFaithful :
      (rs : List Round) (t t' : Turn)
      → IsFaithful t.stream
      → receive cites h rs t ≡ ok t'
      → IsFaithful t'.stream
  unfolding receive
  receive-IsFaithful [] t t' f e = cc
  receive-IsFaithful (cancelled x ∷ rs) t t' f e = cc
  receive-IsFaithful (read_failed x ∷ rs) t t' f e = cc
  receive-IsFaithful (received m ∷ rs) t t' f e =
      elim (Result-cases (parts cites h (split_parts [] m) t)) [
        | inl (running u, ran) ↦
            receive-IsFaithful rs u t' (parts-IsFaithful _ t (running u) f ran) (ground arith)
        | inl (complete u, ran) ↦
            let same : t' ≡ u = ground arith in
            subst (λ (x : Turn). IsFaithful x.stream) (sym same)
              (parts-IsFaithful _ t (complete u) f ran)
        | inr (x, ran) ↦ absurd (ground arith)
      ]

  -- An answer is given only with the text that was streamed, reconciled with the reported one, and the
  -- client has then been sent the streamed text exactly, piece after piece, with no empty piece.
  pub chat-IsFaithful :
      (rs : List Round) (a : Answer)
      → chat cites h rs ≡ ok a
      → (t : Turn) × (receive cites h rs new_turn ≡ ok t)
        × (a.text ≡ final_text_reconcile cites t.stream.streamed t.final)
        × IsFaithful t.stream
  unfolding chat answer_of
  chat-IsFaithful rs a e =
      let (t, ran, same) =
        >>=-eq-ok (receive cites h rs new_turn) (λ t. ok (answer_of cites h t)) e in
      let start : IsFaithful no_stream = record { whole = refl; pieces = tt } in
      (
        t,
        ran,
        ap (λ (x : Answer). x.text) (sym (ok-injective same)),
        receive-IsFaithful rs new_turn t start ran,
      )
