-- ===== src/Chat/Frames/Liveness.antt =====
-- Which chats end with an answer: the loop of `chatWithHandlers`, internal/chathub/client.go, with
-- callbacks that report no error.
use m365_copilot2api.Prelude.{
  ◌+◌, ◌≡◌, inl, inr, refl, List, [], ◌∷◌, ◌++◌, Option, none, some, Bool, true, false, Text,
  is_empty, trim_space, codes, nat_eq, arith, if◌then◌else◌, Result, ok, err, Bool-cases,
  Option-cases, ◌&&◌, text_eq, nat_eq_iff, subst,
}
use m365_copilot2api.Json
use m365_copilot2api.Json.{Value, Fields, as_object, string_at}
use m365_copilot2api.Chat.{Cites}
use m365_copilot2api.Chat.Frames.{
  Handlers, ChatError, Turn, frame_type, take_item, Outcome, running, complete, frame, part, parts,
  items_at, completion_error, update_arguments,
}
use m365_copilot2api.Chat.Rounds.{split_parts, Round, cancelled, read_failed, received, receive}
use m365_copilot2api.Chat.Frames.Completion.{closing}
use m365_copilot2api.Chat.Frames.Steps.{Accepts, update_arguments-Goes}

-- How a frame or a part ends, by whether it closes the chat, and with which error.
abbrev Ends : Option (Option Fields) → Result ChatError Outcome → Type 0
Ends none r = (u : Turn) × (r ≡ ok (running u))
Ends (some none) r = (u : Turn) × (r ≡ ok (complete u))
Ends (some (some e)) r = r ≡ err (completion_error e)

module _ (cites : Cites) (h : Handlers) (calm : Accepts h) where
  frame-Ends :
      (obj : Fields) (t : Turn)
      → Ends
          (if nat_eq (frame_type obj) 3
            then some (as_object (Json.get (codes "error") obj))
            else none)
          (frame cites h obj t)
  unfolding frame
  frame-Ends obj t = elim (Bool-cases (nat_eq (frame_type obj) 3)) [
    | inl shuts ↦
        subst (λ (c : Option (Option Fields)). Ends c (frame cites h obj t))
          {x = some (as_object (Json.get (codes "error") obj))} (rw shuts refl)
          (shut (as_object (Json.get (codes "error") obj)) refl
            ((nat_eq_iff (frame_type obj) 3).0 shuts))
    | inr goes ↦
        subst (λ (c : Option (Option Fields)). Ends c (frame cites h obj t)) {x = none}
          (rw goes refl)
          (elim (Bool-cases (
            nat_eq (frame_type obj) 1
            && text_eq (string_at (codes "target") obj) (codes "update"))) [
              | inl updates ↦
                  let (u, ran) =
                    update_arguments-Goes cites h calm (items_at (codes "arguments") obj) t in
                  (u, other (ground arith) updates u ran)
              | inr others ↦ (
                if nat_eq (frame_type obj) 6
                    then record t { pongs = t.pongs + 1 }
                    else if nat_eq (frame_type obj) 2
                    then take_item obj t
                    else t,
                ground arith,
              )
            ])
  ]
    where
      other :
          nat_eq (frame_type obj) 6 ≡ false
          → (nat_eq (frame_type obj) 1 && text_eq (string_at (codes "target") obj) (codes "update"))
            ≡ true
          → (u : Turn) → update_arguments cites h (items_at (codes "arguments") obj) t ≡ ok u
          → frame cites h obj t ≡ ok (running u)
      other n updates u ran = rw (n, updates, ran, frame) refl

      shut :
          (e : Option Fields)
          → as_object (Json.get (codes "error") obj) ≡ e
          → frame_type obj ≡ 3
          → Ends (some e) (frame cites h obj t)
      shut none at n = (t, rw (n, at, frame) refl)
      shut (some e) at n = rw (n, at, frame) refl

  -- A part with no frame of type 3 lets the loop go on; such a frame ends it, with its error if it has one.
  part-Ends : (p : Text) (t : Turn) → Ends (closing h p) (part cites h p t)
  unfolding part
  part-Ends p t = elim (Bool-cases (is_empty (trim_space p))) [
    | inl bare ↦ rw (bare, part) (t, refl)
    | inr full ↦ elim (Option-cases (h.decode (trim_space p))) [
      | inl bad ↦ rw (full, bad, part) (record t { events = t.events ++ trim_space p ∷ [] }, refl)
      | inr (obj, good) ↦
          rw (full, good, part)
            (frame-Ends obj (record t { events = t.events ++ trim_space p ∷ [] }))
    ]
  ]

-- The first frame of type 3 of the parts, with its error if it has one.
abbrev pub first_closing : Handlers → List Text → Option (Option Fields)
first_closing h [] = none
first_closing h (p ∷ ps) = elim (closing h p) [ none ↦ first_closing h ps | some c ↦ some c ]

-- The service closes the chat without an error, before a read fails or the request is cancelled.
abbrev pub closed_well : Handlers → List Round → Bool
closed_well h [] = false
closed_well h (cancelled e ∷ rs) = false
closed_well h (read_failed e ∷ rs) = false
closed_well h (received m ∷ rs) = elim (first_closing h (split_parts [] m)) [
  | none ↦ closed_well h rs
  | some none ↦ true
  | some (some e) ↦ false
]

abbrev pub succeeds : {E A : Type 0} → Result E A → Bool
succeeds (ok a) = true
succeeds (err e) = false

module _ (cites : Cites) (h : Handlers) (calm : Accepts h) where
  parts-Ends : (ps : List Text) (t : Turn) → Ends (first_closing h ps) (parts cites h ps t)
  unfolding parts
  parts-Ends [] t = (t, refl)
  parts-Ends (p ∷ ps) t = go (closing h p) (λ u. parts-Ends ps u) (part-Ends cites h calm p t)
    where
      go :
          (c : Option (Option Fields))
          → ((u : Turn) → Ends (first_closing h ps) (parts cites h ps u))
          → Ends c (part cites h p t)
          → Ends (elim c [ none ↦ first_closing h ps | some x ↦ some x ]) (parts cites h (p ∷ ps) t)
      go none next (u, ran) = rw (ran, parts) (next u)
      go (some none) next (u, ran) = rw (ran, parts) (u, refl)
      go (some (some e)) next ran = rw (ran, parts) refl

  -- While no callback reports an error, a chat ends with an answer exactly when the service closes it
  -- without one in time: nothing else that a message may hold makes it fail or keeps it open.
  pub receive-closed_well :
      (rs : List Round) (t : Turn) → succeeds (receive cites h rs t) ≡ closed_well h rs
  unfolding receive
  receive-closed_well [] t = refl
  receive-closed_well (cancelled e ∷ rs) t = refl
  receive-closed_well (read_failed e ∷ rs) t = refl
  receive-closed_well (received m ∷ rs) t =
      go (first_closing h (split_parts [] m)) (λ u. receive-closed_well rs u)
        (parts-Ends (split_parts [] m) t)
    where
      go :
          (c : Option (Option Fields))
          → ((u : Turn) → succeeds (receive cites h rs u) ≡ closed_well h rs)
          → Ends c (parts cites h (split_parts [] m) t)
          → succeeds (receive cites h (received m ∷ rs) t)
            ≡ elim c [ none ↦ closed_well h rs | some none ↦ true | some (some e) ↦ false ]
      go none next (u, ran) = rw (ran, receive) (next u)
      go (some none) next (u, ran) = rw (ran, receive) refl
      go (some (some e)) next ran = rw (ran, receive) refl
