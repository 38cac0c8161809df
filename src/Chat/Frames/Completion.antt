-- ===== src/Chat/Frames/Completion.antt =====
-- When a chat ends well: the loop of `chatWithHandlers`, internal/chathub/client.go.
use m365_copilot2api.Prelude.{
  ◌≡◌, inl, inr, List, [], ◌∷◌, Option, none, some, Bool, true, false, Text, is_empty, trim_space,
  codes, nat_eq, any, arith, if◌then◌else◌, ok, Result-cases,
}
use m365_copilot2api.Json
use m365_copilot2api.Json.{Value, Fields, as_object, string_at}
use m365_copilot2api.Chat.{Cites}
use m365_copilot2api.Chat.Frames.{Handlers, Turn, frame_type, running, complete, frame, part, parts}
use m365_copilot2api.Chat.Rounds.{split_parts, Round, cancelled, read_failed, received, receive}

module _ (h : Handlers) where
  -- The part is a frame of type 3, with its error if it has one.
  abbrev pub closing : Text → Option (Option Fields)
  closing p = if is_empty (trim_space p) then none else elim (h.decode (trim_space p)) [
    | none ↦ none
    | some obj ↦
        if nat_eq (frame_type obj) 3 then some (as_object (Json.get (codes "error") obj)) else none
  ]

  abbrev pub completes : Text → Bool
  completes p = elim (closing p) [ none ↦ false | some none ↦ true | some (some e) ↦ false ]

  abbrev pub fails : Text → Bool
  fails p = elim (closing p) [ none ↦ false | some none ↦ false | some (some e) ↦ true ]

  -- The parts of the message of a round.
  abbrev pub parts_of : Round → List Text
  parts_of (received m) = split_parts [] m
  parts_of (cancelled e) = []
  parts_of (read_failed e) = []

module _ (cites : Cites) (h : Handlers) where
  part-completes :
      (p : Text) (t u : Turn) → part cites h p t ≡ ok (complete u) → completes h p ≡ true
  unfolding part frame
  part-completes p t u e = ground arith

  parts-completes :
      (ps : List Text) (t u : Turn)
      → parts cites h ps t ≡ ok (complete u)
      → any (completes h) ps ≡ true
  unfolding parts any
  parts-completes [] t u e = cc
  parts-completes (p ∷ ps) t u e = elim (Result-cases (part cites h p t)) [
    | inl (running v, ran) ↦ ground (arith, parts-completes ps v u)
    | inl (complete v, ran) ↦ ground (arith, part-completes p t v ran)
    | inr (x, ran) ↦ absurd (ground arith)
  ]

  -- A chat never ends well before the service has sent its frame of completion, without an error: a
  -- timeout, a dropped connection or a cancelled request gives no answer, whatever was streamed.
  pub receive_completed :
      (rs : List Round) (t u : Turn)
      → receive cites h rs t ≡ ok u
      → any (λ r. any (completes h) (parts_of h r)) rs ≡ true
  unfolding receive any
  receive_completed [] t u e = cc
  receive_completed (cancelled x ∷ rs) t u e = cc
  receive_completed (read_failed x ∷ rs) t u e = cc
  receive_completed (received m ∷ rs) t u e =
      elim (Result-cases (parts cites h (split_parts [] m) t)) [
        | inl (running v, ran) ↦ ground (arith, receive_completed rs v u)
        | inl (complete v, ran) ↦ ground (arith, parts-completes (split_parts [] m) t v ran)
        | inr (x, ran) ↦ absurd (ground arith)
      ]
