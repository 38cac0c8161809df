-- ===== src/Answers/Whole.antt =====
-- That a streamed answer loses nothing: the stream of `openaiChat`, internal/web/server.go.
use m365_copilot2api.Chat.{rune_count}
use m365_copilot2api.Prelude.{
  ℕ, ◌≡◌, ◌⊎◌, inl, inr, refl, sym, ap, ◌∙◌, List, [], ◌∷◌, ◌++◌, none, some, not, ltb, ◌<◌, ◌-◌,
  ◌||◌, Text, is_empty, contains, take, drop, take-append-drop, arith, Option-cases, Bool-cases,
  trim_space, ◌&&◌, subst, ◌<◌, ◌-◌, codes, ◌||◌, ltb, true, if◌then◌else◌,
}
use mathlib.Core.List.{append_assoc, append-nil}
use m365_copilot2api.Events.{StreamEvent, Kind, plain, progress, tool}
use m365_copilot2api.Tools.{DetectedToolCall}
use m365_copilot2api.Chat.Deltas.{concat, concat-append}
use m365_copilot2api.Answers.{
  Held, nothing_held, emit_text, split_at, take_text, take_event, take_events, finish, recover,
  done, stream_answer, index_fence, rune_count, rune_offset, close, calls_in,
}

-- What was sent and what is pending make up the text.
abbrev pub IsWhole : Held → Type 0
IsWhole h = concat h.sent ++ h.pending ≡ h.text

pub split_at-IsWhole : (i : ℕ) (h : Held) → IsWhole h → IsWhole (split_at i h.pending h)
unfolding split_at emit_text
split_at-IsWhole i h whole = go (take i h.pending) (take-append-drop i h.pending)
  where
    go :
        (part : Text)
        → part ++ drop i h.pending ≡ h.pending
        → IsWhole (record (emit_text part h) { pending = drop i h.pending })
    go [] e = ap (λ (x : Text). concat h.sent ++ x) e ∙ whole
    go (b ∷ part) e =
        ap (λ (x : Text). x ++ drop i h.pending) (concat-append h.sent (b ∷ part))
        ∙ append_assoc (concat h.sent) (b ∷ part) (drop i h.pending)
        ∙ ap (λ (x : Text). concat h.sent ++ x) e
        ∙ whole

-- The handler's state with a piece of text added.
abbrev pub added : Text → Held → Held
added t h = record h { text = h.text ++ t; pending = h.pending ++ t }

-- What becomes of a piece of text: all of the pending text stays, or that before the first fence is
-- sent, or, where there is no fence, all but its last eight runes.
pub take_text-cases :
    (t : Text) (h : Held)
    → (take_text t h ≡ added t h)
      ⊎ ((i : ℕ) × (take_text t h ≡ split_at i (h.pending ++ t) (added t h))
          × ((index_fence (h.pending ++ t) ≡ some i)
              ⊎ ((index_fence (h.pending ++ t) ≡ none)
                  × (8 < rune_count (h.pending ++ t))
                  × (i ≡ rune_offset (rune_count (h.pending ++ t) - 8) (h.pending ++ t)))))
unfolding take_text
take_text-cases t h =
    elim (Bool-cases (contains v (codes "```bash") || contains v (codes "\"command\""))) [
      | inl command ↦ inl (rw (command, take_text) refl)
      | inr text ↦ elim (Option-cases (index_fence v)) [
        | inr (i, at) ↦ inr (i, rw (text, at, take_text) refl, inl at)
        | inl miss ↦ elim (Bool-cases (ltb 8 (rune_count v))) [
          | inl long ↦ inr (
            rune_offset (rune_count v - 8) v,
            rw (text, miss, long, take_text) refl,
            inr (miss, ground arith, refl),
          )
          | inr short ↦ inl (rw (text, miss, short, take_text) refl)
        ]
      ]
    ]
  where
    v : Text
    v = h.pending ++ t

added-IsWhole : (t : Text) (h : Held) → IsWhole h → IsWhole (added t h)
added-IsWhole t h whole =
    sym (append_assoc (concat h.sent) h.pending t) ∙ ap (λ (x : Text). x ++ t) whole

take_text-IsWhole : (t : Text) (h : Held) → IsWhole h → IsWhole (take_text t h)
take_text-IsWhole t h whole = elim (take_text-cases t h) [
  | inl same ↦ subst IsWhole (sym same) (added-IsWhole t h whole)
  | inr (i, split, why) ↦
      subst IsWhole (sym split) (split_at-IsWhole i (added t h) (added-IsWhole t h whole))
]

take_event-IsWhole : (e : StreamEvent) (h : Held) → IsWhole h → IsWhole (take_event e h)
unfolding take_event
take_event-IsWhole e h whole = go e.kind refl
  where
    go : (k : Kind) → e.kind ≡ k → IsWhole (take_event e h)
    go plain at = elim (Bool-cases (is_empty e.text)) [
      | inl bare ↦ rw (at, bare, take_event) whole
      | inr full ↦ rw (at, full, take_event) (take_text-IsWhole e.text h whole)
    ]
    go progress at = rw (at, take_event) whole
    go tool at = elim (Bool-cases (not (is_empty e.tool_name) && not (is_empty e.arguments))) [
      | inl call ↦ rw (at, call, take_event) whole
      | inr other ↦ rw (at, other, take_event) whole
    ]

take_events-IsWhole : (es : List StreamEvent) (h : Held) → IsWhole h → IsWhole (take_events es h)
unfolding take_events
take_events-IsWhole [] h whole = whole
take_events-IsWhole (e ∷ es) h whole =
    take_events-IsWhole es (take_event e h) (take_event-IsWhole e h whole)

recover-IsWhole : (res : Text) (h : Held) → IsWhole h → IsWhole (recover res h)
unfolding recover
recover-IsWhole res h whole =
    elim (Bool-cases (is_empty h.text && not (is_empty (trim_space res)))) [
      | inl missing ↦ rw (missing, recover) (added-IsWhole res h whole)
      | inr there ↦ rw (there, recover) whole
    ]

emit_text-IsWhole : (h : Held) → IsWhole h → concat (emit_text h.pending h).sent ≡ h.text
unfolding emit_text
emit_text-IsWhole h whole = go h.pending whole
  where
    go : (p : Text) → concat h.sent ++ p ≡ h.text → concat (emit_text p h).sent ≡ h.text
    go [] e = sym (append-nil (concat h.sent)) ∙ e
    go (b ∷ p) e = concat-append h.sent (b ∷ p) ∙ e

close-IsWhole :
    (limit : List DetectedToolCall → List DetectedToolCall) (calls : List DetectedToolCall)
    (h : Held)
    → IsWhole h
    → (close limit calls h).1 ≡ done
    → concat (close limit calls h).0.sent ≡ h.text
unfolding close
close-IsWhole limit [] h whole e = emit_text-IsWhole h whole
close-IsWhole limit (c ∷ cs) h whole e = cc

-- The texts of the text events.
abbrev pub texts_of : List StreamEvent → List Text
texts_of [] = []
texts_of (e ∷ es) = elim e.kind [
  | plain ↦ e.text ∷ texts_of es
  | progress ↦ texts_of es
  | tool ↦ texts_of es
]

split_at-text : (i : ℕ) (v : Text) (h : Held) → (split_at i v h).text ≡ h.text
unfolding split_at emit_text
split_at-text i v h = ground arith

take_text-text : (t : Text) (h : Held) → (take_text t h).text ≡ h.text ++ t
take_text-text t h = elim (take_text-cases t h) [
  | inl same ↦ ap (λ (x : Held). x.text) same
  | inr (i, split, why) ↦
      ap (λ (x : Held). x.text) split ∙ split_at-text i (h.pending ++ t) (added t h)
]

-- The text that an event adds.
text_of : StreamEvent → Text
text_of e = elim e.kind [ plain ↦ e.text | progress ↦ [] | tool ↦ [] ]

is_nil : (t : Text) → is_empty t ≡ true → t ≡ []
is_nil [] full = refl
is_nil (b ∷ t) full = cc

take_event-text : (e : StreamEvent) (h : Held) → (take_event e h).text ≡ h.text ++ text_of e
unfolding take_event text_of
take_event-text e h = go e.kind refl
  where
    go : (k : Kind) → e.kind ≡ k → (take_event e h).text ≡ h.text ++ text_of e
    go plain at = elim (Bool-cases (is_empty e.text)) [
      | inl bare ↦ rw (at, bare, is_nil e.text bare, take_event, text_of) (sym (append-nil h.text))
      | inr full ↦ rw (at, full, take_event, text_of) (take_text-text e.text h)
    ]
    go progress at = rw (at, take_event, text_of) (sym (append-nil h.text))
    go tool at = elim (Bool-cases (not (is_empty e.tool_name) && not (is_empty e.arguments))) [
      | inl call ↦ rw (at, call, take_event, text_of) (sym (append-nil h.text))
      | inr other ↦ rw (at, other, take_event, text_of) (sym (append-nil h.text))
    ]

texts_of-cons :
    (e : StreamEvent) (es : List StreamEvent)
    → text_of e ++ concat (texts_of es) ≡ concat (texts_of (e ∷ es))
unfolding text_of
texts_of-cons e es = go e.kind
  where
    go :
        (k : Kind)
        → elim k [ plain ↦ e.text | progress ↦ [] | tool ↦ [] ] ++ concat (texts_of es)
          ≡ concat (elim k [
            | plain ↦ e.text ∷ texts_of es
            | progress ↦ texts_of es
            | tool ↦ texts_of es
          ])
    go plain = refl
    go progress = refl
    go tool = refl

take_events-text :
    (es : List StreamEvent) (h : Held) → (take_events es h).text ≡ h.text ++ concat (texts_of es)
unfolding take_events
take_events-text [] h = sym (append-nil h.text)
take_events-text (e ∷ es) h =
    take_events-text es (take_event e h)
    ∙ ap (λ (x : Text). x ++ concat (texts_of es)) (take_event-text e h)
    ∙ append_assoc h.text (text_of e) (concat (texts_of es))
    ∙ ap (λ (x : Text). h.text ++ x) (texts_of-cons e es)

-- The text of an answer: that of its events, or that of the result if they have none.
abbrev pub answer_text : List StreamEvent → Text → Text
answer_text es res =
    let said = concat (texts_of es) in
    if is_empty said && not (is_empty (trim_space res)) then res else said

recover-text :
    (es : List StreamEvent) (res : Text)
    → (recover res (take_events es nothing_held)).text ≡ answer_text es res
unfolding recover
recover-text es res =
    let said = concat (texts_of es) in
    rw (take_events-text es nothing_held) (ground (arith, is_nil said))

module _ (ids : ℕ → Text) (fenced : Text → List DetectedToolCall)
    (limit : List DetectedToolCall → List DetectedToolCall) where
  finish-IsWhole :
      (res : Text) (h : Held)
      → IsWhole h
      → (finish ids fenced limit res h).1 ≡ done
      → concat (finish ids fenced limit res h).0.sent ≡ (recover res h).text
  unfolding finish
  finish-IsWhole res h whole e =
      close-IsWhole limit (calls_in ids fenced (recover res h)) (recover res h)
        (recover-IsWhole res h whole) e

  -- A streamed answer that ends without tool calls has been sent whole: the texts, piece after piece,
  -- are the texts of the text events, one after the other, or that of the result, unless it is blank,
  -- where the events have none.
  pub stream_answer-whole :
      (es : List StreamEvent) (res : Text)
      → (stream_answer ids fenced limit es res).1 ≡ done
      → concat (stream_answer ids fenced limit es res).0.sent ≡ answer_text es res
  unfolding stream_answer
  stream_answer-whole es res e =
      finish-IsWhole res (take_events es nothing_held) (take_events-IsWhole es nothing_held refl) e
      ∙ recover-text es res
