-- ===== src/Answers/Fences.antt =====
-- That a streamed answer holds fenced text back: the stream of `openaiChat`, internal/web/server.go.
use m365_copilot2api.Tools.{DetectedToolCall}
use m365_copilot2api.Prelude.{
  ℕ, zero, suc, ◌+◌, ◌≤◌, ◌<◌, ◌≡◌, ◌⊎◌, ◌-◌, inl, inr, refl, sym, subst, ◌∙◌, List, [], ◌∷◌, ◌++◌,
  none, some, Bool, true, false, ◌||◌, ◌&&◌, not, Text, is_empty, contains, has_prefix, take, drop,
  length, length-append, take-append-drop, arith, Bool-cases,
}
use mathlib.Core.List.{append_assoc}
use m365_copilot2api.Events.{StreamEvent, Kind, plain, progress, tool}
use m365_copilot2api.Chat.{rune_count}
use m365_copilot2api.Chat.Deltas.{concat, concat-append, has_prefix-length}
use m365_copilot2api.Answers.{
  Held, nothing_held, fence, index_fence, rune_offset, emit_text, split_at, take_text, take_event,
  take_events, close, recover, stream_answer, DetectedToolCall, finish, tool_response, calls_in,
}
use m365_copilot2api.Answers.Whole.{added, take_text-cases}

-- A fence begins in the first text, which the second follows.
fence_in : Text → Text → Bool
unfolding has_prefix
fence_in [] p = false
fence_in (b ∷ s) p = has_prefix (b ∷ s ++ p) fence || fence_in s p

-- Two bytes that follow tell whether a fence begins.
has_prefix-fence :
    (b : ℕ) (u t : Text) → 2 ≤ length u → has_prefix (b ∷ u ++ t) fence ≡ has_prefix (b ∷ u) fence
unfolding has_prefix
has_prefix-fence b [] t h = absurd (omega arith)
has_prefix-fence b (c ∷ []) t h = absurd (omega arith)
has_prefix-fence b (c ∷ d ∷ u) t h = refl

fence_in-append : (s p t : Text) → 2 ≤ length p → fence_in s (p ++ t) ≡ fence_in s p
unfolding fence_in
fence_in-append [] p t h = refl
fence_in-append (b ∷ s) p t h = ground (
  arith,
  sym (append_assoc s p t),
  has_prefix-fence b (s ++ p) t (omega (arith, length-append s p)),
  fence_in-append s p t h,
)

fence_in-split : (s a p : Text) → fence_in (s ++ a) p ≡ (fence_in s (a ++ p) || fence_in a p)
unfolding fence_in
fence_in-split [] a p = refl
fence_in-split (b ∷ s) a p = ground (arith, append_assoc s a p, fence_in-split s a p)

index_fence-clear :
    (v : Text) (i : ℕ)
    → index_fence v ≡ some i
    → (fence_in (take i v) (drop i v) ≡ false) × (3 ≤ length (drop i v))
unfolding index_fence fence_in
index_fence-clear [] i h = cc
index_fence-clear (b ∷ v) zero h =
    (refl, omega (arith, has_prefix-length (b ∷ v) fence (ground arith)))
index_fence-clear (b ∷ v) (suc i) h = ground (arith, take-append-drop i v, index_fence-clear v i)

index_fence-none :
    (v : Text) (i : ℕ) → index_fence v ≡ none → fence_in (take i v) (drop i v) ≡ false
unfolding index_fence fence_in
index_fence-none v zero h = refl
index_fence-none [] (suc i) h = refl
index_fence-none (b ∷ v) (suc i) h = ground (arith, take-append-drop i v, index_fence-none v i)

rune_count-le : (s : Text) → rune_count s ≤ length s
unfolding rune_count
rune_count-le [] = omega arith
rune_count-le (b ∷ s) = ground (arith, rune_count-le s)

rune_count-drop :
    (n : ℕ) (s : Text) → n ≤ rune_count s → rune_count (drop (rune_offset n s) s) + n ≡ rune_count s
unfolding rune_count rune_offset
rune_count-drop n [] h = ground arith
rune_count-drop zero (b ∷ s) h = ground (arith, rune_count-drop 0 s)
rune_count-drop (suc n) (b ∷ s) h = ground (arith, rune_count-drop (suc n) s, rune_count-drop n s)

has_prefix-more : (s p q : Text) → has_prefix s q ≡ true → has_prefix (s ++ p) q ≡ true
unfolding has_prefix
has_prefix-more s p [] h = go s
  where
    go : (u : Text) → has_prefix (u ++ p) [] ≡ true
    go [] = refl
    go (b ∷ u) = refl
has_prefix-more [] p (c ∷ q) h = cc
has_prefix-more (b ∷ s) p (c ∷ q) h = ground (arith, has_prefix-more s p q)

contains-fence : (s p : Text) → fence_in s p ≡ false → contains s fence ≡ false
unfolding contains fence_in
contains-fence [] p h = unfold has_prefix in refl
contains-fence (b ∷ s) p h = ground (arith, has_prefix-more (b ∷ s) p fence, contains-fence s p)

-- No fence begins in what was sent, and what is pending is long enough to tell.
record IsClear (h : Held) : Type 0 where
  none_sent : fence_in (concat h.sent) h.pending ≡ false
  enough : (h.sent ≡ []) ⊎ (3 ≤ length h.pending)

added-IsClear :
    (t : Text) (h : Held) → IsClear h → fence_in (concat h.sent) (h.pending ++ t) ≡ false
unfolding fence_in
added-IsClear t h c = elim c.enough [
  | inl start ↦ rw start refl
  | inr long ↦ fence_in-append (concat h.sent) h.pending t (omega arith) ∙ c.none_sent
]

split_at-IsClear :
    (i : ℕ) (t : Text) (h : Held)
    → fence_in (concat h.sent) (h.pending ++ t) ≡ false
    → fence_in (take i (h.pending ++ t)) (drop i (h.pending ++ t)) ≡ false
    → 3 ≤ length (drop i (h.pending ++ t))
    → IsClear (split_at i (h.pending ++ t) (added t h))
unfolding split_at emit_text
split_at-IsClear i t h before inside long = go (take i v) (take-append-drop i v) inside
  where
    v : Text
    v = h.pending ++ t

    go :
        (a : Text)
        → a ++ drop i v ≡ v
        → fence_in a (drop i v) ≡ false
        → IsClear (record (emit_text a (added t h)) { pending = drop i v })
    go [] e none_inside = record { none_sent = rw e before; enough = inr long }
    go (b ∷ a) e none_inside = record {
      none_sent =
          rw
            (
              concat-append h.sent (b ∷ a),
              fence_in-split (concat h.sent) (b ∷ a) (drop i v),
              e,
              before,
              none_inside,
            )
            refl;
      enough = inr long;
    }

take_text-IsClear : (t : Text) (h : Held) → IsClear h → IsClear (take_text t h)
take_text-IsClear t h c = elim (take_text-cases t h) [
  | inl same ↦
      subst IsClear (sym same) (record { none_sent = added-IsClear t h c; enough = more c.enough })
  | inr (i, split, inl at) ↦
      let (inside, long) = index_fence-clear (h.pending ++ t) i at in
      subst IsClear (sym split) (split_at-IsClear i t h (added-IsClear t h c) inside long)
  | inr (i, split, inr (miss, long, e)) ↦ subst IsClear (sym split) (
      split_at-IsClear i t h (added-IsClear t h c) (index_fence-none (h.pending ++ t) i miss) (
        subst (λ (j : ℕ). 3 ≤ length (drop j (h.pending ++ t))) (sym e)
          (eight (h.pending ++ t) long)))
]
  where
    more : (h.sent ≡ []) ⊎ (3 ≤ length h.pending) → (h.sent ≡ []) ⊎ (3 ≤ length (h.pending ++ t))
    more (inl start) = inl start
    more (inr long) = inr (omega (arith, length-append h.pending t))

    eight : (v : Text) → 8 < rune_count v → 3 ≤ length (drop (rune_offset (rune_count v - 8) v) v)
    eight v long = omega (
      arith,
      rune_count-drop (rune_count v - 8) v (omega arith),
      rune_count-le (drop (rune_offset (rune_count v - 8) v) v),
    )

take_event-IsClear : (e : StreamEvent) (h : Held) → IsClear h → IsClear (take_event e h)
unfolding take_event
take_event-IsClear e h c = go e.kind refl
  where
    go : (k : Kind) → e.kind ≡ k → IsClear (take_event e h)
    go plain at = elim (Bool-cases (is_empty e.text)) [
      | inl bare ↦ rw (at, bare, take_event) c
      | inr full ↦ rw (at, full, take_event) (take_text-IsClear e.text h c)
    ]
    go progress at = rw (at, take_event) c
    go tool at = elim (Bool-cases (not (is_empty e.tool_name) && not (is_empty e.arguments))) [
      | inl call ↦ rw (at, call, take_event) (record { none_sent = c.none_sent; enough = c.enough })
      | inr other ↦ rw (at, other, take_event) c
    ]

take_events-IsClear : (es : List StreamEvent) (h : Held) → IsClear h → IsClear (take_events es h)
unfolding take_events
take_events-IsClear [] h c = c
take_events-IsClear (e ∷ es) h c =
    take_events-IsClear es (take_event e h) (take_event-IsClear e h c)

close-sent :
    (limit : List DetectedToolCall → List DetectedToolCall) (cs : List DetectedToolCall) (h : Held)
    (calls : List DetectedToolCall) (text : Text)
    → (close limit cs h).1 ≡ tool_response calls text
    → (close limit cs h).0.sent ≡ h.sent
unfolding close
close-sent limit [] h calls text e = cc
close-sent limit (c ∷ cs) h calls text e = refl

recover-sent : (res : Text) (h : Held) → (recover res h).sent ≡ h.sent
unfolding recover
recover-sent res h = ground arith

-- However the upstream cuts its text into pieces: a client that is answered with tool calls has been
-- sent no part of a fenced block before them, not even where a fence is cut in two.
pub stream_answer-unfenced :
    (ids : ℕ → Text) (fenced : Text → List DetectedToolCall)
    (limit : List DetectedToolCall → List DetectedToolCall) (es : List StreamEvent) (res : Text)
    (calls : List DetectedToolCall) (text : Text)
    → (stream_answer ids fenced limit es res).1 ≡ tool_response calls text
    → contains (concat (stream_answer ids fenced limit es res).0.sent) fence ≡ false
unfolding stream_answer finish fence_in
stream_answer-unfenced ids fenced limit es res calls text e =
    let h : Held = take_events es nothing_held in
    let clear : IsClear h =
      take_events-IsClear es nothing_held (record { none_sent = refl; enough = inl refl }) in
    let same : (stream_answer ids fenced limit es res).0.sent ≡ h.sent =
      close-sent limit (calls_in ids fenced (recover res h)) (recover res h) calls text e
      ∙ recover-sent res h in
    rw same (contains-fence (concat h.sent) h.pending clear.none_sent)
