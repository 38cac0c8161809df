-- ===== src/Chat/Deltas.antt =====
-- What a client is sent of the upstream's snapshots: `emitSnapshot` and `emitDelta` of
-- internal/chathub/client.go.
use m365_copilot2api.Prelude.{
  ◌⊎◌, inl, inr, Option-cases, ok-injective, ◌>>=◌, ◌≡◌, ◌≢◌, ◌≤◌, refl, sym, ap, subst, ◌∙◌, List,
  [], ◌∷◌, ◌++◌, Option, none, some, true, false, Text, text_eq_iff, text_eq_refl, is_empty,
  has_prefix, has_suffix, drop, length, arith, if◌then◌else◌, reverse, length-append, All, Result,
  ok, err, inl, inr,
}
use mathlib.Core.List.{append_assoc, append-nil, reverse-append}
use m365_copilot2api.Chat.{Cites, is_marked, clean, unseen_part, unseen_delta}

-- `streamedText`, and the texts that `onDelta` was given.
pub record Stream : Type 0 where
  pub streamed : Text
  pub sent : List Text

abbrev pub no_stream : Stream
no_stream = record { streamed = []; sent = [] }

-- What `onDelta` answers to a text, after the earlier ones: an error or nothing.
abbrev pub OnDelta : Type 0
OnDelta = List Text → Text → Option Text

module _ (cites : Cites) (on_delta : OnDelta) where
  -- `emitDelta`.
  unfoldable pub emit_delta : Text → Stream → Result Text Stream
  emit_delta d s =
      let c = clean cites d in
      if is_empty c then ok s else elim (on_delta s.sent c) [
        | some e ↦ err e
        | none ↦ ok (record { streamed = s.streamed ++ c; sent = s.sent ++ c ∷ [] })
      ]

  -- `emitSnapshot`.
  unfoldable pub emit_snapshot : Text → Stream → Result Text Stream
  unfolding emit_delta
  emit_snapshot snapshot s = elim (unseen_delta cites s.streamed snapshot) [
    | none ↦ ok s
    | some d ↦ emit_delta d s
  ]

abbrev pub concat : List Text → Text
concat [] = []
concat (t ∷ ts) = t ++ concat ts

-- What was sent is, piece after piece, what was streamed, and no piece is empty.
pub record IsFaithful (s : Stream) : Type 0 where
  pub whole : concat s.sent ≡ s.streamed
  pub pieces : All (λ t. is_empty t ≡ false) s.sent

pub concat-append : (ts : List Text) (t : Text) → concat (ts ++ t ∷ []) ≡ concat ts ++ t
concat-append [] t = append-nil t
concat-append (u ∷ ts) t =
    ap (λ (x : Text). u ++ x) (concat-append ts t) ∙ sym (append_assoc u (concat ts) t)

All-snoc :
    (ts : List Text) (t : Text)
    → All (λ t. is_empty t ≡ false) ts
    → is_empty t ≡ false
    → All (λ t. is_empty t ≡ false) (ts ++ t ∷ [])
All-snoc [] t a h = (h, tt)
All-snoc (u ∷ ts) t a h = (a.0, All-snoc ts t a.1 h)

module _ (cites : Cites) (on_delta : OnDelta) where
  emit_delta-IsFaithful :
      (d : Text) (s s' : Stream)
      → IsFaithful s
      → emit_delta cites on_delta d s ≡ ok s'
      → IsFaithful s'
  unfolding emit_delta
  emit_delta-IsFaithful d s s' f h = record {
    whole = ground (arith, f.whole, concat-append s.sent (clean cites d));
    pieces = ground (arith, f.pieces, All-snoc s.sent (clean cites d));
  }

  pub emit_snapshot-IsFaithful :
      (p : Text) (s s' : Stream)
      → IsFaithful s
      → emit_snapshot cites on_delta p s ≡ ok s'
      → IsFaithful s'
  unfolding emit_snapshot
  emit_snapshot-IsFaithful p s s' f h = elim (Option-cases (unseen_delta cites s.streamed p)) [
    | inl skip ↦ subst IsFaithful (ok-injective (rw (skip, emit_snapshot) at h)) f
    | inr (d, got) ↦ emit_delta-IsFaithful d s s' f (rw (got, emit_snapshot) at h)
  ]

  -- The snapshots of one answer, one after the other.
  unfoldable pub emit_snapshots : List Text → Stream → Result Text Stream
  unfolding emit_snapshot
  emit_snapshots [] s = ok s
  emit_snapshots (p ∷ ps) s = do s' ← emit_snapshot cites on_delta p s; emit_snapshots ps s'

-- The text has no citation.
abbrev pub IsPlain : Cites → Text → Type 0
IsPlain cites t = is_marked cites t ≡ false

-- Each snapshot is the one before with some more text, or none; there is no citation in it.
abbrev pub Grows : Cites → Text → List Text → Type 0
Grows cites s [] = Unit {0}
Grows cites s (p ∷ ps) =
    ((t : Text) × (p ≡ s ++ t) × IsPlain cites t) × IsPlain cites p × Grows cites p ps

abbrev pub latest : Text → List Text → Text
latest s [] = s
latest s (p ∷ ps) = latest p ps

clean_plain : (cites : Cites) (t : Text) → IsPlain cites t → clean cites t ≡ t
unfolding clean
clean_plain cites [] h = refl
clean_plain cites (b ∷ t) h = ground arith

has_prefix-append : (s t : Text) → has_prefix (s ++ t) s ≡ true
unfolding has_prefix
has_prefix-append [] t = refl
has_prefix-append (b ∷ s) t = ground (arith, has_prefix-append s t)

drop-append : (s t : Text) → drop (length s) (s ++ t) ≡ t
drop-append [] t = refl
drop-append (b ∷ s) t = drop-append s t

module _ (cites : Cites) (s t : Text) (plain : IsPlain cites (s ++ t)) where
  -- The part of a snapshot that has not been sent.
  unseen_delta-append : t ≢ [] → unseen_delta cites s (s ++ t) ≡ some t
  unfolding unseen_delta unseen_part
  unseen_delta-append new = go s t plain new
    where
      go : (s t : Text) → IsPlain cites (s ++ t) → t ≢ [] → unseen_delta cites s (s ++ t) ≡ some t
      go s [] p n = absurd (n refl)
      go [] (b ∷ t) p n = rw (clean_plain cites (b ∷ t) p) refl
      go (a ∷ s) (b ∷ t) p n = ground (
        arith,
        clean_plain cites (a ∷ s ++ b ∷ t) p,
        has_prefix-append (a ∷ s) (b ∷ t),
        drop-append (a ∷ s) (b ∷ t),
        text_eq_iff (a ∷ s ++ b ∷ t) (a ∷ s),
        length-append (a ∷ s) (b ∷ t),
        λ (e : a ∷ s ++ b ∷ t ≡ a ∷ s). ap length e,
      )

  unseen_delta_same : t ≡ [] → unseen_delta cites s (s ++ t) ≡ none
  unfolding unseen_delta unseen_part
  unseen_delta_same e = go s (rw (e, append-nil) at plain)
    where
      go : (s : Text) → IsPlain cites s → unseen_delta cites s (s ++ t) ≡ none
      go s p = rw (e, append-nil) (ground (arith, clean_plain cites s p, text_eq_refl s))

is_nil_or_not : (t : Text) → (t ≡ []) ⊎ (t ≢ [])
is_nil_or_not [] = inl refl
is_nil_or_not (b ∷ t) = inr (λ e. cc)

is_empty-false : (t : Text) → t ≢ [] → is_empty t ≡ false
is_empty-false [] h = absurd (h refl)
is_empty-false (b ∷ t) h = refl

module _ (cites : Cites) (on_delta : OnDelta)
    (accepts : (ts : List Text) (t : Text) → on_delta ts t ≡ none) where
  emit_snapshot-append :
      (t : Text) (s : Stream)
      → IsPlain cites t
      → IsPlain cites (s.streamed ++ t)
      → (s' : Stream) × (emit_snapshot cites on_delta (s.streamed ++ t) s ≡ ok s')
        × (s'.streamed ≡ s.streamed ++ t)
  unfolding emit_snapshot emit_delta
  emit_snapshot-append t s part whole = elim (is_nil_or_not t) [
    | inl none_left ↦ (
      s,
      rw (unseen_delta_same cites s.streamed t whole none_left, emit_snapshot) refl,
      rw (none_left, append-nil) refl,
    )
    | inr new ↦ (
      record { streamed = s.streamed ++ t; sent = s.sent ++ t ∷ [] },
      rw (unseen_delta-append cites s.streamed t whole new, emit_snapshot)
          (ground (arith, clean_plain cites t part, is_empty-false t new, accepts s.sent t)),
      refl,
    )
  ]

  -- A client that takes every text, and has been sent what was streamed so far, gets the rest of an answer's
  -- snapshots without an error, if each of them only adds to the one before and neither a snapshot nor what
  -- it adds has a citation to clean away: it has then been sent exactly the latest snapshot, nothing is lost,
  -- and nothing comes twice.
  pub emit_snapshots-latest :
      (ps : List Text) (s : Stream)
      → IsFaithful s
      → Grows cites s.streamed ps
      → (s' : Stream) × (emit_snapshots cites on_delta ps s ≡ ok s')
        × (concat s'.sent ≡ latest s.streamed ps)
  unfolding emit_snapshots
  emit_snapshots-latest [] s f g = (s, refl, f.whole)
  emit_snapshots-latest (p ∷ ps) s f ((t, e, part), whole, rest) =
      let (s1, ran, same) = emit_snapshot-append t s part (subst (IsPlain cites) e whole) in
      let ran' : emit_snapshot cites on_delta p s ≡ ok s1 =
        subst (λ (q : Text). emit_snapshot cites on_delta q s ≡ ok s1) (sym e) ran in
      let f1 = emit_snapshot-IsFaithful cites on_delta p s s1 f ran' in
      let at : s1.streamed ≡ p = same ∙ sym e in
      let (s', ran'', final) =
        emit_snapshots-latest ps s1 f1 (subst (λ (q : Text). Grows cites q ps) (sym at) rest) in
      (s', rw ran' ran'', final ∙ ap (λ (q : Text). latest q ps) at)

pub has_prefix-length : (s p : Text) → has_prefix s p ≡ true → length p ≤ length s
unfolding has_prefix
has_prefix-length s [] h = omega arith
has_prefix-length [] (c ∷ p) h = cc
has_prefix-length (b ∷ s) (c ∷ p) h = ground (arith, has_prefix-length s p)

has_suffix-append : (x w : Text) → has_suffix (x ++ w) w ≡ true
unfolding has_suffix
has_suffix-append x w = rw (reverse-append x w) (has_prefix-append (reverse w) (reverse x))

-- A text that repeats the end of what was streamed, both without citations, is taken for one that was
-- sent already and dropped, be it a snapshot or a new token.
pub unseen_delta-repeated :
    (cites : Cites) (x w : Text)
    → IsPlain cites (x ++ w)
    → IsPlain cites w
    → unseen_delta cites (x ++ w) w ≡ none
unfolding unseen_delta unseen_part
unseen_delta-repeated cites [] w whole part =
    ground (arith, clean_plain cites w part, text_eq_refl w)
unseen_delta-repeated cites (b ∷ x) w whole part = ground (
  arith,
  clean_plain cites w part,
  clean_plain cites (b ∷ x ++ w) whole,
  has_suffix-append (b ∷ x) w,
  has_prefix-length w (b ∷ x ++ w),
  length-append x w,
)
