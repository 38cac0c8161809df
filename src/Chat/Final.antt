-- ===== src/Chat/Final.antt =====
-- Which text an answer ends with: `finalTextReconcile` of internal/chathub/client.go.
use m365_copilot2api.Prelude.{
  ◌≡◌, ◌⊎◌, refl, true, false, ◌&&◌, Text, [], ◌∷◌, text_eq_iff, is_empty, has_prefix, trim_space,
  arith, if◌then◌else◌,
}
use m365_copilot2api.Chat.{Cites, clean, better, final_text_reconcile}

has_prefix_refl : (s : Text) → has_prefix s s ≡ true
unfolding has_prefix
has_prefix_refl [] = refl
has_prefix_refl (b ∷ s) = ground (arith, has_prefix_refl s)

has_prefix_empty : (s t : Text) → is_empty t ≡ true → has_prefix s t ≡ true
unfolding has_prefix
has_prefix_empty s [] h = refl
has_prefix_empty s (b ∷ t) h = cc

has_prefix_of_empty : (s t : Text) → is_empty s ≡ true → is_empty t ≡ false → has_prefix s t ≡ false
unfolding has_prefix
has_prefix_of_empty [] [] h e = cc
has_prefix_of_empty [] (b ∷ t) h e = refl
has_prefix_of_empty (b ∷ s) t h e = cc

module _ (cites : Cites) (streamed final : Text) where
  abbrev pub kept : Text
  kept = clean cites (trim_space streamed)

  abbrev pub given : Text
  given = clean cites (trim_space final)

  better-cases :
      (s f : Text)
      → ((better cites s f ≡ s) ⊎ (better cites s f ≡ f))
        × (better cites s f
            ≡ (if has_prefix f s then f else if has_prefix s f then s else better cites s f))
  unfolding better
  better-cases s f = (ground arith, ground (arith, text_eq_iff f s, has_prefix_refl s))

  -- The final text is the streamed or the reported one, each cleaned; it is the reported one if that
  -- goes on from the streamed one, the streamed one if it goes on from the reported one, and empty
  -- only if both are.
  pub final_text_reconcile-cases :
      ((final_text_reconcile cites streamed final ≡ kept)
        ⊎ (final_text_reconcile cites streamed final ≡ given))
      × (final_text_reconcile cites streamed final ≡ (
          if has_prefix given kept
          then given
          else if has_prefix kept given
          then kept
          else final_text_reconcile cites streamed final))
      × (is_empty (final_text_reconcile cites streamed final) ≡ (is_empty kept && is_empty given))
  unfolding final_text_reconcile
  final_text_reconcile-cases = ground (
    arith,
    better-cases kept given,
    has_prefix_empty given kept,
    has_prefix_empty kept given,
    has_prefix_of_empty given kept,
  )
