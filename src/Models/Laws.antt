-- ===== src/Models/Laws.antt =====
-- What `/v1/models` shows and how much a model may take: internal/web/codex_catalog.go.
use m365_copilot2api.Prelude.{
  ◌≡◌, ◌⊎◌, ◌≤◌, ◌+◌, inl, inr, refl, List, [], ◌∷◌, map, Bool, true, false, Text, text_eq_iff,
  trim_space, any, All, arith, none, subst, sym,
}
use m365_copilot2api.Settings.{Env, ModelMapping, RuntimeSettings, is_one_of, save, get}
use m365_copilot2api.Settings.Catalog.{Unique, differs_from_all}
use m365_copilot2api.Settings.Saving.{save-IsBounded, IsBounded}
use m365_copilot2api.Models.{Fold}
use m365_copilot2api.Models.Catalog.{
  ModelSpec, configured_model_limits, is_hidden, spec_of, specs_from, shown_mappings,
  configured_model_specs,
}

module _ (fold : Fold) where
  -- The entry is that of a row that is shown.
  abbrev pub IsShown : ModelSpec → Type 0
  IsShown s = (m : ModelMapping) × (s ≡ spec_of fold m) × (is_hidden fold m ≡ false)

  -- The identifiers, lowered.
  abbrev pub ids : List ModelSpec → List Text
  ids ss = map (λ s. fold.lower s.id) ss

  step :
      (seen : List Text) (m : ModelMapping) (ms : List ModelMapping)
      → ((specs_from fold seen (m ∷ ms) ≡ specs_from fold seen ms)
          × ((is_hidden fold m ≡ true)
              ⊎ (is_one_of seen (fold.lower (trim_space m.public_model)) ≡ true)))
        ⊎ ((is_one_of seen (fold.lower (trim_space m.public_model)) ≡ false)
            × (is_hidden fold m ≡ false)
            × (specs_from fold seen (m ∷ ms)
                ≡ spec_of fold m
                  ∷ specs_from fold (fold.lower (trim_space m.public_model) ∷ seen) ms))
  unfolding specs_from
  step seen m ms = ground arith

  unseen :
      (k : Text) (seen : List Text) (ms : List ModelMapping)
      → is_one_of seen k ≡ true
      → is_one_of (ids (specs_from fold seen ms)) k ≡ false
  unfolding any spec_of
  unseen k seen [] h = unfold specs_from in refl
  unseen k seen (m ∷ ms) h = elim (step seen m ms) [
    | inl (e, w) ↦ rw e (unseen k seen ms h)
    | inr (new, whole, e) ↦ rw e (
        ground (
          arith,
          text_eq_iff (fold.lower (trim_space m.public_model)) k,
          unseen k (fold.lower (trim_space m.public_model) ∷ seen) ms (ground arith),
        ))
  ]

  specs_from-IsShown :
      (seen : List Text) (ms : List ModelMapping)
      → All IsShown (specs_from fold seen ms) × Unique (ids (specs_from fold seen ms))
  unfolding any spec_of
  specs_from-IsShown seen [] = unfold specs_from in (tt, tt)
  specs_from-IsShown seen (m ∷ ms) = elim (step seen m ms) [
    | inl (e, w) ↦ rw e (specs_from-IsShown seen ms)
    | inr (new, whole, e) ↦
        let k = fold.lower (trim_space m.public_model) in
        let (shown, once) = specs_from-IsShown (k ∷ seen) ms in
        rw e (
          ((m, refl, whole), shown),
          (
            differs_from_all (ids (specs_from fold (k ∷ seen) ms)) k
                (unseen k (k ∷ seen) ms (ground (arith, text_eq_iff k k))),
            once,
          ),
        )
  ]

  -- The row has an entry, or is not to be shown, or its name was seen.
  Covers : List Text → List Text → ModelMapping → Type 0
  Covers seen shown m =
      (is_hidden fold m ≡ true)
      ⊎ (is_one_of seen (fold.lower (trim_space m.public_model)) ≡ true)
      ⊎ (is_one_of shown (fold.lower (trim_space m.public_model)) ≡ true)

  Covers-seen :
      (k : Text) (seen shown : List Text) (m : ModelMapping)
      → Covers (k ∷ seen) shown m
      → Covers seen (k ∷ shown) m
  unfolding Covers any
  Covers-seen k seen shown m c = ground arith

  Covers-All :
      (k : Text) (seen shown : List Text) (ms : List ModelMapping)
      → All (Covers (k ∷ seen) shown) ms
      → All (Covers seen (k ∷ shown)) ms
  Covers-All k seen shown [] a = tt
  Covers-All k seen shown (m ∷ ms) a =
      (Covers-seen k seen shown m a.0, Covers-All k seen shown ms a.1)

  specs_from-Covers :
      (seen : List Text) (ms : List ModelMapping)
      → All (Covers seen (ids (specs_from fold seen ms))) ms
  unfolding any spec_of Covers
  specs_from-Covers seen [] = tt
  specs_from-Covers seen (m ∷ ms) = elim (step seen m ms) [
    | inl (e, inl hidden) ↦ subst P (sym e) (inl hidden, specs_from-Covers seen ms)
    | inl (e, inr known) ↦ subst P (sym e) (inr (inl known), specs_from-Covers seen ms)
    | inr (new, whole, e) ↦
        let k = fold.lower (trim_space m.public_model) in
        subst P (sym e) (
          inr (inr (ground (arith, text_eq_iff k k))),
          Covers-All k seen _ ms (specs_from-Covers (k ∷ seen) ms),
        )
  ]
    where
      P : List ModelSpec → Type 0
      P ss = All (Covers seen (ids ss)) (m ∷ ms)

  -- Every configured row is shown, unless it is hidden or its identifier comes earlier.
  abbrev pub IsCovered : List ModelSpec → ModelMapping → Type 0
  IsCovered ss m =
      (is_hidden fold m ≡ true)
      ⊎ (is_one_of (ids ss) (fold.lower (trim_space m.public_model)) ≡ true)

  uncover :
      (ss : List ModelSpec) (ms : List ModelMapping)
      → All (Covers [] (ids ss)) ms
      → All (IsCovered ss) ms
  unfolding Covers any
  uncover ss [] a = tt
  uncover ss (m ∷ ms) a = (ground (arith, a.0), uncover ss ms a.1)

  -- The public catalogue has, of the rows in force, those with a name that is neither blank nor a
  -- session alias nor a tone of the chat service: only those, all of those, and none twice, where names
  -- that differ only in the case of letters count as one.
  pub configured_model_specs-Catalog :
      (ms : List ModelMapping)
      → All IsShown (configured_model_specs fold ms)
        × Unique (ids (configured_model_specs fold ms))
        × All (IsCovered (configured_model_specs fold ms)) (shown_mappings ms)
  unfolding configured_model_specs
  configured_model_specs-Catalog ms =
      let (shown, once) = specs_from-IsShown [] (shown_mappings ms) in
      (
        shown,
        once,
        uncover (configured_model_specs fold ms) (shown_mappings ms)
            (specs_from-Covers [] (shown_mappings ms)),
      )

-- With settings that were saved without an error, a model takes some input and gives some output, and
-- the two fill its context window exactly.
pub limits-saved :
    (env : Env) (stored : Bool) (v s : RuntimeSettings)
    → (save env stored v s).1 ≡ none
    → (1 ≤ (configured_model_limits (save env stored v s).0).max_input_tokens)
      × (1 ≤ (configured_model_limits (save env stored v s).0).max_output_tokens)
      × ((configured_model_limits (save env stored v s).0).max_input_tokens
            + (configured_model_limits (save env stored v s).0).max_output_tokens
          ≡ (save env stored v s).0.context_window)
unfolding configured_model_limits
limits-saved env stored v s h =
    let (same, bounded, reachable) = save-IsBounded env stored v s h in
    rw same (limits (get env v) bounded)
  where
    limits :
        (w : RuntimeSettings)
        → IsBounded w
        → (1 ≤ (configured_model_limits w).max_input_tokens)
          × (1 ≤ (configured_model_limits w).max_output_tokens)
          × ((configured_model_limits w).max_input_tokens
                + (configured_model_limits w).max_output_tokens
              ≡ w.context_window)
    limits w b = (ground (arith, b.output), ground (arith, b.output), ground (arith, b.output))
