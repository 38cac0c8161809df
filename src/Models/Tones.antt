-- ===== src/Models/Tones.antt =====
-- Which tone a request gets: `modelTone` of internal/web/server.go and `reasoningTone` of
-- internal/web/codex_catalog.go.
use m365_copilot2api.Prelude.{
  ◌≡◌, ◌⊎◌, inl, inr, refl, sym, List, [], ◌∷◌, none, some, Bool, true, false, ◌||◌, ◌&&◌, not,
  Text, codes, text_eq, trim_space, any, arith, Option-cases, Bool-cases, subst, all, ◌∙◌,
}
use mathlib.Core.Option.{some-injective, some-ne-none}
use m365_copilot2api.Settings.{ModelMapping, is_one_of}
use m365_copilot2api.Models.{
  Fold, switch, product_tones, alias_tones, upstream_tones, strip_continuous_model_suffix,
  model_tone,
}
use m365_copilot2api.Models.Catalog.{
  configured_model_tone, normalize_reasoning_effort, is_light, is_explicit, is_product,
  deeper_tones, deepened, reasoning_tone,
}

-- What a switch returns has a property that the values of all its rows have.
switch-all :
    (p : Text → Bool) (k : Text) (rows : List (List Text × Text)) (v : Text)
    → all (λ (r : List Text × Text). p r.1) rows ≡ true
    → switch k rows ≡ some v
    → p v ≡ true
unfolding switch all
switch-all p k [] v a h = cc
switch-all p k ((keys, w) ∷ rows) v a h = elim (Bool-cases (is_one_of keys k)) [
  | inl hit ↦ subst (λ (x : Text). p x ≡ true) {x = w} (ground arith) (ground (arith, a))
  | inr miss ↦ switch-all p k rows v (ground arith) (ground arith)
]

-- The tone is one that the chat service knows.
abbrev pub IsUpstream : Text → Type 0
IsUpstream t = is_one_of upstream_tones t ≡ true

module _ (fold : Fold) where
  -- Whatever name a client gives, the tone is one of those that the chat service knows.
  pub model_tone-IsUpstream : (model : Text) → IsUpstream (model_tone fold model)
  unfolding model_tone any all text_eq
  model_tone-IsUpstream model = elim (Option-cases (switch normalized product_tones)) [
    | inr (t, hit) ↦
        rw (hit, model_tone)
          (switch-all (is_one_of upstream_tones) normalized product_tones t refl hit)
    | inl miss ↦ elim (Option-cases (switch (fold.lower normalized) alias_tones)) [
      | inr (t, hit) ↦
          rw (miss, hit, model_tone)
            (switch-all (is_one_of upstream_tones) (fold.lower normalized) alias_tones t refl hit)
      | inl unlisted ↦ elim (Bool-cases (is_one_of upstream_tones normalized)) [
        | inl known ↦ rw (miss, unlisted, known, model_tone) known
        | inr other ↦ rw (miss, unlisted, other, model_tone) refl
      ]
    ]
  ]
    where
      normalized : Text
      normalized = strip_continuous_model_suffix fold (trim_space model)

abbrev pub deep_tones : List Text
deep_tones =
    codes "Reasoning"
    ∷ codes "Claude_Sonnet_Reasoning"
    ∷ codes "Gpt_5_2_Reasoning"
    ∷ codes "Gpt_5_3_Reasoning"
    ∷ codes "Gpt_5_4_Reasoning"
    ∷ codes "Gpt_5_5_Reasoning"
    ∷ codes "Gpt_5_6_Reasoning"
    ∷ codes "Gpt_Reasoning"
    ∷ []

-- A tone of thorough reasoning.
abbrev pub IsDeep : Text → Type 0
IsDeep t = is_one_of deep_tones t ≡ true

reasoning-IsDeep : IsDeep (codes "Reasoning")
unfolding any text_eq
reasoning-IsDeep = refl

module _ (fold : Fold) where
  -- The tone of the model whatever the effort: that of its row, or that of its name.
  abbrev pub base_tone : List ModelMapping → Text → Text
  base_tone ms model = elim (configured_model_tone fold model ms) [
    | none ↦ model_tone fold model
    | some t ↦ t
  ]

  deepened-cases :
      (model e : Text)
      → (deepened fold model e ≡ model_tone fold model)
        ⊎ ((is_light e ≡ false) × IsDeep (deepened fold model e) × (is_explicit fold model ≡ false))
  unfolding deepened any text_eq all
  deepened-cases model e = elim (Bool-cases (is_explicit fold model || is_light e)) [
    | inl keeps ↦ inl (rw (keeps, deepened) refl)
    | inr lifts ↦ inr (ground arith, deep lifts, ground arith)
  ]
    where
      key : Text
      key = fold.lower (strip_continuous_model_suffix fold (trim_space model))

      deep : (is_explicit fold model || is_light e) ≡ false → IsDeep (deepened fold model e)
      deep lifts = elim (Bool-cases (is_product (model_tone fold model))) [
        | inl product ↦ rw (lifts, product, deepened) refl
        | inr other ↦ elim (Option-cases (switch key deeper_tones)) [
          | inl miss ↦ rw (lifts, other, miss, deepened) refl
          | inr (t, hit) ↦
              rw (lifts, other, hit, deepened)
                (switch-all (is_one_of deep_tones) key deeper_tones t refl hit)
        ]
      ]

  -- A request that is not refused gets the tone of its model, or a tone of thorough reasoning where the
  -- effort is medium or more; and unless the tone of its model is that of a product, a model with a
  -- configured row, or whose name stands for such a tone, keeps its own.
  pub reasoning_tone-cases :
      (ms : List ModelMapping) (model effort tone : Text)
      → reasoning_tone fold ms model effort ≡ some tone
      → (e : Text) × (normalize_reasoning_effort fold effort ≡ some e)
        × ((tone ≡ base_tone ms model) ⊎ ((is_light e ≡ false) × IsDeep tone))
        × ((is_product (base_tone ms model) ≡ true)
            ⊎ (tone ≡ base_tone ms model)
            ⊎ ((configured_model_tone fold model ms ≡ none) × (is_explicit fold model ≡ false)))
  unfolding reasoning_tone
  reasoning_tone-cases ms model effort tone h =
      elim (Option-cases (normalize_reasoning_effort fold effort)) [
        | inl refused ↦ absurd (some-ne-none tone (sym (rw (refused, reasoning_tone) at h)))
        | inr (e, good) ↦ elim (Option-cases (configured_model_tone fold model ms)) [
          | inl bare ↦
              let at : deepened fold model e ≡ tone =
                some-injective _ _ (rw (good, bare, reasoning_tone) at h) in
              let base : base_tone ms model ≡ model_tone fold model = rw (bare, base_tone) refl in
              elim (deepened-cases model e) [
                | inl same ↦
                    (e, good, inl (sym at ∙ same ∙ sym base), inr (inl (sym at ∙ same ∙ sym base)))
                | inr (heavy, deep, implicit) ↦
                    (e, good, inr (heavy, subst IsDeep at deep), inr (inr (bare, implicit)))
              ]
          | inr (t, row) ↦
              let base : base_tone ms model ≡ t = rw (row, base_tone) refl in
              elim (Bool-cases (is_product t && not (is_light e))) [
                | inl lifts ↦
                    let at : codes "Reasoning" ≡ tone =
                      some-injective _ _ (rw (good, row, lifts, reasoning_tone) at h) in
                    (
                      e,
                      good,
                      inr (ground arith, subst IsDeep at reasoning-IsDeep),
                      inl (rw base (ground arith)),
                    )
                | inr keeps ↦
                    let at : t ≡ tone =
                      some-injective _ _ (rw (good, row, keeps, reasoning_tone) at h) in
                    (e, good, inl (sym at ∙ sym base), inr (inl (sym at ∙ sym base)))
              ]
        ]
      ]
