-- ===== src/Models/Catalog.antt =====
-- The catalogue of models that `/v1/models` shows, and the tone of a request: internal/web/codex_catalog.go.
use m365_copilot2api.Prelude.{
  ℕ, ◌-◌, ◌/◌, List, [], ◌∷◌, Option, none, some, Bool, ◌||◌, not, Text, codes, contains, is_empty,
  trim_space, any, leb, ltb, text_eq, if◌then◌else◌, ◌&&◌,
}
use m365_copilot2api.Settings.{ModelMapping, RuntimeSettings, is_one_of}
use m365_copilot2api.Models.{
  Fold, switch, strip_continuous_model_suffix, is_continuous_model_alias, is_raw_upstream_tone_id,
  default_model_mappings, model_tone, deep_zh,
}

-- `modelSpec`; `Tools` is always set.
pub record ModelSpec : Type 0 where
  pub id : Text
  pub owner : Text
  pub display_name : Text
  pub default_reasoning_level : Text

pub record ModelLimits : Type 0 where
  pub context_window : ℕ
  pub max_input_tokens : ℕ
  pub max_output_tokens : ℕ

-- `configuredModelLimits`.
unfoldable pub configured_model_limits : RuntimeSettings → ModelLimits
configured_model_limits cfg =
    let window = cfg.context_window in
    let output =
      (if leb window cfg.max_output_tokens
        then (if ltb (window / 8) 1 then 1 else window / 8)
        else cfg.max_output_tokens) in
    record {
      context_window = window;
      max_input_tokens = window - output;
      max_output_tokens = output;
    }

-- The text, or the other one if it is empty.
abbrev pub or_text : Text → Text → Text
or_text [] t = t
or_text (b ∷ s) t = b ∷ s

-- The effort asks for no more than the tone gives.
unfoldable pub is_light : Text → Bool
unfolding any
is_light e = is_empty e || is_one_of (codes "none" ∷ codes "minimal" ∷ codes "low" ∷ []) e

-- The last switch of `reasoningTone`.
abbrev pub deeper_tones : List (List Text × Text)
deeper_tones =
    (
      codes "claude"
          ∷ codes "claude-sonnet"
          ∷ codes "claude-sonnet-4-6"
          ∷ codes "claude-sonnet-4.6"
          ∷ codes "claude-sonnet4.6"
          ∷ [],
      codes "Claude_Sonnet_Reasoning",
    )
    ∷ (
      codes "gpt-5.2" ∷ codes "gpt-5.2_chat" ∷ codes "gpt-5.2-chat" ∷ [],
      codes "Gpt_5_2_Reasoning",
    )
    ∷ (codes "gpt-5.3" ∷ [], codes "Gpt_5_3_Reasoning")
    ∷ (codes "gpt-5.4" ∷ [], codes "Gpt_5_4_Reasoning")
    ∷ (
      codes "gpt-5.5" ∷ codes "gpt-5.5_chat" ∷ codes "gpt-5.5-chat" ∷ [],
      codes "Gpt_5_5_Reasoning",
    )
    ∷ (codes "gpt-5.6" ∷ [], codes "Gpt_5_6_Reasoning")
    ∷ []

abbrev pub is_product : Text → Bool
is_product tone = text_eq tone (codes "Magic") || text_eq tone (codes "Chat")

-- The rows that `configuredModelSpecs` reads.
abbrev pub shown_mappings : List ModelMapping → List ModelMapping
shown_mappings [] = default_model_mappings
shown_mappings (m ∷ ms) = m ∷ ms

module _ (fold : Fold) where
  unfoldable pub model_owner_for_id : Text → Text
  model_owner_for_id id =
      let l = fold.lower (trim_space id) in
      if contains l (codes "claude") || contains l (codes "fable")
      then codes "anthropic-via-microsoft-365"
      else codes "microsoft-365"

  unfoldable pub configured_model_mapping : Text → List ModelMapping → Option ModelMapping
  unfolding strip_continuous_model_suffix
  configured_model_mapping model [] = none
  configured_model_mapping model (m ∷ ms) =
      let rest = configured_model_mapping model ms in
      let want = fold.lower (strip_continuous_model_suffix fold (trim_space model)) in
      let name = trim_space m.public_model in
      if fold.equal_fold name want || fold.equal_fold name (trim_space model) then some m else rest

  unfoldable pub configured_model_tone : Text → List ModelMapping → Option Text
  unfolding configured_model_mapping
  configured_model_tone model ms = elim (configured_model_mapping model ms) [
    | none ↦ none
    | some m ↦ some m.upstream_tone
  ]

  -- The row is not shown: it has no name, or that of a session alias or of a tone.
  unfoldable pub is_hidden : ModelMapping → Bool
  unfolding is_continuous_model_alias is_raw_upstream_tone_id
  is_hidden m =
      let id = trim_space m.public_model in
      is_empty id || is_continuous_model_alias fold id || is_raw_upstream_tone_id id

  unfoldable pub spec_of : ModelMapping → ModelSpec
  unfolding model_owner_for_id
  spec_of m =
      let id = trim_space m.public_model in
      record {
        id = id;
        owner = model_owner_for_id id;
        display_name = or_text (trim_space m.display_name) id;
        default_reasoning_level = or_text (trim_space m.default_reasoning_level) (codes "medium");
      }

  -- The loop of `configuredModelSpecs`.
  unfoldable pub specs_from : List Text → List ModelMapping → List ModelSpec
  unfolding is_hidden spec_of any
  specs_from seen [] = []
  specs_from seen (m ∷ ms) =
      let key = fold.lower (trim_space m.public_model) in
      let skip = specs_from seen ms in
      let more = specs_from (key ∷ seen) ms in
      if is_hidden m || is_one_of seen key then skip else spec_of m ∷ more

  unfoldable pub configured_model_specs : List ModelMapping → List ModelSpec
  unfolding specs_from
  configured_model_specs ms = specs_from [] (shown_mappings ms)

  -- `normalizeReasoningEffort`; `none` is the error.
  unfoldable pub normalize_reasoning_effort : Text → Option Text
  unfolding any
  normalize_reasoning_effort effort =
      let e = fold.lower (trim_space effort) in
      if is_empty e
      then some []
      else if is_one_of
          (codes "none"
            ∷ codes "minimal"
            ∷ codes "low"
            ∷ codes "medium"
            ∷ codes "high"
            ∷ codes "xhigh"
            ∷ [])
          e
      then some e
      else none

  -- The model names a reasoning route itself.
  unfoldable pub is_explicit : Text → Bool
  is_explicit model =
      let raw = trim_space model in
      let normalized = fold.lower (strip_continuous_model_suffix fold raw) in
      contains normalized (codes "reasoning")
      || contains raw deep_zh
      || contains normalized deep_zh
      || is_one_of (codes "claude-fable" ∷ codes "claude-fable-5" ∷ codes "claude-fable5" ∷ [])
          normalized
      || is_one_of (codes "Claude_Fable" ∷ codes "Reasoning" ∷ []) (model_tone fold model)

  -- The tone of a model that has no row, at a known effort.
  unfoldable pub deepened : Text → Text → Text
  deepened model e =
      let base = model_tone fold model in
      let normalized = fold.lower (strip_continuous_model_suffix fold (trim_space model)) in
      if is_explicit model || is_light e
      then base
      else if is_product base
      then codes "Reasoning"
      else elim (switch normalized deeper_tones) [ some tone ↦ tone | none ↦ codes "Gpt_Reasoning" ]

  -- `reasoningTone`; `none` is the error.
  unfoldable pub reasoning_tone : List ModelMapping → Text → Text → Option Text
  reasoning_tone ms model effort = elim (normalize_reasoning_effort effort) [
    | none ↦ none
    | some e ↦ elim (configured_model_tone model ms) [
      | some tone ↦
          if is_product tone && not (is_light e) then some (codes "Reasoning") else some tone
      | none ↦ some (deepened model e)
    ]
  ]
