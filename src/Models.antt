-- ===== src/Models.antt =====
-- The names of the models and of the tones they stand for: `modelTone` and its helpers of
-- internal/web/server.go, and the tables of internal/web/settings.go.
pub mod Catalog
pub mod Tones
pub mod Laws
mod Tests
use m365_copilot2api.Prelude.{
  List, [], ◌∷◌, ◌++◌, Option, none, some, Bool, ◌||◌, not, Text, codes, has_suffix, is_empty,
  trim_space, any, length, take, ◌-◌, text_eq, if◌then◌else◌, false,
}
use m365_copilot2api.Settings.{ModelMapping, is_one_of, known_upstream_tones}

-- `strings.ToLower` and `strings.EqualFold`.
pub record Fold : Type 0 where
  pub lower : Text → Text
  pub equal_fold : Text → Text → Bool

-- The words of the source that are not ASCII.
abbrev auto_zh : Text
auto_zh = 0xe8 ∷ 0x87 ∷ 0xaa ∷ 0xe5 ∷ 0x8a ∷ 0xa8 ∷ []

abbrev fast_zh : Text
fast_zh = 0xe5 ∷ 0xbf ∷ 0xab ∷ 0xe9 ∷ 0x80 ∷ 0x9f ∷ 0xe7 ∷ 0xad ∷ 0x94 ∷ 0xe5 ∷ 0xa4 ∷ 0x8d ∷ []

abbrev pub deep_zh : Text
deep_zh = 0xe6 ∷ 0xb7 ∷ 0xb1 ∷ 0xe5 ∷ 0xba ∷ 0xa6 ∷ 0xe6 ∷ 0x80 ∷ 0x9d ∷ 0xe8 ∷ 0x80 ∷ 0x83 ∷ []

abbrev continuous_zh : Text
continuous_zh = 0xe6 ∷ 0x8c ∷ 0x81 ∷ 0xe7 ∷ 0xbb ∷ 0xad ∷ []

-- A `switch` on a string, each row with the strings of its case and what it returns.
unfoldable pub switch : Text → List (List Text × Text) → Option Text
unfolding any
switch k [] = none
switch k ((keys, v) ∷ rows) = let rest = switch k rows in if is_one_of keys k then some v else rest

abbrev continuous_model_suffixes : List Text
continuous_model_suffixes =
    (codes "-" ++ continuous_zh)
    ∷ (codes "_" ++ continuous_zh)
    ∷ codes "-continuous"
    ∷ codes "_continuous"
    ∷ codes "-persist"
    ∷ codes "_persist"
    ∷ []

-- The first switch of `modelTone`.
abbrev pub product_tones : List (List Text × Text)
product_tones =
    ((codes "Copilot_" ++ auto_zh) ∷ (codes "Copilot-" ++ auto_zh) ∷ [], codes "Magic")
    ∷ ((codes "Copilot_" ++ fast_zh) ∷ (codes "Copilot-" ++ fast_zh) ∷ [], codes "Chat")
    ∷ ((codes "Copilot_" ++ deep_zh) ∷ (codes "Copilot-" ++ deep_zh) ∷ [], codes "Reasoning")
    ∷ []

-- The second switch of `modelTone`.
abbrev pub alias_tones : List (List Text × Text)
alias_tones =
    (
      codes "magic"
          ∷ codes "copilot_auto"
          ∷ codes "copilot-auto"
          ∷ (codes "copilot" ++ auto_zh)
          ∷ codes "auto"
          ∷ [],
      codes "Magic",
    )
    ∷ (
      codes "chat"
          ∷ codes "copilot_fast"
          ∷ codes "copilot-fast"
          ∷ (codes "copilot" ++ fast_zh)
          ∷ codes "fast"
          ∷ [],
      codes "Chat",
    )
    ∷ (
      codes "reasoning"
          ∷ codes "copilot_deep"
          ∷ codes "copilot-deep"
          ∷ (codes "copilot" ++ deep_zh)
          ∷ codes "deep"
          ∷ codes "think-deeper"
          ∷ [],
      codes "Reasoning",
    )
    ∷ (codes "gpt-5.2" ∷ codes "gpt-5.2_chat" ∷ codes "gpt-5.2-chat" ∷ [], codes "Gpt_5_2_Chat")
    ∷ (codes "gpt-5.2-reasoning" ∷ codes "gpt-5.2_reasoning" ∷ [], codes "Gpt_5_2_Reasoning")
    ∷ (codes "gpt-5.3" ∷ [], codes "Gpt_5_3_Chat")
    ∷ (codes "gpt-5.4" ∷ codes "gpt-5.4-quick" ∷ [], codes "Gpt_5_4_Chat")
    ∷ (codes "gpt-5.4-reasoning" ∷ codes "gpt-5.4_reasoning" ∷ [], codes "Gpt_5_4_Reasoning")
    ∷ (codes "gpt-5.5" ∷ codes "gpt-5.5_chat" ∷ codes "gpt-5.5-chat" ∷ [], codes "Gpt_5_5_Chat")
    ∷ (codes "gpt-5.5-reasoning" ∷ codes "gpt-5.5_reasoning" ∷ [], codes "Gpt_5_5_Reasoning")
    ∷ (
      codes "gpt-5.6-reasoning" ∷ codes "gpt-5.6_reasoning" ∷ codes "gpt-5.6" ∷ [],
      codes "Gpt_5_6_Reasoning",
    )
    ∷ (
      codes "claude"
          ∷ codes "claude-sonnet"
          ∷ codes "claude-sonnet-4-6"
          ∷ codes "claude-sonnet-4.6"
          ∷ codes "claude-sonnet4.6"
          ∷ codes "claude-sonnet-4-5"
          ∷ [],
      codes "Claude_Sonnet",
    )
    ∷ (
      codes "claude-sonnet-reasoning"
          ∷ codes "claude-sonnet-4-5_reasoning"
          ∷ codes "claude-sonnet-4-5-reasoning"
          ∷ codes "claude-sonnet_reasoning"
          ∷ [],
      codes "Claude_Sonnet_Reasoning",
    )
    ∷ (
      codes "claude-fable"
          ∷ codes "claude-fable-5"
          ∷ codes "claude-fable5"
          ∷ codes "fable"
          ∷ codes "fable-5"
          ∷ [],
      codes "Claude_Fable",
    )
    ∷ (codes "gpt-5.3-think-deeper" ∷ [], codes "Gpt_5_3_Chat")
    ∷ (codes "quick" ∷ [], codes "Gpt_Quick")
    ∷ []

-- The tones that `modelTone` takes as they are.
abbrev pub upstream_tones : List Text
upstream_tones =
    codes "Magic"
    ∷ codes "Chat"
    ∷ codes "Reasoning"
    ∷ codes "Gpt_5_2_Chat"
    ∷ codes "Gpt_5_2_Reasoning"
    ∷ codes "Gpt_5_3_Chat"
    ∷ codes "Gpt_5_3_Reasoning"
    ∷ codes "Gpt_5_4_Chat"
    ∷ codes "Gpt_5_4_Reasoning"
    ∷ codes "Gpt_5_5_Chat"
    ∷ codes "Gpt_5_5_Reasoning"
    ∷ codes "Gpt_5_6_Reasoning"
    ∷ codes "Gpt_Quick"
    ∷ codes "Gpt_Reasoning"
    ∷ codes "Claude_Sonnet"
    ∷ codes "Claude_Sonnet_Reasoning"
    ∷ codes "Claude_Fable"
    ∷ []

-- `defaultModelMappings`, row by row.
abbrev mapping : Text → Text → Text → Text → ModelMapping
mapping model tone name level = record {
  public_model = model;
  upstream_tone = tone;
  display_name = name;
  default_reasoning_level = level;
}

abbrev pub default_model_mappings : List ModelMapping
default_model_mappings =
    mapping (codes "Copilot_" ++ auto_zh) (codes "Magic") (codes "Copilot " ++ auto_zh)
      (codes "medium")
    ∷ mapping (codes "Copilot_" ++ fast_zh) (codes "Chat") (codes "Copilot " ++ fast_zh)
        (codes "low")
    ∷ mapping (codes "Copilot_" ++ deep_zh) (codes "Reasoning") (codes "Copilot " ++ deep_zh)
        (codes "high")
    ∷ mapping (codes "claude-sonnet-4-6") (codes "Claude_Sonnet") (codes "Claude Sonnet 4.6")
        (codes "medium")
    ∷ mapping (codes "claude-sonnet-4-5_Reasoning") (codes "Claude_Sonnet_Reasoning")
        (codes "Claude Sonnet Reasoning") (codes "high")
    ∷ mapping (codes "claude-fable-5") (codes "Claude_Fable") (codes "Claude Fable 5")
        (codes "medium")
    ∷ mapping (codes "gpt-5.6_Reasoning") (codes "Gpt_5_6_Reasoning") (codes "GPT-5.6 Reasoning")
        (codes "high")
    ∷ mapping (codes "gpt-5.5_Chat") (codes "Gpt_5_5_Chat") (codes "GPT-5.5 Chat") (codes "low")
    ∷ mapping (codes "gpt-5.5_Reasoning") (codes "Gpt_5_5_Reasoning") (codes "GPT-5.5 Reasoning")
        (codes "high")
    ∷ mapping (codes "gpt-5.2_Chat") (codes "Gpt_5_2_Chat") (codes "GPT-5.2 Chat") (codes "low")
    ∷ mapping (codes "gpt-5.2_Reasoning") (codes "Gpt_5_2_Reasoning") (codes "GPT-5.2 Reasoning")
        (codes "high")
    ∷ mapping (codes "gpt-5.6-sol") (codes "Gpt_5_6_Reasoning") (codes "GPT-5.6-Sol") (codes "low")
    ∷ mapping (codes "gpt-5.6-terra") (codes "Gpt_5_6_Reasoning") (codes "GPT-5.6-Terra")
        (codes "medium")
    ∷ mapping (codes "gpt-5.6-luna") (codes "Gpt_5_6_Reasoning") (codes "GPT-5.6-Luna")
        (codes "medium")
    ∷ []

-- `isRawUpstreamToneID`, whose names are those of `knownUpstreamTones`.
unfoldable pub is_raw_upstream_tone_id : Text → Bool
unfolding any
is_raw_upstream_tone_id model = is_one_of known_upstream_tones (trim_space model)

module _ (fold : Fold) where
  -- The loop of `stripContinuousModelSuffix`. A lowered text ends in one of the suffixes only where the
  -- text has as many bytes, since they are lower case already.
  strip_first : Text → List Text → Text
  strip_first model [] = model
  strip_first model (s ∷ ss) =
      let rest = strip_first model ss in
      if has_suffix model s || has_suffix (fold.lower model) (fold.lower s)
      then trim_space (take (length model - length s) model)
      else rest

  unfoldable pub strip_continuous_model_suffix : Text → Text
  unfolding strip_first
  strip_continuous_model_suffix model = strip_first (trim_space model) continuous_model_suffixes

  unfoldable pub is_continuous_model_alias : Text → Bool
  unfolding strip_continuous_model_suffix
  is_continuous_model_alias model =
      let m = trim_space model in
      if is_empty m then false else not (text_eq (strip_continuous_model_suffix m) m)

  -- `modelTone`.
  unfoldable pub model_tone : Text → Text
  unfolding strip_continuous_model_suffix switch any
  model_tone model =
      let normalized = strip_continuous_model_suffix (trim_space model) in
      elim (switch normalized product_tones) [
        | some tone ↦ tone
        | none ↦ elim (switch (fold.lower normalized) alias_tones) [
          | some tone ↦ tone
          | none ↦ if is_one_of upstream_tones normalized then normalized else codes "Magic"
        ]
      ]
