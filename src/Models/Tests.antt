-- ===== src/Models/Tests.antt =====
-- Models and tones by name, for internal/web/server.go and internal/web/codex_catalog.go.

use m365_copilot2api.Proxy.Registry.{new_route}
use m365_copilot2api.Models.Tones.{IsUpstream, model_tone-IsUpstream}
use m365_copilot2api.Models.Catalog.{
  normalize_reasoning_effort, reasoning_tone, is_light, configured_model_tone, is_explicit,
  deepened,
}
use m365_copilot2api.Models.{Fold, default_model_mappings, model_tone}
use m365_copilot2api.Prelude.{
  ◌≡◌, refl, ◌+◌, ◌&&◌, List, [], ◌∷◌, map, true, false, none, some, Text, codes, leb,
  if◌then◌else◌, text_eq, trim_space, has_suffix, contains,
}
use m365_copilot2api.Settings.{ModelMapping, Env, RuntimeSettings, save}

abbrev lowered : Text → Text
lowered s = map (λ b. if leb 65 b && leb b 90 then b + 32 else b) s

abbrev fold : Fold
fold = record { lower = lowered; equal_fold = λ a b. text_eq (lowered a) (lowered b) }

-- A request for Claude with a high effort is answered by another model.
claude_becomes_gpt :
    reasoning_tone fold default_model_mappings (codes "claude-sonnet-4-5") (codes "high")
    ≡ some (codes "Gpt_Reasoning")
unfolding reasoning_tone normalize_reasoning_effort trim_space text_eq configured_model_tone
    has_suffix deepened is_explicit contains model_tone is_light
claude_becomes_gpt = refl

claude_without_effort :
    reasoning_tone fold default_model_mappings (codes "claude-sonnet-4-5") []
    ≡ some (codes "Claude_Sonnet")
unfolding reasoning_tone normalize_reasoning_effort trim_space configured_model_tone text_eq
    has_suffix deepened is_explicit contains model_tone is_light
claude_without_effort = refl

model_tone-IsUpstream_example : IsUpstream (model_tone fold (codes " Claude-Fable-continuous"))
model_tone-IsUpstream_example = model_tone-IsUpstream fold (codes " Claude-Fable-continuous")

deeper : reasoning_tone fold [] (codes "gpt-5.2") (codes "high") ≡ some (codes "Gpt_5_2_Reasoning")
unfolding reasoning_tone normalize_reasoning_effort trim_space text_eq configured_model_tone
    deepened is_explicit contains has_suffix model_tone is_light
deeper = refl

abbrev row : Text → ModelMapping
row name = record {
  public_model = name;
  upstream_tone = codes "Magic";
  display_name = [];
  default_reasoning_level = [];
}

abbrev rows : List ModelMapping
rows = row (codes "One") ∷ row (codes "one ") ∷ row (codes "Chat") ∷ row (codes "one-persist") ∷ []

abbrev env : Env
env = record {
  lower = lowered;
  public_model_id = λ s. true;
  custom_tone = λ s. false;
  net = record { parse = λ v. none; socks5 = λ u. false };
}

abbrev settings : RuntimeSettings
settings = record {
  max_tool_calls_per_turn = 4;
  max_tool_rounds = 16;
  context_window = 128000;
  max_output_tokens = 16384;
  chat_timeout_seconds = 120;
  image_timeout_seconds = 150;
  log_level = codes "info";
  outbound_proxy = [];
  proxy_pool = [];
  model_mappings = [];
}

stored_well : (save env true settings settings).1 ≡ none
unfolding save trim_space text_eq new_route
stored_well = refl
