-- ===== src/Settings/Tests.antt =====
-- Settings with one model, for internal/web/settings.go.
use m365_copilot2api.Prelude.{
  ◌≡◌, ◌↔◌, ◌⊎◌, refl, [], ◌∷◌, none, true, false, codes, List, All, trim_space, text_eq, Any,
}
use m365_copilot2api.Proxy.Registry.{new_route}
use m365_copilot2api.Settings.{
  Env, ModelMapping, RuntimeSettings, get, save, validate_settings, sanitize_model_mappings,
}
use m365_copilot2api.Settings.Catalog.{First, Trims, Unique, keys, sanitize_model_mappings-Unique}
use m365_copilot2api.Settings.Saving.{save-none_iff}

abbrev env : Env
env = record {
  lower = λ s. s;
  public_model_id = λ s. true;
  custom_tone = λ s. false;
  net = record { parse = λ v. none; socks5 = λ u. false };
}

abbrev row : ModelMapping
row = record {
  public_model = codes " auto";
  upstream_tone = codes "Magic";
  display_name = codes "Auto ";
  default_reasoning_level = codes "low";
}

abbrev rows : List ModelMapping
rows = row ∷ record row { display_name = [] } ∷ row ∷ []

abbrev settings : RuntimeSettings
settings = record {
  max_tool_calls_per_turn = 1;
  max_tool_rounds = 16;
  context_window = 128000;
  max_output_tokens = 16384;
  chat_timeout_seconds = 120;
  image_timeout_seconds = 150;
  log_level = codes "info";
  outbound_proxy = [];
  proxy_pool = [];
  model_mappings = rows;
}

sanitize_model_mappings-Unique_example :
    All
      (λ m. (raw : ModelMapping) × First env raw rows × Trims raw m)
      (sanitize_model_mappings env rows)
    × ((raw : ModelMapping)
        → First env raw rows
        → Any (Trims raw) (sanitize_model_mappings env rows))
    × Unique (keys env (sanitize_model_mappings env rows))
sanitize_model_mappings-Unique_example = sanitize_model_mappings-Unique env rows

saved : (save env true settings (record settings { max_tool_rounds = 8 })).1 ≡ none
unfolding save trim_space text_eq new_route
saved = refl

save-none_iff_example :
    (((save env false settings settings).1 ≡ none)
      ↔ ((validate_settings env (get env settings) ≡ none) × (false ≡ true)))
    × (((save env false settings settings).1 ≡ none)
        ⊎ ((save env false settings settings).0 ≡ settings))
save-none_iff_example = save-none_iff env false settings settings
