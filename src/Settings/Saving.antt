-- ===== src/Settings/Saving.antt =====
-- What `save` of internal/web/settings.go lets through.
use m365_copilot2api.Prelude.{
  ◌≡◌, ◌↔◌, ◌⊎◌, ◌≤◌, ◌<◌, List, [], ◌∷◌, none, Bool, true, Text, trim_space, arith, All, ok,
}
use m365_copilot2api.Proxy.Registry.{Net, new_route, Route}
use m365_copilot2api.Settings.{
  Env, RuntimeSettings, check_numbers, check_proxies, validate_settings, get, save,
}

-- The numbers of valid settings.
pub record IsBounded (v : RuntimeSettings) : Type 0 where
  pub calls : (1 ≤ v.max_tool_calls_per_turn) × (v.max_tool_calls_per_turn ≤ 64)
  pub rounds : (1 ≤ v.max_tool_rounds) × (v.max_tool_rounds ≤ 512)
  pub output : (1 ≤ v.max_output_tokens) × (v.max_output_tokens < v.context_window)
  pub window : 1024 ≤ v.context_window
  pub chat : (5 ≤ v.chat_timeout_seconds) × (v.chat_timeout_seconds ≤ 3600)
  pub image : (5 ≤ v.image_timeout_seconds) × (v.image_timeout_seconds ≤ 3600)

check_numbers-IsBounded : (v : RuntimeSettings) → check_numbers v ≡ none → IsBounded v
unfolding check_numbers
check_numbers-IsBounded v h = record {
  calls = (ground arith, ground arith);
  rounds = (ground arith, ground arith);
  output = (ground arith, ground arith);
  window = ground arith;
  chat = (ground arith, ground arith);
  image = (ground arith, ground arith);
}

-- The URL is one that `New` accepts.
abbrev pub Reachable : Net → Text → Type 0
Reachable net v = (r : Route) × (new_route net (trim_space v) ≡ ok r)

check_proxies-Reachable :
    (net : Net) (vs : List Text) → check_proxies net vs ≡ none → All (Reachable net) vs
unfolding check_proxies
check_proxies-Reachable net [] h = tt
check_proxies-Reachable net (v ∷ vs) h = ground (arith, check_proxies-Reachable net vs)

validated :
    (env : Env) (v : RuntimeSettings)
    → validate_settings env v ≡ none
    → (check_numbers v ≡ none) × (check_proxies env.net v.proxy_pool ≡ none)
unfolding validate_settings
validated env v h = ground arith

-- Settings that are saved without an error have their numbers in range, an output below the context
-- window and only proxies that `New` accepts, and they are what was given, with the catalogue cleaned.
pub save-IsBounded :
    (env : Env) (stored : Bool) (v s : RuntimeSettings)
    → (save env stored v s).1 ≡ none
    → ((save env stored v s).0 ≡ get env v)
      × IsBounded (get env v)
      × All (Reachable env.net) (get env v).proxy_pool
unfolding save
save-IsBounded env stored v s h =
    let valid : validate_settings env (get env v) ≡ none = ground arith in
    let (numbers, proxies) = validated env (get env v) valid in
    (
      ground arith,
      check_numbers-IsBounded (get env v) numbers,
      check_proxies-Reachable env.net _ proxies,
    )

-- Saving succeeds exactly if the settings with the cleaned catalogue are valid and the file could be
-- written; and where it fails the settings in force stay as they were.
pub save-none_iff :
    (env : Env) (stored : Bool) (v s : RuntimeSettings)
    → (((save env stored v s).1 ≡ none)
        ↔ ((validate_settings env (get env v) ≡ none) × (stored ≡ true)))
      × (((save env stored v s).1 ≡ none) ⊎ ((save env stored v s).0 ≡ s))
unfolding save
save-none_iff env stored v s = (ground arith, ground arith)
