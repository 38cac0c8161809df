-- ===== src/Settings.antt =====
-- internal/web/settings.go: the runtime settings, with `normalizeReasoningEffort` and
-- `validUpstreamTone` of internal/web/codex_catalog.go. A negative number, which validation refuses as
-- it refuses 0, is read as 0.
pub mod Catalog
pub mod Saving
mod Tests
use m365_copilot2api.Prelude.{
  ℕ, ◌≤◌, List, [], ◌∷◌, Option, none, some, Bool, true, false, ◌&&◌, ◌||◌, not, Text, text_eq,
  codes, is_empty, trim_space, any, ltb, leb, if◌then◌else◌, Result, ok, err,
}
use m365_copilot2api.Proxy.Registry.{Net, ProxyError, new_route}

pub record ModelMapping : Type 0 where
  pub public_model : Text
  pub upstream_tone : Text
  pub display_name : Text
  pub default_reasoning_level : Text

-- `strings.ToLower`, the expression `publicModelID`, `chathub.ValidCustomToneID`, whose letters are
-- those of package unicode, and what the check of a proxy's URL needs.
pub record Env : Type 0 where
  pub lower : Text → Text
  pub public_model_id : Text → Bool
  pub custom_tone : Text → Bool
  pub net : Net

-- The fields that the validation reads.
pub record RuntimeSettings : Type 0 where
  pub max_tool_calls_per_turn : ℕ
  pub max_tool_rounds : ℕ
  pub context_window : ℕ
  pub max_output_tokens : ℕ
  pub chat_timeout_seconds : ℕ
  pub image_timeout_seconds : ℕ
  pub log_level : Text
  pub outbound_proxy : Text
  pub proxy_pool : List Text
  pub model_mappings : List ModelMapping

abbrev pub is_one_of : List Text → Text → Bool
is_one_of names s = any (λ n. text_eq n s) names

-- `normalizeReasoningEffort` gives no error.
unfoldable pub is_reasoning_effort : Env → Text → Bool
unfolding any
is_reasoning_effort env e =
    let l = env.lower (trim_space e) in
    is_empty l
    || is_one_of
        (codes "none"
          ∷ codes "minimal"
          ∷ codes "low"
          ∷ codes "medium"
          ∷ codes "high"
          ∷ codes "xhigh"
          ∷ [])
        l

abbrev pub known_upstream_tones : List Text
known_upstream_tones =
    codes "Magic"
    ∷ codes "Chat"
    ∷ codes "Reasoning"
    ∷ codes "Gpt_5_2_Chat"
    ∷ codes "Gpt_5_2_Reasoning"
    ∷ codes "Gpt_5_3_Chat"
    ∷ codes "Gpt_5_3_Reasoning"
    ∷ codes "Gpt_5_4_Chat"
    ∷ codes "Gpt_5_4_Reasoning"
    ∷ codes "Gpt_5_5_Chat"
    ∷ codes "Gpt_5_5_Reasoning"
    ∷ codes "Gpt_5_6_Reasoning"
    ∷ codes "Gpt_Quick"
    ∷ codes "Gpt_Reasoning"
    ∷ codes "Claude_Sonnet"
    ∷ codes "Claude_Sonnet_Reasoning"
    ∷ codes "Claude_Fable"
    ∷ codes "magic"
    ∷ []

unfoldable pub valid_upstream_tone : Env → Text → Bool
unfolding any
valid_upstream_tone env tone =
    let t = trim_space tone in is_one_of known_upstream_tones t || env.custom_tone t

-- The row with its texts trimmed.
unfoldable pub trimmed : ModelMapping → ModelMapping
trimmed m = record {
  public_model = trim_space m.public_model;
  upstream_tone = trim_space m.upstream_tone;
  display_name = trim_space m.display_name;
  default_reasoning_level = trim_space m.default_reasoning_level;
}

-- The row passes the tests of `sanitizeModelMappings` but that for repetition.
unfoldable pub is_complete : Env → ModelMapping → Bool
unfolding is_reasoning_effort valid_upstream_tone
is_complete env m =
    not (is_empty (trim_space m.public_model))
    && not (is_empty (trim_space m.upstream_tone))
    && not (is_empty (trim_space m.display_name))
    && (is_reasoning_effort env m.default_reasoning_level
        && not (is_empty (trim_space m.default_reasoning_level)))
    && valid_upstream_tone env (trim_space m.upstream_tone)

-- The loop of `sanitizeModelMappings`; `seen` are the keys so far.
unfoldable pub sanitize_from : Env → List Text → List ModelMapping → List ModelMapping
unfolding trimmed is_complete any
sanitize_from env seen [] = []
sanitize_from env seen (m ∷ ms) =
    let key = env.lower (trim_space m.public_model) in
    let skip = sanitize_from env seen ms in
    let more = sanitize_from env (key ∷ seen) ms in
    if is_one_of seen key || not (is_complete env m) then skip else trimmed m ∷ more

unfoldable pub sanitize_model_mappings : Env → List ModelMapping → List ModelMapping
unfolding sanitize_from
sanitize_model_mappings env ms = sanitize_from env [] ms

pub data SettingsError : Type 0 where
  tool_calls_range tool_rounds_range context_too_small output_range chat_timeout_range :
      SettingsError
  image_timeout_range bad_log_level : SettingsError
  bad_proxy : ProxyError → SettingsError
  bad_model_id no_display_name bad_reasoning_level no_tone bad_tone repeated_model :
      Text → SettingsError
  not_stored : SettingsError

-- The loop over the proxies.
unfoldable pub check_proxies : Net → List Text → Option SettingsError
check_proxies net [] = none
check_proxies net (v ∷ vs) =
    let rest = check_proxies net vs in
    elim (new_route net (trim_space v)) [ err e ↦ some (bad_proxy e) | ok r ↦ rest ]

-- The loop over the rows of the catalogue.
unfoldable pub check_mappings : Env → List Text → List ModelMapping → Option SettingsError
unfolding is_reasoning_effort valid_upstream_tone any
check_mappings env seen [] = none
check_mappings env seen (m ∷ ms) =
    let model = trim_space m.public_model in
    let key = env.lower model in
    let tone = trim_space m.upstream_tone in
    let skip = check_mappings env seen ms in
    let rest = check_mappings env (key ∷ seen) ms in
    if is_empty model
    then skip
    else if not (env.public_model_id model)
    then some (bad_model_id model)
    else if is_one_of seen key
    then some (repeated_model model)
    else if is_empty tone
    then some (no_tone model)
    else if not (valid_upstream_tone env tone)
    then some (bad_tone tone)
    else if is_empty (trim_space m.display_name)
    then some (no_display_name model)
    else if not (is_reasoning_effort env m.default_reasoning_level)
        || is_empty (trim_space m.default_reasoning_level)
    then some (bad_reasoning_level model)
    else rest

-- The tests of the numbers and of the log level.
unfoldable pub check_numbers : RuntimeSettings → Option SettingsError
unfolding any
check_numbers v =
    if ltb v.max_tool_calls_per_turn 1 || ltb 64 v.max_tool_calls_per_turn
    then some tool_calls_range
    else if ltb v.max_tool_rounds 1 || ltb 512 v.max_tool_rounds
    then some tool_rounds_range
    else if ltb v.context_window 1024
    then some context_too_small
    else if ltb v.max_output_tokens 1 || leb v.context_window v.max_output_tokens
    then some output_range
    else if ltb v.chat_timeout_seconds 5 || ltb 3600 v.chat_timeout_seconds
    then some chat_timeout_range
    else if ltb v.image_timeout_seconds 5 || ltb 3600 v.image_timeout_seconds
    then some image_timeout_range
    else if not (
        is_one_of
          (codes "silent" ∷ codes "error" ∷ codes "warn" ∷ codes "info" ∷ codes "debug" ∷ [])
          v.log_level)
    then some bad_log_level
    else none

-- `validateSettings`.
unfoldable pub validate_settings : Env → RuntimeSettings → Option SettingsError
unfolding check_numbers check_proxies check_mappings
validate_settings env v = elim (check_numbers v) [
  | some e ↦ some e
  | none ↦ elim (new_route env.net v.outbound_proxy) [
    | err e ↦ some (bad_proxy e)
    | ok r ↦ elim (check_proxies env.net v.proxy_pool) [
      | some e ↦ some e
      | none ↦ check_mappings env [] v.model_mappings
    ]
  ]
]

-- `get`.
unfoldable pub get : Env → RuntimeSettings → RuntimeSettings
unfolding sanitize_model_mappings
get env s = record s { model_mappings = sanitize_model_mappings env s.model_mappings }

-- `save`; `stored` tells whether the file was written.
unfoldable pub save :
    Env → Bool → RuntimeSettings → RuntimeSettings → RuntimeSettings × Option SettingsError
unfolding get validate_settings
save env stored v s =
    let w = get env v in
    elim (validate_settings env w) [
      | some e ↦ (s, some e)
      | none ↦ if stored then (w, none) else (s, some not_stored)
    ]
