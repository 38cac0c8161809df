-- ===== src/Tools/Limits.antt =====
-- How many calls of one answer are passed on: `limitToolCalls` of the limit that
-- `adaptiveToolCallLimit` gives, internal/web/settings.go.
use m365_copilot2api.Prelude.{
  ℕ, ◌≡◌, ◌≤◌, refl, min, max, List, [], ◌∷◌, false, All, any, take, length, length-take, arith,
}
use m365_copilot2api.Tools.{
  Env, DetectedToolCall, is_serial, adaptive_tool_call_limit, limit_tool_calls,
}

-- The calls that are passed on.
abbrev pub passed : Env → List DetectedToolCall → ℕ → List DetectedToolCall
passed env cs configured = limit_tool_calls cs (adaptive_tool_call_limit env cs configured)

none_serial :
    (env : Env) (cs : List DetectedToolCall)
    → any (is_serial env) cs ≡ false
    → All (λ c. is_serial env c ≡ false) cs
unfolding any
none_serial env [] h = tt
none_serial env (c ∷ cs) h = ground (arith, none_serial env cs)

take_all : (cs : List DetectedToolCall) → take (length cs) cs ≡ cs
take_all [] = refl
take_all (c ∷ cs) = ground (arith, take_all cs)

-- The calls that are passed on are the first ones; there is one if there was any, and never more than
-- the configured limit, or one if that is less.
pub passed-first :
    (env : Env) (cs : List DetectedToolCall) (configured : ℕ)
    → (passed env cs configured ≡ take (length (passed env cs configured)) cs)
      × (min 1 (length cs) ≤ length (passed env cs configured))
      × (length (passed env cs configured) ≤ max 1 configured)
unfolding limit_tool_calls adaptive_tool_call_limit
passed-first env cs configured =
    ground (arith, length-take 1 cs, length-take configured cs, take_all cs)

-- Two calls or more are passed on only if every call of the answer names a tool that looks read-only
-- and not mutating.
pub passed-read_only :
    (env : Env) (cs : List DetectedToolCall) (configured : ℕ)
    → 2 ≤ length (passed env cs configured)
    → All (λ c. is_serial env c ≡ false) cs
unfolding limit_tool_calls adaptive_tool_call_limit
passed-read_only env cs configured many = none_serial env cs (ground (arith, length-take 1 cs))
