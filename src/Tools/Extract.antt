-- ===== src/Tools/Extract.antt =====
-- Which calls `extractToolCalls` of internal/web/toolloop.go finds, and which results pass.
use m365_copilot2api.Prelude.{
  ℕ, ◌+◌, ◌≡◌, ◌↔◌, ◌⊎◌, inl, inr, refl, List, [], ◌∷◌, map, none, some, Bool, true, false, ◌&&◌,
  Text, text_eq, is_empty, codes, any, filter, All, length, ltb, arith, Option-cases,
}
use m365_copilot2api.Json.{Value, Fields, string_at, as_object}
use m365_copilot2api.Message.{Message, tool}
use m365_copilot2api.Tools.{
  Env, DetectedToolCall, tool_type, is_allowed, tool_choice_allows, tagged, call_items, detect,
  extract_tool_calls, validate_tool_result,
}

-- The name of each item that is an object.
pub item_names : List Value → List Text
unfolding string_at
item_names [] = []
item_names (v ∷ vs) =
    let rest = item_names vs in
    elim (as_object (some v)) [ none ↦ rest | some m ↦ string_at (codes "name") m ∷ rest ]

-- The call may be made.
abbrev pub permits : List Fields → Value → Text → Bool
permits tools choice n = is_allowed tools n && tool_choice_allows choice n

module _ (env : Env) (tools : List Fields) (choice : Value) where
  detect-names :
      (i : ℕ) (vs : List Value)
      → map (λ c. c.name) (detect env tools choice i vs)
        ≡ filter (permits tools choice) (item_names vs)
  unfolding detect item_names filter
  detect-names i [] = refl
  detect-names i (v ∷ vs) = ground (arith, detect-names (i + 1) vs)

  -- A call of an offered tool that the choice permits, with that tool's type.
  abbrev pub IsPermitted : DetectedToolCall → Type 0
  IsPermitted c = (permits tools choice c.name ≡ true) × (c.kind ≡ tool_type c.name tools)

  detect-IsPermitted : (i : ℕ) (vs : List Value) → All IsPermitted (detect env tools choice i vs)
  unfolding detect
  detect-IsPermitted i [] = tt
  detect-IsPermitted i (v ∷ vs) = ground (arith, detect-IsPermitted (i + 1) vs)

  -- Whatever the text, every call that is found is a call of an offered tool that the choice permits,
  -- with that tool's type, and the flag tells whether there is one.
  pub extract_tool_calls-IsPermitted :
      (text : Text)
      → All IsPermitted (extract_tool_calls env text tools choice).0
        × ((extract_tool_calls env text tools choice).1
            ≡ ltb 0 (length (extract_tool_calls env text tools choice).0))
  unfolding extract_tool_calls
  extract_tool_calls-IsPermitted text = elim (Option-cases (tagged text)) [
    | inl bare ↦ rw (bare, extract_tool_calls) (tt, refl)
    | inr (body, at) ↦ elim (Option-cases (env.decode body)) [
      | inl bad ↦ rw (at, bad, extract_tool_calls) (tt, refl)
      | inr (raw, good) ↦
          rw (at, good, extract_tool_calls) (detect-IsPermitted 0 (call_items raw), refl)
    ]
  ]

  -- Where the tags enclose JSON, the calls are those of its items that are objects and whose name is
  -- permitted, in order, and no other.
  pub extract_tool_calls-names :
      (text body : Text) (raw : Value)
      → tagged text ≡ some body
      → env.decode body ≡ some raw
      → map (λ c. c.name) (extract_tool_calls env text tools choice).0
        ≡ filter (permits tools choice) (item_names (call_items raw))
  unfolding extract_tool_calls
  extract_tool_calls-names text body raw at good =
      rw (at, good, extract_tool_calls) (detect-names 0 (call_items raw))

-- A message that is no tool result, or a result with an identifier that is known, if any are.
abbrev pub Passes : List Text → Message → Type 0
Passes known m =
    (text_eq m.role tool ≡ false)
    ⊎ ((is_empty m.tool_call_id ≡ false)
        × ((known ≡ []) ⊎ (any (λ k. text_eq k m.tool_call_id) known ≡ true)))

-- The check of the results succeeds exactly if every tool message has an identifier, and a known one
-- where there are known ones.
pub validate_tool_result-none_iff :
    (ms : List Message) (known : List Text)
    → (validate_tool_result ms known ≡ none) ↔ All (Passes known) ms
unfolding validate_tool_result any
validate_tool_result-none_iff [] known = (λ h. tt, λ h. refl)
validate_tool_result-none_iff (m ∷ ms) [] = ground (arith, validate_tool_result-none_iff ms [])
validate_tool_result-none_iff (m ∷ ms) (k ∷ known) =
    ground (arith, validate_tool_result-none_iff ms (k ∷ known))
