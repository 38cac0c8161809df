-- ===== src/Tools/Decision/Checked.antt =====
-- Which calls a decision may hold: `parseModelToolDecision` of internal/web/model_tool_router.go.
use m365_copilot2api.Prelude.{
  ℕ, suc, ◌≡◌, ◌⊎◌, inl, inr, refl, sym, subst, List, [], ◌∷◌, Option, none, some, Bool, true,
  false, ◌&&◌, ◌||◌, not, Text, codes, contains, has_prefix, trim_space, take, drop, nat_eq, All,
  arith, Option-cases, Bool-cases, if◌then◌else◌, ◌-◌, ◌+◌,
}
use mathlib.Core.Option.{some-injective, some-ne-none}
use m365_copilot2api.Json
use m365_copilot2api.Json.{Value, Fields}
use m365_copilot2api.Schema.{tool_function, schema_valid, SchemaError}
use m365_copilot2api.Tools.{Env, DetectedToolCall, tool_choice_allows}
use m365_copilot2api.Tools.Fenced.{Fences, fenced_tool_calls}
use m365_copilot2api.Tools.Decision.{
  has_function, decided, call_tool, is_sound, envelope_calls, unfenced, between, json_decision,
  unfenced_decision, parse_model_tool_decision, map_or_null,
}

both : (a b : Bool) → (a && b) ≡ true → (a ≡ true) × (b ≡ true)
both a b h = (ground arith, ground arith)

all_three : (a b c : Bool) → (a && b && c) ≡ true → (a ≡ true) × (b ≡ true) × (c ≡ true)
all_three a b c h = (ground arith, ground arith, ground arith)

false_or_true : {A : Type 0} → ◌≡◌ {A = Bool} false true → A
false_or_true h = cc

module _ (env : Env) (decode_calls : Text → Option (List (Text × Option Fields)))
    (tools : List Fields) (choice : Value) where
  -- The call is of a tool of the request that the choice allows.
  abbrev pub IsChosen : DetectedToolCall → Type 0
  IsChosen c = (has_function c.name tools ≡ true) × (tool_choice_allows choice c.name ≡ true)

  -- Its arguments are a JSON object that the schema of the tool accepts.
  abbrev pub HasSoundArguments : DetectedToolCall → Type 0
  HasSoundArguments c =
      (args : Fields) × (c.arguments ≡ env.encode (some (Json.obj args)))
      × (schema_valid (λ v. env.encode (some v)) args (tool_function c.name tools) ≡ none)

  is_sound-parts :
      (name : Text) (args : Fields)
      → is_sound env decode_calls tools choice name args ≡ true
      → (has_function name tools ≡ true)
        × (tool_choice_allows choice name ≡ true)
        × (schema_valid (λ v. env.encode (some v)) args (tool_function name tools) ≡ none)
  unfolding is_sound
  is_sound-parts name args h =
      go (schema_valid (λ v. env.encode (some v)) args (tool_function name tools)) refl
    where
      go :
          (r : Option SchemaError)
          → schema_valid (λ v. env.encode (some v)) args (tool_function name tools) ≡ r
          → (has_function name tools ≡ true)
            × (tool_choice_allows choice name ≡ true)
            × (schema_valid (λ v. env.encode (some v)) args (tool_function name tools) ≡ none)
      go none at =
          let (f, allowed, ok) =
            all_three (has_function name tools) (tool_choice_allows choice name) true
              (rw (at, is_sound) at h) in
          (f, allowed, at)
      go (some e) at =
          let (f, allowed, bad) =
            all_three (has_function name tools) (tool_choice_allows choice name) false
              (rw (at, is_sound) at h) in
          false_or_true bad

  envelope_calls-Sound :
      (i : ℕ) (cs : List (Text × Option Fields))
      → All
          (λ c. IsChosen c × HasSoundArguments c)
          (envelope_calls env decode_calls tools choice i cs)
  unfolding envelope_calls
  envelope_calls-Sound i [] = tt
  envelope_calls-Sound i ((name, none) ∷ cs) = envelope_calls-Sound (suc i) cs
  envelope_calls-Sound i ((name, some args) ∷ cs) =
      elim (Bool-cases (is_sound env decode_calls tools choice name args)) [
        | inl sound ↦
            let (f, allowed, valid) = is_sound-parts name args sound in
            rw (sound, envelope_calls)
              (((f, allowed), (args, refl, valid)), envelope_calls-Sound (suc i) cs)
        | inr out ↦ rw (out, envelope_calls) (envelope_calls-Sound (suc i) cs)
      ]

  call_tool-IsChosen :
      (t : Text) (c : DetectedToolCall)
      → call_tool env decode_calls tools choice t ≡ some c
      → IsChosen c
  unfolding call_tool
  call_tool-IsChosen t c h =
      elim (Bool-cases
        (not (has_prefix t (codes "CALL_TOOL:")) && not (has_prefix t (codes "call_tool:")))) [
          | inl other ↦ absurd (some-ne-none c (sym (rw (other, call_tool) at h)))
          | inr named ↦ elim (Option-cases (between (codes "(") 0x29 rest)) [
            | inl open_ended ↦
                absurd (some-ne-none c (sym (rw (named, open_ended, call_tool) at h)))
            | inr ((start, end), parens) ↦ elim (Bool-cases (nat_eq start 0)) [
              | inl bare ↦ absurd (some-ne-none c (sym (rw (named, parens, bare, call_tool) at h)))
              | inr some_name ↦
                  elim (Option-cases
                    (map_or_null (env.decode (take (end - (start + 1)) (drop (start + 1) rest))))) [
                      | inl bad ↦ absurd (
                          some-ne-none c (sym (rw (named, parens, some_name, bad, call_tool) at h)))
                      | inr (v, good) ↦
                          chosen (trim_space (take start rest)) v
                            (rw (named, parens, some_name, good, call_tool) at h)
                    ]
            ]
          ]
        ]
    where
      rest : Text
      rest = trim_space (drop 10 t)

      chosen :
          (name : Text) (v : Value)
          → (if tool_choice_allows choice name && has_function name tools
              then some (decided env decode_calls tools choice 0 name v)
              else none)
            ≡ some c
          → IsChosen c
      chosen name v e =
          elim (Bool-cases (tool_choice_allows choice name && has_function name tools)) [
            | inl fits ↦
                let (allowed, f) =
                  both (tool_choice_allows choice name) (has_function name tools) fits in
                subst IsChosen (some-injective _ c (rw fits at e)) (f, allowed)
            | inr out ↦ absurd (some-ne-none c (sym (rw out at e)))
          ]

  -- How a call that stands in no fenced block was checked.
  abbrev pub IsRead : Text → DetectedToolCall → Type 0
  IsRead t c =
      IsChosen c × (HasSoundArguments c ⊎ (call_tool env decode_calls tools choice t ≡ some c))

  weaken :
      (t : Text) (cs : List DetectedToolCall)
      → All (λ c. IsChosen c × HasSoundArguments c) cs
      → All (IsRead t) cs
  weaken t [] a = tt
  weaken t (c ∷ cs) a = ((a.0.0, inl a.0.1), weaken t cs a.1)

  json_decision-IsRead :
      (t u : Text) (calls : List DetectedToolCall)
      → json_decision env decode_calls tools choice u ≡ some calls
      → All (IsRead t) calls
  unfolding json_decision
  json_decision-IsRead t u calls h = elim (Option-cases (between (codes "{") 0x7d body)) [
    | inl bare ↦ absurd (some-ne-none calls (sym (rw (bare, json_decision) at h)))
    | inr ((start, end), braces) ↦
        elim (Option-cases (decode_calls (take (end + 1 - start) (drop start body)))) [
          | inl bad ↦ absurd (some-ne-none calls (sym (rw (braces, bad, json_decision) at h)))
          | inr (cs, good) ↦
              subst (All (IsRead t))
                (some-injective _ calls (rw (braces, good, json_decision) at h))
                (weaken t (envelope_calls env decode_calls tools choice 0 cs)
                  (envelope_calls-Sound 0 cs))
        ]
  ]
    where
      body : Text
      body = unfenced env decode_calls tools choice u

  unfenced_decision-IsRead :
      (t : Text) (calls : List DetectedToolCall)
      → unfenced_decision env decode_calls tools choice t ≡ some calls
      → All (IsRead t) calls
  unfolding unfenced_decision
  unfenced_decision-IsRead t calls h =
      elim (Option-cases (call_tool env decode_calls tools choice t)) [
        | inr (c, called) ↦
            subst (All (IsRead t))
              (some-injective (c ∷ []) calls (rw (called, unfenced_decision) at h))
              ((call_tool-IsChosen t c called, inr called), tt)
        | inl other ↦
            elim (Bool-cases
              (contains t (codes "NO_TOOL_NEEDED") || contains t (codes "no_tool_needed"))) [
                | inl unneeded ↦
                    subst (All (IsRead t))
                      (some-injective [] calls (rw (other, unneeded, unfenced_decision) at h)) tt
                | inr json ↦
                    json_decision-IsRead t t calls (rw (other, json, unfenced_decision) at h)
              ]
      ]

  -- A decision that could be parsed holds the calls of fenced blocks; or else only calls of tools of the
  -- request that its choice allows, each, but for that of `CALL_TOOL`, with a JSON object of arguments
  -- that the schema of its tool accepts.
  pub parse_model_tool_decision-cases :
      (fences : Fences) (text : Text) (calls : List DetectedToolCall)
      → parse_model_tool_decision env decode_calls tools choice fences text ≡ some calls
      → (fenced_tool_calls env tools choice fences (trim_space text) ≡ calls)
        ⊎ All (IsRead (trim_space text)) calls
  unfolding parse_model_tool_decision
  parse_model_tool_decision-cases fences text calls h =
      go (fenced_tool_calls env tools choice fences (trim_space text)) h
    where
      go :
          (cs : List DetectedToolCall)
          → elim cs [
            | [] ↦ unfenced_decision env decode_calls tools choice (trim_space text)
            | d ∷ ds ↦ some (d ∷ ds)
          ]
            ≡ some calls
          → (cs ≡ calls) ⊎ All (IsRead (trim_space text)) calls
      go [] e = inr (unfenced_decision-IsRead (trim_space text) calls e)
      go (d ∷ ds) e = inl (some-injective (d ∷ ds) calls e)
