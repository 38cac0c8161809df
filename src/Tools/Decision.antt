-- ===== src/Tools/Decision.antt =====
-- What the model decides on its next tool: `parseModelToolDecision` of internal/web/model_tool_router.go,
-- and `filterCompletedCalls` of internal/web/agent_ledger.go. The decoding of the envelope is an argument.
pub mod Checked
mod Tests
use m365_copilot2api.Prelude.{
  ℕ, suc, ◌+◌, ◌-◌, List, [], ◌∷◌, ◌++◌, Option, none, some, Bool, true, false, ◌&&◌, ◌||◌, not,
  Text, text_eq, codes, is_empty, has_prefix, has_suffix, contains, trim_space, take, drop, length,
  filter, nat_eq, leb, if◌then◌else◌,
}
use m365_copilot2api.Json
use m365_copilot2api.Json.{Value, Fields, as_object, string_at, object_at}
use m365_copilot2api.Ledger
use m365_copilot2api.Ledger.{AgentLedger}
use m365_copilot2api.Ledger.Control.{has_completed}
use m365_copilot2api.Schema.{tool_function, schema_valid}
use m365_copilot2api.Tools.{Env, DetectedToolCall, tool_type, tool_choice_allows, index}
use m365_copilot2api.Tools.Fenced.{Fences, fenced_tool_calls}

-- `filterCompletedCalls`.
unfoldable pub filter_completed_calls :
    Ledger.Env → AgentLedger → List DetectedToolCall → List DetectedToolCall
filter_completed_calls env l calls =
    filter (λ c. not (has_completed env l c.name c.arguments)) calls

-- `strings.LastIndex(s, p)` of a text of one byte.
unfoldable pub last_index : ℕ → Text → Option ℕ
last_index p [] = none
last_index p (b ∷ s) =
    let rest = last_index p s in
    elim rest [ some i ↦ some (suc i) | none ↦ if nat_eq b p then some 0 else none ]

-- The tool has a function: `toolFunction` does not give nil.
unfoldable pub has_function : Text → List Fields → Bool
unfolding string_at object_at
has_function name [] = false
has_function name (t ∷ ts) =
    let rest = has_function name ts in
    if text_eq (string_at (codes "name") (object_at (codes "function") t)) name
    then elim (as_object (Json.get (codes "function") t)) [ none ↦ false | some f ↦ true ]
    else rest

-- The text between two bytes, from the first of the one to the last of the other.
unfoldable pub between : Text → ℕ → Text → Option (ℕ × ℕ)
unfolding index last_index
between from to s = elim (index s from) [
  | none ↦ none
  | some start ↦ elim (last_index to s) [
    | none ↦ none
    | some end ↦ if leb end start then none else some (start, end)
  ]
]

-- The arguments of `CALL_TOOL`: a JSON object, or `null`, which is the nil map.
abbrev pub map_or_null : Option Value → Option Value
map_or_null (some (Json.obj m)) = some (Json.obj m)
map_or_null (some Json.null) = some Json.null
map_or_null _ = none

module _ (env : Env) (decode_calls : Text → Option (List (Text × Option Fields)))
    (tools : List Fields) (choice : Value) where
  abbrev pub decided : ℕ → Text → Value → DetectedToolCall
  decided i name v =
      let a = env.encode (some v) in
      record { id = env.call_id name a i; kind = tool_type name tools; name = name; arguments = a }

  -- `CALL_TOOL: name({...})`.
  unfoldable pub call_tool : Text → Option DetectedToolCall
  unfolding between has_function tool_choice_allows
  call_tool text =
      let rest = trim_space (drop 10 text) in
      if not (has_prefix text (codes "CALL_TOOL:")) && not (has_prefix text (codes "call_tool:"))
      then none
      else elim (between (codes "(") 0x29 rest) [
        | none ↦ none
        | some (start, end) ↦
            let name = trim_space (take start rest) in
            if nat_eq start 0
            then none
            else elim (map_or_null
                (env.decode (take (end - (start + 1)) (drop (start + 1) rest)))) [
                  | none ↦ none
                  | some v ↦
                      if tool_choice_allows choice name && has_function name tools
                      then some (decided 0 name v)
                      else none
                ]
      ]

  -- The entry is one for a tool of the request that the choice allows, with arguments that its schema
  -- accepts.
  unfoldable pub is_sound : Text → Fields → Bool
  unfolding has_function tool_choice_allows
  is_sound name args =
      has_function name tools
      && tool_choice_allows choice name
      && elim (schema_valid (λ v. env.encode (some v)) args (tool_function name tools)) [
        | none ↦ true
        | some e ↦ false
      ]

  -- The loop over the calls of the envelope, the first with index `i`.
  unfoldable pub envelope_calls : ℕ → List (Text × Option Fields) → List DetectedToolCall
  unfolding is_sound
  envelope_calls i [] = []
  envelope_calls i ((name, none) ∷ cs) = envelope_calls (suc i) cs
  envelope_calls i ((name, some args) ∷ cs) =
      let rest = envelope_calls (suc i) cs in
      if is_sound name args then decided i name (Json.obj args) ∷ rest else rest

  abbrev without_suffix : Text → Text → Text
  without_suffix s p = if has_suffix s p then take (length s - length p) s else s

  abbrev without_prefix : Text → Text → Text
  without_prefix s p = if has_prefix s p then drop (length p) s else s

  -- The text of the JSON fallback, without the fence it may stand in.
  unfoldable pub unfenced : Text → Text
  unfolding index
  unfenced text = elim (index text (codes "```")) [
    | none ↦ text
    | some i ↦
        trim_space
          (without_prefix (without_suffix (drop (i + 3) text) (codes "```")) (codes "json"))
  ]

  unfoldable pub json_decision : Text → Option (List DetectedToolCall)
  unfolding unfenced between envelope_calls
  json_decision text =
      let t = unfenced text in
      elim (between (codes "{") 0x7d t) [
        | none ↦ none
        | some (start, end) ↦ elim (decode_calls (take (end + 1 - start) (drop start t))) [
          | none ↦ none
          | some cs ↦ some (envelope_calls 0 cs)
        ]
      ]

  -- What is read where no fenced block holds a call.
  unfoldable pub unfenced_decision : Text → Option (List DetectedToolCall)
  unfolding call_tool json_decision
  unfenced_decision t = elim (call_tool t) [
    | some c ↦ some (c ∷ [])
    | none ↦
        if contains t (codes "NO_TOOL_NEEDED") || contains t (codes "no_tool_needed")
        then some []
        else json_decision t
  ]

  -- `parseModelToolDecision`; `none` is a text that could not be parsed.
  unfoldable pub parse_model_tool_decision : Fences → Text → Option (List DetectedToolCall)
  unfolding fenced_tool_calls unfenced_decision
  parse_model_tool_decision fences text =
      let t = trim_space text in
      elim (fenced_tool_calls env tools choice fences t) [
        | c ∷ cs ↦ some (c ∷ cs)
        | [] ↦ unfenced_decision t
      ]
