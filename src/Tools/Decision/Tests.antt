-- ===== src/Tools/Decision/Tests.antt =====
-- A decision with one call of the envelope, for internal/web/model_tool_router.go.
use m365_copilot2api.Schema.{schema_valid, tool_function}
use m365_copilot2api.Prelude.{
  ◌≡◌, ◌⊎◌, refl, [], ◌∷◌, List, none, some, Text, codes, All, Option, trim_space, false, contains,
  text_eq,
}
use m365_copilot2api.Json
use m365_copilot2api.Json.{Value, Fields}
use m365_copilot2api.Tools.{Env, DetectedToolCall, tool_type}
use m365_copilot2api.Tools.Fenced.{Fences, fenced_tool_calls}
use m365_copilot2api.Tools.Decision.{parse_model_tool_decision}
use m365_copilot2api.Tools.Decision.Checked.{IsRead, parse_model_tool_decision-cases}

abbrev env : Env
env = record {
  decode = λ t. none;
  encode = λ v. codes "{}";
  call_id = λ n a i. codes "id";
  lower = λ s. s;
}

abbrev fences : Fences
fences = record { generic = λ t. []; named = λ t. []; is_tool_call = λ s. false }

abbrev tools : List Fields
tools =
    Json.field (codes "function")
      (Json.obj (Json.field (codes "name") (Json.str (codes "ls")) Json.end)) Json.end
    ∷ []

abbrev decode_calls : Text → Option (List (Text × Option Fields))
decode_calls t = some ((codes "rm", some Json.end) ∷ (codes "ls", some Json.end) ∷ [])

abbrev ls_call : DetectedToolCall
ls_call = record {
  id = codes "id";
  kind = codes "function";
  name = codes "ls";
  arguments = codes "{}";
}

decided_ls :
    parse_model_tool_decision env decode_calls tools Json.null fences (codes " {calls} ")
    ≡ some (ls_call ∷ [])
unfolding parse_model_tool_decision trim_space contains text_eq schema_valid tool_function tool_type
decided_ls = refl

parse_model_tool_decision-cases_example :
    (fenced_tool_calls env tools Json.null fences (trim_space (codes " {calls} ")) ≡ ls_call ∷ [])
    ⊎ All (IsRead env decode_calls tools Json.null (trim_space (codes " {calls} "))) (ls_call ∷ [])
parse_model_tool_decision-cases_example =
    parse_model_tool_decision-cases env decode_calls tools Json.null fences (codes " {calls} ")
      (ls_call ∷ []) decided_ls
