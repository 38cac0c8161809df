-- ===== src/Tools/Fenced/Tests.antt =====
-- Fenced blocks in an answer, for internal/web/fenced_tools.go.
use m365_copilot2api.Prelude.{
  ◌≡◌, ◌⊎◌, refl, [], ◌∷◌, none, some, false, Text, codes, text_eq, All, if◌then◌else◌, trim_space,
}
use m365_copilot2api.Json
use m365_copilot2api.Json.{Value, Fields}
use m365_copilot2api.Tools.{Env, DetectedToolCall, tool_type}
use m365_copilot2api.Tools.Fenced.{Fences, fenced_tool_calls, generic_calls}
use m365_copilot2api.Tools.Fenced.Permitted.{IsPermitted, IsOffered, fenced_tool_calls-IsOffered}

abbrev call_of : Text → Value
call_of name = Json.obj (
    Json.field (codes "name") (Json.str name)
      (Json.field (codes "arguments") (Json.obj Json.end) Json.end))

abbrev env : Env
env = record {
  decode = λ t. if text_eq t (codes "b()") then some (call_of (codes "b")) else none;
  encode = λ v. codes "{}";
  call_id = λ n a i. codes "id";
  lower = λ s. s;
}

abbrev fences : Text → Text → Fences
fences name body = record {
  generic = λ t. [];
  named = λ t. (name, body) ∷ [];
  is_tool_call = λ s. false;
}

abbrev tool : Text → Fields
tool name =
    Json.field (codes "function") (Json.obj (Json.field (codes "name") (Json.str name) Json.end))
      Json.end

abbrev bash_call : DetectedToolCall
bash_call = record {
  id = codes "id";
  kind = codes "function";
  name = codes "bash";
  arguments = codes "{}";
}

-- A request without tools, whose choice is "none", gets a call of `bash` for a block of shell code.
unasked_bash :
    fenced_tool_calls env []
      (Json.str (codes "none"))
      (fences (codes "bash") (codes "ls"))
      (codes "text")
    ≡ bash_call ∷ []
unfolding fenced_tool_calls text_eq trim_space
unasked_bash = refl

abbrev choose : Text → Value
choose name = Json.obj (tool name)

abbrev b_call : DetectedToolCall
b_call = record {
  id = codes "id";
  kind = codes "function";
  name = codes "b";
  arguments = codes "{}";
}

-- A request that asks for the tool `a` gets a call of the tool `b` that stands in a block named `a`.
other_tool :
    fenced_tool_calls env
      (tool (codes "a") ∷ tool (codes "b") ∷ [])
      (choose (codes "a"))
      (fences (codes "a") (codes "b()"))
      []
    ≡ b_call ∷ []
unfolding fenced_tool_calls text_eq trim_space tool_type
other_tool = refl

fenced_tool_calls-IsOffered_example :
    ((fenced_tool_calls env [] Json.null (fences (codes "sh") (codes "ls")) []
        ≡ generic_calls env [] Json.null 0 [])
      × All
          (IsPermitted env [] Json.null)
          (fenced_tool_calls env [] Json.null (fences (codes "sh") (codes "ls")) []))
    ⊎ ((generic_calls env [] Json.null 0 [] ≡ [])
        × All
            (IsOffered env [] Json.null)
            (fenced_tool_calls env [] Json.null (fences (codes "sh") (codes "ls")) []))
fenced_tool_calls-IsOffered_example =
    fenced_tool_calls-IsOffered env [] Json.null (fences (codes "sh") (codes "ls")) []
