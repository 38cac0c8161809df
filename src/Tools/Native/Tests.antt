-- ===== src/Tools/Native/Tests.antt =====
-- A frame with one call, for internal/web/native_tools.go.
use m365_copilot2api.Prelude.{some, codes}
use m365_copilot2api.Json
use m365_copilot2api.Json.{Value, Fields}
use m365_copilot2api.Tools.Native.{Native}

abbrev call : Fields
call =
    Json.field (codes "name") (Json.str (codes "ls"))
      (Json.field (codes "args") (Json.obj Json.end) Json.end)

abbrev env : Native
env = record {
  decode = λ t. some (Json.arr (Json.cons (Json.obj call) Json.nil));
  encode = λ v. codes "{}";
  call_id = λ n a. codes "id";
}
