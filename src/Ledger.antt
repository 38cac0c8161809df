-- ===== src/Ledger.antt =====
-- internal/web/agent_ledger.go: what the tool calls of a conversation have brought so far, and whether
-- another turn may follow; with `contentToString` of internal/web/server.go.
pub mod Compact
pub mod Collect
pub mod Followed
pub mod Tally
pub mod Control
mod Tests
use m365_copilot2api.Prelude.{
  ℕ, zero, suc, ◌+◌, ◌-◌, ◌/◌, ◌%◌, List, [], ◌∷◌, ◌++◌, map, Option, none, some, Bool, true, false,
  ◌&&◌, ◌||◌, not, Text, text_eq, codes, is_empty, trim_space, contains, any, filter, take, drop,
  length, ltb, leb, if◌then◌else◌, Dict, lookup, insert, Text_eq, nat_eq,
}
use m365_copilot2api.Json
use m365_copilot2api.Json.{Value, Items, Fields, string_at, object_at}
use m365_copilot2api.Message.{Message, assistant, tool, user, is_role}

-- What the code takes from the standard library: the two regular expressions, `strings.ToLower`,
-- `fmt.Sprint` of a JSON value, and JSON text decoded and encoded again, if it decodes.
pub record Env : Type 0 where
  pub failure_signal : Text → Bool
  pub unsupported_success : Text → Bool
  pub lower : Text → Text
  pub sprint : Value → Text
  pub canonical_json : Text → Option Text

pub record ToolEvidence : Type 0 where
  pub id : Text
  pub name : Text
  pub arguments : Text
  pub result : Text
  pub failed : Bool

pub record AgentLedger : Type 0 where
  pub completed : List ToolEvidence
  pub pending : List ToolEvidence
  pub tool_rounds : ℕ
  pub repeated_call : Bool
  pub repeated_failure : Bool
  pub repetition_signature : Text

-- `%d`: the fuel is above the number, and a digit is taken off in each round.
unfoldable pub decimal_from : ℕ → ℕ → Text
decimal_from zero n = []
decimal_from (suc fuel) n =
    let front = decimal_from fuel (n / 10) in
    if ltb n 10 then (b'0' + n) ∷ [] else front ++ (b'0' + n % 10) ∷ []

unfoldable pub decimal : ℕ → Text
unfolding decimal_from
decimal n = decimal_from (suc n) n

unfoldable pub marker : ℕ → Text
marker n = codes "\n... [truncated " ++ (decimal n ++ codes " bytes] ...\n")

-- The bytes that are kept of the end: `limit - head - 80`, but at least 80.
unfoldable pub tail_bytes : ℕ → ℕ
tail_bytes limit = let tail = limit - limit / 3 - 80 in if ltb tail 80 then 80 else tail

-- `compactToolResult`, once the text is trimmed and the limit is at least 200.
unfoldable pub compact : Text → ℕ → Text
compact s limit =
    let head = limit / 3 in
    let tail = tail_bytes limit in
    if leb (length s) limit
    then s
    else take head s ++ (marker (length s - head - tail) ++ drop (length s - tail) s)

unfoldable pub compact_tool_result : Text → ℕ → Text
compact_tool_result s limit = compact (trim_space s) (if ltb limit 200 then 200 else limit)

-- `contentToString`: a text, or the texts of the parts of a list, or `fmt.Sprint`.
abbrev is_text_part : Text → Bool
is_text_part t =
    text_eq t (codes "text") || text_eq t (codes "input_text") || text_eq t (codes "output_text")

unfoldable pub parts_text : Items → Text
parts_text Json.nil = []
parts_text (Json.cons Json.null ps) = parts_text ps
parts_text (Json.cons (Json.bool b) ps) = parts_text ps
parts_text (Json.cons (Json.num n) ps) = parts_text ps
parts_text (Json.cons (Json.str s) ps) = parts_text ps
parts_text (Json.cons (Json.arr vs) ps) = parts_text ps
parts_text (Json.cons (Json.obj m) ps) =
    (if is_text_part (string_at (codes "type") m) then string_at (codes "text") m else [])
    ++ parts_text ps

-- `fmt.Sprint(v)`; a text is printed as it is.
unfoldable pub sprint_value : Env → Value → Text
sprint_value env (Json.str s) = s
sprint_value env v = env.sprint v

unfoldable pub content_to_string : Env → Value → Text
unfolding parts_text sprint_value
content_to_string env (Json.arr ps) = parts_text ps
content_to_string env v = sprint_value env v

-- `fmt.Sprint(fn["arguments"])`; a missing key reads as nil.
unfoldable pub argument_text : Env → Fields → Text
unfolding sprint_value
argument_text env fn =
    sprint_value env (elim (Json.get (codes "arguments") fn) [ none ↦ Json.null | some v ↦ v ])
