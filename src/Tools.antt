-- ===== src/Tools.antt =====
-- internal/web/toolloop.go: the tool calls in the text of an answer, and the check of tool results; with
-- the limits on the calls of one answer of internal/web/settings.go.
pub mod Extract
pub mod Limits
pub mod Fenced
pub mod Decision
pub mod Native
mod Tests
use m365_copilot2api.Prelude.{
  ℕ, zero, suc, ◌+◌, ◌-◌, List, [], ◌∷◌, Option, none, some, Bool, true, false, ◌&&◌, ◌||◌, not,
  Text, text_eq, codes, is_empty, has_prefix, contains, trim_space, any, take, drop, length, leb,
  ltb, if◌then◌else◌,
}
use m365_copilot2api.Json
use m365_copilot2api.Json.{
  Value, Items, Fields, string_at, object_at, as_object, as_string, items_list,
}
use m365_copilot2api.Message.{Message, tool}

-- JSON text decoded and encoded, the hash of `callID`, and `strings.ToLower`.
pub record Env : Type 0 where
  pub decode : Text → Option Value
  pub encode : Option Value → Text
  pub call_id : Text → Text → ℕ → Text
  pub lower : Text → Text

-- `detectedToolCall`.
pub record DetectedToolCall : Type 0 where
  pub id : Text
  pub kind : Text
  pub name : Text
  pub arguments : Text

-- `toolType`.
unfoldable pub tool_type : Text → List Fields → Text
unfolding string_at object_at
tool_type name [] = codes "function"
tool_type name (t ∷ ts) =
    let rest = tool_type name ts in
    if text_eq (string_at (codes "name") (object_at (codes "function") t)) name
      && not (is_empty (string_at (codes "type") t))
    then string_at (codes "type") t
    else rest

-- The name that a tool adds to `allowedToolNames`.
unfoldable pub offered : Fields → Text
unfolding object_at string_at
offered t = string_at (codes "name") (object_at (codes "function") t)

-- `allowedToolNames(tools)[name]`: the empty name is never allowed.
unfoldable pub is_allowed : List Fields → Text → Bool
unfolding offered any
is_allowed tools name = not (is_empty name) && any (λ t. text_eq (offered t) name) tools

-- `toolChoiceAllows`; a missing choice is `null`.
choice_name : Fields → Text → Bool
choice_name m name = elim (as_object (Json.get (codes "function") m)) [
  | some f ↦ text_eq (string_at (codes "name") f) name
  | none ↦ elim (as_string (Json.get (codes "name") m)) [ some n ↦ text_eq n name | none ↦ true ]
]

unfoldable pub tool_choice_allows : Value → Text → Bool
unfolding choice_name
tool_choice_allows Json.null name = true
tool_choice_allows (Json.bool b) name = true
tool_choice_allows (Json.num n) name = true
tool_choice_allows (Json.str s) name =
    not (text_eq s (codes "none")) && (not (text_eq s (codes "required")) || not (is_empty name))
tool_choice_allows (Json.arr vs) name = true
tool_choice_allows (Json.obj m) name = choice_name m name

-- `strings.Index(s, p)`: `i` is the position of the text that is left.
index_from : ℕ → Text → Text → Option ℕ
index_from i [] p = if has_prefix [] p then some i else none
index_from i (c ∷ s) p =
    let rest = index_from (i + 1) s p in if has_prefix (c ∷ s) p then some i else rest

unfoldable pub index : Text → Text → Option ℕ
unfolding index_from has_prefix
index s p = index_from 0 s p

abbrev pub open_tag : Text
open_tag = codes "<m365-tool-call>"

abbrev pub close_tag : Text
close_tag = codes "</m365-tool-call>"

-- `text[start+len("<m365-tool-call>"):end]`; where the tag does not end before `end`, Go panics, which
-- cannot be: the closing tag does not begin inside the opening one.
unfoldable pub tagged : Text → Option Text
unfolding index
tagged text = elim (index text open_tag) [
  | none ↦ none
  | some start ↦ elim (index text close_tag) [
    | none ↦ none
    | some end ↦
        if leb end start
        then none
        else some (take (end - (start + length open_tag)) (drop (start + length open_tag) text))
  ]
]

-- A list of calls, or one call.
abbrev pub call_items : Value → List Value
call_items (Json.arr vs) = items_list vs
call_items v = v ∷ []

-- The loop over the items, the first with index `i`.
unfoldable pub detect : Env → List Fields → Value → ℕ → List Value → List DetectedToolCall
unfolding is_allowed tool_choice_allows tool_type string_at
detect env tools choice i [] = []
detect env tools choice i (v ∷ vs) =
    let rest = detect env tools choice (i + 1) vs in
    elim (as_object (some v)) [
      | none ↦ rest
      | some m ↦
          let n = string_at (codes "name") m in
          let a = env.encode (Json.get (codes "arguments") m) in
          if is_allowed tools n && tool_choice_allows choice n
          then record { id = env.call_id n a i; kind = tool_type n tools; name = n; arguments = a }
            ∷ rest
          else rest
    ]

-- `extractToolCalls`.
unfoldable pub extract_tool_calls : Env → Text → List Fields → Value → List DetectedToolCall × Bool
unfolding tagged detect
extract_tool_calls env text tools choice = elim (tagged text) [
  | none ↦ ([], false)
  | some body ↦ elim (env.decode body) [
    | none ↦ ([], false)
    | some raw ↦
        let calls = detect env tools choice 0 (call_items raw) in (calls, ltb 0 (length calls))
  ]
]

-- `validateToolResult`; `known` are the known identifiers.
pub data ResultError : Type 0 where
  id_required : ResultError
  unknown_id : Text → ResultError

unfoldable pub validate_tool_result : List Message → List Text → Option ResultError
unfolding any
validate_tool_result [] known = none
validate_tool_result (m ∷ ms) known =
    let rest = validate_tool_result ms known in
    if text_eq m.role tool
    then (if is_empty m.tool_call_id
        then some id_required
        else if ltb 0 (length known) && not (any (λ k. text_eq k m.tool_call_id) known)
        then some (unknown_id m.tool_call_id)
        else rest)
    else rest

-- `toolLooksMutating` and `toolLooksReadOnly`.
abbrev pub mutating_words : List Text
mutating_words =
    codes "exec"
    ∷ codes "shell"
    ∷ codes "command"
    ∷ codes "write"
    ∷ codes "edit"
    ∷ codes "update"
    ∷ codes "delete"
    ∷ codes "remove"
    ∷ codes "move"
    ∷ codes "rename"
    ∷ codes "create"
    ∷ codes "patch"
    ∷ codes "apply"
    ∷ codes "install"
    ∷ codes "run"
    ∷ []

abbrev pub read_only_words : List Text
read_only_words =
    codes "read"
    ∷ codes "list"
    ∷ codes "search"
    ∷ codes "find"
    ∷ codes "get"
    ∷ codes "fetch"
    ∷ codes "browser"
    ∷ codes "lookup"
    ∷ codes "inspect"
    ∷ codes "stat"
    ∷ codes "status"
    ∷ codes "describe"
    ∷ codes "info"
    ∷ []

unfoldable pub tool_looks_mutating : Text → Bool
unfolding any
tool_looks_mutating name = any (contains name) mutating_words

unfoldable pub tool_looks_read_only : Text → Bool
unfolding any
tool_looks_read_only name = any (contains name) read_only_words

-- The test of the loop of `adaptiveToolCallLimit`: the call is run by itself.
unfoldable pub is_serial : Env → DetectedToolCall → Bool
unfolding tool_looks_mutating tool_looks_read_only
is_serial env c =
    let name = env.lower (trim_space c.name) in
    is_empty name || tool_looks_mutating name || not (tool_looks_read_only name)

unfoldable pub adaptive_tool_call_limit : Env → List DetectedToolCall → ℕ → ℕ
unfolding is_serial any
adaptive_tool_call_limit env cs configured =
    if ltb (length cs) 2 || ltb configured 2
    then 1
    else if any (is_serial env) cs
    then 1
    else configured

-- `limitToolCalls`.
unfoldable pub limit_tool_calls : List DetectedToolCall → ℕ → List DetectedToolCall
limit_tool_calls cs n =
    let m = (if ltb n 1 then 1 else n) in if ltb m (length cs) then take m cs else cs
