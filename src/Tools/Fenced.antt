-- ===== src/Tools/Fenced.antt =====
-- internal/web/fenced_tools.go: the tool calls in the fenced blocks of an answer. The matches of the two
-- regular expressions and `strings.EqualFold` are arguments.
pub mod Permitted
mod Tests
use m365_copilot2api.Prelude.{
  ℕ, zero, suc, ◌+◌, ◌-◌, List, [], ◌∷◌, ◌++◌, Option, none, some, Bool, true, false, ◌&&◌, ◌||◌,
  not, Text, text_eq, codes, is_empty, contains, trim_space, any, take, length, nat_eq,
  if◌then◌else◌,
}
use m365_copilot2api.Json
use m365_copilot2api.Json.{Value, Fields, as_object, as_string}
use m365_copilot2api.Tools.{Env, DetectedToolCall, tool_type, is_allowed, tool_choice_allows}

-- The first groups of `genericToolCallFence`, both groups of `fencedToolCall`, and whether a name is
-- "tool_call" but for the case of its letters.
pub record Fences : Type 0 where
  pub generic : Text → List Text
  pub named : Text → List (Text × Text)
  pub is_tool_call : Text → Bool

-- `firstString`.
unfoldable pub first_string : List Text → Fields → Text
first_string [] m = []
first_string (k ∷ ks) m =
    let rest = first_string ks m in
    elim (as_string (Json.get k m)) [
      | none ↦ rest
      | some s ↦ if is_empty (trim_space s) then rest else trim_space s
    ]

-- `m[k]` where it is not nil.
unfoldable pub given : Text → Fields → Option Value
given k m = elim (Json.get k m) [ some Json.null ↦ none | some v ↦ some v | none ↦ none ]

unfoldable pub without_keys : List Text → Fields → Fields
unfolding any
without_keys ks Json.end = Json.end
without_keys ks (Json.field k v fs) =
    let rest = without_keys ks fs in if any (λ j. text_eq j k) ks then rest else Json.field k v rest

-- `obj["arguments"]`, or else `obj["args"]`.
unfoldable pub arguments_of : Fields → Option Value
unfolding given
arguments_of m = elim (given (codes "arguments") m) [
  | some v ↦ some v
  | none ↦ given (codes "args") m
]

abbrev pub name_keys : List Text
name_keys = codes "name" ∷ codes "tool" ∷ codes "tool_name" ∷ codes "function" ∷ []

-- `m[k]` of a map with the missing key written as `null`.
abbrev or_null : Option Value → Value
or_null none = Json.null
or_null (some v) = v

-- A value that is the empty string.
abbrev is_empty_string : Value → Bool
is_empty_string v = elim (as_string (some v)) [ none ↦ false | some s ↦ is_empty s ]

-- The arguments that a command of a shell makes for the tool `bash`.
unfoldable pub command_arguments : Fields → Option Value
command_arguments m = elim (Json.get (codes "command") m) [
  | none ↦ none
  | some cmd ↦
      if is_empty_string cmd
      then none
      else some (
          Json.obj (
            Json.field (codes "command") cmd (
              Json.field (codes "timeout") (or_null (Json.get (codes "timeout") m))
                (Json.field (codes "workdir") (or_null (Json.get (codes "workdir") m)) Json.end))))
]

unfoldable pub is_shell : Text → Bool
unfolding any
is_shell name =
    any (λ s. text_eq s name)
      (codes "bash" ∷ codes "sh" ∷ codes "shell" ∷ codes "powershell" ∷ codes "cmd" ∷ [])

module _ (env : Env) (tools : List Fields) (choice : Value) where
  -- A call, with the number of calls before it.
  abbrev pub call_with : ℕ → Text → Text → Value → DetectedToolCall
  call_with n kind name v =
      let a = env.encode (some v) in
      record { id = env.call_id name a n; kind = kind; name = name; arguments = a }

  abbrev pub bash_call : ℕ → Value → DetectedToolCall
  bash_call n v = call_with n (codes "function") (codes "bash") v

  -- The call of a block that is fenced as `tool_call`.
  unfoldable pub generic_call : ℕ → Text → Option DetectedToolCall
  unfolding first_string arguments_of without_keys is_allowed tool_choice_allows
  generic_call n body = elim (as_object (env.decode (trim_space body))) [
    | none ↦ none
    | some m ↦
        let name = first_string name_keys m in
        if is_empty name || not (is_allowed tools name) || not (tool_choice_allows choice name)
        then none
        else some (
            call_with n (tool_type name tools) name
              (elim (arguments_of m) [ some v ↦ v | none ↦ Json.obj (without_keys name_keys m) ]))
  ]

  -- The value of a block, unless it is `null` or no JSON.
  unfoldable pub block_value : Text → Option Value
  block_value body = elim (env.decode body) [
    | some Json.null ↦ none
    | some v ↦ some v
    | none ↦ none
  ]

  -- The call of a block with the name of a shell that is no tool of the request.
  unfoldable pub shell_call : ℕ → Text → Option DetectedToolCall
  unfolding block_value command_arguments
  shell_call n body = elim (block_value body) [
    | none ↦ some (bash_call n (Json.obj (Json.field (codes "command") (Json.str body) Json.end)))
    | some v ↦ elim (as_object (some v)) [
      | none ↦ none
      | some m ↦ elim (command_arguments m) [ none ↦ none | some a ↦ some (bash_call n a) ]
    ]
  ]

  -- The call of a block with the name of a tool; one inside it goes before.
  unfoldable pub tool_call : ℕ → Text → Value → DetectedToolCall
  unfolding first_string arguments_of is_allowed
  tool_call n name v =
      let m : Fields = elim (as_object (some v)) [ none ↦ Json.end | some f ↦ f ] in
      let inner = first_string (codes "name" ∷ codes "tool" ∷ codes "tool_name" ∷ []) m in
      if is_allowed tools inner
      then elim (arguments_of m) [
        | some a ↦ call_with n (tool_type inner tools) inner a
        | none ↦ call_with n (tool_type name tools) name v
      ]
      else call_with n (tool_type name tools) name v

  unfoldable pub named_call : (Text → Bool) → ℕ → Text → Text → Option DetectedToolCall
  unfolding shell_call tool_call block_value is_allowed tool_choice_allows is_shell
  named_call is_tool_call n name block =
      let body = trim_space block in
      if is_tool_call name
      then none
      else if not (is_allowed tools name) && is_shell name
      then shell_call n body
      else if not (is_allowed tools name) || not (tool_choice_allows choice name)
      then none
      else elim (block_value body) [ none ↦ none | some v ↦ some (tool_call n name v) ]

  -- The loops over the blocks, the first after `n` calls.
  unfoldable pub generic_calls : ℕ → List Text → List DetectedToolCall
  unfolding generic_call
  generic_calls n [] = []
  generic_calls n (b ∷ bs) = elim (generic_call n b) [
    | none ↦ generic_calls n bs
    | some c ↦ c ∷ generic_calls (suc n) bs
  ]

  unfoldable pub named_calls : (Text → Bool) → ℕ → List (Text × Text) → List DetectedToolCall
  unfolding named_call
  named_calls is_tool_call n [] = []
  named_calls is_tool_call n ((name, b) ∷ bs) = elim (named_call is_tool_call n name b) [
    | none ↦ named_calls is_tool_call n bs
    | some c ↦ c ∷ named_calls is_tool_call (suc n) bs
  ]

  -- The text up to the end of the line.
  unfoldable pub first_line : Text → Text
  first_line [] = []
  first_line (b ∷ s) = let rest = first_line s in if nat_eq b 10 then [] else b ∷ rest

  -- The text up to its last "}", or nothing.
  unfoldable pub to_last_brace : Text → Text
  to_last_brace [] = []
  to_last_brace (b ∷ s) =
      let rest = to_last_brace s in if is_empty rest && not (nat_eq b 0x7d) then [] else b ∷ rest

  -- The first line with a JSON object that has a command, from an opening brace on.
  unfoldable pub command_line : Text → List DetectedToolCall
  unfolding command_arguments first_line to_last_brace
  command_line [] = []
  command_line (b ∷ s) =
      let rest = command_line s in
      let line = to_last_brace (first_line (b ∷ s)) in
      if not (nat_eq b 0x7b) || is_empty line || not (contains line (codes "\"command\""))
      then rest
      else elim (as_object (env.decode line)) [
        | none ↦ rest
        | some m ↦ elim (command_arguments m) [ none ↦ rest | some a ↦ bash_call 0 a ∷ [] ]
      ]

  -- `fencedToolCalls`.
  unfoldable pub fenced_tool_calls : Fences → Text → List DetectedToolCall
  unfolding generic_calls named_calls command_line
  fenced_tool_calls fences text = elim (generic_calls 0 (fences.generic text)) [
    | c ∷ cs ↦ c ∷ cs
    | [] ↦ elim (named_calls fences.is_tool_call 0 (fences.named text)) [
      | c ∷ cs ↦ c ∷ cs
      | [] ↦ command_line text
    ]
  ]
