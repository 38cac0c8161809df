-- ===== src/Tools/Fenced/Permitted.antt =====
-- Which calls an answer may make: `fencedToolCalls` of internal/web/fenced_tools.go.
use m365_copilot2api.Prelude.{
  ℕ, suc, ◌≡◌, ◌⊎◌, inl, inr, refl, List, [], ◌∷◌, Option, none, some, Bool, true, false, ◌&&◌,
  ◌||◌, not, Text, codes, is_empty, trim_space, All, arith, Option-cases, Bool-cases, nat_eq,
  contains,
}
use m365_copilot2api.Json
use m365_copilot2api.Json.{Value, Fields, as_object}
use m365_copilot2api.Tools.{Env, DetectedToolCall, is_allowed, tool_choice_allows}
use m365_copilot2api.Tools.Fenced.{
  Fences, first_string, arguments_of, name_keys, command_arguments, generic_call, block_value,
  shell_call, tool_call, named_call, generic_calls, named_calls, command_line, fenced_tool_calls,
  is_shell, to_last_brace, first_line,
}

kept_by : (a b c : Bool) → (a || not b || not c) ≡ false → (b ≡ true) × (c ≡ true)
kept_by a b c h = (ground arith, ground arith)

module _ (env : Env) (tools : List Fields) (choice : Value) where
  -- The call is of a tool that was offered, and that the choice allows.
  abbrev pub IsPermitted : DetectedToolCall → Type 0
  IsPermitted c = (is_allowed tools c.name ≡ true) × (tool_choice_allows choice c.name ≡ true)

  -- The call is of a tool that was offered, or of `bash`.
  abbrev pub IsOffered : DetectedToolCall → Type 0
  IsOffered c = (is_allowed tools c.name ≡ true) ⊎ (c.name ≡ codes "bash")

  abbrev OptionAll : (DetectedToolCall → Type 0) → Option DetectedToolCall → Type 0
  OptionAll P none = Unit {0}
  OptionAll P (some c) = P c

  generic_call-IsPermitted :
      (n : ℕ) (b : Text) → OptionAll IsPermitted (generic_call env tools choice n b)
  unfolding generic_call
  generic_call-IsPermitted n b = elim (Option-cases (as_object (env.decode (trim_space b)))) [
    | inl bad ↦ rw (bad, generic_call) tt
    | inr (m, good) ↦
        elim (Bool-cases (
          is_empty (first_string name_keys m)
          || not (is_allowed tools (first_string name_keys m))
          || not (tool_choice_allows choice (first_string name_keys m)))) [
            | inl out ↦ rw (good, out, generic_call) tt
            | inr kept ↦
                rw (good, kept, generic_call)
                  (kept_by (is_empty (first_string name_keys m)) _ _ kept)
          ]
  ]

  shell_call-IsOffered : (n : ℕ) (b : Text) → OptionAll IsOffered (shell_call env tools choice n b)
  unfolding shell_call
  shell_call-IsOffered n b = elim (Option-cases (block_value env tools choice b)) [
    | inl text ↦ rw (text, shell_call) (inr refl)
    | inr (v, json) ↦ elim (Option-cases (as_object (some v))) [
      | inl other ↦ rw (json, other, shell_call) tt
      | inr (m, object) ↦ elim (Option-cases (command_arguments m)) [
        | inl bare ↦ rw (json, object, bare, shell_call) tt
        | inr (a, command) ↦ rw (json, object, command, shell_call) (inr refl)
      ]
    ]
  ]

  tool_call-IsOffered :
      (n : ℕ) (name : Text) (v : Value)
      → is_allowed tools name ≡ true
      → IsOffered (tool_call env tools choice n name v)
  unfolding tool_call
  tool_call-IsOffered n name v allowed = elim (Bool-cases (is_allowed tools inner)) [
    | inr foreign ↦ rw (foreign, tool_call) (inl allowed)
    | inl own ↦ elim (Option-cases (arguments_of m)) [
      | inl bare ↦ rw (own, bare, tool_call) (inl allowed)
      | inr (a, args) ↦ rw (own, args, tool_call) (inl own)
    ]
  ]
    where
      m : Fields
      m = elim (as_object (some v)) [ none ↦ Json.end | some f ↦ f ]

      inner : Text
      inner = first_string (codes "name" ∷ codes "tool" ∷ codes "tool_name" ∷ []) m

  named_call-IsOffered :
      (is_tool_call : Text → Bool) (n : ℕ) (name b : Text)
      → OptionAll IsOffered (named_call env tools choice is_tool_call n name b)
  unfolding named_call
  named_call-IsOffered is_tool_call n name b = elim (Bool-cases (is_tool_call name)) [
    | inl generic ↦ rw (generic, named_call) tt
    | inr other ↦ elim (Bool-cases (not (is_allowed tools name) && is_shell name)) [
      | inl shell ↦ rw (other, shell, named_call) (shell_call-IsOffered n (trim_space b))
      | inr tool ↦
          elim (Bool-cases (not (is_allowed tools name) || not (tool_choice_allows choice name))) [
            | inl out ↦ rw (other, tool, out, named_call) tt
            | inr kept ↦ elim (Option-cases (block_value env tools choice (trim_space b))) [
              | inl bad ↦ rw (other, tool, kept, bad, named_call) tt
              | inr (v, good) ↦
                  rw (other, tool, kept, good, named_call)
                    (tool_call-IsOffered n name v
                      (kept_by false (is_allowed tools name) (tool_choice_allows choice name)
                        kept).0)
            ]
          ]
    ]
  ]

  generic_calls-IsPermitted :
      (n : ℕ) (bs : List Text) → All IsPermitted (generic_calls env tools choice n bs)
  unfolding generic_calls
  generic_calls-IsPermitted n [] = tt
  generic_calls-IsPermitted n (b ∷ bs) =
      go (generic_call env tools choice n b) (generic_call-IsPermitted n b)
        (λ m. generic_calls-IsPermitted m bs)
    where
      go :
          (c : Option DetectedToolCall)
          → OptionAll IsPermitted c
          → ((m : ℕ) → All IsPermitted (generic_calls env tools choice m bs))
          → All IsPermitted (elim c [
            | none ↦ generic_calls env tools choice n bs
            | some d ↦ d ∷ generic_calls env tools choice (suc n) bs
          ])
      go none p rest = rest n
      go (some d) p rest = (p, rest (suc n))

  named_calls-IsOffered :
      (is_tool_call : Text → Bool) (n : ℕ) (bs : List (Text × Text))
      → All IsOffered (named_calls env tools choice is_tool_call n bs)
  unfolding named_calls
  named_calls-IsOffered is_tool_call n [] = tt
  named_calls-IsOffered is_tool_call n ((name, b) ∷ bs) =
      go (named_call env tools choice is_tool_call n name b)
        (named_call-IsOffered is_tool_call n name b) (λ m. named_calls-IsOffered is_tool_call m bs)
    where
      go :
          (c : Option DetectedToolCall)
          → OptionAll IsOffered c
          → ((m : ℕ) → All IsOffered (named_calls env tools choice is_tool_call m bs))
          → All IsOffered (elim c [
            | none ↦ named_calls env tools choice is_tool_call n bs
            | some d ↦ d ∷ named_calls env tools choice is_tool_call (suc n) bs
          ])
      go none p rest = rest n
      go (some d) p rest = (p, rest (suc n))

  command_line-IsOffered : (s : Text) → All IsOffered (command_line env tools choice s)
  unfolding command_line
  command_line-IsOffered [] = tt
  command_line-IsOffered (b ∷ s) =
      elim (Bool-cases
        (not (nat_eq b 0x7b) || is_empty line || not (contains line (codes "\"command\"")))) [
          | inl other ↦ rw (other, command_line) (command_line-IsOffered s)
          | inr brace ↦ elim (Option-cases (as_object (env.decode line))) [
            | inl bad ↦ rw (brace, bad, command_line) (command_line-IsOffered s)
            | inr (m, good) ↦ elim (Option-cases (command_arguments m)) [
              | inl bare ↦ rw (brace, good, bare, command_line) (command_line-IsOffered s)
              | inr (a, command) ↦ rw (brace, good, command, command_line) (inr refl, tt)
            ]
          ]
        ]
    where
      line : Text
      line = to_last_brace env tools choice (first_line env tools choice (b ∷ s))

  -- The calls of an answer are all of offered tools that the choice of the request allows, where a block
  -- fenced as `tool_call` holds one; otherwise they are of offered tools or of `bash`.
  pub fenced_tool_calls-IsOffered :
      (fences : Fences) (text : Text)
      → ((fenced_tool_calls env tools choice fences text
            ≡ generic_calls env tools choice 0 (fences.generic text))
          × All IsPermitted (fenced_tool_calls env tools choice fences text))
        ⊎ ((generic_calls env tools choice 0 (fences.generic text) ≡ [])
            × All IsOffered (fenced_tool_calls env tools choice fences text))
  unfolding fenced_tool_calls
  fenced_tool_calls-IsOffered fences text =
      go (generic_calls env tools choice 0 (fences.generic text)) refl
        (generic_calls-IsPermitted 0 (fences.generic text))
    where
      later :
          (cs : List DetectedToolCall)
          → All IsOffered cs
          → All IsOffered (elim cs [ [] ↦ command_line env tools choice text | d ∷ ds ↦ d ∷ ds ])
      later [] a = command_line-IsOffered text
      later (d ∷ ds) a = a

      go :
          (cs : List DetectedToolCall)
          → generic_calls env tools choice 0 (fences.generic text) ≡ cs
          → All IsPermitted cs
          → ((fenced_tool_calls env tools choice fences text
                ≡ generic_calls env tools choice 0 (fences.generic text))
              × All IsPermitted (fenced_tool_calls env tools choice fences text))
            ⊎ ((generic_calls env tools choice 0 (fences.generic text) ≡ [])
                × All IsOffered (fenced_tool_calls env tools choice fences text))
      go (c ∷ cs) at a = inl (rw (at, fenced_tool_calls) (refl, a))
      go [] at a = inr (
        at,
        rw (at, fenced_tool_calls)
            (later (named_calls env tools choice fences.is_tool_call 0 (fences.named text))
              (named_calls-IsOffered fences.is_tool_call 0 (fences.named text))),
      )
