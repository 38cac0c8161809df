-- ===== src/Tools/Native/Offered.antt =====
-- Which calls the frames of the chat service may make: internal/web/native_tools.go.
use m365_copilot2api.Prelude.{
  ◌≡◌, inl, inr, refl, sym, subst, List, [], ◌∷◌, Option, none, some, Bool, true, ◌&&◌, not, Text,
  text_eq, is_empty, any, All, All-append, Option-cases, Bool-cases,
}
use mathlib.Core.Option.{some-injective, some-ne-none}
use m365_copilot2api.Json
use m365_copilot2api.Json.{Value, Items, Fields, as_string}
use m365_copilot2api.Tools.{DetectedToolCall}
use m365_copilot2api.Tools.Native.{
  Native, native_name, native_arguments, native_name_keys, native_argument_keys, object_call,
  walk_native, walk_native_items, walk_native_fields, native_tool_calls,
}

module _ (env : Native) (names : List Text) where
  abbrev pub is_offered : Text → Bool
  is_offered s = not (is_empty s) && any (λ n. text_eq n s) names

  -- The call is of a tool of the request, and an object of a frame gives its name and its arguments.
  abbrev pub IsFound : DetectedToolCall → Type 0
  IsFound c = (is_offered c.name ≡ true) × ((m : Fields) × (object_call env names m ≡ some c))

  native_name-offered :
      (ks : List Text) (m : Fields) (s : Text)
      → native_name names ks m ≡ some s
      → is_offered s ≡ true
  unfolding native_name
  native_name-offered [] m s h = absurd (some-ne-none s (sym h))
  native_name-offered (k ∷ ks) m s h = elim (Option-cases (as_string (Json.get k m))) [
    | inl other ↦ native_name-offered ks m s (rw (other, native_name) at h)
    | inr (t, found) ↦ elim (Bool-cases (is_offered t)) [
      | inl good ↦
          subst (λ (x : Text). is_offered x ≡ true)
            (some-injective t s (rw (found, good, native_name) at h)) good
      | inr bad ↦ native_name-offered ks m s (rw (found, bad, native_name) at h)
    ]
  ]

  object_call-IsFound :
      (m : Fields) (c : DetectedToolCall) → object_call env names m ≡ some c → IsFound c
  unfolding object_call
  object_call-IsFound m c h = elim (Option-cases (native_name names native_name_keys m)) [
    | inl bare ↦ absurd (some-ne-none c (sym (rw (bare, object_call) at h)))
    | inr (s, named) ↦ elim (Option-cases (native_arguments native_argument_keys m)) [
      | inl bare ↦ absurd (some-ne-none c (sym (rw (named, bare, object_call) at h)))
      | inr (a, given) ↦ (
        subst (λ (x : DetectedToolCall). is_offered x.name ≡ true)
            (some-injective _ c (rw (named, given, object_call) at h))
            (native_name-offered native_name_keys m s named),
        (m, h),
      )
    ]
  ]

  object-IsFound :
      (o : Option DetectedToolCall) (m : Fields)
      → object_call env names m ≡ o
      → All IsFound (walk_native_fields env names m)
      → All IsFound (elim o [ some c ↦ c ∷ [] | none ↦ walk_native_fields env names m ])
  object-IsFound none m at inner = inner
  object-IsFound (some c) m at inner = (object_call-IsFound m c at, tt)

  mutual
    unfolding walk_native

    walk_native-IsFound : (v : Value) → All IsFound (walk_native env names v)
    walk_native-IsFound (Json.arr vs) = walk_native_items-IsFound vs
    walk_native-IsFound (Json.obj m) =
        object-IsFound (object_call env names m) m refl (walk_native_fields-IsFound m)
    walk_native-IsFound Json.null = tt
    walk_native-IsFound (Json.bool b) = tt
    walk_native-IsFound (Json.num n) = tt
    walk_native-IsFound (Json.str s) = tt

    walk_native_items-IsFound : (vs : Items) → All IsFound (walk_native_items env names vs)
    walk_native_items-IsFound Json.nil = tt
    walk_native_items-IsFound (Json.cons v vs) =
        All-append IsFound (walk_native env names v) (walk_native_items env names vs)
          (walk_native-IsFound v) (walk_native_items-IsFound vs)

    walk_native_fields-IsFound : (m : Fields) → All IsFound (walk_native_fields env names m)
    walk_native_fields-IsFound Json.end = tt
    walk_native_fields-IsFound (Json.field k v m) =
        All-append IsFound (walk_native env names v) (walk_native_fields env names m)
          (walk_native-IsFound v) (walk_native_fields-IsFound m)

  -- Every call that is read from the frames is of a tool of the request, and an object of a frame holds
  -- its name together with its arguments: none is guessed.
  pub native_tool_calls-IsFound :
      (events : List Text) → All IsFound (native_tool_calls env names events)
  unfolding native_tool_calls
  native_tool_calls-IsFound [] = tt
  native_tool_calls-IsFound (e ∷ es) =
      All-append IsFound _ (native_tool_calls env names es) (decoded (env.decode e))
        (native_tool_calls-IsFound es)
    where
      decoded :
          (o : Option Value) → All IsFound (elim o [ none ↦ [] | some v ↦ walk_native env names v ])
      decoded none = tt
      decoded (some v) = walk_native-IsFound v
