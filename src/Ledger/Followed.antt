-- ===== src/Ledger/Followed.antt =====
-- The calls of a conversation, each followed on its own: what the first loop of `buildAgentLedger`,
-- internal/web/agent_ledger.go, gathers in a map.
use m365_copilot2api.Prelude.{
  Text, List, [], ◌∷◌, ◌++◌, Option, none, some, Text_eq, codes, lookup, lookup-insert, false, true,
  if◌then◌else◌, is_empty, is_empty_iff, text_eq, text_eq_iff, ◌≡◌, ◌≢◌, ◌&&◌, map, refl, arith,
  Bool-cases, inl, inr, ap, sym, ◌∙◌, All, All-append, Option-cases, ◌⊎◌,
}
use mathlib.Core.List.{append_assoc, append-nil}
use m365_copilot2api.Json.{string_at, object_at, Fields}
use m365_copilot2api.Message.{Message, is_role, assistant, tool}
use m365_copilot2api.Ledger.{
  Env, ToolEvidence, content_to_string, compact_tool_result, argument_text,
}
use m365_copilot2api.Ledger.Collect.{
  Calls, note_call, note_calls, note_result, note_message, note_messages, no_calls, no_evidence,
  evidence_of,
}

-- The identifiers of calls, and of the calls of all assistants, in their order; a call that has none is
-- left out.
abbrev pub named : List Fields → List Text
named [] = []
named (raw ∷ raws) =
    if is_empty (string_at (codes "id") raw)
    then named raws
    else string_at (codes "id") raw ∷ named raws

-- The calls that a message makes.
abbrev pub issued : Message → List Fields
issued m = if is_role assistant m then m.tool_calls else []

abbrev pub ids_of : List Message → List Text
ids_of [] = []
ids_of (m ∷ ms) = named (issued m) ++ ids_of ms

module _ (env : Env) (id : Text) where
  -- The call that has the identifier now: the last of the message, which has no result yet, or else the
  -- one before.
  abbrev pub asked : List Fields → Option ToolEvidence → Option ToolEvidence
  asked [] o = o
  asked (raw ∷ raws) o = asked raws (
      if text_eq (string_at (codes "id") raw) id
      then some (record {
        id = id;
        name = string_at (codes "name") (object_at (codes "function") raw);
        arguments = argument_text env (object_at (codes "function") raw);
        result = [];
        failed = false;
      })
      else o)

  -- A tool message that names the call is its result, which replaces an earlier one.
  abbrev pub answered : Message → Option ToolEvidence → Option ToolEvidence
  answered m none = none
  answered m (some e) =
      let r = compact_tool_result (content_to_string env m.content) 4000 in
      if is_role tool m && text_eq m.tool_call_id id
      then some (record e { result = r; failed = env.failure_signal r })
      else some e

  abbrev pub followed : List Message → Option ToolEvidence → Option ToolEvidence
  followed [] o = o
  followed (m ∷ ms) o = followed ms (answered m (asked (issued m) o))

  lookup-note_call :
      (raw : Fields) (c : Calls)
      → id ≢ []
      → lookup id (note_call env raw c).evidence ≡ asked (raw ∷ []) (lookup id c.evidence)
  unfolding note_call
  lookup-note_call raw c full =
      let j = string_at (codes "id") raw in
      let e : ToolEvidence = record {
        id = j;
        name = string_at (codes "name") (object_at (codes "function") raw);
        arguments = argument_text env (object_at (codes "function") raw);
        result = [];
        failed = false;
      } in
      elim (Bool-cases (text_eq j id)) [
        | inl same ↦
            let at = (text_eq_iff j id).0 same in
            let kept : is_empty j ≡ false = ground (arith, is_empty_iff j) in
            rw (kept, same, note_call)
              (lookup-insert j id e c.evidence ∙ rw same (ap (λ i. some (record e { id = i })) at))
        | inr differs ↦ elim (Bool-cases (is_empty j)) [
          | inl bare ↦ rw (differs, bare, note_call) refl
          | inr kept ↦
              rw (differs, kept, note_call) (lookup-insert j id e c.evidence ∙ rw differs refl)
        ]
      ]

  lookup-note_calls :
      (raws : List Fields) (c : Calls)
      → id ≢ []
      → lookup id (note_calls env raws c).evidence ≡ asked raws (lookup id c.evidence)
  unfolding note_calls
  lookup-note_calls [] c full = refl
  lookup-note_calls (raw ∷ raws) c full =
      lookup-note_calls raws (note_call env raw c) full
      ∙ ap (asked raws) (lookup-note_call raw c full)

  -- A message that is no result of the call leaves it alone.
  answered-other :
      (m : Message) (o : Option ToolEvidence)
      → (is_role tool m ≡ false) ⊎ (text_eq m.tool_call_id id ≡ false)
      → {x : Option ToolEvidence} → x ≡ o
      → x ≡ answered m o
  answered-other m none other e = e
  answered-other m (some v) (inl other) e = e ∙ rw other refl
  answered-other m (some v) (inr other) e = elim (Bool-cases (is_role tool m)) [
    | inl yes_role ↦ e ∙ rw (yes_role, other) refl
    | inr no_role ↦ e ∙ rw no_role refl
  ]

  lookup-note_result :
      (m : Message) (c : Calls)
      → is_role tool m ≡ true
      → lookup id (note_result env m c).evidence ≡ answered m (lookup id c.evidence)
  unfolding note_result
  lookup-note_result m c role = elim (Bool-cases (text_eq m.tool_call_id id)) [
    | inl same ↦
        let at = (text_eq_iff m.tool_call_id id).0 same in
        elim (Option-cases (lookup id c.evidence)) [
          | inl gone ↦ rw (ap (λ i. lookup i c.evidence) at ∙ gone, gone, note_result) refl
          | inr (e, there) ↦
              rw (ap (λ i. lookup i c.evidence) at ∙ there, there, role, same, note_result)
                (lookup-insert m.tool_call_id id _ c.evidence ∙ rw same refl)
        ]
    | inr differs ↦
        answered-other m (lookup id c.evidence) (inr differs)
          (elim (Option-cases (lookup m.tool_call_id c.evidence)) [
            | inl gone ↦ rw (gone, note_result) refl
            | inr (e, there) ↦
                rw (there, note_result)
                  (lookup-insert m.tool_call_id id _ c.evidence ∙ rw differs refl)
          ])
  ]

  lookup-note_message :
      (m : Message) (c : Calls)
      → id ≢ []
      → lookup id (note_message env m c).evidence
        ≡ answered m (asked (issued m) (lookup id c.evidence))
  unfolding note_message
  lookup-note_message m c full =
      let c1 = (if is_role assistant m then note_calls env m.tool_calls c else c) in
      let calls : lookup id c1.evidence ≡ asked (issued m) (lookup id c.evidence) =
        elim (Bool-cases (is_role assistant m)) [
          | inl yes_role ↦ rw yes_role (lookup-note_calls m.tool_calls c full)
          | inr no_role ↦ rw no_role refl
        ] in
      elim (Bool-cases (is_role tool m)) [
        | inl role ↦ rw (role, note_message) (lookup-note_result m c1 role ∙ ap (answered m) calls)
        | inr other ↦
            answered-other m (asked (issued m) (lookup id c.evidence)) (inl other)
              (rw (other, note_message) calls)
      ]

  lookup-note_messages :
      (ms : List Message) (c : Calls)
      → id ≢ []
      → lookup id (note_messages env ms c).evidence ≡ followed ms (lookup id c.evidence)
  unfolding note_messages
  lookup-note_messages [] c full = refl
  lookup-note_messages (m ∷ ms) c full =
      lookup-note_messages ms (note_message env m c) full
      ∙ ap (followed ms) (lookup-note_message m c full)

module _ (env : Env) where
  order-note_calls :
      (raws : List Fields) (c : Calls) → (note_calls env raws c).order ≡ c.order ++ named raws
  unfolding note_calls note_call
  order-note_calls [] c = sym (append-nil c.order)
  order-note_calls (raw ∷ raws) c = elim (Bool-cases (is_empty (string_at (codes "id") raw))) [
    | inl bare ↦ rw (bare, note_calls, note_call) (order-note_calls raws c)
    | inr kept ↦
        order-note_calls raws (note_call env raw c)
        ∙ rw (kept, note_call) (append_assoc c.order (string_at (codes "id") raw ∷ []) (named raws))
  ]

  order-note_result : (m : Message) (c : Calls) → (note_result env m c).order ≡ c.order
  unfolding note_result
  order-note_result m c = elim (Option-cases (lookup m.tool_call_id c.evidence)) [
    | inl gone ↦ rw (gone, note_result) refl
    | inr (e, there) ↦ rw (there, note_result) refl
  ]

  order-note_message :
      (m : Message) (c : Calls) → (note_message env m c).order ≡ c.order ++ named (issued m)
  unfolding note_message note_result
  order-note_message m c =
      let c1 = (if is_role assistant m then note_calls env m.tool_calls c else c) in
      let calls : c1.order ≡ c.order ++ named (issued m) = elim (Bool-cases (is_role assistant m)) [
        | inl yes_role ↦ rw yes_role (order-note_calls m.tool_calls c)
        | inr no_role ↦ rw no_role (sym (append-nil c.order))
      ] in
      elim (Bool-cases (is_role tool m)) [
        | inl role ↦ rw (role, note_message) (order-note_result m c1 ∙ calls)
        | inr other ↦ rw (other, note_message) calls
      ]

  order-note_messages :
      (ms : List Message) (c : Calls) → (note_messages env ms c).order ≡ c.order ++ ids_of ms
  unfolding note_messages
  order-note_messages [] c = sym (append-nil c.order)
  order-note_messages (m ∷ ms) c =
      order-note_messages ms (note_message env m c)
      ∙ ap (λ l. l ++ ids_of ms) (order-note_message m c)
      ∙ append_assoc c.order (named (issued m)) (ids_of ms)

  named-full : (raws : List Fields) → All (λ id. id ≢ []) (named raws)
  named-full [] = tt
  named-full (raw ∷ raws) = elim (Bool-cases (is_empty (string_at (codes "id") raw))) [
    | inl bare ↦ rw bare (named-full raws)
    | inr kept ↦ rw kept (
      (λ e. absurd (ground (arith, (is_empty_iff (string_at (codes "id") raw)).1 e))),
      named-full raws,
    )
  ]

  ids_of-full : (ms : List Message) → All (λ id. id ≢ []) (ids_of ms)
  ids_of-full [] = tt
  ids_of-full (m ∷ ms) =
      All-append (λ id. id ≢ []) (named (issued m)) (ids_of ms) (named-full (issued m))
        (ids_of-full ms)

-- The calls of the conversation, in order, with what is known of their results.
abbrev pub calls_of : Env → List Message → List ToolEvidence
calls_of env ms =
    map (λ id. elim (followed env id ms none) [ none ↦ no_evidence | some e ↦ e ]) (ids_of ms)

map-same :
    {A B : Type 0} (P : A → Type 0) (f g : A → B)
    → ((x : A) → P x → f x ≡ g x)
    → (xs : List A) → All P xs
    → map f xs ≡ map g xs
map-same P f g same [] h = refl
map-same P f g same (x ∷ xs) h =
    ap (λ y. y ∷ map f xs) (same x h.0) ∙ ap (λ ys. g x ∷ ys) (map-same P f g same xs h.1)

pub evidence_list-calls_of :
    (env : Env) (ms : List Message)
    → map
        (evidence_of (note_messages env ms no_calls).evidence)
        (note_messages env ms no_calls).order
      ≡ calls_of env ms
unfolding lookup
evidence_list-calls_of env ms =
    let c = note_messages env ms no_calls in
    ap (map (evidence_of c.evidence)) (order-note_messages env ms no_calls)
    ∙ map-same (λ id. id ≢ []) (evidence_of c.evidence)
        (λ id. elim (followed env id ms none) [ none ↦ no_evidence | some e ↦ e ])
        (λ id full.
          ap (λ (o : Option ToolEvidence). elim o [ none ↦ no_evidence | some e ↦ e ])
            (lookup-note_messages env id ms no_calls full))
        (ids_of ms) (ids_of-full env ms)
