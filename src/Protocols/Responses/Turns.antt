-- ===== src/Protocols/Responses/Turns.antt =====
-- The calls of one turn in the Responses protocol: `openAI` of internal/web/protocol_compat.go against
-- `validateToolConversation` of internal/web/tool_state.go.
use m365_copilot2api.Json
use m365_copilot2api.Prelude.{
  ok, err, true, inl, inr, refl, List, [], ◌∷◌, ◌++◌, ◌≡◌, ◌≢◌, ℕ, suc, Result-cases, Text, Bool,
  Dict, insert, Text_eq, Option, >>=-eq-ok, ok-injective, subst, sym, ap, ◌∙◌, arith, codes,
}
use mathlib.Core.List.{append_assoc}
use m365_copilot2api.Json.{Fields, Value, string_at, Items, items_list}
use m365_copilot2api.Message.{Message, assistant}
use m365_copilot2api.Conversation.{
  State, Error, turn, turns, assistant_turn, results_missing, open_call, open_calls, call_id,
  validate_tool_conversation, start,
}
use m365_copilot2api.Conversation.Protocol.{turn-assistant, assistant_turn-pending}
use m365_copilot2api.Protocols.Responses.{
  items_messages, item_messages, item_of, call_message, value_messages, call_item, arguments_of,
  ResponsesRequest, responses_request, input_messages, system_messages,
}
use m365_copilot2api.Completions.{OaiReq}

-- A message of the assistant with one call.
abbrev pub OneCall : Message → Type 0
OneCall m = (c : Fields) × (m.role ≡ assistant) × (m.tool_calls ≡ c ∷ [])

insert-ne-nil : (id : Text) (m : Dict Text Bool) → insert id true m ≢ []
unfolding insert
insert-ne-nil id [] h = cc
insert-ne-nil id ((k, b) ∷ m) h = ground arith

opened-waits : (i : ℕ) (s s1 : State) (id : Text) → open_call i s id ≡ ok s1 → s1.pending ≢ []
unfolding open_call
opened-waits i s s1 id h empty = ground (arith, insert-ne-nil id s.pending)

-- After it, a call waits.
call-waits : (i : ℕ) (s s1 : State) (m : Message) → OneCall m → turn i s m ≡ ok s1 → s1.pending ≢ []
unfolding open_calls
call-waits i s s1 m (c, role, calls) h =
    let (p, opened) =
      assistant_turn-pending i s m.tool_calls (sym (turn-assistant i s m role) ∙ h) in
    let one = subst (λ cs. open_calls i s cs ≡ ok s1) calls opened in
    let (u, first, same) = >>=-eq-ok (open_call i s (call_id c)) _ one in
    subst (λ v. v.pending ≢ []) (ok-injective same) (opened-waits i s u (call_id c) first)

refused-waiting :
    (i : ℕ) (s : State) (cs : List Fields)
    → s.pending ≢ []
    → assistant_turn i s cs ≡ err (results_missing i)
unfolding assistant_turn
refused-waiting i s cs h = ground arith

second-refused :
    (i : ℕ) (s : State) (m : Message)
    → OneCall m
    → s.pending ≢ []
    → turn i s m ≡ err (results_missing i)
second-refused i s m (c, role, calls) h =
    turn-assistant i s m role ∙ refused-waiting i s m.tool_calls h

turns-refused :
    (i : ℕ) (s : State) (xs : List Message) (a b : Message) (ys : List Message)
    → OneCall a
    → OneCall b
    → (e : Error) × (turns i s (xs ++ a ∷ b ∷ ys) ≡ err e)
unfolding turns
turns-refused i s [] a b ys ha hb = elim (Result-cases (turn i s a)) [
  | inr (e, refused) ↦ (e, rw refused refl)
  | inl (s1, took) ↦ (
    results_missing (suc i),
    rw (took, second-refused (suc i) s1 b hb (call-waits i s s1 a ha took)) refl,
  )
]
turns-refused i s (x ∷ xs) a b ys ha hb = elim (Result-cases (turn i s x)) [
  | inr (e, refused) ↦ (e, rw refused refl)
  | inl (s1, took) ↦
      let (e, later) = turns-refused (suc i) s1 xs a b ys ha hb in (e, rw (took, later) refl)
]

validate-refused :
    (xs : List Message) (a b : Message) (ys : List Message)
    → OneCall a
    → OneCall b
    → (e : Error) × (validate_tool_conversation (xs ++ a ∷ b ∷ ys) ≡ err e)
unfolding validate_tool_conversation
validate-refused xs a b ys ha hb =
    let (e, refused) = turns-refused 0 start xs a b ys ha hb in (e, rw refused refl)

module _ (decode : Text → Option Value) (encode : Value → Text) where
  -- The items of a list become the messages of its parts.
  items-append :
      (vs ws : List Value) (ms : List Message)
      → items_messages decode encode (vs ++ ws) ≡ ok ms
      → (xs : List Message) × (ys : List Message) × (items_messages decode encode ws ≡ ok ys)
        × (ms ≡ xs ++ ys)
  unfolding items_messages
  items-append [] ws ms h = ([], ms, h, refl)
  items-append (v ∷ vs) ws ms h =
      let (first, converted, later) = >>=-eq-ok (value_messages decode encode v) _ h in
      let (rest, tail, last) =
        >>=-eq-ok (items_messages decode encode (vs ++ ws)) (λ l. ok (first ++ l)) later in
      let (xs, ys, split, same) = items-append vs ws rest tail in
      (
        first ++ xs,
        ys,
        split,
        sym (ok-injective last) ∙ ap (λ l. first ++ l) same ∙ sym (append_assoc first xs ys),
      )

  -- A call of the protocol, as an item.
  abbrev pub IsCall : Fields → Type 0
  IsCall m = item_of (string_at (codes "type") m) ≡ call_item

  abbrev called : Fields → Message
  called m = call_message decode encode (codes "function") m (encode (arguments_of decode encode m))

  call-value :
      (m : Fields) → IsCall m → value_messages decode encode (Json.obj m) ≡ ok (called m ∷ [])
  unfolding value_messages item_messages
  call-value m h = rw h refl

  called-OneCall : (m : Fields) → OneCall (called m)
  unfolding call_message
  called-OneCall m = (_, refl, refl)

  two-calls :
      (m n : Fields) (vs : List Value) (ms : List Message)
      → IsCall m
      → IsCall n
      → items_messages decode encode (Json.obj m ∷ Json.obj n ∷ vs) ≡ ok ms
      → (ys : List Message) × (ms ≡ called m ∷ called n ∷ ys)
  unfolding items_messages
  two-calls m n vs ms hm hn h =
      let (xs, first, later) = >>=-eq-ok (value_messages decode encode (Json.obj m)) _ h in
      let (rest, tail, last) =
        >>=-eq-ok (items_messages decode encode (Json.obj n ∷ vs)) (λ l. ok (xs ++ l)) later in
      let (ys, second, behind) = >>=-eq-ok (value_messages decode encode (Json.obj n)) _ tail in
      let (zs, others, end) =
        >>=-eq-ok (items_messages decode encode vs) (λ l. ok (ys ++ l)) behind in
      (
        zs,
        sym (ok-injective last)
            ∙ ap (λ l. l ++ rest) (ok-injective (sym first ∙ call-value m hm))
            ∙ ap (λ l. called m ∷ l)
                (sym (ok-injective end)
                  ∙ ap (λ l. l ++ zs) (ok-injective (sym second ∙ call-value n hn))),
      )

  calls-refused :
      (sys : List Message) (before : List Value) (m n : Fields) (behind : List Value)
      (ms : List Message)
      → IsCall m
      → IsCall n
      → items_messages decode encode (before ++ Json.obj m ∷ Json.obj n ∷ behind) ≡ ok ms
      → (e : Error) × (validate_tool_conversation (sys ++ ms) ≡ err e)
  calls-refused sys before m n behind ms hm hn h =
      let (xs, tail, split, same) = items-append before (Json.obj m ∷ Json.obj n ∷ behind) ms h in
      let (ys, order) = two-calls m n behind tail hm hn split in
      let whole : sys ++ ms ≡ (sys ++ xs) ++ called m ∷ called n ∷ ys =
        ap (λ l. sys ++ l) (same ∙ ap (λ l. xs ++ l) order)
        ∙ sym (append_assoc sys xs (called m ∷ called n ∷ ys)) in
      subst (λ l. (e : Error) × (validate_tool_conversation l ≡ err e)) (sym whole)
        (validate-refused (sys ++ xs) (called m) (called n) ys (called-OneCall m)
          (called-OneCall n))

  -- A request of the Responses protocol that gives back two calls of one turn, one item after the other, is
  -- translated into a request that is always refused: its messages fail the check of tool calls, whatever
  -- stands before and behind the two items.
  pub parallel_calls-refused :
      (r : ResponsesRequest) (o : OaiReq) (vs : Items) (before : List Value) (m n : Fields)
      (behind : List Value)
      → r.input ≡ Json.arr vs
      → items_list vs ≡ before ++ Json.obj m ∷ Json.obj n ∷ behind
      → IsCall m
      → IsCall n
      → responses_request decode encode r ≡ ok o
      → (e : Error) × (validate_tool_conversation o.messages ≡ err e)
  unfolding responses_request input_messages
  parallel_calls-refused r o vs before m n behind given items hm hn h =
      let (ms, converted, built) = >>=-eq-ok (input_messages decode encode r.input) _ h in
      let listed : items_messages decode encode (items_list vs) ≡ ok ms =
        subst (λ v. input_messages decode encode v ≡ ok ms) given converted in
      subst (λ (q : OaiReq). (e : Error) × (validate_tool_conversation q.messages ≡ err e))
        (ok-injective built)
        (calls-refused (system_messages decode encode r) before m n behind ms hm hn
          (subst (λ l. items_messages decode encode l ≡ ok ms) items listed))
