-- ===== src/Conversation/Protocol.antt =====
-- The tool protocol, as a relation that knows no maps, against internal/web/tool_state.go.
use m365_copilot2api.Prelude.{
  ℕ, suc, ◌≡◌, ◌≢◌, ◌↔◌, refl, List, [], ◌∷◌, Text, text_eq_iff, lookup, Text_eq, ok, >>=-eq-ok,
  ok-injective, subst, sym, ◌⊎◌, ◌∙◌, arith, inl, inr,
}
use m365_copilot2api.Json.{Fields}
use m365_copilot2api.Message.{Message, assistant, tool}
use m365_copilot2api.Conversation.{
  State, start, call_id, open_call, open_calls, assistant_turn, tool_turn, turn, turns, finish,
  validate_tool_conversation,
}
use m365_copilot2api.Conversation.Tracking.{
  count, Balanced, held, Tracks, opened-Tracks, answered-Tracks, open_call-ok, ok-open_call,
  tool_turn-ok, ok-tool_turn, pending-Balanced, Balanced-pending,
}

-- The calls of one assistant message, given the identifiers that are taken.
pub data Opens : List Text → List Fields → List Text → Type 0 where
  none_left : {called : List Text} → Opens called [] called
  opens :
      {called after : List Text} {c : Fields} {cs : List Fields}
      → call_id c ≢ []
      → count (call_id c) called ≡ 0
      → Opens (call_id c ∷ called) cs after
      → Opens called (c ∷ cs) after

-- Conversations that keep the protocol, after the given calls and answers.
pub data Legal : List Text → List Text → List Message → Type 0 where
  done : {called answered : List Text} → Balanced called answered → Legal called answered []
  asks :
      {called answered after : List Text} {m : Message} {ms : List Message}
      → m.role ≡ assistant
      → Balanced called answered
      → Opens called m.tool_calls after
      → Legal after answered ms
      → Legal called answered (m ∷ ms)
  answers :
      {called answered : List Text} {m : Message} {ms : List Message}
      → m.role ≡ tool
      → m.tool_call_id ≢ []
      → count m.tool_call_id called ≡ 1
      → count m.tool_call_id answered ≡ 0
      → Legal called (m.tool_call_id ∷ answered) ms
      → Legal called answered (m ∷ ms)
  speaks :
      {called answered : List Text} {m : Message} {ms : List Message}
      → m.role ≢ assistant
      → m.role ≢ tool
      → Legal called answered ms
      → Legal called answered (m ∷ ms)

-- The calls of a message are opened exactly when the relation has them.
open_calls-Opens :
    (i : ℕ) (cs : List Fields) {s s' : State} {called answered : List Text}
    → Tracks s called answered
    → open_calls i s cs ≡ ok s'
    → (after : List Text) × Opens called cs after × Tracks s' after answered
unfolding open_calls
open_calls-Opens i [] {s} {s'} {called} {answered} t h =
    (called, none_left, subst (λ u. Tracks u called answered) (ok-injective h) t)
open_calls-Opens i (c ∷ cs) {s} {s'} t h =
    let (u, opened, rest) = >>=-eq-ok (open_call i s (call_id c)) (λ v. open_calls i v cs) h in
    let (named, fresh, e) = ok-open_call t i (call_id c) opened in
    let (after, os, t') =
      open_calls-Opens i cs (opened-Tracks t (call_id c) fresh) (rw (← e) rest) in
    (after, opens named fresh os, t')

Opens-open_calls :
    (i : ℕ) {cs : List Fields} {s : State} {called after answered : List Text}
    → Tracks s called answered
    → Opens called cs after
    → (s' : State) × (open_calls i s cs ≡ ok s') × Tracks s' after answered
unfolding open_calls
Opens-open_calls i {s = s} t none_left = (s, refl, t)
Opens-open_calls i {s = s} t (opens {c = c} named fresh rest) =
    rw (open_call-ok t i (call_id c) named fresh)
      (Opens-open_calls i (opened-Tracks t (call_id c) fresh) rest)

pub assistant_turn-pending :
    (i : ℕ) (s : State) (calls : List Fields) {s' : State}
    → assistant_turn i s calls ≡ ok s'
    → (s.pending ≡ []) × (open_calls i s calls ≡ ok s')
unfolding assistant_turn
assistant_turn-pending i s calls h = ground arith

assistant_turn-open_calls :
    (i : ℕ) (s : State) (calls : List Fields)
    → s.pending ≡ []
    → assistant_turn i s calls ≡ open_calls i s calls
unfolding assistant_turn
assistant_turn-open_calls i s calls e = ground arith

finish-pending : (s : State) {s' : State} → finish s ≡ ok s' → s.pending ≡ []
unfolding finish
finish-pending s h = ground arith

pending-finish : (s : State) → s.pending ≡ [] → finish s ≡ ok s
unfolding finish
pending-finish s h = ground arith

-- The three cases of the switch.
turn-cases :
    (i : ℕ) (s : State) (m : Message)
    → ((m.role ≡ assistant) × (turn i s m ≡ assistant_turn i s m.tool_calls))
      ⊎ ((m.role ≡ tool) × (turn i s m ≡ tool_turn i s m.tool_call_id))
      ⊎ ((m.role ≢ assistant) × (m.role ≢ tool) × (turn i s m ≡ ok s))
unfolding turn
turn-cases i s m = ground (arith, text_eq_iff m.role assistant, text_eq_iff m.role tool)

pub turn-assistant :
    (i : ℕ) (s : State) (m : Message)
    → m.role ≡ assistant
    → turn i s m ≡ assistant_turn i s m.tool_calls
unfolding turn
turn-assistant i s m r = ground (arith, text_eq_iff m.role assistant)

turn-tool :
    (i : ℕ) (s : State) (m : Message) → m.role ≡ tool → turn i s m ≡ tool_turn i s m.tool_call_id
unfolding turn
turn-tool i s m r = ground (arith, text_eq_iff m.role assistant, text_eq_iff m.role tool)

turn_other :
    (i : ℕ) (s : State) (m : Message) → m.role ≢ assistant → m.role ≢ tool → turn i s m ≡ ok s
unfolding turn
turn_other i s m a b = ground (arith, text_eq_iff m.role assistant, text_eq_iff m.role tool)

Accepts-Legal :
    (i : ℕ) (ms : List Message) {s s' s'' : State} {called answered : List Text}
    → Tracks s called answered
    → turns i s ms ≡ ok s'
    → finish s' ≡ ok s''
    → Legal called answered ms
unfolding turns
Accepts-Legal i [] {s} {s'} {s''} t h e = done (
    pending-Balanced t (finish-pending s (subst (λ u. finish u ≡ ok s'') (sym (ok-injective h)) e)))
Accepts-Legal i (m ∷ ms) {s} t h e =
    let (u, turned, rest) = >>=-eq-ok (turn i s m) (λ v. turns (suc i) v ms) h in
    elim (turn-cases i s m) [
      | inl (r, eq) ↦
          let (p, opened) = assistant_turn-pending i s m.tool_calls (sym eq ∙ turned) in
          let (after, os, t') = open_calls-Opens i m.tool_calls t opened in
          asks r (pending-Balanced t p) os (Accepts-Legal (suc i) ms t' rest e)
      | inr (inl (r, eq)) ↦
          let (named, one, unanswered, at) = ok-tool_turn t i m.tool_call_id (sym eq ∙ turned) in
          answers r named one unanswered (
            Accepts-Legal (suc i) ms (answered-Tracks t m.tool_call_id one unanswered)
              (rw (← at) rest) e)
      | inr (inr (a, b, eq)) ↦
          speaks a b (Accepts-Legal (suc i) ms t (rw (ok-injective (sym eq ∙ turned)) rest) e)
    ]

Legal-Accepts :
    (i : ℕ) {ms : List Message} {s : State} {called answered : List Text}
    → Tracks s called answered
    → Legal called answered ms
    → (s' : State) × (turns i s ms ≡ ok s') × (s'.pending ≡ [])
unfolding turns
Legal-Accepts i {s = s} t (done b) = (s, refl, Balanced-pending t b)
Legal-Accepts i {s = s} t (asks {m = m} r b os rest) =
    let (u, opened, t') = Opens-open_calls i t os in
    rw
      (
        turn-assistant i s m r,
        assistant_turn-open_calls i s m.tool_calls (Balanced-pending t b),
        opened,
      )
      (Legal-Accepts (suc i) t' rest)
Legal-Accepts i {s = s} t (answers {m = m} r named one unanswered rest) =
    rw (turn-tool i s m r, tool_turn-ok t i m.tool_call_id named one unanswered)
      (Legal-Accepts (suc i) (answered-Tracks t m.tool_call_id one unanswered) rest)
Legal-Accepts i {s = s} t (speaks {m = m} a b rest) =
    rw (turn_other i s m a b) (Legal-Accepts (suc i) t rest)

start-Tracks : Tracks start [] []
unfolding count held lookup
start-Tracks = record { calls = λ id. refl; answers = λ id. refl; once = λ id. omega arith }

-- The check succeeds exactly on the conversations that keep the protocol: calls have new,
-- non-empty identifiers, each result answers an open call, and whenever an assistant speaks, and at
-- the end, every call has been answered exactly once.
pub validate_tool_conversation-Legal :
    (ms : List Message) → ((s : State) × (validate_tool_conversation ms ≡ ok s)) ↔ Legal [] [] ms
unfolding validate_tool_conversation
validate_tool_conversation-Legal ms = (
  (λ (s, h).
      let (u, ran, e) = >>=-eq-ok (turns 0 start ms) finish h in
      Accepts-Legal 0 ms start-Tracks ran e),
  (λ l. let (u, ran, p) = Legal-Accepts 0 start-Tracks l in (u, rw ran (pending-finish u p))),
)
