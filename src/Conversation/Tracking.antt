-- ===== src/Conversation/Tracking.antt =====
-- How the two maps of internal/web/tool_state.go count the calls and the answers of a conversation.
use m365_copilot2api.Prelude.{
  ℕ, suc, ◌+◌, ◌≤◌, ◌≡◌, ◌≢◌, refl, List, [], ◌∷◌, Bool, true, Text, text_eq, text_eq_iff, Dict,
  lookup, insert, delete, has_key, Text_eq, lookup-insert, lookup-delete, if◌then◌else◌, ok, arith,
}
use m365_copilot2api.Conversation.{State, open_call, tool_turn}

unfoldable pub count : Text → List Text → ℕ
count k [] = 0
count k (j ∷ js) = if text_eq j k then suc (count k js) else count k js

-- Every identifier was called as often as it was answered.
abbrev pub Balanced : List Text → List Text → Type 0
Balanced called answered = (id : Text) → count id called ≡ count id answered

-- 1 for a key of the map, 0 for any other text.
unfoldable pub held : Text → Dict Text Bool → ℕ
held id d = if has_key id d then 1 else 0

held-insert :
    (k j : Text) (d : Dict Text Bool)
    → held j (insert k true d) ≡ (if text_eq k j then 1 else held j d)
unfolding held
held-insert k j d = ground (arith, lookup-insert k j true d)

held-delete :
    (k j : Text) (d : Dict Text Bool) → held j (delete k d) ≡ (if text_eq k j then 0 else held j d)
unfolding held
held-delete k j d = ground (arith, lookup-delete k j d)

no_key : (d : Dict Text Bool) → ((id : Text) → held id d ≡ 0) → d ≡ []
unfolding held lookup
no_key [] none_held = refl
no_key ((k, v) ∷ d) none_held = absurd (ground (arith, none_held k, text_eq_iff k k))

-- The maps of the loop count the calls and the answers so far.
pub record Tracks (s : State) (called answered : List Text) : Type 0 where
  pub calls : (id : Text) → count id called ≡ held id s.pending + held id s.completed
  pub answers : (id : Text) → count id answered ≡ held id s.completed
  pub once : (id : Text) → count id called ≤ 1

module _ {s : State} {called answered : List Text} (t : Tracks s called answered) where
  pub opened-Tracks :
      (id : Text)
      → count id called ≡ 0
      → Tracks (record s { pending = insert id true s.pending }) (id ∷ called) answered
  unfolding count
  opened-Tracks id fresh = record {
    calls =
        λ j. ground (arith, t.calls j, t.calls id, text_eq_iff id j, held-insert id j s.pending);
    answers = t.answers;
    once = λ j. ground (arith, t.once j, text_eq_iff id j);
  }

  pub answered-Tracks :
      (id : Text)
      → count id called ≡ 1
      → count id answered ≡ 0
      → Tracks
          (record { pending = delete id s.pending; completed = insert id true s.completed })
          called
          (id ∷ answered)
  unfolding count
  answered-Tracks id one unanswered = record {
    calls = λ j. ground (
      arith,
      t.calls j,
      t.answers j,
      text_eq_iff id j,
      held-insert id j s.completed,
      held-delete id j s.pending,
    );
    answers = λ j. ground (arith, t.answers j, text_eq_iff id j, held-insert id j s.completed);
    once = t.once;
  }

  -- A call is opened exactly when its identifier is there and new.
  pub open_call-ok :
      (i : ℕ) (id : Text)
      → id ≢ []
      → count id called ≡ 0
      → open_call i s id ≡ ok (record s { pending = insert id true s.pending })
  unfolding open_call held
  open_call-ok i [] named fresh = absurd (named refl)
  open_call-ok i (b ∷ id) named fresh = ground (arith, t.calls (b ∷ id))

  pub ok-open_call :
      (i : ℕ) (id : Text) {s' : State}
      → open_call i s id ≡ ok s'
      → (id ≢ []) × (count id called ≡ 0) × (s' ≡ record s { pending = insert id true s.pending })
  unfolding open_call held
  ok-open_call i [] h = cc
  ok-open_call i (b ∷ id) {s'} h = (ground arith, ground (arith, t.calls (b ∷ id)), ground arith)

  -- A result is taken exactly when its call is open.
  pub tool_turn-ok :
      (i : ℕ) (id : Text)
      → id ≢ []
      → count id called ≡ 1
      → count id answered ≡ 0
      → tool_turn i s id
        ≡ ok (record { pending = delete id s.pending; completed = insert id true s.completed })
  unfolding tool_turn held
  tool_turn-ok i [] named one unanswered = absurd (named refl)
  tool_turn-ok i (b ∷ id) named one unanswered =
      ground (arith, t.calls (b ∷ id), t.answers (b ∷ id))

  pub ok-tool_turn :
      (i : ℕ) (id : Text) {s' : State}
      → tool_turn i s id ≡ ok s'
      → (id ≢ [])
        × (count id called ≡ 1)
        × (count id answered ≡ 0)
        × (s' ≡ record { pending = delete id s.pending; completed = insert id true s.completed })
  unfolding tool_turn held
  ok-tool_turn i [] h = cc
  ok-tool_turn i (b ∷ id) {s'} h = (
    ground arith,
    ground (arith, t.calls (b ∷ id), t.once (b ∷ id)),
    ground (arith, t.calls (b ∷ id), t.once (b ∷ id), t.answers (b ∷ id)),
    ground arith,
  )

  -- Nothing is pending exactly when calls and answers balance.
  pub pending-Balanced : s.pending ≡ [] → Balanced called answered
  unfolding held lookup
  pending-Balanced e id = ground (arith, t.calls id, t.answers id)

  pub Balanced-pending : Balanced called answered → s.pending ≡ []
  unfolding held
  Balanced-pending b = no_key s.pending λ id. ground (arith, t.calls id, t.answers id, b id)
