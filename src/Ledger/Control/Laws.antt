-- ===== src/Ledger/Control/Laws.antt =====
-- When another turn may follow: `CanContinue`, `activeMessages` and `completionEvidenceAllows` of
-- internal/web/agent_ledger.go.
use m365_copilot2api.Prelude.{
  ℕ, ◌+◌, ◌≡◌, ◌↔◌, ◌<◌, refl, List, [], ◌∷◌, ◌++◌, Option, none, some, Bool, true, false, ◌&&◌,
  not, Text, arith, length, drop, any, if◌then◌else◌, nat_eq, ◌⊎◌, inl, inr, ap, ◌∙◌, Bool-cases,
}
use m365_copilot2api.Message.{Message, is_role, user}
use m365_copilot2api.Ledger.{Env, AgentLedger, ToolEvidence}
use m365_copilot2api.Ledger.Control.{
  can_continue, last_user, active_messages, has_failure, completion_evidence_allows,
}

-- The limit on rounds that counts.
abbrev pub limit_of : ℕ → ℕ
limit_of n = if nat_eq n 0 then 32 else n

-- Another turn may follow exactly if the rounds are below the limit and no result is pending.
pub can_continue-none_iff :
    (l : AgentLedger) (n : ℕ)
    → (can_continue l n ≡ none) ↔ ((l.tool_rounds < limit_of n) × (l.pending ≡ []))
unfolding can_continue
can_continue-none_iff l n = ground arith

abbrev pub is_nil : List ToolEvidence → Bool
is_nil [] = true
is_nil (e ∷ es) = false

-- An answer is held back exactly if it claims a success, says nothing of a failure, and the ledger has
-- neither a completed nor a pending call.
pub completion_evidence_allows-eq :
    (env : Env) (answer : Text) (l : AgentLedger)
    → completion_evidence_allows env answer l
      ≡ not (
          env.unsupported_success answer
          && not (has_failure env answer)
          && is_nil l.pending
          && is_nil l.completed)
unfolding completion_evidence_allows
completion_evidence_allows-eq env answer l = ground arith

-- The last message of the user, with what stands before and behind it.
abbrev pub LastUser : List Message → List Message → Message → List Message → Type 0
LastUser ms pre m rest =
    (ms ≡ pre ++ m ∷ rest) × (is_role user m ≡ true) × (any (is_role user) rest ≡ false)

last_user-cases :
    (i : ℕ) (ms : List Message) (last : Option ℕ)
    → ((any (is_role user) ms ≡ false) × (last_user i ms last ≡ last))
      ⊎ ((pre : List Message) × (m : Message) × (rest : List Message) × LastUser ms pre m rest
          × (last_user i ms last ≡ some (i + length pre)))
unfolding last_user any
last_user-cases i [] last = inl (refl, refl)
last_user-cases i (x ∷ xs) last =
    elim (last_user-cases (i + 1) xs (if is_role user x then some i else last)) [
      | inr (pre, m, rest, (e, u, none_later), found) ↦
          inr (x ∷ pre, m, rest, (ap (◌∷◌ x) e, u, none_later), found ∙ ap some (omega arith))
      | inl (none_later, found) ↦ elim (Bool-cases (is_role user x)) [
        | inl u ↦ inr ([], x, xs, (refl, u, none_later), found ∙ rw u (ap some (omega arith)))
        | inr o ↦ inl (ground arith, found ∙ rw o)
      ]
    ]

drop-append : (pre ms : List Message) → drop (length pre) (pre ++ ms) ≡ ms
drop-append [] ms = refl
drop-append (m ∷ pre) ms = drop-append pre ms

-- The active messages are those from the last message of the user on, or all if there is none.
pub active_messages-LastUser :
    (ms : List Message)
    → ((any (is_role user) ms ≡ false) × (active_messages ms ≡ ms))
      ⊎ ((pre : List Message) × (m : Message) × (rest : List Message) × LastUser ms pre m rest
          × (active_messages ms ≡ m ∷ rest))
unfolding active_messages
active_messages-LastUser ms = elim (last_user-cases 0 ms none) [
  | inl (nobody, found) ↦ inl (nobody, ground arith)
  | inr (pre, m, rest, l, found) ↦
      inr (pre, m, rest, l, ground (arith, drop-append pre (m ∷ rest), ap (drop (length pre)) l.0))
]
