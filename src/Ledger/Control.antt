-- ===== src/Ledger/Control.antt =====
-- What may follow on a ledger: the last functions of internal/web/agent_ledger.go.
pub mod Laws
use m365_copilot2api.Message.{is_role, Message, user}
use m365_copilot2api.Ledger.{Env, AgentLedger, user}
use m365_copilot2api.Prelude.{
  Text, List, [], ◌∷◌, ◌++◌, Option, none, some, map, true, false, ◌+◌, ℕ, codes, trim_space, Bool,
  drop, if◌then◌else◌, any, nat_eq, leb, text_eq, contains, length, not, ◌&&◌,
}

-- `canonicalToolArguments`.
unfoldable pub canonical_tool_arguments : Env → Text → Text
canonical_tool_arguments env s =
    let t = trim_space s in elim (env.canonical_json t) [ none ↦ t | some c ↦ c ]

-- `hasCompleted`.
unfoldable pub has_completed : Env → AgentLedger → Text → Text → Bool
unfolding canonical_tool_arguments
has_completed env l name args =
    any
      (λ e.
        text_eq e.name name
        && text_eq (canonical_tool_arguments env e.arguments) (canonical_tool_arguments env args))
      l.completed

-- `CanContinue`; a limit of 0 or less is 32.
pub data Refusal : Type 0 where
  round_limit : ℕ → Refusal
  results_pending : Refusal

unfoldable pub can_continue : AgentLedger → ℕ → Option Refusal
can_continue l max_rounds =
    let limit = (if nat_eq max_rounds 0 then 32 else max_rounds) in
    if leb limit l.tool_rounds
    then some (round_limit limit)
    else elim l.pending [ [] ↦ none | e ∷ es ↦ some results_pending ]

-- `activeMessages`: from the last message of the user on, unless that is the first or there is none.
unfoldable pub last_user : ℕ → List Message → Option ℕ → Option ℕ
unfolding is_role
last_user i [] last = last
last_user i (m ∷ ms) last = last_user (i + 1) ms (if is_role user m then some i else last)

unfoldable pub active_messages : List Message → List Message
unfolding last_user
active_messages ms = elim (last_user 0 ms none) [ none ↦ ms | some i ↦ drop i ms ]

-- The keywords of `completionEvidenceAllows`.
abbrev pub failure_keywords : List Text
failure_keywords =
    codes "cannot confirm"
    ∷ codes "not confirmed"
    ∷ codes "unable to confirm"
    ∷ codes "no tool result"
    ∷ codes "not completed"
    ∷ codes "failed"
    ∷ codes "i cannot"
    ∷ codes "i'm unable"
    ∷ codes "i'm not able"
    ∷ codes "i don't have"
    ∷ codes "i don't currently"
    ∷ codes "i apologize"
    ∷ codes "cannot"
    ∷ codes "unable"
    ∷ codes "not able"
    ∷ codes "could not"
    ∷ codes "was not able"
    ∷ codes "does not have"
    ∷ codes "do not have"
    ∷ codes "not available"
    ∷ codes "not supported"
    ∷ codes "can't"
    ∷ codes "won't"
    ∷ []

unfoldable pub has_failure : Env → Text → Bool
has_failure env answer = any (contains (env.lower answer)) failure_keywords

unfoldable pub completion_evidence_allows : Env → Text → AgentLedger → Bool
completion_evidence_allows env answer l =
    let failure = has_failure env answer in
    let success = env.unsupported_success answer in
    if leb 1 (length l.pending)
    then (if failure then true else if not success then true else true)
    else if leb 1 (length l.completed)
    then true
    else if not success
    then true
    else if failure
    then true
    else false
