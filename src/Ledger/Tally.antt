-- ===== src/Ledger/Tally.antt =====
-- The second loop of `buildAgentLedger`, internal/web/agent_ledger.go: completed and pending calls,
-- and repetitions.
pub mod Parts
use m365_copilot2api.Message.{Message}
use m365_copilot2api.Ledger.Collect.{note_messages, Calls, evidence_of, no_calls}
use m365_copilot2api.Ledger.{Env, ToolEvidence, AgentLedger, Message}
use m365_copilot2api.Prelude.{
  Text, List, [], ◌∷◌, ◌++◌, Option, none, some, map, Text_eq, suc, ◌+◌, true, false, ℕ, Bool, Dict,
  leb, if◌then◌else◌, lookup, ◌&&◌, take, insert, is_empty,
}

-- `e.Name + "\x00" + e.Arguments`.
unfoldable pub signature : ToolEvidence → Text
signature e = e.name ++ (0 ∷ e.arguments)

-- `normalizeFailure`: lowered, each run of digits one "#", at most 500 bytes.
is_digit : ℕ → Bool
is_digit c = leb b'0' c && leb c b'9'

-- `in_run` tells whether the last byte was a digit.
hash_digits : Bool → Text → Text
unfolding is_digit
hash_digits in_run [] = []
hash_digits in_run (c ∷ s) =
    let rest = hash_digits (is_digit c) s in
    if is_digit c then (if in_run then rest else b'#' ∷ rest) else c ∷ rest

unfoldable pub normalize_failure : Env → Text → Text
unfolding hash_digits
normalize_failure env s = take 500 (hash_digits false (env.lower s))

unfoldable pub failure_signature : Env → ToolEvidence → Text
unfolding signature normalize_failure
failure_signature env e = signature e ++ (0 ∷ normalize_failure env e.result)

-- The state of the second loop: the ledger and the two counters.
pub record Tally : Type 0 where
  pub ledger : AgentLedger
  pub seen_call : Dict Text ℕ
  pub seen_failure : Dict Text ℕ

abbrev pub empty_ledger : AgentLedger
empty_ledger = record {
  completed = [];
  pending = [];
  tool_rounds = 0;
  repeated_call = false;
  repeated_failure = false;
  repetition_signature = [];
}

abbrev pub no_tally : Tally
no_tally = record { ledger = empty_ledger; seen_call = []; seen_failure = [] }

abbrev pub times : Text → Dict Text ℕ → ℕ
times k d = elim (lookup k d) [ none ↦ 0 | some n ↦ n ]

-- `l.ToolRounds++` and the count of the call.
unfoldable pub count_call : ToolEvidence → Tally → Tally
count_call e t =
    let sig = signature e in
    let n = times sig t.seen_call + 1 in
    let l = record (t.ledger) { tool_rounds = t.ledger.tool_rounds + 1 } in
    record t {
      ledger =
          (if leb 2 n then record l { repeated_call = true; repetition_signature = sig } else l);
      seen_call = insert sig n t.seen_call;
    }

-- The count of a failure.
unfoldable pub count_failure : Env → ToolEvidence → Tally → Tally
count_failure env e t =
    let sig = failure_signature env e in
    let n = times sig t.seen_failure + 1 in
    record t {
      ledger =
          (if leb 2 n
            then record (t.ledger) { repeated_failure = true; repetition_signature = sig }
            else t.ledger);
      seen_failure = insert sig n t.seen_failure;
    }

-- One identifier of the second loop.
unfoldable pub tally_call : Env → ToolEvidence → Tally → Tally
tally_call env e t =
    let t1 = count_call e t in
    let l = t1.ledger in
    if is_empty e.result
    then record t1 { ledger = record l { pending = l.pending ++ e ∷ [] } }
    else let t2 = record t1 { ledger = record l { completed = l.completed ++ e ∷ [] } } in
      if e.failed then count_failure env e t2 else t2

unfoldable pub tally_calls : Env → List ToolEvidence → Tally → Tally
tally_calls env [] t = t
tally_calls env (e ∷ es) t = tally_calls env es (tally_call env e t)

-- The evidence of the calls, in the order of the calls.
abbrev pub evidence_list : Calls → List ToolEvidence
evidence_list c = map (evidence_of c.evidence) c.order

-- `buildAgentLedger`.
unfoldable pub build_agent_ledger : Env → List Message → AgentLedger
unfolding note_messages tally_calls
build_agent_ledger env ms =
    (tally_calls env (evidence_list (note_messages env ms no_calls)) no_tally).ledger
