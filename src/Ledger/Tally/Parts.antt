-- ===== src/Ledger/Tally/Parts.antt =====
-- Every call of the ledger is either completed or pending: `buildAgentLedger` of
-- internal/web/agent_ledger.go.
use m365_copilot2api.Prelude.{
  ◌+◌, ◌≡◌, List, [], ◌∷◌, ◌++◌, Bool, not, is_empty, length, filter, arith, if◌then◌else◌, sym, ap,
  ◌∙◌,
}
use mathlib.Core.List.{append_assoc, append-nil}
use m365_copilot2api.Message.{Message}
use m365_copilot2api.Ledger.{Env, ToolEvidence}
use m365_copilot2api.Ledger.Collect.{no_calls, note_messages}
use m365_copilot2api.Ledger.Tally.{
  Tally, tally_call, tally_calls, count_call, count_failure, no_tally, evidence_list,
  build_agent_ledger,
}
use m365_copilot2api.Ledger.Followed.{calls_of, evidence_list-calls_of}

pub has_result : ToolEvidence → Bool
has_result e = not (is_empty e.result)

pub no_result : ToolEvidence → Bool
no_result e = is_empty e.result

module _ (env : Env) where
  tally_call-lists :
      (e : ToolEvidence) (t : Tally)
      → ((tally_call env e t).ledger.completed
          ≡ (if is_empty e.result then t.ledger.completed else t.ledger.completed ++ e ∷ []))
        × ((tally_call env e t).ledger.pending
            ≡ (if is_empty e.result then t.ledger.pending ++ e ∷ [] else t.ledger.pending))
        × ((tally_call env e t).ledger.tool_rounds ≡ t.ledger.tool_rounds + 1)
  unfolding tally_call count_call count_failure
  tally_call-lists e t = ground arith

  tally_calls-lists :
      (es : List ToolEvidence) (t : Tally)
      → ((tally_calls env es t).ledger.completed ≡ t.ledger.completed ++ filter has_result es)
        × ((tally_calls env es t).ledger.pending ≡ t.ledger.pending ++ filter no_result es)
        × ((tally_calls env es t).ledger.tool_rounds ≡ t.ledger.tool_rounds + length es)
  unfolding tally_calls filter has_result no_result
  tally_calls-lists [] t = (sym (append-nil _), sym (append-nil _), omega arith)
  tally_calls-lists (e ∷ es) t =
      let (done, waiting, rounds) = tally_calls-lists es (tally_call env e t) in
      let (d, w, r) = tally_call-lists e t in
      ground (
        arith,
        append_assoc t.ledger.completed (e ∷ []) (filter has_result es),
        append_assoc t.ledger.pending (e ∷ []) (filter no_result es),
      )

-- The ledger has an entry for every call of the conversation that has an identifier, in their order, with
-- the name and the arguments of the last call of that identifier and the last result that follows it: the
-- entries with a result that is not empty are completed, the others pending, and all count as rounds.
pub build_agent_ledger-parts :
    (env : Env) (ms : List Message)
    → ((build_agent_ledger env ms).completed ≡ filter has_result (calls_of env ms))
      × ((build_agent_ledger env ms).pending ≡ filter no_result (calls_of env ms))
      × ((build_agent_ledger env ms).tool_rounds ≡ length (calls_of env ms))
unfolding build_agent_ledger
build_agent_ledger-parts env ms =
    let found = evidence_list (note_messages env ms no_calls) in
    let (c, p, n) = tally_calls-lists env found no_tally in
    let same : found ≡ calls_of env ms = evidence_list-calls_of env ms in
    (
      c ∙ ap (filter has_result) same,
      p ∙ ap (filter no_result) same,
      omega (arith, n, ap length same),
    )
