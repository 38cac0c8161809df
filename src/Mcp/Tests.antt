-- ===== src/Mcp/Tests.antt =====
-- A queue of two calls, for internal/mcp/queue.go.
use m365_copilot2api.Prelude.{refl, [], ◌∷◌, List, codes, ok, false, true, ◌≡◌}
use m365_copilot2api.Json.{end, null}
use m365_copilot2api.Mcp.{CallResult, PendingToolCall, ToolCallQueue, new_queue, no_cells}
use m365_copilot2api.Mcp.Queue.{
  Operation, Trace, enqueues, dequeues, resolves, run, InOrder, run-InOrder,
}
use m365_copilot2api.Mcp.Dequeue.{
  adds, Action, enters, looks, waits, relocks, resumes, act_all, unblocked, took,
}
use m365_copilot2api.Mcp.Dequeue.Cancelling.{Cancelled, act_all-Cancelled}

abbrev call : PendingToolCall
call = record {
  id = codes "mcp-tool-1";
  name = codes "ls";
  arguments = end;
  cells = 0;
  created_at = 5;
}

abbrev answer : CallResult
answer = record { content = []; structured_data = null; is_error = false }

abbrev late : CallResult
late = record { content = []; structured_data = null; is_error = true }

abbrev operations : List Operation
operations =
    enqueues (codes "ls") end 5
    ∷ dequeues
    ∷ enqueues (codes "cat") end 6
    ∷ resolves call (ok answer)
    ∷ dequeues
    ∷ dequeues
    ∷ []

abbrev empty : Trace
empty = record { queue = new_queue; entered = []; left = [] }

run-InOrder_example : InOrder (run operations empty)
run-InOrder_example = run-InOrder operations empty refl

abbrev two : ToolCallQueue
two = record { pending = call ∷ []; next_id = 2; store = no_cells ∷ no_cells ∷ [] }

abbrev blocking : List Action
blocking = enters ∷ looks ∷ waits ∷ adds call ∷ relocks ∷ resumes ∷ looks ∷ enters ∷ []

-- A call that comes while the helper waits is taken.
call_taken : (act_all blocking (unblocked [])).phase ≡ took call
unfolding act_all
call_taken = refl

act_all-Cancelled_example :
    ((act_all (enters ∷ looks ∷ waits ∷ []) (unblocked [])).crashed ≡ false)
    × Cancelled
        (act_all (enters ∷ looks ∷ waits ∷ []) (unblocked [])).helper
        (act_all (enters ∷ looks ∷ waits ∷ []) (unblocked []))
act_all-Cancelled_example =
    act_all-Cancelled [] (enters ∷ looks ∷ waits ∷ []) (refl, (refl, (refl, tt)))
