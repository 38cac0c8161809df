-- ===== src/Mcp.antt =====
-- internal/mcp/queue.go: the queue of tool calls between the MCP server and the client, with the
-- results and the tool cache of internal/mcp/tools.go. A call's two channels hold one value each; they
-- are cells of a store, and a call has the address of its cells. The mutex makes each method one step.
pub mod Queue
pub mod Dequeue
pub mod Server
mod Tests
use m365_copilot2api.Prelude.{
  ℕ, zero, suc, ◌+◌, ◌-◌, ◌%◌, ◌^◌, List, [], ◌∷◌, ◌++◌, Option, none, some, Bool, Text, text_eq,
  codes, is_empty, length, get_elem?, ltb, if◌then◌else◌, Result, ok, err, false,
}
use m365_copilot2api.Json
use m365_copilot2api.Json.{Value, Fields, string_at}
use m365_copilot2api.Ledger.{decimal}

pub record Tool : Type 0 where
  pub name : Text
  pub description : Text
  pub input_schema : Fields

pub record CallResult : Type 0 where
  pub content : List Fields
  pub structured_data : Value
  pub is_error : Bool

-- `CallResult.Text`: the texts of the text blocks, a line each.
texts : List Fields → List Text
unfolding string_at
texts [] = []
texts (b ∷ bs) =
    let rest = texts bs in
    if text_eq (string_at (codes "type") b) (codes "text")
    then (if is_empty (string_at (codes "text") b) then rest else string_at (codes "text") b ∷ rest)
    else rest

join_lines : List Text → Text
join_lines [] = []
join_lines (t ∷ []) = t
join_lines (t ∷ u ∷ ts) = t ++ 10 ∷ join_lines (u ∷ ts)

unfoldable pub result_text : CallResult → Text
unfolding texts join_lines
result_text r = join_lines (texts r.content)

-- `ToolCache.Find`; the cache is the list that `Replace` was last given.
unfoldable pub find_tool : Text → List Tool → Option Tool
find_tool name [] = none
find_tool name (t ∷ ts) =
    let rest = find_tool name ts in if text_eq t.name name then some t else rest

-- `PendingToolCall`; `cells` is the address of `ResultCh` and `ErrCh`.
pub record PendingToolCall : Type 0 where
  pub id : Text
  pub name : Text
  pub arguments : Fields
  pub cells : ℕ
  pub created_at : ℕ

pub record Cells : Type 0 where
  pub result_ch : Option CallResult
  pub err_ch : Option Text

abbrev pub no_cells : Cells
no_cells = record { result_ch = none; err_ch = none }

-- `ToolCallQueue` with the cells of all calls. `next_id` is the 64-bit pattern of an int64.
pub record ToolCallQueue : Type 0 where
  pub pending : List PendingToolCall
  pub next_id : ℕ
  pub store : List Cells

-- `fmt.Sprintf("mcp-tool-%d", n)`.
unfoldable pub call_id : ℕ → Text
call_id n =
    codes "mcp-tool-" ++ (if ltb n (2 ^ 63) then decimal n else codes "-" ++ decimal (2 ^ 64 - n))

-- `NewToolCallQueue`.
abbrev pub new_queue : ToolCallQueue
new_queue = record { pending = []; next_id = 0; store = [] }

-- `Enqueue`.
unfoldable pub enqueue : Text → Fields → ℕ → ToolCallQueue → ToolCallQueue × PendingToolCall
unfolding call_id
enqueue name arguments now q =
    let n = (q.next_id + 1) % 2 ^ 64 in
    let call : PendingToolCall = record {
      id = call_id n;
      name = name;
      arguments = arguments;
      cells = length q.store;
      created_at = now;
    } in
    (
      record { pending = q.pending ++ call ∷ []; next_id = n; store = q.store ++ no_cells ∷ [] },
      call,
    )

-- `DequeueNonBlocking`.
unfoldable pub dequeue : ToolCallQueue → ToolCallQueue × Option PendingToolCall
dequeue q = elim q.pending [
  | [] ↦ (q, none)
  | call ∷ rest ↦ (record q { pending = rest }, some call)
]

-- `select { case ch <- v: default: }` on a channel that holds one value.
abbrev pub offer {ℓ} : {A : Type ℓ} → A → Option A → Option A
offer v none = some v
offer v (some u) = some u

abbrev pub put_at : ℕ → Cells → List Cells → List Cells
put_at i c [] = []
put_at zero c (d ∷ ds) = c ∷ ds
put_at (suc i) c (d ∷ ds) = d ∷ put_at i c ds

abbrev pub cells_at : ℕ → List Cells → Cells
cells_at i ds = elim (get_elem? ds i) [ none ↦ no_cells | some c ↦ c ]

-- `Resolve`.
unfoldable pub resolve : PendingToolCall → Result Text CallResult → ToolCallQueue → ToolCallQueue
resolve call (ok r) q =
    let c = cells_at call.cells q.store in
    record q { store = put_at call.cells (record c { result_ch = offer r c.result_ch }) q.store }
resolve call (err e) q =
    let c = cells_at call.cells q.store in
    record q { store = put_at call.cells (record c { err_ch = offer e c.err_ch }) q.store }

-- `PendingCount`.
abbrev pub pending_count : ToolCallQueue → ℕ
pending_count q = length q.pending

-- What wakes the `select` of `CallTool`.
pub data Wake : Type 0 where
  result_ready err_ready timed_out : Wake
  cancelled : Text → Wake

-- The result that a call gives after half a minute.
unfoldable pub forwarded : Text → CallResult
forwarded name = record {
  content =
      Json.field (codes "type") (Json.str (codes "text")) (
        Json.field (codes "text")
          (Json.str (
            codes "Tool call "
            ++ name
            ++ codes
                " has been forwarded to the client for execution. The result will be provided in a subsequent turn."))
          Json.end)
      ∷ [];
  structured_data = Json.null;
  is_error = false;
}

-- What `CallTool` returns once it is woken; a case of the `select` whose channel is empty does not wake
-- it. A value that is received leaves its channel.
unfoldable pub await :
    PendingToolCall → Wake → ToolCallQueue → ToolCallQueue × Option (Result Text CallResult)
unfolding forwarded
await call result_ready q =
    let c = cells_at call.cells q.store in
    elim c.result_ch [
      | none ↦ (q, none)
      | some r ↦ (
        record q { store = put_at call.cells (record c { result_ch = none }) q.store },
        some (ok r),
      )
    ]
await call err_ready q =
    let c = cells_at call.cells q.store in
    elim c.err_ch [
      | none ↦ (q, none)
      | some e ↦ (
        record q { store = put_at call.cells (record c { err_ch = none }) q.store },
        some (err e),
      )
    ]
await call timed_out q = (q, some (ok (forwarded call.name)))
await call (cancelled e) q = (q, some (err e))
