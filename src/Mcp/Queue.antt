-- ===== src/Mcp/Queue.antt =====
-- The order of the calls, and which result reaches which call: internal/mcp/queue.go.
use m365_copilot2api.Prelude.{
  ℕ, zero, suc, ◌≡◌, ◌≢◌, ◌<◌, refl, ap, ◌∙◌, List, [], ◌∷◌, ◌++◌, none, some, Text, arith, length,
  Result, ok, err,
}
use mathlib.Core.List.{append_assoc}
use m365_copilot2api.Json.{Fields}
use m365_copilot2api.Mcp.{
  CallResult, PendingToolCall, Cells, no_cells, ToolCallQueue, enqueue, dequeue, resolve, put_at,
  cells_at, await, result_ready,
}

-- What the two sides do to the queue, in the order of the mutex.
pub data Operation : Type 0 where
  enqueues : Text → Fields → ℕ → Operation
  dequeues : Operation
  resolves : PendingToolCall → Result Text CallResult → Operation

-- A run, with the calls that went in and those that came out.
pub record Trace : Type 0 where
  pub queue : ToolCallQueue
  pub entered : List PendingToolCall
  pub left : List PendingToolCall

unfoldable pub step : Operation → Trace → Trace
unfolding enqueue dequeue resolve
step (enqueues name args now) t =
    let (q, call) = enqueue name args now t.queue in
    record t { queue = q; entered = t.entered ++ call ∷ [] }
step dequeues t =
    let (q, out) = dequeue t.queue in
    elim out [
      | none ↦ record t { queue = q }
      | some call ↦ record t { queue = q; left = t.left ++ call ∷ [] }
    ]
step (resolves call r) t = record t { queue = resolve call r t.queue }

unfoldable pub run : List Operation → Trace → Trace
unfolding step
run [] t = t
run (o ∷ os) t = run os (step o t)

-- The calls that went in are those that came out, then those that wait.
abbrev pub InOrder : Trace → Type 0
InOrder t = t.entered ≡ t.left ++ t.queue.pending

pending-resolve :
    (call : PendingToolCall) (r : Result Text CallResult) (q : ToolCallQueue)
    → (resolve call r q).pending ≡ q.pending
unfolding resolve
pending-resolve call (ok r) q = refl
pending-resolve call (err e) q = refl

dequeues-InOrder :
    (waiting : List PendingToolCall) (t : Trace)
    → t.queue.pending ≡ waiting
    → InOrder t
    → InOrder (step dequeues t)
unfolding step dequeue
dequeues-InOrder [] t e h = ground arith
dequeues-InOrder (c ∷ cs) t e h = ground (arith, append_assoc t.left (c ∷ []) cs)

step-InOrder : (o : Operation) (t : Trace) → InOrder t → InOrder (step o t)
unfolding step enqueue
step-InOrder (enqueues name args now) t h =
    let call = (enqueue name args now t.queue).1 in
    ap (λ (cs : List PendingToolCall). cs ++ call ∷ []) h
    ∙ append_assoc t.left t.queue.pending (call ∷ [])
step-InOrder dequeues t h = dequeues-InOrder t.queue.pending t refl h
step-InOrder (resolves call r) t h = rw (pending-resolve call r t.queue) h

-- Whatever the order of the operations, the calls leave the queue in the order in which they entered it,
-- each once, and none is lost: those that entered are those that left, then those that wait.
pub run-InOrder : (os : List Operation) (t : Trace) → InOrder t → InOrder (run os t)
unfolding run
run-InOrder [] t h = h
run-InOrder (o ∷ os) t h = run-InOrder os (step o t) (step-InOrder o t h)

cells_at-put_at :
    (i j : ℕ) (c : Cells) (ds : List Cells) → i < length ds → cells_at i (put_at i c ds) ≡ c
cells_at-put_at i j c [] h = elim h [ ]
cells_at-put_at zero j c (d ∷ ds) h = refl
cells_at-put_at (suc i) j c (d ∷ ds) h = cells_at-put_at i j c ds (omega arith)

cells_at-put_at_ne :
    (i j : ℕ) (c : Cells) (ds : List Cells) → i ≢ j → cells_at j (put_at i c ds) ≡ cells_at j ds
cells_at-put_at_ne i j c [] h = refl
cells_at-put_at_ne zero zero c (d ∷ ds) h = absurd (h refl)
cells_at-put_at_ne zero (suc j) c (d ∷ ds) h = refl
cells_at-put_at_ne (suc i) zero c (d ∷ ds) h = refl
cells_at-put_at_ne (suc i) (suc j) c (d ∷ ds) h = cells_at-put_at_ne i j c ds (λ e. h (ap suc e))

length-put_at : (i : ℕ) (c : Cells) (ds : List Cells) → length (put_at i c ds) ≡ length ds
length-put_at i c [] = refl
length-put_at zero c (d ∷ ds) = refl
length-put_at (suc i) c (d ∷ ds) = ap suc (length-put_at i c ds)

-- What `CallTool` receives for a call whose cells are made and empty, once the call was resolved with a
-- result and again with another: the first one; and no other call's cells change.
pub await-resolve :
    (call : PendingToolCall) (first second : CallResult) (j : ℕ) (q : ToolCallQueue)
    → call.cells < length q.store
    → cells_at call.cells q.store ≡ no_cells
    → call.cells ≢ j
    → ((await call result_ready (resolve call (ok second) (resolve call (ok first) q))).1
        ≡ some (ok first))
      × (cells_at j (resolve call (ok second) (resolve call (ok first) q)).store
          ≡ cells_at j q.store)
unfolding await resolve
await-resolve call first second j q made clear other =
    let filled : Cells = record { result_ch = some first; err_ch = none } in
    let once = cells_at-put_at call.cells j filled q.store made in
    let still : call.cells < length (put_at call.cells filled q.store) =
      omega (arith, length-put_at call.cells filled q.store) in
    let twice = cells_at-put_at call.cells j filled (put_at call.cells filled q.store) still in
    (
      rw (clear, once, twice, await) refl,
      rw (clear, once)
          (cells_at-put_at_ne call.cells j filled (put_at call.cells filled q.store) other
            ∙ cells_at-put_at_ne call.cells j filled q.store other),
    )
