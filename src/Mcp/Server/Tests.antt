-- ===== src/Mcp/Server/Tests.antt =====
-- A stream with two requests, for internal/mcp/server.go.
use m365_copilot2api.Prelude.{
  none, some, ok, err, true, false, refl, Text, List, [], ◌∷◌, Result, ℕ, codes, ◌≡◌, arith, lookup,
  insert, text_eq, get_elem?,
}
use m365_copilot2api.Json.{Fields}
use m365_copilot2api.Ledger.{decimal}
use m365_copilot2api.Mcp.Server.{Server, RpcRequest, RpcResponse, new_session, get_session}
use m365_copilot2api.Mcp.Server.Streams.{channel, Hub, handle_message, accepted}
use m365_copilot2api.Mcp.Server.Delivery.{
  Trace, Operation, run, connects, announces, receives, pushes, writes, ends, Reaches, Keeps,
  mailbox, out_of, taken_by, Shown,
}
use m365_copilot2api.Mcp.Server.Delivery.Refines.{run-Refines}
use m365_copilot2api.Mcp.Server.Messages.{Handled, handle_message-Handled}

abbrev ping : RpcRequest
ping = record { id = some 7; method = codes "ping"; params = [] }

abbrev ready : RpcRequest
ready = record { id = none; method = codes "notifications/initialized"; params = [] }

abbrev decode : Text → Result Text RpcRequest
decode [] = ok ready
decode (c ∷ s) = ok ping

abbrev encode : RpcResponse → Text
encode r = elim r.id [ none ↦ [] | some n ↦ decimal n ]

abbrev params : Text → Result Text (Text × Fields)
params t = err t

abbrev server : Server ℕ
server = record { tools = []; sessions = []; store = []; world = 0 }

abbrev start : Trace ℕ
start = record {
  hub = record { server = server; streams = []; in_flight = [] };
  pushed = λ i. [];
  delivered = [];
}

abbrev operations : List (Operation ℕ)
operations =
    connects 5
    ∷ announces false (codes "h") 0
    ∷ receives true (codes "mcp-5") (codes "{}")
    ∷ receives true (codes "mcp-5") []
    ∷ receives true (codes "mcp-5") (codes "{}")
    ∷ pushes 1
    ∷ pushes 0
    ∷ writes 0
    ∷ ends 0
    ∷ []

-- Of the two answers, the first is delivered, and the second waits; the notification has none.
one_delivered :
    ((run decode encode params operations start).pushed 0 ≡ codes "7" ∷ codes "7" ∷ [])
    × ((run decode encode params operations start).delivered ≡ (0, 0, codes "7") ∷ [])
unfolding run lookup insert text_eq decimal
one_delivered = (refl, refl)

run-Refines_example :
    Reaches (mailbox 0 start) (mailbox 0 (run decode encode params operations start))
    × Keeps
        ((run decode encode params operations start).pushed 0)
        (out_of 0 (run decode encode params operations start).delivered)
        (channel 0 (run decode encode params operations start).hub.server.store)
    × Shown
        (get_elem? (run decode encode params operations start).hub.streams 0)
        (taken_by 0 (run decode encode params operations start).delivered)
unfolding channel
run-Refines_example =
    run-Refines decode encode params operations start (λ i. (refl, ground arith)) (λ k. refl) 0 0

-- A hub with one session, whose channel is empty.
abbrev one : Hub ℕ
one = record {
  server = record server {
    sessions = (codes "mcp-5", 0) ∷ [];
    store = new_session (codes "mcp-5") none 5 ∷ [];
  };
  streams = [];
  in_flight = [];
}

found : get_session (codes "mcp-5") one.server ≡ some (0, new_session (codes "mcp-5") none 5)
unfolding get_session lookup text_eq
found = refl

handle_message-Handled_example :
    ((handle_message decode encode params true (codes "mcp-5") (codes "{}") one).1 ≡ accepted)
    × Handled encode 0 ping one
        (handle_message decode encode params true (codes "mcp-5") (codes "{}") one).0
handle_message-Handled_example =
    handle_message-Handled encode decode params (codes "mcp-5") (codes "{}") one 0
      (new_session (codes "mcp-5") none 5) ping (λ e. cc) found refl
