-- ===== src/Mcp/Server/Rpc.antt =====
-- `handleRPC` of internal/mcp/server.go: the answer to a request.
use m365_copilot2api.Json
use m365_copilot2api.Prelude.{
  none, some, ok, err, true, Text, List, [], ◌∷◌, ◌++◌, Option, Result, Text_eq, text_eq, codes,
  if◌then◌else◌, ◌≡◌, ◌≢◌, ◌⊎◌, arith, Bool-cases, text_eq_iff, refl, inl, inr,
}
use m365_copilot2api.Json.{Fields}
use m365_copilot2api.Mcp.{Tool, CallResult}
use m365_copilot2api.Mcp.Server.{
  Server, Session, RpcRequest, RpcResponse, RpcResult, RpcError, initialized, listed, called,
  no_tools_available, invalid_params, method_not_found,
}

-- The tools of a session's provider, if it has any to show.
unfoldable pub session_tools : {W : Type 0} → Session W → W → W × List Tool
session_tools x w = elim x.provider [
  | none ↦ (w, [])
  | some p ↦ let (w1, r) = p.list_tools w in (w1, elim r [ ok ts ↦ ts | err e ↦ [] ])
]

-- The case `tools/list`: the tools of the session, or else those of the registry.
unfoldable pub listing : {W : Type 0} → Session W → Server W → Server W × List Tool
unfolding session_tools
listing x s =
    let (w, ts) = session_tools x s.world in
    (record s { world = w }, elim ts [ [] ↦ s.tools | u ∷ us ↦ u ∷ us ])

-- The result of a call that failed.
unfoldable pub failed_call : Text → CallResult
failed_call e = record {
  content =
      Json.field (codes "type") (Json.str (codes "text"))
        (Json.field (codes "text") (Json.str (codes "error: " ++ e)) Json.end)
      ∷ [];
  structured_data = Json.null;
  is_error = true;
}

-- The case `tools/call`; `params` decodes the parameters.
unfoldable pub calling :
    {W : Type 0}
    → (Text → Result Text (Text × Fields))
    → Text
    → Session W
    → Server W
    → Server W × Result RpcError RpcResult
unfolding failed_call
calling params text x s = elim x.provider [
  | none ↦ (s, err no_tools_available)
  | some p ↦ elim (params text) [
    | err e ↦ (s, err (invalid_params e))
    | ok (name, args) ↦
        let (w, r) = p.call_tool name args s.world in
        (
          record s { world = w },
          elim r [ ok c ↦ ok (called c) | err e ↦ ok (called (failed_call e)) ],
        )
  ]
]

-- The methods of the protocol.
pub data Method : Type 0 where
  initialize tools_list tools_call notified : Method
  other : Text → Method

unfoldable pub method_of : Text → Method
method_of m =
    if text_eq m (codes "initialize")
    then initialize
    else if text_eq m (codes "tools/list")
    then tools_list
    else if text_eq m (codes "tools/call")
    then tools_call
    else if text_eq m (codes "notifications/initialized")
    then notified
    else other m

-- The outcome by method; a notification has none.
unfoldable pub dispatch :
    {W : Type 0}
    → (Text → Result Text (Text × Fields))
    → Method
    → Text
    → Session W
    → Server W
    → Server W × Option (Result RpcError RpcResult)
unfolding listing calling
dispatch params initialize text x s = (s, some (ok initialized))
dispatch params tools_list text x s = let (s1, ts) = listing x s in (s1, some (ok (listed ts)))
dispatch params tools_call text x s = let (s1, r) = calling params text x s in (s1, some r)
dispatch params notified text x s = (s, none)
dispatch params (other m) text x s = (s, some (err (method_not_found m)))

-- The response with the outcome, if there is one.
unfoldable pub answer_to : RpcRequest → Option (Result RpcError RpcResult) → Option RpcResponse
answer_to req none = none
answer_to req (some o) = some (record { id = req.id; outcome = o })

-- `handleRPC`.
unfoldable pub handle_rpc :
    {W : Type 0}
    → (Text → Result Text (Text × Fields))
    → Session W
    → RpcRequest
    → Server W
    → Server W × Option RpcResponse
unfolding dispatch method_of answer_to
handle_rpc params x req s =
    let (s1, r) = dispatch params (method_of req.method) req.params x s in (s1, answer_to req r)

-- What a request gets: nothing for the notification, and else one answer with the request's own identifier.
-- The tables of the server stay as they are.
abbrev pub Answered : {W : Type 0} → RpcRequest → Server W → Server W × Option RpcResponse → Type 0
Answered req s (s1, none) = (req.method ≡ codes "notifications/initialized") × (s1 ≡ s)
Answered req s (s1, some r) =
    (r.id ≡ req.id)
    × (req.method ≢ codes "notifications/initialized")
    × (s1.tools ≡ s.tools)
    × (s1.sessions ≡ s.sessions)
    × (s1.store ≡ s.store)

-- The method of the notification, and no other.
method_of-notified :
    (m : Text)
    → ((m ≡ codes "notifications/initialized") × (method_of m ≡ notified))
      ⊎ ((m ≢ codes "notifications/initialized") × (method_of m ≢ notified))
unfolding method_of text_eq
method_of-notified m = elim (Bool-cases (text_eq m (codes "notifications/initialized"))) [
  | inl same ↦ inl (
    (text_eq_iff m (codes "notifications/initialized")).0 same,
    rw ((text_eq_iff m (codes "notifications/initialized")).0 same) refl,
  )
  | inr differs ↦
      inr (
        (λ e. ground (arith, (text_eq_iff m (codes "notifications/initialized")).1 e)),
        ground arith,
      )
]

calling-keeps :
    {W : Type 0} (params : Text → Result Text (Text × Fields)) (text : Text) (x : Session W)
    (s : Server W)
    → ((calling params text x s).0.tools ≡ s.tools)
      × ((calling params text x s).0.sessions ≡ s.sessions)
      × ((calling params text x s).0.store ≡ s.store)
unfolding calling
calling-keeps params text x s = ground arith

handled-Answered :
    {W : Type 0} (params : Text → Result Text (Text × Fields)) (m : Method) (x : Session W)
    (req : RpcRequest) (s : Server W)
    → ((req.method ≡ codes "notifications/initialized") × (m ≡ notified))
      ⊎ ((req.method ≢ codes "notifications/initialized") × (m ≢ notified))
    → Answered req s
        ((dispatch params m req.params x s).0, answer_to req (dispatch params m req.params x s).1)
unfolding dispatch listing answer_to
handled-Answered params initialize x req s (inl (same, e)) = cc
handled-Answered params initialize x req s (inr (differs, e)) = (refl, differs, refl, refl, refl)
handled-Answered params tools_list x req s (inl (same, e)) = cc
handled-Answered params tools_list x req s (inr (differs, e)) = (refl, differs, refl, refl, refl)
handled-Answered params tools_call x req s (inl (same, e)) = cc
handled-Answered params tools_call x req s (inr (differs, e)) =
    let (tools, sessions, store) = calling-keeps params req.params x s in
    (refl, differs, tools, sessions, store)
handled-Answered params notified x req s (inl (same, e)) = (same, refl)
handled-Answered params notified x req s (inr (differs, e)) = absurd (e refl)
handled-Answered params (other m) x req s (inl (same, e)) = cc
handled-Answered params (other m) x req s (inr (differs, e)) = (refl, differs, refl, refl, refl)

-- `handleRPC` gives one answer to every request but the notification, with the identifier of the request.
pub handle_rpc-Answered :
    {W : Type 0} (params : Text → Result Text (Text × Fields)) (x : Session W) (req : RpcRequest)
    (s : Server W)
    → Answered req s (handle_rpc params x req s)
unfolding handle_rpc
handle_rpc-Answered params x req s =
    handled-Answered params (method_of req.method) x req s (method_of-notified req.method)
