-- ===== src/Mcp/Server.antt =====
-- internal/mcp/server.go: the MCP server, a table of sessions with a channel each. HandleSSE registers a
-- session and writes what comes through its channel; HandleMessage answers a request into the channel. A
-- session is an object that the table and its stream share, so it lies in a store under an address.
pub mod Rpc
pub mod Streams
pub mod Delivery
pub mod Messages
mod Tests
use m365_copilot2api.Json
use m365_copilot2api.Prelude.{
  none, some, ok, err, true, false, Text, List, [], ◌∷◌, ◌++◌, Option, Result, ℕ, zero, suc, Bool,
  Dict, insert, lookup, delete, Text_eq, length, get_elem?, text_eq, codes, if◌then◌else◌,
}
use m365_copilot2api.Json.{Fields}
use m365_copilot2api.Mcp.{Tool, CallResult}
use m365_copilot2api.Ledger.{decimal}

-- `ToolProvider`; `W` is what its tools work on. A provider here returns, and reaches nothing but `W`: one that
-- blocks, panics, or itself registers tools or sessions is not modelled.
pub record ToolProvider (W : Type 0) : Type 0 where
  pub list_tools : W → W × Result Text (List Tool)
  pub call_tool : Text → Fields → W → W × Result Text CallResult

-- `StaticToolProvider`; without `onCall` no tool is implemented.
unfoldable pub static_provider :
    {W : Type 0}
    → List Tool
    → Option (Text → Fields → W → W × Result Text CallResult)
    → ToolProvider W
static_provider tools none = record {
  list_tools = λ w. (w, ok tools);
  call_tool = λ name args w. (w, err (codes "tool " ++ name ++ codes " not implemented"));
}
static_provider tools (some on_call) = record {
  list_tools = λ w. (w, ok tools);
  call_tool = on_call;
}

-- `jsonRPCRequest`; the identifier is the bit pattern of an int64, the parameters are JSON text.
pub record RpcRequest : Type 0 where
  pub id : Option ℕ
  pub method : Text
  pub params : Text

pub data RpcError : Type 0 where
  no_tools_available : RpcError
  invalid_params : Text → RpcError
  method_not_found : Text → RpcError
  session_id_required session_not_found : RpcError
  parse_error : Text → RpcError

-- The code of an error, without its minus sign.
unfoldable pub code_of : RpcError → ℕ
code_of no_tools_available = 32603
code_of (invalid_params e) = 32602
code_of (method_not_found m) = 32601
code_of session_id_required = 32000
code_of session_not_found = 32000
code_of (parse_error e) = 32700

unfoldable pub message_of : RpcError → Text
message_of no_tools_available = codes "no tools available"
message_of (invalid_params e) = codes "invalid params: " ++ e
message_of (method_not_found m) = codes "method not found: " ++ m
message_of session_id_required = codes "sessionId required"
message_of session_not_found = codes "session not found"
message_of (parse_error e) = codes "parse error: " ++ e

-- What a result holds before it is encoded.
pub data RpcResult : Type 0 where
  initialized : RpcResult
  listed : List Tool → RpcResult
  called : CallResult → RpcResult

-- `jsonRPCResponse`.
pub record RpcResponse : Type 0 where
  pub id : Option ℕ
  pub outcome : Result RpcError RpcResult

-- `session`; `closed` says that its channel `done` is closed.
pub record Session (W : Type 0) : Type 0 where
  pub id : Text
  pub provider : Option (ToolProvider W)
  pub created : ℕ
  pub msg_ch : List Text
  pub closed : Bool

-- `GlobalToolRegistry` and `GlobalRegistry`, the sessions by address, and what the tools work on.
pub record Server (W : Type 0) : Type 0 where
  pub tools : List Tool
  pub sessions : Dict Text ℕ
  pub store : List (Session W)
  pub world : W

-- `RegisterTools`, `ListTools` and `ClearTools`.
unfoldable pub register_tools : {W : Type 0} → List Tool → Server W → Server W
register_tools tools s = record s { tools = tools }

unfoldable pub clear_tools : {W : Type 0} → Server W → Server W
clear_tools s = record s { tools = [] }

-- `fmt.Sprintf("mcp-%d", time.Now().UnixNano())`.
unfoldable pub session_name : ℕ → Text
session_name now = codes "mcp-" ++ decimal now

abbrev pub new_session : {W : Type 0} → Text → Option (ToolProvider W) → ℕ → Session W
new_session id provider now = record {
  id = id;
  provider = provider;
  created = now;
  msg_ch = [];
  closed = false;
}

-- `RegisterSession`; a session of the same nanosecond loses its place in the table.
unfoldable pub register_session :
    {W : Type 0} → Option (ToolProvider W) → ℕ → Server W → Server W × Text
unfolding session_name
register_session provider now s =
    let id = session_name now in
    (
      record s {
        sessions = insert id (length s.store) s.sessions;
        store = s.store ++ new_session id provider now ∷ [];
      },
      id,
    )

abbrev pub set_at {ℓ} : {A : Type ℓ} → ℕ → (A → A) → List A → List A
set_at i f [] = []
set_at zero f (x ∷ xs) = f x ∷ xs
set_at (suc i) f (x ∷ xs) = x ∷ set_at i f xs

-- `UnregisterSession`.
unfoldable pub unregister_session : {W : Type 0} → Text → Server W → Server W
unregister_session id s = elim (lookup id s.sessions) [
  | none ↦ s
  | some i ↦ record s {
    sessions = delete id s.sessions;
    store = set_at i (λ x. record x { closed = true }) s.store;
  }
]

-- `getSession`, with the address of the session.
unfoldable pub get_session : {W : Type 0} → Text → Server W → Option (ℕ × Session W)
get_session id s = elim (lookup id s.sessions) [
  | none ↦ none
  | some i ↦ elim (get_elem? s.store i) [ none ↦ none | some x ↦ some (i, x) ]
]

-- `SetSessionTools`.
unfoldable pub set_session_tools :
    {W : Type 0} → Text → Option (ToolProvider W) → Server W → Server W
unfolding get_session
set_session_tools id provider s = elim (get_session id s) [
  | none ↦ s
  | some (i, x) ↦ record s { store = set_at i (λ y. record y { provider = provider }) s.store }
]
