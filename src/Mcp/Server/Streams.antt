-- ===== src/Mcp/Server/Streams.antt =====
-- `HandleSSE` and `HandleMessage` of internal/mcp/server.go, each cut where another handler may come in
-- between. The decoder of a request, the encoder of an answer and the decoder of the parameters of a call are
-- arguments.
use m365_copilot2api.Prelude.{
  none, some, ok, err, true, false, Text, List, [], ◌∷◌, ◌++◌, Option, Result, ℕ, zero, suc, Bool,
  length, get_elem?, not, is_empty, ltb, codes, if◌then◌else◌, ◌&&◌,
}
use m365_copilot2api.Json.{Fields}
use m365_copilot2api.Mcp.Server.{
  Server, Session, RpcRequest, RpcResponse, RpcError, parse_error, session_not_found,
  session_id_required, register_session, unregister_session, get_session, set_at,
}
use m365_copilot2api.Mcp.Server.Rpc.{handle_rpc}

-- A call of `HandleSSE`: the name it has registered, whether it has read the session back and sent its address,
-- the address of the session if there was one, and the frames it has written.
pub record Stream : Type 0 where
  pub name : Text
  pub announced : Bool
  pub cell : Option ℕ
  pub written : List Text
  pub over : Bool

-- The server with its streams, and the answers that are on the way to a channel.
pub record Hub (W : Type 0) : Type 0 where
  pub server : Server W
  pub streams : List Stream
  pub in_flight : List (ℕ × Text)

-- The first half of `HandleSSE`: a session without a provider is registered.
unfoldable pub connect : {W : Type 0} → ℕ → Hub W → Hub W
unfolding register_session
connect now h =
    let (s, id) = register_session none now h.server in
    record h {
      server = s;
      streams =
          h.streams
          ++ record { name = id; announced = false; cell = none; written = []; over = false } ∷ [];
    }

-- The frame with the address for messages.
unfoldable pub endpoint_frame : Bool → Text → Text → Text
endpoint_frame tls host id =
    codes "event: endpoint\ndata: "
    ++ (if tls then codes "https://" else codes "http://")
    ++ host
    ++ codes "/v1/mcp/message?sessionId="
    ++ id
    ++ codes "\n\n"

unfoldable pub message_frame : Text → Text
message_frame msg = codes "event: message\ndata: " ++ msg ++ codes "\n\n"

-- The session is read back from the table, and the address is sent. Without a session the handler panics
-- right after that, at `sess.done`, and what is left of it is its deferred call, `end_stream`.
unfoldable pub announce : {W : Type 0} → Bool → Text → ℕ → Hub W → Hub W
unfolding endpoint_frame get_session
announce tls host k h = elim (get_elem? h.streams k) [
  | none ↦ h
  | some u ↦
      let cell : Option ℕ = elim (get_session u.name h.server) [
        | none ↦ none
        | some (i, x) ↦ some i
      ] in
      if u.announced then h else record h {
        streams =
            set_at k
              (λ v. record v {
                announced = true;
                cell = cell;
                written = v.written ++ endpoint_frame tls host u.name ∷ [];
              })
              h.streams;
      }
]

-- The channel of the session at the address.
unfoldable pub channel : {W : Type 0} → ℕ → List (Session W) → List Text
channel i store = elim (get_elem? store i) [ none ↦ [] | some x ↦ x.msg_ch ]

abbrev pub set_channel : {W : Type 0} → ℕ → List Text → List (Session W) → List (Session W)
set_channel i msgs store = set_at i (λ x. record x { msg_ch = msgs }) store

-- The first of the messages, unless the stream is over.
unfoldable pub head_of : Bool → ℕ → List Text → Option (ℕ × Text × List Text)
head_of over i [] = none
head_of true i (msg ∷ rest) = none
head_of false i (msg ∷ rest) = some (i, msg, rest)

-- The next message for the stream: the address of its session, the message and what is left.
unfoldable pub next_message : {W : Type 0} → ℕ → Hub W → Option (ℕ × Text × List Text)
unfolding channel head_of
next_message k h = elim (get_elem? h.streams k) [
  | none ↦ none
  | some u ↦ elim u.cell [ none ↦ none | some i ↦ head_of u.over i (channel i h.server.store) ]
]

-- A turn of the loop of `HandleSSE` that receives a message.
unfoldable pub write : {W : Type 0} → ℕ → Hub W → Hub W
unfolding next_message message_frame
write k h = elim (next_message k h) [
  | none ↦ h
  | some (i, msg, rest) ↦ record h {
    server = record (h.server) { store = set_channel i rest h.server.store };
    streams = set_at k (λ v. record v { written = v.written ++ message_frame msg ∷ [] }) h.streams;
  }
]

-- The end of `HandleSSE`, because the client has left, the session was closed, or there was none; it comes
-- once.
unfoldable pub end_stream : {W : Type 0} → ℕ → Hub W → Hub W
unfolding unregister_session
end_stream k h = elim (get_elem? h.streams k) [
  | none ↦ h
  | some u ↦
      if u.announced && not u.over
      then record h {
        server = unregister_session u.name h.server;
        streams = set_at k (λ v. record v { over = true }) h.streams;
      }
      else h
]

-- What `HandleMessage` sends back itself; the answer to the request goes through the channel.
pub data Reply : Type 0 where
  method_not_allowed : Reply
  rpc_error : RpcError → Reply
  accepted : Reply

module _ {W : Type 0} (decode : Text → Result Text RpcRequest) (encode : RpcResponse → Text)
    (params : Text → Result Text (Text × Fields)) where
  -- The request of a session is handled; its answer is on the way to the channel.
  unfoldable pub handle_request : ℕ → Session W → Result Text RpcRequest → Hub W → Hub W × Reply
  unfolding handle_rpc
  handle_request i x (err e) h = (h, rpc_error (parse_error e))
  handle_request i x (ok req) h =
      let (s, r) = handle_rpc params x req h.server in
      let answers : List (ℕ × Text) = elim r [ none ↦ [] | some a ↦ (i, encode a) ∷ [] ] in
      (record h { server = s; in_flight = h.in_flight ++ answers }, accepted)

  -- `HandleMessage`, up to the channel.
  unfoldable pub handle_message : Bool → Text → Text → Hub W → Hub W × Reply
  unfolding handle_request get_session
  handle_message is_post id body h =
      let found : Hub W × Reply = elim (get_session id h.server) [
        | none ↦ (h, rpc_error session_not_found)
        | some (i, x) ↦ handle_request i x (decode body) h
      ] in
      if not is_post
      then (h, method_not_allowed)
      else if is_empty id
      then (h, rpc_error session_id_required)
      else found

-- `make(chan json.RawMessage, 64)`.
abbrev pub capacity : ℕ
capacity = 64

abbrev pub remove_at {ℓ} : {A : Type ℓ} → ℕ → List A → List A
remove_at i [] = []
remove_at zero (x ∷ xs) = xs
remove_at (suc i) (x ∷ xs) = x ∷ remove_at i xs

-- Whether the channel at the address takes a message.
unfoldable pub takes : {W : Type 0} → ℕ → List (Session W) → Bool
unfolding channel
takes i store = elim (get_elem? store i) [ none ↦ false | some x ↦ ltb (length x.msg_ch) capacity ]

-- The `select` at the end of `HandleMessage`: the answer goes into the channel, or is dropped.
unfoldable pub push : {W : Type 0} → ℕ → Hub W → Hub W
unfolding takes channel
push n h = elim (get_elem? h.in_flight n) [
  | none ↦ h
  | some (i, msg) ↦ record h {
    in_flight = remove_at n h.in_flight;
    server = record (h.server) {
      store =
          (if takes i h.server.store
            then set_channel i (channel i h.server.store ++ msg ∷ []) h.server.store
            else h.server.store);
    };
  }
]
