-- ===== src/Mcp/Server/Delivery.antt =====
-- The way of an answer from `HandleMessage` to the stream of its session: internal/mcp/server.go. A trace
-- keeps what has gone into the channel at each address, and which stream has taken which message out.
pub mod Channels
pub mod Frames
pub mod Refines
use m365_copilot2api.Prelude.{
  none, some, ok, err, true, false, inl, inr, Text, List, [], ◌∷◌, ◌++◌, ◌≡◌, ◌<◌, ◌≤◌, ◌+◌, Option,
  Result, ℕ, Bool, length, get_elem?, nat_eq, if◌then◌else◌, ◌⊎◌, map,
}
use m365_copilot2api.Json.{Fields}
use m365_copilot2api.Mcp.Server.{ToolProvider, RpcRequest, RpcResponse, set_session_tools}
use m365_copilot2api.Mcp.Server.Streams.{
  Hub, connect, announce, handle_message, push, takes, write, next_message, end_stream, channel,
  Stream, endpoint_frame, message_frame,
}

-- What the handlers do, in any order.
pub data Operation (W : Type 0) : Type 0 where
  connects : ℕ → Operation W
  announces : Bool → Text → ℕ → Operation W
  provides : Text → Option (ToolProvider W) → Operation W
  receives : Bool → Text → Text → Operation W
  pushes : ℕ → Operation W
  writes : ℕ → Operation W
  ends : ℕ → Operation W

pub record Trace (W : Type 0) : Type 0 where
  pub hub : Hub W
  pub pushed : ℕ → List Text
  pub delivered : List (ℕ × ℕ × Text)

-- The messages that have come out of the channel at an address, and those that a stream has taken: an entry
-- is the stream, the address and the message.
abbrev pub out_of : ℕ → List (ℕ × ℕ × Text) → List Text
out_of i [] = []
out_of i ((k, j, msg) ∷ d) = if nat_eq j i then msg ∷ out_of i d else out_of i d

abbrev pub taken_by : ℕ → List (ℕ × ℕ × Text) → List Text
taken_by k [] = []
taken_by k ((n, j, msg) ∷ d) = if nat_eq n k then msg ∷ taken_by k d else taken_by k d

-- A message more at one address.
abbrev pub note : ℕ → Text → (ℕ → List Text) → ℕ → List Text
note i msg logs j = if nat_eq i j then logs j ++ msg ∷ [] else logs j

-- What happens at the channel of a `select` and in the loop of a stream.
unfoldable pub push_noted : {W : Type 0} → ℕ → Option (ℕ × Text) → Trace W → Trace W
unfolding push takes
push_noted n none t = t
push_noted n (some (i, msg)) t = record t {
  hub = push n t.hub;
  pushed = (if takes i t.hub.server.store then note i msg t.pushed else t.pushed);
}

unfoldable pub write_noted : {W : Type 0} → ℕ → Option (ℕ × Text × List Text) → Trace W → Trace W
unfolding write
write_noted k none t = t
write_noted k (some (i, msg, rest)) t = record t {
  hub = write k t.hub;
  delivered = t.delivered ++ (k, i, msg) ∷ [];
}

module _ {W : Type 0} (decode : Text → Result Text RpcRequest) (encode : RpcResponse → Text)
    (params : Text → Result Text (Text × Fields)) where
  unfoldable pub step : Operation W → Trace W → Trace W
  unfolding connect announce set_session_tools handle_message push_noted write_noted end_stream
  step (connects now) t = record t { hub = connect now t.hub }
  step (announces tls host k) t = record t { hub = announce tls host k t.hub }
  step (provides id p) t = record t {
    hub = record (t.hub) { server = set_session_tools id p t.hub.server };
  }
  step (receives is_post id body) t = record t {
    hub = (handle_message decode encode params is_post id body t.hub).0;
  }
  step (pushes n) t = push_noted n (get_elem? t.hub.in_flight n) t
  step (writes k) t = write_noted k (next_message k t.hub) t
  step (ends k) t = record t { hub = end_stream k t.hub }

  unfoldable pub run : List (Operation W) → Trace W → Trace W
  unfolding step
  run [] t = t
  run (o ∷ os) t = run os (step o t)

-- The specification of a channel: a log that grows at its end, and how much of it was read.
pub record Mailbox : Type 0 where
  pub log : List Text
  pub position : ℕ

-- It takes a message while less than 64 wait, and gives them in their order; else it rests.
pub data Moves : Mailbox → Mailbox → Type 0 where
  rests : (m : Mailbox) → Moves m m
  posts :
      (m : Mailbox) (msg : Text)
      → length m.log < m.position + 64
      → Moves m (record m { log = m.log ++ msg ∷ [] })
  reads :
      (m : Mailbox) → m.position < length m.log → Moves m (record m { position = m.position + 1 })

pub data Reaches : Mailbox → Mailbox → Type 0 where
  here : (m : Mailbox) → Reaches m m
  moves : {m n p : Mailbox} → Moves m n → Reaches n p → Reaches m p

-- The mailbox at an address.
abbrev pub mailbox : {W : Type 0} → ℕ → Trace W → Mailbox
mailbox i t = record { log = t.pushed i; position = length (out_of i t.delivered) }

-- What has come out of the channel at an address, and then what waits in it, is what went in; at most 64
-- messages wait.
abbrev pub Keeps : List Text → List Text → List Text → Type 0
Keeps log out waiting = (log ≡ out ++ waiting) × (length waiting ≤ 64)

abbrev pub Delivers : {W : Type 0} → Trace W → Type 0
Delivers t = (i : ℕ) → Keeps (t.pushed i) (out_of i t.delivered) (channel i t.hub.server.store)

-- What a stream has written is the address for messages, and then each message that it has taken, in a frame
-- of its own; before it has sent the address, nothing.
abbrev pub Shown : Option Stream → List Text → Type 0
Shown none took = took ≡ []
Shown (some u) took =
    ((u.announced ≡ false) × (u.cell ≡ none) × (u.written ≡ []) × (took ≡ []))
    ⊎ ((u.announced ≡ true)
        × (tls : Bool) × (host : Text) × (u.written
            ≡ endpoint_frame tls host u.name ∷ map message_frame took))

abbrev pub Shows : {W : Type 0} → Trace W → Type 0
Shows t = (k : ℕ) → Shown (get_elem? t.hub.streams k) (taken_by k t.delivered)
