-- ===== src/Mcp/Server/Delivery/Channels.antt =====
-- What the handlers of internal/mcp/server.go do to the channels of the sessions.
use m365_copilot2api.Prelude.{
  none, some, ok, err, true, false, inl, inr, Text, List, [], ◌∷◌, ◌++◌, ◌≡◌, ◌<◌, ℕ, zero, suc,
  length, nat_eq, if◌then◌else◌, refl, arith, ltb→lt, Bool, Option, Result, Option-cases,
  Bool-cases, lookup, is_empty, ap, get_elem?, Text_eq, nat_eq_iff, ◌∙◌, ◌&&◌, not,
}
use m365_copilot2api.Mcp.Server.{
  Session, set_at, Server, ToolProvider, RpcRequest, RpcResponse, set_session_tools,
  register_session, unregister_session, get_session,
}
use m365_copilot2api.Mcp.Server.Streams.{
  set_channel, takes, channel, Hub, connect, announce, end_stream, handle_request, handle_message,
  push,
}
use m365_copilot2api.Json.{Fields}
use m365_copilot2api.Mcp.Server.Rpc.{handle_rpc, Answered, handle_rpc-Answered}

channel-set_at :
    {W : Type 0} (i j : ℕ) (f : Session W → Session W) (store : List (Session W))
    → ((x : Session W) → (f x).msg_ch ≡ x.msg_ch)
    → channel j (set_at i f store) ≡ channel j store
unfolding channel
channel-set_at i j f [] h = refl
channel-set_at zero zero f (x ∷ xs) h = h x
channel-set_at zero (suc j) f (x ∷ xs) h = refl
channel-set_at (suc i) zero f (x ∷ xs) h = refl
channel-set_at (suc i) (suc j) f (x ∷ xs) h = channel-set_at i j f xs h

channel-append :
    {W : Type 0} (j : ℕ) (x : Session W) (store : List (Session W))
    → x.msg_ch ≡ []
    → channel j (store ++ x ∷ []) ≡ channel j store
unfolding channel
channel-append zero x [] h = h
channel-append (suc j) x [] h = refl
channel-append zero x (y ∷ ys) h = refl
channel-append (suc j) x (y ∷ ys) h = channel-append j x ys h

pub channel-set_channel :
    {W : Type 0} (i j : ℕ) (msgs : List Text) (store : List (Session W))
    → i < length store
    → channel j (set_channel i msgs store) ≡ (if nat_eq i j then msgs else channel j store)
unfolding channel
channel-set_channel i j msgs [] h = absurd (omega (arith, h))
channel-set_channel zero zero msgs (x ∷ xs) h = refl
channel-set_channel zero (suc j) msgs (x ∷ xs) h = ground arith
channel-set_channel (suc i) zero msgs (x ∷ xs) h = ground arith
channel-set_channel (suc i) (suc j) msgs (x ∷ xs) h =
    ground (arith, channel-set_channel i j msgs xs)

pub channel-inside :
    {W : Type 0} (i : ℕ) (msg : Text) (rest : List Text) (store : List (Session W))
    → channel i store ≡ msg ∷ rest
    → i < length store
unfolding channel
channel-inside i msg rest [] h = cc
channel-inside zero msg rest (x ∷ xs) h = omega arith
channel-inside (suc i) msg rest (x ∷ xs) h = omega (arith, channel-inside i msg rest xs h)

pub takes-room :
    {W : Type 0} (i : ℕ) (store : List (Session W))
    → takes i store ≡ true
    → (i < length store) × (length (channel i store) < 64)
unfolding takes channel
takes-room i [] h = cc
takes-room zero (x ∷ xs) h = ground (arith, ltb→lt (length x.msg_ch) 64 h)
takes-room (suc i) (x ∷ xs) h = ground (arith, takes-room i xs h)

pub pushed-channel :
    {W : Type 0} (i j : ℕ) (msg : Text) (store : List (Session W))
    → i < length store
    → channel j (set_channel i (channel i store ++ msg ∷ []) store)
      ≡ (if nat_eq i j then channel j store ++ msg ∷ [] else channel j store)
pushed-channel i j msg store h =
    channel-set_channel i j (channel i store ++ msg ∷ []) store h ∙ elim (Bool-cases (nat_eq i j)) [
      | inl same ↦ rw same (rw ((nat_eq_iff i j).0 same) refl)
      | inr other ↦ rw other refl
    ]

pub push-store :
    {W : Type 0} (n i : ℕ) (msg : Text) (h : Hub W)
    → get_elem? h.in_flight n ≡ some (i, msg)
    → (push n h).server.store ≡ (
        if takes i h.server.store
        then set_channel i (channel i h.server.store ++ msg ∷ []) h.server.store
        else h.server.store)
unfolding push
push-store n i msg h e = rw (e, push) refl

-- A handler that leaves the channels alone.
abbrev pub Quiet : {W : Type 0} → Hub W → Hub W → Type 0
Quiet h h1 = (i : ℕ) → channel i h1.server.store ≡ channel i h.server.store

pub connect-Quiet : {W : Type 0} (now : ℕ) (h : Hub W) → Quiet h (connect now h)
unfolding connect register_session
connect-Quiet now h i = channel-append i _ h.server.store refl

pub announce-Quiet :
    {W : Type 0} (tls : Bool) (host : Text) (k : ℕ) (h : Hub W) → Quiet h (announce tls host k h)
unfolding announce
announce-Quiet tls host k h i = elim (Option-cases (get_elem? h.streams k)) [
  | inl absent ↦ rw (absent, announce) refl
  | inr (u, at) ↦ elim (Bool-cases u.announced) [
    | inl before ↦ rw (at, before, announce) refl
    | inr first ↦ rw (at, first, announce) refl
  ]
]

pub provides-Quiet :
    {W : Type 0} (id : Text) (p : Option (ToolProvider W)) (h : Hub W)
    → Quiet h (record h { server = set_session_tools id p h.server })
unfolding set_session_tools
provides-Quiet id p h i = elim (Option-cases (get_session id h.server)) [
  | inl unknown ↦ rw (unknown, set_session_tools) refl
  | inr ((j, x), found) ↦
      rw (found, set_session_tools)
        (channel-set_at j i (λ y. record y { provider = p }) h.server.store (λ y. refl))
]

unregister-Quiet :
    {W : Type 0} (id : Text) (s : Server W) (i : ℕ)
    → channel i (unregister_session id s).store ≡ channel i s.store
unfolding unregister_session
unregister-Quiet id s i = elim (Option-cases (lookup id s.sessions)) [
  | inl unknown ↦ rw (unknown, unregister_session) refl
  | inr (j, found) ↦
      rw (found, unregister_session)
        (channel-set_at j i (λ y. record y { closed = true }) s.store (λ y. refl))
]

pub end_stream-Quiet : {W : Type 0} (k : ℕ) (h : Hub W) → Quiet h (end_stream k h)
unfolding end_stream
end_stream-Quiet k h i = elim (Option-cases (get_elem? h.streams k)) [
  | inl absent ↦ rw (absent, end_stream) refl
  | inr (u, at) ↦ elim (Bool-cases (u.announced && not u.over)) [
    | inl open_still ↦ rw (at, open_still, end_stream) (unregister-Quiet u.name h.server i)
    | inr ended ↦ rw (at, ended, end_stream) refl
  ]
]

Answered-store :
    {W : Type 0} (req : RpcRequest) (s : Server W) (x : Server W × Option RpcResponse)
    → Answered req s x
    → x.0.store ≡ s.store
Answered-store req s (s1, none) a = ap (λ u. u.store) a.1
Answered-store req s (s1, some r) a = a.4

module _ {W : Type 0} (decode : Text → Result Text RpcRequest) (encode : RpcResponse → Text)
    (params : Text → Result Text (Text × Fields)) where
  handle_request-Quiet :
      (j : ℕ) (x : Session W) (r : Result Text RpcRequest) (h : Hub W)
      → Quiet h (handle_request decode encode params j x r h).0
  unfolding handle_request
  handle_request-Quiet j x (err e) h i = refl
  handle_request-Quiet j x (ok req) h i = ap (channel i) (
      Answered-store req h.server (handle_rpc params x req h.server)
        (handle_rpc-Answered params x req h.server))

  pub handle_message-Quiet :
      (is_post : Bool) (id body : Text) (h : Hub W)
      → Quiet h (handle_message decode encode params is_post id body h).0
  unfolding handle_message
  handle_message-Quiet false id body h i = refl
  handle_message-Quiet true id body h i = elim (Bool-cases (is_empty id)) [
    | inl blank ↦ rw (blank, handle_message) refl
    | inr named ↦ elim (Option-cases (get_session id h.server)) [
      | inl unknown ↦ rw (named, unknown, handle_message) refl
      | inr ((j, x), found) ↦
          rw (named, found, handle_message) (handle_request-Quiet j x (decode body) h i)
    ]
  ]
