-- ===== src/Mcp/Server/Delivery/Refines.antt =====
-- The channels of internal/mcp/server.go refine the mailboxes of their specification.
use m365_copilot2api.Prelude.{
  none, some, true, false, inl, inr, Text, List, [], ◌∷◌, ◌++◌, ◌≡◌, ◌<◌, ℕ, Bool, Option, Result,
  length, if◌then◌else◌, refl, arith, ap, sym, subst, ◌∙◌, length-append, get_elem?, nat_eq,
  nat_eq_iff, Bool-cases, Option-cases,
}
use mathlib.Core.Option.{some-injective, some-ne-none}
use mathlib.Core.List.{append_assoc}
use m365_copilot2api.Mcp.Server.Streams.{
  Hub, channel, set_channel, takes, write, next_message, head_of, connect, announce, handle_message,
  end_stream,
}
use m365_copilot2api.Mcp.Server.Delivery.{
  Trace, Moves, rests, posts, reads, mailbox, Keeps, Delivers, push_noted, write_noted, step, run,
  Operation, connects, announces, provides, receives, pushes, writes, ends, Reaches, here, moves,
  out_of, taken_by, Shown, Shows,
}
use m365_copilot2api.Mcp.Server.Delivery.Channels.{
  Quiet, channel-set_channel, channel-inside, takes-room, connect-Quiet, announce-Quiet,
  provides-Quiet, handle_message-Quiet, end_stream-Quiet, push-store, pushed-channel,
}
use m365_copilot2api.Mcp.Server.{RpcRequest, RpcResponse, set_session_tools}
use m365_copilot2api.Json.{Fields}
use m365_copilot2api.Mcp.Server.Delivery.Frames.{step-Shows}

-- A step that the specification allows at every address, and after which every channel is as it should be.
abbrev Refines : {W : Type 0} → Trace W → Trace W → Type 0
Refines t u =
    (i : ℕ)
    → Moves (mailbox i t) (mailbox i u)
      × Keeps (u.pushed i) (out_of i u.delivered) (channel i u.hub.server.store)

Quiet-Refines :
    {W : Type 0} (t : Trace W) (h : Hub W)
    → Quiet t.hub h
    → Delivers t
    → Refines t (record t { hub = h })
Quiet-Refines t h quiet d i = (rests (mailbox i t), rw (quiet i) (d i))

-- What a message does at an address; `here` says whether it is the address of the message.
pushed-Moves :
    (log out waiting : List Text) (msg : Text) (b : Bool)
    → Keeps log out waiting
    → (b ≡ true → length waiting < 64)
    → Moves
        (record { log = log; position = length out })
        (record { log = (if b then log ++ msg ∷ [] else log); position = length out })
      × Keeps (if b then log ++ msg ∷ [] else log) out (if b then waiting ++ msg ∷ [] else waiting)
pushed-Moves log out waiting msg false (kept, few) room = (rests _, (kept, few))
pushed-Moves log out waiting msg true (kept, few) room = (
  posts (record { log = log; position = length out }) msg
      (omega (arith, ap length kept, length-append out waiting, room refl)),
  (
    ap (λ l. l ++ msg ∷ []) kept ∙ append_assoc out waiting (msg ∷ []),
    omega (arith, length-append waiting (msg ∷ []), room refl),
  ),
)

written-Moves :
    (log out waiting rest : List Text) (msg : Text) (b : Bool)
    → Keeps log out waiting
    → (b ≡ true → waiting ≡ msg ∷ rest)
    → Moves
        (record { log = log; position = length out })
        (record { log = log; position = length (if b then out ++ msg ∷ [] else out) })
      × Keeps log (if b then out ++ msg ∷ [] else out) (if b then rest else waiting)
written-Moves log out waiting rest msg false (kept, few) full = (rests _, (kept, few))
written-Moves log out waiting rest msg true (kept, few) full = (
  subst
      (λ n.
        Moves (record { log = log; position = length out }) (record { log = log; position = n }))
      (sym (length-append out (msg ∷ [])))
      (reads (record { log = log; position = length out })
        (omega (arith, ap length kept, length-append out waiting, ap length (full refl)))),
  (
    kept ∙ ap (λ l. out ++ l) (full refl) ∙ sym (append_assoc out (msg ∷ []) rest),
    omega (arith, few, ap length (full refl)),
  ),
)

push_noted-Refines :
    {W : Type 0} (n : ℕ) (o : Option (ℕ × Text)) (t : Trace W)
    → get_elem? t.hub.in_flight n ≡ o
    → Delivers t
    → Refines t (push_noted n o t)
unfolding push_noted
push_noted-Refines n none t e d i = (rests (mailbox i t), d i)
push_noted-Refines n (some (i, msg)) t e d j =
    let store = t.hub.server.store in
    elim (Bool-cases (takes i store)) [
      | inl room ↦
          let (inside, few) = takes-room i store room in
          rw (push-store n i msg t.hub e, room, pushed-channel i j msg store inside)
            (pushed-Moves (t.pushed j) (out_of j t.delivered) (channel j store) msg (nat_eq i j)
              (d j) (λ same. rw⁻¹ ((nat_eq_iff i j).0 same) few))
      | inr full ↦ rw (push-store n i msg t.hub e, full) (rests (mailbox j t), d j)
    ]

head_of-some :
    (over : Bool) (j i : ℕ) (msg : Text) (rest waiting : List Text)
    → head_of over j waiting ≡ some (i, msg, rest)
    → (j ≡ i) × (waiting ≡ msg ∷ rest)
unfolding head_of
head_of-some over j i msg rest [] h = cc
head_of-some true j i msg rest (m ∷ ms) h = cc
head_of-some false j i msg rest (m ∷ ms) h =
    let same = some-injective (j, m, ms) (i, msg, rest) h in
    (ap (λ x. x.0) same, ap (λ x. x.1 ∷ x.2) same)

next_message-channel :
    {W : Type 0} (k i : ℕ) (msg : Text) (rest : List Text) (h : Hub W)
    → next_message k h ≡ some (i, msg, rest)
    → channel i h.server.store ≡ msg ∷ rest
unfolding next_message
next_message-channel k i msg rest h e = elim (Option-cases (get_elem? h.streams k)) [
  | inl absent ↦ absurd (some-ne-none (i, msg, rest) (sym (rw (absent, next_message) at e)))
  | inr (u, at) ↦ elim (Option-cases u.cell) [
    | inl early ↦ absurd (some-ne-none (i, msg, rest) (sym (rw (at, early, next_message) at e)))
    | inr (j, cell) ↦
        let (same, waits) =
          head_of-some u.over j i msg rest (channel j h.server.store)
            (rw (at, cell, next_message) at e) in
        subst (λ n. channel n h.server.store ≡ msg ∷ rest) same waits
  ]
]

write-store :
    {W : Type 0} (k i : ℕ) (msg : Text) (rest : List Text) (h : Hub W)
    → next_message k h ≡ some (i, msg, rest)
    → (write k h).server.store ≡ set_channel i rest h.server.store
unfolding write
write-store k i msg rest h e = rw (e, write) refl

out_of-append :
    (i j k : ℕ) (msg : Text) (d : List (ℕ × ℕ × Text))
    → out_of j (d ++ (k, i, msg) ∷ []) ≡ (if nat_eq i j then out_of j d ++ msg ∷ [] else out_of j d)
out_of-append i j k msg [] = refl
out_of-append i j k msg ((n, m, text) ∷ d) = ground (arith, out_of-append i j k msg d)

write_noted-Refines :
    {W : Type 0} (k : ℕ) (o : Option (ℕ × Text × List Text)) (t : Trace W)
    → next_message k t.hub ≡ o
    → Delivers t
    → Refines t (write_noted k o t)
unfolding write_noted
write_noted-Refines k none t e d i = (rests (mailbox i t), d i)
write_noted-Refines k (some (i, msg, rest)) t e d j =
    let store = t.hub.server.store in
    let waiting = next_message-channel k i msg rest t.hub e in
    rw
      (
        write-store k i msg rest t.hub e,
        channel-set_channel i j rest store (channel-inside i msg rest store waiting),
        out_of-append i j k msg t.delivered,
      )
      (written-Moves (t.pushed j) (out_of j t.delivered) (channel j store) rest msg (nat_eq i j)
        (d j) (λ same. rw⁻¹ ((nat_eq_iff i j).0 same) waiting))

module _ {W : Type 0} (decode : Text → Result Text RpcRequest) (encode : RpcResponse → Text)
    (params : Text → Result Text (Text × Fields)) where
  step-Refines :
      (o : Operation W) (t : Trace W) → Delivers t → Refines t (step decode encode params o t)
  unfolding step
  step-Refines (connects now) t d = Quiet-Refines t (connect now t.hub) (connect-Quiet now t.hub) d
  step-Refines (announces tls host k) t d =
      Quiet-Refines t (announce tls host k t.hub) (announce-Quiet tls host k t.hub) d
  step-Refines (provides id p) t d =
      Quiet-Refines t (record (t.hub) { server = set_session_tools id p t.hub.server })
        (provides-Quiet id p t.hub) d
  step-Refines (receives is_post id body) t d =
      Quiet-Refines t (handle_message decode encode params is_post id body t.hub).0
        (handle_message-Quiet decode encode params is_post id body t.hub) d
  step-Refines (pushes n) t d = push_noted-Refines n (get_elem? t.hub.in_flight n) t refl d
  step-Refines (writes k) t d = write_noted-Refines k (next_message k t.hub) t refl d
  step-Refines (ends k) t d = Quiet-Refines t (end_stream k t.hub) (end_stream-Quiet k t.hub) d

  -- From a state where what follows holds, as it does before any request, and in every order of the handlers'
  -- steps: each channel behaves as a mailbox of its specification, whose log grows by messages that are taken
  -- while less than 64 wait, and whose position moves over it. The messages that the streams have taken from
  -- it, followed by those that wait, at most 64, are the log. Each stream has written nothing yet, or the
  -- address for messages and then, in their order, the frames of the messages that it has taken.
  pub run-Refines :
      (os : List (Operation W)) (t : Trace W)
      → Delivers t
      → Shows t
      → (i k : ℕ)
      → Reaches (mailbox i t) (mailbox i (run decode encode params os t))
        × Keeps
            ((run decode encode params os t).pushed i)
            (out_of i (run decode encode params os t).delivered)
            (channel i (run decode encode params os t).hub.server.store)
        × Shown
            (get_elem? (run decode encode params os t).hub.streams k)
            (taken_by k (run decode encode params os t).delivered)
  unfolding run
  run-Refines [] t d shows i k = (here (mailbox i t), d i, shows k)
  run-Refines (o ∷ os) t d shows i k =
      let stepped = step-Refines o t d in
      let (later, kept, shown) =
        run-Refines os (step decode encode params o t) (λ j. (stepped j).1)
          (step-Shows decode encode params o t shows) i k in
      (moves (stepped i).0 later, kept, shown)
