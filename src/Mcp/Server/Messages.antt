-- ===== src/Mcp/Server/Messages.antt =====
-- A message for a session: `HandleMessage` of internal/mcp/server.go, from the request to the channel.
use m365_copilot2api.Prelude.{
  ok, none, some, true, false, Text, List, [], ◌∷◌, ◌++◌, ◌≡◌, ◌≢◌, ◌⊎◌, Option, Result, ℕ, length,
  ltb, codes, if◌then◌else◌, get_elem?, is_empty, is_empty_iff, refl, inl, inr, ap, sym, ◌∙◌,
  Bool-cases, arith, ◌<◌, suc, Option-cases, lookup, nat_eq, nat_eq_iff, Text_eq, subst, zero,
}
use mathlib.Core.Option.{some-injective, some-ne-none}
use mathlib.Core.List.{append-nil}
use m365_copilot2api.Json.{Fields}
use m365_copilot2api.Mcp.Server.{Session, RpcRequest, RpcResponse, get_session, Server}
use m365_copilot2api.Mcp.Server.Rpc.{handle_rpc, Answered, handle_rpc-Answered}
use m365_copilot2api.Mcp.Server.Streams.{
  Hub, accepted, handle_request, handle_message, channel, push, takes, remove_at,
}
use m365_copilot2api.Mcp.Server.Delivery.Channels.{push-store, pushed-channel}

-- The message has gone into the channel at the address, if less than 64 waited there, or else was dropped; no
-- other channel has changed, and no other message that is on its way.
abbrev pub Arrives : {W : Type 0} → ℕ → Text → Hub W → Hub W → Type 0
Arrives i msg h h2 =
    (h2.in_flight ≡ h.in_flight)
    × (channel i h2.server.store ≡ (
        if ltb (length (channel i h.server.store)) 64
        then channel i h.server.store ++ msg ∷ []
        else channel i h.server.store))
    × ((j : ℕ) → i ≢ j → channel j h2.server.store ≡ channel j h.server.store)

in_flight-last : {A : Type 0} (xs : List A) (x : A) → get_elem? (xs ++ x ∷ []) (length xs) ≡ some x
in_flight-last [] x = refl
in_flight-last (y ∷ xs) x = in_flight-last xs x

remove_at-last : {A : Type 0} (xs : List A) (x : A) → remove_at (length xs) (xs ++ x ∷ []) ≡ xs
remove_at-last [] x = refl
remove_at-last (y ∷ xs) x = ap (λ l. y ∷ l) (remove_at-last xs x)

takes-ltb :
    {W : Type 0} (i : ℕ) (store : List (Session W))
    → i < length store
    → takes i store ≡ ltb (length (channel i store)) 64
unfolding takes channel
takes-ltb i [] h = absurd (omega (arith, h))
takes-ltb zero (x ∷ xs) h = refl
takes-ltb (suc i) (x ∷ xs) h = takes-ltb i xs (omega (arith, h))

get_elem?-inside :
    {A : Type 0} (xs : List A) (i : ℕ) (x : A) → get_elem? xs i ≡ some x → i < length xs
get_elem?-inside [] i x h = cc
get_elem?-inside (y ∷ xs) zero x h = omega arith
get_elem?-inside (y ∷ xs) (suc i) x h = omega (arith, get_elem?-inside xs i x h)

get_session-inside :
    {W : Type 0} (id : Text) (s : Server W) (i : ℕ) (x : Session W)
    → get_session id s ≡ some (i, x)
    → i < length s.store
unfolding get_session
get_session-inside id s i x h = elim (Option-cases (lookup id s.sessions)) [
  | inl gone ↦ absurd (some-ne-none (i, x) (sym (rw (gone, get_session) at h)))
  | inr (j, at) ↦ elim (Option-cases (get_elem? s.store j)) [
    | inl out ↦ absurd (some-ne-none (i, x) (sym (rw (at, out, get_session) at h)))
    | inr (y, there) ↦
        let same = some-injective (j, y) (i, x) (rw (at, there, get_session) at h) in
        rw⁻¹ (ap (λ q. q.0) same) (get_elem?-inside s.store j y there)
  ]
]

push-in_flight :
    {W : Type 0} (n i : ℕ) (msg : Text) (h : Hub W)
    → get_elem? h.in_flight n ≡ some (i, msg)
    → (push n h).in_flight ≡ remove_at n h.in_flight
unfolding push
push-in_flight n i msg h e = rw (e, push) refl

push-Arrives :
    {W : Type 0} (i : ℕ) (msg : Text) (h h1 : Hub W)
    → i < length h1.server.store
    → h1.in_flight ≡ h.in_flight ++ (i, msg) ∷ []
    → ((j : ℕ) → channel j h1.server.store ≡ channel j h.server.store)
    → Arrives i msg h (push (length h.in_flight) h1)
push-Arrives i msg h h1 inside sent quiet =
    let n = length h.in_flight in
    let store = h1.server.store in
    let at : get_elem? h1.in_flight n ≡ some (i, msg) =
      ap (λ l. get_elem? l n) sent ∙ in_flight-last h.in_flight (i, msg) in
    let rest : (push n h1).in_flight ≡ h.in_flight =
      push-in_flight n i msg h1 at ∙ ap (remove_at n) sent ∙ remove_at-last h.in_flight (i, msg) in
    let room = takes-ltb i store inside in
    elim (Bool-cases (ltb (length (channel i store)) 64)) [
      | inl free ↦
          let after = push-store n i msg h1 at ∙ rw (room ∙ free) refl in
          (
            rest,
            ap (channel i) after
                ∙ pushed-channel i i msg store inside
                ∙ rw ((nat_eq_iff i i).1 refl) (rw⁻¹ (quiet i) (rw free refl)),
            λ j differs.
                ap (channel j) after
                ∙ pushed-channel i j msg store inside
                ∙ rw (not_same i j differs) (quiet j),
          )
      | inr full ↦
          let after = push-store n i msg h1 at ∙ rw (room ∙ full) refl in
          (
            rest,
            ap (channel i) after ∙ rw⁻¹ (quiet i) (rw full refl),
            λ j differs. ap (channel j) after ∙ quiet j,
          )
    ]
  where
    not_same : (i j : ℕ) → i ≢ j → nat_eq i j ≡ false
    not_same i j differs = ground (arith, nat_eq_iff i j)

module _ {W : Type 0} (encode : RpcResponse → Text) where
  -- What becomes of a request for the session at the address. Nothing is sent for the notification; for any
  -- other request one answer with its identifier is on its way, and arrives.
  abbrev pub Handled : ℕ → RpcRequest → Hub W → Hub W → Type 0
  Handled i req h h1 =
      ((req.method ≡ codes "notifications/initialized")
        × (h1.in_flight ≡ h.in_flight)
        × (h1.server ≡ h.server))
      ⊎ ((req.method ≢ codes "notifications/initialized")
          × (a : RpcResponse) × (a.id ≡ req.id)
          × (h1.in_flight ≡ h.in_flight ++ (i, encode a) ∷ [])
          × Arrives i (encode a) h (push (length h.in_flight) h1))

  answers-Handled :
      (i : ℕ) (req : RpcRequest) (h : Hub W) (q : Server W × Option RpcResponse)
      → i < length h.server.store
      → Answered req h.server q
      → Handled i req h (record h {
        server = q.0;
        in_flight = h.in_flight ++ elim q.1 [ none ↦ [] | some a ↦ (i, encode a) ∷ [] ];
      })
  answers-Handled i req h (s1, none) inside (same, e) = inl (same, append-nil h.in_flight, e)
  answers-Handled i req h (s1, some a) inside (same, differs, _, _, store) = inr (
    differs,
    a,
    same,
    refl,
    push-Arrives i (encode a) h
        (record h { server = s1; in_flight = h.in_flight ++ (i, encode a) ∷ [] })
        (subst (λ l. i < length l) (sym store) inside) refl (λ j. ap (channel j) store),
  )

  -- A message that is posted for a known session and holds a request is accepted. The request is answered,
  -- unless it is the notification, by one answer with its identifier: where it is put into the channel next,
  -- it goes to the end of the session's channel, or is dropped where 64 messages wait in it, and no other
  -- channel changes.
  pub handle_message-Handled :
      (decode : Text → Result Text RpcRequest) (params : Text → Result Text (Text × Fields))
      (id body : Text) (h : Hub W) (i : ℕ) (x : Session W) (req : RpcRequest)
      → id ≢ []
      → get_session id h.server ≡ some (i, x)
      → decode body ≡ ok req
      → ((handle_message decode encode params true id body h).1 ≡ accepted)
        × Handled i req h (handle_message decode encode params true id body h).0
  unfolding handle_message handle_request
  handle_message-Handled decode params id body h i x req full found decoded =
      let named : is_empty id ≡ false = ground (arith, is_empty_iff id) in
      rw (named, found, decoded, handle_message, handle_request)
        (
          refl,
          answers-Handled i req h (handle_rpc params x req h.server)
              (get_session-inside id h.server i x found)
              (handle_rpc-Answered params x req h.server),
        )
