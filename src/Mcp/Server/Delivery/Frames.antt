-- ===== src/Mcp/Server/Delivery/Frames.antt =====
-- What the streams of internal/mcp/server.go have written: the frames of the messages that they have taken.
use m365_copilot2api.Prelude.{
  none, some, false, inl, inr, Text, List, [], ◌∷◌, ◌++◌, ◌≡◌, ℕ, zero, suc, Bool, Option, Result,
  if◌then◌else◌, refl, arith, ap, sym, subst, ◌∙◌, get_elem?, nat_eq, nat_eq_iff, Bool-cases,
  Option-cases, map, not, ◌&&◌, ◌⊎◌, ◌≢◌, Result-cases,
}
use mathlib.Core.Option.{some-ne-none}
use m365_copilot2api.Json.{Fields}
use m365_copilot2api.Mcp.Server.{set_at, RpcRequest, RpcResponse, get_session}
use m365_copilot2api.Mcp.Server.Streams.{
  Stream, Hub, connect, announce, handle_message, handle_request, push, write, next_message,
  end_stream, message_frame, endpoint_frame,
}
use m365_copilot2api.Mcp.Server.Delivery.{
  Trace, Shown, Shows, taken_by, push_noted, write_noted, step, Operation, connects, announces,
  provides, receives, pushes, writes, ends,
}

get_elem?-set_at :
    {A : Type 0} (k j : ℕ) (f : A → A) (xs : List A)
    → get_elem? (set_at k f xs) j ≡ (
        if nat_eq k j
        then elim (get_elem? xs j) [ none ↦ none | some x ↦ some (f x) ]
        else get_elem? xs j)
get_elem?-set_at k j f [] = ground arith
get_elem?-set_at zero zero f (x ∷ xs) = refl
get_elem?-set_at zero (suc j) f (x ∷ xs) = ground arith
get_elem?-set_at (suc k) zero f (x ∷ xs) = ground arith
get_elem?-set_at (suc k) (suc j) f (x ∷ xs) = ground (arith, get_elem?-set_at k j f xs)

taken_by-append :
    (i j k : ℕ) (msg : Text) (d : List (ℕ × ℕ × Text))
    → taken_by j (d ++ (k, i, msg) ∷ [])
      ≡ (if nat_eq k j then taken_by j d ++ msg ∷ [] else taken_by j d)
taken_by-append i j k msg [] = refl
taken_by-append i j k msg ((n, m, text) ∷ d) = ground (arith, taken_by-append i j k msg d)

map-append :
    {A B : Type 0} (f : A → B) (xs : List A) (x : A) → map f (xs ++ x ∷ []) ≡ map f xs ++ f x ∷ []
map-append f [] x = refl
map-append f (y ∷ xs) x = ap (λ l. f y ∷ l) (map-append f xs x)

-- One stream changes, and what is said of the others stays.
set_at-Shown :
    (streams : List Stream) (f : Stream → Stream) (k : ℕ) (u : Stream) (took took' : ℕ → List Text)
    → get_elem? streams k ≡ some u
    → ((j : ℕ) → Shown (get_elem? streams j) (took j))
    → ((j : ℕ) → nat_eq k j ≡ false → took' j ≡ took j)
    → Shown (some (f u)) (took' k)
    → (j : ℕ) → Shown (get_elem? (set_at k f streams) j) (took' j)
set_at-Shown streams f k u took took' at shows others new j =
    subst (λ o. Shown o (took' j)) (sym (get_elem?-set_at k j f streams))
      (elim (Bool-cases (nat_eq k j)) [
        | inl same ↦
            let e = (nat_eq_iff k j).0 same in
            rw (same, sym (ap (get_elem? streams) e) ∙ at)
              (subst (λ n. Shown (some (f u)) (took' n)) e new)
        | inr other ↦ rw (other, others j other) (shows j)
      ])

get_elem?-append :
    {A : Type 0} (xs : List A) (x : A) (k : ℕ)
    → (get_elem? (xs ++ x ∷ []) k ≡ get_elem? xs k)
      ⊎ ((get_elem? xs k ≡ none) × (get_elem? (xs ++ x ∷ []) k ≡ some x))
get_elem?-append [] x zero = inr (refl, refl)
get_elem?-append [] x (suc k) = inl refl
get_elem?-append (y ∷ xs) x zero = inl refl
get_elem?-append (y ∷ xs) x (suc k) = get_elem?-append xs x k

-- What the handlers do to the streams, where `took` is what each stream has taken.
abbrev HubShows : {W : Type 0} → (ℕ → List Text) → Hub W → Type 0
HubShows took h = (k : ℕ) → Shown (get_elem? h.streams k) (took k)

module _ {W : Type 0} (took : ℕ → List Text) (h : Hub W) (shows : HubShows took h) where
  connect-Shows : (now : ℕ) → HubShows took (connect now h)
  unfolding connect
  connect-Shows now k = elim (get_elem?-append h.streams _ k) [
    | inl same ↦ subst (λ o. Shown o (took k)) (sym same) (shows k)
    | inr (absent, new) ↦
        subst (λ o. Shown o (took k)) (sym new)
          (inl (refl, refl, refl, subst (λ o. Shown o (took k)) absent (shows k)))
  ]

  announce-Shows : (tls : Bool) (host : Text) (k : ℕ) → HubShows took (announce tls host k h)
  unfolding announce
  announce-Shows tls host k = elim (Option-cases (get_elem? h.streams k)) [
    | inl absent ↦ rw (absent, announce) shows
    | inr (u, at) ↦ elim (Bool-cases u.announced) [
      | inl before ↦ rw (at, before, announce) shows
      | inr first ↦
          rw (at, first, announce)
            (set_at-Shown h.streams _ k u took took at shows (λ j other. refl)
              (elim (subst (λ o. Shown o (took k)) at (shows k)) [
                | inl (_, _, blank, nothing) ↦ inr (
                  refl,
                  tls,
                  host,
                  ap (λ l. l ++ endpoint_frame tls host u.name ∷ []) blank
                      ∙ ap (λ l. endpoint_frame tls host u.name ∷ map message_frame l)
                          (sym nothing),
                )
                | inr (said, _, _, _) ↦ absurd (ground (arith, said, first))
              ]))
    ]
  ]

  end_stream-Shows : (k : ℕ) → HubShows took (end_stream k h)
  unfolding end_stream
  end_stream-Shows k = elim (Option-cases (get_elem? h.streams k)) [
    | inl absent ↦ rw (absent, end_stream) shows
    | inr (u, at) ↦ elim (Bool-cases (u.announced && not u.over)) [
      | inl open_still ↦
          rw (at, open_still, end_stream)
            (set_at-Shown h.streams _ k u took took at shows (λ j other. refl)
              (subst (λ o. Shown o (took k)) at (shows k)))
      | inr ended ↦ rw (at, ended, end_stream) shows
    ]
  ]

  push-Shows : (n : ℕ) → HubShows took (push n h)
  unfolding push
  push-Shows n = elim (Option-cases (get_elem? h.in_flight n)) [
    | inl absent ↦ rw (absent, push) shows
    | inr (x, at) ↦ rw (at, push) shows
  ]

-- A stream that can take a message has sent its address.
next_message-stream :
    {W : Type 0} (k i : ℕ) (msg : Text) (rest : List Text) (h : Hub W)
    → next_message k h ≡ some (i, msg, rest)
    → (u : Stream) × (get_elem? h.streams k ≡ some u) × (u.cell ≢ none)
unfolding next_message
next_message-stream k i msg rest h e = elim (Option-cases (get_elem? h.streams k)) [
  | inl absent ↦ absurd (some-ne-none (i, msg, rest) (sym (rw (absent, next_message) at e)))
  | inr (u, at) ↦ elim (Option-cases u.cell) [
    | inl early ↦ absurd (some-ne-none (i, msg, rest) (sym (rw (at, early, next_message) at e)))
    | inr (j, cell) ↦ (u, at, λ free. some-ne-none j (sym cell ∙ free))
  ]
]

write_noted-Shows :
    {W : Type 0} (k : ℕ) (o : Option (ℕ × Text × List Text)) (t : Trace W)
    → next_message k t.hub ≡ o
    → Shows t
    → Shows (write_noted k o t)
unfolding write_noted write
write_noted-Shows k none t e shows = shows
write_noted-Shows k (some (i, msg, rest)) t e shows =
    let (u, at, cell) = next_message-stream k i msg rest t.hub e in
    let took' : ℕ → List Text = λ j. taken_by j (t.delivered ++ (k, i, msg) ∷ []) in
    let more : took' k ≡ taken_by k t.delivered ++ msg ∷ [] =
      taken_by-append i k k msg t.delivered ∙ rw ((nat_eq_iff k k).1 refl) refl in
    rw (e, write)
      (set_at-Shown t.hub.streams _ k u (λ j. taken_by j t.delivered) took' at shows
        (λ j other. taken_by-append i j k msg t.delivered ∙ rw other refl)
        (elim (subst (λ o. Shown o (taken_by k t.delivered)) at (shows k)) [
          | inl (_, early, _, _) ↦ absurd (cell early)
          | inr (said, tls, host, frames) ↦ inr (
            said,
            tls,
            host,
            ap (λ l. l ++ message_frame msg ∷ []) frames
                ∙ ap (λ l. endpoint_frame tls host u.name ∷ l)
                    (sym (map-append message_frame (taken_by k t.delivered) msg))
                ∙ ap (λ l. endpoint_frame tls host u.name ∷ map message_frame l) (sym more),
          )
        ]))

module _ {W : Type 0} (decode : Text → Result Text RpcRequest) (encode : RpcResponse → Text)
    (params : Text → Result Text (Text × Fields)) where
  -- `HandleMessage` writes to no stream.
  handle_message-streams :
      (is_post : Bool) (id body : Text) (h : Hub W)
      → (handle_message decode encode params is_post id body h).0.streams ≡ h.streams
  unfolding handle_message handle_request
  handle_message-streams is_post id body h = elim (Option-cases (get_session id h.server)) [
    | inl unknown ↦ rw (unknown, handle_message) (ground arith)
    | inr ((j, x), found) ↦ elim (Result-cases (decode body)) [
      | inl (req, good) ↦ rw (found, good, handle_message, handle_request) (ground arith)
      | inr (fault, bad) ↦ rw (found, bad, handle_message, handle_request) (ground arith)
    ]
  ]

  push_noted-Shows :
      (n : ℕ) (o : Option (ℕ × Text)) (t : Trace W) → Shows t → Shows (push_noted n o t)
  unfolding push_noted
  push_noted-Shows n none t shows = shows
  push_noted-Shows n (some (i, msg)) t shows =
      push-Shows (λ k. taken_by k t.delivered) t.hub shows n

  pub step-Shows : (o : Operation W) (t : Trace W) → Shows t → Shows (step decode encode params o t)
  unfolding step
  step-Shows (connects now) t shows = connect-Shows (λ k. taken_by k t.delivered) t.hub shows now
  step-Shows (announces tls host n) t shows =
      announce-Shows (λ k. taken_by k t.delivered) t.hub shows tls host n
  step-Shows (provides id p) t shows = shows
  step-Shows (receives is_post id body) t shows = λ k.
      subst (λ l. Shown (get_elem? l k) (taken_by k t.delivered))
        (sym (handle_message-streams is_post id body t.hub)) (shows k)
  step-Shows (pushes n) t shows = push_noted-Shows n (get_elem? t.hub.in_flight n) t shows
  step-Shows (writes k) t shows = write_noted-Shows k (next_message k t.hub) t refl shows
  step-Shows (ends n) t shows = end_stream-Shows (λ k. taken_by k t.delivered) t.hub shows n
