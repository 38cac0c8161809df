-- ===== src/Chat/Tests.antt =====
-- A chat of three messages for internal/chathub/client.go: two snapshots, and the frame of completion.
use m365_copilot2api.Chat.Frames.Faithful.{chat-IsFaithful}
use m365_copilot2api.Chat.Frames.Steps.{Accepts}
use m365_copilot2api.Chat.Frames.Liveness.{succeeds, closed_well, receive-closed_well}
use m365_copilot2api.Chat.Deltas.{
  Stream, Grows, emit_snapshots, IsPlain, unseen_delta-repeated, IsFaithful, no_stream, concat,
  latest, emit_snapshots-latest, emit_snapshot,
}
use m365_copilot2api.Chat.Frames.{Turn, Handlers, new_turn}
use m365_copilot2api.Chat.Rounds.{Round, receive, chat, Answer, received}
use m365_copilot2api.Prelude.{
  List, [], ◌∷◌, Option, none, some, Text, codes, text_eq, if◌then◌else◌, ok, false, ◌≡◌, refl, ℕ,
  ◌++◌, trim_space, contains,
}
use m365_copilot2api.Json.{Fields, end, field, num, str, arr, obj, cons, nil}
use m365_copilot2api.Chat.{Cites, unseen_delta, final_text_reconcile, is_marked, clean}

abbrev cites : Cites
cites = record {
  lower = λ s. s;
  markdown = λ s. s;
  bare = λ s. s;
  html_body = λ s. s;
  html = λ s. s;
  plain = λ s. s;
  multi_space = λ s. s;
}

abbrev kind : ℕ → Fields → Fields
kind n fs = field (codes "type") (num (record { negative = false; magnitude = n; scale = 0 })) fs

abbrev update : Text → Fields
update t = kind 1 (
    field (codes "target") (str (codes "update")) (
      field (codes "arguments") (arr (cons (obj (field (codes "writeAtCursor") (str t) end)) nil))
        end))

abbrev decode : Text → Option Fields
decode p =
    if text_eq p (codes "done")
    then some (kind 3 end)
    else if text_eq p (codes "bad")
    then none
    else some (update p)

abbrev handlers : Handlers
handlers = record { on_delta = λ ts t. none; on_event = none; decode = decode; encode = λ v. [] }

abbrev rounds : List Round
rounds = received (codes "Hel") ∷ received (codes "Hello") ∷ received (codes "done") ∷ []

abbrev state : Turn
state = record new_turn {
  stream = record { streamed = codes "Hello"; sent = codes "Hel" ∷ codes "lo" ∷ [] };
  events = codes "Hel" ∷ codes "Hello" ∷ codes "done" ∷ [];
}

abbrev answer : Answer
answer = record { text = codes "Hello"; throttling = none; raw_result = []; events = state.events }

chat_hello : chat cites handlers rounds ≡ ok answer
unfolding chat trim_space text_eq emit_snapshot unseen_delta clean contains final_text_reconcile
chat_hello = refl

chat-IsFaithful_example :
    (t : Turn) × (receive cites handlers rounds new_turn ≡ ok t)
    × (answer.text ≡ final_text_reconcile cites t.stream.streamed t.final)
    × IsFaithful t.stream
chat-IsFaithful_example = chat-IsFaithful cites handlers rounds answer chat_hello

receive_hello : receive cites handlers rounds new_turn ≡ ok state
unfolding receive trim_space text_eq emit_snapshot unseen_delta clean contains
receive_hello = refl

calm : Accepts handlers
calm = record { deltas = λ ts t. refl; events = tt }

receive-closed_well_example :
    succeeds (receive cites handlers rounds new_turn) ≡ closed_well handlers rounds
receive-closed_well_example = receive-closed_well cites handlers calm rounds new_turn

abbrev snapshots_seen : List Text
snapshots_seen = codes "Hel" ∷ codes "Hello" ∷ []

grows : Grows cites [] snapshots_seen
unfolding is_marked contains
grows = ((codes "Hel", refl, refl), refl, ((codes "lo", refl, refl), refl, tt))

emit_snapshots-latest_example :
    (s : Stream) × (emit_snapshots cites (λ ts t. none) snapshots_seen no_stream ≡ ok s)
    × (concat s.sent ≡ latest [] snapshots_seen)
emit_snapshots-latest_example =
    emit_snapshots-latest cites (λ ts t. none) (λ ts t. refl) snapshots_seen no_stream
      (record { whole = refl; pieces = tt }) grows

haha-IsPlain : IsPlain cites (codes "haha")
unfolding is_marked contains
haha-IsPlain = refl

ha-IsPlain : IsPlain cites (codes "ha")
unfolding is_marked contains
ha-IsPlain = refl

unseen_delta-repeated_example : unseen_delta cites (codes "ha" ++ codes "ha") (codes "ha") ≡ none
unseen_delta-repeated_example =
    unseen_delta-repeated cites (codes "ha") (codes "ha") haha-IsPlain ha-IsPlain
