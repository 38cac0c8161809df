-- ===== src/Events/Seen.antt =====
-- Each tool call of an update is reported once: `extractToolEvents` of internal/chathub/stream_events.go.
use m365_copilot2api.Prelude.{
  subst, none, some, false, true, ◌||◌, inl, inr, ◌⊎◌, Bool-cases, Option-cases, ◌≡◌, refl, sym,
  ◌∙◌, ap, List, [], ◌∷◌, ◌++◌, Bool, false, ◌||◌, Text, text_eq, any, arith, map, All, text_eq_iff,
  codes,
}
use mathlib.Core.List.{append_assoc, append-nil}
use m365_copilot2api.Json
use m365_copilot2api.Json.{Value, Items, Fields}
use m365_copilot2api.Events.{
  tool, StreamEvent, key_of, Walk, note, walk, walk_items, walk_fields, extract_tool_fields,
  extract_tool_events,
}

-- The objects in a value, the outer ones first.
mutual
  pub objects : Value → List Fields
  objects (Json.arr vs) = item_objects vs
  objects (Json.obj m) = m ∷ field_objects m
  objects Json.null = []
  objects (Json.bool b) = []
  objects (Json.num n) = []
  objects (Json.str s) = []

  pub item_objects : Items → List Fields
  item_objects Json.nil = []
  item_objects (Json.cons v vs) = objects v ++ item_objects vs

  pub field_objects : Fields → List Fields
  field_objects Json.end = []
  field_objects (Json.field k v m) = objects v ++ field_objects m

abbrev pub is_seen : Text → List Text → Bool
is_seen k ks = any (text_eq k) ks

any-append : (k : Text) (js ks : List Text) → is_seen k (js ++ ks) ≡ (is_seen k js || is_seen k ks)
unfolding any
any-append k [] ks = refl
any-append k (j ∷ js) ks = ground (arith, any-append k js ks)

abbrev pub Once : List StreamEvent → List Text → Type 0
Once [] seen = Unit
Once (e ∷ es) seen = (is_seen (key_of e) seen ≡ false) × Once es (seen ++ key_of e ∷ [])

module _ (encode : Value → Text) where
  note_all : List Fields → Walk → Walk
  note_all [] w = w
  note_all (m ∷ ms) w = note_all ms (note encode m w)

  note_all-append :
      (ms ns : List Fields) (w : Walk) → note_all (ms ++ ns) w ≡ note_all ns (note_all ms w)
  unfolding note_all
  note_all-append [] ns w = refl
  note_all-append (m ∷ ms) ns w = note_all-append ms ns (note encode m w)

  mutual
    unfolding walk objects note_all

    walk-objects : (v : Value) (w : Walk) → walk encode v w ≡ note_all (objects v) w
    walk-objects (Json.arr vs) w = walk_items-objects vs w
    walk-objects (Json.obj m) w = walk_fields-objects m (note encode m w)
    walk-objects Json.null w = refl
    walk-objects (Json.bool b) w = refl
    walk-objects (Json.num n) w = refl
    walk-objects (Json.str s) w = refl

    walk_items-objects :
        (vs : Items) (w : Walk) → walk_items encode vs w ≡ note_all (item_objects vs) w
    walk_items-objects Json.nil w = refl
    walk_items-objects (Json.cons v vs) w =
        walk_items-objects vs (walk encode v w)
        ∙ ap (note_all (item_objects vs)) (walk-objects v w)
        ∙ sym (note_all-append (objects v) (item_objects vs) w)

    walk_fields-objects :
        (m : Fields) (w : Walk) → walk_fields encode m w ≡ note_all (field_objects m) w
    walk_fields-objects Json.end w = refl
    walk_fields-objects (Json.field k v m) w =
        walk_fields-objects m (walk encode v w)
        ∙ ap (note_all (field_objects m)) (walk-objects v w)
        ∙ sym (note_all-append (objects v) (field_objects m) w)

  -- The object's call, if it is one, has its key among the given ones.
  abbrev pub IsReported : List Text → Fields → Type 0
  IsReported seen m = elim (extract_tool_fields encode m) [
    | none ↦ Unit {0}
    | some (name, args) ↦ is_seen (name ++ codes "|" ++ args) seen ≡ true
  ]

  -- What the walk over some objects adds.
  abbrev pub Adds : List Fields → Walk → Walk → Type 0
  Adds ms w w' =
      (es : List StreamEvent) × (w'.out ≡ w.out ++ es)
      × (w'.seen ≡ w.seen ++ map key_of es)
      × Once es w.seen
      × All (IsReported w'.seen) ms

  -- One object: nothing is added, or the event of a call that is new.
  note-cases :
      (m : Fields) (w : Walk)
      → ((note encode m w ≡ w) × IsReported w.seen m)
        ⊎ ((e : StreamEvent) × (note encode m w
              ≡ record { seen = w.seen ++ key_of e ∷ []; out = w.out ++ e ∷ [] })
            × (is_seen (key_of e) w.seen ≡ false)
            × IsReported (w.seen ++ key_of e ∷ []) m)
  unfolding note any
  note-cases m w = elim (Option-cases (extract_tool_fields encode m)) [
    | inl bare ↦ inl (rw (bare, note) refl, rw (bare, IsReported) tt)
    | inr ((name, args), found) ↦
        let e : StreamEvent = record {
          kind = tool;
          text = [];
          message_type = [];
          content_type = [];
          tool_name = name;
          arguments = args;
          raw = encode (Json.obj m);
        } in
        elim (Bool-cases (is_seen (key_of e) w.seen)) [
          | inl old ↦ inl (rw (found, note) (ground arith), rw (found, IsReported) old)
          | inr new ↦ inr (
            e,
            rw (found, note) (ground arith),
            new,
            rw (found, IsReported)
                (ground (
                  arith,
                  any-append (key_of e) w.seen (key_of e ∷ []),
                  text_eq_iff (key_of e) (key_of e),
                )),
          )
        ]
  ]

  stays : (m : Fields) (seen more : List Text) → IsReported seen m → IsReported (seen ++ more) m
  stays m seen more h = elim (Option-cases (extract_tool_fields encode m)) [
    | inl bare ↦ rw (bare, IsReported) tt
    | inr ((name, args), found) ↦
        rw (found, IsReported)
          (ground
            (arith, any-append (name ++ codes "|" ++ args) seen more, rw (found, IsReported) at h))
  ]

  note_all-Adds : (ms : List Fields) (w : Walk) → Adds ms w (note_all ms w)
  unfolding note_all
  note_all-Adds [] w = ([], sym (append-nil w.out), sym (append-nil w.seen), tt, tt)
  note_all-Adds (m ∷ ms) w = elim (note-cases m w) [
    | inl (same, old) ↦
        let (es, out, seen, once, all) = note_all-Adds ms w in
        let reported =
          subst (λ (k : List Text). IsReported k m) (sym seen)
            (stays m w.seen (map key_of es) old) in
        subst (λ (u : Walk). Adds (m ∷ ms) w (note_all ms u)) (sym same)
          (es, out, seen, once, (reported, all))
    | inr (e, next, new, known) ↦
        let w' : Walk = record { seen = w.seen ++ key_of e ∷ []; out = w.out ++ e ∷ [] } in
        let (es, out, seen, once, all) = note_all-Adds ms w' in
        let reported =
          subst (λ (k : List Text). IsReported k m) (sym seen)
            (stays m w'.seen (map key_of es) known) in
        subst (λ (u : Walk). Adds (m ∷ ms) w (note_all ms u)) (sym next)
          (
            e ∷ es,
            out ∙ append_assoc w.out (e ∷ []) es,
            seen ∙ append_assoc w.seen (key_of e ∷ []) (map key_of es),
            (new, once),
            (reported, all),
          )
  ]

-- However deep an update nests them, every tool call in it is reported exactly once, unless its name and
-- arguments were seen before: no event has a key that was seen, none repeats another's, every object
-- that is a call has its key among those seen in the end, and these are the earlier ones and those of
-- the events.
pub extract_tool_events-Adds :
    (encode : Value → Text) (v : Value) (seen : List Text)
    → Adds encode (objects v) (record { seen = seen; out = [] }) (extract_tool_events encode v seen)
unfolding extract_tool_events
extract_tool_events-Adds encode v seen =
    rw (walk-objects encode v (record { seen = seen; out = [] }))
      (note_all-Adds encode (objects v) (record { seen = seen; out = [] }))
