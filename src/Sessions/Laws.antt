-- ===== src/Sessions/Laws.antt =====
-- What the store of internal/web/sessions.go holds after a change.
use m365_copilot2api.Prelude.{
  ℕ, ◌≡◌, ◌↔◌, ◌<◌, length, none, some, Bool, true, false, Text, is_empty, arith, text_eq,
  text_eq_iff, if◌then◌else◌, insert, has_key, Text_eq, lookup-insert, lookup-delete, length-insert,
}
use m365_copilot2api.Sessions.{
  Session, Store, get, filled, upsert, delete, deleted, delete_conversation,
}

-- After an update the store answers with what the update returned under its identifier, and as before
-- under every other; the stored conversation has an identifier if the fresh one is not empty.
pub get-upsert :
    (uuid j : Text) (now : ℕ) (v : Session) (s : Store)
    → is_empty uuid ≡ false
    → (get j (upsert uuid now v s).0
        ≡ (if text_eq (upsert uuid now v s).1.id j then some (upsert uuid now v s).1 else get j s))
      × (is_empty (upsert uuid now v s).1.id ≡ false)
unfolding get upsert filled
get-upsert uuid j now v s h =
    (lookup-insert (filled uuid now v).id j (filled uuid now v) s, ground arith)

-- A stored conversation that is updated again, after the zero time, keeps its identifier and its time of
-- creation, takes the new time, and no second one appears.
pub upsert_again :
    (uuid uuid' : Text) (now later : ℕ) (v : Session) (s : Store)
    → is_empty uuid ≡ false
    → 0 < now
    → let (s1, w) = upsert uuid now v s in
      ((upsert uuid' later w s1).1 ≡ record w { updated_at = later })
      × (length (upsert uuid' later w s1).0 ≡ length s1)
unfolding upsert filled
upsert_again uuid uuid' now later v s h pos =
    let w = filled uuid now v in
    (
      ground arith,
      ground (
        arith,
        length-insert w.id w s,
        lookup-insert w.id w.id w s,
        text_eq_iff w.id w.id,
        length-insert w.id (filled uuid' later w) (insert w.id w s),
      ),
    )

-- A deletion is confirmed exactly for a POST that names a stored conversation by an identifier that is
-- not empty, and takes away just that one; any other request changes nothing.
pub delete_conversation-deleted :
    (is_post : Bool) (id j : Text) (s : Store)
    → (((delete_conversation is_post (some id) s).1 ≡ deleted)
        ↔ ((is_post ≡ true) × (is_empty id ≡ false) × (has_key id s ≡ true)))
      × (get j (delete_conversation is_post (some id) s).0 ≡ (
          if is_post
          then (if is_empty id then get j s else if text_eq id j then none else get j s)
          else get j s))
unfolding delete_conversation delete get
delete_conversation-deleted is_post id j s =
    (ground arith, ground (arith, lookup-delete id j s, text_eq_iff id j))
