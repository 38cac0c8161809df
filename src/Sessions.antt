-- ===== src/Sessions.antt =====
-- internal/web/sessions.go, the store of conversations, and internal/web/conversations.go, its
-- handlers. The random identifier and the clock are arguments; the file is written after every change
-- and its errors are ignored.
pub mod Laws
mod Tests
use m365_copilot2api.Prelude.{
  ℕ, List, [], ◌∷◌, map, Option, none, some, Bool, true, false, not, Text, is_empty, nat_eq,
  if◌then◌else◌, Dict, lookup, insert, has_key, Text_eq,
}
use m365_copilot2api.Prelude

-- `conversation`; the zero time is 0.
pub record Session : Type 0 where
  pub id : Text
  pub account_id : Text
  pub conversation_id : Text
  pub session_id : Text
  pub title : Text
  pub created_at : ℕ
  pub updated_at : ℕ

abbrev pub Store : Type 0
Store = Dict Text Session

-- `list`, in any order of the map.
unfoldable pub list : Store → List Session
list s = map (λ e. e.1) s

unfoldable pub get : Text → Store → Option Session
get id s = lookup id s

-- The conversation that `upsert` stores.
unfoldable pub filled : Text → ℕ → Session → Session
filled uuid now v = record v {
  id = (if is_empty v.id then uuid else v.id);
  created_at = (if nat_eq v.created_at 0 then now else v.created_at);
  updated_at = now;
}

unfoldable pub upsert : Text → ℕ → Session → Store → Store × Session
unfolding filled
upsert uuid now v s = let w = filled uuid now v in (insert w.id w s, w)

unfoldable pub delete : Text → Store → Store × Bool
delete id s = if has_key id s then (Prelude.delete id s, true) else (s, false)

pub data Reply : Type 0 where
  conversations : List Session → Reply
  method_not_allowed bad_json not_found deleted : Reply

-- `conversations`.
unfoldable pub list_conversations : Bool → Store → Reply
unfolding list
list_conversations is_get s = if is_get then conversations (list s) else method_not_allowed

-- `deleteConversation`; the identifier of a body that decodes.
unfoldable pub delete_conversation : Bool → Option Text → Store → Store × Reply
unfolding delete
delete_conversation is_post none s = (s, (if is_post then bad_json else method_not_allowed))
delete_conversation is_post (some id) s =
    let (s', found) = delete id s in
    if not is_post
    then (s, method_not_allowed)
    else if is_empty id
    then (s, bad_json)
    else if found
    then (s', deleted)
    else (s, not_found)
