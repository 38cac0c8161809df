-- ===== src/Sessions/Tests.antt =====
-- A store of one conversation, for internal/web/sessions.go.
use m365_copilot2api.Prelude.{
  ◌≡◌, refl, [], ◌∷◌, some, false, codes, is_empty, text_eq, if◌then◌else◌, Text_eq,
}
use m365_copilot2api.Sessions.{Session, Store, get, upsert}
use m365_copilot2api.Sessions.Laws.{get-upsert}

abbrev session : Session
session = record {
  id = [];
  account_id = codes "a";
  conversation_id = codes "c";
  session_id = codes "s";
  title = [];
  created_at = 0;
  updated_at = 0;
}

abbrev store : Store
store = (codes "old", record session { id = codes "old"; created_at = 3; updated_at = 3 }) ∷ []

get-upsert_example :
    (get (codes "old") (upsert (codes "u1") 9 session store).0 ≡ (
      if text_eq (upsert (codes "u1") 9 session store).1.id (codes "old")
      then some (upsert (codes "u1") 9 session store).1
      else get (codes "old") store))
    × (is_empty (upsert (codes "u1") 9 session store).1.id ≡ false)
get-upsert_example = get-upsert (codes "u1") (codes "old") 9 session store refl
