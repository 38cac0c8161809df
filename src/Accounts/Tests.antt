-- ===== src/Accounts/Tests.antt =====
-- Stores of two accounts, for internal/auth/cache.go.
use m365_copilot2api.Prelude.{
  ◌≡◌, ◌&&◌, not, refl, [], ◌∷◌, List, codes, text_eq, Text, any, ok, inr, map, some, none, err,
  filter, trim_space,
}
use m365_copilot2api.Accounts.{
  AccountToken, Ambient, TokenSet, delete, upsert_account, ensure_valid, matches, Renewal,
  not_saved, get, renew, upsert, account_of, complete,
}
use m365_copilot2api.Accounts.Store.{
  has_id, UniqueIds, Agrees, match_of, has_id-delete, upsert_account-duplicates,
}
use m365_copilot2api.Accounts.Tokens.{Ensures, ensure_valid-Ensures}

abbrev account : Text → Text → AccountToken
account id email = record {
  id = id;
  email = email;
  display_name = [];
  status = codes "online";
  access_token = codes "at";
  refresh_token = codes "rt";
  expires_at = 100;
  updated_at = 1;
  oid = id;
  tid = codes "tenant";
  client_id = codes "client";
}

abbrev ann : AccountToken
ann = account (codes "1") (codes "ann@x")

abbrev bob : AccountToken
bob = account (codes "2") (codes "bob@x")

abbrev both : List AccountToken
both = ann ∷ bob ∷ []

both-UniqueIds : UniqueIds both
unfolding any text_eq
both-UniqueIds = (refl, (refl, tt))

has_id-delete_example :
    has_id (codes "2") (delete (codes "1") both)
    ≡ (has_id (codes "2") both && not (text_eq (codes "1") (codes "2")))
has_id-delete_example = has_id-delete (codes "1") (codes "2") both

abbrev bob_again : AccountToken
bob_again = account (codes "2") (codes "robert@x")

bob-Agrees : Agrees bob_again both
unfolding matches text_eq match_of
bob-Agrees = inr (bob, refl, refl)

-- Ann's mail address, now with the identifier of the second account.
abbrev mixed : AccountToken
mixed = account (codes "2") (codes "ann@x")

upsert_account-duplicates_example : ¬ UniqueIds (upsert_account mixed both).0
unfolding any text_eq
upsert_account-duplicates_example =
    upsert_account-duplicates mixed ann (bob ∷ []) both-UniqueIds refl refl refl

abbrev ambient : Ambient
ambient = record { now = 50; stamp = codes "101112"; client_id = codes "client" }

abbrev refreshed : TokenSet
refreshed = record {
  access_token = codes "at2";
  refresh_token = codes "rt2";
  expires_at = 99999999999999;
  email = [];
  display_name = [];
  home_oid = [];
  tenant_id = [];
}

-- While the token is refreshed, the first account is removed.
abbrev renewal : Renewal
renewal = record {
  now = 50;
  refresh = λ t. ok refreshed;
  meanwhile = λ es. delete (codes "1") es;
  later = ambient;
  unsaved = none;
}

ensure_valid-Ensures_example :
    Ensures renewal
      (codes "2")
      both
      (ensure_valid renewal (codes "2") both).0
      (ensure_valid renewal (codes "2") both).1
ensure_valid-Ensures_example = ensure_valid-Ensures renewal (codes "2") both

-- The store then holds the refreshed account only, which is handed out; if the file cannot be written, it
-- is stored all the same, and not handed out.
one_refreshed :
    map (λ a. a.access_token) (ensure_valid renewal (codes "2") both).0 ≡ codes "at2" ∷ []
unfolding ensure_valid text_eq get renew upsert upsert_account delete filter account_of complete
    trim_space
one_refreshed = refl

not_handed_out :
    (ensure_valid (record renewal { unsaved = some (codes "disk full") }) (codes "2") both).1
    ≡ err (not_saved (codes "disk full"))
unfolding ensure_valid text_eq get renew
not_handed_out = refl
