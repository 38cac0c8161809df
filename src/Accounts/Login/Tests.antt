-- ===== src/Accounts/Login/Tests.antt =====
-- One login, for internal/web/server.go.
use m365_copilot2api.Prelude.{
  ◌≡◌, refl, [], Text, codes, none, some, Result, ok, err, if◌then◌else◌, text_eq, lookup, insert,
}
use m365_copilot2api.Accounts.{Ambient, TokenSet, upsert}
use m365_copilot2api.Accounts.Login.{
  Logins, Query, view, pending, authenticated, known, pkce_status, callback_pkce, start_pkce,
}
use m365_copilot2api.Accounts.Login.Flow.{
  World, Steps, here, next, start, Agrees, pkce_status-Agrees,
}
use m365_copilot2api.Accounts.Login.Outcome.{Ends, started, callback_pkce-Ends}

abbrev ambient : Ambient
ambient = record { now = 200; stamp = codes "101010"; client_id = codes "client" }

abbrev token : TokenSet
token = record {
  access_token = codes "at";
  refresh_token = codes "rt";
  expires_at = 10000;
  email = codes "ann@x";
  display_name = codes "Ann";
  home_oid = codes "1";
  tenant_id = codes "t";
}

abbrev exchange : Text → Text → Result Text TokenSet
exchange code verifier = if text_eq code (codes "good") then ok token else err (codes "bad code")

abbrev nobody : Logins
nobody = record { pkce = []; accounts = [] }

abbrev asked : Logins
asked = started 100 (codes "s") (codes "v") nobody

abbrev query : Text → Query
query code = record { state = codes "s"; code = code; pasted = none }

callback_pkce-Ends_example :
    Ends ambient exchange none
      (query (codes "good"))
      asked
      (callback_pkce ambient exchange none (query (codes "good")) asked).0
      (callback_pkce ambient exchange none (query (codes "good")) asked).1
callback_pkce-Ends_example = callback_pkce-Ends ambient exchange none (query (codes "good")) asked

good_code : exchange (codes "good") (codes "v") ≡ ok token
unfolding text_eq
good_code = refl

-- After a code that is refused and one that is accepted the table holds the account and the old error.
abbrev after_retry : Logins
after_retry =
    (callback_pkce ambient exchange none (query (codes "good"))
      (callback_pkce ambient exchange none (query (codes "stale")) asked).0).0

retry_keeps_error :
    (pkce_status 300 (codes "s") after_retry).1
    ≡ known authenticated (some (view (upsert ambient token []).1)) (codes "bad code")
unfolding pkce_status lookup callback_pkce start_pkce insert text_eq
retry_keeps_error = refl

abbrev world : World
world = record { logins = asked; waiting = [] }

one_start : Steps (record { logins = nobody; waiting = [] }) world
one_start = next here (start 100 (some (codes "v")) (some (codes "s")))

polled_pending : (pkce_status 300 (codes "s") asked).1 ≡ known pending none []
unfolding pkce_status lookup start_pkce insert text_eq
polled_pending = refl

pkce_status-Agrees_example : Agrees pending none []
pkce_status-Agrees_example =
    pkce_status-Agrees world [] one_start 300 (codes "s") pending none [] polled_pending
