-- ===== src/Accounts/Login.antt =====
-- The handlers of internal/web/server.go that keep the accounts: the login with PKCE, and the list,
-- the refresh and the removal of accounts. Random bytes, the clock, the answers of the identity
-- service and the errors of the file are arguments.
pub mod Flow
pub mod Outcome
mod Tests
use m365_copilot2api.Prelude.{
  ℕ, ◌+◌, ◌*◌, List, [], ◌∷◌, map, Option, none, some, Bool, true, false, ◌||◌, not, Text, Text_eq,
  Dict, lookup, insert, delete, is_empty, trim_space, ltb, if◌then◌else◌, Result, ok, err,
}
use m365_copilot2api.Accounts
use m365_copilot2api.Accounts.{
  AccountToken, TokenSet, Ambient, Renewal, TokenError, not_exist, upsert, first, ensure_valid,
}

pub data Status : Type 0 where
  pending failed authenticated : Status

-- The fields of an account that the handlers show.
pub record View : Type 0 where
  pub id : Text
  pub email : Text
  pub display_name : Text
  pub status : Text
  pub oid : Text
  pub tid : Text

abbrev pub view : AccountToken → View
view a = record {
  id = a.id;
  email = a.email;
  display_name = a.display_name;
  status = a.status;
  oid = a.oid;
  tid = a.tid;
}

-- `pendingPKCE`.
pub record PendingPkce : Type 0 where
  pub verifier : Text
  pub created : ℕ
  pub status : Status
  pub account : Option View
  pub error : Text

-- `Server`, as far as the logins go.
pub record Logins : Type 0 where
  pub pkce : Dict Text PendingPkce
  pub accounts : List AccountToken

-- `10*time.Minute`, in nanoseconds.
abbrev pub lifetime : ℕ
lifetime = 10 * 60 * 1000000000

-- `time.Since(p.Created) > 10*time.Minute`.
unfoldable pub is_late : ℕ → PendingPkce → Bool
is_late now p = ltb (p.created + lifetime) now

pub data StartReply : Type 0 where
  pkce_failure state_failure : StartReply
  pkce_ready : Text → StartReply

-- `startPKCE`, with the verifier and the state that the random bytes give.
unfoldable pub start_pkce : ℕ → Option Text → Option Text → Logins → Logins × StartReply
start_pkce now none state s = (s, pkce_failure)
start_pkce now (some verifier) none s = (s, state_failure)
start_pkce now (some verifier) (some state) s =
    let p : PendingPkce = record {
      verifier = verifier;
      created = now;
      status = pending;
      account = none;
      error = [];
    } in
    (record s { pkce = insert state p s.pkce }, pkce_ready state)

pub data StatusReply : Type 0 where
  missing_state expired : StatusReply
  known : Status → Option View → Text → StatusReply

-- `pkceStatus`.
unfoldable pub pkce_status : ℕ → Text → Logins → Logins × StatusReply
unfolding is_late
pkce_status now [] s = (s, missing_state)
pkce_status now (b ∷ state) s = elim (lookup (b ∷ state) s.pkce) [
  | none ↦ (s, expired)
  | some p ↦
      if is_late now p
      then (record s { pkce = delete (b ∷ state) s.pkce }, expired)
      else (s, known p.status p.account p.error)
]

-- The query of the callback; `pasted` are the state and the code of the URL that it may hold instead.
pub record Query : Type 0 where
  pub state : Text
  pub code : Text
  pub pasted : Option (Text × Text)

abbrev given : Text → Text → Text
given s t = if is_empty s then t else s

-- The state and the code of the callback.
unfoldable pub read_query : Query → Text × Text
read_query q = elim q.pasted [
  | none ↦ (q.state, q.code)
  | some (state, code) ↦ if is_empty q.code then (given q.state state, code) else (q.state, q.code)
]

pub data CallbackReply : Type 0 where
  missing_state_or_code invalid_or_expired : CallbackReply
  exchange_failed save_failed : Text → CallbackReply
  logged_in : View → CallbackReply

-- The part of `callbackPKCE` before the request to the identity service, under the mutex.
unfoldable pub callback_begin :
    ℕ → Query → Logins → Result CallbackReply (Text × Text × PendingPkce)
unfolding read_query is_late
callback_begin now q s =
    let (state, code) = read_query q in
    if is_empty state || is_empty code
    then err missing_state_or_code
    else elim (lookup state s.pkce) [
      | none ↦ err invalid_or_expired
      | some p ↦ if is_late now p then err invalid_or_expired else ok (state, code, p)
    ]

abbrev mark : Text → PendingPkce → Logins → Logins
mark state p s = record s { pkce = insert state p s.pkce }

-- The part after it, with the answer of the service and the error of the file.
unfoldable pub callback_finish :
    Ambient
    → Option Text
    → Text
    → PendingPkce
    → Result Text TokenSet
    → Logins
    → Logins × CallbackReply
callback_finish w unsaved state p (err e) s =
    (mark state (record p { status = failed; error = e }) s, exchange_failed e)
callback_finish w unsaved state p (ok tok) s =
    let (es, acc) = upsert w tok s.accounts in
    let s1 = record s { accounts = es } in
    elim unsaved [
      | some e ↦ (mark state (record p { status = failed; error = e }) s1, save_failed e)
      | none ↦ (
        mark state (record p { status = authenticated; account = some (view acc) }) s1,
        logged_in (view acc),
      )
    ]

-- `callbackPKCE`; `exchange` is the service, given the code and the verifier.
unfoldable pub callback_pkce :
    Ambient
    → (Text → Text → Result Text TokenSet)
    → Option Text
    → Query
    → Logins
    → Logins × CallbackReply
unfolding callback_begin callback_finish
callback_pkce w exchange unsaved q s = elim (callback_begin w.now q s) [
  | err r ↦ (s, r)
  | ok (state, code, p) ↦ callback_finish w unsaved state p (exchange code p.verifier) s
]

pub data AccountError : Type 0 where
  no_accounts : AccountError
  token_error : TokenError → AccountError

-- `resolveAccount`.
unfoldable pub resolve_account :
    Renewal → Text → List AccountToken → List AccountToken × Result AccountError AccountToken
resolve_account r id es =
    elim (if is_empty id then (elim (first es) [ none ↦ none | some a ↦ some a.id ]) else some id) [
      | none ↦ (es, err no_accounts)
      | some name ↦
          let (es', answer) = ensure_valid r name es in
          (es', elim answer [ ok a ↦ ok a | err e ↦ err (token_error e) ])
    ]

-- The method of a request, as far as these handlers read it.
pub data Method : Type 0 where
  get_method post_method other_method : Method

pub data AccountsReply : Type 0 where
  method_not_allowed bad_json deleted : AccountsReply
  not_deleted : Text → AccountsReply
  refresh_error : TokenError → AccountsReply
  refreshed : View → AccountsReply
  listed : List View → AccountsReply

-- `accounts`.
unfoldable pub accounts_handler : Method → List AccountToken → AccountsReply
accounts_handler get_method es = listed (map view es)
accounts_handler _ es = method_not_allowed

-- `refreshAccount`; the body is the identifier, unless it is no JSON.
unfoldable pub refresh_account :
    Renewal → Method → Option Text → List AccountToken → List AccountToken × AccountsReply
refresh_account r post_method none es = (es, bad_json)
refresh_account r post_method (some id) es =
    if is_empty (trim_space id)
    then (es, bad_json)
    else let (es', answer) = ensure_valid r (trim_space id) es in
      (es', elim answer [ ok a ↦ refreshed (view a) | err e ↦ refresh_error e ])
refresh_account r _ body es = (es, method_not_allowed)

-- `deleteAccount`; the error of the file undoes nothing.
unfoldable pub delete_account :
    Option Text → Method → Option Text → List AccountToken → List AccountToken × AccountsReply
delete_account unsaved post_method none es = (es, bad_json)
delete_account unsaved post_method (some []) es = (es, bad_json)
delete_account unsaved post_method (some (b ∷ id)) es =
    (Accounts.delete (b ∷ id) es, elim unsaved [ none ↦ deleted | some e ↦ not_deleted e ])
delete_account unsaved _ body es = (es, method_not_allowed)
