-- ===== src/Accounts.antt =====
-- internal/auth/cache.go, the store of accounts and their tokens, with `firstNonEmpty` of
-- internal/auth/token.go. The clock, the client identifier, the outcome of writing the file and the
-- answer of the token endpoint are arguments.
pub mod Store
pub mod Tokens
pub mod Login
mod Tests
use m365_copilot2api.Prelude.{
  ℕ, ◌+◌, ◌*◌, List, [], ◌∷◌, ◌++◌, map, Option, none, some, Bool, true, false, ◌&&◌, ◌||◌, not,
  Text, text_eq, codes, is_empty, trim_space, filter, ltb, if◌then◌else◌, Result, ok, err,
}

pub record AccountToken : Type 0 where
  pub id : Text
  pub email : Text
  pub display_name : Text
  pub status : Text
  pub access_token : Text
  pub refresh_token : Text
  pub expires_at : ℕ
  pub updated_at : ℕ
  pub oid : Text
  pub tid : Text
  pub client_id : Text

-- The fields of `TokenSet` that the store reads.
pub record TokenSet : Type 0 where
  pub access_token : Text
  pub refresh_token : Text
  pub expires_at : ℕ
  pub email : Text
  pub display_name : Text
  pub home_oid : Text
  pub tenant_id : Text

-- `firstNonEmpty(a, b)`: the first that is not blank, untrimmed.
unfoldable pub first_non_empty : List Text → Text
first_non_empty [] = []
first_non_empty (v ∷ vs) =
    let rest = first_non_empty vs in if is_empty (trim_space v) then rest else v

abbrev or_else : Text → Text → Text
or_else s t = if is_empty s then t else s

-- What `Upsert` reads of its surroundings: the time, the time as "150405", and `ClientID()`.
pub record Ambient : Type 0 where
  pub now : ℕ
  pub stamp : Text
  pub client_id : Text

-- The identifier of an account with the given tokens.
unfoldable pub account_id : Ambient → TokenSet → Text
account_id w tok =
    let id = or_else tok.home_oid tok.email in or_else id (codes "account-" ++ w.stamp)

-- The account that `Upsert` builds.
unfoldable pub account_of : Ambient → TokenSet → AccountToken
unfolding account_id first_non_empty
account_of w tok = record {
  id = account_id w tok;
  email = tok.email;
  display_name = tok.display_name;
  status = codes "online";
  access_token = tok.access_token;
  refresh_token = tok.refresh_token;
  expires_at = tok.expires_at;
  updated_at = w.now;
  oid = first_non_empty (tok.home_oid ∷ account_id w tok ∷ []);
  tid = tok.tenant_id;
  client_id = w.client_id;
}

-- The account in the store is the same as the new one.
unfoldable pub matches : AccountToken → AccountToken → Bool
matches acc existing =
    text_eq existing.id acc.id || (not (is_empty acc.email) && text_eq existing.email acc.email)

-- What an update keeps of the account in the store.
unfoldable pub merge : AccountToken → AccountToken → AccountToken
merge acc existing = record acc {
  refresh_token = or_else acc.refresh_token existing.refresh_token;
  tid = or_else acc.tid existing.tid;
  oid = or_else acc.oid existing.oid;
}

-- The loop of `Upsert`: the first account that is the same is replaced, else the new one is added.
unfoldable pub upsert_account : AccountToken → List AccountToken → List AccountToken × AccountToken
unfolding matches merge
upsert_account acc [] = (acc ∷ [], acc)
upsert_account acc (e ∷ es) =
    let (rest, stored) = upsert_account acc es in
    if matches acc e then (merge acc e ∷ es, merge acc e) else (e ∷ rest, stored)

-- `Upsert`, less the writing of the file, whose error is passed on and undoes nothing.
unfoldable pub upsert : Ambient → TokenSet → List AccountToken → List AccountToken × AccountToken
upsert w tok es = upsert_account (account_of w tok) es

-- `Delete`.
unfoldable pub delete : Text → List AccountToken → List AccountToken
delete id = filter (λ a. not (text_eq a.id id))

-- The test of the loop of `Get`.
unfoldable pub answers_to : Text → AccountToken → Bool
answers_to id a = text_eq a.id id || text_eq a.oid id || text_eq a.email id

-- `Get`.
unfoldable pub get : Text → List AccountToken → Option AccountToken
unfolding answers_to
get id [] = none
get id (a ∷ es) = let rest = get id es in if answers_to id a then some a else rest

-- `First`.
unfoldable pub first : List AccountToken → Option AccountToken
first [] = none
first (a ∷ es) = some a

-- `OpenStore`'s normalisation of older entries.
unfoldable pub normalize : AccountToken → AccountToken
normalize a = let oid = or_else a.oid a.id in record a { oid = oid; id = or_else a.id oid }

-- The file as it was read, as far as `OpenStore` tells outcomes apart.
pub data File : Type 0 where
  missing unreadable malformed : File
  holds : List AccountToken → File

unfoldable pub open_store : File → Option (List AccountToken)
unfolding normalize
open_store missing = some []
open_store unreadable = none
open_store malformed = none
open_store (holds es) = some (map normalize es)

-- `s.data.Accounts[i] = acc` at the first account with its identifier.
unfoldable pub put : AccountToken → List AccountToken → List AccountToken
put acc [] = []
put acc (a ∷ es) = let rest = put acc es in if text_eq a.id acc.id then acc ∷ es else a ∷ rest

pub data TokenError : Type 0 where
  not_exist token_expired : TokenError
  refresh_failed not_saved : Text → TokenError

-- The fields that a refreshed token leaves open come from the account.
unfoldable pub complete : AccountToken → TokenSet → TokenSet
unfolding first_non_empty
complete acc tok = record tok {
  email = or_else tok.email acc.email;
  display_name = or_else tok.display_name acc.display_name;
  home_oid = or_else tok.home_oid (first_non_empty (acc.oid ∷ acc.id ∷ []));
  tenant_id = or_else tok.tenant_id acc.tid;
}

abbrev pub expired : AccountToken → AccountToken
expired acc = record acc { status = codes "expired" }

-- `30 * time.Second`, in nanoseconds.
abbrev pub leeway : ℕ
leeway = 30 * 1000000000

-- What `EnsureValid` meets: the time of its test, the answers of `Refresh`, what other handlers do to the
-- store before it is locked again, the surroundings of `Upsert`, and the error of writing the file.
pub record Renewal : Type 0 where
  pub now : ℕ
  pub refresh : Text → Result Text TokenSet
  pub meanwhile : List AccountToken → List AccountToken
  pub later : Ambient
  pub unsaved : Option Text

-- What `EnsureValid` does once it has the account. The error of writing the file is passed on only where
-- the token was refreshed.
unfoldable pub renew :
    Renewal → AccountToken → List AccountToken → List AccountToken × Result TokenError AccountToken
renew r acc es =
    if ltb (r.now + leeway) acc.expires_at
    then (es, ok acc)
    else if is_empty acc.refresh_token
    then (put (expired acc) (r.meanwhile es), err token_expired)
    else elim (r.refresh acc.refresh_token) [
      | err e ↦ (put (expired acc) (r.meanwhile es), err (refresh_failed e))
      | ok tok ↦
          let (es', stored) = upsert r.later (complete acc tok) (r.meanwhile es) in
          (es', elim r.unsaved [ none ↦ ok stored | some e ↦ err (not_saved e) ])
    ]

-- `EnsureValid`. With an error Go also returns the account, which the callers drop.
unfoldable pub ensure_valid :
    Renewal → Text → List AccountToken → List AccountToken × Result TokenError AccountToken
ensure_valid r id es = elim (get id es) [ none ↦ (es, err not_exist) | some acc ↦ renew r acc es ]
