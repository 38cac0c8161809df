-- ===== src/ApiKeys.antt =====
-- internal/web/keys.go, the API keys, with `adminKeys` and `validAPIKey` of internal/web/server.go. The
-- hash (SHA-256), the random bytes, the clock and the outcome of writing the file are arguments.
pub mod Laws
mod Tests
use m365_copilot2api.Prelude.{
  ℕ, ◌+◌, ◌-◌, ◌*◌, ◌/◌, ◌%◌, List, [], ◌∷◌, ◌++◌, map, Option, none, some, Bool, true, false, ◌&&◌,
  ◌||◌, not, Text, text_eq, codes, is_empty, take, drop, length, trim_space, has_prefix, any, ltb,
  leb, if◌then◌else◌,
}

pub record ApiKey : Type 0 where
  pub id : Text
  pub name : Text
  pub prefix : Text
  pub hash : Text
  pub created_at : ℕ
  pub last_used_at : Option ℕ
  pub revoked : Bool

hex_digit : ℕ → ℕ
hex_digit n = if ltb n 10 then b'0' + n else b'a' + (n - 10)

-- `hex.EncodeToString`.
unfoldable pub hex : List ℕ → Text
unfolding hex_digit
hex [] = []
hex (b ∷ bs) = hex_digit (b / 16) ∷ hex_digit (b % 16) ∷ hex bs

-- `"m365_" + hex.EncodeToString(b)`.
unfoldable pub raw_key : List ℕ → Text
unfolding hex
raw_key bytes = codes "m365_" ++ hex bytes

pub data KeyError : Type 0 where
  no_randomness not_saved : KeyError

-- What `create` returns: the record and the key itself, or an error.
pub data Created : Type 0 where
  created : ApiKey → Text → Created
  failed : KeyError → Created

module _ (key_hash : Text → Text) where
  unfoldable pub new_key : Text → List ℕ → ℕ → ApiKey
  new_key name bytes now = record {
    id = hex (take 8 bytes);
    name = name;
    prefix = take 12 (raw_key bytes);
    hash = key_hash (raw_key bytes);
    created_at = now;
    last_used_at = none;
    revoked = false;
  }

  -- `create`: a key that could not be saved is taken back.
  unfoldable pub create : Text → Option (List ℕ) → ℕ → Bool → List ApiKey → List ApiKey × Created
  unfolding new_key
  create name none now saved keys = (keys, failed no_randomness)
  create name (some bytes) now saved keys =
      let r = new_key name bytes now in
      if saved then (keys ++ r ∷ [], created r (raw_key bytes)) else (keys, failed not_saved)

  -- The test of the loop of `valid`.
  unfoldable pub opens : Text → ApiKey → Bool
  opens raw k = text_eq k.hash (key_hash raw) && not k.revoked

  -- `valid`: the first key that fits is used; whether the file was written does not matter.
  unfoldable pub valid : Text → ℕ → List ApiKey → List ApiKey × Bool
  unfolding opens
  valid raw now [] = ([], false)
  valid raw now (k ∷ ks) =
      let (rest, found) = valid raw now ks in
      if opens raw k then (record k { last_used_at = some now } ∷ ks, true) else (k ∷ rest, found)

abbrev pub blank : ApiKey → ApiKey
blank k = record k { hash = [] }

-- `list`: the records, their hashes blanked.
unfoldable pub list : List ApiKey → List ApiKey
list = map blank

pub data Revoked : Type 0 where
  revoked unknown save_failed : Revoked

-- `revoke`: of the keys with the identifier the first that is not revoked yet; if the file cannot be
-- written it stays as it was.
unfoldable pub revoke : Text → Bool → List ApiKey → List ApiKey × Revoked
revoke id saved [] = ([], unknown)
revoke id saved (k ∷ ks) =
    let (rest, outcome) = revoke id saved ks in
    if text_eq k.id id && not k.revoked
    then (if saved then (record k { revoked = true } ∷ ks, revoked) else (k ∷ ks, save_failed))
    else (k ∷ rest, outcome)

pub data Method : Type 0 where
  get post delete other : Method

-- A request to `adminKeys`: the name in a body that decodes, the identifier of the query.
pub record KeyRequest : Type 0 where
  pub method : Method
  pub body_name : Option Text
  pub query_id : Text

pub data KeyReply : Type 0 where
  keys : List ApiKey → KeyReply
  key : Text → ApiKey → KeyReply
  bad_json not_found revoked_key method_not_allowed : KeyReply
  server_error : KeyError → KeyReply

unfoldable pub key_name : Text → Text
key_name name = if is_empty (trim_space name) then codes "API key" else name

module _ (key_hash : Text → Text) where
  create_reply : List ApiKey × Created → List ApiKey × KeyReply
  create_reply (ks, created r raw) = (ks, key raw r)
  create_reply (ks, failed e) = (ks, server_error e)

  revoke_reply : List ApiKey × Revoked → List ApiKey × KeyReply
  revoke_reply (ks, revoked) = (ks, revoked_key)
  revoke_reply (ks, unknown) = (ks, not_found)
  revoke_reply (ks, save_failed) = (ks, server_error not_saved)

  unfoldable pub admin_keys :
      KeyRequest → Option (List ℕ) → ℕ → Bool → List ApiKey → List ApiKey × KeyReply
  unfolding create_reply revoke_reply
  admin_keys r bytes now saved ks = elim r.method [
    | get ↦ (ks, keys (list ks))
    | post ↦ elim r.body_name [
      | none ↦ (ks, bad_json)
      | some n ↦ create_reply (create key_hash (key_name n) bytes now saved ks)
    ]
    | delete ↦ revoke_reply (revoke r.query_id saved ks)
    | other ↦ (ks, method_not_allowed)
  ]

  -- The key of a request: `X-API-Key`, else the bearer token. Only the seven bytes that are compared
  -- with "bearer " are lowered, and no other character is lowered to one of them.
  abbrev lower_byte : ℕ → ℕ
  lower_byte c = if leb b'A' c && leb c b'Z' then c + 32 else c

  unfoldable pub request_key : Text → Text → Text
  request_key api_key authorization =
      let raw = trim_space api_key in
      if not (is_empty raw)
      then raw
      else if has_prefix (map lower_byte authorization) (codes "bearer ")
      then trim_space (drop 7 authorization)
      else []

  unfoldable pub valid_api_key : Text → Text → ℕ → List ApiKey → List ApiKey × Bool
  valid_api_key api_key authorization now ks =
      let raw = request_key api_key authorization in
      if is_empty raw then (ks, false) else valid key_hash raw now ks
