-- ===== src/Proxy/Registry.antt =====
-- internal/outbound/proxy.go: the process-wide outbound route or pool, and its configuration. The
-- standard library's URL parser and golang.org/x/net/proxy's SOCKS5 are arguments; the dialers and
-- transports themselves are network code and not modelled.
pub mod Laws
mod Tests
use m365_copilot2api.Prelude.{
  ℕ, List, [], ◌∷◌, ◌++◌, map, reverse, Option, none, some, Bool, true, false, ◌&&◌, ◌||◌, not,
  Text, text_eq, leb, ◌+◌, ◌≤◌, codes, is_empty, trim_space, nat_eq, filter, any, if◌then◌else◌,
  Result, ok, err, ◌>>=◌,
}
use m365_copilot2api.Proxy.{Entry, Pool, new_pool, pick, raws}

-- The parts of a `url.URL` that the code reads.
pub record Url : Type 0 where
  pub scheme : Text
  pub host : Text
  pub path : Text
  pub raw_query : Text
  pub fragment : Text

-- What the code relies on: `url.Parse`, and whether `proxy.SOCKS5` builds a dialer.
pub record Net : Type 0 where
  pub parse : Text → Option Url
  pub socks5 : Url → Bool

-- What a pair of clients sends its traffic through.
pub data Route : Type 0 where
  direct : Route
  http_proxy https_proxy socks5_proxy : Url → Route

pub data ProxyError : Type 0 where
  incomplete : ProxyError
  not_bare : ProxyError
  socks_failed : ProxyError
  unsupported : Text → ProxyError
  not_found : Text → ProxyError
  pool_member : Text → ProxyError

-- `strings.ToLower` on a scheme, which `url.Parse` takes from ASCII letters and `+-.` alone.
abbrev lower_byte : ℕ → ℕ
lower_byte c = if leb b'A' c && leb c b'Z' then c + 32 else c

unfoldable pub by_scheme : Net → Url → Result ProxyError Route
by_scheme net u =
    let s = map lower_byte u.scheme in
    if text_eq s (codes "http")
    then ok (http_proxy u)
    else if text_eq s (codes "https")
    then ok (https_proxy u)
    else if text_eq s (codes "socks5")
    then (if net.socks5 u then ok (socks5_proxy u) else err socks_failed)
    else err (unsupported u.scheme)

-- A path other than "/", a query or a fragment.
unfoldable pub has_more : Url → Bool
has_more u =
    not (is_empty u.fragment)
    || (not (is_empty u.path) && not (text_eq u.path (codes "/")))
    || not (is_empty u.raw_query)

unfoldable pub parsed : Net → Option Url → Result ProxyError Route
parsed net none = err incomplete
parsed net (some u) =
    if is_empty u.host then err incomplete else if has_more u then err not_bare else by_scheme net u

-- `New`, and so `ValidateProxyURL`.
unfoldable pub new_route : Net → Text → Result ProxyError Route
new_route net raw =
    let t = trim_space raw in if is_empty t then ok direct else parsed net (net.parse t)

abbrev pub is_ok {ℓ κ} : {E : Type κ} {A : Type ℓ} → Result E A → Bool
is_ok (ok a) = true
is_ok (err e) = false

-- The globals `clients` and `proxyPool`.
pub record Outbound : Type 0 where
  pub clients : Route
  pub pool : Option Pool

unfoldable pub configure : Net → Text → Outbound → Result ProxyError Outbound
configure net raw o = do r ← new_route net raw; ok (record { clients = r; pool = none })

-- The pool's own errors name the member that `New` refused.
unfoldable pub configure_pool : Net → List Text → Outbound → Result ProxyError Outbound
configure_pool net urls o = elim (new_pool (λ v. is_ok (new_route net v)) urls) [
  | ok p ↦ ok (record o { pool = some p })
  | err v ↦ err (pool_member v)
]

-- `ProxyPoolStatus`, the URLs.
abbrev pub pool_urls : Option Pool → List Text
pool_urls none = []
pool_urls (some p) = raws p

abbrev pub status : Outbound → List Text
status o = pool_urls o.pool

unfoldable pub add_proxy : Net → Text → Outbound → Result ProxyError Outbound
add_proxy net raw o = elim o.pool [
  | none ↦ configure_pool net (raw ∷ []) o
  | some p ↦ configure_pool net (raws p ++ raw ∷ []) o
]

drop_slashes : Text → Text
drop_slashes [] = []
drop_slashes (c ∷ s) = let rest = drop_slashes s in if nat_eq c b'/' then rest else c ∷ s

-- `strings.TrimRight(strings.TrimSpace(s), "/")`.
unfoldable pub normal : Text → Text
unfolding drop_slashes
normal s = reverse (drop_slashes (reverse (trim_space s)))

unfoldable pub remove_proxy : Net → Text → Outbound → Result ProxyError Outbound
remove_proxy net raw o =
    let same = λ (v : Text). text_eq (normal v) (normal raw) in
    elim o.pool [
      | none ↦ ok o
      | some p ↦
          if any same (raws p)
          then configure_pool net (filter (λ v. not (same v)) (raws p)) o
          else err (not_found (normal raw))
    ]

-- `strings.FieldsFunc` on line ends and commas; `field` holds the bytes of the present field.
is_separator : ℕ → Bool
is_separator c = nat_eq c 10 || nat_eq c 13 || nat_eq c b','

fields_from : Text → Text → List Text
unfolding is_separator
fields_from field [] = if is_empty field then [] else field ∷ []
fields_from field (c ∷ s) =
    let rest = fields_from [] s in
    let more = fields_from (field ++ c ∷ []) s in
    if is_separator c then (if is_empty field then rest else field ∷ rest) else more

-- `ConfigureFromEnv`: a pool from `M365_PROXY_POOL`, else one route from `M365_OUTBOUND_PROXY`.
unfoldable pub configure_from_env : Net → Text → Text → Outbound → Result ProxyError Outbound
unfolding fields_from
configure_from_env net pool_env proxy_env o =
    let raw = trim_space pool_env in
    if is_empty raw then configure net proxy_env o else configure_pool net (fields_from [] raw) o

-- `HTTPClient`: through the pool's pick, directly if an empty pool has none, or through the route.
pub data Choice : Type 0 where
  through_entry : Entry → Choice
  through_route : Route → Choice

unfoldable pub http_client : ℕ → Outbound → Outbound × Choice
http_client now o = elim o.pool [
  | none ↦ (o, through_route o.clients)
  | some p ↦
      let (q, e) = pick now p in
      elim e [
        | none ↦ (record o { pool = some q }, through_route direct)
        | some x ↦ (record o { pool = some q }, through_entry x)
      ]
]
