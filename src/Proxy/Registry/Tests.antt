-- ===== src/Proxy/Registry/Tests.antt =====
-- Changes of a pool of two proxies, for internal/outbound/proxy.go.
use m365_copilot2api.Prelude.{
  any, filter, ◌≡◌, refl, [], ◌∷◌, codes, none, some, ok, true, text_eq, Text, trim_space,
}
use m365_copilot2api.Proxy.{new_entry, seen, add_proxies, new_pool}
use m365_copilot2api.Proxy.Registry.{
  Net, Url, Outbound, direct, add_proxy, remove_proxy, configure_pool, normal, new_route, parsed,
  by_scheme, has_more,
}
use m365_copilot2api.Proxy.Registry.Laws.{PoolSound, change, adds, change-Sound}

-- A parser that takes the whole text as the host of an HTTP proxy.
abbrev url_of : Text → Url
url_of v = record { scheme = codes "http"; host = v; path = []; raw_query = []; fragment = [] }

abbrev net : Net
net = record { parse = λ v. some (url_of v); socks5 = λ u. true }

abbrev a : Text
a = codes "a:1"

abbrev b : Text
b = codes "b:2"

abbrev idle : Outbound
idle = record { clients = direct; pool = none }

abbrev one : Outbound
one = record { clients = direct; pool = some (record { entries = new_entry a ∷ []; next = 0 }) }

abbrev two : Outbound
two = record {
  clients = direct;
  pool = some (record { entries = new_entry a ∷ new_entry b ∷ []; next = 0 });
}

one-Sound : PoolSound net one.pool
unfolding seen text_eq new_route parsed by_scheme has_more trim_space
one-Sound = record { distinct = (refl, tt); named = refl; valid = (refl, tt) }

two-Sound : PoolSound net two.pool
unfolding seen text_eq new_route parsed by_scheme has_more trim_space
two-Sound = record { distinct = (refl, (refl, tt)); named = refl; valid = (refl, (refl, tt)) }

added : add_proxy net b one ≡ ok two
unfolding add_proxy configure_pool new_pool add_proxies seen text_eq new_route parsed by_scheme
    has_more trim_space
added = refl

removed : remove_proxy net b two ≡ ok one
unfolding remove_proxy configure_pool new_pool add_proxies seen text_eq new_route parsed by_scheme
    has_more trim_space normal any filter
removed = refl

change-Sound_example : PoolSound net two.pool
unfolding change
change-Sound_example = change-Sound net (adds b) one two one-Sound added
