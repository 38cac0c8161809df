-- ===== src/Proxy.antt =====
-- internal/outbound/pool.go and internal/outbound/health.go: the pool of outbound proxies, with
-- round-robin choice, failure counts and cooldowns. Times are nanoseconds since Go's zero time, and
-- the clock is an argument of each call; the mutex makes each call one step.
pub mod Pick
pub mod Marks
pub mod Members
pub mod Health
pub mod Registry
mod Tests
use m365_copilot2api.Prelude.{
  ℕ, zero, suc, ◌+◌, ◌-◌, ◌*◌, ◌%◌, ◌^◌, List, [], ◌∷◌, ◌++◌, map, Option, none, some, Bool, true,
  false, ◌||◌, Text, text_eq, codes, is_empty, length, get_elem?, ltb, leb, nat_eq, if◌then◌else◌,
  Result, ok, err,
}

-- `time.Second` and `2 * time.Minute`.
abbrev pub second : ℕ
second = 1000000000

abbrev pub max_cooldown : ℕ
max_cooldown = 120 * second

-- `clients` holds the transports of golang.org/x/net/proxy and gorilla/websocket: not modelled.
-- `failures` is a Go `int`, as its 64-bit pattern.
pub record Entry : Type 0 where
  pub raw : Text
  pub failures : ℕ
  pub cooldown : ℕ
  pub last_check : ℕ
  pub latency : ℕ
  pub last_error : Text
  pub health : Text

pub record Pool : Type 0 where
  pub entries : List Entry
  pub next : ℕ

abbrev pub new_entry : Text → Entry
new_entry v = record {
  raw = v;
  failures = 0;
  cooldown = 0;
  last_check = 0;
  latency = 0;
  last_error = [];
  health = [];
}

-- `seen[v]`.
unfoldable pub seen : Text → List Text → Bool
seen v [] = false
seen v (u ∷ us) = text_eq u v || seen v us

-- The loop of `NewPool`: `make` is `New`, which validates a proxy's URL, and answers whether it
-- accepts one; the first refused proxy is the error.
unfoldable pub add_proxies : (Text → Bool) → List Text → List Text → Result Text (List Entry)
add_proxies make taken [] = ok []
add_proxies make taken (v ∷ vs) =
    let skip = add_proxies make taken vs in
    let more = add_proxies make (v ∷ taken) vs in
    if is_empty v || seen v taken
    then skip
    else if make v
    then elim more [ ok es ↦ ok (new_entry v ∷ es) | err e ↦ err e ]
    else err v

unfoldable pub new_pool : (Text → Bool) → List Text → Result Text Pool
unfolding add_proxies
new_pool make raws = elim (add_proxies make [] raws) [
  | ok es ↦ ok (record { entries = es; next = 0 })
  | err e ↦ err e
]

-- The search of `pick`: the entries at `next + i`, in a ring, until one is not cooling down. `left`
-- counts the rounds that are left of `len(p.entries)`. The result is `i` and the entry.
unfoldable pub first_ready : ℕ → List Entry → ℕ → ℕ → ℕ → Option (ℕ × Entry)
first_ready now es next i zero = none
first_ready now es next i (suc left) =
    let rest = first_ready now es next (i + 1) left in
    elim (get_elem? es ((next + i) % length es)) [
      | none ↦ none
      | some e ↦ if ltb now e.cooldown then rest else some (i, e)
    ]

-- `pick`: with every entry cooling down, the next one in turn is used all the same.
unfoldable pub pick : ℕ → Pool → Pool × Option Entry
unfolding first_ready
pick now p =
    let n = length p.entries in
    if nat_eq n 0 then (p, none) else elim (first_ready now p.entries p.next 0 n) [
      | some (i, e) ↦ (record p { next = (p.next + i + 1) % n }, some e)
      | none ↦ (record p { next = (p.next + 1) % n }, get_elem? p.entries (p.next % n))
    ]

-- `e := ...; if e.raw == raw { change e; return }`: only the first entry with the URL changes.
unfoldable pub change_first : Text → (Entry → Entry) → List Entry → List Entry
change_first raw f [] = []
change_first raw f (e ∷ es) = if text_eq e.raw raw then f e ∷ es else e ∷ change_first raw f es

-- `now.Add(d)` for `d := time.Duration(failures) * 2 * time.Second`, at most two minutes. The product
-- is an int64: past 2 ^ 63 it is negative, and the cooldown lies in the past.
unfoldable pub cooldown_after : ℕ → ℕ → ℕ
cooldown_after now failures =
    let d = failures * 2 * second % 2 ^ 64 in
    if leb (2 ^ 63) d
    then now + d - 2 ^ 64
    else if ltb max_cooldown d
    then now + max_cooldown
    else now + d

-- The body of `mark`, on the entry; the call failed or not.
unfoldable pub mark_entry : ℕ → Bool → Entry → Entry
unfolding cooldown_after
mark_entry now false e = record e { failures = 0; cooldown = 0 }
mark_entry now true e =
    let f = (e.failures + 1) % 2 ^ 64 in record e { failures = f; cooldown = cooldown_after now f }

unfoldable pub mark : ℕ → Text → Bool → Pool → Pool
unfolding mark_entry change_first
mark now raw failed p = record p { entries = change_first raw (mark_entry now failed) p.entries }

unfoldable pub set_health : Text → Text → Pool → Pool
unfolding change_first
set_health raw status p = record p {
  entries = change_first raw (λ e. record e { health = status }) p.entries;
}

-- `Remove`: the first entry with the URL goes, and `next` stays as it is.
unfoldable pub remove_first : Text → List Entry → List Entry
remove_first raw [] = []
remove_first raw (e ∷ es) = if text_eq e.raw raw then es else e ∷ remove_first raw es

unfoldable pub remove : Text → Pool → Pool
unfolding remove_first
remove raw p = record p { entries = remove_first raw p.entries }

-- `List`, less its JSON: the URLs in order.
abbrev pub raws : Pool → List Text
raws p = map (λ e. e.raw) p.entries
