-- ===== src/Proxy/Tests.antt =====
-- Pools of two proxies, for internal/outbound.
use m365_copilot2api.Prelude.{
  ◌+◌, ◌≡◌, ◌≤◌, ◌&&◌, refl, [], ◌∷◌, List, codes, not, arith, text_eq, is_empty, Text, Bool,
  if◌then◌else◌, length, false, ℕ,
}
use mathlib.Core.Option
use m365_copilot2api.Proxy.{
  Pool, new_entry, pick, mark, raws, seen, remove, max_cooldown, cooldown_after,
}
use m365_copilot2api.Proxy.Pick.{Picks, pick-Picks}
use m365_copilot2api.Proxy.Marks.{find, mark_success, cleared, cooldown_after-le}
use m365_copilot2api.Proxy.Members.{seen-remove}
use m365_copilot2api.Proxy.Health.{check_all, Probe, answered}
use m365_copilot2api.Proxy.Health.Rounds.{Checked, check_all-Checked}

abbrev first_url : Text
first_url = codes "http://a:1"

abbrev second_url : Text
second_url = codes "http://b:2"

-- The first proxy cools down until time 50, the second is ready.
abbrev one_cold : Pool
one_cold = record {
  entries =
      record (new_entry first_url) { failures = 1; cooldown = 50 } ∷ new_entry second_url ∷ [];
  next = 0;
}

abbrev fresh_pool : Pool
fresh_pool = record { entries = new_entry first_url ∷ new_entry second_url ∷ []; next = 1 }

abbrev accepts : Text → Bool
accepts v = not (is_empty v)

pick-Picks_example : Picks 7 one_cold (pick 7 one_cold).0 (pick 7 one_cold).1
pick-Picks_example = pick-Picks 7 one_cold (omega arith)

cooldown_after-le_example : cooldown_after 5 4611686019 ≤ 5 + max_cooldown
cooldown_after-le_example = cooldown_after-le 5 4611686019

mark_success_example : find first_url (mark 100 first_url false one_cold).entries ≡ (
    if text_eq first_url first_url
    then Option.map cleared (find first_url one_cold.entries)
    else find first_url one_cold.entries)
mark_success_example = mark_success 100 first_url first_url one_cold

abbrev fresh_next : ℕ
fresh_next = 0

abbrev given : List Text
given = first_url ∷ [] ∷ second_url ∷ first_url ∷ []

seen-remove_example :
    seen second_url (raws (remove first_url fresh_pool))
    ≡ (seen second_url (raws fresh_pool) && not (text_eq first_url second_url))
unfolding seen text_eq
seen-remove_example = seen-remove first_url second_url fresh_pool (refl, (refl, tt))

-- Every proxy answers, each at a time of its own.
abbrev probe : Text → Probe
probe v = record { now = 100 + length v; latency = 4; answer = answered 200 (codes "200 OK") }

check_all-Checked_example :
    (raws (check_all probe one_cold) ≡ raws one_cold)
    × Checked probe second_url (check_all probe one_cold)
unfolding seen text_eq
check_all-Checked_example = check_all-Checked probe one_cold second_url (refl, (refl, tt)) refl
