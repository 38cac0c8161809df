-- ===== src/Proxy/Marks.antt =====
-- Failure counts and cooldowns: `mark` and `setHealth` of internal/outbound.
use m365_copilot2api.Prelude.{
  ℕ, zero, suc, ◌+◌, ◌*◌, ◌^◌, ◌%◌, ◌∙◌, ◌≤◌, ◌<◌, ◌≡◌, refl, min, List, [], ◌∷◌, map, ap, Option,
  none, some, Bool, true, false, Text, text_eq, text_eq_iff, if◌then◌else◌, arith, Bool-cases, inl,
  inr,
}
use mathlib.Core.Option
use m365_copilot2api.Proxy.{
  Entry, Pool, second, max_cooldown, change_first, cooldown_after, mark_entry, mark, set_health,
  raws, seen,
}

-- The first entry with the URL.
unfoldable pub find : Text → List Entry → Option Entry
find raw [] = none
find raw (e ∷ es) = if text_eq e.raw raw then some e else find raw es

pub find-seen :
    (raw : Text) (es : List Entry)
    → seen raw (map (λ e. e.raw) es) ≡ true
    → (e : Entry) × (find raw es ≡ some e)
unfolding find seen
find-seen raw [] h = cc
find-seen raw (e ∷ es) h = elim (Bool-cases (text_eq e.raw raw)) [
  | inl here ↦ (e, rw here)
  | inr later ↦ rw later (find-seen raw es (ground arith))
]

find-raw : (raw : Text) (es : List Entry) (e : Entry) → find raw es ≡ some e → e.raw ≡ raw
unfolding find
find-raw raw [] e h = cc
find-raw raw (x ∷ es) e h = ground (arith, text_eq_iff x.raw raw, find-raw raw es e)

module _ (raw : Text) (f : Entry → Entry) (keeps : (e : Entry) → (f e).raw ≡ e.raw) where
  -- A change reaches the first entry with the URL, and no other URL's.
  pub find-change_first :
      (j : Text) (es : List Entry)
      → find j (change_first raw f es)
        ≡ (if text_eq raw j then Option.map f (find j es) else find j es)
  unfolding find change_first
  find-change_first j [] = ground arith
  find-change_first j (e ∷ es) = ground (
    arith,
    keeps e,
    text_eq_iff e.raw raw,
    text_eq_iff raw j,
    text_eq_iff e.raw j,
    find-change_first j es,
  )

  pub raws-change_first :
      (es : List Entry) → map (λ e. e.raw) (change_first raw f es) ≡ map (λ e. e.raw) es
  unfolding change_first
  raws-change_first [] = refl
  raws-change_first (e ∷ es) = ground (arith, keeps e, raws-change_first es)

mark_entry-raw : (now : ℕ) (failed : Bool) (e : Entry) → (mark_entry now failed e).raw ≡ e.raw
unfolding mark_entry
mark_entry-raw now true e = refl
mark_entry-raw now false e = refl

-- A cooldown never ends later than two minutes from now, whatever the count, even where the
-- product overflows.
pub cooldown_after-le : (now failures : ℕ) → cooldown_after now failures ≤ now + max_cooldown
unfolding cooldown_after
cooldown_after-le now failures = ground arith

-- Below 2 ^ 32 failures, the cooldown is two seconds for each failure, at most two minutes.
pub cooldown_after-min :
    (now failures : ℕ)
    → failures < 2 ^ 32
    → cooldown_after now failures ≡ now + min (failures * 2 * second) max_cooldown
unfolding cooldown_after
cooldown_after-min now failures h = ground arith

abbrev pub cleared : Entry → Entry
cleared e = record e { failures = 0; cooldown = 0 }

-- The entry after failure number `k`.
abbrev pub cooled : ℕ → Entry → ℕ → Entry
cooled now e k = record e { failures = k; cooldown = now + min (k * 2 * second) max_cooldown }

-- After a call that succeeded, the proxy has no failures and is ready at once; other URLs and the
-- order of the pool are untouched.
pub mark_success :
    (now : ℕ) (raw j : Text) (p : Pool)
    → find j (mark now raw false p).entries
      ≡ (if text_eq raw j then Option.map cleared (find j p.entries) else find j p.entries)
unfolding mark mark_entry
mark_success now raw j p =
    find-change_first raw (mark_entry now false) (mark_entry-raw now false) j p.entries

pub raws-set_health : (raw status : Text) (p : Pool) → raws (set_health raw status p) ≡ raws p
unfolding set_health
raws-set_health raw status p =
    raws-change_first raw (λ e. record e { health = status }) (λ e. refl) p.entries

pub find-mark :
    (now : ℕ) (raw j : Text) (failed : Bool) (p : Pool)
    → find j (mark now raw failed p).entries ≡ (
        if text_eq raw j
        then Option.map (mark_entry now failed) (find j p.entries)
        else find j p.entries)
unfolding mark
find-mark now raw j failed p =
    find-change_first raw (mark_entry now failed) (mark_entry-raw now failed) j p.entries

-- The pool keeps its proxies and their order.
pub raws-mark :
    (now : ℕ) (raw : Text) (failed : Bool) (p : Pool) → raws (mark now raw failed p) ≡ raws p
unfolding mark
raws-mark now raw failed p =
    raws-change_first raw (mark_entry now failed) (mark_entry-raw now failed) p.entries

-- `k` calls through one proxy fail in a row.
pub fail_times : ℕ → ℕ → Text → Pool → Pool
fail_times zero now raw p = p
fail_times (suc k) now raw p = fail_times k now raw (mark now raw true p)

pub find-mark_failure :
    (now : ℕ) (raw : Text) (p : Pool) (e : Entry)
    → find raw p.entries ≡ some e
    → e.failures + 1 < 2 ^ 32
    → find raw (mark now raw true p).entries ≡ some (cooled now e (e.failures + 1))
unfolding mark mark_entry
find-mark_failure now raw p e at few =
    let same : (e.failures + 1) % 2 ^ 64 ≡ e.failures + 1 = omega arith in
    ground (
      arith,
      find-change_first raw (mark_entry now true) (mark_entry-raw now true) raw p.entries,
      text_eq_iff raw raw,
      same,
      cooldown_after-min now (e.failures + 1) few,
    )

-- A row of failures of one proxy of the pool is counted one by one, and ends with a cooldown of
-- two seconds for each failure so far, at most two minutes, while the count stays below 2 ^ 32.
pub find-fail_times :
    (k now : ℕ) (raw : Text) (p : Pool) (e : Entry)
    → find raw p.entries ≡ some e
    → e.failures + suc k < 2 ^ 32
    → find raw (fail_times (suc k) now raw p).entries ≡ some (cooled now e (e.failures + suc k))
unfolding fail_times
find-fail_times zero now raw p e at few = find-mark_failure now raw p e at (omega arith)
find-fail_times (suc k) now raw p e at few =
    let e' = cooled now e (e.failures + 1) in
    find-fail_times k now raw (mark now raw true p) e'
      (find-mark_failure now raw p e at (omega arith)) (omega arith)
    ∙ ap (λ (t : ℕ). some (cooled now e t)) (omega arith)
