-- ===== src/Admin/Throttle.antt =====
-- The limit on failed logins of internal/web/admin_security.go.
use m365_copilot2api.Prelude.{
  ℕ, ◌+◌, ◌≤◌, ◌<◌, ◌≡◌, ◌↔◌, List, [], ◌∷◌, none, some, true, Text, text_eq, text_eq_iff, arith,
  length, lookup, insert, has_key, Text_eq, lookup-insert, length-insert, length-filter-le,
  if◌then◌else◌, All, ◌||◌, ap, ◌∙◌,
}
use m365_copilot2api.Admin.{
  Admin, LoginAttempt, window, attempt, is_stale, is_live, bump, make_room, login_allowed,
  record_login_failure, max_login_attempt_entries, filter, ltb,
}

-- Recording a failed login keeps the table of addresses within its 4096 entries.
pub record_login_failure-bounded :
    (ip : Text) (now : ℕ) (s : Admin)
    → length s.attempts ≤ max_login_attempt_entries
    → length (record_login_failure ip now s).attempts ≤ max_login_attempt_entries
unfolding record_login_failure make_room lookup
record_login_failure-bounded ip now s h = ground (
  arith,
  length-insert ip (bump now (attempt ip s.attempts)) s.attempts,
  length-insert ip (bump now (attempt ip (filter (is_live now) s.attempts)))
      (filter (is_live now) s.attempts),
  length-filter-le (is_live now) s.attempts,
)

-- A login is refused exactly while the address is locked.
pub login_allowed-none_iff :
    (ip : Text) (now : ℕ) (s : Admin)
    → ((login_allowed ip now s).1 ≡ none) ↔ ((attempt ip s.attempts).locked_until ≤ now)
unfolding login_allowed
login_allowed-none_iff ip now s = ground arith

-- A failure of the address will be counted: it is known, or the table has room.
abbrev pub HasRoom : Text → Admin → Type 0
HasRoom ip s = (has_key ip s.attempts || ltb (length s.attempts) max_login_attempt_entries) ≡ true

module _ (ip : Text) (now : ℕ) (s : Admin) (room : HasRoom ip s) where
  attempts-record_login_failure :
      (record_login_failure ip now s).attempts
      ≡ insert ip (bump now (attempt ip s.attempts)) s.attempts
  unfolding record_login_failure make_room
  attempts-record_login_failure = ground arith

  pub attempt-record_login_failure :
      (j : Text)
      → attempt j (record_login_failure ip now s).attempts
        ≡ (if text_eq ip j then bump now (attempt ip s.attempts) else attempt j s.attempts)
  unfolding attempt
  attempt-record_login_failure j = ground (
    arith,
    attempts-record_login_failure,
    lookup-insert ip j (bump now (attempt ip s.attempts)) s.attempts,
  )

  HasRoom-record_login_failure : HasRoom ip (record_login_failure ip now s)
  HasRoom-record_login_failure = ground (
    arith,
    attempts-record_login_failure,
    lookup-insert ip ip (bump now (attempt ip s.attempts)) s.attempts,
    text_eq_iff ip ip,
  )

-- Failures of one address, one after the other.
pub record_all : Text → List ℕ → Admin → Admin
record_all ip [] s = s
record_all ip (t ∷ ts) s = record_all ip ts (record_login_failure ip t s)

-- The times lie within the window that opened at `start`.
abbrev pub Within : ℕ → ℕ → Type 0
Within start t = (start ≤ t) × (t ≤ start + window)

bump-failures :
    (start t : ℕ) (a : LoginAttempt)
    → 0 < start
    → a.window_start ≡ start
    → Within start t
    → ((bump t a).failures ≡ a.failures + 1) × ((bump t a).window_start ≡ start)
unfolding bump is_stale
bump-failures start t a pos e w = ground arith

failures-record_all :
    (ip : Text) (start : ℕ) (ts : List ℕ) (s : Admin)
    → HasRoom ip s
    → 0 < start
    → (attempt ip s.attempts).window_start ≡ start
    → All (Within start) ts
    → ((attempt ip (record_all ip ts s).attempts).failures
        ≡ (attempt ip s.attempts).failures + length ts)
      × ((attempt ip (record_all ip ts s).attempts).window_start ≡ start)
      × HasRoom ip (record_all ip ts s)
unfolding record_all
failures-record_all ip start [] s room pos e w = (omega arith, e, room)
failures-record_all ip start (t ∷ ts) s room pos e w =
    let s' = record_login_failure ip t s in
    let a = attempt ip s.attempts in
    let (count, began) = bump-failures start t a pos e w.0 in
    let same : attempt ip s'.attempts ≡ bump t a =
      ground (arith, attempt-record_login_failure ip t s room ip, text_eq_iff ip ip) in
    let (total, opened, free) =
      failures-record_all ip start ts s' (HasRoom-record_login_failure ip t s room) pos
        (ap (λ (b : LoginAttempt). b.window_start) same ∙ began) w.1 in
    (omega (arith, ap (λ (b : LoginAttempt). b.failures) same), opened, free)

-- Where the table knows the address or has room, and no window of failures is open for it: after
-- its first failure and at least four more within a quarter of an hour of that one, no login from
-- there is allowed for a quarter of an hour after the last failure.
pub lockout :
    (ip : Text) (start : ℕ) (ts : List ℕ) (last now : ℕ) (s : Admin)
    → HasRoom ip s
    → 0 < start
    → is_stale start (attempt ip s.attempts) ≡ true
    → All (Within start) ts
    → Within start last
    → 3 ≤ length ts
    → now < last + window
    → (login_allowed ip now (record_login_failure ip last (record_all ip (start ∷ ts) s))).1
      ≡ some (last + window)
unfolding record_all login_allowed bump is_stale
lockout ip start ts last now s room pos stale w wl many early =
    let s1 = record_login_failure ip start s in
    let same : attempt ip s1.attempts ≡ bump start (attempt ip s.attempts) =
      ground (arith, attempt-record_login_failure ip start s room ip, text_eq_iff ip ip) in
    let (total, opened, free) =
      failures-record_all ip start ts s1 (HasRoom-record_login_failure ip start s room) pos
        (ground arith) w in
    ground
      (arith, attempt-record_login_failure ip last (record_all ip ts s1) free ip, text_eq_iff ip ip)
