-- ===== src/Admin.antt =====
-- internal/web/admin_security.go and the administrator's part of internal/web/server.go: passwords,
-- sessions and the limit on failed logins. Times are nanoseconds since Go's zero time, an argument of
-- each call; the mutex makes each locked part one step.
pub mod Throttle
pub mod Handlers
pub mod Access
mod Tests
use m365_copilot2api.Prelude.{
  ℕ, suc, ◌+◌, ◌-◌, ◌*◌, List, [], ◌∷◌, Option, none, some, Bool, true, false, ◌&&◌, ◌||◌, not,
  Text, text_eq, codes, length, filter, ltb, leb, nat_eq, if◌then◌else◌, Dict, lookup, insert,
  delete, has_key, Text_eq,
}

abbrev pub minutes : ℕ → ℕ
minutes n = n * 60000000000

-- `15 * time.Minute`, both the window of failures and the length of a lock.
abbrev pub window : ℕ
window = minutes 15

pub record LoginAttempt : Type 0 where
  pub failures : ℕ
  pub window_start : ℕ
  pub locked_until : ℕ

-- The fields of `Server` that the administrator's handlers use. A session has its expiry.
pub record Admin : Type 0 where
  pub password : Text
  pub must_change : Bool
  pub sessions : Dict Text ℕ
  pub attempts : Dict Text LoginAttempt

abbrev pub default_password : Text
default_password = codes "admin123"

abbrev pub zero_attempt : LoginAttempt
zero_attempt = record { failures = 0; window_start = 0; locked_until = 0 }

-- `s.loginAttempts[ip]`, the zero value if there is none.
unfoldable pub attempt : Text → Dict Text LoginAttempt → LoginAttempt
attempt ip m = elim (lookup ip m) [ none ↦ zero_attempt | some a ↦ a ]

-- `a.WindowStart.IsZero() || now.Sub(a.WindowStart) > 15*time.Minute`.
unfoldable pub is_stale : ℕ → LoginAttempt → Bool
is_stale now a = nat_eq a.window_start 0 || ltb window (now - a.window_start)

-- `loginAllowed`: the end of the lock, if there is one.
unfoldable pub login_allowed : Text → ℕ → Admin → Admin × Option ℕ
unfolding attempt is_stale
login_allowed ip now s =
    let a = attempt ip s.attempts in
    if ltb now a.locked_until
    then (s, some a.locked_until)
    else if is_stale now a
    then (record s { attempts = delete ip s.attempts }, none)
    else (s, none)

abbrev pub max_login_attempt_entries : ℕ
max_login_attempt_entries = 4096

-- An entry that the pruning keeps: its window or its lock is not over.
unfoldable pub is_live : ℕ → Text × LoginAttempt → Bool
is_live now (ip, a) = not (ltb window (now - a.window_start) && ltb a.locked_until now)

-- The attempts once the failure is counted.
unfoldable pub bump : ℕ → LoginAttempt → LoginAttempt
unfolding is_stale
bump now a =
    let b =
      if is_stale now a then record { failures = 0; window_start = now; locked_until = 0 } else a in
    let f = b.failures + 1 in
    record b { failures = f; locked_until = (if leb 5 f then now + window else b.locked_until) }

-- The table, after room is made for a new address; `none` if it stays full.
unfoldable pub make_room : Text → ℕ → Dict Text LoginAttempt → Dict Text LoginAttempt × Bool
unfolding is_live
make_room ip now m =
    if has_key ip m
    then (m, true)
    else if ltb (length m) max_login_attempt_entries
    then (m, true)
    else let kept = filter (is_live now) m in (kept, ltb (length kept) max_login_attempt_entries)

-- `recordLoginFailure`.
unfoldable pub record_login_failure : Text → ℕ → Admin → Admin
unfolding make_room attempt bump
record_login_failure ip now s =
    let (m, room) = make_room ip now s.attempts in
    if room
    then record s { attempts = insert ip (bump now (attempt ip m)) m }
    else record s { attempts = m }

-- `clearLoginFailures`.
unfoldable pub clear_login_failures : Text → Admin → Admin
clear_login_failures ip s = record s { attempts = delete ip s.attempts }

-- `validNewAdminPassword`.
pub data PasswordError : Type 0 where
  is_default too_short too_long : PasswordError

unfoldable pub valid_new_admin_password : Text → Option PasswordError
valid_new_admin_password p =
    if text_eq p default_password
    then some is_default
    else if ltb (length p) 6
    then some too_short
    else if ltb 256 (length p)
    then some too_long
    else none
