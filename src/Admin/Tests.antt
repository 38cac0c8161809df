-- ===== src/Admin/Tests.antt =====
-- An administrator with one session and one failed login, for internal/web/admin_security.go.
use m365_copilot2api.Prelude.{
  ◌+◌, ◌≡◌, ◌↔◌, ◌⊎◌, refl, [], ◌∷◌, codes, none, some, true, false, arith, text_eq, Text, Text_eq,
  if◌then◌else◌, lookup, has_prefix,
}
use m365_copilot2api.Admin.{
  Admin, window, is_stale, attempt, login_allowed, record_login_failure, valid_new_admin_password,
}
use m365_copilot2api.Admin.Throttle.{record_all, lockout}
use m365_copilot2api.Admin.Handlers.{
  admin_login, forwarded, admin_middleware, password_matches, day, Passwords, admin_change_password,
  change_password, valid_admin_session, is_open_path,
}
use m365_copilot2api.Admin.Access.{
  Live, Admitted, middleware_forwarded_iff, sessions-admin_login, password_changed-effect,
}

abbrev admin : Admin
admin = record {
  password = codes "secret";
  must_change = false;
  sessions = (codes "tok", 900) ∷ [];
  attempts = (codes "1.2.3.4", record { failures = 1; window_start = 5; locked_until = 0 }) ∷ [];
}

abbrev ip : Text
ip = codes "10.0.0.1"

lockout_example :
    (login_allowed ip 50
      (record_login_failure ip 40 (record_all ip (10 ∷ 20 ∷ 25 ∷ 30 ∷ []) admin))).1
    ≡ some (40 + window)
unfolding is_stale attempt lookup text_eq
lockout_example =
    lockout ip 10 (20 ∷ 25 ∷ 30 ∷ []) 40 50 admin refl (omega arith) refl
      ((omega arith, omega arith), ((omega arith, omega arith), ((omega arith, omega arith), tt)))
      (omega arith, omega arith) (omega arith) (omega arith)

middleware_forwarded_iff_example :
    ((admin_middleware (codes "/api/keys") false 800 (some (codes "tok")) admin).1 ≡ forwarded) ↔ (
      (is_open_path (codes "/api/keys") ≡ true)
      ⊎ ((has_prefix (codes "/api/keys") (codes "/v1/") ≡ true) × (false ≡ true))
      ⊎ Admitted (codes "/api/keys") 800 (some (codes "tok")) admin)
middleware_forwarded_iff_example =
    middleware_forwarded_iff (codes "/api/keys") false 800 (some (codes "tok")) admin

sessions-admin_login_example :
    lookup
      (codes "t2")
      (admin_login true ip (some (codes "secret")) (some (codes "t2")) 10 11 admin).0.sessions
    ≡ (if text_eq (codes "t2") (codes "t2")
        then some (11 + day)
        else lookup (codes "t2") admin.sessions)
unfolding admin_login login_allowed attempt lookup password_matches is_stale text_eq
sessions-admin_login_example =
    sessions-admin_login ip (some (codes "secret")) (some (codes "t2")) 10 11 admin (codes "t2")
      (codes "t2") false refl

abbrev change : Passwords
change = record { current = codes "secret"; new = codes "longer" }

password_changed-effect_example :
    Live 800 (some (codes "tok")) admin
    × (change.current ≡ admin.password)
    × (valid_new_admin_password change.new ≡ none)
    × ((admin_change_password true 800 (some (codes "tok")) (some change) true admin).0.password
        ≡ change.new)
    × ((admin_change_password true 800 (some (codes "tok")) (some change) true admin).0.must_change
        ≡ false)
    × ((valid_admin_session 801
          (some (codes "tok"))
          (admin_change_password true 800 (some (codes "tok")) (some change) true admin).0).1
        ≡ false)
unfolding admin_change_password change_password valid_admin_session valid_new_admin_password lookup
    text_eq
password_changed-effect_example =
    password_changed-effect true 800 801 (some (codes "tok")) (some (codes "tok")) change true admin
      refl
