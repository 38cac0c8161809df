-- ===== src/Admin/Handlers.antt =====
-- The administrator's handlers of internal/web/server.go and internal/web/admin_security.go. A request
-- is what the handler reads of it; the random token, the clock and the outcome of writing the
-- password file are arguments.
use m365_copilot2api.Prelude.{
  ℕ, ◌+◌, [], Option, none, some, Bool, true, false, ◌&&◌, ◌||◌, not, Text, text_eq, codes,
  is_empty, has_prefix, ltb, if◌then◌else◌, lookup, insert, delete, Text_eq,
}
use m365_copilot2api.Admin.{
  Admin, minutes, login_allowed, record_login_failure, clear_login_failures, PasswordError,
  valid_new_admin_password,
}

abbrev pub day : ℕ
day = minutes 1440

pub data Reply : Type 0 where
  method_not_allowed bad_json login_required wrong_password session_failure : Reply
  unconfigured must_change_first key_required storage_error current_invalid : Reply
  locked_out : ℕ → Reply
  refused : PasswordError → Reply
  authenticated : Text → Bool → Reply
  logged_out password_changed : Reply
  session_state : Bool → Bool → Reply
  forwarded : Reply

-- `validAdminSession`: the cookie's value, if there is a cookie. A token that is unknown or past its
-- expiry is deleted.
unfoldable pub valid_admin_session : ℕ → Option Text → Admin → Admin × Bool
valid_admin_session now none s = (s, false)
valid_admin_session now (some token) s =
    if is_empty token then (s, false) else elim (lookup token s.sessions) [
      | none ↦ (record s { sessions = delete token s.sessions }, false)
      | some expires ↦
          if ltb expires now
          then (record s { sessions = delete token s.sessions }, false)
          else (s, true)
    ]

-- The password of a login body, if it is JSON.
unfoldable pub password_matches : Option Text → Text → Bool
password_matches none password = false
password_matches (some given) password = not (is_empty given) && text_eq given password

-- `adminLogin`; `later` is the clock when the session is made.
unfoldable pub admin_login : Bool → Text → Option Text → Option Text → ℕ → ℕ → Admin → Admin × Reply
unfolding password_matches
admin_login is_post ip body token now later s =
    if not is_post
    then (s, method_not_allowed)
    else let (s1, lock) = login_allowed ip now s in
      elim lock [
        | some until ↦ (s1, locked_out until)
        | none ↦
            if not (password_matches body s1.password)
            then (record_login_failure ip now s1, wrong_password)
            else let s2 = clear_login_failures ip s1 in
              elim token [
                | none ↦ (s2, session_failure)
                | some t ↦ (
                  record s2 { sessions = insert t (later + day) s2.sessions },
                  authenticated t s1.must_change,
                )
              ]
      ]

-- `adminLogout`.
unfoldable pub admin_logout : Option Text → Admin → Admin × Reply
admin_logout none s = (s, logged_out)
admin_logout (some token) s = (record s { sessions = delete token s.sessions }, logged_out)

-- `adminSession`.
unfoldable pub admin_session : ℕ → Option Text → Admin → Admin × Reply
admin_session now cookie s =
    let (s1, live) = valid_admin_session now cookie s in
    (s1, session_state live (live && s1.must_change))

-- The body of `adminChangePassword`: the current and the new password.
pub record Passwords : Type 0 where
  pub current : Text
  pub new : Text

-- `adminChangePassword` behind the check of the session; `stored` tells whether the file was written.
unfoldable pub change_password : Option Passwords → Bool → Admin → Admin × Reply
change_password none stored s = (s, bad_json)
change_password (some b) stored s =
    if not (text_eq b.current s.password)
    then (s, current_invalid)
    else elim (valid_new_admin_password b.new) [
      | some e ↦ (s, refused e)
      | none ↦
          if not stored
          then (s, storage_error)
          else (record s { password = b.new; must_change = false; sessions = [] }, password_changed)
    ]

unfoldable pub admin_change_password :
    Bool → ℕ → Option Text → Option Passwords → Bool → Admin → Admin × Reply
unfolding change_password
admin_change_password is_post now cookie body stored s =
    if not is_post
    then (s, method_not_allowed)
    else let (s1, live) = valid_admin_session now cookie s in
      if live then change_password body stored s1 else (s1, login_required)

-- The paths that `adminMiddleware` lets through unchecked.
unfoldable pub is_open_path : Text → Bool
is_open_path path =
    text_eq path (codes "/api/admin/login")
    || text_eq path (codes "/api/admin/session")
    || text_eq path (codes "/api/admin/change-password")
    || text_eq path (codes "/api/admin/logout")
    || text_eq path (codes "/")

-- `adminMiddleware`, less the call of `next`; `key_ok` is what `validAPIKey` answers.
unfoldable pub admin_middleware : Text → Bool → ℕ → Option Text → Admin → Admin × Reply
unfolding is_open_path
admin_middleware path key_ok now cookie s =
    if is_open_path path
    then (s, forwarded)
    else if has_prefix path (codes "/v1/")
    then (s, (if key_ok then forwarded else key_required))
    else if is_empty s.password
    then (s, unconfigured)
    else let (s1, live) = valid_admin_session now cookie s in
      if not live
      then (s1, login_required)
      else if s1.must_change
          && not (text_eq path (codes "/api/admin/change-password"))
          && not (text_eq path (codes "/api/admin/logout"))
      then (s1, must_change_first)
      else (s1, forwarded)
