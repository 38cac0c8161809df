-- ===== src/Admin/Access.antt =====
-- Who reaches the administrator's console: the handlers of internal/web/server.go and
-- internal/web/admin_security.go.
use m365_copilot2api.Prelude.{
  ℕ, ◌+◌, ◌≤◌, ◌≡◌, ◌≢◌, ◌↔◌, ◌⊎◌, refl, Option, none, some, Bool, true, false, Text, text_eq,
  text_eq_iff, codes, is_empty, has_prefix, lookup, Text_eq, lookup-insert, arith, Bool-cases, inl,
  Option-cases, inr, if◌then◌else◌,
}
use m365_copilot2api.Admin.{
  Admin, login_allowed, attempt, clear_login_failures, valid_new_admin_password, [], ◌∷◌,
}
use m365_copilot2api.Admin.Throttle.{login_allowed-none_iff}
use m365_copilot2api.Admin.Handlers.{
  day, valid_admin_session, password_matches, admin_login, Passwords, change_password,
  admin_change_password, admin_middleware, is_open_path, forwarded, authenticated, password_changed,
}

-- The cookie names a session that is not past its expiry.
abbrev pub Live : ℕ → Option Text → Admin → Type 0
Live now cookie s =
    (token : Text) × (expires : ℕ) × (cookie ≡ some token)
    × (token ≢ [])
    × (lookup token s.sessions ≡ some expires)
    × (now ≤ expires)

-- The check of a session succeeds exactly if the cookie holds a token, not empty, of a session
-- that is not past its expiry.
pub valid_admin_session-Live :
    (now : ℕ) (cookie : Option Text) (s : Admin)
    → ((valid_admin_session now cookie s).1 ≡ true) ↔ Live now cookie s
unfolding valid_admin_session
valid_admin_session-Live now none s = ground arith
valid_admin_session-Live now (some []) s = ground arith
valid_admin_session-Live now (some (b ∷ t)) s = (
  λ h. elim (Option-cases (lookup (b ∷ t) s.sessions)) [
    | inl gone ↦ absurd (ground arith)
    | inr (x, at) ↦ (b ∷ t, x, refl, ground arith, at, ground arith)
  ],
  λ l. ground arith,
)

-- The check changes nothing but the sessions.
valid_admin_session-keeps :
    (now : ℕ) (cookie : Option Text) (s : Admin)
    → ((valid_admin_session now cookie s).0.must_change ≡ s.must_change)
      × ((valid_admin_session now cookie s).0.password ≡ s.password)
unfolding valid_admin_session
valid_admin_session-keeps now none s = (refl, refl)
valid_admin_session-keeps now (some token) s = ground arith

-- What the middleware wants of a request behind the login.
abbrev pub Admitted : Text → ℕ → Option Text → Admin → Type 0
Admitted path now cookie s =
    (has_prefix path (codes "/v1/") ≡ false)
    × Live now cookie s
    × (s.must_change ≡ false)
    × (is_empty s.password ≡ false)

gate :
    (path : Text) (key_ok : Bool) (now : ℕ) (cookie : Option Text) (s : Admin)
    → is_open_path path ≡ false
    → has_prefix path (codes "/v1/") ≡ false
    → ((admin_middleware path key_ok now cookie s).1 ≡ forwarded) ↔ (
        ((valid_admin_session now cookie s).1 ≡ true)
        × (s.must_change ≡ false)
        × (is_empty s.password ≡ false))
unfolding admin_middleware
gate path key_ok now cookie s shut other = ground (arith, valid_admin_session-keeps now cookie s)

opened :
    (path : Text) (key_ok : Bool) (now : ℕ) (cookie : Option Text) (s : Admin)
    → is_open_path path ≡ true
    → (admin_middleware path key_ok now cookie s).1 ≡ forwarded
unfolding admin_middleware
opened path key_ok now cookie s h = ground arith

keyed :
    (path : Text) (key_ok : Bool) (now : ℕ) (cookie : Option Text) (s : Admin)
    → is_open_path path ≡ false
    → has_prefix path (codes "/v1/") ≡ true
    → ((admin_middleware path key_ok now cookie s).1 ≡ forwarded) ↔ (key_ok ≡ true)
unfolding admin_middleware
keyed path key_ok now cookie s shut h = ground arith

-- A request reaches a handler behind the middleware exactly on an open path, under `/v1/` with a
-- valid API key, or elsewhere with a live session while no change of the password is due and a
-- password is set.
pub middleware_forwarded_iff :
    (path : Text) (key_ok : Bool) (now : ℕ) (cookie : Option Text) (s : Admin)
    → ((admin_middleware path key_ok now cookie s).1 ≡ forwarded) ↔ (
        (is_open_path path ≡ true)
        ⊎ ((has_prefix path (codes "/v1/") ≡ true) × (key_ok ≡ true))
        ⊎ Admitted path now cookie s)
middleware_forwarded_iff path key_ok now cookie s = elim (Bool-cases (is_open_path path)) [
  | inl o ↦ (λ _. inl o, λ _. opened path key_ok now cookie s o)
  | inr shut ↦ elim (Bool-cases (has_prefix path (codes "/v1/"))) [
    | inl v1 ↦
        let k = keyed path key_ok now cookie s shut v1 in
        (
          λ h. inr (inl (v1, k.0 h)),
          λ r. elim r [
            | inl o ↦ absurd (ground arith)
            | inr (inl (_, ok)) ↦ k.1 ok
            | inr (inr (other, l, m, p)) ↦ absurd (ground arith)
          ],
        )
    | inr other ↦
        let g = gate path key_ok now cookie s shut other in
        let v = valid_admin_session-Live now cookie s in
        (
          λ h. let (l, m, p) = g.0 h in inr (inr (other, v.0 l, m, p)),
          λ r. elim r [
            | inl o ↦ absurd (ground arith)
            | inr (inl (v1, _)) ↦ absurd (ground arith)
            | inr (inr (_, l, m, p)) ↦ g.1 (v.1 l, m, p)
          ],
        )
  ]
]

-- A login succeeds exactly if it is a POST, the address is not locked, the password is the
-- administrator's and not empty, and a token could be drawn.
pub login_authenticated_iff :
    (is_post : Bool) (ip : Text) (body token : Option Text) (now later : ℕ) (s : Admin) (t : Text)
    (must : Bool)
    → ((admin_login is_post ip body token now later s).1 ≡ authenticated t must) ↔ (
        (is_post ≡ true)
        × ((attempt ip s.attempts).locked_until ≤ now)
        × (password_matches body s.password ≡ true)
        × (token ≡ some t)
        × (must ≡ s.must_change))
unfolding admin_login login_allowed clear_login_failures
login_authenticated_iff is_post ip body token now later s t must =
    ground (arith, login_allowed-none_iff ip now s)

-- The table of sessions after a login that succeeds: the new token lives for a day, and every other
-- session is as it was.
pub sessions-admin_login :
    (ip : Text) (body token : Option Text) (now later : ℕ) (s : Admin) (t j : Text) (must : Bool)
    → (admin_login true ip body token now later s).1 ≡ authenticated t must
    → lookup j (admin_login true ip body token now later s).0.sessions
      ≡ (if text_eq t j then some (later + day) else lookup j s.sessions)
unfolding admin_login login_allowed clear_login_failures
sessions-admin_login ip body token now later s t j must h =
    ground (arith, lookup-insert t j (later + day) s.sessions)

no_sessions :
    (now : ℕ) (cookie : Option Text) (s : Admin)
    → s.sessions ≡ []
    → (valid_admin_session now cookie s).1 ≡ false
unfolding valid_admin_session lookup
no_sessions now none s e = refl
no_sessions now (some token) s e = ground arith

changed :
    (b : Passwords) (stored : Bool) (s : Admin)
    → (change_password (some b) stored s).1 ≡ password_changed
    → (b.current ≡ s.password)
      × (valid_new_admin_password b.new ≡ none)
      × (change_password (some b) stored s
          ≡ (record s { password = b.new; must_change = false; sessions = [] }, password_changed))
unfolding change_password
changed b stored s h = ground (arith, text_eq_iff b.current s.password)

unchanged_password :
    (now : ℕ) (cookie : Option Text) (s : Admin)
    → (valid_admin_session now cookie s).1 ≡ true
    → (valid_admin_session now cookie s).0 ≡ s
unfolding valid_admin_session
unchanged_password now none s h = refl
unchanged_password now (some token) s h = ground arith

admitted_change :
    (is_post : Bool) (now : ℕ) (cookie : Option Text) (b : Passwords) (stored : Bool) (s : Admin)
    → (admin_change_password is_post now cookie (some b) stored s).1 ≡ password_changed
    → ((valid_admin_session now cookie s).1 ≡ true)
      × (admin_change_password is_post now cookie (some b) stored s
          ≡ change_password (some b) stored s)
unfolding admin_change_password
admitted_change is_post now cookie b stored s h = ground (arith, unchanged_password now cookie s)

-- A password change that succeeds was made by a POST from a live session, with the current password
-- and an acceptable new one; afterwards the new password counts, no change is due, and no session is
-- live, the changer's included.
pub password_changed-effect :
    (is_post : Bool) (now then_now : ℕ) (cookie other : Option Text) (b : Passwords) (stored : Bool)
    (s : Admin)
    → (admin_change_password is_post now cookie (some b) stored s).1 ≡ password_changed
    → Live now cookie s
      × (b.current ≡ s.password)
      × (valid_new_admin_password b.new ≡ none)
      × ((admin_change_password is_post now cookie (some b) stored s).0.password ≡ b.new)
      × ((admin_change_password is_post now cookie (some b) stored s).0.must_change ≡ false)
      × ((valid_admin_session then_now other
            (admin_change_password is_post now cookie (some b) stored s).0).1
          ≡ false)
password_changed-effect is_post now then_now cookie other b stored s h =
    let (session, same) = admitted_change is_post now cookie b stored s h in
    let (current, valid, done) = changed b stored s (rw same at h) in
    rw (same, done)
      (
        (valid_admin_session-Live now cookie s).0 session,
        current,
        valid,
        refl,
        refl,
        no_sessions then_now other _ refl,
      )
