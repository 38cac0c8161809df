-- ===== src/Accounts/Login/Outcome.antt =====
-- What a login ends with: `startPKCE`, `callbackPKCE` and `pkceStatus` of internal/web/server.go.
use m365_copilot2api.Prelude.{
  ℕ, ◌+◌, ◌≤◌, ◌≡◌, ◌⊎◌, inl, inr, refl, [], ◌∷◌, Option, none, some, false, ◌||◌, Text, Text_eq,
  text_eq_refl, lookup, insert, lookup-insert, is_empty, arith, Result, ok, err, Option-cases,
  Bool-cases,
}
use m365_copilot2api.Accounts.{TokenSet, Ambient, upsert}
use m365_copilot2api.Accounts.Login.{
  pending, failed, authenticated, view, PendingPkce, Logins, lifetime, is_late, start_pkce, known,
  pkce_status, Query, read_query, CallbackReply, missing_state_or_code, invalid_or_expired,
  exchange_failed, save_failed, logged_in, callback_begin, callback_finish, callback_pkce,
}

module _ (w : Ambient) (exchange : Text → Text → Result Text TokenSet) (unsaved : Option Text)
    (q : Query) (s : Logins) where
  -- What a callback did, with the state afterwards and the reply.
  pub data Ends (after : Logins) (reply : CallbackReply) : Type 0 where
    refused :
        after ≡ s
        → (reply ≡ missing_state_or_code) ⊎ (reply ≡ invalid_or_expired)
        → Ends after reply
    not_exchanged :
        (p : PendingPkce) (e : Text)
        → lookup (read_query q).0 s.pkce ≡ some p
        → is_late w.now p ≡ false
        → exchange (read_query q).1 p.verifier ≡ err e
        → after.accounts ≡ s.accounts
        → lookup (read_query q).0 after.pkce ≡ some (record p { status = failed; error = e })
        → reply ≡ exchange_failed e
        → Ends after reply
    exchanged :
        (p p' : PendingPkce) (tok : TokenSet)
        → lookup (read_query q).0 s.pkce ≡ some p
        → is_late w.now p ≡ false
        → exchange (read_query q).1 p.verifier ≡ ok tok
        → after.accounts ≡ (upsert w tok s.accounts).0
        → lookup (read_query q).0 after.pkce ≡ some p'
        → ((unsaved ≡ none)
            × (p'.status ≡ authenticated)
            × (p'.account ≡ some (view (upsert w tok s.accounts).1))
            × (reply ≡ logged_in (view (upsert w tok s.accounts).1)))
          ⊎ ((e : Text) × (unsaved ≡ some e)
              × (p'.status ≡ failed)
              × (p'.error ≡ e)
              × (reply ≡ save_failed e))
        → Ends after reply

  finish-Ends :
      (p : PendingPkce)
      → lookup (read_query q).0 s.pkce ≡ some p
      → is_late w.now p ≡ false
      → (r : Result Text TokenSet) → exchange (read_query q).1 p.verifier ≡ r
      → Ends
          (callback_finish w unsaved (read_query q).0 p r s).0
          (callback_finish w unsaved (read_query q).0 p r s).1
  unfolding callback_finish
  finish-Ends p there live (err e) ran = not_exchanged p e there live ran refl (put_back _) refl
    where
      put_back :
          (v : PendingPkce) → lookup (read_query q).0 (insert (read_query q).0 v s.pkce) ≡ some v
      put_back v = rw (lookup-insert, text_eq_refl) refl
  finish-Ends p there live (ok tok) ran = go unsaved refl
    where
      put_back :
          (v : PendingPkce) → lookup (read_query q).0 (insert (read_query q).0 v s.pkce) ≡ some v
      put_back v = rw (lookup-insert, text_eq_refl) refl

      go :
          (u : Option Text)
          → unsaved ≡ u
          → Ends
              (callback_finish w u (read_query q).0 p (ok tok) s).0
              (callback_finish w u (read_query q).0 p (ok tok) s).1
      go none at = exchanged p _ tok there live ran refl (put_back _) (inl (at, refl, refl, refl))
      go (some e) at =
          exchanged p _ tok there live ran refl (put_back _) (inr (e, at, refl, refl, refl))

  -- A callback enters an account only after the identity service has accepted its code together with
  -- the verifier of a login that was started under its state at most ten minutes before; it is then the
  -- account of that answer, and the table says so. Whatever else happens, no account changes.
  pub callback_pkce-Ends :
      Ends (callback_pkce w exchange unsaved q s).0 (callback_pkce w exchange unsaved q s).1
  unfolding callback_pkce callback_begin
  callback_pkce-Ends = elim (Bool-cases (is_empty (read_query q).0 || is_empty (read_query q).1)) [
    | inl blank ↦ refused (ground arith) (inl (ground arith))
    | inr full ↦ elim (Option-cases (lookup (read_query q).0 s.pkce)) [
      | inl gone ↦ refused (ground arith) (inr (ground arith))
      | inr (p, there) ↦ elim (Bool-cases (is_late w.now p)) [
        | inl late ↦ refused (ground arith) (inr (ground arith))
        | inr live ↦
            rw (full, there, live, callback_pkce, callback_begin)
              (finish-Ends p there live (exchange (read_query q).1 p.verifier) refl)
      ]
    ]
  ]

poll-known :
    (now : ℕ) (state : Text) (l : Logins) (p : PendingPkce)
    → is_empty state ≡ false
    → lookup state l.pkce ≡ some p
    → is_late now p ≡ false
    → (pkce_status now state l).1 ≡ known p.status p.account p.error
unfolding pkce_status
poll-known now [] l p full there live = cc
poll-known now (b ∷ state) l p full there live = rw (there, live, pkce_status) refl

-- The state after the start of a login, and after its callback with a code.
abbrev pub started : ℕ → Text → Text → Logins → Logins
started begun state verifier s = (start_pkce begun (some verifier) (some state) s).0

abbrev pub answered : Text → Text → Query
answered state code = record { state = state; code = code; pasted = none }

abbrev pub called :
    Ambient → (Text → Text → Result Text TokenSet) → ℕ → Text → Text → Text → Logins → Logins
called w exchange begun state code verifier s =
    (callback_pkce w exchange none (answered state code) (started begun state verifier s)).0

module _ (w : Ambient) (exchange : Text → Text → Result Text TokenSet) (begun : ℕ)
    (state code verifier : Text) (tok : TokenSet) (s : Logins) where
  begun_login : PendingPkce
  begun_login = record {
    verifier = verifier;
    created = begun;
    status = pending;
    account = none;
    error = [];
  }

  callback_pkce-accepted :
      is_empty state ≡ false
      → is_empty code ≡ false
      → w.now ≤ begun + lifetime
      → exchange code verifier ≡ ok tok
      → callback_pkce w exchange none (answered state code) (started begun state verifier s)
        ≡ callback_finish w none state begun_login (ok tok) (started begun state verifier s)
  unfolding begun_login start_pkce callback_pkce callback_begin read_query
  callback_pkce-accepted has_state has_code in_time accepted =
      let there : lookup state (insert state begun_login s.pkce) ≡ some begun_login =
        rw (lookup-insert, text_eq_refl) refl in
      let live : is_late w.now begun_login ≡ false = unfold is_late in ground arith in
      rw (has_state, has_code, there, live, accepted, callback_pkce, callback_begin) refl

  -- A login that is started, whose callback comes within ten minutes with a code that the identity
  -- service accepts for its verifier, and that is asked after within the same ten minutes: the account
  -- has been entered, and the poll tells of success and shows it, with no error.
  pub pkce_status-logged_in :
      (polled : ℕ)
      → is_empty state ≡ false
      → is_empty code ≡ false
      → w.now ≤ begun + lifetime
      → polled ≤ begun + lifetime
      → exchange code verifier ≡ ok tok
      → ((pkce_status polled state (called w exchange begun state code verifier s)).1
          ≡ known authenticated (some (view (upsert w tok s.accounts).1)) [])
        × ((called w exchange begun state code verifier s).accounts ≡ (upsert w tok s.accounts).0)
  unfolding begun_login start_pkce callback_finish pkce_status upsert callback_pkce
  pkce_status-logged_in polled has_state has_code in_time soon accepted =
      let ran = callback_pkce-accepted has_state has_code in_time accepted in
      let p : PendingPkce = record begun_login {
        status = authenticated;
        account = some (view (upsert w tok s.accounts).1);
      } in
      let there : lookup state (insert state p (insert state begun_login s.pkce)) ≡ some p =
        rw (lookup-insert, text_eq_refl) refl in
      let live : is_late polled p ≡ false = unfold is_late in ground arith in
      rw ran (poll-known polled state _ p has_state there live, refl)
