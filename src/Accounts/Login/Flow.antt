-- ===== src/Accounts/Login/Flow.antt =====
-- How a login goes: `startPKCE`, `callbackPKCE` and `pkceStatus` of internal/web/server.go.
use m365_copilot2api.Prelude.{
  ℕ, ◌≡◌, inl, inr, refl, sym, subst, List, [], ◌∷◌, ◌++◌, Option, none, some, Text, Text_eq,
  text_eq, Dict, lookup, insert, delete, lookup-insert, lookup-delete, arith, Result, ok, err,
  Option-cases, Bool-cases, All, ◌∙◌,
}
use mathlib.Core.Option.{some-injective, some-ne-none}
use m365_copilot2api.Accounts.{AccountToken, TokenSet, Ambient}
use m365_copilot2api.Accounts.Login.{
  Status, pending, failed, authenticated, View, PendingPkce, Logins, is_late, start_pkce, known,
  pkce_status, Query, read_query, callback_begin, callback_finish,
}

-- The status and what is shown with it agree: an account exactly with a login that succeeded at some
-- time, none while the login is pending.
abbrev pub Agrees : Status → Option View → Text → Type 0
Agrees pending a e = (a ≡ none) × (e ≡ [])
Agrees failed a e = Unit {0}
Agrees authenticated a e = (v : View) × (a ≡ some v)

abbrev pub IsSound : PendingPkce → Type 0
IsSound p = Agrees p.status p.account p.error

-- The callbacks that wait for the identity service, with the entry each has read.
pub record World : Type 0 where
  pub logins : Logins
  pub waiting : List (Text × PendingPkce)

-- One step of the handlers; a callback is two of them, and others may come between.
pub data Step : World → World → Type 0 where
  start :
      {w : World} (now : ℕ) (verifier state : Option Text)
      → Step w (record w { logins = (start_pkce now verifier state w.logins).0 })
  poll :
      {w : World} (now : ℕ) (state : Text)
      → Step w (record w { logins = (pkce_status now state w.logins).0 })
  begin :
      {w : World} (now : ℕ) (q : Query) (state code : Text) (p : PendingPkce)
      → callback_begin now q w.logins ≡ ok (state, code, p)
      → Step w (record w { waiting = (state, p) ∷ w.waiting })
  finish :
      {l : Logins} (before after : List (Text × PendingPkce)) (a : Ambient) (unsaved : Option Text)
      (state : Text) (p : PendingPkce) (r : Result Text TokenSet)
      → Step
          (record { logins = l; waiting = before ++ (state, p) ∷ after })
          (record { logins = (callback_finish a unsaved state p r l).0; waiting = before ++ after })

-- The world after some steps.
pub data Steps : World → World → Type 0 where
  here : {w : World} → Steps w w
  next : {u v w : World} → Steps u v → Step v w → Steps u w

-- Every entry of the table is sound.
abbrev pub Sound : Dict Text PendingPkce → Type 0
Sound l = (state : Text) (p : PendingPkce) → lookup state l ≡ some p → IsSound p

-- The invariant: what the table holds and what the callbacks have read is sound.
pub record Holds (w : World) : Type 0 where
  pub entries : Sound w.logins.pkce
  pub flights : All (λ (f : Text × PendingPkce). IsSound f.1) w.waiting

insert-Sound :
    (l : Dict Text PendingPkce) (k : Text) (v : PendingPkce)
    → IsSound v
    → Sound l
    → Sound (insert k v l)
insert-Sound l k v sound old state p h = elim (Bool-cases (text_eq k state)) [
  | inl same ↦
      let e : v ≡ p = some-injective v p (rw same at (sym (lookup-insert k state v l) ∙ h)) in
      subst IsSound e sound
  | inr other ↦ old state p (rw other at (sym (lookup-insert k state v l) ∙ h))
]

delete-Sound : (l : Dict Text PendingPkce) (k : Text) → Sound l → Sound (delete k l)
delete-Sound l k old state p h = elim (Bool-cases (text_eq k state)) [
  | inl same ↦ absurd (some-ne-none p (sym (rw same at (sym (lookup-delete k state l) ∙ h))))
  | inr other ↦ old state p (rw other at (sym (lookup-delete k state l) ∙ h))
]

start_pkce-Sound :
    (now : ℕ) (verifier state : Option Text) (l : Logins)
    → Sound l.pkce
    → Sound (start_pkce now verifier state l).0.pkce
unfolding start_pkce
start_pkce-Sound now none state l old = old
start_pkce-Sound now (some v) none l old = old
start_pkce-Sound now (some v) (some state) l old = insert-Sound l.pkce state _ (refl, refl) old

pkce_status-Sound :
    (now : ℕ) (state : Text) (l : Logins) → Sound l.pkce → Sound (pkce_status now state l).0.pkce
unfolding pkce_status lookup
pkce_status-Sound now [] l old = old
pkce_status-Sound now (b ∷ state) l old = elim (Option-cases (lookup (b ∷ state) l.pkce)) [
  | inl gone ↦ subst Sound (ground (arith, gone)) old
  | inr (p, there) ↦ elim (Bool-cases (is_late now p)) [
    | inl late ↦ rw (there, late, pkce_status) (delete-Sound l.pkce (b ∷ state) old)
    | inr live ↦ rw (there, live, pkce_status) old
  ]
]

callback_finish-Sound :
    (a : Ambient) (unsaved : Option Text) (state : Text) (p : PendingPkce)
    (r : Result Text TokenSet) (l : Logins)
    → Sound l.pkce
    → Sound (callback_finish a unsaved state p r l).0.pkce
unfolding callback_finish
callback_finish-Sound a unsaved state p (err e) l old = insert-Sound l.pkce state _ tt old
callback_finish-Sound a (some e) state p (ok tok) l old = insert-Sound l.pkce state _ tt old
callback_finish-Sound a none state p (ok tok) l old = insert-Sound l.pkce state _ (_, refl) old

callback_begin-IsSound :
    (now : ℕ) (q : Query) (l : Logins) (state code : Text) (p : PendingPkce)
    → Sound l.pkce
    → callback_begin now q l ≡ ok (state, code, p)
    → IsSound p
unfolding callback_begin
callback_begin-IsSound now q l state code p old h =
    elim (Option-cases (lookup (read_query q).0 l.pkce)) [
      | inl gone ↦ absurd (ground arith)
      | inr (p', there) ↦
          let e : p' ≡ p = ground arith in subst IsSound e (old (read_query q).0 p' there)
    ]

abbrev Sounds : List (Text × PendingPkce) → Type 0
Sounds fs = All (λ (f : Text × PendingPkce). IsSound f.1) fs

without :
    (before after : List (Text × PendingPkce)) (f : Text × PendingPkce)
    → Sounds (before ++ f ∷ after)
    → Sounds (before ++ after)
without [] after f h = h.1
without (g ∷ before) after f h = (h.0, without before after f h.1)

step-Holds : {u v : World} → Step u v → Holds u → Holds v
step-Holds {u} (start now verifier state) h = record {
  entries = start_pkce-Sound now verifier state u.logins h.entries;
  flights = h.flights;
}
step-Holds {u} (poll now state) h = record {
  entries = pkce_status-Sound now state u.logins h.entries;
  flights = h.flights;
}
step-Holds {u} (begin now q state code p ran) h = record {
  entries = h.entries;
  flights = (callback_begin-IsSound now q u.logins state code p h.entries ran, h.flights);
}
step-Holds (finish {l} before after a unsaved state p r) h = record {
  entries = callback_finish-Sound a unsaved state p r l h.entries;
  flights = without before after (state, p) h.flights;
}

Steps-Holds : {u v : World} → Steps u v → Holds u → Holds v
Steps-Holds here h = h
Steps-Holds (next before last) h = step-Holds last (Steps-Holds before h)

-- However starts, polls and callbacks of any number of logins interleave, even with a callback that
-- waits for the identity service meanwhile: a poll that finds a login tells of success only with its
-- account, and tells of a pending one with neither an account nor an error.
pub pkce_status-Agrees :
    (w : World) (accounts : List AccountToken)
    → Steps (record { logins = record { pkce = []; accounts = accounts }; waiting = [] }) w
    → (now : ℕ) (state : Text) (s : Status) (a : Option View) (e : Text)
    → (pkce_status now state w.logins).1 ≡ known s a e
    → Agrees s a e
unfolding pkce_status lookup
pkce_status-Agrees w accounts steps now [] s a e h = absurd (ground arith)
pkce_status-Agrees w accounts steps now (b ∷ state) s a e h =
    elim (Option-cases (lookup (b ∷ state) w.logins.pkce)) [
      | inl gone ↦ absurd (ground arith)
      | inr (p, there) ↦
          agrees p (holds.entries (b ∷ state) p there) (ground arith) (ground arith) (ground arith)
    ]
  where
    start_world : World
    start_world = record { logins = record { pkce = []; accounts = accounts }; waiting = [] }

    holds : Holds w
    holds =
        Steps-Holds steps
          (record { entries = λ k p at. absurd (some-ne-none p (sym at)); flights = tt })

    agrees :
        (p : PendingPkce) → IsSound p → p.status ≡ s → p.account ≡ a → p.error ≡ e → Agrees s a e
    agrees p sound es ea ee =
        subst (λ (x : Text). Agrees s a x) ee
          (subst (λ (x : Option View). Agrees s x p.error) ea
            (subst (λ (x : Status). Agrees x p.account p.error) es sound))
