-- ===== src/Accounts/Tokens.antt =====
-- Valid tokens: `EnsureValid` of internal/auth/cache.go.
use m365_copilot2api.Prelude.{
  ◌+◌, ◌≡◌, ◌≢◌, ◌≤◌, ◌<◌, ◌⊎◌, ◌↔◌, refl, List, [], ◌∷◌, ◌++◌, none, some, true, Text, text_eq,
  text_eq_iff, codes, is_empty, is_empty_iff, ltb, arith, Result, ok, err, Option-cases, Bool-cases,
  inl, inr, ltb→lt, Result-cases, All, ◌*◌, ◌∙◌, subst, sym,
}
use m365_copilot2api.Accounts.{
  AccountToken, TokenSet, account_of, upsert, upsert_account, get, put, TokenError, not_exist,
  token_expired, refresh_failed, not_saved, complete, expired, leeway, renew, ensure_valid, Renewal,
  matches, merge, answers_to, Ambient,
}

-- In the store the first account that is of the kind has become the new one, and no other has changed.
abbrev pub Replaced :
    (AccountToken → Type 0) → AccountToken → List AccountToken → List AccountToken → Type 0
Replaced P a [] after = ⊥
Replaced P a (e ∷ es) [] = ⊥
Replaced P a (e ∷ es) (f ∷ fs) =
    (P e × (f ≡ a) × (fs ≡ es)) ⊎ ((¬ P e) × (f ≡ e) × Replaced P a es fs)

-- The account was replaced at its identifier, or is no longer there.
abbrev pub Marked : AccountToken → List AccountToken → List AccountToken → Type 0
Marked a es after =
    Replaced (λ e. e.id ≡ a.id) a es after ⊎ (All (λ e. e.id ≢ a.id) es × (after ≡ es))

-- Two accounts are the same by their identifier, or by a mail address that is not empty.
abbrev pub SameBy : Text → Text → AccountToken → Type 0
SameBy id email e = (e.id ≡ id) ⊎ ((email ≢ []) × (e.email ≡ email))

abbrev pub Same : AccountToken → AccountToken → Type 0
Same a e = SameBy a.id a.email e

-- The account has taken the place of the first that is the same, or was added at the end.
abbrev pub Stored : AccountToken → List AccountToken → List AccountToken → Type 0
Stored a es after =
    Replaced (Same a) a es after ⊎ (All (λ e. ¬ Same a e) es × (after ≡ es ++ a ∷ []))

put-Marked : (a : AccountToken) (es : List AccountToken) → Marked a es (put a es)
unfolding put
put-Marked a [] = inr (tt, refl)
put-Marked a (e ∷ es) = elim (Bool-cases (text_eq e.id a.id)) [
  | inl same ↦ rw same (inl (inl ((text_eq_iff e.id a.id).0 same, refl, refl)))
  | inr differs ↦
      let apart : e.id ≢ a.id = λ h. absurd (ground (arith, (text_eq_iff e.id a.id).1 h)) in
      rw differs (elim (put-Marked a es) [
        | inl later ↦ inl (inr (apart, refl, later))
        | inr (none_of, same) ↦ inr ((apart, none_of), rw same refl)
      ])
]

matches_iff : (a e : AccountToken) → (matches a e ≡ true) ↔ Same a e
unfolding matches
matches_iff a e =
    ground (arith, text_eq_iff e.id a.id, text_eq_iff e.email a.email, is_empty_iff a.email)

-- What is in the store for the account, where `stored` is what `Upsert` returns.
upsert_account-Replaced :
    (a : AccountToken) (es : List AccountToken)
    → Replaced (Same a) (upsert_account a es).1 es (upsert_account a es).0
      ⊎ (All (λ e. ¬ Same a e) es
          × ((upsert_account a es).0 ≡ es ++ a ∷ [])
          × ((upsert_account a es).1 ≡ a))
unfolding upsert_account
upsert_account-Replaced a [] = inr (tt, refl, refl)
upsert_account-Replaced a (e ∷ es) = elim (Bool-cases (matches a e)) [
  | inl same ↦ rw same (inl (inl ((matches_iff a e).0 same, refl, refl)))
  | inr differs ↦
      let apart : ¬ Same a e = λ h. absurd (ground (arith, (matches_iff a e).1 h)) in
      rw differs (elim (upsert_account-Replaced a es) [
        | inl later ↦ inl (inr (apart, refl, later))
        | inr (none_of, added, same) ↦ inr ((apart, none_of), rw added refl, same)
      ])
]

-- What `Upsert` keeps of the account that it is given.
upsert_account-fields :
    (a : AccountToken) (es : List AccountToken)
    → ((upsert_account a es).1.access_token ≡ a.access_token)
      × ((upsert_account a es).1.expires_at ≡ a.expires_at)
      × ((upsert_account a es).1.status ≡ a.status)
      × ((upsert_account a es).1.id ≡ a.id)
      × ((upsert_account a es).1.email ≡ a.email)
unfolding upsert_account merge
upsert_account-fields a [] = (refl, refl, refl, refl, refl)
upsert_account-fields a (e ∷ es) = ground (arith, upsert_account-fields a es)

upsert_account-Stored :
    (a : AccountToken) (es : List AccountToken)
    → Stored (upsert_account a es).1 es (upsert_account a es).0
upsert_account-Stored a es =
    let s = (upsert_account a es).1 in
    let (_, _, _, id, email) = upsert_account-fields a es in
    elim (upsert_account-Replaced a es) [
      | inl later ↦ inl (
          subst (λ m. Replaced (SameBy s.id m) s es (upsert_account a es).0) (sym email)
            (subst (λ i. Replaced (SameBy i a.email) s es (upsert_account a es).0) (sym id) later))
      | inr (none_of, added, same) ↦ inr (
        subst (λ m. All (λ e. ¬ SameBy s.id m e) es) (sym email)
            (subst (λ i. All (λ e. ¬ SameBy i a.email e) es) (sym id) none_of),
        subst (λ x. (upsert_account a es).0 ≡ es ++ x ∷ []) (sym same) added,
      )
    ]

module _ (r : Renewal) (id : Text) (es : List AccountToken) where
  -- What became of the account named `id`, the store and the answer.
  pub data Ensures (after : List AccountToken) (answer : Result TokenError AccountToken)
      : Type 0 where
    missing :
        All (λ a. (a.id ≢ id) × (a.oid ≢ id) × (a.email ≢ id)) es
        → after ≡ es
        → answer ≡ err not_exist
        → Ensures after answer
    fresh :
        (acc : AccountToken)
        → get id es ≡ some acc
        → r.now + 30 * 1000000000 < acc.expires_at
        → after ≡ es
        → answer ≡ ok acc
        → Ensures after answer
    lapsed :
        (acc : AccountToken)
        → get id es ≡ some acc
        → acc.expires_at ≤ r.now + 30 * 1000000000
        → acc.refresh_token ≡ []
        → Marked (record acc { status = codes "expired" }) (r.meanwhile es) after
        → answer ≡ err token_expired
        → Ensures after answer
    refused :
        (acc : AccountToken) (e : Text)
        → get id es ≡ some acc
        → acc.expires_at ≤ r.now + 30 * 1000000000
        → acc.refresh_token ≢ []
        → r.refresh acc.refresh_token ≡ err e
        → Marked (record acc { status = codes "expired" }) (r.meanwhile es) after
        → answer ≡ err (refresh_failed e)
        → Ensures after answer
    renewed :
        (acc stored : AccountToken) (tok : TokenSet)
        → get id es ≡ some acc
        → acc.expires_at ≤ r.now + 30 * 1000000000
        → acc.refresh_token ≢ []
        → r.refresh acc.refresh_token ≡ ok tok
        → Stored stored (r.meanwhile es) after
        → stored.access_token ≡ tok.access_token
        → stored.expires_at ≡ tok.expires_at
        → stored.status ≡ codes "online"
        → ((r.unsaved ≡ none) × (answer ≡ ok stored))
          ⊎ ((e : Text) × (r.unsaved ≡ some e) × (answer ≡ err (not_saved e)))
        → Ensures after answer

get-missing :
    (id : Text) (es : List AccountToken)
    → get id es ≡ none
    → All (λ a. (a.id ≢ id) × (a.oid ≢ id) × (a.email ≢ id)) es
unfolding get answers_to
get-missing id [] h = tt
get-missing id (a ∷ es) h =
    ground
      (arith, text_eq_iff a.id id, text_eq_iff a.oid id, text_eq_iff a.email id, get-missing id es)

complete-fields :
    (w : Ambient) (acc : AccountToken) (tok : TokenSet)
    → ((account_of w (complete acc tok)).access_token ≡ tok.access_token)
      × ((account_of w (complete acc tok)).expires_at ≡ tok.expires_at)
      × ((account_of w (complete acc tok)).status ≡ codes "online")
unfolding complete account_of
complete-fields w acc tok = (refl, refl, refl)

renewed-Ensures :
    (r : Renewal) (id : Text) (es : List AccountToken) (acc : AccountToken) (tok : TokenSet)
    → get id es ≡ some acc
    → acc.expires_at ≤ r.now + 30 * 1000000000
    → acc.refresh_token ≢ []
    → r.refresh acc.refresh_token ≡ ok tok
    → Ensures r id es (upsert r.later (complete acc tok) (r.meanwhile es)).0 (elim r.unsaved [
      | none ↦ ok (upsert r.later (complete acc tok) (r.meanwhile es)).1
      | some e ↦ err (not_saved e)
    ])
unfolding upsert
renewed-Ensures r id es acc tok at late named got =
    let a = account_of r.later (complete acc tok) in
    let (token, until, status, _, _) = upsert_account-fields a (r.meanwhile es) in
    let (token', until', status') = complete-fields r.later acc tok in
    renewed acc (upsert_account a (r.meanwhile es)).1 tok at late named got
      (upsert_account-Stored a (r.meanwhile es)) (token ∙ token') (until ∙ until')
      (status ∙ status')
      (elim (Option-cases r.unsaved) [
        | inl written ↦ inl (written, rw written refl)
        | inr (e, failed) ↦ inr (e, failed, rw failed refl)
      ])

-- A token that is good for more than half a minute is handed out, and nothing changes. Any other is
-- refreshed, whatever happens to the store in between: the refreshed one takes the place of the first
-- account that is the same, or is added, and is handed out, unless the file was not written. Where there
-- is no refresh token, or it is refused, the account, if it is still there, is stored as expired. No token
-- is handed out then, nor for a name that no account has.
pub ensure_valid-Ensures :
    (r : Renewal) (id : Text) (es : List AccountToken)
    → Ensures r id es (ensure_valid r id es).0 (ensure_valid r id es).1
unfolding ensure_valid renew
ensure_valid-Ensures r id es = elim (Option-cases (get id es)) [
  | inl gone ↦ rw (gone, ensure_valid) (missing (get-missing id es gone) refl refl)
  | inr (acc, at) ↦
      rw (at, ensure_valid)
        (elim (Bool-cases (ltb (r.now + leeway) acc.expires_at)) [
          | inl good ↦ rw (good, renew) (fresh acc at (ltb→lt _ _ good) refl refl)
          | inr bad ↦ elim (Bool-cases (is_empty acc.refresh_token)) [
            | inl bare ↦
                rw (bad, bare, renew)
                  (lapsed acc at (ground arith) ((is_empty_iff _).0 bare)
                    (put-Marked (expired acc) (r.meanwhile es)) refl)
            | inr full ↦
                let named : acc.refresh_token ≢ [] =
                  λ h. absurd (ground (arith, (is_empty_iff acc.refresh_token).1 h)) in
                elim (Result-cases (r.refresh acc.refresh_token)) [
                  | inl (tok, got) ↦
                      rw (bad, full, got, renew)
                        (renewed-Ensures r id es acc tok at (ground arith) named got)
                  | inr (e, got) ↦
                      rw (bad, full, got, renew)
                        (refused acc e at (ground arith) named got
                          (put-Marked (expired acc) (r.meanwhile es)) refl)
                ]
          ]
        ])
]
