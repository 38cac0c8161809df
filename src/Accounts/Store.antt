-- ===== src/Accounts/Store.antt =====
-- What the account store of internal/auth/cache.go holds after an update.
use m365_copilot2api.Prelude.{
  ◌≡◌, refl, List, [], ◌∷◌, Option, none, some, Bool, true, false, ◌&&◌, not, Text, text_eq,
  text_eq_iff, any, is_empty, arith, if◌then◌else◌, ◌⊎◌, filter, inl, Bool-cases, inr, subst,
}
use m365_copilot2api.Accounts.{AccountToken, matches, merge, upsert_account, delete}

-- Some account has the identifier.
abbrev pub has_id : Text → List AccountToken → Bool
has_id id es = any (λ a. text_eq a.id id) es

abbrev pub UniqueIds : List AccountToken → Type 0
UniqueIds [] = Unit
UniqueIds (a ∷ es) = (has_id a.id es ≡ false) × UniqueIds es

-- After `Delete` no account has the identifier, and every other identifier is in the store
-- exactly if it was before.
pub has_id-delete :
    (id j : Text) (es : List AccountToken)
    → has_id j (delete id es) ≡ (has_id j es && not (text_eq id j))
unfolding delete any filter
has_id-delete id j [] = refl
has_id-delete id j (a ∷ es) =
    ground (arith, text_eq_iff a.id id, text_eq_iff a.id j, text_eq_iff id j, has_id-delete id j es)

-- The first account that `Upsert` takes for the same.
unfoldable pub match_of : AccountToken → List AccountToken → Option AccountToken
match_of acc [] = none
match_of acc (e ∷ es) = let rest = match_of acc es in if matches acc e then some e else rest

-- What `Upsert` returns is in the store, and it is the new account, which keeps the refresh token, the
-- tenant and the object identifier of the account that it replaces where it has none itself.
pub upsert_account-merge :
    (acc : AccountToken) (es : List AccountToken)
    → (upsert_account acc es).1 ≡ elim (match_of acc es) [ none ↦ acc | some e ↦ merge acc e ]
unfolding upsert_account match_of
upsert_account-merge acc [] = refl
upsert_account-merge acc (e ∷ es) = ground (arith, upsert_account-merge acc es)

merge-id : (acc e : AccountToken) → (merge acc e).id ≡ acc.id
unfolding merge
merge-id acc e = refl

has_id-upsert_account :
    (acc : AccountToken) (es : List AccountToken) → has_id acc.id (upsert_account acc es).0 ≡ true
unfolding upsert_account any
has_id-upsert_account acc [] = ground (arith, text_eq_iff acc.id acc.id)
has_id-upsert_account acc (e ∷ es) =
    ground (arith, text_eq_iff acc.id acc.id, has_id-upsert_account acc es)

-- Identifiers other than the new one's and the replaced one's come and go with nothing.
has_id_new :
    (acc : AccountToken) (j : Text) (es : List AccountToken)
    → text_eq acc.id j ≡ false
    → has_id j es ≡ false
    → has_id j (upsert_account acc es).0 ≡ false
unfolding upsert_account any
has_id_new acc j [] other absent = ground arith
has_id_new acc j (e ∷ es) other absent = ground (arith, has_id_new acc j es)

-- The account that is replaced, if there is one, has the new one's identifier; with none, no account
-- has it.
abbrev pub Agrees : AccountToken → List AccountToken → Type 0
Agrees acc es =
    ((match_of acc es ≡ none) × (has_id acc.id es ≡ false))
    ⊎ ((e : AccountToken) × (match_of acc es ≡ some e) × (e.id ≡ acc.id))

Agrees-tail :
    (acc e : AccountToken) (es : List AccountToken)
    → matches acc e ≡ false
    → Agrees acc (e ∷ es)
    → Agrees acc es × (text_eq acc.id e.id ≡ false)
unfolding match_of any matches
Agrees-tail acc e es other (inl (unmatched, absent)) = (
  inl (ground arith, ground arith),
  ground (arith, text_eq_iff e.id acc.id, text_eq_iff acc.id e.id),
)
Agrees-tail acc e es other (inr (x, found, same)) =
    (inr (x, ground arith, same), ground (arith, text_eq_iff e.id acc.id, text_eq_iff acc.id e.id))

replaced :
    (acc e : AccountToken) (es : List AccountToken)
    → matches acc e ≡ true
    → Agrees acc (e ∷ es)
    → e.id ≡ acc.id
unfolding match_of
replaced acc e es here (inl (unmatched, absent)) = absurd (ground arith)
replaced acc e es here (inr (x, found, same)) = ground arith

-- If the first account that an update takes for the same has the new identifier, or there is none
-- and no account has that identifier, then identifiers that were unique stay unique.
pub upsert_account-UniqueIds :
    (acc : AccountToken) (es : List AccountToken)
    → UniqueIds es
    → Agrees acc es
    → UniqueIds (upsert_account acc es).0
unfolding upsert_account
upsert_account-UniqueIds acc [] u h = (unfold any in refl, tt)
upsert_account-UniqueIds acc (e ∷ es) u h = elim (Bool-cases (matches acc e)) [
  | inl here ↦
      let same : e.id ≡ acc.id = replaced acc e es here h in
      rw (here, merge-id) (subst (λ i. has_id i es ≡ false) same u.0, u.1)
  | inr later ↦
      let (agrees, other) = Agrees-tail acc e es later h in
      rw later (has_id_new acc e.id es other u.0, upsert_account-UniqueIds acc es u.1 agrees)
]

-- Where the first account has the new one's email, not empty, and a later one its identifier, two
-- accounts have that identifier afterwards, although identifiers were unique before.
pub upsert_account-duplicates :
    (acc e : AccountToken) (es : List AccountToken)
    → UniqueIds (e ∷ es)
    → is_empty acc.email ≡ false
    → e.email ≡ acc.email
    → has_id acc.id es ≡ true
    → ¬ UniqueIds (upsert_account acc (e ∷ es)).0
unfolding upsert_account matches
upsert_account-duplicates acc e es unique named same held =
    ground (arith, text_eq_iff e.email acc.email, merge-id acc e)
