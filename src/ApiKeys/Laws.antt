-- ===== src/ApiKeys/Laws.antt =====
-- Which keys open the API: internal/web/keys.go.
use m365_copilot2api.Prelude.{
  ℕ, ◌≡◌, refl, List, [], ◌∷◌, ◌++◌, map, Option, none, some, Bool, true, false, ◌&&◌, ◌||◌, not,
  Text, text_eq, text_eq_iff, any, arith, All, ap,
}
use m365_copilot2api.ApiKeys.{ApiKey, raw_key, new_key, create, opens, valid, list, revoked, revoke}

module _ (key_hash : Text → Text) where
  -- The keys that open, as `valid` searches for them.
  abbrev pub admits : Text → List ApiKey → Bool
  admits raw ks = any (opens key_hash raw) ks

  -- `valid` answers whether some key has the hash and is not revoked, and its note of the time
  -- changes no later answer.
  pub valid-admits :
      (raw other : Text) (now : ℕ) (ks : List ApiKey)
      → ((valid key_hash raw now ks).1 ≡ admits raw ks)
        × (admits other (valid key_hash raw now ks).0 ≡ admits other ks)
  unfolding valid any
  valid-admits raw other now [] = (refl, refl)
  valid-admits raw other now (k ∷ ks) = ground (arith, valid-admits raw other now ks)

  admits-append :
      (raw : Text) (ks : List ApiKey) (k : ApiKey)
      → admits raw (ks ++ k ∷ []) ≡ (admits raw ks || opens key_hash raw k)
  unfolding any
  admits-append raw [] k = ground arith
  admits-append raw (x ∷ ks) k = ground (arith, admits-append raw ks k)

  -- A key that was created opens the API, and so do all that did before; no other does, but one
  -- with the same hash.
  pub admits-create :
      (name : Text) (bytes : List ℕ) (now : ℕ) (ks : List ApiKey) (other : Text)
      → admits other (create key_hash name (some bytes) now true ks).0
        ≡ (admits other ks || text_eq (key_hash (raw_key bytes)) (key_hash other))
  unfolding create opens
  admits-create name bytes now ks other =
      ground (arith, admits-append other ks (new_key key_hash name bytes now))

-- No identifier stands twice.
abbrev pub UniqueIds : List ApiKey → Type 0
UniqueIds [] = Unit
UniqueIds (k ∷ ks) = (any (λ j. text_eq j.id k.id) ks ≡ false) × UniqueIds ks

module _ (key_hash : Text → Text) where
  -- The keys that open and have another identifier.
  abbrev pub admits_but : Text → Text → List ApiKey → Bool
  admits_but id raw ks = any (λ k. opens key_hash raw k && not (text_eq k.id id)) ks

  absent :
      (id raw : Text) (ks : List ApiKey)
      → any (λ j. text_eq j.id id) ks ≡ false
      → admits key_hash raw ks ≡ admits_but id raw ks
  unfolding any
  absent id raw [] h = refl
  absent id raw (k ∷ ks) h = ground (arith, absent id raw ks)

  -- Where identifiers are unique, a key that was revoked opens nothing more, and every other key
  -- opens what it did.
  pub admits-revoke :
      (id raw : Text) (ks : List ApiKey)
      → UniqueIds ks
      → (revoke id true ks).1 ≡ revoked
      → admits key_hash raw (revoke id true ks).0 ≡ admits_but id raw ks
  unfolding revoke any opens
  admits-revoke id raw [] u h = cc
  admits-revoke id raw (k ∷ ks) u h =
      ground (arith, text_eq_iff k.id id, absent id raw ks, admits-revoke id raw ks u.1)

unrevoked : (id : Text) (ks : List ApiKey) → (revoke id false ks).0 ≡ ks
unfolding revoke
unrevoked id [] = refl
unrevoked id (k ∷ ks) = ground (arith, unrevoked id ks)

-- If the file cannot be written, the keys in memory stay as they were, for `create` as for `revoke`.
pub unsaved_unchanged :
    (key_hash : Text → Text) (name id : Text) (bytes : Option (List ℕ)) (now : ℕ) (ks : List ApiKey)
    → ((create key_hash name bytes now false ks).0 ≡ ks) × ((revoke id false ks).0 ≡ ks)
unfolding create
unsaved_unchanged key_hash name id none now ks = (refl, unrevoked id ks)
unsaved_unchanged key_hash name id (some bytes) now ks = (refl, unrevoked id ks)

-- The list that the console shows has every key and no hash.
pub list-hides :
    (ks : List ApiKey)
    → All (λ k. k.hash ≡ []) (list ks) × (map (λ k. k.id) (list ks) ≡ map (λ k. k.id) ks)
unfolding list
list-hides [] = (tt, refl)
list-hides (k ∷ ks) = let (a, b) = list-hides ks in ((refl, a), ap (◌∷◌ k.id) b)
