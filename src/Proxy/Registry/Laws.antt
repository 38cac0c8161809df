-- ===== src/Proxy/Registry/Laws.antt =====
-- What the configuration of internal/outbound/proxy.go keeps.
use m365_copilot2api.Prelude.{
  ◌≡◌, List, [], Option, none, some, true, false, ◌&&◌, not, Text, is_empty, ok, arith, All, filter,
  Result, ◌++◌, Bool, Option-cases, text_eq, ◌∷◌, ◌||◌, text_eq_iff, inl, inr, ◌⊎◌, sym, Bool-cases,
  refl, ◌∙◌,
}
use m365_copilot2api.Proxy.{Pool, seen, new_pool, raws}
use m365_copilot2api.Proxy.Members.{Distinct, new_pool-urls}
use m365_copilot2api.Proxy.Registry.{
  Net, new_route, is_ok, Outbound, configure_pool, status, configure, add_proxy, remove_proxy,
  ProxyError, normal, pool_urls,
}

-- A pool's URLs stand once each, are not empty, and are accepted by `New`.
pub record IsSound (net : Net) (p : Pool) : Type 0 where
  pub distinct : Distinct (raws p)
  pub named : seen [] (raws p) ≡ false
  pub valid : All (λ e. is_ok (new_route net e.raw) ≡ true) p.entries

abbrev pub PoolSound : Net → Option Pool → Type 0
PoolSound net none = Unit {0}
PoolSound net (some p) = IsSound net p

module _ (net : Net) where
  configure_pool-pool :
      (urls : List Text) (o o' : Outbound)
      → configure_pool net urls o ≡ ok o'
      → (p : Pool) × (new_pool (λ v. is_ok (new_route net v)) urls ≡ ok p)
        × (o' ≡ record o { pool = some p })
  unfolding configure_pool
  configure_pool-pool urls o o' h = ground arith

  configure_pool-Sound :
      (urls : List Text) (o o' : Outbound)
      → configure_pool net urls o ≡ ok o'
      → PoolSound net o'.pool
  configure_pool-Sound urls o o' h =
      let (p, made, e) = configure_pool-pool urls o o' h in
      let (d, held, valid, turn) = new_pool-urls (λ v. is_ok (new_route net v)) urls p [] made in
      rw e (record { distinct = d; named = ground arith; valid = valid })

  status-configure_pool :
      (urls : List Text) (o o' : Outbound) (j : Text)
      → configure_pool net urls o ≡ ok o'
      → seen j (status o') ≡ (seen j urls && not (is_empty j))
  status-configure_pool urls o o' j h =
      let (p, made, e) = configure_pool-pool urls o o' h in
      rw e (new_pool-urls (λ v. is_ok (new_route net v)) urls p j made).1

seen-append :
    (j raw : Text) (xs : List Text) → seen j (xs ++ raw ∷ []) ≡ (seen j xs || text_eq raw j)
unfolding seen
seen-append j raw [] = ground arith
seen-append j raw (x ∷ xs) = ground (arith, seen-append j raw xs)

seen-filter :
    (j : Text) (f : Text → Bool) (xs : List Text) → seen j (filter f xs) ≡ (seen j xs && f j)
unfolding seen filter
seen-filter j f [] = refl
seen-filter j f (x ∷ xs) = ground (arith, text_eq_iff x j, seen-filter j f xs)

empty : (j : Text) → is_empty j ≡ true → j ≡ []
empty [] h = refl
empty (b ∷ j) h = cc

-- One change of the configuration.
pub data Change : Type 0 where
  configures : Text → Change
  configures_pool : List Text → Change
  adds : Text → Change
  removes : Text → Change

unfoldable pub change : Net → Change → Outbound → Result ProxyError Outbound
change net (configures raw) o = configure net raw o
change net (configures_pool urls) o = configure_pool net urls o
change net (adds raw) o = add_proxy net raw o
change net (removes raw) o = remove_proxy net raw o

module _ (net : Net) where
  configure-Sound :
      (raw : Text) (o o' : Outbound) → configure net raw o ≡ ok o' → PoolSound net o'.pool
  unfolding configure
  configure-Sound raw o o' h = let e : o'.pool ≡ none = ground arith in rw e tt

  -- With no pool, adding starts one.
  add_proxy-configure_pool :
      (raw : Text) (o : Outbound)
      → add_proxy net raw o ≡ configure_pool net (status o ++ raw ∷ []) o
  unfolding add_proxy configure_pool
  add_proxy-configure_pool raw o = elim (Option-cases o.pool) [
    | inl e ↦ rw (e, add_proxy, status)
    | inr (p, e) ↦ rw (e, add_proxy, status)
  ]

  remove_proxy-cases :
      (raw : Text) (o o' : Outbound)
      → remove_proxy net raw o ≡ ok o'
      → ((o.pool ≡ none) × (o' ≡ o))
        ⊎ (configure_pool net (filter (λ v. not (text_eq (normal v) (normal raw))) (status o)) o
            ≡ ok o')
  unfolding remove_proxy
  remove_proxy-cases raw o o' h = ground arith

  remove_proxy-Sound :
      (raw : Text) (o o' : Outbound)
      → PoolSound net o.pool
      → remove_proxy net raw o ≡ ok o'
      → PoolSound net o'.pool
  remove_proxy-Sound raw o o' sound h = elim (remove_proxy-cases raw o o' h) [
    | inl (idle, e) ↦ rw e sound
    | inr c ↦ configure_pool-Sound net _ o o' c
  ]

  -- Every change of the configuration that succeeds keeps this of a pool: no URL stands twice,
  -- none is empty and none is one that `New` refuses.
  pub change-Sound :
      (c : Change) (o o' : Outbound)
      → PoolSound net o.pool
      → change net c o ≡ ok o'
      → PoolSound net o'.pool
  unfolding change
  change-Sound (configures raw) o o' sound h = configure-Sound raw o o' h
  change-Sound (configures_pool urls) o o' sound h = configure_pool-Sound net urls o o' h
  change-Sound (adds raw) o o' sound h =
      configure_pool-Sound net (status o ++ raw ∷ []) o o'
        (sym (add_proxy-configure_pool raw o) ∙ h)
  change-Sound (removes raw) o o' sound h = remove_proxy-Sound raw o o' sound h

  unnamed : (o : Option Pool) → PoolSound net o → seen [] (pool_urls o) ≡ false
  unfolding seen
  unnamed none sound = refl
  unnamed (some p) sound = sound.named

  -- On a pool without repeated, empty or invalid URLs, adding a proxy, where it succeeds, adds
  -- its URL unless that is empty, and takes no other away.
  pub status-add_proxy :
      (raw j : Text) (o o' : Outbound)
      → PoolSound net o.pool
      → add_proxy net raw o ≡ ok o'
      → seen j (status o') ≡ (seen j (status o) || (text_eq raw j && not (is_empty j)))
  status-add_proxy raw j o o' sound h = elim (Bool-cases (is_empty j)) [
    | inl e ↦ ground (
      arith,
      status-configure_pool net (status o ++ raw ∷ []) o o' j
          (sym (add_proxy-configure_pool raw o) ∙ h),
      empty j e,
      unnamed o.pool sound,
    )
    | inr e ↦ ground (
      arith,
      status-configure_pool net (status o ++ raw ∷ []) o o' j
          (sym (add_proxy-configure_pool raw o) ∙ h),
      seen-append j raw (status o),
    )
  ]

  -- On a pool without repeated, empty or invalid URLs, removing a proxy, where it succeeds, takes
  -- every URL away that is the same up to outer white space and final slashes, and no other.
  pub status-remove_proxy :
      (raw j : Text) (o o' : Outbound)
      → PoolSound net o.pool
      → remove_proxy net raw o ≡ ok o'
      → seen j (status o') ≡ (seen j (status o) && not (text_eq (normal j) (normal raw)))
  unfolding seen
  status-remove_proxy raw j o o' sound h = elim (remove_proxy-cases raw o o' h) [
    | inl (idle, e) ↦ rw (e, idle, status)
    | inr c ↦ ground (
      arith,
      status-configure_pool net (filter (λ v. not (text_eq (normal v) (normal raw))) (status o)) o
          o' j c,
      seen-filter j (λ v. not (text_eq (normal v) (normal raw))) (status o),
      empty j,
      unnamed o.pool sound,
    )
  ]
