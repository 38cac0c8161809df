-- ===== src/Proxy/Members.antt =====
-- Which proxies a pool holds: `NewPool` and `Remove` of internal/outbound/pool.go.
use m365_copilot2api.Prelude.{
  ◌≡◌, refl, List, [], ◌∷◌, map, Bool, true, false, ◌&&◌, ◌||◌, not, Text, text_eq, text_eq_iff,
  is_empty, All, arith, ok, err, inl, inr, ◌⊎◌,
}
use m365_copilot2api.Proxy.{
  Entry, Pool, new_entry, seen, add_proxies, new_pool, remove_first, remove, raws,
}

-- No URL stands twice.
abbrev pub Distinct : List Text → Type 0
Distinct [] = Unit
Distinct (v ∷ vs) = (seen v vs ≡ false) × Distinct vs

abbrev urls : List Entry → List Text
urls = map (λ e. e.raw)

and_congr : (p q r : Bool) → (p ≡ true → q ≡ r) → (p && q) ≡ (p && r)
and_congr true q r h = h refl
and_congr false q r h = refl

module _ (make : Text → Bool) where
  add_proxies-step :
      (taken : List Text) (v : Text) (vs : List Text) (es : List Entry)
      → add_proxies make taken (v ∷ vs) ≡ ok es
      → (((is_empty v || seen v taken) ≡ true) × (add_proxies make taken vs ≡ ok es))
        ⊎ ((rest : List Entry) × ((is_empty v || seen v taken) ≡ false)
            × (make v ≡ true)
            × (add_proxies make (v ∷ taken) vs ≡ ok rest)
            × (es ≡ new_entry v ∷ rest))
  unfolding add_proxies
  add_proxies-step taken v vs es h = ground arith

  -- A URL is taken in exactly if it was given, is not empty, and was not taken before.
  seen-add_proxies :
      (j : Text) (taken vs : List Text) (es : List Entry)
      → add_proxies make taken vs ≡ ok es
      → seen j (urls es) ≡ (seen j vs && (not (is_empty j) && not (seen j taken)))
  unfolding add_proxies seen
  seen-add_proxies j taken [] es h = ground arith
  seen-add_proxies j taken (v ∷ vs) es h = elim (add_proxies-step taken v vs es h) [
    | inl (skip, rest) ↦ ground (arith, seen-add_proxies j taken vs es rest, text_eq_iff v j)
    | inr (es', new, made, rest, e) ↦
        ground (arith, seen-add_proxies j (v ∷ taken) vs es' rest, text_eq_iff v j)
  ]

  add_proxies-Distinct :
      (taken vs : List Text) (es : List Entry)
      → add_proxies make taken vs ≡ ok es
      → Distinct (urls es)
  unfolding add_proxies seen
  add_proxies-Distinct taken [] es h = ground arith
  add_proxies-Distinct taken (v ∷ vs) es h = elim (add_proxies-step taken v vs es h) [
    | inl (skip, rest) ↦ add_proxies-Distinct taken vs es rest
    | inr (es', new, made, rest, e) ↦
        let own = seen-add_proxies v (v ∷ taken) vs es' rest in
        rw e (ground (arith, own, text_eq_iff v v), add_proxies-Distinct (v ∷ taken) vs es' rest)
  ]

  add_proxies-made :
      (taken vs : List Text) (es : List Entry)
      → add_proxies make taken vs ≡ ok es
      → All (λ e. make e.raw ≡ true) es
  unfolding add_proxies
  add_proxies-made taken [] es h = ground arith
  add_proxies-made taken (v ∷ vs) es h = elim (add_proxies-step taken v vs es h) [
    | inl (skip, rest) ↦ add_proxies-made taken vs es rest
    | inr (es', new, made, rest, e) ↦ rw e (made, add_proxies-made (v ∷ taken) vs es' rest)
  ]

  built :
      (vs : List Text) (p : Pool)
      → new_pool make vs ≡ ok p
      → (es : List Entry) × (add_proxies make [] vs ≡ ok es)
        × (p ≡ record { entries = es; next = 0 })
  unfolding new_pool
  built vs p h = ground arith

  -- A new pool holds each given URL that is not empty, once, and no other; each was accepted by
  -- `New`; and the turn is the first one's.
  pub new_pool-urls :
      (vs : List Text) (p : Pool) (j : Text)
      → new_pool make vs ≡ ok p
      → Distinct (raws p)
        × (seen j (raws p) ≡ (seen j vs && not (is_empty j)))
        × All (λ e. make e.raw ≡ true) p.entries
        × (p.next ≡ 0)
  unfolding seen
  new_pool-urls vs p j h =
      let (es, added, e) = built vs p h in
      rw e (
        add_proxies-Distinct [] vs es added,
        ground (arith, seen-add_proxies j [] vs es added),
        add_proxies-made [] vs es added,
        refl,
      )

  refuses-add_proxies :
      (taken vs : List Text) (v : Text)
      → add_proxies make taken vs ≡ err v
      → (make v ≡ false) × (seen v vs ≡ true) × (is_empty v ≡ false)
  unfolding add_proxies seen
  refuses-add_proxies taken [] v h = cc
  refuses-add_proxies taken (w ∷ vs) v h =
      ground (
        arith,
        refuses-add_proxies taken vs v,
        refuses-add_proxies (w ∷ taken) vs v,
        text_eq_iff w v,
      )

  -- A pool is refused only for a given, non-empty URL that `New` refuses.
  pub new_pool-err :
      (vs : List Text) (v : Text)
      → new_pool make vs ≡ err v
      → (make v ≡ false) × (seen v vs ≡ true) × (is_empty v ≡ false)
  unfolding new_pool
  new_pool-err vs v h = refuses-add_proxies [] vs v (ground arith)

seen-remove_first :
    (raw j : Text) (es : List Entry)
    → Distinct (urls es)
    → seen j (urls (remove_first raw es)) ≡ (seen j (urls es) && not (text_eq raw j))
unfolding remove_first seen
seen-remove_first raw j [] d = refl
seen-remove_first raw j (e ∷ es) d = ground (
  arith,
  text_eq_iff e.raw raw,
  text_eq_iff e.raw j,
  text_eq_iff raw j,
  seen-remove_first raw j es d.1,
)

-- Where no URL stands twice, after `Remove` the URL is gone, and every other stays.
pub seen-remove :
    (raw j : Text) (p : Pool)
    → Distinct (raws p)
    → seen j (raws (remove raw p)) ≡ (seen j (raws p) && not (text_eq raw j))
unfolding remove
seen-remove raw j p d = seen-remove_first raw j p.entries d
