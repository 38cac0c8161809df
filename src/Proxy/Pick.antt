-- ===== src/Proxy/Pick.antt =====
-- Which proxy `pick` of internal/outbound/pool.go chooses.
pub mod Fair
use m365_copilot2api.Prelude.{
  ℕ, zero, suc, ◌+◌, ◌%◌, ◌/◌, ◌-◌, All, ap, ◌≤◌, ◌<◌, ◌≡◌, ◌↔◌, refl, List, [], ◌∷◌, Option, none,
  some, length, get_elem?, ltb, arith, inl, inr, ◌⊎◌, sym, subst, ◌∙◌, ltb→lt, Option-cases,
  Bool-cases,
}
use mathlib.Core.Option.{some-injective}
use native.Mathlib.Nat.{
  mod-lt, add-mod-mod, add-mod_right, mod-add-mod, add-mul-mod_self_left, mod-eq_of_lt, div-add-mod,
  add-zero,
}
use m365_copilot2api.Proxy.{Entry, Pool, first_ready, pick}

module _ {ℓ} {A : Type ℓ} where
  get_elem?-in_range : (xs : List A) (i : ℕ) → i < length xs → (x : A) × (get_elem? xs i ≡ some x)
  get_elem?-in_range [] i h = elim h [ ]
  get_elem?-in_range (x ∷ xs) zero h = (x, refl)
  get_elem?-in_range (x ∷ xs) (suc i) h = get_elem?-in_range xs i (omega arith)

-- The entry of round `j` is cooling down, or is ready.
abbrev pub Cooling : ℕ → Pool → ℕ → Type 0
Cooling now p j =
    (e : Entry) × (get_elem? p.entries ((p.next + j) % length p.entries) ≡ some e)
    × (now < e.cooldown)

abbrev pub Ready : ℕ → Pool → ℕ → Entry → Type 0
Ready now p j e =
    (get_elem? p.entries ((p.next + j) % length p.entries) ≡ some e) × (e.cooldown ≤ now)

Length-cases {ℓ} : {A : Type ℓ} (xs : List A) → (xs ≡ []) ⊎ (0 < length xs)
Length-cases [] = inl refl
Length-cases (x ∷ xs) = inr (omega arith)

get_elem?-lt {ℓ} :
    {A : Type ℓ} (xs : List A) (i : ℕ) (x : A) → get_elem? xs i ≡ some x → i < length xs
get_elem?-lt [] i x h = cc
get_elem?-lt (y ∷ xs) zero x h = omega arith
get_elem?-lt (y ∷ xs) (suc i) x h = omega (arith, get_elem?-lt xs i x h)

eq_or_lt : (i j : ℕ) → i ≤ j → (i ≡ j) ⊎ (i + 1 ≤ j)
eq_or_lt i j h = grind arith

-- The entries of the first `k` rounds are all cooling down.
abbrev pub AllCooling : ℕ → Pool → ℕ → Type 0
AllCooling now p zero = Unit {0}
AllCooling now p (suc k) = Cooling now p k × AllCooling now p k

AllCooling-intro :
    (now : ℕ) (p : Pool) (k : ℕ) → ((j : ℕ) → j < k → Cooling now p j) → AllCooling now p k
AllCooling-intro now p zero h = tt
AllCooling-intro now p (suc k) h =
    (h k (omega arith), AllCooling-intro now p k (λ j a. h j (omega arith)))

AllCooling-at : (now : ℕ) (p : Pool) (k j : ℕ) → AllCooling now p k → j < k → Cooling now p j
AllCooling-at now p zero j h a = absurd (omega arith)
AllCooling-at now p (suc k) j h a = elim (eq_or_lt j k (omega arith)) [
  | inl same ↦ subst (Cooling now p) (sym same) h.0
  | inr below ↦ AllCooling-at now p k j h.1 (omega arith)
]

module _ (now : ℕ) (p : Pool) where
  first_ready-cold :
      (i left : ℕ)
      → Cooling now p i
      → first_ready now p.entries p.next i (suc left)
        ≡ first_ready now p.entries p.next (i + 1) left
  unfolding first_ready
  first_ready-cold i left (e, at, cold) = ground arith

  pub first_ready-warm :
      (i left : ℕ) (e : Entry)
      → Ready now p i e
      → first_ready now p.entries p.next i (suc left) ≡ some (i, e)
  unfolding first_ready
  first_ready-warm i left e (at, warm) = ground arith

  pub Cooling-or-Ready :
      (i : ℕ) → 0 < length p.entries → Cooling now p i ⊎ ((e : Entry) × Ready now p i e)
  Cooling-or-Ready i h =
      let (e, at) = get_elem?-in_range p.entries ((p.next + i) % length p.entries) (mod-lt _ h) in
      elim (Bool-cases (ltb now e.cooldown)) [
        | inl cold ↦ inl (e, at, ltb→lt _ _ cold)
        | inr warm ↦ inr (e, (at, ground arith))
      ]

  -- The search ends at the first round, from `i` on, whose entry is ready.
  first_ready-some :
      (i left k : ℕ) (e : Entry)
      → 0 < length p.entries
      → first_ready now p.entries p.next i left ≡ some (k, e)
      → (i ≤ k) × (k < i + left) × Ready now p k e × ((j : ℕ) → i ≤ j → j < k → Cooling now p j)
  unfolding first_ready
  first_ready-some i zero k e full h = cc
  first_ready-some i (suc left) k e full h = elim (Cooling-or-Ready i full) [
    | inl cold ↦
        let (above, under, ready, skipped) =
          first_ready-some (i + 1) left k e full (sym (first_ready-cold i left cold) ∙ h) in
        (
          omega arith,
          omega arith,
          ready,
          λ j a b. elim (eq_or_lt i j a) [
            | inl same ↦ subst (Cooling now p) same cold
            | inr later ↦ skipped j later b
          ],
        )
    | inr (x, warm) ↦
        let found : ◌≡◌ {A = Option (ℕ × Entry)} (some (i, x)) (some (k, e)) =
          sym (first_ready-warm i left x warm) ∙ h in
        (
          ground arith,
          ground arith,
          subst (λ (t : ℕ × Entry). Ready now p t.0 t.1) (some-injective (i, x) (k, e) found) warm,
          λ j a b. absurd (ground arith),
        )
  ]

  first_ready-none :
      (i left j : ℕ)
      → 0 < length p.entries
      → first_ready now p.entries p.next i left ≡ none
      → i ≤ j
      → j < i + left
      → Cooling now p j
  unfolding first_ready
  first_ready-none i zero j full h a b = absurd (omega arith)
  first_ready-none i (suc left) j full h a b = elim (Cooling-or-Ready i full) [
    | inl cold ↦ elim (eq_or_lt i j a) [
      | inl same ↦ subst (Cooling now p) same cold
      | inr later ↦
          first_ready-none (i + 1) left j full (sym (first_ready-cold i left cold) ∙ h) later
            (omega arith)
    ]
    | inr (x, warm) ↦ absurd (ground (arith, first_ready-warm i left x warm))
  ]

  -- What a call of `pick` may do on a pool that is not empty.
  pub data Picks (after : Pool) (chosen : Option Entry) : Type 0 where
    ready :
        (k : ℕ) (e : Entry)
        → k < length p.entries
        → Ready now p k e
        → AllCooling now p k
        → chosen ≡ some e
        → after ≡ record p { next = (p.next + k + 1) % length p.entries }
        → Picks after chosen
    all_cooling :
        (e : Entry)
        → AllCooling now p (length p.entries)
        → get_elem? p.entries (p.next % length p.entries) ≡ some e
        → chosen ≡ some e
        → after ≡ record p { next = (p.next + 1) % length p.entries }
        → Picks after chosen

  pub pick-some :
      {k : ℕ} {e : Entry}
      → 0 < length p.entries
      → first_ready now p.entries p.next 0 (length p.entries) ≡ some (k, e)
      → pick now p ≡ (record p { next = (p.next + k + 1) % length p.entries }, some e)
  unfolding pick
  pick-some full h = ground arith

  pick-none :
      0 < length p.entries
      → first_ready now p.entries p.next 0 (length p.entries) ≡ none
      → pick now p ≡ (
        record p { next = (p.next + 1) % length p.entries },
        get_elem? p.entries (p.next % length p.entries),
      )
  unfolding pick
  pick-none full h = ground arith

  -- `pick` takes the first entry, in turn from `next`, that is not cooling down, and moves `next`
  -- behind it. Only if every entry is cooling down it takes the one at `next` all the same.
  pub pick-Picks : 0 < length p.entries → Picks (pick now p).0 (pick now p).1
  pick-Picks full = elim (Option-cases (first_ready now p.entries p.next 0 (length p.entries))) [
    | inl h ↦
        let (e, at) = get_elem?-in_range p.entries (p.next % length p.entries) (mod-lt _ full) in
        rw (pick-none full h) (
          all_cooling e
            (AllCooling-intro now p _
              (λ j b. first_ready-none 0 _ j full h (omega arith) (omega arith)))
            at at refl)
    | inr ((k, e), h) ↦
        let (a, b, r, skipped) = first_ready-some 0 _ k e full h in
        rw (pick-some full h) (
          ready k e (omega arith) r (AllCooling-intro now p k (λ j c. skipped j (omega arith) c))
            refl refl)
  ]

  -- Nothing is picked from the empty pool alone.
  pub pick-eq-none_iff : ((pick now p).1 ≡ none) ↔ (p.entries ≡ [])
  unfolding pick
  pick-eq-none_iff = (
    λ h. elim (Length-cases p.entries) [
      | inl e ↦ e
      | inr full ↦ absurd (ground (arith, pick-Picks full))
    ],
    λ e. rw (e, pick),
  )

-- Every index is the index of a round.
round_of : (next n m : ℕ) → m < n → (j : ℕ) × (j < n) × ((next + j) % n ≡ m)
round_of next n m h = (
  (m + n - next % n) % n,
  mod-lt _ (omega arith),
  add-mod-mod next (m + n - next % n) n
      ∙ ap (λ (t : ℕ). t % n) (omega (arith, div-add-mod next n, mod-lt next {m = n} (omega arith)))
      ∙ add-mul-mod_self_left (m + n) n (next / n)
      ∙ add-mod_right m n
      ∙ mod-eq_of_lt h,
)

-- While some entry of the pool is not cooling down, `pick` returns an entry, and it is not
-- cooling down either.
pub pick_ready :
    (now : ℕ) (p : Pool) (m : ℕ) (x : Entry)
    → get_elem? p.entries m ≡ some x
    → x.cooldown ≤ now
    → (e : Entry) × ((pick now p).1 ≡ some e) × (e.cooldown ≤ now)
pick_ready now p m x at warm = go (pick-Picks now p (omega (arith, get_elem?-lt p.entries m x at)))
  where
    go :
        Picks now p (pick now p).0 (pick now p).1
        → (e : Entry) × ((pick now p).1 ≡ some e) × (e.cooldown ≤ now)
    go (ready k e under r skipped chosen moved) = (e, chosen, r.1)
    go (all_cooling e cold at' chosen moved) =
        let (j, under, same) =
          round_of p.next (length p.entries) m (get_elem?-lt p.entries m x at) in
        let (y, found, late) = AllCooling-at now p (length p.entries) j cold under in
        absurd (ground (arith, ap (get_elem? p.entries) same))
