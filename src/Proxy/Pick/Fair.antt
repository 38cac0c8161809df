-- ===== src/Proxy/Pick/Fair.antt =====
-- The turns that `pick` of internal/outbound/pool.go gives.
use m365_copilot2api.Prelude.{
  ℕ, zero, suc, ◌+◌, ◌%◌, ◌-◌, All, ap, ◌≤◌, ◌<◌, ◌≡◌, List, [], ◌∷◌, some, length, get_elem?,
  arith, inl, inr, sym, subst, ◌∙◌,
}
use native.Mathlib.Nat.{mod-add-mod, add-zero}
use m365_copilot2api.Proxy.{Entry, Pool, first_ready, pick}
use m365_copilot2api.Proxy.Pick.{Cooling-or-Ready, first_ready-warm, pick-some}

-- The pool after `k` more calls at one time.
pub after_picks : ℕ → ℕ → Pool → Pool
after_picks now zero p = p
after_picks now (suc k) p = after_picks now k (pick now p).0

abbrev pub AllReady : ℕ → Pool → Type 0
AllReady now p = All (λ e. e.cooldown ≤ now) p.entries

All-get_elem? :
    (now : ℕ) (es : List Entry) (i : ℕ) (e : Entry)
    → All (λ e. e.cooldown ≤ now) es
    → get_elem? es i ≡ some e
    → e.cooldown ≤ now
All-get_elem? now [] i e a h = cc
All-get_elem? now (x ∷ es) zero e a h = ground arith
All-get_elem? now (x ∷ es) (suc i) e a h = All-get_elem? now es i e a.1 h

pick-AllReady :
    (now : ℕ) (p : Pool)
    → 0 < length p.entries
    → AllReady now p
    → pick now p ≡ (
      record p { next = (p.next + 1) % length p.entries },
      get_elem? p.entries (p.next % length p.entries),
    )
pick-AllReady now p full a = elim (Cooling-or-Ready now p 0 full) [
  | inl (e, at, cold) ↦ absurd (omega (arith, All-get_elem? now p.entries _ e a at))
  | inr (e, r) ↦
      let more : length p.entries ≡ suc (length p.entries - 1) = omega arith in
      let found =
        subst (λ n. first_ready now p.entries p.next 0 n ≡ some (0, e)) (sym more)
          (first_ready-warm now p 0 (length p.entries - 1) e r) in
      ground (arith, pick-some now p full found, add-zero p.next)
]

-- With entries of which none is cooling down the pool is fair: the call after `k` others takes
-- the entry `k` places on in the ring, so that as many calls as there are entries take every
-- entry once.
pub pick-after_picks :
    (now k : ℕ) (p : Pool)
    → 0 < length p.entries
    → AllReady now p
    → (pick now (after_picks now k p)).1 ≡ get_elem? p.entries ((p.next + k) % length p.entries)
unfolding after_picks
pick-after_picks now zero p full a = rw (pick-AllReady now p full a, add-zero)
pick-after_picks now (suc k) p full a =
    let n = length p.entries in
    rw (pick-AllReady now p full a) (
      pick-after_picks now k (record p { next = (p.next + 1) % n }) full a
      ∙ ap (get_elem? p.entries)
          (mod-add-mod (p.next + 1) n k ∙ ap (λ (t : ℕ). t % n) (omega arith)))
