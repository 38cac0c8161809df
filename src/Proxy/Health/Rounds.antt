-- ===== src/Proxy/Health/Rounds.antt =====
-- A whole round of health checks: `CheckAll` of internal/outbound/health.go.
use m365_copilot2api.Prelude.{
  ℕ, ◌≡◌, refl, List, [], ◌∷◌, some, true, false, Text, text_eq, text_eq_iff, codes, leb,
  if◌then◌else◌, arith, ◌∙◌, ap, subst, Bool-cases, Option-cases, inl, inr,
}
use mathlib.Core.Option
use m365_copilot2api.Proxy.Members.{Distinct}
use m365_copilot2api.Proxy.{Entry, Pool, seen, mark, raws}
use m365_copilot2api.Proxy.Marks.{
  find, find-change_first, raws-change_first, raws-mark, raws-set_health, find-mark, find-seen,
}
use m365_copilot2api.Proxy.Health.{
  Answer, bad_request, unreachable, answered, settle, check, Probe, check_one, check_each,
  check_all, note, find-set_health, check-settle,
}

raws-settle :
    (now latency : ℕ) (raw : Text) (a : Answer) (p : Pool)
    → raws (settle now latency raw a p).0 ≡ raws p
unfolding settle
raws-settle now latency raw (bad_request e) p = refl
raws-settle now latency raw (unreachable e) p =
    raws-set_health raw (codes "unreachable") (mark now raw true p) ∙ raws-mark now raw true p
raws-settle now latency raw (answered code status) p = elim (Bool-cases (leb 500 code)) [
  | inl h ↦ rw h (
      raws-set_health raw (codes "upstream_error") (mark now raw false p)
      ∙ raws-mark now raw false p)
  | inr h ↦
      rw h
        (raws-set_health raw (codes "reachable") (mark now raw false p) ∙ raws-mark now raw false p)
]

raws-check :
    (now latency : ℕ) (raw : Text) (a : Answer) (p : Pool)
    → raws (check now latency raw a p).0 ≡ raws p
unfolding check
raws-check now latency raw a p = elim (Option-cases (find raw p.entries)) [
  | inl gone ↦ rw (gone, check)
  | inr (e, at) ↦ rw (check-settle now latency raw a p e at) (raws-settle now latency raw a p)
]

raws-check_one : (b : Probe) (raw : Text) (p : Pool) → raws (check_one b raw p) ≡ raws p
unfolding check_one
raws-check_one b raw p =
    let r = check b.now b.latency raw b.answer p in
    raws-change_first raw (λ x. note b x r.1 r.2) (λ e. refl) r.0.entries
    ∙ raws-check b.now b.latency raw b.answer p

find-settle_ne :
    (now latency : ℕ) (raw j : Text) (a : Answer) (p : Pool)
    → text_eq raw j ≡ false
    → find j (settle now latency raw a p).0.entries ≡ find j p.entries
unfolding settle
find-settle_ne now latency raw j (bad_request e) p other = refl
find-settle_ne now latency raw j (unreachable e) p other = ground (
  arith,
  find-set_health raw j (codes "unreachable") (mark now raw true p),
  find-mark now raw j true p,
)
find-settle_ne now latency raw j (answered code status) p other = ground (
  arith,
  find-set_health raw j (codes "upstream_error") (mark now raw false p),
  find-set_health raw j (codes "reachable") (mark now raw false p),
  find-mark now raw j false p,
)

find-check_ne :
    (now latency : ℕ) (raw j : Text) (a : Answer) (p : Pool)
    → text_eq raw j ≡ false
    → find j (check now latency raw a p).0.entries ≡ find j p.entries
unfolding check
find-check_ne now latency raw j a p other = elim (Option-cases (find raw p.entries)) [
  | inl gone ↦ rw (gone, check)
  | inr (e, at) ↦ rw (at, check) (find-settle_ne now latency raw j a p other)
]

find-check_one :
    (b : Probe) (raw j : Text) (p : Pool)
    → find j (check_one b raw p).entries ≡ (
        if text_eq raw j
        then Option.map
            (λ e.
              note b e
                (check b.now b.latency raw b.answer p).1
                (check b.now b.latency raw b.answer p).2)
            (find j (check b.now b.latency raw b.answer p).0.entries)
        else find j (check b.now b.latency raw b.answer p).0.entries)
unfolding check_one
find-check_one b raw j p =
    let r = check b.now b.latency raw b.answer p in
    find-change_first raw (λ x. note b x r.1 r.2) (λ e. refl) j r.0.entries

-- The proxy with URL `j`, if the pool has one, was checked at its time.
abbrev pub Checked : (Text → Probe) → Text → Pool → Type 0
Checked probe j p = (e : Entry) × (find j p.entries ≡ some e) × (e.last_check ≡ (probe j).now)

check_one-Checked :
    (probe : Text → Probe) (j : Text) (p : Pool)
    → seen j (raws p) ≡ true
    → Checked probe j (check_one (probe j) j p)
check_one-Checked probe j p h =
    let r = check (probe j).now (probe j).latency j (probe j).answer p in
    let (e, at) =
      find-seen j r.0.entries
        (ap (seen j) (raws-check (probe j).now (probe j).latency j (probe j).answer p) ∙ h) in
    (
      note (probe j) e r.1 r.2,
      ground (arith, find-check_one (probe j) j j p, text_eq_iff j j),
      refl,
    )

check_each-keeps :
    (probe : Text → Probe) (j : Text) (vs : List Text) (p : Pool)
    → seen j vs ≡ false
    → find j (check_each probe vs p).entries ≡ find j p.entries
unfolding check_each seen
check_each-keeps probe j [] p h = refl
check_each-keeps probe j (v ∷ vs) p h =
    let b = probe v in
    check_each-keeps probe j vs (check_one b v p) (ground arith)
    ∙ ground (arith, find-check_one b v j p, find-check_ne b.now b.latency v j b.answer p)

check_each-Checked :
    (probe : Text → Probe) (j : Text) (vs : List Text) (p : Pool)
    → Distinct vs
    → seen j vs ≡ true
    → seen j (raws p) ≡ true
    → Checked probe j (check_each probe vs p)
unfolding check_each seen
check_each-Checked probe j [] p d h held = cc
check_each-Checked probe j (v ∷ vs) p d h held = elim (Bool-cases (text_eq v j)) [
  | inl here ↦
      let e = (text_eq_iff v j).0 here in
      let (x, at, when) = check_one-Checked probe j p held in
      rw e (
        x,
        check_each-keeps probe j vs (check_one (probe j) j p) (subst (λ u. seen u vs ≡ false) e d.0)
            ∙ at,
        when,
      )
  | inr later ↦
      check_each-Checked probe j vs (check_one (probe v) v p) d.1 (ground arith)
        (ap (seen j) (raws-check_one (probe v) v p) ∙ held)
]

raws-check_each :
    (probe : Text → Probe) (vs : List Text) (p : Pool) → raws (check_each probe vs p) ≡ raws p
unfolding check_each
raws-check_each probe [] p = refl
raws-check_each probe (v ∷ vs) p =
    raws-check_each probe vs (check_one (probe v) v p) ∙ raws-check_one (probe v) v p

-- `CheckAll` keeps the proxies and their order, and each proxy of a pool in which no URL stands
-- twice carries the time of its own check afterwards.
pub check_all-Checked :
    (probe : Text → Probe) (p : Pool) (j : Text)
    → Distinct (raws p)
    → seen j (raws p) ≡ true
    → (raws (check_all probe p) ≡ raws p) × Checked probe j (check_all probe p)
unfolding check_all
check_all-Checked probe p j d h =
    (raws-check_each probe (raws p) p, check_each-Checked probe j (raws p) p d h h)
