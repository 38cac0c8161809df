-- ===== src/Proxy/Health.antt =====
-- internal/outbound/health.go: the health check of one proxy, and of all. What the network answers is
-- an argument of the call.
pub mod Rounds
use m365_copilot2api.Prelude.{
  ℕ, ◌<◌, ◌≡◌, ◌↔◌, refl, List, [], ◌∷◌, ◌++◌, Option, none, some, true, false, Text, text_eq,
  text_eq_iff, codes, leb, if◌then◌else◌, arith, ◌+◌, ◌^◌, ◌∙◌, ap, subst, Bool-cases, Option-cases,
  inl, inr,
}
use mathlib.Core.Option
use m365_copilot2api.Proxy.Members.{Distinct}
use m365_copilot2api.Proxy.{Entry, Pool, seen, change_first, mark, set_health, raws}
use m365_copilot2api.Proxy.Marks.{
  find, find-change_first, raws-change_first, mark_success, cleared, cooled, find-mark_failure,
  raws-mark, raws-set_health, find-mark, find-seen,
}

-- What became of the request to the health URL, with the text of its error or status.
pub data Answer : Type 0 where
  bad_request : Text → Answer
  unreachable : Text → Answer
  answered : ℕ → Text → Answer

pub data CheckError : Type 0 where
  no_location : CheckError
  request_error : Text → CheckError
  upstream_returned : Text → CheckError
  target_returned : Text → CheckError

-- `err.Error()`.
unfoldable pub error_text : CheckError → Text
error_text no_location = codes "http: no Location header in response"
error_text (request_error e) = e
error_text (upstream_returned s) = codes "proxy reachable; upstream returned " ++ s
error_text (target_returned s) = codes "proxy reachable; target returned " ++ s

-- What `Check` does with the answer, once the proxy is found.
unfoldable pub settle : ℕ → ℕ → Text → Answer → Pool → Pool × ℕ × Option CheckError
settle now latency raw (bad_request e) p = (p, 0, some (request_error e))
settle now latency raw (unreachable e) p =
    (set_health raw (codes "unreachable") (mark now raw true p), latency, some (request_error e))
settle now latency raw (answered code status) p =
    let marked = mark now raw false p in
    if leb 500 code
    then (set_health raw (codes "upstream_error") marked, latency, some (upstream_returned status))
    else (
      set_health raw (codes "reachable") marked,
      latency,
      (if leb 400 code then some (target_returned status) else none),
    )

-- `Check`: a URL that the pool does not hold is an error, and changes nothing.
unfoldable pub check : ℕ → ℕ → Text → Answer → Pool → Pool × ℕ × Option CheckError
unfolding settle
check now latency raw a p = elim (find raw p.entries) [
  | none ↦ (p, 0, some no_location)
  | some e ↦ settle now latency raw a p
]

-- What the network does on one round of `CheckAll`: the time, the latency and the answer.
pub record Probe : Type 0 where
  pub now : ℕ
  pub latency : ℕ
  pub answer : Answer

abbrev pub error_note : Option CheckError → Text
error_note none = []
error_note (some e) = error_text e

-- One round of `CheckAll`.
unfoldable pub check_one : Probe → Text → Pool → Pool
check_one b raw p =
    let (q, latency, e) = check b.now b.latency raw b.answer p in
    record q {
      entries =
          change_first raw
            (λ x. record x { last_check = b.now; latency = latency; last_error = error_note e })
            q.entries;
    }

-- `CheckAll`: the URLs are read once, then checked one after the other.
unfoldable pub check_each : (Text → Probe) → List Text → Pool → Pool
check_each probe [] p = p
check_each probe (v ∷ vs) p = check_each probe vs (check_one (probe v) v p)

unfoldable pub check_all : (Text → Probe) → Pool → Pool
unfolding check_each
check_all probe p = check_each probe (raws p) p

-- The entry after its check, field by field.
abbrev pub note : Probe → Entry → ℕ → Option CheckError → Entry
note b e latency err = record e {
  last_check = b.now;
  latency = latency;
  last_error = error_note err;
}

keeps_health : (status : Text) (e : Entry) → (record e { health = status }).raw ≡ e.raw
keeps_health status e = refl

pub find-set_health :
    (raw j status : Text) (p : Pool)
    → find j (set_health raw status p).entries ≡ (
        if text_eq raw j
        then Option.map (λ (e : Entry). record e { health = status }) (find j p.entries)
        else find j p.entries)
unfolding set_health
find-set_health raw j status p =
    find-change_first raw (λ e. record e { health = status }) (keeps_health status) j p.entries

pub check-settle :
    (now latency : ℕ) (raw : Text) (a : Answer) (p : Pool) (e : Entry)
    → find raw p.entries ≡ some e
    → check now latency raw a p ≡ settle now latency raw a p
unfolding check
check-settle now latency raw a p e at = ground arith

-- The health status that an answer gives.
abbrev pub status_of : ℕ → Text
status_of code = if leb 500 code then codes "upstream_error" else codes "reachable"

-- A check of a proxy of the pool that brings back any answer clears its failures and its
-- cooldown, and marks it as reachable, or as failing upstream from code 500 on; the check
-- succeeds exactly if the code is below 400.
pub check-answered :
    (now latency code : ℕ) (raw status : Text) (p : Pool) (e : Entry)
    → find raw p.entries ≡ some e
    → (find raw (check now latency raw (answered code status) p).0.entries
        ≡ some (record (cleared e) { health = status_of code }))
      × (((check now latency raw (answered code status) p).2 ≡ none) ↔ (code < 400))
unfolding settle
check-answered now latency code raw status p e at =
    let marked = mark now raw false p in
    rw (check-settle now latency raw (answered code status) p e at) (
      ground (
        arith,
        mark_success now raw raw p,
        find-set_health raw raw (codes "upstream_error") marked,
        find-set_health raw raw (codes "reachable") marked,
        text_eq_iff raw raw,
      ))

-- A check that cannot reach a proxy of the pool with fewer than 2 ^ 32 - 1 failures counts a
-- failure, starts a cooldown of two seconds for each failure, at most two minutes, marks it as
-- unreachable and reports the latency and the error.
pub check_unreachable :
    (now latency : ℕ) (raw err : Text) (p : Pool) (e : Entry)
    → find raw p.entries ≡ some e
    → e.failures + 1 < 2 ^ 32
    → (find raw (check now latency raw (unreachable err) p).0.entries
        ≡ some (record (cooled now e (e.failures + 1)) { health = codes "unreachable" }))
      × ((check now latency raw (unreachable err) p).1 ≡ latency)
      × ((check now latency raw (unreachable err) p).2 ≡ some (request_error err))
unfolding settle
check_unreachable now latency raw err p e at few =
    rw (check-settle now latency raw (unreachable err) p e at) (
      ground (
        arith,
        find-mark_failure now raw p e at few,
        find-set_health raw raw (codes "unreachable") (mark now raw true p),
        text_eq_iff raw raw,
      ))
