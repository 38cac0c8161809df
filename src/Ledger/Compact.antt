-- ===== src/Ledger/Compact.antt =====
-- The size of a compacted tool result: `compactToolResult` of internal/web/agent_ledger.go.
use m365_copilot2api.Prelude.{
  ℕ, zero, suc, ◌+◌, ◌-◌, ◌*◌, ◌/◌, ◌^◌, ◌≤◌, ◌<◌, ◌≡◌, [], ◌∷◌, ◌++◌, max, Text, length, take,
  drop, length-append, length-take, length-drop, length-trim_space-le, trim_space, arith, codes,
  ◌%◌,
}
use native.Mathlib.Nat.{pow-suc}
use m365_copilot2api.Ledger.{
  decimal_from, decimal, marker, compact, compact_tool_result, tail_bytes,
}

length-decimal_from-le : (k fuel n : ℕ) → n < 10 ^ suc k → length (decimal_from fuel n) ≤ suc k
unfolding decimal_from
length-decimal_from-le k zero n h = omega arith
length-decimal_from-le zero (suc fuel) n h = ground arith
length-decimal_from-le (suc k) (suc fuel) n h =
    let p : 10 ^ suc (suc k) ≡ 10 ^ suc k * 10 = pow-suc 10 (suc k) in
    ground (
      arith,
      length-decimal_from-le k fuel (n / 10) (omega (arith, p)),
      length-append (decimal_from fuel (n / 10)) ((b'0' + n % 10) ∷ []),
    )

length-marker-le : (n : ℕ) → n < 10 ^ 19 → length (marker n) ≤ 47
unfolding marker decimal
length-marker-le n h = omega (
  arith,
  length-append (decimal_from (suc n) n) (codes " bytes] ...\n"),
  length-append (codes "\n... [truncated ") (decimal_from (suc n) n ++ codes " bytes] ...\n"),
  length-decimal_from-le 18 (suc n) n h,
)

tail_bytes-le : (limit : ℕ) → 200 ≤ limit → limit / 3 + tail_bytes limit + 47 ≤ limit
unfolding tail_bytes
tail_bytes-le limit wide = ground arith

length-compact-le :
    (s : Text) (limit : ℕ) → 200 ≤ limit → length s < 10 ^ 19 → length (compact s limit) ≤ limit
unfolding compact
length-compact-le s limit wide small =
    let head = limit / 3 in
    let tail = tail_bytes limit in
    let mark = marker (length s - head - tail) in
    ground (
      arith,
      tail_bytes-le limit wide,
      length-take head s,
      length-drop (length s - tail) s,
      length-marker-le (length s - head - tail) (omega arith),
      length-append (take head s) (mark ++ drop (length s - tail) s),
      length-append mark (drop (length s - tail) s),
    )

-- A compacted result of a text shorter than 10 ^ 19 bytes is no longer than the limit, or 200 if
-- that is more.
pub length-compact_tool_result-le :
    (s : Text) (limit : ℕ)
    → length s < 10 ^ 19
    → length (compact_tool_result s limit) ≤ max limit 200
unfolding compact_tool_result
length-compact_tool_result-le s limit small =
    let t = trim_space s in
    let bound : length t < 10 ^ 19 = omega (arith, length-trim_space-le s) in
    ground (arith, length-compact-le t limit, length-compact-le t 200)
