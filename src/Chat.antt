-- ===== src/Chat.antt =====
-- internal/chathub/client.go: the text of a streamed answer. The passes of the six regular expressions
-- and `strings.ToLower` are arguments; texts are valid UTF-8.
pub mod Deltas
pub mod Final
pub mod Frames
pub mod Rounds
mod Tests
use m365_copilot2api.Prelude.{
  ℕ, zero, suc, ◌+◌, ◌*◌, ◌/◌, List, [], ◌∷◌, ◌++◌, Option, none, some, Bool, true, false, ◌&&◌,
  ◌||◌, not, Text, text_eq, codes, is_empty, has_prefix, has_suffix, contains, trim_space, drop,
  length, any, ltb, leb, nat_eq, if◌then◌else◌, spaces, front_width, map, filter,
}

-- `ReplaceAllString` of `markdownCiteRe`, `barePUACiteRe`, `htmlCiteBodyRe`, `htmlCiteRe`, `plainCiteRe`
-- and `multiSpaceRe`.
pub record Cites : Type 0 where
  pub lower : Text → Text
  pub markdown : Text → Text
  pub bare : Text → Text
  pub html_body : Text → Text
  pub html : Text → Text
  pub plain : Text → Text
  pub multi_space : Text → Text

-- A rune between U+E000 and U+F8FF, by its first bytes.
unfoldable pub has_private_use : Text → Bool
has_private_use [] = false
has_private_use (b ∷ s) =
    let rest = has_private_use s in
    (nat_eq b 0xee || (nat_eq b 0xef && elim s [ [] ↦ false | c ∷ t ↦ leb c 0xa3 ])) || rest

-- `utf8.RuneCountInString`: the bytes that begin a rune.
unfoldable pub rune_count : Text → ℕ
rune_count [] = 0
rune_count (b ∷ s) = (if leb 0x80 b && ltb b 0xc0 then 0 else 1) + rune_count s

-- `strings.Map` of `dedupeSignature`: the spaces go; the fuel is the number of bytes.
without_spaces : ℕ → Text → Text
unfolding front_width
without_spaces zero s = []
without_spaces (suc fuel) [] = []
without_spaces (suc fuel) (b ∷ s) = elim (front_width spaces (b ∷ s)) [
  | zero ↦ b ∷ without_spaces fuel s
  | suc n ↦ without_spaces fuel (drop n s)
]

-- The bytes of a signature in twos, or in ones, as `overlapRatio` steps over them.
unfoldable pub in_twos : Text → List Text
in_twos [] = []
in_twos (a ∷ []) = []
in_twos (a ∷ b ∷ s) = (a ∷ b ∷ []) ∷ in_twos s

unfoldable pub pieces : Text → List Text
unfolding in_twos
pieces short = if ltb (length short) 4 then map (λ a. a ∷ []) short else in_twos short

-- `overlapRatio(a, b) >= 0.7`: the division of the two counts is rounded to the nearest double, as 0.7
-- is, so that the test is this one for texts of less than 2 ^ 50 bytes.
unfoldable pub overlaps : Text → Text → Bool
unfolding pieces
overlaps a b =
    let (short, long) = (if ltb (length b) (length a) then (b, a) else (a, b)) in
    let all = pieces short in
    let matched = length (filter (contains long) all) in
    not (is_empty a)
    && not (is_empty b)
    && not (nat_eq (length all) 0)
    && leb (7 * length all) (10 * matched)

module _ (cites : Cites) where
  -- The text may hold a citation.
  unfoldable pub is_marked : Text → Bool
  unfolding has_private_use
  is_marked s = contains (cites.lower s) (codes "cite") || has_private_use s

  -- `CleanM365Citations`.
  unfoldable pub clean : Text → Text
  unfolding is_marked
  clean s =
      if is_empty s
      then []
      else if not (is_marked s)
      then s
      else trim_space (
          cites.multi_space
            (cites.plain (cites.html (cites.html_body (cites.bare (cites.markdown s))))))

  unfoldable pub dedupe_signature : Text → Text
  unfolding without_spaces
  dedupe_signature s = let t = clean s in without_spaces (length t) t

  -- The frame restates all that was streamed.
  unfoldable pub restates : Text → Text → Bool
  unfolding rune_count
  restates streamed incoming =
      let s = dedupe_signature streamed in
      let i = dedupe_signature incoming in
      not (is_empty s)
      && not (is_empty i)
      && contains i s
      && leb (rune_count streamed) (rune_count incoming)

  -- `unseenDelta` of an incoming text that is cleaned and not empty, where some text was streamed.
  unfoldable pub unseen_part : Text → Text → Option Text
  unfolding restates
  unseen_part streamed incoming =
      let cs = clean streamed in
      let ci = clean incoming in
      let tail = drop (length cs) ci in
      if text_eq incoming streamed
      then none
      else if has_prefix incoming streamed
      then some (drop (length streamed) incoming)
      else if not (is_empty cs) && has_prefix ci cs
      then (if is_empty tail then none else some tail)
      else if has_suffix streamed incoming || has_suffix cs ci
      then none
      else if restates streamed incoming
      then none
      else if leb (rune_count incoming) 8
      then some incoming
      else none

  -- `unseenDelta`; `none` is to skip.
  unfoldable pub unseen_delta : Text → Text → Option Text
  unfolding unseen_part
  unseen_delta streamed raw =
      let incoming = clean raw in
      if is_empty incoming
      then none
      else if is_empty streamed
      then some incoming
      else unseen_part streamed incoming

  -- `finalTextReconcile` of two cleaned texts that are not empty.
  unfoldable pub better : Text → Text → Text
  unfolding rune_count overlaps
  better streamed final =
      let s = dedupe_signature streamed in
      let f = dedupe_signature final in
      if text_eq final streamed
      then streamed
      else if has_prefix final streamed
      then final
      else if has_prefix streamed final
      then streamed
      else if is_empty f || is_empty s
      then streamed
      else if contains f s && leb (rune_count streamed * 3 / 4) (rune_count final)
      then final
      else if overlaps s f && ltb (rune_count streamed) (rune_count final)
      then final
      else streamed

  unfoldable pub final_text_reconcile : Text → Text → Text
  unfolding better
  final_text_reconcile streamed final =
      let s = clean (trim_space streamed) in
      let f = clean (trim_space final) in
      if is_empty s then f else if is_empty f then s else better s f
