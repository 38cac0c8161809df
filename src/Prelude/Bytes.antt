-- ===== src/Prelude/Bytes.antt =====
-- A Go string is a sequence of bytes: `Text` is a list of numbers. The operations of package
-- `strings` that the program calls are defined here, over valid UTF-8.
use Prim.Native.Char.{code}
use Prim.Native.Nat.{ℕ, zero, suc, ◌≤◌}
use Prim.Native.String.{String}
use mathlib.Core.Path.{◌≡◌, refl, ap}
use mathlib.Core.Logic.{◌↔◌}
use mathlib.Core.Bool.{Bool, true, false, ◌||◌, ◌&&◌}
use mathlib.Core.List.{List, [], ◌∷◌, map, reverse, reverse-cons}
use native.Mathlib.Omega.{arith}
use m365_copilot2api.Prelude.Tests.{if◌then◌else◌, nat_eq, BoolEq}
use m365_copilot2api.Prelude.Lists.{length, drop, length-append, length-drop}

abbrev pub Text : Type 0
Text = List ℕ

-- A literal of the source, byte by byte (the literals are ASCII).
abbrev pub codes : String → Text
codes String.[] = []
codes (String.◌∷◌ byte text) = code byte ∷ codes text

unfoldable pub text_eq : Text → Text → Bool
text_eq [] [] = true
text_eq (x ∷ xs) (y ∷ ys) = nat_eq x y && text_eq xs ys
text_eq _ _ = false

pub text_eq_refl : (s : Text) → text_eq s s ≡ true
unfolding text_eq
text_eq_refl [] = refl
text_eq_refl (x ∷ xs) = ground (arith, text_eq_refl xs)

text_eq-eq : (s t : Text) → text_eq s t ≡ true → s ≡ t
unfolding text_eq
text_eq-eq [] [] h = refl
text_eq-eq (x ∷ xs) (y ∷ ys) h = ground (arith, text_eq-eq xs ys)
text_eq-eq [] (y ∷ ys) h = cc
text_eq-eq (x ∷ xs) [] h = cc

pub text_eq_iff : (s t : Text) → (text_eq s t ≡ true) ↔ (s ≡ t)
text_eq_iff s t = (text_eq-eq s t, λ e. rw e (text_eq_refl t))

instance abbrev pub Text_eq : BoolEq Text
Text_eq = record { same = text_eq; same_iff = λ s t. ((text_eq_iff s t).1, (text_eq_iff s t).0) }

-- `s == ""`.
abbrev pub is_empty : Text → Bool
is_empty [] = true
is_empty (c ∷ s) = false

pub is_empty_iff : (s : Text) → (is_empty s ≡ true) ↔ (s ≡ [])
is_empty_iff [] = ground arith
is_empty_iff (c ∷ s) = ground arith

-- `strings.HasPrefix(s, p)`.
unfoldable pub has_prefix : Text → Text → Bool
has_prefix s [] = true
has_prefix [] (c ∷ p) = false
has_prefix (b ∷ s) (c ∷ p) = nat_eq b c && has_prefix s p

-- `strings.HasSuffix(s, p)`.
unfoldable pub has_suffix : Text → Text → Bool
unfolding has_prefix
has_suffix s p = has_prefix (reverse s) (reverse p)

-- `strings.Contains(s, p)`.
unfoldable pub contains : Text → Text → Bool
unfolding has_prefix
contains [] p = has_prefix [] p
contains (b ∷ s) p = has_prefix (b ∷ s) p || contains s p

-- The white space of `unicode.IsSpace`, encoded.
abbrev pub spaces : List Text
spaces =
    (9 ∷ [])
    ∷ (10 ∷ [])
    ∷ (11 ∷ [])
    ∷ (12 ∷ [])
    ∷ (13 ∷ [])
    ∷ (32 ∷ [])
    ∷ (0xc2 ∷ 0x85 ∷ [])
    ∷ (0xc2 ∷ 0xa0 ∷ [])
    ∷ (0xe1 ∷ 0x9a ∷ 0x80 ∷ [])
    ∷ (0xe2 ∷ 0x80 ∷ 0x80 ∷ [])
    ∷ (0xe2 ∷ 0x80 ∷ 0x81 ∷ [])
    ∷ (0xe2 ∷ 0x80 ∷ 0x82 ∷ [])
    ∷ (0xe2 ∷ 0x80 ∷ 0x83 ∷ [])
    ∷ (0xe2 ∷ 0x80 ∷ 0x84 ∷ [])
    ∷ (0xe2 ∷ 0x80 ∷ 0x85 ∷ [])
    ∷ (0xe2 ∷ 0x80 ∷ 0x86 ∷ [])
    ∷ (0xe2 ∷ 0x80 ∷ 0x87 ∷ [])
    ∷ (0xe2 ∷ 0x80 ∷ 0x88 ∷ [])
    ∷ (0xe2 ∷ 0x80 ∷ 0x89 ∷ [])
    ∷ (0xe2 ∷ 0x80 ∷ 0x8a ∷ [])
    ∷ (0xe2 ∷ 0x80 ∷ 0xa8 ∷ [])
    ∷ (0xe2 ∷ 0x80 ∷ 0xa9 ∷ [])
    ∷ (0xe2 ∷ 0x80 ∷ 0xaf ∷ [])
    ∷ (0xe2 ∷ 0x81 ∷ 0x9f ∷ [])
    ∷ (0xe3 ∷ 0x80 ∷ 0x80 ∷ [])
    ∷ []

-- The bytes of the first of the given characters that the text begins with, 0 if none does.
unfoldable pub front_width : List Text → Text → ℕ
unfolding has_prefix
front_width [] s = 0
front_width (w ∷ ws) s = let rest = front_width ws s in if has_prefix s w then length w else rest

-- The given characters are stripped from the front; the fuel is the number of bytes.
strip : ℕ → List Text → Text → Text
unfolding front_width
strip zero ws s = s
strip (suc fuel) ws s = elim (front_width ws s) [
  | zero ↦ s
  | suc n ↦ strip fuel ws (drop (suc n) s)
]

trim_left : Text → Text
unfolding strip
trim_left s = strip (length s) spaces s

trim_right : Text → Text
unfolding strip
trim_right s = reverse (strip (length s) (map reverse spaces) (reverse s))

-- `strings.TrimSpace(s)`.
unfoldable pub trim_space : Text → Text
unfolding trim_left trim_right
trim_space s = trim_right (trim_left s)

trim_space-blank : trim_space (codes "  a b\t\n ") ≡ codes "a b"
unfolding trim_space
trim_space-blank = refl

length-strip-le : (fuel : ℕ) (ws : List Text) (s : Text) → length (strip fuel ws s) ≤ length s
unfolding strip
length-strip-le zero ws s = omega arith
length-strip-le (suc fuel) ws s =
    ground
      (arith, length-strip-le fuel ws (drop (front_width ws s) s), length-drop (front_width ws s) s)

length-reverse : (s : Text) → length (reverse s) ≡ length s
length-reverse [] = refl
length-reverse (c ∷ s) =
    omega
      (arith, ap length (reverse-cons c s), length-append (reverse s) (c ∷ []), length-reverse s)

pub length-trim_space-le : (s : Text) → length (trim_space s) ≤ length s
unfolding trim_space
length-trim_space-le s =
    let t = trim_left s in
    omega (
      arith,
      length-strip-le (length s) spaces s,
      length-strip-le (length t) (map reverse spaces) (reverse t),
      length-reverse t,
      length-reverse (strip (length t) (map reverse spaces) (reverse t)),
    )
