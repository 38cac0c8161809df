-- ===== src/Schema/Types.antt =====
-- The types that a schema names: the first tests of `validateJSONSchema` of internal/web/tooldecision.go.
use native.Mathlib.Nat.{mod-add-div', mul-mod_left}
use m365_copilot2api.Json
use m365_copilot2api.Prelude.{
  ◌≡◌, ◌↔◌, ◌⊎◌, [], ◌∷◌, List, Text, text_eq_iff, codes, Any, arith, true, any, nat_eq_iff, ℕ, ◌*◌,
  ◌^◌, ◌%◌, ◌/◌, ap, ◌∙◌, text_eq, any-true_iff, false, not, Bool-cases, refl, inl, inr, ◌≢◌,
}
use m365_copilot2api.Json.{Value, is_integral, Number}
use m365_copilot2api.Schema.{fits}

abbrev type_names : List Text
type_names =
    codes "object"
    ∷ codes "array"
    ∷ codes "string"
    ∷ codes "number"
    ∷ codes "integer"
    ∷ codes "boolean"
    ∷ codes "null"
    ∷ []

-- The names of a value's own types.
abbrev pub IsOf : Value → Text → Type 0
IsOf Json.null t = t ≡ codes "null"
IsOf (Json.bool b) t = t ≡ codes "boolean"
IsOf (Json.num n) t =
    (t ≡ codes "number") ⊎ ((t ≡ codes "integer") × (k : ℕ) × (n.magnitude ≡ k * 2 ^ n.scale))
IsOf (Json.str s) t = t ≡ codes "string"
IsOf (Json.arr vs) t = t ≡ codes "array"
IsOf (Json.obj m) t = t ≡ codes "object"

-- A name that is none of the seven demands nothing.
abbrev pub HasType : Value → Text → Type 0
HasType v t = (¬ Any (λ n. t ≡ n) type_names) ⊎ IsOf v t

-- The number is a whole one.
is_integral_iff :
    (n : Number) → (is_integral n ≡ true) ↔ ((k : ℕ) × (n.magnitude ≡ k * 2 ^ n.scale))
unfolding is_integral
is_integral_iff n =
    let d = 2 ^ n.scale in
    let split = mod-add-div' n.magnitude d in
    let test = nat_eq_iff (n.magnitude % d) 0 in
    (
      λ e. (n.magnitude / d, omega (arith, split, test.0 e)),
      λ (k, whole). test.1 (ap (λ x. x % d) whole ∙ mul-mod_left k d),
    )

any_iff : (t : Text) (names : List Text) → (any (text_eq t) names ≡ true) ↔ Any (λ n. t ≡ n) names
any_iff t names = any-true_iff (text_eq t) (λ n. t ≡ n) (text_eq_iff t) names

-- A test for the names of the other types is one for the name of the own type, or for no name.
others_iff :
    (t own : Text) (others : List Text)
    → any (text_eq own) others ≡ false
    → Any (λ n. t ≡ n) type_names ↔ ((t ≡ own) ⊎ Any (λ n. t ≡ n) others)
    → (not (any (text_eq t) others) ≡ true) ↔ ((¬ Any (λ n. t ≡ n) type_names) ⊎ (t ≡ own))
others_iff t own others apart parts = elim (Bool-cases (any (text_eq t) others)) [
  | inl other ↦ rw other (
    λ e. cc,
    λ h. elim h [
      | inl none_of ↦ absurd (none_of (parts.1 (inr ((any_iff t others).0 other))))
      | inr same ↦ absurd (ground (arith, rw same at other))
    ],
  )
  | inr free ↦
      let no : ¬ Any (λ n. t ≡ n) others = λ a. absurd (ground (arith, (any_iff t others).1 a)) in
      rw free (
        λ e. elim (Bool-cases (text_eq t own)) [
          | inl same ↦ inr ((text_eq_iff t own).0 same)
          | inr differs ↦ inl (λ a. elim (parts.0 a) [
            | inl same ↦ absurd (ground (arith, (text_eq_iff t own).1 same))
            | inr other ↦ no other
          ])
        ],
        λ h. refl,
      )
]

pub fits_iff : (t : Text) (v : Value) → (fits t v ≡ true) ↔ HasType v t
unfolding fits any text_eq
fits_iff t (Json.null) =
    others_iff t (codes "null")
      (codes "object"
        ∷ codes "array"
        ∷ codes "string"
        ∷ codes "number"
        ∷ codes "integer"
        ∷ codes "boolean"
        ∷ [])
      refl (ground arith)
fits_iff t (Json.bool b) =
    others_iff t (codes "boolean")
      (codes "object"
        ∷ codes "array"
        ∷ codes "string"
        ∷ codes "number"
        ∷ codes "integer"
        ∷ codes "null"
        ∷ [])
      refl (ground arith)
fits_iff t (Json.str s) =
    others_iff t (codes "string")
      (codes "object"
        ∷ codes "array"
        ∷ codes "number"
        ∷ codes "integer"
        ∷ codes "boolean"
        ∷ codes "null"
        ∷ [])
      refl (ground arith)
fits_iff t (Json.arr vs) =
    others_iff t (codes "array")
      (codes "object"
        ∷ codes "string"
        ∷ codes "number"
        ∷ codes "integer"
        ∷ codes "boolean"
        ∷ codes "null"
        ∷ [])
      refl (ground arith)
fits_iff t (Json.obj m) =
    others_iff t (codes "object")
      (codes "array"
        ∷ codes "string"
        ∷ codes "number"
        ∷ codes "integer"
        ∷ codes "boolean"
        ∷ codes "null"
        ∷ [])
      refl (ground arith)
fits_iff t (Json.num n) = elim (Bool-cases (text_eq t (codes "integer"))) [
  | inl e ↦ rw ((text_eq_iff t (codes "integer")).0 e) (
    λ whole. let w = (is_integral_iff n).0 whole in inr (inr (refl, w.0, w.1)),
    λ h. elim h [
      | inl unknown ↦ absurd (unknown (inr (inr (inr (inr (inl refl))))))
      | inr (inl wrong) ↦ cc
      | inr (inr (same, k, whole)) ↦ (is_integral_iff n).1 (k, whole)
    ],
  )
  | inr e ↦
      let differs : t ≢ codes "integer" =
        λ same. absurd (ground (arith, (text_eq_iff t (codes "integer")).1 same)) in
      let others =
        codes "object" ∷ codes "array" ∷ codes "string" ∷ codes "boolean" ∷ codes "null" ∷ [] in
      let c = others_iff t (codes "number") others refl (ground arith) in
      rw e (
        λ h. elim (c.0 (ground arith)) [ inl unknown ↦ inl unknown | inr same ↦ inr (inl same) ],
        λ h. elim h [
          | inl unknown ↦ rw (c.1 (inl unknown)) refl
          | inr (inl same) ↦ rw (c.1 (inr same)) refl
          | inr (inr (same, k, whole)) ↦ absurd (differs same)
        ],
      )
]
