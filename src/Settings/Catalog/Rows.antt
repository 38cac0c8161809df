-- ===== src/Settings/Catalog/Rows.antt =====
-- The rows that `sanitizeModelMappings` of internal/web/settings.go takes.
use m365_copilot2api.Prelude.{
  ◌≡◌, ◌⊎◌, refl, inl, inr, List, [], ◌∷◌, true, false, Text, text_eq_iff, trim_space, arith, ◌≢◌,
  ◌↔◌, Any, any-true_iff, is_empty_iff, text_eq, codes, Bool, not, is_empty, ◌&&◌, ◌||◌,
}
use m365_copilot2api.Settings.{
  Env, ModelMapping, is_one_of, is_complete, known_upstream_tones, is_reasoning_effort,
  valid_upstream_tone,
}

-- A reasoning level that is not blank, and one of the six, whatever the case of its letters; a level
-- whose lower case is empty passes, as in the code.
abbrev pub IsLevel : Env → Text → Type 0
IsLevel env level =
    (trim_space level ≢ [])
    × Any (λ n. n ≡ env.lower (trim_space level))
        ([]
          ∷ codes "none"
          ∷ codes "minimal"
          ∷ codes "low"
          ∷ codes "medium"
          ∷ codes "high"
          ∷ codes "xhigh"
          ∷ [])

-- A tone that is known, or that the rule for custom tones takes.
abbrev pub IsTone : Env → Text → Type 0
IsTone env tone =
    (tone ≢ [])
    × (Any (λ n. n ≡ trim_space tone) known_upstream_tones
        ⊎ (env.custom_tone (trim_space tone) ≡ true))

-- A row that may stand in the catalogue.
abbrev pub Acceptable : Env → ModelMapping → Type 0
Acceptable env m =
    (trim_space m.public_model ≢ [])
    × (trim_space m.display_name ≢ [])
    × IsLevel env m.default_reasoning_level
    × IsTone env (trim_space m.upstream_tone)

pub is_one_of_iff :
    (names : List Text) (s : Text) → (is_one_of names s ≡ true) ↔ Any (λ n. n ≡ s) names
is_one_of_iff names s = any-true_iff (λ n. text_eq n s) (λ n. n ≡ s) (λ n. text_eq_iff n s) names

abbrev levels : List Text
levels =
    codes "none"
    ∷ codes "minimal"
    ∷ codes "low"
    ∷ codes "medium"
    ∷ codes "high"
    ∷ codes "xhigh"
    ∷ []

-- Two parts of a test that were decided on their own.
and_iff : {P Q : Type 0} (a b : Bool) → (a ≡ true) ↔ P → (b ≡ true) ↔ Q → (a && b ≡ true) ↔ (P × Q)
and_iff true b p q = (λ e. (p.0 refl, q.0 e), λ h. q.1 h.1)
and_iff false b p q = (λ e. cc, λ h. p.1 h.0)

or_iff : {P Q : Type 0} (a b : Bool) → (a ≡ true) ↔ P → (b ≡ true) ↔ Q → (a || b ≡ true) ↔ (P ⊎ Q)
or_iff true b p q = (λ e. inl (p.0 refl), λ h. refl)
or_iff false b p q =
    (λ e. inr (q.0 e), λ h. elim h [ inl x ↦ absurd (ground (arith, p.1 x)) | inr y ↦ q.1 y ])

full_iff : (t : Text) → (not (is_empty t) ≡ true) ↔ (t ≢ [])
full_iff [] = ground arith
full_iff (b ∷ t) = (λ e h. cc, λ h. refl)

nil_iff : (t : Text) → (is_empty t ≡ true) ↔ ([] ≡ t)
nil_iff t = ground (arith, is_empty_iff t)

module _ (env : Env) where
  effort_iff :
      (e : Text)
      → (is_reasoning_effort env e ≡ true) ↔ Any (λ n. n ≡ env.lower (trim_space e)) ([] ∷ levels)
  unfolding is_reasoning_effort
  effort_iff e =
      or_iff (is_empty (env.lower (trim_space e))) (is_one_of levels (env.lower (trim_space e)))
        (nil_iff (env.lower (trim_space e))) (is_one_of_iff levels (env.lower (trim_space e)))

  tone_iff :
      (t : Text)
      → (valid_upstream_tone env t ≡ true) ↔ (
          Any (λ n. n ≡ trim_space t) known_upstream_tones
          ⊎ (env.custom_tone (trim_space t) ≡ true))
  unfolding valid_upstream_tone
  tone_iff t =
      or_iff (is_one_of known_upstream_tones (trim_space t)) (env.custom_tone (trim_space t))
        (is_one_of_iff known_upstream_tones (trim_space t)) (λ h. h, λ h. h)

  pub is_complete_iff : (m : ModelMapping) → (is_complete env m ≡ true) ↔ Acceptable env m
  unfolding is_complete
  is_complete_iff m =
      let tone = trim_space m.upstream_tone in
      let level = m.default_reasoning_level in
      let named = and_iff _ _ (full_iff (trim_space m.public_model)) (full_iff tone) in
      let shown = and_iff _ _ named (full_iff (trim_space m.display_name)) in
      let leveled = and_iff _ _ (effort_iff level) (full_iff (trim_space level)) in
      let c = and_iff _ _ (and_iff _ _ shown leveled) (tone_iff tone) in
      (
        λ e. let h = c.0 e in (h.0.0.0.0, h.0.0.1, (h.0.1.1, h.0.1.0), (h.0.0.0.1, h.1)),
        λ h. c.1 ((((h.0, h.3.0), h.1), (h.2.1, h.2.0)), h.3.1),
      )
