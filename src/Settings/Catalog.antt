-- ===== src/Settings/Catalog.antt =====
-- What `sanitizeModelMappings` of internal/web/settings.go leaves of a catalogue.
pub mod Rows
use m365_copilot2api.Settings.Catalog.Rows.{Acceptable, is_complete_iff}
use m365_copilot2api.Prelude.{
  ◌≡◌, ◌⊎◌, refl, inl, inr, List, [], ◌∷◌, map, true, false, Text, text_eq_iff, trim_space, any,
  All, arith, ◌≢◌, ◌↔◌, Any, any-true_iff, is_empty_iff, text_eq, codes, Bool, not, is_empty, ◌&&◌,
  ◌||◌, Bool-cases, All-map, ap, subst, sym, ◌∙◌,
}
use m365_copilot2api.Settings.{
  Env, ModelMapping, is_one_of, trimmed, is_complete, sanitize_from, sanitize_model_mappings,
  known_upstream_tones, is_reasoning_effort, valid_upstream_tone,
}

-- The name of a given row, trimmed and lowered.
abbrev pub key_of : Env → ModelMapping → Text
key_of env m = env.lower (trim_space m.public_model)

-- The row is the first acceptable one of its name.
abbrev pub First : Env → ModelMapping → List ModelMapping → Type 0
First env raw [] = ⊥
First env raw (m ∷ ms) =
    ((m ≡ raw) × Acceptable env raw)
    ⊎ ((Acceptable env m → key_of env m ≢ key_of env raw) × First env raw ms)

-- The texts of a row are those of a given one, trimmed.
abbrev pub Trims : ModelMapping → ModelMapping → Type 0
Trims raw m =
    (m.public_model ≡ trim_space raw.public_model)
    × (m.upstream_tone ≡ trim_space raw.upstream_tone)
    × (m.display_name ≡ trim_space raw.display_name)
    × (m.default_reasoning_level ≡ trim_space raw.default_reasoning_level)

-- The names of the rows, lowered.
abbrev pub keys : Env → List ModelMapping → List Text
keys env ms = map (λ m. env.lower m.public_model) ms

abbrev pub Unique : List Text → Type 0
Unique [] = Unit
Unique (k ∷ ks) = All (λ j. j ≢ k) ks × Unique ks

pub differs_from_all : (ks : List Text) (k : Text) → is_one_of ks k ≡ false → All (λ j. j ≢ k) ks
unfolding any
differs_from_all [] k h = tt
differs_from_all (j ∷ ks) k h = ground (arith, text_eq_iff j k, differs_from_all ks k)

module _ (env : Env) where
  -- What becomes of the first row: its name was seen, or it is not acceptable, or it is kept.
  step :
      (seen : List Text) (m : ModelMapping) (ms : List ModelMapping)
      → ((is_one_of seen (key_of env m) ≡ true)
          × (sanitize_from env seen (m ∷ ms) ≡ sanitize_from env seen ms))
        ⊎ (¬ Acceptable env m × (sanitize_from env seen (m ∷ ms) ≡ sanitize_from env seen ms))
        ⊎ ((is_one_of seen (key_of env m) ≡ false)
            × Acceptable env m
            × (sanitize_from env seen (m ∷ ms)
                ≡ trimmed m ∷ sanitize_from env (key_of env m ∷ seen) ms))
  unfolding sanitize_from
  step seen m ms = elim (Bool-cases (is_one_of seen (key_of env m))) [
    | inl old ↦ inl (old, rw (old, sanitize_from) refl)
    | inr new ↦ elim (Bool-cases (is_complete env m)) [
      | inl whole ↦
          inr (inr (new, (is_complete_iff env m).0 whole, rw (new, whole, sanitize_from) refl))
      | inr part ↦ inr (
          inl (
            λ a. absurd (ground (arith, (is_complete_iff env m).1 a)),
            rw (new, part, sanitize_from) refl,
          ))
    ]
  ]

  differ :
      (k j : Text) (seen : List Text)
      → (is_one_of (k ∷ seen) j ≡ false) ↔ ((k ≢ j) × (is_one_of seen j ≡ false))
  unfolding any
  differ k j seen = ground (arith, text_eq_iff k j)

  seen-differ :
      (k j : Text) (seen : List Text) → is_one_of seen k ≡ true → is_one_of seen j ≡ false → k ≢ j
  seen-differ k j seen old new e = absurd (ground (arith, rw e at old))

  -- A row of the catalogue comes from the first acceptable row of its name, which was not seen.
  Comes : List Text → List ModelMapping → ModelMapping → Type 0
  Comes seen ms m =
      (raw : ModelMapping) × First env raw ms
      × Trims raw m
      × (is_one_of seen (key_of env raw) ≡ false)

  sanitize_from-Comes :
      (seen : List Text) (ms : List ModelMapping) → All (Comes seen ms) (sanitize_from env seen ms)
  unfolding Comes
  sanitize_from-Comes seen [] = unfold sanitize_from in tt
  sanitize_from-Comes seen (m ∷ ms) = elim (step seen m ms) [
    | inl (old, e) ↦ rw e (
        All-map
          (λ x (raw, f, t, new).
            (raw, inr (λ a. seen-differ (key_of env m) (key_of env raw) seen old new, f), t, new))
          (sanitize_from env seen ms) (sanitize_from-Comes seen ms))
    | inr (inl (bad, e)) ↦ rw e (
        All-map (λ x (raw, f, t, new). (raw, inr (λ a. absurd (bad a), f), t, new))
          (sanitize_from env seen ms) (sanitize_from-Comes seen ms))
    | inr (inr (new, good, e)) ↦
        let k = key_of env m in
        rw e (
          (m, inl (refl, good), unfold trimmed in (refl, refl, refl, refl), new),
          All-map
              (λ x (raw, f, t, fresh).
                let d = (differ k (key_of env raw) seen).0 fresh in
                (raw, inr (λ a. d.0, f), t, d.1))
              (sanitize_from env (k ∷ seen) ms) (sanitize_from-Comes (k ∷ seen) ms),
        )
  ]

  sanitize_from-Any :
      (raw : ModelMapping) (seen : List Text) (ms : List ModelMapping)
      → First env raw ms
      → is_one_of seen (key_of env raw) ≡ false
      → Any (Trims raw) (sanitize_from env seen ms)
  sanitize_from-Any raw seen [] f new = absurd f
  sanitize_from-Any raw seen (m ∷ ms) f new = elim (step seen m ms) [
    | inl (old, e) ↦ rw e (elim f [
      | inl (same, good) ↦
          absurd (seen-differ (key_of env m) (key_of env raw) seen old new (ap (key_of env) same))
      | inr (d, later) ↦ sanitize_from-Any raw seen ms later new
    ])
    | inr (inl (bad, e)) ↦ rw e (elim f [
      | inl (same, good) ↦ absurd (bad (subst (Acceptable env) (sym same) good))
      | inr (d, later) ↦ sanitize_from-Any raw seen ms later new
    ])
    | inr (inr (fresh, good, e)) ↦ rw e (elim f [
      | inl (same, _) ↦ inl (unfold trimmed in rw same (refl, refl, refl, refl))
      | inr (d, later) ↦ inr (
          sanitize_from-Any raw (key_of env m ∷ seen) ms later
            ((differ (key_of env m) (key_of env raw) seen).1 (d good, new)))
    ])
  ]

  keys-All :
      (P : Text → Type 0) (ms : List ModelMapping)
      → All (λ m. P (env.lower m.public_model)) ms
      → All P (keys env ms)
  keys-All P [] h = tt
  keys-All P (m ∷ ms) h = (h.0, keys-All P ms h.1)

  sanitize_from-Unique :
      (seen : List Text) (ms : List ModelMapping) → Unique (keys env (sanitize_from env seen ms))
  unfolding Comes
  sanitize_from-Unique seen [] = unfold sanitize_from in tt
  sanitize_from-Unique seen (m ∷ ms) = elim (step seen m ms) [
    | inl (old, e) ↦ rw e (sanitize_from-Unique seen ms)
    | inr (inl (bad, e)) ↦ rw e (sanitize_from-Unique seen ms)
    | inr (inr (new, good, e)) ↦
        let k = key_of env m in
        let rest = sanitize_from env (k ∷ seen) ms in
        rw e (
          unfold trimmed in
              keys-All (λ j. j ≢ k) rest
                (All-map
                  (λ x (raw, f, t, fresh) same.
                    ((differ k (key_of env raw) seen).0 fresh).0 (sym same ∙ ap env.lower t.0))
                  rest (sanitize_from-Comes (k ∷ seen) ms)),
          sanitize_from-Unique (k ∷ seen) ms,
        )
  ]

  -- Every row that is left comes from a given one, which has a name, a display name, a valid tone and
  -- a valid reasoning level, none of them blank, and is the first such row of its name, whatever the case of
  -- its letters: its texts are the given ones, trimmed. Every given row that is the first such row of its
  -- name is left. No two names that are left differ only in the case of letters.
  pub sanitize_model_mappings-Unique :
      (ms : List ModelMapping)
      → All
          (λ m. (raw : ModelMapping) × First env raw ms × Trims raw m)
          (sanitize_model_mappings env ms)
        × ((raw : ModelMapping)
            → First env raw ms
            → Any (Trims raw) (sanitize_model_mappings env ms))
        × Unique (keys env (sanitize_model_mappings env ms))
  unfolding sanitize_model_mappings any Comes
  sanitize_model_mappings-Unique ms = (
    All-map (λ x (raw, f, t, new). (raw, f, t)) (sanitize_from env [] ms)
        (sanitize_from-Comes [] ms),
    λ raw f. sanitize_from-Any raw [] ms f refl,
    sanitize_from-Unique [] ms,
  )
