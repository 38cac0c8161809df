-- ===== src/Schema/Conforms.antt =====
-- What `validateJSONSchema` of internal/web/tooldecision.go accepts.
use m365_copilot2api.Schema.Clauses.{
  or_error-none_iff, both_iff, Lists, Demands, as_array-cases, when_iff, Closed, arr_injective,
  three_iff, required_iff, is_closed_iff, check_closed-none_iff,
}
use m365_copilot2api.Json
use m365_copilot2api.Prelude.{
  subst, inl, inr, ◌++◌, Option-cases, ◌≡◌, ◌⊎◌, Option, none, some, true, false, Text, text_eq,
  codes, any, All, ◌↔◌, arith, refl, ℕ, ◌+◌, Any, any-true_iff, text_eq_iff, if◌then◌else◌, sym, ap,
  ◌∙◌, Bool,
}
use m365_copilot2api.Ledger.{decimal}
use m365_copilot2api.Json.{
  Value, Items, Fields, items_list, as_object, object_at, string_at, as_array, as_bool,
}
use m365_copilot2api.Schema.{
  fits, type_of, required_of, properties_of, is_closed, check_required, check_closed, SchemaError,
  check_flat, or_error, check_enum, check, check_fields, check_items, schema_valid, not_in_enum,
  must_be,
}
use m365_copilot2api.Schema.Types.{HasType, fits_iff}

module _ (encode : Value → Text) where
  -- The value is one of the enumerated ones, if there are any, and of the type that the schema names.
  abbrev pub Flat : Value → Fields → Type 0
  Flat v s =
      Lists (codes "enum") s (Any (λ e. encode v ≡ encode e))
      × HasType v (string_at (codes "type") s)

  -- The value conforms to the schema: so do, for an object, the fields that have a schema, and for a
  -- list all items.
  mutual
    pub Conforms : Value → Fields → Type 0
    Conforms (Json.obj m) s =
        Flat (Json.obj m) s
        × (string_at (codes "type") s ≡ codes "object"
            → Lists (codes "required") s (All (Demands m))
              × (Json.get (codes "additionalProperties") s ≡ some (Json.bool false)
                  → Closed m (object_at (codes "properties") s))
              × FieldsConform m (object_at (codes "properties") s))
    Conforms (Json.arr vs) s =
        Flat (Json.arr vs) s
        × (string_at (codes "type") s ≡ codes "array"
            → ItemsConform vs (as_object (Json.get (codes "items") s)))
    Conforms Json.null s = Flat Json.null s
    Conforms (Json.bool b) s = Flat (Json.bool b) s
    Conforms (Json.num n) s = Flat (Json.num n) s
    Conforms (Json.str t) s = Flat (Json.str t) s

    pub FieldsConform : Fields → Fields → Type 0
    FieldsConform Json.end props = Unit {0}
    FieldsConform (Json.field n v m) props =
        elim (as_object (Json.get n props)) [ none ↦ Unit {0} | some ps ↦ Conforms v ps ]
        × FieldsConform m props

    pub ItemsConform : Items → Option Fields → Type 0
    ItemsConform Json.nil item = Unit {0}
    ItemsConform (Json.cons v vs) item =
        elim item [ none ↦ Unit {0} | some s ↦ Conforms v s ] × ItemsConform vs item

under_test :
    (b : Bool) (item : Option Fields) (f : Fields → Option SchemaError)
    → elim item [ none ↦ none | some s ↦ if b then f s else none ]
      ≡ (if b then elim item [ none ↦ none | some s ↦ f s ] else none)
under_test true none f = refl
under_test true (some s) f = refl
under_test false none f = refl
under_test false (some s) f = refl

module _ (encode : Value → Text) where
  check_enum-none_iff :
      (path : Text) (v : Value) (s : Fields)
      → (check_enum encode path v s ≡ none)
        ↔ Lists (codes "enum") s (Any (λ e. encode v ≡ encode e))
  unfolding check_enum
  check_enum-none_iff path v s = elim (as_array-cases (Json.get (codes "enum") s)) [
    | inl (free, never) ↦ rw (free, check_enum) (λ h es e. absurd (never es e), λ h. refl)
    | inr (vs, given) ↦
        let c =
          any-true_iff (λ e. text_eq (encode v) (encode e)) (λ e. encode v ≡ encode e)
            (λ e. text_eq_iff (encode v) (encode e)) (items_list vs) in
        let found : (if any (λ e. text_eq (encode v) (encode e)) (items_list vs)
                then none
                else some (not_in_enum path))
              ≡ none
            → Any (λ e. encode v ≡ encode e) (items_list vs) =
          λ h. c.0 (ground arith) in
        rw (given, check_enum)
          (
            λ h es e.
                subst (λ x. Any (λ y. encode v ≡ encode y) (items_list x)) (arr_injective vs es e)
                  (found h),
            λ h. rw (c.1 (h vs refl)) refl,
          )
  ]

  check_flat-none_iff :
      (path : Text) (v : Value) (s : Fields) → (check_flat encode path v s ≡ none) ↔ Flat encode v s
  unfolding check_flat
  check_flat-none_iff path v s =
      let e = check_enum-none_iff path v s in
      let t = fits_iff (type_of s) v in
      let o =
        or_error-none_iff (check_enum encode path v s)
          (if fits (type_of s) v then none else some (must_be path (type_of s))) in
      (λ h. (e.0 (o.0 h).0, t.0 (ground (arith, (o.0 h).1))), λ h. o.1 (e.1 h.0, rw (t.1 h.1) refl))

  mutual
    unfolding check Conforms

    accepts :
        (path : Text) (v : Value) (s : Fields)
        → (check encode path v s ≡ none) ↔ Conforms encode v s
    accepts path (Json.obj m) s =
        let props = properties_of s in
        both_iff (check_flat encode path (Json.obj m) s) _ (check_flat-none_iff path (Json.obj m) s)
          (when_iff (text_eq (type_of s) (codes "object")) _ (text_eq_iff _ _) (
            three_iff (check_required (required_of s) m) _ _ (required_iff s m)
              (when_iff (is_closed s) (check_closed path m props) (is_closed_iff s)
                (check_closed-none_iff path m props))
              (accepts_fields path m props)))
    accepts path (Json.arr vs) s =
        let item = as_object (Json.get (codes "items") s) in
        let swap =
          under_test (text_eq (type_of s) (codes "array")) item (check_items encode path 0 vs) in
        let c =
          both_iff (check_flat encode path (Json.arr vs) s) _
            (check_flat-none_iff path (Json.arr vs) s)
            (when_iff (text_eq (type_of s) (codes "array")) _ (text_eq_iff _ _)
              (accepts_items path 0 vs item)) in
        let same = ap (or_error (check_flat encode path (Json.arr vs) s)) swap in
        (λ h. c.0 (sym same ∙ h), λ h. same ∙ c.1 h)
    accepts path Json.null s = check_flat-none_iff path Json.null s
    accepts path (Json.bool b) s = check_flat-none_iff path (Json.bool b) s
    accepts path (Json.num n) s = check_flat-none_iff path (Json.num n) s
    accepts path (Json.str t) s = check_flat-none_iff path (Json.str t) s

    accepts_fields :
        (path : Text) (m props : Fields)
        → (check_fields encode path m props ≡ none) ↔ FieldsConform encode m props
    accepts_fields path Json.end props = (λ h. tt, λ h. refl)
    accepts_fields path (Json.field n v m) props =
        elim (Option-cases (as_object (Json.get n props))) [
          | inl free ↦ rw free (ground (arith, accepts_fields path m props))
          | inr (ps, named) ↦
              rw named
                (ground (arith, accepts_fields path m props, accepts (path ++ codes "." ++ n) v ps))
        ]

    accepts_items :
        (path : Text) (i : ℕ) (vs : Items) (item : Option Fields)
        → (elim item [ none ↦ none | some s ↦ check_items encode path i vs s ] ≡ none)
          ↔ ItemsConform encode vs item
    accepts_items path i Json.nil none = (λ h. tt, λ h. refl)
    accepts_items path i Json.nil (some s) = (λ h. tt, λ h. refl)
    accepts_items path i (Json.cons v vs) none = ground (arith, accepts_items path (i + 1) vs none)
    accepts_items path i (Json.cons v vs) (some s) = ground (
      arith,
      accepts (path ++ codes "[" ++ decimal i ++ codes "]") v s,
      accepts_items path (i + 1) vs (some s),
    )

-- The arguments of a call are accepted exactly if the tool gives no schema for them or they conform to
-- it, in every part.
pub schema_valid-none_iff :
    (encode : Value → Text) (args fn : Fields)
    → (schema_valid encode args fn ≡ none) ↔ (
        (as_object (Json.get (codes "parameters") fn) ≡ none)
        ⊎ ((params : Fields) × (as_object (Json.get (codes "parameters") fn) ≡ some params)
            × Conforms encode (Json.obj args) params))
unfolding schema_valid
schema_valid-none_iff encode args fn =
    elim (Option-cases (as_object (Json.get (codes "parameters") fn))) [
      | inl free ↦ (λ h. inl free, λ h. rw (free, schema_valid) refl)
      | inr (params, given) ↦
          let a = accepts encode (codes "arguments") (Json.obj args) params in
          (
            λ h. inr (params, given, a.0 (rw (given, schema_valid) at h)),
            λ h. elim h [
              | inl free ↦ absurd (ground arith)
              | inr (ps, same, c) ↦
                  let e : ps ≡ params = ground arith in
                  rw (given, schema_valid)
                    (a.1 (subst (λ (p : Fields). Conforms encode (Json.obj args) p) e c))
            ],
          )
    ]
