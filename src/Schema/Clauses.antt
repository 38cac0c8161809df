-- ===== src/Schema/Clauses.antt =====
-- The clauses of a schema, and the checks of `validateJSONSchema` of internal/web/tooldecision.go that stand for
-- them.
use m365_copilot2api.Json
use m365_copilot2api.Prelude.{
  subst, [], ◌∷◌, inl, inr, Option-cases, ◌≡◌, ◌⊎◌, Option, none, some, true, false, Text, codes,
  All, List, ◌↔◌, arith, refl, ◌≢◌, not, if◌then◌else◌, Bool,
}
use m365_copilot2api.Json.{
  Value, Items, Fields, items_list, as_object, object_at, string_at, as_array, as_bool,
}
use m365_copilot2api.Schema.{
  required_of, has_field, is_closed, check_required, check_closed, SchemaError, or_error, names_of,
  name_of,
}

-- The object has a field of the name.
abbrev pub HasField : Fields → Text → Type 0
HasField m n = (v : Value) × (Json.get n m ≡ some v)

-- Every field of the object is one of the schema's properties.
abbrev pub Closed : Fields → Fields → Type 0
Closed Json.end props = Unit {0}
Closed (Json.field n v m) props = HasField props n × Closed m props

-- The entry of `required` names a field of the object; an entry that is no text names the empty field.
abbrev pub Demands : Fields → Value → Type 0
Demands m (Json.str n) = HasField m n
Demands m Json.null = HasField m []
Demands m (Json.bool b) = HasField m []
Demands m (Json.num n) = HasField m []
Demands m (Json.arr vs) = HasField m []
Demands m (Json.obj fs) = HasField m []

-- What the schema says under a key, if it says it with a list.
abbrev pub Lists : Text → Fields → (List Value → Type 0) → Type 0
Lists k s P = (es : Items) → Json.get k s ≡ some (Json.arr es) → P (items_list es)

pub has_field_iff : (n : Text) (m : Fields) → (has_field n m ≡ true) ↔ HasField m n
has_field_iff n m = elim (Option-cases (Json.get n m)) [
  | inl gone ↦ rw (gone, has_field) (λ e. cc, λ (v, e). cc)
  | inr (v, there) ↦ rw (there, has_field) (λ e. (v, refl), λ h. refl)
]

pub demanded_iff : (v : Value) (m : Fields) → (has_field (name_of v) m ≡ true) ↔ Demands m v
demanded_iff (Json.str n) m = has_field_iff n m
demanded_iff Json.null m = has_field_iff [] m
demanded_iff (Json.bool b) m = has_field_iff [] m
demanded_iff (Json.num n) m = has_field_iff [] m
demanded_iff (Json.arr vs) m = has_field_iff [] m
demanded_iff (Json.obj fs) m = has_field_iff [] m

-- A value is read as a list exactly if it is one, and as `false` likewise.
pub as_array-cases :
    (o : Option Value)
    → ((as_array o ≡ none) × ((es : Items) → o ≢ some (Json.arr es)))
      ⊎ ((es : Items) × (o ≡ some (Json.arr es)))
as_array-cases none = inl (refl, λ es e. cc)
as_array-cases (some Json.null) = inl (refl, λ es e. cc)
as_array-cases (some (Json.bool b)) = inl (refl, λ es e. cc)
as_array-cases (some (Json.num n)) = inl (refl, λ es e. cc)
as_array-cases (some (Json.str s)) = inl (refl, λ es e. cc)
as_array-cases (some (Json.arr vs)) = inr (vs, refl)
as_array-cases (some (Json.obj m)) = inl (refl, λ es e. cc)

pub is_closed_iff :
    (s : Fields)
    → (is_closed s ≡ true) ↔ (Json.get (codes "additionalProperties") s ≡ some (Json.bool false))
is_closed_iff s = go (Json.get (codes "additionalProperties") s)
  where
    go :
        (o : Option Value)
        → (elim (as_bool o) [ some b ↦ not b | none ↦ false ] ≡ true) ↔ (o ≡ some (Json.bool false))
    go none = (λ e. cc, λ e. cc)
    go (some Json.null) = (λ e. cc, λ e. cc)
    go (some (Json.bool true)) = (λ e. cc, λ e. cc)
    go (some (Json.bool false)) = (λ e. refl, λ e. refl)
    go (some (Json.num n)) = (λ e. cc, λ e. cc)
    go (some (Json.str s)) = (λ e. cc, λ e. cc)
    go (some (Json.arr vs)) = (λ e. cc, λ e. cc)
    go (some (Json.obj m)) = (λ e. cc, λ e. cc)

pub arr_injective : (vs es : Items) → some (Json.arr vs) ≡ some (Json.arr es) → vs ≡ es
arr_injective vs es e = cc

pub check_required-none_iff :
    (vs : List Value) (m : Fields) → (check_required (names_of vs) m ≡ none) ↔ All (Demands m) vs
unfolding check_required
check_required-none_iff [] m = (λ h. tt, λ h. refl)
check_required-none_iff (v ∷ vs) m = ground (arith, demanded_iff v m, check_required-none_iff vs m)

pub required_iff :
    (s m : Fields)
    → (check_required (required_of s) m ≡ none) ↔ Lists (codes "required") s (All (Demands m))
unfolding check_required
required_iff s m = elim (as_array-cases (Json.get (codes "required") s)) [
  | inl (free, never) ↦ rw (free, required_of) (λ h es e. absurd (never es e), λ h. refl)
  | inr (vs, given) ↦
      let c = check_required-none_iff (items_list vs) m in
      rw (given, required_of)
        (
          λ h es e. subst (λ x. All (Demands m) (items_list x)) (arr_injective vs es e) (c.0 h),
          λ h. c.1 (h vs refl),
        )
]

pub check_closed-none_iff :
    (path : Text) (m props : Fields) → (check_closed path m props ≡ none) ↔ Closed m props
unfolding check_closed
check_closed-none_iff path Json.end props = (λ h. tt, λ h. refl)
check_closed-none_iff path (Json.field n v m) props =
    ground (arith, has_field_iff n props, check_closed-none_iff path m props)

pub or_error-none_iff :
    (a b : Option SchemaError) → (or_error a b ≡ none) ↔ ((a ≡ none) × (b ≡ none))
or_error-none_iff none b = ground arith
or_error-none_iff (some e) b = ground arith

-- A check that runs only under a test, and checks that run one after the other.
pub when_iff :
    {T Q : Type 0} (b : Bool) (o : Option SchemaError)
    → (b ≡ true) ↔ T
    → (o ≡ none) ↔ Q
    → ((if b then o else none) ≡ none) ↔ (T → Q)
when_iff true o t q = (λ h x. q.0 h, λ f. q.1 (f (t.0 refl)))
when_iff false o t q = (λ h x. absurd (ground (arith, t.1 x)), λ f. refl)

pub both_iff :
    {P Q : Type 0} (a b : Option SchemaError)
    → (a ≡ none) ↔ P
    → (b ≡ none) ↔ Q
    → (or_error a b ≡ none) ↔ (P × Q)
both_iff a b p q =
    let o = or_error-none_iff a b in
    (λ h. (p.0 (o.0 h).0, q.0 (o.0 h).1), λ h. o.1 (p.1 h.0, q.1 h.1))

pub three_iff :
    {P Q R : Type 0} (a b c : Option SchemaError)
    → (a ≡ none) ↔ P
    → (b ≡ none) ↔ Q
    → (c ≡ none) ↔ R
    → (or_error a (or_error b c) ≡ none) ↔ (P × Q × R)
three_iff a b c p q r =
    let o = both_iff a (or_error b c) p (both_iff b c q r) in
    (λ h. let x = o.0 h in (x.0, x.1.0, x.1.1), λ h. o.1 (h.0, (h.1, h.2)))
