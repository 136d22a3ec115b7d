-- ===== src/Solver/Evaluator/Traces.antt =====
-- What a constraint of a validated trace reads (src/umcm/ir/trace.py, src/umcm/ir/event.py, and
-- `event_attribute` of src/umcm/solver/evaluator.py).
use com_mcm.Prelude.{
  ◌≡◌, refl, sym, ◌∙◌, ap, subst, ◌⊎◌, inl, inr, String, Bool, true, false, ◌||◌, Option, none,
  some, List, [], ◌∷◌, Memᴰ, Memᴰ-flat_map, Memᴰ-lookup, some-injective, flat_map, all, all_iff,
  lookup, ◌==◌, text_eq_instance, Bool-cases, and-left, and-right,
}
use mathlib.Core.List.Memᴰ
use com_mcm.Errors.{
  ok-injective, ok, err, trace_validation_error, guard, guard-eq-ok, ◌>>◌, >>=-eq-ok,
}
use com_mcm.Ir.Sort.{
  bool, int, text, null, Sort, accepts_literal, compatible_with_iff, int_sort, bool_sort,
}
use com_mcm.Ir.Expression.{Expr, FieldRef, iter_event_fields}
use com_mcm.Ir.Event.{
  Attribute, value, expression, EventInstance, EventType, FieldSpec, EventCatalog, resolve,
  find_field, fits_sort, fits_field, instance_is_valid, validate_against, validate_events,
  cycle_is_valid, occurs_is_valid,
}
use com_mcm.Ir.Trace.{
  Trace, get, get_or_raise, expected_sort, validate_reference, validate_references, validate,
  structure_is_valid,
}
use com_mcm.Solver.Evaluator.{select, cycle_or_none}

Memᴰ-get :
    (events : List EventInstance) (i : String) (event : EventInstance)
    → get events i ≡ some event
    → Memᴰ event events
unfolding get
Memᴰ-get [] i event h = cc
Memᴰ-get (e ∷ events) i event h = elim (Bool-cases (e.id == i)) [
  | inl y ↦ let p : some e ≡ some event = rw y at h in Memᴰ.head (sym (some-injective p))
  | inr n ↦ let p : get events i ≡ some event = rw n at h in Memᴰ.tail (Memᴰ-get events i event p)
]

validated_event :
    (catalog : EventCatalog) (events : List EventInstance) (partial : Bool)
    → validate_events catalog events partial ≡ ok tt
    → (event : EventInstance) → Memᴰ event events
    → (t : EventType) × (resolve catalog event.event_type ≡ ok t)
      × (validate_against event t partial ≡ ok tt)
unfolding validate_events
validated_event catalog [] partial h event m = absurd (Memᴰ.not-nil m)
validated_event catalog (e ∷ events) partial h event m =
    let (t, p, h₁) = >>=-eq-ok (resolve catalog e.event_type) _ h in
    let (u, q, h₂) = >>=-eq-ok (validate_against e t partial) _ h₁ in
    elim (Memᴰ.cases_cons m) [
      | inl same ↦
          subst
            (λ z.
              (t : EventType) × (resolve catalog z.event_type ≡ ok t)
              × (validate_against z t partial ≡ ok tt))
            (sym same) (t, p, q)
      | inr k ↦ validated_event catalog events partial h₂ event k
    ]

-- What a field holds is of the sort that the type of the event declares.
declared_fits :
    (event : EventInstance) (t : EventType) (partial : Bool) (name : String) (a : Attribute)
    → validate_against event t partial ≡ ok tt
    → lookup name event.fields ≡ some a
    → fits_field t.fields (name, a) ≡ true
unfolding validate_against
declared_fits event t partial name a h l =
    let (u, p, h₁) =
      >>=-eq-ok
        (guard (event.event_type == t.name) trace_validation_error
          >> guard (partial || all _ t.fields) trace_validation_error)
        _ h in
    (all_iff (fits_field t.fields) event.fields).0 (guard-eq-ok _ trace_validation_error h₁)
      (name, a) (Memᴰ-lookup name a event.fields l)

validated_reference :
    (catalog : EventCatalog) (events : List EventInstance) (rs : List FieldRef)
    → validate_references catalog events rs ≡ ok tt
    → (r : FieldRef) → Memᴰ r rs
    → validate_reference catalog events r ≡ ok tt
unfolding validate_references
validated_reference catalog events [] h r m = absurd (Memᴰ.not-nil m)
validated_reference catalog events (q ∷ rs) h r m =
    let (u, p, h₁) = >>=-eq-ok (validate_reference catalog events q) _ h in
    elim (Memᴰ.cases_cons m) [
      | inl same ↦ ap (validate_reference catalog events) same ∙ p
      | inr k ↦ validated_reference catalog events rs h₁ r k
    ]

-- A value or an expression of the sort, or the missing cycle.
abbrev pub Fits : Sort → String → Attribute → Type 0
Fits s name a = (fits_sort s a ≡ true) ⊎ ((name ≡ "cycle") × (a ≡ value null))

occurs_fit : (a : Attribute) → occurs_is_valid a ≡ true → fits_sort bool_sort a ≡ true
unfolding fits_sort accepts_literal
occurs_fit (value v) h = h
occurs_fit (expression e) h = h

cycle-Fits :
    (c : Option Attribute) → cycle_is_valid c ≡ true → Fits int_sort "cycle" (cycle_or_none c)
unfolding fits_sort accepts_literal
cycle-Fits none h = inr (refl, refl)
cycle-Fits (some (value (int i))) h = inl refl
cycle-Fits (some (value (bool b))) h = absurd cc
cycle-Fits (some (value (text t))) h = absurd cc
cycle-Fits (some (value null)) h = absurd cc
cycle-Fits (some (expression e)) h = inl h

-- What a declared field holds is of the sort that a reference to it has to have.
field_fit :
    (o : Option FieldSpec) (a : Attribute) (s : Sort)
    → (elim o [ none ↦ false | some spec ↦ fits_sort spec.sort a ]) ≡ true
    → (elim o [ none ↦ err trace_validation_error | some spec ↦ ok spec.sort ]) ≡ ok s
    → fits_sort s a ≡ true
field_fit none a s h q = absurd cc
field_fit (some spec) a s h q = subst (λ z. fits_sort z a ≡ true) (ok-injective q) h

-- The attribute of an event that a validated reference reads.
reads_fit :
    (catalog : EventCatalog) (event : EventInstance) (t : EventType) (partial : Bool)
    (name : String) (s : Sort)
    → instance_is_valid event ≡ true
    → resolve catalog event.event_type ≡ ok t
    → validate_against event t partial ≡ ok tt
    → expected_sort catalog event name ≡ ok s
    → (a : Attribute) → select name event ≡ some a
    → Fits s name a
unfolding expected_sort select instance_is_valid fits_field
reads_fit catalog event t partial name s v p q h a l = elim (Bool-cases (name == "cycle")) [
  | inl y ↦
      let w = and-right _ _ (and-left _ _ v) in
      let is : name ≡ "cycle" = (text_eq_instance.beq_iff name "cycle").0 y in
      let g =
        subst (λ z. Fits int_sort z (cycle_or_none event.cycle)) (sym is)
          (cycle-Fits event.cycle w) in
      let e : ok int_sort ≡ ok s = rw y at h in
      let k : some (cycle_or_none event.cycle) ≡ some a = rw is at l in
      subst (λ z. Fits z name a) (ok-injective e)
        (subst (λ z. Fits int_sort name z) (some-injective k) g)
  | inr n ↦ elim (Bool-cases (name == "occurs")) [
    | inl y ↦
        let e : ok bool_sort ≡ ok s = rw (n, y) at h in
        let k : some event.occurs ≡ some a = rw y at l in
        inl (
          subst (λ z. fits_sort z a ≡ true) (ok-injective e)
            (subst (λ z. fits_sort bool_sort z ≡ true) (some-injective k)
              (occurs_fit event.occurs (and-right _ _ v))))
    | inr m ↦
        let k : lookup name event.fields ≡ some a = rw (m, n) at l in
        let e : (elim (find_field name t.fields) [
          | none ↦ err trace_validation_error
          | some spec ↦ ok spec.sort
        ])
            ≡ ok s =
          rw (n, m, p) at h in
        inl (field_fit (find_field name t.fields) a s (declared_fits event t partial name a q k) e)
  ]
]

get_or_raise-some :
    (o : Option EventInstance) (event : EventInstance) → get_or_raise o ≡ ok event → o ≡ some event
get_or_raise-some none event h = absurd cc
get_or_raise-some (some e) event h = ap some (ok-injective h)

-- In a trace that `validate` accepts, whose events its constructor accepted: each event field that a
-- constraint refers to is of an event of the trace, and what `event_attribute` reads there, if
-- anything, is a value or an expression of the sort of the reference, except that a missing cycle
-- is read as None.
pub validate-Fits :
    (t : Trace) (catalog : EventCatalog) (partial : Bool)
    → ((event : EventInstance) → Memᴰ event t.events → instance_is_valid event ≡ true)
    → validate t catalog partial ≡ ok tt
    → (c : Expr) → Memᴰ c t.constraints
    → (i name : String) (s : Sort) → Memᴰ (i, name, s) (iter_event_fields c)
    → (event : EventInstance) × (get t.events i ≡ some event)
      × ((a : Attribute) → select name event ≡ some a → Fits s name a)
unfolding validate validate_reference
validate-Fits t catalog partial v h c m i name s k =
    let (u, p, h₁) =
      >>=-eq-ok
        (guard (structure_is_valid t) trace_validation_error
          >> validate_events catalog t.events partial)
        _ h in
    let (u, q, h₂) = >>=-eq-ok (guard (structure_is_valid t) trace_validation_error) _ p in
    let r =
      validated_reference catalog t.events (flat_map iter_event_fields t.constraints) h₁
        (i, name, s) ((Memᴰ-flat_map iter_event_fields (i, name, s) t.constraints).1 (c, m, k)) in
    let (event, g, r₁) = >>=-eq-ok (get_or_raise (get t.events i)) _ r in
    let (z, e, r₂) = >>=-eq-ok (expected_sort catalog event name) _ r₁ in
    let o = get_or_raise-some (get t.events i) event g in
    let n = Memᴰ-get t.events i event o in
    let (et, a, b) = validated_event catalog t.events partial h₂ event n in
    let same = (compatible_with_iff s z).0 (guard-eq-ok _ trace_validation_error r₂) in
    (
      event,
      o,
      λ x l.
          subst (λ z. Fits z name x) (sym same)
            (reads_fit catalog event et partial name z (v event n) a b e x l),
    )
