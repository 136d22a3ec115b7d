-- ===== src/Graph/Projection/Distinct.antt =====
-- The ids of projected operations differ (`add` of project_operations, src/umcm/graph/builder.py).
use com_mcm.Prelude.{
  lookup, put, ◌≡◌, refl, sym, ap, ◌∙◌, subst, inl, inr, String, Bool, true, not, Option, none,
  some, List, [], ◌∷◌, ◌++◌, map, Memᴰ, Memᴰ-map, NoDup, NoDup-concat, ◌==◌, text_eq_instance,
  Bool-cases, Option-cases, filter, Memᴰ-filter,
}
use mathlib.Core.List.Memᴰ
use com_mcm.Errors.{ok, graph_error, guard, guard-eq-ok, >>=-eq-ok, ok-injective}
use com_mcm.Ir.Sort.{is_none}
use com_mcm.Ir.Event.{EventInstance}
use com_mcm.Ir.Trace.{Trace}
use com_mcm.Graph.Checker.{is_empty}
use com_mcm.Graph.Execution.{MemoryOperation}
use com_mcm.Graph.Model.{ProjectionSpec}
use com_mcm.Graph.Rvwmo.Validate.{Operations, values}
use com_mcm.Graph.Projection.{
  concrete_events, add_commits, operation_of, add_operation, add_operations, project_operations,
}

abbrev pub ids_in : List MemoryOperation → List String
ids_in ops = map (λ op. op.id) ops

-- Each operation stands under its own id, and the ids differ.
pub record Keyed (operations : Operations) : Type 0 where
  pub own : (key : String) (op : MemoryOperation) → Memᴰ (key, op) operations → key ≡ op.id
  pub distinct : NoDup (ids_in (values operations))

not-listed :
    (key : String) (operations : Operations)
    → lookup key operations ≡ none
    → (op : MemoryOperation) → ¬ Memᴰ (key, op) operations
unfolding lookup
not-listed key [] h op m = Memᴰ.not-nil m
not-listed key ((k, o) ∷ rest) h op m = elim (Bool-cases (k == key)) [
  | inl t ↦ let p : some o ≡ none = rw t at h in cc
  | inr f ↦
      let p : lookup key rest ≡ none = rw f at h in
      elim (Memᴰ.cases_cons m) [
        | inl e ↦ let t = (text_eq_instance.beq_iff k key).1 (sym (ap (λ z. z.0) e)) in cc
        | inr n ↦ not-listed key rest p op n
      ]
]

put-new :
    (key : String) (op : MemoryOperation) (operations : Operations)
    → lookup key operations ≡ none
    → put key op operations ≡ operations ++ ((key, op) ∷ [])
unfolding lookup put
put-new key op [] h = refl
put-new key op ((k, o) ∷ rest) h = elim (Bool-cases (k == key)) [
  | inl t ↦ let p : some o ≡ none = rw t at h in absurd cc
  | inr f ↦
      let p : lookup key rest ≡ none = rw f at h in
      rw f (ap (λ z. (k, o) ∷ z) (put-new key op rest p))
]

ids_in-concat :
    (operations : Operations) (key : String) (op : MemoryOperation)
    → ids_in (values (operations ++ ((key, op) ∷ []))) ≡ ids_in (values operations) ++ (op.id ∷ [])
ids_in-concat [] key op = refl
ids_in-concat ((k, o) ∷ rest) key op = ap (λ z. o.id ∷ z) (ids_in-concat rest key op)

Keyed-concat :
    (operations : Operations) (op : MemoryOperation)
    → lookup op.id operations ≡ none
    → Keyed operations
    → Keyed (operations ++ ((op.id, op) ∷ []))
Keyed-concat operations op h k = record {
  own = λ key o m. elim (Memᴰ.append_cases operations m) [
    | inl n ↦ k.own key o n
    | inr n ↦ elim (Memᴰ.cases_cons n) [
      | inl e ↦ ap (λ z. z.0) e ∙ sym (ap (λ z. z.1.id) e)
      | inr l ↦ absurd (Memᴰ.not-nil l)
    ]
  ];
  distinct = subst NoDup (sym (ids_in-concat operations op.id op)) (
      NoDup-concat (ids_in (values operations)) op.id k.distinct (λ m.
        let (o, n, e) = (Memᴰ-map (λ z. z.id) op.id (values operations)).0 m in
        let ((key, o'), l, e') = (Memᴰ-map (λ z. z.1) o operations).0 n in
        let same : (key, o') ≡ (op.id, o') =
          λ i. ((k.own key o' l ∙ ap (λ z. z.id) e' ∙ e) i, o') in
        not-listed op.id operations h o' (Memᴰ.cast (sym same) l)));
}

-- What `add` returns: the id is new, and the operation is the last item.
pub add_operation-new :
    (op : MemoryOperation) (operations rest : Operations)
    → add_operation (some op) operations ≡ ok rest
    → (lookup op.id operations ≡ none) × (operations ++ ((op.id, op) ∷ []) ≡ rest)
unfolding add_operation
add_operation-new op operations rest h =
    let (u, p, h₁) = >>=-eq-ok (guard (is_none (lookup op.id operations)) graph_error) _ h in
    elim (Option-cases (lookup op.id operations)) [
      | inl n ↦ (n, sym (put-new op.id op operations n) ∙ ok-injective h₁)
      | inr (o, s) ↦
          let t : is_none (some o) ≡ true = rw s at (guard-eq-ok _ graph_error p) in absurd cc
    ]

pub Keyed-add_operation :
    (op : Option MemoryOperation) (operations rest : Operations)
    → add_operation op operations ≡ ok rest
    → Keyed operations
    → Keyed rest
unfolding add_operation
Keyed-add_operation none operations rest h k = subst Keyed (ok-injective h) k
Keyed-add_operation (some op) operations rest h k =
    let (n, e) = add_operation-new op operations rest h in
    subst Keyed e (Keyed-concat operations op n k)

Keyed-add_operations :
    (projection : ProjectionSpec) (commits : List (String × EventInstance))
    (events : List EventInstance) (operations rest : Operations)
    → add_operations projection commits events operations ≡ ok rest
    → Keyed operations
    → Keyed rest
unfolding add_operations
Keyed-add_operations projection commits [] operations rest h k = subst Keyed (ok-injective h) k
Keyed-add_operations projection commits (event ∷ events) operations rest h k =
    let (op, p, h₁) = >>=-eq-ok (operation_of projection commits event) _ h in
    let (next, q, h₂) = >>=-eq-ok (add_operation op operations) _ h₁ in
    Keyed-add_operations projection commits events next rest h₂
      (Keyed-add_operation op operations next q k)

-- If project_operations returns, each operation stands under its own id, and the ids differ.
pub project_operations-Keyed :
    (trace : Trace) (projection : ProjectionSpec) (operations : Operations)
    → project_operations trace projection ≡ ok operations
    → Keyed operations
unfolding project_operations
project_operations-Keyed trace projection operations h =
    let (events, a, h₁) = >>=-eq-ok (concrete_events trace.events) _ h in
    let (commits, b, h₂) = >>=-eq-ok (add_commits projection events []) _ h₁ in
    let (all_operations, c, h₃) = >>=-eq-ok (add_operations projection commits events []) _ h₂ in
    let (u, d, h₄) = >>=-eq-ok (guard (not (is_empty all_operations)) graph_error) _ h₃ in
    subst Keyed (ok-injective h₄) (
      Keyed-add_operations projection commits events [] all_operations c
        (record { own = λ key op m. absurd (Memᴰ.not-nil m); distinct = tt }))

pub ids_in-filter :
    (p : MemoryOperation → Bool) (ops : List MemoryOperation)
    → NoDup (ids_in ops)
    → NoDup (ids_in (filter p ops))
unfolding filter
ids_in-filter p [] d = tt
ids_in-filter p (op ∷ ops) d = elim (Bool-cases (p op)) [
  | inl t ↦ rw t (
    λ m.
        let (o, k, e) = (Memᴰ-map (λ z. z.id) op.id (filter p ops)).0 m in
        d.0 ((Memᴰ-map (λ z. z.id) op.id ops).1 (o, ((Memᴰ-filter p o ops).0 k).0, e)),
    ids_in-filter p ops d.1,
  )
  | inr f ↦ rw f (ids_in-filter p ops d.1)
]

pub ids_in-injective :
    (ops : List MemoryOperation)
    → NoDup (ids_in ops)
    → (v w : MemoryOperation) → Memᴰ v ops
    → Memᴰ w ops
    → v.id ≡ w.id
    → v ≡ w
ids_in-injective [] d v w m n e = absurd (Memᴰ.not-nil m)
ids_in-injective (op ∷ ops) d v w m n e =
    let listed : (o : MemoryOperation) → Memᴰ o ops → o.id ≡ op.id → ⊥ =
      λ o k i. d.0 ((Memᴰ-map (λ z. z.id) op.id ops).1 (o, k, i)) in
    elim (Memᴰ.cases_cons m) [
      | inl p ↦ elim (Memᴰ.cases_cons n) [
        | inl q ↦ p ∙ sym q
        | inr l ↦ absurd (listed w l (sym e ∙ ap (λ z. z.id) p))
      ]
      | inr k ↦ elim (Memᴰ.cases_cons n) [
        | inl q ↦ absurd (listed v k (e ∙ ap (λ z. z.id) q))
        | inr l ↦ ids_in-injective ops d.1 v w k l e
      ]
    ]
