-- ===== src/Graph/Projection/Origin.antt =====
-- Where the operation of an event comes from (the branches of the loop of project_operations,
-- src/umcm/graph/builder.py).
use com_mcm.Prelude.{
  ◌≡◌, refl, subst, String, Bool, Option, none, some, List, not, Option-cases, inl, inr, ◌⊎◌, true,
  false, lookup, ◌==◌, ◌||◌, some-injective, text_eq_instance, if◌then◌else◌,
}
use com_mcm.Errors.{Result, ok, ◌>>=◌, ◌>>◌, graph_error, guard, >>=-eq-ok, ok-injective}
use com_mcm.Ir.Event.{EventInstance}
use com_mcm.Graph.Execution.{MemoryOperation, make_operation}
use com_mcm.Graph.Model.{ProjectionSpec, is_named}
use com_mcm.Graph.Projection.{
  operation_of, text_field, field_of, int_field, init_operation, store_operation, amo_operation,
  load_operation, committed,
}

-- Where an operation comes from: its id is the text of the event's field for it.
abbrev pub IsFrom : ProjectionSpec → EventInstance → MemoryOperation → Type 0
IsFrom projection event op =
    (text_field event projection.id_field ≡ ok op.id) × (op.source_event_id ≡ event.id)

-- What holds of the operation that is returned, if one is.
record Returns (P : MemoryOperation → Type 0) (result : Result MemoryOperation) : Type 0 where
  law : (op : MemoryOperation) → result ≡ ok op → P op

>>=-Returns {u} :
    {A : Type u} {P : MemoryOperation → Type 0} (first : Result A)
    {next : A → Result MemoryOperation}
    → ((a : A) → first ≡ ok a → Returns P (next a))
    → Returns P (first >>= next)
>>=-Returns first {next = next} k = record {
  law = λ op h. let (a, p, q) = >>=-eq-ok first next h in (k a p).law op q;
}

guard-Returns :
    {P : MemoryOperation → Type 0} (valid : Bool) (op : MemoryOperation)
    → P op
    → Returns P (guard valid graph_error >> ok op)
guard-Returns {P = P} valid op k = record {
  law =
      λ o h. let (u, p, e) = >>=-eq-ok (guard valid graph_error) _ h in subst P (ok-injective e) k;
}

if-cases {ℓ} :
    {A : Type ℓ} (test : Bool) {x y z : A} → (if test then x else y) ≡ z → (x ≡ z) ⊎ (y ≡ z)
if-cases true h = inl h
if-cases false h = inr h

none_not_some :
    (op : MemoryOperation) → ◌≡◌ {A = Result (Option MemoryOperation)} (ok none) (ok (some op)) → ⊥
none_not_some op h = cc

module _ (projection : ProjectionSpec) (event : EventInstance) where
  init_operation-IsFrom : Returns (IsFrom projection event) (init_operation projection event)
  unfolding init_operation make_operation
  init_operation-IsFrom = >>=-Returns (text_field event projection.id_field) (λ op_id a.
      >>=-Returns (field_of event projection.address_field) (λ address b.
        >>=-Returns (field_of event projection.value_field) (λ v c. guard-Returns _ _ (a, refl))))

  store_operation-IsFrom : Returns (IsFrom projection event) (store_operation projection event)
  unfolding store_operation make_operation
  store_operation-IsFrom = >>=-Returns (text_field event projection.id_field) (λ op_id a.
      >>=-Returns (field_of event projection.address_field) (λ address b.
        >>=-Returns (field_of event projection.value_field) (λ v c.
          >>=-Returns (int_field event projection.hart_field) (λ hart d.
            >>=-Returns (int_field event projection.program_index_field)
              (λ index e. guard-Returns _ _ (a, refl))))))

  amo_operation-IsFrom :
      (op_id : String) (commit : EventInstance)
      → text_field event projection.id_field ≡ ok op_id
      → Returns (IsFrom projection event) (amo_operation projection event op_id commit)
  unfolding amo_operation make_operation
  amo_operation-IsFrom op_id commit a =
      >>=-Returns (field_of event projection.address_field) (λ address b.
        >>=-Returns (field_of commit projection.value_field) (λ v c.
          >>=-Returns (field_of event projection.write_value_field) (λ stored f.
            >>=-Returns (int_field event projection.hart_field) (λ hart d.
              >>=-Returns (int_field event projection.program_index_field)
                (λ index e. guard-Returns _ _ (a, refl))))))

  load_operation-IsFrom :
      (op_id : String) (commit : EventInstance)
      → text_field event projection.id_field ≡ ok op_id
      → Returns (IsFrom projection event) (load_operation projection event op_id commit)
  unfolding load_operation make_operation
  load_operation-IsFrom op_id commit a =
      >>=-Returns (field_of commit projection.value_field) (λ v b.
        >>=-Returns (field_of event projection.address_field) (λ address c.
          >>=-Returns (int_field event projection.hart_field) (λ hart d.
            >>=-Returns (int_field event projection.program_index_field)
              (λ index e. guard-Returns _ _ (a, refl)))))

  some_Returns :
      {P : MemoryOperation → Type 0} (result : Result MemoryOperation) (op : MemoryOperation)
      → Returns P result
      → (result >>= λ o. ok (some o)) ≡ ok (some op)
      → P op
  some_Returns {P = P} result op k h =
      let (o, p, q) = >>=-eq-ok result (λ o. ok (some o)) h in
      subst P (some-injective (ok-injective q)) (k.law o p)

  committed-IsFrom :
      (commits : List (String × EventInstance))
      (operation : String → EventInstance → Result MemoryOperation) (op : MemoryOperation)
      → ((op_id : String) (commit : EventInstance)
          → text_field event projection.id_field ≡ ok op_id
          → Returns (IsFrom projection event) (operation op_id commit))
      → committed projection commits event operation ≡ ok (some op)
      → IsFrom projection event op
  unfolding committed
  committed-IsFrom commits operation op k h =
      let (op_id, a, h₁) = >>=-eq-ok (text_field event projection.id_field) _ h in
      elim (Option-cases (lookup op_id commits)) [
        | inl n ↦
            let (u, p, q) =
              >>=-eq-ok (guard (not projection.require_committed_loads) graph_error) _
                (rw n at h₁) in
            absurd (none_not_some op q)
        | inr (commit, s) ↦ some_Returns (operation op_id commit) op (k op_id commit a) (rw s at h₁)
      ]

  pub operation_of-IsFrom :
      (commits : List (String × EventInstance)) (op : MemoryOperation)
      → operation_of projection commits event ≡ ok (some op)
      → IsFrom projection event op
  unfolding operation_of
  operation_of-IsFrom commits op h =
      elim (if-cases (event.event_type == projection.init_write_event) h) [
        | inl h₁ ↦ some_Returns (init_operation projection event) op init_operation-IsFrom h₁
        | inr h₁ ↦ elim (if-cases (is_named projection.amo_event event.event_type) h₁) [
          | inl h₂ ↦
              committed-IsFrom commits (amo_operation projection event) op amo_operation-IsFrom h₂
          | inr h₂ ↦
              elim (if-cases
                (event.event_type == projection.store_event
                  || is_named projection.sc_event event.event_type)
                h₂) [
                  | inl h₃ ↦
                      some_Returns (store_operation projection event) op store_operation-IsFrom h₃
                  | inr h₃ ↦
                      elim (if-cases
                        (event.event_type == projection.load_event
                          || is_named projection.lr_event event.event_type)
                        h₃) [
                          | inl h₄ ↦
                              committed-IsFrom commits (load_operation projection event) op
                                load_operation-IsFrom h₄
                          | inr h₄ ↦ absurd (none_not_some op h₄)
                        ]
                ]
        ]
      ]
