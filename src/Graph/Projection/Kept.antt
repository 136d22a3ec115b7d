-- ===== src/Graph/Projection/Kept.antt =====
-- Every event's operation is kept (`add` and the loop over the events of project_operations,
-- src/umcm/graph/builder.py).
use com_mcm.Prelude.{
  ◌≡◌, refl, sym, ap, ◌∙◌, subst, String, Option, none, some, List, [], ◌∷◌, ◌++◌, Memᴰ, NoDup, not,
  inl, inr, text_eq_instance,
}
use mathlib.Core.List.{append-nil, append_assoc, map-append}
use mathlib.Core.List.Memᴰ
use com_mcm.Errors.{ok, graph_error, guard, >>=-eq-ok, ok-injective}
use com_mcm.Ir.Event.{EventInstance}
use com_mcm.Ir.Trace.{Trace}
use com_mcm.Graph.Checker.{is_empty}
use com_mcm.Graph.Execution.{MemoryOperation}
use com_mcm.Graph.Model.{ProjectionSpec}
use com_mcm.Graph.Rvwmo.Validate.{Operations, values}
use com_mcm.Graph.Projection.{
  operation_of, add_operation, add_operations, project_operations, concrete_events, add_commits,
}
use com_mcm.Graph.Projection.Origin.{IsFrom, operation_of-IsFrom}
use com_mcm.Graph.Projection.Distinct.{ids_in, add_operation-new, project_operations-Keyed}

module _ (projection : ProjectionSpec) (commits : List (String × EventInstance)) where
  -- The operations of the events, one for each event that has one, in the order of the events.
  pub data Projects : List EventInstance → List MemoryOperation → Type 0 where
    done : Projects [] []
    skip :
        {event : EventInstance} {events : List EventInstance} {ops : List MemoryOperation}
        → operation_of projection commits event ≡ ok none
        → Projects events ops
        → Projects (event ∷ events) ops
    keep :
        {event : EventInstance} {op : MemoryOperation} {events : List EventInstance}
        {ops : List MemoryOperation}
        → operation_of projection commits event ≡ ok (some op)
        → Projects events ops
        → Projects (event ∷ events) (op ∷ ops)

  values-concat :
      (operations : Operations) (key : String) (op : MemoryOperation) (ops : List MemoryOperation)
      → values (operations ++ ((key, op) ∷ [])) ++ ops ≡ values operations ++ (op ∷ ops)
  values-concat operations key op ops =
      ap (λ z. z ++ ops) (map-append (λ item. item.1) operations ((key, op) ∷ []))
      ∙ append_assoc (values operations) (op ∷ []) ops

  add_operations-Projects :
      (events : List EventInstance) (operations rest : Operations)
      → add_operations projection commits events operations ≡ ok rest
      → (ops : List MemoryOperation) × (values rest ≡ values operations ++ ops)
        × Projects events ops
  unfolding add_operations add_operation
  add_operations-Projects [] operations rest h =
      ([], sym (ap values (ok-injective h)) ∙ sym (append-nil (values operations)), done)
  add_operations-Projects (event ∷ events) operations rest h =
      let (op, p, h₁) = >>=-eq-ok (operation_of projection commits event) _ h in
      let (next, q, h₂) = >>=-eq-ok (add_operation op operations) _ h₁ in
      let (ops, e, k) = add_operations-Projects events next rest h₂ in go op p next q ops e k
    where
      go :
          (op : Option MemoryOperation)
          → operation_of projection commits event ≡ ok op
          → (next : Operations) → add_operation op operations ≡ ok next
          → (ops : List MemoryOperation) → values rest ≡ values next ++ ops
          → Projects events ops
          → (os : List MemoryOperation) × (values rest ≡ values operations ++ os)
            × Projects (event ∷ events) os
      go none p next q ops e k =
          (ops, subst (λ z. values rest ≡ values z ++ ops) (sym (ok-injective q)) e, skip p k)
      go (some op) p next q ops e k =
          let (n, new) = add_operation-new op operations next q in
          (
            op ∷ ops,
            subst (λ z. values rest ≡ values z ++ ops) (sym new) e
                ∙ values-concat operations op.id op ops,
            keep p k,
          )

module _ (projection : ProjectionSpec) (commits : List (String × EventInstance)) where
  Projects-IsFrom :
      (events : List EventInstance) (ops : List MemoryOperation)
      → Projects projection commits events ops
      → (op : MemoryOperation) → Memᴰ op ops
      → (event : EventInstance) × Memᴰ event events × IsFrom projection event op
  Projects-IsFrom [] [] done op m = absurd (Memᴰ.not-nil m)
  Projects-IsFrom [] (o ∷ ops) k op m = elim k [ ]
  Projects-IsFrom (event ∷ events) ops (skip p k) op m =
      let (e, l, f) = Projects-IsFrom events ops k op m in (e, Memᴰ.tail l, f)
  Projects-IsFrom (event ∷ events) (o ∷ ops) (keep p k) op m = elim (Memᴰ.cases_cons m) [
    | inl q ↦ (
      event,
      Memᴰ.head refl,
      operation_of-IsFrom projection event commits op (p ∙ ap (λ z. ok (some z)) (sym q)),
    )
    | inr n ↦ let (e, l, f) = Projects-IsFrom events ops k op n in (e, Memᴰ.tail l, f)
  ]

-- If project_operations returns, the operations are those of the concrete events, one for each
-- event that has one and in the order of the events; their ids differ, so no operation replaces
-- another; and each has as its id the id field of a concrete event and names that event.
pub project_operations-Projects :
    (trace : Trace) (projection : ProjectionSpec) (operations : Operations)
    → project_operations trace projection ≡ ok operations
    → (events : List EventInstance) × (concrete_events trace.events ≡ ok events)
      × (commits : List (String × EventInstance)) × (add_commits projection events [] ≡ ok commits)
      × Projects projection commits events (values operations)
      × NoDup (ids_in (values operations))
      × ((op : MemoryOperation)
          → Memᴰ op (values operations)
          → (event : EventInstance) × Memᴰ event events × IsFrom projection event op)
unfolding project_operations
project_operations-Projects trace projection operations h =
    let (events, a, h₁) = >>=-eq-ok (concrete_events trace.events) _ h in
    let (commits, b, h₂) = >>=-eq-ok (add_commits projection events []) _ h₁ in
    let (all_operations, c, h₃) = >>=-eq-ok (add_operations projection commits events []) _ h₂ in
    let (u, d, h₄) = >>=-eq-ok (guard (not (is_empty all_operations)) graph_error) _ h₃ in
    let (ops, e, k) = add_operations-Projects projection commits events [] all_operations c in
    let projects =
      subst (Projects projection commits events) (sym e ∙ ap values (ok-injective h₄)) k in
    (
      events,
      a,
      commits,
      b,
      projects,
      (project_operations-Keyed trace projection operations h).distinct,
      Projects-IsFrom projection commits events (values operations) projects,
    )
