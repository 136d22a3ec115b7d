-- ===== src/Graph/Checker/Axioms.antt =====
-- When an axiom is satisfied (check_axiom, src/umcm/graph/checker.py).
use com_mcm.Prelude.{
  ◌≡◌, refl, sym, ◌↔◌, inl, inr, Bool, true, false, List, [], ◌∷◌, Memᴰ, Memᴰ-filter, Memᴰ-sorted,
  String, sorted, filter, text_eq_instance, beq_refl, subst,
}
use Prim.Native.String.{◌++◌ as text_append}
use mathlib.Core.List.Memᴰ
use com_mcm.Errors.{ok}
use com_mcm.Graph.Relation.{Relation, Edge, truthy, union_relations, edge_leb}
use com_mcm.Graph.Relation.Algebra.{IsValid, Returns, union_relations_lem, truthy-append}
use com_mcm.Graph.Relation.Closure.{Chain}
use com_mcm.Graph.Cycle.{all_edges}
use com_mcm.Graph.Cycle.Verdict.{find_labeled_cycle_lem, IsCycle-Chain}
use com_mcm.Graph.Checker.{
  AxiomSpec, AxiomKind, acyclic, irreflexive, empty, AxiomResult, satisfied, is_empty,
  check_relations, edges_result, is_loop, status_if,
}

-- What an axiom of each kind asks of the union of its relations.
pub Holds : AxiomKind → List Relation → Type 0
Holds acyclic rs = (a : String) → ¬ Chain (all_edges rs) a a
Holds irreflexive rs = (a : String) → ¬ ((r : Relation) × Memᴰ r rs × Memᴰ (a, a) r.edges)
Holds empty rs = (e : Edge) → ¬ ((r : Relation) × Memᴰ r rs × Memᴰ e r.edges)

empty_iff {ℓ} : {A : Type ℓ} (xs : List A) → (is_empty xs ≡ true) ↔ ((x : A) → ¬ Memᴰ x xs)
empty_iff [] = (λ h x m. Memᴰ.not-nil m, λ h. refl)
empty_iff (x ∷ xs) = (λ h. cc, λ h. absurd (h x (Memᴰ.head refl)))

status_iff : (b : Bool) → (status_if b ≡ satisfied) ↔ (b ≡ true)
status_iff true = (λ h. refl, λ h. refl)
status_iff false = (λ h. cc, λ h. cc)

prefixed : (s : String) → truthy (text_append "axiom:" s) ≡ true
prefixed s = truthy-append "axiom:" s refl

-- The status of `edges_result` over the sorted edges, when they have no member.
pub edges_status :
    (spec : AxiomSpec) (es : List Edge)
    → ((edges_result spec (sorted edge_leb es)).status ≡ satisfied) ↔ ((e : Edge) → ¬ Memᴰ e es)
edges_status spec es = (
  λ h e m.
      (empty_iff (sorted edge_leb es)).0 ((status_iff (is_empty (sorted edge_leb es))).0 h) e
        ((Memᴰ-sorted edge_leb e es).1 m),
  λ h.
      (status_iff (is_empty (sorted edge_leb es))).1
        ((empty_iff (sorted edge_leb es)).1 (λ e m. h e ((Memᴰ-sorted edge_leb e es).0 m))),
)

-- `check_relations` returns a result, whose status says whether the axiom holds.
abbrev pub Decides : AxiomSpec → List Relation → Type 0
Decides spec rs =
    (result : AxiomResult) × (check_relations spec rs ≡ ok result)
    × ((result.status ≡ satisfied) ↔ Holds spec.kind rs)

Decides-acyclic :
    (name : String) (names : List String) (rs : List Relation)
    → Decides (record { name = name; kind = acyclic; relations = names }) rs
unfolding check_relations Holds
Decides-acyclic name names rs = elim (find_labeled_cycle_lem rs) [
  | inl (es, p, c) ↦
      let (a, k) = IsCycle-Chain rs es c in rw p (_, refl, (λ h. cc, λ h. absurd (h a k)))
  | inr (s, p, n) ↦ rw p (_, refl, (λ h. n, λ h. refl))
]

module _ (name : String) (names : List String) (rs : List Relation)
    (v : (r : Relation) → Memᴰ r rs → IsValid r) where
  combined :
      Returns
        (union_relations (text_append "axiom:" name) rs)
        (λ e. (r : Relation) × Memᴰ r rs × Memᴰ e r.edges)
  combined = union_relations_lem (text_append "axiom:" name) rs (prefixed name) v

  Decides-irreflexive : Decides (record { name = name; kind = irreflexive; relations = names }) rs
  unfolding check_relations Holds
  Decides-irreflexive = rw combined.returned (
    edges_result spec (sorted edge_leb loops),
    refl,
    (
      λ h a m.
          (edges_status spec loops).0 h (a, a)
            ((Memᴰ-filter is_loop (a, a) combined.relation.edges).1
              ((combined.members (a, a)).1 m, beq_refl a)),
      λ h. (edges_status spec loops).1 (λ (a, b) m.
          let (k, t) = (Memᴰ-filter is_loop (a, b) combined.relation.edges).0 m in
          let p = (text_eq_instance.beq_iff a b).0 t in
          h a (
            (combined.members (a, a)).0
              (subst (λ z. Memᴰ (a, z) combined.relation.edges) (sym p) k))),
    ),
  )
    where
      spec : AxiomSpec
      spec = record { name = name; kind = irreflexive; relations = names }

      loops : List Edge
      loops = filter is_loop combined.relation.edges

  Decides-empty : Decides (record { name = name; kind = empty; relations = names }) rs
  unfolding check_relations Holds
  Decides-empty = rw combined.returned (
    edges_result spec (sorted edge_leb combined.relation.edges),
    refl,
    (
      λ h e m. (edges_status spec combined.relation.edges).0 h e ((combined.members e).1 m),
      λ h. (edges_status spec combined.relation.edges).1 (λ e m. h e ((combined.members e).0 m)),
    ),
  )
    where
      spec : AxiomSpec
      spec = record { name = name; kind = empty; relations = names }

decides :
    (name : String) (kind : AxiomKind) (names : List String) (rs : List Relation)
    → ((r : Relation) → Memᴰ r rs → IsValid r)
    → Decides (record { name = name; kind = kind; relations = names }) rs
decides name acyclic names rs v = Decides-acyclic name names rs
decides name irreflexive names rs v = Decides-irreflexive name names rs v
decides name empty names rs v = Decides-empty name names rs v

-- On valid relations the check of an axiom raises nothing, and its status is SATISFIED exactly if
-- the union of the relations is acyclic, has no loop, or has no edge, as the kind of the axiom asks.
pub check_relations_lem :
    (spec : AxiomSpec) (rs : List Relation)
    → ((r : Relation) → Memᴰ r rs → IsValid r)
    → (result : AxiomResult) × (check_relations spec rs ≡ ok result)
      × ((result.status ≡ satisfied) ↔ Holds spec.kind rs)
check_relations_lem spec rs v = decides spec.name spec.kind spec.relations rs v
