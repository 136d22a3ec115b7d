-- ===== src/Graph/Builder/Derived.antt =====
-- What a derived relation holds (_derive_relation, src/umcm/graph/builder.py).
use com_mcm.Prelude.{◌≡◌, refl, sym, subst, String, true, some, List, [], ◌∷◌, Memᴰ, length, nat_eq}
use com_mcm.Graph.Relation.{Relation, Edge, truthy, transitive_closure}
use com_mcm.Graph.Relation.Algebra.{
  IsValid, Returns, union_relations_lem, intersection_lem, difference_lem, inverse_lem, compose_lem,
}
use com_mcm.Graph.Relation.Closure.{Chain, transitive_closure_lem}
use com_mcm.Graph.Builder.{
  DerivedOp, union_op, intersection_op, difference_op, inverse_op, compose_op, closure_op,
  arity_is_valid, apply_op, finished_closure,
}

-- The edges that each operation asks for.
pub Means : DerivedOp → List Relation → Edge → Type 0
Means union_op rs e = (r : Relation) × Memᴰ r rs × Memᴰ e r.edges
Means intersection_op (r ∷ (s ∷ rs)) e = Memᴰ e r.edges × Memᴰ e s.edges
Means difference_op (r ∷ (s ∷ rs)) e = Memᴰ e r.edges × ¬ Memᴰ e s.edges
Means inverse_op (r ∷ rs) (a, b) = Memᴰ (b, a) r.edges
Means compose_op (r ∷ (s ∷ rs)) (a, c) = (b : String) × Memᴰ (a, b) r.edges × Memᴰ (b, c) s.edges
Means closure_op (r ∷ rs) (a, b) = Chain r.edges a b
Means op rs e = ⊥

module _ (name : String) (nodes : List String) where
  closure_returns :
      (r : Relation)
      → IsValid r
      → Returns
          (finished_closure (transitive_closure nodes (some name) r))
          (λ (a, b). Chain r.edges a b)
  closure_returns r v =
      let (result, p, q) = transitive_closure_lem nodes (some name) r v in
      subst (λ z. Returns (finished_closure z) (λ (a, b). Chain r.edges a b)) (sym p) q

  -- On valid relations, of the number that DerivedRelationSpec asks for, and under a non-empty name, a
  -- derived relation is made without an exception, is valid, and holds the edges that its operation
  -- asks for: the union, intersection, difference, inverse, composition or transitive closure.
  pub apply_op_lem :
      (op : DerivedOp) (rs : List Relation)
      → truthy name ≡ true
      → arity_is_valid op (length rs) ≡ true
      → ((r : Relation) → Memᴰ r rs → IsValid r)
      → Returns (apply_op op name nodes rs) (Means op rs)
  unfolding apply_op Means
  apply_op_lem union_op rs n a v = union_relations_lem name rs n v
  apply_op_lem intersection_op (r ∷ (s ∷ rs)) n a v =
      intersection_lem (some name) r s (v r (Memᴰ.head refl))
  apply_op_lem difference_op (r ∷ (s ∷ rs)) n a v =
      difference_lem (some name) r s (v r (Memᴰ.head refl))
  apply_op_lem compose_op (r ∷ (s ∷ rs)) n a v =
      compose_lem (some name) r s (v r (Memᴰ.head refl)) (v s (Memᴰ.tail (Memᴰ.head refl)))
  apply_op_lem inverse_op (r ∷ rs) n a v = inverse_lem (some name) r (v r (Memᴰ.head refl))
  apply_op_lem closure_op (r ∷ rs) n a v = closure_returns r (v r (Memᴰ.head refl))
  apply_op_lem intersection_op [] n a v = cc
  apply_op_lem intersection_op (r ∷ []) n a v = cc
  apply_op_lem difference_op [] n a v = cc
  apply_op_lem difference_op (r ∷ []) n a v = cc
  apply_op_lem compose_op [] n a v = cc
  apply_op_lem compose_op (r ∷ []) n a v = cc
  apply_op_lem inverse_op [] n a v = cc
  apply_op_lem closure_op [] n a v = cc
