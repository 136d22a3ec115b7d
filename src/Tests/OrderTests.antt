-- ===== src/Tests/OrderTests.antt =====
-- The global order of src/umcm/graph/rvwmo.py on three nodes in a row.
use com_mcm.Prelude.{
  ◌≡◌, refl, ◌↔◌, String, some, List, [], ◌∷◌, Memᴰ, to_set, flat_map, text_eq_instance, inl, inr,
  ap, length, NoDup, ◌+◌,
}
use mathlib.Core.List.Memᴰ
use com_mcm.Errors.{ok}
use com_mcm.Graph.Relation.{Relation}
use com_mcm.Graph.Relation.Closure.{Chain}
use com_mcm.Graph.Cycle.{all_edges}
use com_mcm.Graph.Rvwmo.Complete.{topological_total_order, sort_nodes, start_of, edge_set}
use com_mcm.Graph.Rvwmo.Order.Verdict.{
  AreEndsListed, topological_total_order_lem, topological_total_order_iff, sort_nodes_enough,
}
use com_mcm.Graph.Rvwmo.Order.Loop.{Respects}

abbrev row : Relation
row = record { name = "ppo"; edges = ("c", "a") ∷ ("a", "b") ∷ [] }

abbrev nodes : List String
nodes = "a" ∷ "b" ∷ "c" ∷ []

row-order : topological_total_order nodes (row ∷ []) ≡ ok (some ("c" ∷ "a" ∷ "b" ∷ []))
unfolding topological_total_order
row-order = refl

topological_total_order_lem_example :
    NoDup {A = String} ("c" ∷ "a" ∷ "b" ∷ [])
    × ((x : String) → Memᴰ x ("c" ∷ "a" ∷ "b" ∷ []) ↔ Memᴰ x nodes)
    × Respects (all_edges (row ∷ [])) [] ("c" ∷ "a" ∷ "b" ∷ [])
topological_total_order_lem_example =
    topological_total_order_lem nodes (row ∷ []) ("c" ∷ "a" ∷ "b" ∷ []) row-order

a-listed : Memᴰ "a" nodes
a-listed = Memᴰ.head refl

b-listed : Memᴰ "b" nodes
b-listed = Memᴰ.tail (Memᴰ.head refl)

c-listed : Memᴰ "c" nodes
c-listed = Memᴰ.tail (Memᴰ.tail (Memᴰ.head refl))

row-listed : AreEndsListed nodes (row ∷ [])
unfolding flat_map
row-listed u x m = elim (Memᴰ.cases_cons m) [
  | inl e ↦ (Memᴰ.cast (ap (λ p. p.0) e) c-listed, Memᴰ.cast (ap (λ p. p.1) e) a-listed)
  | inr k ↦ elim (Memᴰ.cases_cons k) [
    | inl e ↦ (Memᴰ.cast (ap (λ p. p.0) e) a-listed, Memᴰ.cast (ap (λ p. p.1) e) b-listed)
    | inr n ↦ absurd (Memᴰ.not-nil n)
  ]
]

topological_total_order_iff_example :
    ((order : List String) × (topological_total_order nodes (row ∷ []) ≡ ok (some order)))
    ↔ ((a : String) → ¬ Chain (all_edges (row ∷ [])) a a)
topological_total_order_iff_example = topological_total_order_iff nodes (row ∷ []) row-listed

sort_nodes_enough_example :
    sort_nodes
      (edge_set (row ∷ []))
      (length (to_set nodes) + 2)
      (start_of (to_set nodes) (edge_set (row ∷ [])))
    ≡ sort_nodes
        (edge_set (row ∷ []))
        (length (to_set nodes))
        (start_of (to_set nodes) (edge_set (row ∷ [])))
sort_nodes_enough_example = sort_nodes_enough nodes (row ∷ []) 2 (λ u x m. (row-listed u x m).1)
