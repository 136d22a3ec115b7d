-- ===== src/Tests/GraphTests.antt =====
-- Relations, closure and the cycle search of src/umcm/graph/relation.py on small graphs.
use com_mcm.Prelude.{
  ◌≡◌, refl, ◌⊎◌, String, none, some, List, [], ◌∷◌, Memᴰ, all, to_set, flat_map, filter, sorted,
}
use com_mcm.Errors.{Result, ok, err, graph_error}
use com_mcm.Graph.Relation.{
  Relation, is_valid, from_edges, compose, transitive_closure, successors, endpoints,
}
use com_mcm.Graph.Relation.Algebra.{IsValid, Returns, compose_lem}
use com_mcm.Graph.Relation.Closure.{Chain, transitive_closure_lem}
use com_mcm.Graph.Cycle.{LabeledEdge, State, find_labeled_cycle, found, finished, all_edges}
use com_mcm.Graph.Cycle.Invariant.{IsCycle}
use com_mcm.Graph.Cycle.Verdict.{find_labeled_cycle_lem}

abbrev po : Relation
po = record { name = "po"; edges = ("a", "b") ∷ ("b", "c") ∷ [] }

abbrev fr : Relation
fr = record { name = "fr"; edges = ("c", "a") ∷ ("a", "b") ∷ [] }

po-IsValid : IsValid po
unfolding is_valid all
po-IsValid = refl

fr-IsValid : IsValid fr
unfolding is_valid all
fr-IsValid = refl

empty_name : from_edges "" (("a", "b") ∷ []) ≡ err graph_error
unfolding from_edges
empty_name = refl

compose_runs : compose none po fr ≡ ok (record { name = "po;fr"; edges = ("b", "a") ∷ [] })
unfolding compose all to_set flat_map filter
compose_runs = refl

closure_runs :
    transitive_closure [] none po
    ≡ some (ok (record { name = "po+"; edges = ("b", "c") ∷ ("a", "c") ∷ ("a", "b") ∷ [] }))
unfolding transitive_closure sorted to_set flat_map filter all
closure_runs = refl

cycle_runs :
    find_labeled_cycle (po ∷ fr ∷ [])
    ≡ found (
        record { source = "a"; relation = "po"; target = "b" }
        ∷ record { source = "b"; relation = "po"; target = "c" }
        ∷ record { source = "c"; relation = "fr"; target = "a" }
        ∷ [])
unfolding find_labeled_cycle sorted to_set endpoints flat_map successors filter
cycle_runs = refl

compose_lem_example :
    Returns
      (compose none po fr)
      (λ (a, c). (b : String) × Memᴰ (a, b) po.edges × Memᴰ (b, c) fr.edges)
compose_lem_example = compose_lem none po fr po-IsValid fr-IsValid

transitive_closure_lem_example :
    (result : Result Relation) × (transitive_closure [] none po ≡ some result)
    × Returns result (λ (a, b). Chain po.edges a b)
transitive_closure_lem_example = transitive_closure_lem [] none po po-IsValid

find_labeled_cycle_lem_example :
    ((es : List LabeledEdge) × (find_labeled_cycle (po ∷ fr ∷ []) ≡ found es)
      × IsCycle (po ∷ fr ∷ []) es)
    ⊎ ((t : State) × (find_labeled_cycle (po ∷ fr ∷ []) ≡ finished t)
        × ((a : String) → ¬ Chain (all_edges (po ∷ fr ∷ [])) a a))
find_labeled_cycle_lem_example = find_labeled_cycle_lem (po ∷ fr ∷ [])
