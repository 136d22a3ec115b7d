-- ===== src/Graph/Enumeration.antt =====
-- The graphs of a trace: `iter_execution_graphs` of src/umcm/graph/builder.py. The generator is the
-- list of what it yields, or the first exception. Of the metadata of a graph only the name of the
-- model is kept. `repr` of addresses and hints, which only orders them, is an argument.
pub mod Count
use com_mcm.Prelude.{
  lookup, put, ◌≡◌, String, Bool, true, false, not, ◌&&◌, Option, none, some, List, [], ◌∷◌, ◌++◌,
  ℕ, zero, suc, ◌+◌, map, leb, sorted, text_leb, if◌then◌else◌, ◌==◌, text_eq_instance, flat_map,
  length,
}
use com_mcm.Prelude.Int.{ℤ, pos, leb_ℤ}
use com_mcm.Errors.{Result, ok, err, graph_error, guard, ◌>>=◌, ◌>>◌}
use com_mcm.Ir.Sort.{Value, text, is_none}
use com_mcm.Ir.Trace.{Trace}
use com_mcm.Graph.Relation.{Relation, from_edges, inverse, compose}
use com_mcm.Graph.Execution.{ExecutionGraph, Meta, scalar, make_graph, put_all, ids}
use com_mcm.Graph.Model.{GraphModelSpec}
use com_mcm.Graph.Hints.{CoHintEvidence}
use com_mcm.Graph.Builder.{
  DerivedRelationSpec, derive_relation, po_relation, co_relation, rfe_relation, ppo_relation,
}
use com_mcm.Graph.Candidates.{CandidateSpace, estimated_candidates, build_candidate_space}
use com_mcm.Graph.Rvwmo.Complete.{complete_rvwmo_relations}

-- `product(*choices)`
unfoldable pub product {ℓ} : {A : Type ℓ} → List (List A) → List (List A)
unfolding flat_map
product [] = [] ∷ []
product (choices ∷ rest) = flat_map (λ x. map (λ xs. x ∷ xs) (product rest)) choices

-- `zip(keys, items)` of the same length
abbrev pub zip {ℓ ℓ'} : {A : Type ℓ} {B : Type ℓ'} → List A → List B → List (A × B)
zip (k ∷ keys) (x ∷ items) = (k, x) ∷ zip keys items
zip _ _ = []

-- `relations.update(hints)`
unfoldable pub update_all :
    List (String × Relation) → List (String × Relation) → List (String × Relation)
unfolding put
update_all [] relations = relations
update_all ((name, r) ∷ rest) relations = update_all rest (put name r relations)

abbrev pub graph_metadata : String → String → Option Meta
graph_metadata model key = if key == "graph_model" then some (scalar (text model)) else none

abbrev is_rvwmo : Option String → Bool
is_rvwmo none = false
is_rvwmo (some name) = name == "rvwmo"

-- The loop over the derived relations.
unfoldable pub add_derived :
    List DerivedRelationSpec
    → List String
    → List (String × Relation)
    → Result (List (String × Relation))
unfolding derive_relation lookup put
add_derived [] nodes relations = ok relations
add_derived (spec ∷ specs) nodes relations = derive_relation spec relations nodes >>= λ r.
    guard (is_none (lookup r.name relations)) graph_error
    >> add_derived specs nodes (put r.name r relations)

-- The relations that a candidate starts with. `sources` pairs a read with its write.
unfoldable pub base_relations :
    CandidateSpace
    → List String
    → Relation
    → List (String × String)
    → List (List String)
    → Result (List (String × Relation))
unfolding from_edges co_relation inverse compose rfe_relation ppo_relation put_all update_all
base_relations space rules po sources orders =
    from_edges "rf" (map (λ (r, w). (w, r)) sources) >>= λ rf. co_relation orders >>= λ co.
    inverse (some "rf_inv") rf >>= λ rf_inv. compose (some "fr") rf_inv co >>= λ fr.
    rfe_relation rf space.operations >>= λ rfe.
    ppo_relation po sources space.operations rules >>= λ ppo.
    ok (update_all space.relation_hints (put_all (po ∷ rf ∷ rfe ∷ co ∷ fr ∷ ppo ∷ []) []))

abbrev pub numbered_graph :
    CandidateSpace → ℕ → (String → Option Meta) → List (String × Relation) → ExecutionGraph
numbered_graph space candidate_id metadata relations = record {
  operations = space.operations;
  relations = relations;
  candidate_id = pos candidate_id;
  metadata = metadata;
  schema_version = "umcm.execution_graph.v0.2";
}

abbrev pub complete : Option String → ExecutionGraph → Result ExecutionGraph
complete builtin_model graph =
    if is_rvwmo builtin_model then complete_rvwmo_relations graph else ok graph

-- The body of the inner loop.
unfoldable pub candidate_graph :
    GraphModelSpec
    → CandidateSpace
    → Relation
    → ℕ
    → List (String × String)
    → List (List String)
    → Result ExecutionGraph
unfolding base_relations make_graph complete_rvwmo_relations add_derived
candidate_graph spec space po candidate_id sources orders =
    base_relations space spec.ppo_rules po sources orders >>= λ relations.
    make_graph (numbered_graph space candidate_id (graph_metadata spec.model) relations)
    >>= λ graph. complete spec.builtin_model graph >>= λ completed.
        add_derived spec.derived_relations (ids space.operations) completed.relations
        >>= λ all_relations.
            make_graph (numbered_graph space candidate_id completed.metadata all_relations)

-- The inner loop, over the orders of the writes.
unfoldable pub order_loop :
    GraphModelSpec
    → CandidateSpace
    → Relation
    → ℕ
    → List (String × String)
    → List (List (List String))
    → Result (List ExecutionGraph)
unfolding candidate_graph
order_loop spec space po candidate_id sources [] = ok []
order_loop spec space po candidate_id sources (orders ∷ rest) =
    candidate_graph spec space po candidate_id sources orders >>= λ graph.
    order_loop spec space po (suc candidate_id) sources rest >>= λ graphs. ok (graph ∷ graphs)

-- The outer loop, over the sources of the reads.
unfoldable pub source_loop :
    GraphModelSpec
    → CandidateSpace
    → Relation
    → ℕ
    → List String
    → List (List String)
    → List (List (List String))
    → Result (List ExecutionGraph)
unfolding order_loop
source_loop spec space po candidate_id read_ids [] orders = ok []
source_loop spec space po candidate_id read_ids (writes ∷ rest) orders =
    order_loop spec space po candidate_id (zip read_ids writes) orders >>= λ graphs.
    source_loop spec space po (candidate_id + length orders) read_ids rest orders >>= λ others.
    ok (graphs ++ others)

-- The items of a dict in the order of the texts of their keys.
unfoldable pub items_by {ℓ ℓ'} :
    {K : Type ℓ} {A : Type ℓ'} → (K → String) → List (K × A) → List (K × A)
unfolding sorted
items_by repr items = sorted (λ a b. text_leb (repr a.0) (repr b.0)) items

unfoldable pub iter_graphs :
    (Value → String) → GraphModelSpec → CandidateSpace → Result (List ExecutionGraph)
unfolding items_by product po_relation source_loop
iter_graphs repr spec space =
    let choices = items_by (λ id. id) space.rf_choices in
    let orders = items_by repr space.co_orders in
    po_relation space.operations >>= λ po.
    source_loop spec space po 0 (map (λ item. item.0) choices)
      (product (map (λ item. item.1) choices)) (product (map (λ item. item.1) orders))

unfoldable pub iter_execution_graphs :
    (Value → String)
    → (CoHintEvidence → String)
    → Trace
    → GraphModelSpec
    → ℤ
    → Result (List ExecutionGraph)
unfolding build_candidate_space estimated_candidates iter_graphs
iter_execution_graphs repr repr_hint trace spec max_candidates =
    guard (leb_ℤ (pos 1) max_candidates) graph_error
    >> (build_candidate_space repr_hint trace spec >>= λ space.
        guard (leb_ℤ (pos (estimated_candidates space)) max_candidates) graph_error
        >> iter_graphs repr spec space)
