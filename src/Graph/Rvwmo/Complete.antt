-- ===== src/Graph/Rvwmo/Complete.antt =====
-- The derived relations and a global memory order: `_topological_total_order` and
-- `complete_rvwmo_relations` of src/umcm/graph/rvwmo.py.
use com_mcm.Prelude.{
  lookup, put, String, Bool, true, not, ◌&&◌, Option, none, some, List, [], ◌∷◌, ◌++◌, ℕ, zero, suc,
  ◌-◌, if◌then◌else◌, ◌==◌, text_eq_instance, pair_eq, nat_eq, all, filter, map, has, flat_map,
  to_set, sorted, text_leb, length,
}
use com_mcm.Prelude.Int.{ℤ, int_eq}
use com_mcm.Errors.{Result, ok, graph_error, key_error, guard, ◌>>=◌, ◌>>◌}
use com_mcm.Ir.Sort.{text, option_beq}
use com_mcm.Graph.Relation.{Relation, Edge, from_edges}
use com_mcm.Graph.Cycle.{update}
use com_mcm.Graph.Execution.{ExecutionGraph, scalar, sequence, put_all, make_graph, ids, or_raise}
use com_mcm.Graph.Rvwmo.Footprint.{regular}
use com_mcm.Graph.Rvwmo.Validate.{
  Operations, values, canonical_po, validate_scalar_locations, rf_sources, validate_co, pairs,
}
use com_mcm.Graph.Rvwmo.Ppo.{derive_ppo, or_key_error}

-- The dict `indegree`, the lists `ready` and `order`.
pub record Sorting : Type 0 where
  pub indegree : String → ℕ
  pub ready : List String
  pub order : List String

-- The body of the loop over the successors of a node.
unfoldable pub release_targets : List String → Sorting → Sorting
unfolding sorted
release_targets [] s = s
release_targets (target ∷ targets) s =
    let degree = s.indegree target - 1 in
    let ready = if degree == 0 then sorted text_leb (s.ready ++ (target ∷ [])) else s.ready in
    release_targets targets
      (record { indegree = update s.indegree target degree; ready = ready; order = s.order })

-- The members of `successors[node]`, each once.
abbrev pub successor_set : List Edge → String → List String
successor_set edges node =
    sorted text_leb (to_set (map (λ edge. edge.1) (filter (λ edge. edge.0 == node) edges)))

-- The loop `while ready`. A node becomes ready at most once, when its last edge is removed or at the
-- start, so there are at most as many rounds as nodes.
unfoldable pub sort_nodes : List Edge → ℕ → Sorting → List String
unfolding release_targets filter to_set sorted
sort_nodes edges zero s = s.order
sort_nodes edges (suc rounds) s = elim s.ready [
  | [] ↦ s.order
  | node ∷ ready ↦ sort_nodes edges rounds (
      release_targets (successor_set edges node)
        (record { indegree = s.indegree; ready = ready; order = s.order ++ (node ∷ []) }))
]

abbrev pub indegree_of : List Edge → String → ℕ
indegree_of edges node = length (filter (λ edge. edge.1 == node) edges)

-- The state before the loop.
abbrev pub start_of : List String → List Edge → Sorting
start_of nodes edges = record {
  indegree = indegree_of edges;
  ready = sorted text_leb (filter (λ node. indegree_of edges node == 0) nodes);
  order = [];
}

-- The set of the edges of all relations, each counted once.
abbrev pub edge_set : List Relation → List Edge
edge_set relations = to_set (flat_map (λ r. r.edges) relations)

unfoldable pub topological_total_order : List String → List Relation → Result (Option (List String))
unfolding sort_nodes all has filter to_set flat_map sorted
topological_total_order node_ids relations =
    let nodes = to_set node_ids in
    let edges = edge_set relations in
    let order = sort_nodes edges (length nodes) (start_of nodes edges) in
    guard (all (λ edge. has edge.1 nodes) edges) key_error
    >> ok (if length order == length nodes then some order else none)

abbrev pub hart_of : Operations → String → Result (Option ℤ)
hart_of operations id = or_key_error (lookup id operations) >>= λ op. ok op.hart

-- The edges whose ends are on the same hart.
unfoldable pub same_hart : Operations → List Edge → Result (List Edge)
unfolding lookup
same_hart operations [] = ok []
same_hart operations ((source, target) ∷ edges) = hart_of operations source >>= λ a.
    hart_of operations target >>= λ b. same_hart operations edges >>= λ rest.
    ok (if option_beq a b then (source, target) ∷ rest else rest)

-- Each read precedes the writes that follow its source in the coherence order.
unfoldable pub from_reads : List Edge → List Edge → List Edge
unfolding flat_map filter
from_reads rf co =
    flat_map
      (λ (source_write, read_id).
        map (λ edge. (read_id, edge.1))
          (filter (λ edge. edge.0 == source_write && not (edge.1 == read_id)) co))
      rf

-- `xs - ys`
abbrev pub minus : List Edge → List Edge → List Edge
minus xs ys = filter (λ edge. not (has edge ys)) xs

-- `xs == ys` on sets
abbrev pub same_edges : List Edge → List Edge → Bool
same_edges xs ys = all (λ edge. has edge ys) xs && all (λ edge. has edge xs) ys

abbrev pub agrees_with : Relation → Option Relation → Bool
agrees_with canonical none = true
agrees_with canonical (some existing) = same_edges existing.edges canonical.edges

-- rfi, rfe, fr, fri, fre
unfoldable pub communication : Operations → Relation → Relation → Result (List Relation)
unfolding same_hart from_reads from_edges filter has
communication operations rf co = same_hart operations rf.edges >>= λ internal.
    from_edges "rfi" internal >>= λ rfi. from_edges "rfe" (minus rf.edges rfi.edges) >>= λ rfe.
    from_edges "fr" (from_reads rf.edges co.edges) >>= λ fr.
    same_hart operations fr.edges >>= λ internal'. from_edges "fri" internal' >>= λ fri.
    from_edges "fre" (minus fr.edges fri.edges) >>= λ fre. ok (rfi ∷ rfe ∷ fr ∷ fri ∷ fre ∷ [])

abbrev pub order_names : List String
order_names = "ppo" ∷ "rfe" ∷ "co" ∷ "fr" ∷ []

unfoldable pub lookup_all : List (String × Relation) → List String → Result (List Relation)
unfolding lookup
lookup_all relations [] = ok []
lookup_all relations (name ∷ names) =
    or_key_error (lookup name relations) >>= λ r. lookup_all relations names >>= λ rs. ok (r ∷ rs)

-- `gmo_order or ()`
abbrev pub order_or_nil : Option (List String) → List String
order_or_nil none = []
order_or_nil (some order) = order

unfoldable pub complete_rvwmo_relations : ExecutionGraph → Result ExecutionGraph
unfolding all regular validate_scalar_locations canonical_po lookup put put_all rf_sources
    validate_co communication derive_ppo lookup_all topological_total_order pairs from_edges
    make_graph
complete_rvwmo_relations g =
    guard (all regular (values g.operations)) graph_error
    >> validate_scalar_locations g.operations
    >> (canonical_po g.operations >>= λ po.
        guard (agrees_with po (lookup "po" g.relations)) graph_error
        >> (let relations = put "po" po g.relations in
            or_raise (lookup "rf" relations) >>= λ rf. or_raise (lookup "co" relations) >>= λ co.
            rf_sources g.operations rf >>= λ sources.
            validate_co g.operations co
            >> (communication g.operations rf co >>= λ derived.
                derive_ppo g.operations (put_all derived relations) sources >>= λ rules.
                lookup_all (put_all rules (put_all derived relations)) order_names >>= λ ordered.
                topological_total_order (ids g.operations) ordered >>= λ gmo_order.
                from_edges "gmo" (pairs (order_or_nil gmo_order)) >>= λ gmo. make_graph (record {
                  operations = g.operations;
                  relations = put "gmo" gmo (put_all rules (put_all derived relations));
                  candidate_id = g.candidate_id;
                  metadata =
                      update (update g.metadata "builtin_model" (some (scalar (text "rvwmo"))))
                        "gmo_order" (some (sequence (map text (order_or_nil gmo_order))));
                  schema_version = g.schema_version;
                }))))
