-- ===== src/Graph/Checker.antt =====
-- Axiom checking over candidates: src/umcm/graph/checker.py. The kinds of AxiomSpec
-- (src/umcm/graph/model.py) are an enumeration, since its constructor refuses every other text.
-- The candidates that the builder enumerates are an argument.
pub mod Verdict
pub mod Axioms
use com_mcm.Prelude.{
  ◌≡◌, String, Bool, true, false, not, List, [], ◌∷◌, ◌++◌, filter, sorted, any, all, if◌then◌else◌,
  ◌==◌, text_eq_instance, Option, none, some,
}
use Prim.Native.String.{◌++◌ as text_append}
use com_mcm.Errors.{
  Result, ok, err, graph_error, axiom_error, stop_iteration, recursion_error, guard, ◌>>=◌, ◌>>◌,
}
use com_mcm.Graph.Relation.{Relation, Edge, edge_leb, union_relations, truthy}
use com_mcm.Graph.Cycle.{
  LabeledEdge, Outcome, found, finished, raised, exhausted, find_labeled_cycle,
}
use com_mcm.Graph.Execution.{ExecutionGraph, relation}

pub data AxiomKind : Type 0 where
  acyclic irreflexive empty : AxiomKind

pub record AxiomSpec : Type 0 where
  pub name : String
  pub kind : AxiomKind
  pub relations : List String

abbrev pub is_empty {ℓ} : {A : Type ℓ} → List A → Bool
is_empty [] = true
is_empty (x ∷ xs) = false

-- The tests of `AxiomSpec.__post_init__`.
unfoldable pub make_axiom : AxiomSpec → Result AxiomSpec
make_axiom spec =
    guard (truthy spec.name) axiom_error
    >> guard (not (is_empty spec.relations)) axiom_error
    >> ok spec

pub data AxiomStatus : Type 0 where
  satisfied violated : AxiomStatus

-- The text of a kind.
abbrev pub kind_text : AxiomKind → String
kind_text acyclic = "acyclic"
kind_text irreflexive = "irreflexive"
kind_text empty = "empty"

-- A built-in check has another kind, so a result names its kind by a text.
pub record AxiomResult : Type 0 where
  pub axiom_name : String
  pub status : AxiomStatus
  pub kind : String
  pub relations : List String
  pub cycle : List LabeledEdge
  pub offending_edges : List Edge

abbrev pub is_satisfied : AxiomStatus → Bool
is_satisfied satisfied = true
is_satisfied violated = false

abbrev pub status_if : Bool → AxiomStatus
status_if b = if b then satisfied else violated

-- `tuple(graph.relation(name) for name in names)`
unfoldable pub relations_of : ExecutionGraph → List String → Result (List Relation)
relations_of g [] = ok []
relations_of g (name ∷ names) = relation g name >>= λ r. relations_of g names >>= λ rs. ok (r ∷ rs)

-- None where no cycle is found.
abbrev pub cycle_of : Outcome → Result (Option (List LabeledEdge))
cycle_of (found es) = ok (some es)
cycle_of (finished s) = ok none
cycle_of (raised e) = err e
cycle_of exhausted = err recursion_error

abbrev pub cycle_result : AxiomSpec → Option (List LabeledEdge) → AxiomResult
cycle_result spec none = record {
  axiom_name = spec.name;
  status = satisfied;
  kind = kind_text spec.kind;
  relations = spec.relations;
  cycle = [];
  offending_edges = [];
}
cycle_result spec (some es) = record {
  axiom_name = spec.name;
  status = violated;
  kind = kind_text spec.kind;
  relations = spec.relations;
  cycle = es;
  offending_edges = [];
}

abbrev pub edges_result : AxiomSpec → List Edge → AxiomResult
edges_result spec offending = record {
  axiom_name = spec.name;
  status = status_if (is_empty offending);
  kind = kind_text spec.kind;
  relations = spec.relations;
  cycle = [];
  offending_edges = offending;
}

abbrev pub is_loop : Edge → Bool
is_loop edge = edge.0 == edge.1

unfoldable pub check_relations : AxiomSpec → List Relation → Result AxiomResult
unfolding find_labeled_cycle union_relations sorted filter
check_relations spec rs = elim spec.kind [
  | acyclic ↦ cycle_of (find_labeled_cycle rs) >>= λ cycle. ok (cycle_result spec cycle)
  | irreflexive ↦ union_relations (text_append "axiom:" spec.name) rs >>= λ combined.
      ok (edges_result spec (sorted edge_leb (filter is_loop combined.edges)))
  | empty ↦ union_relations (text_append "axiom:" spec.name) rs >>= λ combined.
      ok (edges_result spec (sorted edge_leb combined.edges))
]

unfoldable pub check_axiom : ExecutionGraph → AxiomSpec → Result AxiomResult
unfolding relations_of check_relations
check_axiom g spec = relations_of g spec.relations >>= check_relations spec

unfoldable pub check_axioms : ExecutionGraph → List AxiomSpec → Result (List AxiomResult)
unfolding check_axiom
check_axioms g [] = ok []
check_axioms g (spec ∷ axioms) =
    check_axiom g spec >>= λ r. check_axioms g axioms >>= λ rs. ok (r ∷ rs)

pub record CandidateCheck : Type 0 where
  pub graph : ExecutionGraph
  pub axioms : List AxiomResult

unfoldable pub allowed : CandidateCheck → Bool
unfolding all
allowed c = all (λ result. is_satisfied result.status) c.axioms

pub data MemoryModelStatus : Type 0 where
  model_allowed model_forbidden : MemoryModelStatus

pub record MemoryModelCheck : Type 0 where
  pub status : MemoryModelStatus
  pub candidates : List CandidateCheck

-- `next(candidate for candidate in candidates if candidate.allowed)`
unfoldable pub first_allowed : List CandidateCheck → Option CandidateCheck
unfolding allowed
first_allowed [] = none
first_allowed (c ∷ cs) = if allowed c then some c else first_allowed cs

unfoldable pub representative : MemoryModelCheck → Result CandidateCheck
unfolding first_allowed
representative check = elim check.candidates [
  | [] ↦ err graph_error
  | c ∷ cs ↦ elim check.status [
    | model_allowed ↦ elim (first_allowed check.candidates) [
      | none ↦ err stop_iteration
      | some c' ↦ ok c'
    ]
    | model_forbidden ↦ ok c
  ]
]

-- The built-in check, `check_rvwmo` or none, is an argument.
unfoldable pub check_execution_graph :
    (ExecutionGraph → Result (List AxiomResult))
    → ExecutionGraph
    → List AxiomSpec
    → Result CandidateCheck
unfolding check_axioms
check_execution_graph builtin g axioms = builtin g >>= λ results.
    check_axioms g axioms >>= λ checked. ok (record { graph = g; axioms = results ++ checked })

unfoldable pub check_candidates :
    (ExecutionGraph → Result (List AxiomResult))
    → List AxiomSpec
    → List ExecutionGraph
    → Result (List CandidateCheck)
unfolding check_execution_graph
check_candidates builtin axioms [] = ok []
check_candidates builtin axioms (g ∷ graphs) = check_execution_graph builtin g axioms >>= λ c.
    check_candidates builtin axioms graphs >>= λ cs. ok (c ∷ cs)

abbrev pub verdict_of : List CandidateCheck → MemoryModelCheck
verdict_of candidates = record {
  status = if any allowed candidates then model_allowed else model_forbidden;
  candidates = candidates;
}

-- `check_trace_memory_model` on the candidates of a trace.
unfoldable pub check_memory_model :
    (ExecutionGraph → Result (List AxiomResult))
    → List AxiomSpec
    → List ExecutionGraph
    → Result MemoryModelCheck
unfolding check_candidates allowed any
check_memory_model builtin axioms graphs = check_candidates builtin axioms graphs >>= λ candidates.
    guard (not (is_empty candidates)) graph_error >> ok (verdict_of candidates)
