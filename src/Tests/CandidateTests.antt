-- ===== src/Tests/CandidateTests.antt =====
-- The candidates of a small trace (src/umcm/graph/builder.py): one hart stores 1 to an address that
-- starts at 0, another loads 1 from it.
use com_mcm.Prelude.{
  ◌≡◌, refl, ◌↔◌, String, true, none, some, List, [], ◌∷◌, Memᴰ, NoDup, length, text_eq_instance,
}
use com_mcm.Prelude.Int.{ℤ, pos, leb_ℤ}
use com_mcm.Errors.{ok}
use com_mcm.Ir.Sort.{Value, int, text, bool, null}
use com_mcm.Ir.Event.{Attribute, value, EventInstance}
use com_mcm.Ir.Trace.{Trace}
use com_mcm.Solver.Value.{py_eq}
use com_mcm.Graph.Execution.{MemoryOperation, init_write, read, write, ExecutionGraph}
use com_mcm.Graph.Relation.{Relation}
use com_mcm.Graph.Model.{ProjectionSpec, GraphModelSpec}
use com_mcm.Graph.Hints.{CoHintEvidence, co_hints}
use com_mcm.Graph.Rvwmo.Validate.{values}
use com_mcm.Graph.Projection.{project_operations, metadata_of, concrete_events, add_commits}
use com_mcm.Graph.Projection.Distinct.{ids_in}
use com_mcm.Graph.Projection.Origin.{IsFrom}
use com_mcm.Graph.Projection.Kept.{Projects, project_operations-Projects}
use com_mcm.Graph.Candidates.{CandidateSpace, build_candidate_space, estimated_candidates}
use com_mcm.Graph.Candidates.Sources.{
  IsSource, build_candidate_space-IsSource, build_candidate_space-all_sources,
}
use com_mcm.Graph.Candidates.Orders.{IsOrder}
use com_mcm.Graph.Candidates.Coherence.{
  Follows, writes_to, build_candidate_space-IsOrder, build_candidate_space-all_orders,
}
use com_mcm.Graph.Enumeration.{iter_execution_graphs, numbered_graph, graph_metadata}
use com_mcm.Graph.Enumeration.Count.{NumberedFrom, iter_execution_graphs_lem}

abbrev fields : ℤ → String → ℤ → ℤ → List (String × Attribute)
fields v id hart index =
    ("op_id", value (text id))
    ∷ ("address", value (int (pos 8)))
    ∷ ("value", value (int v))
    ∷ ("hart", value (int hart))
    ∷ ("program_index", value (int index))
    ∷ []

abbrev event : String → String → List (String × Attribute) → EventInstance
event id event_type fs = record {
  id = id;
  event_type = event_type;
  fields = fs;
  cycle = none;
  occurs = value (bool true);
}

abbrev trace : Trace
trace = record {
  events =
      event "e0" "m.init" (fields (pos 0) "i" (pos 0) (pos 0))
      ∷ event "e1" "m.store" (fields (pos 1) "w" (pos 0) (pos 0))
      ∷ event "e2" "m.load" (fields (pos 1) "r" (pos 1) (pos 0))
      ∷ event "e3" "m.commit" (fields (pos 1) "r" (pos 1) (pos 0))
      ∷ [];
  constraints = [];
  partial = true;
}

abbrev projection : ProjectionSpec
projection = record {
  init_write_event = "m.init";
  load_event = "m.load";
  store_event = "m.store";
  load_commit_event = "m.commit";
  id_field = "op_id";
  address_field = "address";
  value_field = "value";
  hart_field = "hart";
  program_index_field = "program_index";
  require_committed_loads = true;
  amo_event = some "m.amo";
  lr_event = none;
  sc_event = none;
  write_value_field = "write_value";
  metadata_fields = [];
  rf_hints = [];
  co_hints = [];
  relation_hints = [];
}

abbrev model : GraphModelSpec
model = record {
  model = "plain";
  projection = projection;
  derived_relations = [];
  axioms = [];
  builtin_model = none;
  ppo_rules = [];
}

abbrev same_text : CoHintEvidence → String
same_text hint = ""

abbrev address_text : Value → String
address_text v = ""

abbrev start : MemoryOperation
start = record {
  id = "i";
  kind = init_write;
  address = int (pos 8);
  value = int (pos 0);
  write_value = null;
  hart = none;
  program_index = none;
  source_event_id = "e0";
  commit_event_id = "";
  metadata = metadata_of projection (event "e0" "m.init" (fields (pos 0) "i" (pos 0) (pos 0))) none;
}

abbrev store : MemoryOperation
store = record {
  id = "w";
  kind = write;
  address = int (pos 8);
  value = int (pos 1);
  write_value = null;
  hart = some (pos 0);
  program_index = some (pos 0);
  source_event_id = "e1";
  commit_event_id = "";
  metadata =
      metadata_of projection (event "e1" "m.store" (fields (pos 1) "w" (pos 0) (pos 0))) none;
}

abbrev load : MemoryOperation
load = record {
  id = "r";
  kind = read;
  address = int (pos 8);
  value = int (pos 1);
  write_value = null;
  hart = some (pos 1);
  program_index = some (pos 0);
  source_event_id = "e2";
  commit_event_id = "e3";
  metadata = metadata_of projection (event "e2" "m.load" (fields (pos 1) "r" (pos 1) (pos 0))) none;
}

abbrev space : CandidateSpace
space = record {
  operations = ("i", start) ∷ ("w", store) ∷ ("r", load) ∷ [];
  rf_choices = ("r", "w" ∷ []) ∷ [];
  co_orders = (int (pos 8), ("i" ∷ "w" ∷ []) ∷ []) ∷ [];
  relation_hints = [];
}

space-built : build_candidate_space same_text trace model ≡ ok space
unfolding build_candidate_space
space-built = refl

load-listed : Memᴰ load (values space.operations)
load-listed = Memᴰ.tail (Memᴰ.tail (Memᴰ.head refl))

store-listed : Memᴰ store (values space.operations)
store-listed = Memᴰ.tail (Memᴰ.head refl)

build_candidate_space-IsSource_example :
    (ids : List String) × Memᴰ ("r", ids) space.rf_choices
    × ((id : String) × Memᴰ id ids)
    × ((id : String) → Memᴰ id ids → IsSource space load id)
build_candidate_space-IsSource_example =
    build_candidate_space-IsSource same_text trace model space space-built load load-listed refl

build_candidate_space-all_sources_example :
    (ids : List String) × Memᴰ ("r", ids) space.rf_choices
    × ((id : String) → Memᴰ id ids ↔ IsSource space load id)
build_candidate_space-all_sources_example =
    build_candidate_space-all_sources same_text trace model space refl space-built load load-listed
      refl

build_candidate_space-IsOrder_example :
    (hints : List CoHintEvidence) × (co_hints same_text trace [] ≡ ok hints)
    × (a : Value) × (py_eq a (int (pos 8)) ≡ true)
    × (orders : List (List String)) × Memᴰ (a, orders) space.co_orders
    × ((order : List String) × Memᴰ order orders)
    × ((order : List String)
        → Memᴰ order orders
        → IsOrder (writes_to space a) order
          × ((hint : CoHintEvidence)
              → Memᴰ hint hints
              → py_eq hint.address a ≡ true
              → Follows order hint))
build_candidate_space-IsOrder_example =
    build_candidate_space-IsOrder same_text trace model space space-built store store-listed refl

build_candidate_space-all_orders_example :
    (a : Value) × (py_eq a (int (pos 8)) ≡ true)
    × (orders : List (List String)) × Memᴰ (a, orders) space.co_orders
    × ((order : List String) → Memᴰ order orders ↔ IsOrder (writes_to space a) order)
build_candidate_space-all_orders_example =
    build_candidate_space-all_orders same_text trace model space refl space-built store store-listed
      refl

abbrev relations : List (String × Relation)
relations =
    ("po", record { name = "po"; edges = [] })
    ∷ ("rf", record { name = "rf"; edges = ("w", "r") ∷ [] })
    ∷ ("rfe", record { name = "rfe"; edges = ("w", "r") ∷ [] })
    ∷ ("co", record { name = "co"; edges = ("i", "w") ∷ [] })
    ∷ ("fr", record { name = "fr"; edges = [] })
    ∷ ("ppo", record { name = "ppo"; edges = [] })
    ∷ []

abbrev graph : ExecutionGraph
graph = numbered_graph space 0 (graph_metadata "plain") relations

graphs-yielded : iter_execution_graphs address_text same_text trace model (pos 1) ≡ ok (graph ∷ [])
unfolding iter_execution_graphs
graphs-yielded = refl

iter_execution_graphs_lem_example :
    (leb_ℤ (pos (length (graph ∷ []))) (pos 1) ≡ true)
    × NumberedFrom 0 (graph ∷ [])
    × (s : CandidateSpace) × (build_candidate_space same_text trace model ≡ ok s)
    × (length (graph ∷ []) ≡ estimated_candidates s)
iter_execution_graphs_lem_example =
    iter_execution_graphs_lem address_text same_text trace model (pos 1) (graph ∷ []) graphs-yielded

operations-projected : project_operations trace projection ≡ ok space.operations
unfolding project_operations
operations-projected = refl

project_operations-Projects_example :
    (events : List EventInstance) × (concrete_events trace.events ≡ ok events)
    × (commits : List (String × EventInstance)) × (add_commits projection events [] ≡ ok commits)
    × Projects projection commits events (values space.operations)
    × NoDup (ids_in (values space.operations))
    × ((op : MemoryOperation)
        → Memᴰ op (values space.operations)
        → (event : EventInstance) × Memᴰ event events × IsFrom projection event op)
project_operations-Projects_example =
    project_operations-Projects trace projection space.operations operations-projected
