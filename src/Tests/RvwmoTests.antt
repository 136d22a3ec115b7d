-- ===== src/Tests/RvwmoTests.antt =====
-- Completing and checking a small graph by src/umcm/graph/rvwmo.py and src/umcm/graph/checker.py:
-- on one hart a load with acquire, then a store to its address, which starts at 0.
use com_mcm.Prelude.{
  lookup, ◌≡◌, filter, refl, sym, subst, ◌↔◌, String, Bool, true, Option, none, some, List, [], ◌∷◌,
  ◌++◌, Memᴰ, all, any, to_set, flat_map, inl, inr, ◌==◌, text_eq_instance, if◌then◌else◌,
}
use mathlib.Core.List.Memᴰ
use com_mcm.Prelude.Int.{pos, ◌+ℤ◌}
use com_mcm.Errors.{Result, ok, err}
use com_mcm.Ir.Sort.{bool, int, null}
use com_mcm.Solver.Value.{py_eq, truth}
use com_mcm.Graph.Relation.{Relation, Edge, endpoints, successors, is_valid}
use com_mcm.Graph.Relation.Algebra.{IsValid, Returns}
use com_mcm.Graph.Builder.{apply_op, closure_op}
use com_mcm.Graph.Builder.Derived.{Means, apply_op_lem}
use com_mcm.Graph.Execution.{
  MemoryOperation, init_write, read, write, Meta, scalar, ExecutionGraph, relation,
}
use com_mcm.Graph.Checker.{
  AxiomSpec, acyclic, check_memory_model, MemoryModelCheck, model_allowed, allowed, CandidateCheck,
  AxiomResult, satisfied, check_relations,
}
use com_mcm.Graph.Checker.Verdict.{Represents, representative_lem}
use com_mcm.Graph.Checker.Axioms.{Holds, check_relations_lem}
use com_mcm.Graph.Rvwmo.Footprint.{regular, acquire}
use com_mcm.Graph.Rvwmo.Validate.{Operations, relation_or_empty, rf_sources, incoming}
use com_mcm.Graph.Rvwmo.Sources.{ReadsFrom, rf_sources_lem}
use com_mcm.Graph.Rvwmo.Ppo.{derive_ppo}
use com_mcm.Graph.Rvwmo.Complete.{communication}
use com_mcm.Graph.Rvwmo.Checks.{check_rvwmo_execution_graph}
use com_mcm.Graph.Rvwmo.Preserved.{derive_ppo-within_po, derive_ppo-Synchronizes}
use com_mcm.Graph.Rvwmo.Communication.{Communicates, communication_lem}

abbrev no_metadata : String → Option Meta
no_metadata key = none

abbrev acquiring : String → Option Meta
acquiring key = if key == "acquire" then some (scalar (bool true)) else none

abbrev start : MemoryOperation
start = record {
  id = "i";
  kind = init_write;
  address = int (pos 8);
  value = int (pos 0);
  write_value = null;
  hart = none;
  program_index = none;
  source_event_id = "";
  commit_event_id = "";
  metadata = no_metadata;
}

abbrev load : MemoryOperation
load = record {
  id = "r";
  kind = read;
  address = int (pos 8);
  value = int (pos 0);
  write_value = null;
  hart = some (pos 0);
  program_index = some (pos 0);
  source_event_id = "";
  commit_event_id = "c";
  metadata = acquiring;
}

abbrev store : MemoryOperation
store = record {
  id = "w";
  kind = write;
  address = int (pos 8);
  value = int (pos 1);
  write_value = null;
  hart = some (pos 0);
  program_index = some (pos 1);
  source_event_id = "";
  commit_event_id = "";
  metadata = no_metadata;
}

abbrev operations : Operations
operations = ("i", start) ∷ ("r", load) ∷ ("w", store) ∷ []

abbrev po : Relation
po = record { name = "po"; edges = ("r", "w") ∷ [] }

abbrev rf : Relation
rf = record { name = "rf"; edges = ("i", "r") ∷ [] }

abbrev co : Relation
co = record { name = "co"; edges = ("i", "w") ∷ [] }

abbrev graph : ExecutionGraph
graph = record {
  operations = operations;
  relations = ("rf", rf) ∷ ("co", co) ∷ [];
  candidate_id = pos 0;
  metadata = no_metadata;
  schema_version = "umcm.execution_graph.v0.2";
}

abbrev rule : String → List Edge → Relation
rule name edges = record { name = name; edges = edges }

-- Rules 1 and 5 hold of the load and the store.
abbrev rules : List Relation
rules =
    rule "ppo_rule1" (("r", "w") ∷ [])
    ∷ rule "ppo_rule2" []
    ∷ rule "ppo_rule3" []
    ∷ rule "ppo_rule4" []
    ∷ rule "ppo_rule5" (("r", "w") ∷ [])
    ∷ rule "ppo_rule6" []
    ∷ rule "ppo_rule7" []
    ∷ rule "ppo_rule8" []
    ∷ rule "ppo_rule9" []
    ∷ rule "ppo_rule10" []
    ∷ rule "ppo_rule11" []
    ∷ rule "ppo_rule12" []
    ∷ rule "ppo_rule13" []
    ∷ rule "ppo" (("r", "w") ∷ [])
    ∷ []

ppo_runs : derive_ppo operations (("po", po) ∷ []) (("r", "i") ∷ []) ≡ ok rules
unfolding derive_ppo all to_set py_eq ◌+ℤ◌ truth flat_map
ppo_runs = refl

abbrev derived : List Relation
derived =
    rule "rfi" []
    ∷ rule "rfe" (("i", "r") ∷ [])
    ∷ rule "fr" (("r", "w") ∷ [])
    ∷ rule "fri" (("r", "w") ∷ [])
    ∷ rule "fre" []
    ∷ []

communication_runs : communication operations rf co ≡ ok derived
unfolding communication all to_set
communication_runs = refl

abbrev statuses : Result CandidateCheck → List Bool
statuses (ok c) = allowed c ∷ []
statuses (err e) = []

check_runs : statuses (check_rvwmo_execution_graph graph []) ≡ true ∷ []
unfolding check_rvwmo_execution_graph py_eq ◌+ℤ◌ endpoints successors truth allowed
check_runs = refl

derive_ppo-within_po_example :
    (r : Relation) × (relation_or_empty (("po", po) ∷ []) "po" ≡ ok r) × Memᴰ ("r", "w") r.edges
derive_ppo-within_po_example =
    derive_ppo-within_po operations (("po", po) ∷ []) (("r", "i") ∷ []) rules ppo_runs
      (rule "ppo_rule1" (("r", "w") ∷ [])) (Memᴰ.head refl) ("r", "w") (Memᴰ.head refl)

po_found : relation_or_empty (("po", po) ∷ []) "po" ≡ ok po
unfolding relation_or_empty
po_found = refl

load_found : lookup "r" operations ≡ some load
unfolding lookup
load_found = refl

store_found : lookup "w" operations ≡ some store
unfolding lookup
store_found = refl

load-regular : regular load ≡ true
unfolding regular any
load-regular = refl

store-regular : regular store ≡ true
unfolding regular any
store-regular = refl

load_acquires : acquire load ≡ true
unfolding acquire truth
load_acquires = refl

derive_ppo-Synchronizes_example :
    (named : List Relation) × (ppo : Relation) × (rules ≡ named ++ (ppo ∷ []))
    × (ppo.name ≡ "ppo")
    × Memᴰ ("r", "w") ppo.edges
derive_ppo-Synchronizes_example =
    derive_ppo-Synchronizes operations (("po", po) ∷ []) (("r", "i") ∷ []) rules "r" "w" load store
      po ppo_runs po_found (Memᴰ.head refl) load_found store_found load-regular store-regular
      (inl load_acquires)

communication_lem_example : Communicates operations rf co derived
communication_lem_example = communication_lem operations rf co derived communication_runs

abbrev coherence : AxiomSpec
coherence = record { name = "coherence"; kind = acyclic; relations = "rf" ∷ "co" ∷ [] }

rf-IsValid : IsValid rf
unfolding is_valid all
rf-IsValid = refl

check_relations_lem_example :
    (result : AxiomResult) × (check_relations coherence (rf ∷ []) ≡ ok result)
    × ((result.status ≡ satisfied) ↔ Holds acyclic (rf ∷ []))
check_relations_lem_example = check_relations_lem coherence (rf ∷ []) (λ r m.
    elim (Memᴰ.cases_cons m) [
      | inl here ↦ subst IsValid (sym here) rf-IsValid
      | inr there ↦ absurd (Memᴰ.not-nil there)
    ])

abbrev coherent : MemoryModelCheck
coherent = record {
  status = model_allowed;
  candidates =
      record {
        graph = graph;
        axioms =
            record {
              axiom_name = "coherence";
              status = satisfied;
              kind = "acyclic";
              relations = "rf" ∷ "co" ∷ [];
              cycle = [];
              offending_edges = [];
            }
            ∷ [];
      }
      ∷ [];
}

model_runs : check_memory_model (λ g. ok []) (coherence ∷ []) (graph ∷ []) ≡ ok coherent
unfolding check_memory_model relation to_set endpoints flat_map successors
model_runs = refl

representative_lem_example : Represents coherent
representative_lem_example =
    representative_lem (λ g. ok []) (coherence ∷ []) (graph ∷ []) coherent model_runs

sources_run : rf_sources operations rf ≡ ok (("r", "i") ∷ [])
unfolding rf_sources all py_eq ◌+ℤ◌ filter
sources_run = refl

rf_sources_lem_example :
    (s : String) × (incoming rf.edges "r" ≡ s ∷ [])
    × (lookup "r" (("r", "i") ∷ []) ≡ some s)
    × ReadsFrom operations s "r"
rf_sources_lem_example =
    rf_sources_lem operations rf (("r", "i") ∷ []) sources_run load (Memᴰ.tail (Memᴰ.head refl))
      refl

apply_op_lem_example :
    Returns (apply_op closure_op "rf_plus" [] (rf ∷ [])) (Means closure_op (rf ∷ []))
apply_op_lem_example = apply_op_lem "rf_plus" [] closure_op (rf ∷ []) refl refl (λ r m.
    elim (Memᴰ.cases_cons m) [
      | inl here ↦ subst IsValid (sym here) rf-IsValid
      | inr there ↦ absurd (Memᴰ.not-nil there)
    ])
