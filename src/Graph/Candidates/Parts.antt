-- ===== src/Graph/Candidates/Parts.antt =====
-- What build_candidate_space (src/umcm/graph/builder.py) puts together.
use com_mcm.Prelude.{◌≡◌, subst, String, List, [], filter, sorted, all, any}
use com_mcm.Errors.{ok, graph_error, guard, >>=-eq-ok, ok-injective}
use com_mcm.Ir.Trace.{Trace}
use com_mcm.Solver.Value.{py_eq}
use com_mcm.Graph.Execution.{MemoryOperation, is_read, is_write}
use com_mcm.Graph.Model.{GraphModelSpec}
use com_mcm.Graph.Hints.{RfHintEvidence, rf_hints, CoHintEvidence, co_hints, relation_hints}
use com_mcm.Graph.Projection.{project_operations}
use com_mcm.Graph.Rvwmo.Validate.{values}
use com_mcm.Graph.Candidates.{
  CandidateSpace, rf_choices, co_orders, add_writes, id_leb, build_candidate_space,
}

abbrev pub writes_of : CandidateSpace → List MemoryOperation
writes_of space = filter is_write (values space.operations)

abbrev pub reads_of : CandidateSpace → List MemoryOperation
reads_of space = sorted id_leb (filter is_read (values space.operations))

-- The calls that a candidate space comes from.
pub record Built (repr : CoHintEvidence → String) (trace : Trace) (spec : GraphModelSpec)
    (space : CandidateSpace) : Type 0 where
  pub hints : List (String × RfHintEvidence)
  pub order_hints : List CoHintEvidence
  pub projected : project_operations trace spec.projection ≡ ok space.operations
  pub hinted : rf_hints trace spec.projection.rf_hints [] ≡ ok hints
  pub ordered : co_hints repr trace spec.projection.co_hints ≡ ok order_hints
  pub chosen :
      rf_choices space.operations (writes_of space) hints (reads_of space) ≡ ok space.rf_choices
  pub grouped :
      co_orders space.operations order_hints (add_writes (writes_of space) []) ≡ ok space.co_orders

pub build-Built :
    (repr : CoHintEvidence → String) (trace : Trace) (spec : GraphModelSpec)
    (space : CandidateSpace)
    → build_candidate_space repr trace spec ≡ ok space
    → Built repr trace spec space
unfolding build_candidate_space
build-Built repr trace spec space h =
    let (operations, a, h₁) = >>=-eq-ok (project_operations trace spec.projection) _ h in
    let (hints, b, h₂) = >>=-eq-ok (rf_hints trace spec.projection.rf_hints []) _ h₁ in
    let (order_hints, c, h₃) = >>=-eq-ok (co_hints repr trace spec.projection.co_hints) _ h₂ in
    let writes = filter is_write (values operations) in
    let (choices, d, h₄) =
      >>=-eq-ok
        (rf_choices operations writes hints (sorted id_leb (filter is_read (values operations)))) _
        h₃ in
    let (orders, e, h₅) =
      >>=-eq-ok (co_orders operations order_hints (add_writes writes [])) _ h₄ in
    let (u, f, h₆) =
      >>=-eq-ok
        (guard
          (all (λ hint. any (λ group. py_eq group.0 hint.address) (add_writes writes []))
            order_hints)
          graph_error)
        _ h₅ in
    let (relations, g, h₇) =
      >>=-eq-ok (relation_hints trace spec.projection.relation_hints operations) _ h₆ in
    subst (Built repr trace spec) (ok-injective h₇) (record {
      hints = hints;
      order_hints = order_hints;
      projected = a;
      hinted = b;
      ordered = c;
      chosen = d;
      grouped = e;
    })
