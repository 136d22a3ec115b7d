-- ===== src/Graph/Rvwmo/Checks.antt =====
-- The four checks of a completed graph: `_load_value_offenses` to `check_rvwmo` of
-- src/umcm/graph/rvwmo.py.
use com_mcm.Prelude.{
  lookup, String, Bool, not, ◌&&◌, ◌||◌, Option, none, some, List, [], ◌∷◌, ◌++◌, ℕ, suc, ltb,
  if◌then◌else◌, ◌==◌, text_eq_instance, pair_eq, nat_eq, all, filter, map, has, flat_map, to_set,
  sorted, length,
}
use com_mcm.Prelude.Int.{int_eq}
use com_mcm.Errors.{Result, ok, graph_error, guard, ◌>>=◌, ◌>>◌}
use com_mcm.Ir.Sort.{Value, text, option_beq, is_none}
use com_mcm.Graph.Relation.{Relation, Edge, edge_leb}
use com_mcm.Graph.Cycle.{LabeledEdge, update, find_labeled_cycle}
use com_mcm.Graph.Checker.{
  AxiomResult, status_if, relations_of, cycle_of, AxiomSpec, CandidateCheck, check_execution_graph,
  is_empty,
}
use com_mcm.Graph.Execution.{
  ExecutionGraph, MemoryOperation, Meta, sequence, is_read, is_write, relation, atomic_kind,
}
use com_mcm.Graph.Rvwmo.Footprint.{overlap, same_location, is_one_of}
use com_mcm.Graph.Rvwmo.Validate.{
  Operations, values, and_also, rf_sources, relation_or_empty, incoming,
}
use com_mcm.Graph.Rvwmo.Ppo.{or_key_error, any_of}
use com_mcm.Graph.Rvwmo.Complete.{order_names, complete_rvwmo_relations}

-- The ids in `metadata["gmo_order"]`, which `complete_rvwmo_relations` sets to a list of ids.
abbrev pub texts : List Value → List String
texts [] = []
texts (text s ∷ vs) = s ∷ texts vs
texts (_ ∷ vs) = texts vs

abbrev pub gmo_of : Option Meta → List String
gmo_of (some (sequence vs)) = texts vs
gmo_of _ = []

-- The dict of the positions in a list, the later ones last.
unfoldable pub positions : ℕ → List String → (String → Option ℕ) → String → Option ℕ
positions n [] f = f
positions n (x ∷ xs) f = positions (suc n) xs (update f x (some n))

-- `[x for x in xs if test(x)]` where the test may raise.
unfoldable pub filter_of {ℓ} : {A : Type ℓ} → (A → Result Bool) → List A → Result (List A)
filter_of test [] = ok []
filter_of test (x ∷ xs) =
    test x >>= λ b. filter_of test xs >>= λ rest. ok (if b then x ∷ rest else rest)

-- The body of a loop that collects offenses.
unfoldable pub collect {ℓ} : {A : Type ℓ} → (A → Result (List Edge)) → List A → Result (List Edge)
collect body [] = ok []
collect body (x ∷ xs) = body x >>= λ es. collect body xs >>= λ rest. ok (es ++ rest)

module _ (position : String → Option ℕ) where
  -- `position[operation.id]`
  abbrev pub place : MemoryOperation → Result ℕ
  place op = or_key_error (position op.id)

  -- `max(..., key=...)`: the first of the latest.
  unfoldable pub latest : MemoryOperation → List MemoryOperation → Result MemoryOperation
  latest best [] = place best >>= λ n. ok best
  latest best (op ∷ ops) =
      place best >>= λ n. place op >>= λ m. latest (if ltb n m then op else best) ops

  -- A write that the read can see.
  unfoldable pub is_eligible : Relation → MemoryOperation → MemoryOperation → Result Bool
  unfolding same_location
  is_eligible po read write = and_also (is_write write && not (write.id == read.id)) (
      same_location write read >>= λ same.
      and_also same
        (place write >>= λ n. place read >>= λ m. ok (ltb n m || has (write.id, read.id) po.edges)))

  unfoldable pub load_value_offense :
      Operations → Relation → List (String × String) → MemoryOperation → Result (List Edge)
  unfolding filter_of is_eligible latest lookup
  load_value_offense operations po sources read =
      filter_of (is_eligible po read) (values operations) >>= λ eligible.
      or_key_error (lookup read.id sources) >>= λ source. elim eligible [
        | [] ↦ ok ((source, read.id) ∷ [])
        | write ∷ writes ↦ latest write writes >>= λ last.
            ok (if last.id == source then [] else (source, read.id) ∷ [])
      ]

unfoldable pub load_value_offenses : ExecutionGraph → Result (List Edge)
unfolding positions collect load_value_offense rf_sources relation sorted filter
load_value_offenses g =
    let order = gmo_of (g.metadata "gmo_order") in
    if is_empty order
    then ok []
    else (relation g "po" >>= λ po. relation g "rf" >>= λ rf.
        rf_sources g.operations rf >>= λ sources.
        collect (load_value_offense (positions 0 order (λ id. none)) g.operations po sources)
          (filter is_read (values g.operations))
        >>= λ offenses. ok (sorted edge_leb offenses))

-- `kind in {word}`
abbrev pub has_atomic_kind : String → MemoryOperation → Bool
has_atomic_kind kind op = is_one_of (kind ∷ []) (atomic_kind op)

unfoldable pub amo_offense :
    Operations → Relation → List (String × String) → MemoryOperation → Result (List Edge)
unfolding any_of same_location lookup
amo_offense operations co sources op =
    if not (is_read op && is_write op)
    then ok ((op.id, op.id) ∷ [])
    else (or_key_error (lookup op.id sources) >>= λ source_id.
        (if not (has (source_id, op.id) co.edges)
          then ok ((source_id, op.id) ∷ [])
          else (any_of
                (λ write.
                  and_also (is_write write && not (write.id == source_id || write.id == op.id)) (
                    same_location write op >>= λ same.
                    ok (
                      same
                      && has (source_id, write.id) co.edges
                      && has (write.id, op.id) co.edges)))
                (values operations)
              >>= λ intervening. ok (if intervening then (source_id, op.id) ∷ [] else []))))

unfoldable pub amo_offenses : ExecutionGraph → Result (List Edge)
unfolding collect amo_offense rf_sources relation sorted filter atomic_kind is_one_of
amo_offenses g = relation g "co" >>= λ co. relation g "rf" >>= λ rf.
    rf_sources g.operations rf >>= λ sources.
    collect (amo_offense g.operations co sources)
      (filter (has_atomic_kind "amo") (values g.operations))
    >>= λ offenses. ok (sorted edge_leb offenses)

-- `incoming_pairs[id]` and `outgoing_pairs[id]` have one member.
abbrev pub has_one {ℓ} : {A : Type ℓ} → List A → Bool
has_one xs = length xs == 1

abbrev pub unpaired : Relation → MemoryOperation → List Edge
unpaired pair sc = if has_one (to_set (incoming pair.edges sc.id)) then [] else (sc.id, sc.id) ∷ []

abbrev pub paired_once : Relation → Edge → Bool
paired_once pair (lr_id, sc_id) =
    has_one (to_set (map (λ edge. edge.1) (filter (λ edge. edge.0 == lr_id) pair.edges)))

unfoldable pub pair_offense :
    Operations → Relation → List (String × String) → Edge → Result (List Edge)
unfolding any_of overlap lookup atomic_kind is_one_of
pair_offense operations co sources (lr_id, sc_id) = or_key_error (lookup lr_id operations) >>= λ lr.
    or_key_error (lookup sc_id operations) >>= λ sc.
    guard (has_atomic_kind "lr" lr && has_atomic_kind "sc" sc) graph_error
    >> (or_key_error (lookup lr_id sources) >>= λ source_id.
        (if not (has (source_id, sc_id) co.edges)
          then ok ((lr_id, sc_id) ∷ [])
          else (any_of
                (λ write.
                  and_also
                    (is_write write
                      && not (write.id == source_id || write.id == sc_id)
                      && not (option_beq write.hart lr.hart))
                    (overlap write lr >>= λ meeting. ok (
                      meeting
                      && has (source_id, write.id) co.edges
                      && has (write.id, sc_id) co.edges)))
                (values operations)
              >>= λ intervening. ok (if intervening then (lr_id, sc_id) ∷ [] else []))))

unfoldable pub lr_sc_offenses : ExecutionGraph → Result (List Edge)
unfolding relation relation_or_empty rf_sources filter flat_map all collect pair_offense sorted
    atomic_kind is_one_of to_set
lr_sc_offenses g = relation g "co" >>= λ co. relation_or_empty g.relations "pair" >>= λ pair.
    relation g "rf" >>= λ rf. rf_sources g.operations rf >>= λ sources.
    guard (all (paired_once pair) pair.edges) graph_error
    >> (collect (pair_offense g.operations co sources) pair.edges >>= λ offenses. ok (
        sorted edge_leb (
          flat_map (unpaired pair) (filter (has_atomic_kind "sc") (values g.operations))
          ++ offenses)))

-- An RVWMOOutcome, as the result that `check_execution_graph` makes of it.
abbrev pub outcome : String → String → List String → List Edge → AxiomResult
outcome name kind relations offenses = record {
  axiom_name = name;
  status = status_if (is_empty offenses);
  kind = kind;
  relations = relations;
  cycle = [];
  offending_edges = offenses;
}

abbrev pub cycle_edges : Option (List LabeledEdge) → List LabeledEdge
cycle_edges none = []
cycle_edges (some es) = es

unfoldable pub check_rvwmo : ExecutionGraph → Result (List AxiomResult)
unfolding relations_of find_labeled_cycle load_value_offenses amo_offenses lr_sc_offenses
check_rvwmo g = relations_of g order_names >>= λ ordered.
    cycle_of (find_labeled_cycle ordered) >>= λ cycle. load_value_offenses g >>= λ load_value.
    amo_offenses g >>= λ amos. lr_sc_offenses g >>= λ lr_sc. ok (
      record {
        axiom_name = "rvwmo_global_memory_order";
        status = status_if (is_none cycle);
        kind = "acyclic";
        relations = order_names;
        cycle = cycle_edges cycle;
        offending_edges = [];
      }
      ∷ outcome "rvwmo_load_value" "latest-visible-write" ("po" ∷ "rf" ∷ "co" ∷ "gmo" ∷ [])
          load_value
      ∷ outcome "rvwmo_amo_atomicity" "atomicity" ("rf" ∷ "co" ∷ []) amos
      ∷ outcome "rvwmo_lr_sc_atomicity" "atomicity" ("pair" ∷ "rf" ∷ "co" ∷ []) lr_sc
      ∷ outcome "rvwmo_progress_finite" "finite-progress" ("gmo" ∷ []) []
      ∷ [])

unfoldable pub check_rvwmo_execution_graph : ExecutionGraph → List AxiomSpec → Result CandidateCheck
unfolding complete_rvwmo_relations check_execution_graph check_rvwmo
check_rvwmo_execution_graph g axioms =
    complete_rvwmo_relations g >>= λ completed. check_execution_graph check_rvwmo completed axioms
