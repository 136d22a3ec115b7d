-- ===== src/Graph/Hints.antt =====
-- What the events of a trace say of rf, co and further relations: `_rf_hints`, `_co_hints` and
-- `_relation_hints` of src/umcm/graph/builder.py.
use com_mcm.Prelude.{
  lookup, put, String, Bool, true, not, ◌&&◌, ◌||◌, Option, none, some, List, [], ◌∷◌, ◌++◌, map,
  any, to_set, sorted, text_leb, if◌then◌else◌, ◌==◌, text_eq_instance, pair_eq,
}
use com_mcm.Errors.{Result, ok, graph_error, guard, ◌>>=◌, ◌>>◌}
use com_mcm.Ir.Sort.{Value, is_none}
use com_mcm.Ir.Event.{EventInstance}
use com_mcm.Ir.Trace.{Trace, events_of_type}
use com_mcm.Solver.Value.{py_eq}
use com_mcm.Graph.Relation.{Relation, Edge, from_edges}
use com_mcm.Graph.Model.{RfHintSpec, CoHintSpec, RelationHintSpec}
use com_mcm.Graph.Projection.{concrete_event, field_of, text_field}
use com_mcm.Graph.Rvwmo.Validate.{Operations}

-- `_RFHintEvidence`
pub record RfHintEvidence : Type 0 where
  pub write_id : String
  pub address : Value
  pub value : Value

-- `semantic_key == semantic_key`
abbrev same_source : RfHintEvidence → RfHintEvidence → Bool
same_source e f = e.write_id == f.write_id && py_eq e.address f.address && py_eq e.value f.value

-- There is no hint yet, or it says the same.
abbrev agrees_before : Option RfHintEvidence → RfHintEvidence → Bool
agrees_before none evidence = true
agrees_before (some previous) evidence = same_source previous evidence

unfoldable pub add_rf_hints :
    RfHintSpec
    → List EventInstance
    → List (String × RfHintEvidence)
    → Result (List (String × RfHintEvidence))
unfolding concrete_event text_field field_of py_eq lookup put
add_rf_hints spec [] hints = ok hints
add_rf_hints spec (event ∷ events) hints = concrete_event event >>= λ keep.
    if not keep
    then add_rf_hints spec events hints
    else (text_field event spec.read_id_field >>= λ read_id.
        text_field event spec.write_id_field >>= λ write_id.
        field_of event spec.address_field >>= λ address. field_of event spec.value_field >>= λ v.
        let evidence : RfHintEvidence = record {
          write_id = write_id;
          address = address;
          value = v;
        } in
        guard (agrees_before (lookup read_id hints) evidence) graph_error
        >> add_rf_hints spec events (put read_id evidence hints))

-- `_rf_hints`
unfoldable pub rf_hints :
    Trace
    → List RfHintSpec
    → List (String × RfHintEvidence)
    → Result (List (String × RfHintEvidence))
unfolding events_of_type add_rf_hints
rf_hints trace [] hints = ok hints
rf_hints trace (spec ∷ specs) hints =
    add_rf_hints spec (events_of_type trace spec.event_type) hints >>= rf_hints trace specs

-- `_COHintEvidence`; of these values the program keeps one for each.
pub record CoHintEvidence : Type 0 where
  pub before_write_id : String
  pub after_write_id : String
  pub address : Value

-- `semantic_key == semantic_key`
abbrev pub same_order : CoHintEvidence → CoHintEvidence → Bool
same_order e f =
    e.before_write_id == f.before_write_id
    && e.after_write_id == f.after_write_id
    && py_eq e.address f.address

unfoldable pub add_co_hints :
    CoHintSpec → List EventInstance → List CoHintEvidence → Result (List CoHintEvidence)
unfolding concrete_event text_field field_of any py_eq
add_co_hints spec [] hints = ok hints
add_co_hints spec (event ∷ events) hints = concrete_event event >>= λ keep.
    if not keep
    then add_co_hints spec events hints
    else (text_field event spec.before_write_id_field >>= λ before.
        text_field event spec.after_write_id_field >>= λ after.
        field_of event spec.address_field >>= λ address.
        let evidence : CoHintEvidence = record {
          before_write_id = before;
          after_write_id = after;
          address = address;
        } in
        add_co_hints spec events
          (if any (same_order evidence) hints then hints else hints ++ (evidence ∷ [])))

unfoldable pub all_co_hints :
    Trace → List CoHintSpec → List CoHintEvidence → Result (List CoHintEvidence)
unfolding events_of_type add_co_hints
all_co_hints trace [] hints = ok hints
all_co_hints trace (spec ∷ specs) hints =
    add_co_hints spec (events_of_type trace spec.event_type) hints >>= all_co_hints trace specs

-- `_co_hints`, sorted by the text that `repr` gives a hint.
unfoldable pub co_hints :
    (CoHintEvidence → String) → Trace → List CoHintSpec → Result (List CoHintEvidence)
unfolding all_co_hints sorted
co_hints repr trace specs =
    all_co_hints trace specs [] >>= λ hints. ok (sorted (λ e f. text_leb (repr e) (repr f)) hints)

unfoldable pub hint_edges : RelationHintSpec → Operations → List EventInstance → Result (List Edge)
unfolding concrete_event text_field lookup
hint_edges hint operations [] = ok []
hint_edges hint operations (event ∷ events) = concrete_event event >>= λ keep.
    if not keep
    then hint_edges hint operations events
    else (text_field event hint.source_id_field >>= λ source.
        text_field event hint.target_id_field >>= λ target.
        guard (not (is_none (lookup source operations) || is_none (lookup target operations)))
          graph_error
        >> (hint_edges hint operations events >>= λ rest. ok ((source, target) ∷ rest)))

-- The edges that the hints of each name contribute.
unfoldable pub all_hint_edges :
    Trace → Operations → List RelationHintSpec → Result (List (String × List Edge))
unfolding events_of_type hint_edges
all_hint_edges trace operations [] = ok []
all_hint_edges trace operations (hint ∷ hints) =
    hint_edges hint operations (events_of_type trace hint.event_type) >>= λ edges.
    all_hint_edges trace operations hints >>= λ rest. ok ((hint.name, edges) ∷ rest)

abbrev edges_named : String → List (String × List Edge) → List Edge
edges_named name [] = []
edges_named name ((key, edges) ∷ rest) =
    if key == name then edges ++ edges_named name rest else edges_named name rest

unfoldable pub named_relations :
    List (String × List Edge) → List String → Result (List (String × Relation))
unfolding from_edges
named_relations edges [] = ok []
named_relations edges (name ∷ names) = from_edges name (edges_named name edges) >>= λ r.
    named_relations edges names >>= λ rest. ok ((name, r) ∷ rest)

-- `_relation_hints`
unfoldable pub relation_hints :
    Trace → List RelationHintSpec → Operations → Result (List (String × Relation))
unfolding all_hint_edges named_relations sorted to_set
relation_hints trace hints operations = all_hint_edges trace operations hints >>= λ edges.
    named_relations edges (sorted text_leb (to_set (map (λ hint. hint.name) hints)))
