-- ===== src/Graph/Projection.antt =====
-- The memory operations and the hints of a trace: `project_operations` to `_relation_hints` of
-- src/umcm/graph/builder.py. A dict is the list of its items, in the order of their insertion.
pub mod Distinct
pub mod Kept
pub mod Origin
use com_mcm.Prelude.{
  lookup, put, ◌≡◌, String, Bool, true, false, not, ◌&&◌, ◌||◌, Option, none, some, List, [], ◌∷◌,
  ◌++◌, map, has, any, to_set, sorted, text_leb, if◌then◌else◌, ◌==◌, text_eq_instance, filter,
  flat_map,
}
use com_mcm.Prelude.Int.{ℤ}
use com_mcm.Errors.{Result, ok, err, graph_error, type_error, guard, ◌>>=◌, ◌>>◌}
use com_mcm.Ir.Sort.{Value, bool, text, null, is_none}
use com_mcm.Ir.Conversion.{str, int_of}
use com_mcm.Ir.Event.{Attribute, value, expression, EventInstance}
use com_mcm.Ir.Trace.{Trace, events_of_type}
use com_mcm.Solver.Value.{py_eq}
use com_mcm.Graph.Relation.{Relation, Edge, from_edges}
use com_mcm.Graph.Execution.{
  MemoryOperation, OperationKind, init_write, read, write, amo, Meta, scalar, make_operation,
}
use com_mcm.Graph.Checker.{is_empty}
use com_mcm.Graph.Model.{ProjectionSpec, RfHintSpec, CoHintSpec, RelationHintSpec, is_named}
use com_mcm.Graph.Rvwmo.Validate.{Operations}

abbrev is_expression : Attribute → Bool
is_expression (expression e) = true
is_expression (value v) = false

-- `occurs is True`
abbrev occurs_now : Attribute → Bool
occurs_now (value (bool b)) = b
occurs_now _ = false

-- `_concrete_event`
unfoldable pub concrete_event : EventInstance → Result Bool
unfolding any
concrete_event event =
    if occurs_now event.occurs
    then (guard (not (any (λ item. is_expression item.1) event.fields)) graph_error >> ok true)
    else ok false

-- The events of a list that are concrete.
unfoldable pub concrete_events : List EventInstance → Result (List EventInstance)
unfolding concrete_event
concrete_events [] = ok []
concrete_events (event ∷ events) = concrete_event event >>= λ keep.
    concrete_events events >>= λ rest. ok (if keep then event ∷ rest else rest)

-- `_field`. The fields of a concrete event hold values.
unfoldable pub field_of : EventInstance → String → Result Value
unfolding lookup
field_of event name = elim (lookup name event.fields) [
  | none ↦ err graph_error
  | some (value v) ↦ ok v
  | some (expression e) ↦ err type_error
]

-- `str(_field(event, name))`
unfoldable pub text_field : EventInstance → String → Result String
unfolding field_of str
text_field event name = field_of event name >>= λ v. ok (str v)

abbrev pub int_field : EventInstance → String → Result ℤ
int_field event name = field_of event name >>= int_of

-- The dict `commits`.
unfoldable pub add_commits :
    ProjectionSpec
    → List EventInstance
    → List (String × EventInstance)
    → Result (List (String × EventInstance))
unfolding text_field lookup put
add_commits projection [] commits = ok commits
add_commits projection (event ∷ events) commits =
    if not (event.event_type == projection.load_commit_event)
    then add_commits projection events commits
    else (text_field event projection.id_field >>= λ op_id.
        guard (is_none (lookup op_id commits)) graph_error
        >> add_commits projection events (put op_id event commits))

abbrev scalar_or_none : Option Attribute → Option Meta
scalar_or_none (some (value v)) = some (scalar v)
scalar_or_none _ = none

abbrev field_meta : EventInstance → Option String → Option Meta
field_meta event none = none
field_meta event (some name) = scalar_or_none (lookup name event.fields)

-- `metadata`, with the atomic kind where it is given.
unfoldable pub metadata_of : ProjectionSpec → EventInstance → Option String → String → Option Meta
unfolding lookup
metadata_of projection event none key = field_meta event (lookup key projection.metadata_fields)
metadata_of projection event (some kind) key =
    if key == "atomic_kind"
    then some (scalar (text kind))
    else field_meta event (lookup key projection.metadata_fields)

-- The operation of an event that writes the initial value, stores, loads or does both.
unfoldable pub init_operation : ProjectionSpec → EventInstance → Result MemoryOperation
unfolding field_of text_field metadata_of make_operation
init_operation projection event = text_field event projection.id_field >>= λ op_id.
    field_of event projection.address_field >>= λ address.
    field_of event projection.value_field >>= λ v. make_operation (record {
      id = op_id;
      kind = init_write;
      address = address;
      value = v;
      write_value = null;
      hart = none;
      program_index = none;
      source_event_id = event.id;
      commit_event_id = "";
      metadata = metadata_of projection event none;
    })

unfoldable pub store_operation : ProjectionSpec → EventInstance → Result MemoryOperation
unfolding field_of text_field int_of metadata_of make_operation
store_operation projection event = text_field event projection.id_field >>= λ op_id.
    field_of event projection.address_field >>= λ address.
    field_of event projection.value_field >>= λ v. int_field event projection.hart_field >>= λ hart.
    int_field event projection.program_index_field >>= λ index. make_operation (record {
      id = op_id;
      kind = write;
      address = address;
      value = v;
      write_value = null;
      hart = some hart;
      program_index = some index;
      source_event_id = event.id;
      commit_event_id = "";
      metadata =
          metadata_of projection event
            (if is_named projection.sc_event event.event_type then some "sc" else none);
    })

unfoldable pub amo_operation :
    ProjectionSpec → EventInstance → String → EventInstance → Result MemoryOperation
unfolding field_of int_of metadata_of make_operation
amo_operation projection event op_id commit = field_of event projection.address_field >>= λ address.
    field_of commit projection.value_field >>= λ v.
    field_of event projection.write_value_field >>= λ stored.
    int_field event projection.hart_field >>= λ hart.
    int_field event projection.program_index_field >>= λ index. make_operation (record {
      id = op_id;
      kind = amo;
      address = address;
      value = v;
      write_value = stored;
      hart = some hart;
      program_index = some index;
      source_event_id = event.id;
      commit_event_id = commit.id;
      metadata = metadata_of projection event (some "amo");
    })

unfoldable pub load_operation :
    ProjectionSpec → EventInstance → String → EventInstance → Result MemoryOperation
unfolding field_of int_of metadata_of make_operation
load_operation projection event op_id commit = field_of commit projection.value_field >>= λ v.
    field_of event projection.address_field >>= λ address.
    int_field event projection.hart_field >>= λ hart.
    int_field event projection.program_index_field >>= λ index. make_operation (record {
      id = op_id;
      kind = read;
      address = address;
      value = v;
      write_value = null;
      hart = some hart;
      program_index = some index;
      source_event_id = event.id;
      commit_event_id = commit.id;
      metadata =
          metadata_of projection event
            (if is_named projection.lr_event event.event_type then some "lr" else none);
    })

-- An operation that waits for the commit of its load: none if there is none and none is required.
unfoldable pub committed :
    ProjectionSpec
    → List (String × EventInstance)
    → EventInstance
    → (String → EventInstance → Result MemoryOperation)
    → Result (Option MemoryOperation)
unfolding text_field lookup
committed projection commits event operation = text_field event projection.id_field >>= λ op_id.
    elim (lookup op_id commits) [
      | none ↦ guard (not projection.require_committed_loads) graph_error >> ok none
      | some commit ↦ operation op_id commit >>= λ op. ok (some op)
    ]

-- The body of the loop over the events.
unfoldable pub operation_of :
    ProjectionSpec → List (String × EventInstance) → EventInstance → Result (Option MemoryOperation)
unfolding init_operation store_operation amo_operation load_operation committed
operation_of projection commits event =
    if event.event_type == projection.init_write_event
    then (init_operation projection event >>= λ op. ok (some op))
    else if is_named projection.amo_event event.event_type
    then committed projection commits event (amo_operation projection event)
    else if event.event_type == projection.store_event
        || is_named projection.sc_event event.event_type
    then (store_operation projection event >>= λ op. ok (some op))
    else if event.event_type == projection.load_event
        || is_named projection.lr_event event.event_type
    then committed projection commits event (load_operation projection event)
    else ok none

-- `add`
unfoldable pub add_operation : Option MemoryOperation → Operations → Result Operations
unfolding lookup put
add_operation none operations = ok operations
add_operation (some op) operations =
    guard (is_none (lookup op.id operations)) graph_error >> ok (put op.id op operations)

unfoldable pub add_operations :
    ProjectionSpec
    → List (String × EventInstance)
    → List EventInstance
    → Operations
    → Result Operations
unfolding operation_of add_operation
add_operations projection commits [] operations = ok operations
add_operations projection commits (event ∷ events) operations =
    operation_of projection commits event >>= λ op.
    add_operation op operations >>= λ rest. add_operations projection commits events rest

unfoldable pub project_operations : Trace → ProjectionSpec → Result Operations
unfolding concrete_events add_commits add_operations
project_operations trace projection = concrete_events trace.events >>= λ events.
    add_commits projection events [] >>= λ commits.
    add_operations projection commits events [] >>= λ operations.
    guard (not (is_empty operations)) graph_error >> ok operations
