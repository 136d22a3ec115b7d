-- ===== src/Ir/Trace.antt =====
-- Traces: src/umcm/ir/trace.py. The metadata, which is only carried along, is left out.

use com_mcm.Prelude.{
  String, Bool, not, ◌&&◌, Option, none, some, List, [], ◌∷◌, ◌++◌, map, all, filter, flat_map,
  sorted, text_leb, if◌then◌else◌, ◌==◌, text_eq_instance,
}
use Prim.Native.String.{◌++◌ as text_append}
use com_mcm.Errors.{Result, ok, err, trace_validation_error, guard, ◌>>=◌, ◌>>◌}
use com_mcm.Ir.Sort.{Sort, is_bool, compatible_with, bool_sort, int_sort}
use com_mcm.Ir.Expression.{
  Expr, Exprs, event_field, unary, binary, nary, if_expr, call, nil, cons, sort_of, FieldRef,
  iter_event_fields,
}
use com_mcm.Ir.Event.{
  EventInstance, Attribute, EventCatalog, resolve, find_field, validate_events, repeats_name,
}

pub record Trace : Type 0 where
  pub events : List EventInstance
  pub constraints : List Expr
  pub partial : Bool

-- `_validate_structure`
unfoldable pub structure_is_valid : Trace → Bool
unfolding repeats_name all sort_of
structure_is_valid t =
    not (repeats_name (map (λ event. event.id) t.events))
    && all (λ c. is_bool (sort_of c)) t.constraints

unfoldable pub make_trace : Trace → Result Trace
unfolding structure_is_valid
make_trace t = guard (structure_is_valid t) trace_validation_error >> ok t

-- `get`
unfoldable pub get : List EventInstance → String → Option EventInstance
get [] id = none
get (event ∷ events) id = if event.id == id then some event else get events id

abbrev pub get_or_raise : Option EventInstance → Result EventInstance
get_or_raise none = err trace_validation_error
get_or_raise (some event) = ok event

-- The sort that a reference to a field of the event has to have.
unfoldable pub expected_sort : EventCatalog → EventInstance → String → Result Sort
unfolding resolve find_field
expected_sort catalog event name =
    if name == "cycle"
    then ok int_sort
    else if name == "occurs"
    then ok bool_sort
    else (resolve catalog event.event_type >>= λ t. elim (find_field name t.fields) [
      | none ↦ err trace_validation_error
      | some spec ↦ ok spec.sort
    ])

unfoldable pub validate_reference : EventCatalog → List EventInstance → FieldRef → Result (Unit {0})
unfolding get expected_sort compatible_with
validate_reference catalog events (event_id, name, sort) =
    get_or_raise (get events event_id) >>= λ event. expected_sort catalog event name >>= λ expected.
    guard (compatible_with sort expected) trace_validation_error

unfoldable pub validate_references :
    EventCatalog → List EventInstance → List FieldRef → Result (Unit {0})
unfolding validate_reference
validate_references catalog events [] = ok tt
validate_references catalog events (r ∷ rs) =
    validate_reference catalog events r >> validate_references catalog events rs

-- `validate`; `partial` is the argument, or the flag of the trace where it is None.
unfoldable pub validate : Trace → EventCatalog → Bool → Result (Unit {0})
unfolding structure_is_valid validate_events validate_references flat_map iter_event_fields
validate t catalog partial =
    guard (structure_is_valid t) trace_validation_error
    >> validate_events catalog t.events partial
    >> validate_references catalog t.events (flat_map iter_event_fields t.constraints)

unfoldable pub events_of_type : Trace → String → List EventInstance
unfolding filter
events_of_type t name = filter (λ event. event.event_type == name) t.events

pub record PartialObservation : Type 0 where
  pub event_id : String
  pub path : String
  pub observed : Attribute

abbrev pub observation : String → String → Attribute → PartialObservation
observation id path a = record { event_id = id; path = path; observed = a }

abbrev pub cycle_observations : EventInstance → List PartialObservation
cycle_observations event = elim event.cycle [
  | none ↦ []
  | some a ↦ observation event.id "cycle" a ∷ []
]

abbrev pub field_leb : String × Attribute → String × Attribute → Bool
field_leb (a, x) (b, y) = text_leb a b

unfoldable pub observations_of : EventInstance → List PartialObservation
unfolding sorted
observations_of event =
    (observation event.id "occurs" event.occurs ∷ cycle_observations event)
    ++ map (λ (name, a). observation event.id (text_append "fields." name) a)
        (sorted field_leb event.fields)

unfoldable pub observations : Trace → List PartialObservation
unfolding observations_of flat_map
observations t = flat_map observations_of t.events

-- `_event_references`
unfoldable mutual
  pub event_references : Expr → List String
  event_references (event_field i f s) = i ∷ []
  event_references (unary op e) = event_references e
  event_references (binary op l r) = event_references l ++ event_references r
  event_references (nary op es) = references_all es
  event_references (if_expr c t e) =
      (event_references c ++ event_references t) ++ event_references e
  event_references (call f es s) = references_all es
  event_references _ = []

  pub references_all : Exprs → List String
  references_all nil = []
  references_all (cons e es) = event_references e ++ references_all es
