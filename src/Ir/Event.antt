-- ===== src/Ir/Event.antt =====
-- Event schemas, catalogs and instances: src/umcm/ir/event.py. A value of a field is a scalar or an
-- expression; no sort accepts another value. Annotations, tags and descriptions, which the program
-- only carries along, are left out.
use Prim.Native.Char.{code}
use com_mcm.Prelude.{
  String, Bool, true, false, not, ◌&&◌, ◌||◌, Option, none, some, List, [], ◌∷◌, map, all,
  if◌then◌else◌, ◌==◌, text_eq_instance, nat_eq, has,
}
use com_mcm.Prelude.Int.{pos, leb_ℤ}
use com_mcm.Errors.{Result, ok, err, schema_error, trace_validation_error, guard, ◌>>=◌, ◌>>◌}
use com_mcm.Ir.Sort.{
  Value, int, Sort, compatible_with, accepts_literal, bool_sort, int_sort, is_bool_value,
}
use com_mcm.Ir.Expression.{Expr, sort_of}

pub data Visibility : Type 0 where
  internal public architectural : Visibility

pub record FieldSpec : Type 0 where
  pub name : String
  pub sort : Sort
  pub required : Bool
  pub identity : Bool

unfoldable pub make_field : FieldSpec → Result FieldSpec
make_field f = guard (not (f.name == "")) schema_error >> ok f

pub record EventType : Type 0 where
  pub name : String
  pub module_name : String
  pub layer : String
  pub fields : List FieldSpec
  pub visibility : Visibility

-- `"." in text`
unfoldable pub has_dot : String → Bool
has_dot String.[] = false
has_dot (String.◌∷◌ c s) = code c == 46 || has_dot s

-- `len(names) != len(set(names))`
unfoldable pub repeats_name : List String → Bool
unfolding has
repeats_name [] = false
repeats_name (x ∷ xs) = has x xs || repeats_name xs

-- The tests of `__post_init__`.
unfoldable pub type_is_valid : EventType → Bool
unfolding has_dot repeats_name
type_is_valid t =
    has_dot t.name
    && not (t.module_name == "")
    && not (t.layer == "")
    && not (repeats_name (map (λ f. f.name) t.fields))

unfoldable pub make_type : EventType → Result EventType
unfolding type_is_valid
make_type t = guard (type_is_valid t) schema_error >> ok t

-- `field_map.get(name)`: of two fields of one name the later counts.
unfoldable pub find_field : String → List FieldSpec → Option FieldSpec
find_field name [] = none
find_field name (f ∷ fs) = elim (find_field name fs) [
  | some g ↦ some g
  | none ↦ if f.name == name then some f else none
]

pub data Attribute : Type 0 where
  value : Value → Attribute
  expression : Expr → Attribute

pub record EventInstance : Type 0 where
  pub id : String
  pub event_type : String
  pub fields : List (String × Attribute)
  pub cycle : Option Attribute
  pub occurs : Attribute

-- `isinstance(cycle, int)` and not below 0, or of sort int, or None.
abbrev pub cycle_is_valid : Option Attribute → Bool
cycle_is_valid none = true
cycle_is_valid (some (value (int i))) = leb_ℤ (pos 0) i
cycle_is_valid (some (value _)) = false
cycle_is_valid (some (expression e)) = compatible_with (sort_of e) int_sort

abbrev pub occurs_is_valid : Attribute → Bool
occurs_is_valid (value v) = is_bool_value v
occurs_is_valid (expression e) = compatible_with (sort_of e) bool_sort

-- The tests of `__post_init__` and `_validate_common_attributes`.
unfoldable pub instance_is_valid : EventInstance → Bool
unfolding compatible_with sort_of
instance_is_valid event =
    not (event.id == "")
    && not (event.event_type == "")
    && cycle_is_valid event.cycle
    && occurs_is_valid event.occurs

unfoldable pub make_event : EventInstance → Result EventInstance
unfolding instance_is_valid
make_event event = guard (instance_is_valid event) trace_validation_error >> ok event

-- A value or an expression of the sort of its field.
unfoldable pub fits_sort : Sort → Attribute → Bool
unfolding compatible_with sort_of accepts_literal
fits_sort s (value v) = accepts_literal s v
fits_sort s (expression e) = compatible_with (sort_of e) s

-- The field is declared, and what it holds is of its sort.
unfoldable pub fits_field : List FieldSpec → String × Attribute → Bool
unfolding find_field fits_sort
fits_field specs (name, attribute) = elim (find_field name specs) [
  | none ↦ false
  | some spec ↦ fits_sort spec.sort attribute
]

-- A required field is there.
unfoldable pub has_required : List (String × Attribute) → FieldSpec → Bool
unfolding has
has_required fields spec = not spec.required || has spec.name (map (λ item. item.0) fields)

-- `validate_against`
unfoldable pub validate_against : EventInstance → EventType → Bool → Result (Unit {0})
unfolding fits_field has_required all
validate_against event event_type partial =
    guard (event.event_type == event_type.name) trace_validation_error
    >> guard (partial || all (has_required event.fields) event_type.fields) trace_validation_error
    >> guard (all (fits_field event_type.fields) event.fields) trace_validation_error

abbrev pub EventCatalog : Type 0
EventCatalog = List (String × EventType)

unfoldable pub find_type : String → EventCatalog → Option EventType
find_type name [] = none
find_type name ((k, t) ∷ rest) = if k == name then some t else find_type name rest

unfoldable pub catalog_is_valid : EventCatalog → Bool
unfolding all
catalog_is_valid catalog = all (λ item. item.0 == item.1.name) catalog

unfoldable pub make_catalog : EventCatalog → Result EventCatalog
unfolding catalog_is_valid
make_catalog catalog = guard (catalog_is_valid catalog) schema_error >> ok catalog

-- `register`
unfoldable pub register : EventCatalog → EventType → Result EventCatalog
unfolding find_type
register catalog t = elim (find_type t.name catalog) [
  | some other ↦ err schema_error
  | none ↦ ok ((t.name, t) ∷ catalog)
]

unfoldable pub resolve : EventCatalog → String → Result EventType
unfolding find_type
resolve catalog name = elim (find_type name catalog) [
  | none ↦ err trace_validation_error
  | some t ↦ ok t
]

unfoldable pub validate_events : EventCatalog → List EventInstance → Bool → Result (Unit {0})
unfolding resolve validate_against
validate_events catalog [] partial = ok tt
validate_events catalog (event ∷ events) partial = resolve catalog event.event_type >>= λ t.
    validate_against event t partial >> validate_events catalog events partial
