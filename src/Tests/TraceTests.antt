-- ===== src/Tests/TraceTests.antt =====
-- Validating a small trace by src/umcm/ir/trace.py and src/umcm/ir/event.py.
use com_mcm.Prelude.{
  ◌≡◌, refl, ap, ◌∙◌, String, true, false, Option, none, some, [], ◌∷◌, Memᴰ, text_eq_instance, inl,
  inr,
}
use mathlib.Core.List.Memᴰ
use com_mcm.Prelude.Int.{pos}
use com_mcm.Errors.{ok, err, trace_validation_error}
use com_mcm.Ir.Sort.{int, bool, int_sort, bool_sort}
use com_mcm.Ir.Expression.{Expr, binary, literal, event_field, lt_op, iter_event_fields}
use com_mcm.Ir.Event.{
  Attribute, value, EventInstance, EventType, EventCatalog, architectural, instance_is_valid,
}
use com_mcm.Ir.Trace.{Trace, get, validate}
use com_mcm.Solver.Evaluator.{select}
use com_mcm.Solver.Evaluator.Traces.{Fits, validate-Fits}

abbrev load_type : EventType
load_type = record {
  name = "lsu.load";
  module_name = "lsu";
  layer = "core";
  fields =
      record { name = "address"; sort = int_sort; required = true; identity = false }
      ∷ record { name = "hit"; sort = bool_sort; required = false; identity = false }
      ∷ [];
  visibility = architectural;
}

abbrev catalog : EventCatalog
catalog = ("lsu.load", load_type) ∷ []

abbrev load_at : String → Option Attribute → EventInstance
load_at id cycle = record {
  id = id;
  event_type = "lsu.load";
  fields = ("address", value (int (pos 8))) ∷ [];
  cycle = cycle;
  occurs = value (bool true);
}

-- The first load comes before cycle 3, and at the address of the second or a greater one.
abbrev early : Expr
early = binary lt_op (event_field "e0" "cycle" int_sort) (literal (int (pos 3)) int_sort)

abbrev ordered : Expr
ordered = binary lt_op (event_field "e0" "address" int_sort) (event_field "e1" "address" int_sort)

abbrev trace : Trace
trace = record {
  events = load_at "e0" (some (value (int (pos 2)))) ∷ load_at "e1" none ∷ [];
  constraints = early ∷ ordered ∷ [];
  partial = true;
}

trace-valid : validate trace catalog false ≡ ok tt
unfolding validate
trace-valid = refl

e0-valid : instance_is_valid (load_at "e0" (some (value (int (pos 2))))) ≡ true
unfolding instance_is_valid
e0-valid = refl

e1-valid : instance_is_valid (load_at "e1" none) ≡ true
unfolding instance_is_valid
e1-valid = refl

events-valid : (event : EventInstance) → Memᴰ event trace.events → instance_is_valid event ≡ true
events-valid event m = elim (Memᴰ.cases_cons m) [
  | inl e ↦ ap instance_is_valid e ∙ e0-valid
  | inr k ↦ elim (Memᴰ.cases_cons k) [
    | inl e ↦ ap instance_is_valid e ∙ e1-valid
    | inr n ↦ absurd (Memᴰ.not-nil n)
  ]
]

reference-listed : Memᴰ ("e1", "address", int_sort) (iter_event_fields ordered)
unfolding iter_event_fields
reference-listed = Memᴰ.tail (Memᴰ.head refl)

validate-Fits_example :
    (event : EventInstance) × (get trace.events "e1" ≡ some event)
    × ((a : Attribute) → select "address" event ≡ some a → Fits int_sort "address" a)
validate-Fits_example =
    validate-Fits trace catalog false events-valid trace-valid ordered (Memᴰ.tail (Memᴰ.head refl))
      "e1" "address" int_sort reference-listed

-- A reference of another sort is refused.
abbrev wrong_sort : Trace
wrong_sort = record {
  events = trace.events;
  constraints = event_field "e0" "address" bool_sort ∷ [];
  partial = true;
}

wrong_sort-refused : validate wrong_sort catalog true ≡ err trace_validation_error
unfolding validate
wrong_sort-refused = refl
