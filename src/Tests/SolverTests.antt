-- ===== src/Tests/SolverTests.antt =====
-- Expressions (src/umcm/ir/expression.py), the evaluator and the search (src/umcm/solver) on small
-- inputs.
use com_mcm.Prelude.{
  ◌≡◌, ◌≢◌, refl, ap, String, Bool, Option, none, some, List, [], ◌∷◌, Memᴰ, true, false, ◌==◌,
  text_eq_instance, sym, subst, if◌then◌else◌,
}
use mathlib.Core.List.Memᴰ
use mathlib.Core.Option.{some-injective}
use com_mcm.Prelude.Int.{pos}
use com_mcm.Errors.{Result, ok}
use com_mcm.Ir.Sort.{
  Value, bool, int, is_bool_value, bool_sort, int_sort, compatible_with, accepts_literal,
}
use com_mcm.Ir.Expression.{
  Expr, literal, symbol, event_field, unary, binary, not_op, and_op, lt_op, well_formed,
  node_is_valid, substitute_event_ids,
}
use com_mcm.Ir.Expression.Rename.{IsRenamed, substitute_event_ids_lem}
use com_mcm.Ir.Event.{EventInstance}
use com_mcm.Solver.Evaluator.{Environment, Function, eval}
use com_mcm.Solver.Evaluator.Depth.{IsReady}
use com_mcm.Solver.Finite.{
  FiniteVariable, Assignment, unassigned, assign, context_of, sat, unsat, solve_finite,
}
use com_mcm.Solver.Finite.Sound.{Completes}
use com_mcm.Solver.Finite.Progressing.{Within}
use com_mcm.Solver.Finite.Verdict.{IsSolution, solve_finite_sound, solve_finite_complete}

abbrev x : Expr
x = symbol "x" bool_sort

-- x and (event e0 comes before cycle 3)
abbrev early : Expr
early =
    binary and_op x
      (binary lt_op (event_field "e0" "cycle" int_sort) (literal (int (pos 3)) int_sort))

early-well_formed : well_formed early ≡ true
unfolding well_formed node_is_valid compatible_with accepts_literal
early-well_formed = refl

abbrev rename_e0 : String → Option String
rename_e0 k = if k == "e0" then some "load" else none

rename_e0_full : (k : String) → rename_e0 k ≢ some ""
rename_e0_full k = renames (k == "e0")
  where
    load_full : ◌≡◌ {A = String} "load" "" → ⊥
    load_full e = let f : false ≡ true = (text_eq_instance.beq_iff "load" "").1 e in cc

    renames : (b : Bool) → ◌≢◌ {A = Option String} (if b then some "load" else none) (some "")
    renames true h = load_full (some-injective _ _ h)
    renames false h = cc

substitute_event_ids_lem_example :
    (e' : Expr) × (substitute_event_ids rename_e0 early ≡ ok e') × IsRenamed rename_e0 early e'
substitute_event_ids_lem_example =
    substitute_event_ids_lem rename_e0 early rename_e0_full early-well_formed

-- Nothing is known, or x is False; the cycle is never known.
abbrev knows : Option Value → Environment
knows v = record { attribute = λ i f. ok none; assignment = λ n. v; functions = λ f. none }

early_unknown : eval (knows none) early ≡ ok none
unfolding eval
early_unknown = refl

abbrev knows_cycle : Environment
knows_cycle = record {
  attribute = λ i f. ok (some (int (pos 7)));
  assignment = λ n. some (bool false);
  functions = λ f. none;
}

abbrev no_events : String → Option EventInstance
no_events i = none

abbrev no_functions : String → Option Function
no_functions f = none

abbrev always : Assignment → Result Bool
always a = ok true

abbrev variable_x : FiniteVariable
variable_x = record { name = "x"; sort = bool_sort; domain = bool false ∷ bool true ∷ [] }

abbrev contradiction : List Expr
contradiction = x ∷ unary not_op x ∷ []

solve_unsat :
    solve_finite 1 no_events no_functions always contradiction 100 (variable_x ∷ []) ≡ ok unsat
unfolding solve_finite
solve_unsat = refl

solve_sat :
    solve_finite 1 no_events no_functions always (x ∷ []) 100 (variable_x ∷ [])
    ≡ ok (sat (assign unassigned "x" (bool true)))
unfolding solve_finite
solve_sat = refl

solve_finite_sound_example :
    Completes (variable_x ∷ []) unassigned (assign unassigned "x" (bool true))
    × IsSolution 1 no_events no_functions always
        (x ∷ [])
        100
        (variable_x ∷ [])
        (assign unassigned "x" (bool true))
solve_finite_sound_example =
    solve_finite_sound 1 no_events no_functions always (x ∷ []) 100 (variable_x ∷ [])
      (assign unassigned "x" (bool true)) solve_sat

x_kind :
    (a : Assignment)
    → Within (variable_x ∷ []) a
    → (v : Value) → a "x" ≡ some v
    → is_bool_value v ≡ true
x_kind a w v h = let (u, m, n, d) = w "x" v h in domain u m d
  where
    value_kind : Memᴰ v (bool false ∷ bool true ∷ []) → is_bool_value v ≡ true
    value_kind (Memᴰ.head e) = ap is_bool_value e
    value_kind (Memᴰ.tail (Memᴰ.head e)) = ap is_bool_value e
    value_kind (Memᴰ.tail (Memᴰ.tail m)) = elim m [ ]

    domain :
        (u : FiniteVariable) → Memᴰ u (variable_x ∷ []) → Memᴰ v u.domain → is_bool_value v ≡ true
    domain u m d =
        value_kind (subst (λ (z : FiniteVariable). Memᴰ v z.domain) (Memᴰ.eq_of_singleton m) d)

ready :
    (a : Assignment)
    → Within (variable_x ∷ []) a
    → (c : Expr) → Memᴰ c contradiction
    → IsReady 1 (context_of no_events no_functions a) c
unfolding well_formed node_is_valid
ready a w c (Memᴰ.head e) =
    subst (λ z. IsReady 1 (context_of no_events no_functions a) z) (sym e)
      (refl, x_kind a w, λ i f event e' p q. cc)
ready a w c (Memᴰ.tail (Memᴰ.head e)) =
    subst (λ z. IsReady 1 (context_of no_events no_functions a) z) (sym e)
      (refl, x_kind a w, λ i f event e' p q. cc)
ready a w c (Memᴰ.tail (Memᴰ.tail m)) = elim m [ ]

solve_finite_complete_example :
    ¬ IsSolution 1 no_events no_functions always contradiction 100
      (variable_x ∷ [])
      (assign unassigned "x" (bool true))
solve_finite_complete_example =
    solve_finite_complete 1 no_events no_functions always contradiction 100 (variable_x ∷ [])
      ((λ u m. absurd (Memᴰ.not-nil m)), tt) ready solve_unsat (assign unassigned "x" (bool true))
      (bool true, Memᴰ.tail (Memᴰ.head refl), refl)
