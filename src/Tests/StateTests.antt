-- ===== src/Tests/StateTests.antt =====
-- A cell that is written at cycle 0 and read at cycle 1 (src/umcm/solver/state.py).
use com_mcm.Prelude.{◌≡◌, refl, ℕ, String, true, Option, none, List, [], ◌∷◌, text_eq_instance}
use com_mcm.Prelude.Int.{pos}
use com_mcm.Errors.{Result, ok}
use com_mcm.Ir.Sort.{Value, int, bool, int_sort, bool_sort}
use com_mcm.Ir.Expression.{Expr, literal, symbol, binary, ge_op}
use com_mcm.Ir.Event.{value, EventInstance}
use com_mcm.Solver.Evaluator.{Partial, Function, evaluate}
use com_mcm.Solver.Problem.{StateRequirementInstance, StateUpdateInstance, StateProblem, eq}
use com_mcm.Solver.State.{State, StateStep, feasible, infeasible, check_state_semantics}
use com_mcm.Solver.Finite.{FiniteVariable, Assignment, unassigned, assign, sat}
use com_mcm.Solver.Finite.Sound.{Completes, Satisfies}
use com_mcm.Solver.Finite.Machine.{
  evaluate_under, state_check, solve_problem, Runs, solve_problem-Runs,
}
use com_mcm.Solver.State.Verdict.{IsRun, check_state_semantics-IsRun}

abbrev no_events : String → Option EventInstance
no_events id = none

abbrev no_values : String → Option Value
no_values name = none

abbrev no_functions : String → Option Function
no_functions name = none

abbrev constant : Expr → Result Partial
constant =
    evaluate 1 (record { events = no_events; assignment = no_values; functions = no_functions })

abbrev yes : Expr
yes = literal (bool true) bool_sort

abbrev number : ℕ → Expr
number n = literal (int (pos n)) int_sort

abbrev fill : StateUpdateInstance
fill = record {
  name = "fill";
  state = "m.valid";
  cycle = number 0;
  activation = yes;
  value = number 1;
}

abbrev filled : StateRequirementInstance
filled = record {
  name = "filled";
  state = "m.valid";
  cycle = number 1;
  activation = yes;
  op = eq;
  expected = number 1;
}

abbrev problem : StateProblem
problem = record {
  variables =
      record { name = "m.valid"; initial = value (int (pos 0)) }
      ∷ record { name = "m.count"; initial = value (int (pos 7)) }
      ∷ [];
  horizon = 1;
  requirements = filled ∷ [];
  updates = fill ∷ [];
  forwards = [];
  supports = [];
}

abbrev before : State
before = ("m.valid", int (pos 0)) ∷ ("m.count", int (pos 7)) ∷ []

abbrev after : State
after = ("m.valid", int (pos 1)) ∷ ("m.count", int (pos 7)) ∷ []

abbrev steps : List StateStep
steps =
    record {
      cycle = 0;
      before = before;
      after = after;
      changes = record { state = "m.valid"; before = int (pos 0); after = int (pos 1) } ∷ [];
    }
    ∷ record { cycle = 1; before = after; after = after; changes = [] }
    ∷ []

problem-feasible : check_state_semantics constant problem ≡ ok (feasible before after steps)
unfolding check_state_semantics evaluate
problem-feasible = refl

check_state_semantics-IsRun_example : IsRun constant problem before after
check_state_semantics-IsRun_example =
    check_state_semantics-IsRun constant problem before after steps problem-feasible

-- Two writes to one cell in a cycle that do not agree.
abbrev conflict : StateProblem
conflict = record problem { updates = fill ∷ record fill { name = "clear"; value = number 0 } ∷ [] }

conflict-refused : check_state_semantics constant conflict ≡ ok infeasible
unfolding check_state_semantics evaluate
conflict-refused = refl

-- The value that is written is searched for: the requirement refuses 0, which the constraint allows.
abbrev amount : Expr
amount = symbol "amount" int_sort

abbrev amounts : List FiniteVariable
amounts =
    record {
      name = "amount";
      sort = int_sort;
      domain = int (pos 0) ∷ int (pos 1) ∷ int (pos 2) ∷ [];
    }
    ∷ []

abbrev constraints : List Expr
constraints = binary ge_op amount (number 0) ∷ []

abbrev searched : StateProblem
searched = record problem { updates = record fill { value = amount } ∷ [] }

abbrev one_written : Assignment
one_written = assign unassigned "amount" (int (pos 1))

searched_sat :
    solve_problem 1 no_events no_functions searched constraints 100 amounts ≡ ok (sat one_written)
unfolding solve_problem
searched_sat = refl

solve_problem-Runs_example :
    Completes amounts unassigned one_written
    × Satisfies
        (evaluate_under 1 no_events no_functions)
        (state_check 1 no_events no_functions searched)
        constraints
        100
        one_written
    × Runs 1 no_events no_functions searched one_written
solve_problem-Runs_example =
    solve_problem-Runs 1 no_events no_functions searched constraints 100 amounts one_written
      searched_sat
