-- ===== src/Solver/Finite/Machine.antt =====
-- `solve_finite` (src/umcm/solver/finite.py) with the check that it makes of a complete assignment,
-- `check_state_semantics` (src/umcm/solver/state.py).
use com_mcm.Prelude.{◌≡◌, String, Bool, true, false, Option, List, ℕ}
use com_mcm.Errors.{Result, ok, ◌>>=◌, >>=-eq-ok, ok-injective}
use com_mcm.Ir.Expression.{Expr}
use com_mcm.Ir.Event.{EventInstance}
use com_mcm.Solver.Evaluator.{Partial, Function, evaluate}
use com_mcm.Solver.Problem.{StateProblem}
use com_mcm.Solver.State.{State, StateCheckResult, infeasible, feasible, check_state_semantics}
use com_mcm.Solver.State.Verdict.{IsRun, check_state_semantics-IsRun}
use com_mcm.Solver.Finite.{
  FiniteVariable, Assignment, unassigned, context_of, Status, sat, solve_finite,
}
use com_mcm.Solver.Finite.Sound.{Completes, Satisfies}
use com_mcm.Solver.Finite.Verdict.{solve_finite_sound}

-- `state_result.feasible`
abbrev is_feasible : StateCheckResult → Bool
is_feasible (feasible initial final steps) = true
is_feasible infeasible = false

module _ (depth : ℕ) (events : String → Option EventInstance)
    (functions : String → Option Function) where
  abbrev pub evaluate_under : Assignment → Expr → Result Partial
  evaluate_under a c = evaluate depth (context_of events functions a) c

module _ (depth : ℕ) (events : String → Option EventInstance) (functions : String → Option Function)
    (problem : StateProblem) where
  -- `check_state_semantics(problem, assignment)` and the test of its result.
  unfoldable pub state_check : Assignment → Result Bool
  unfolding check_state_semantics
  state_check a = check_state_semantics (evaluate_under depth events functions a) problem >>= λ r.
      ok (is_feasible r)

  unfoldable pub solve_problem : List Expr → ℕ → List FiniteVariable → Result Status
  unfolding solve_finite state_check
  solve_problem constraints node_limit variables =
      solve_finite depth events functions state_check constraints node_limit variables

  -- The machine of the problem runs under the assignment.
  abbrev pub Runs : Assignment → Type 0
  Runs a =
      (initial : State) × (final : State) × IsRun (evaluate_under depth events functions a) problem
        initial final

  state_check-Runs : (a : Assignment) → state_check a ≡ ok true → Runs a
  unfolding state_check
  state_check-Runs a h =
      let (r, p, q) =
        >>=-eq-ok (check_state_semantics (evaluate_under depth events functions a) problem) _ h in
      go r p (ok-injective q)
    where
      go :
          (r : StateCheckResult)
          → check_state_semantics (evaluate_under depth events functions a) problem ≡ ok r
          → is_feasible r ≡ true
          → Runs a
      go (feasible initial final steps) p q = (
        initial,
        final,
        check_state_semantics-IsRun (evaluate_under depth events functions a) problem initial final
            steps p,
      )
      go infeasible p q = absurd cc

  -- If the solver with the check of the state semantics answers SAT, its assignment gives every
  -- variable a value of its domain and nothing else a value, makes every constraint True, and the
  -- machine of the problem runs under it.
  pub solve_problem-Runs :
      (constraints : List Expr) (node_limit : ℕ) (variables : List FiniteVariable) (w : Assignment)
      → solve_problem constraints node_limit variables ≡ ok (sat w)
      → Completes variables unassigned w
        × Satisfies (evaluate_under depth events functions) state_check constraints node_limit w
        × Runs w
  unfolding solve_problem
  solve_problem-Runs constraints node_limit variables w h =
      let (c, (s, f)) =
        solve_finite_sound depth events functions state_check constraints node_limit variables w
          h in
      (c, s, state_check-Runs w f)
