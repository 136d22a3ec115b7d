-- ===== src/Solver/Finite/Verdict.antt =====
-- What an answer of `solve_finite` (src/umcm/solver/finite.py) means.
use com_mcm.Prelude.{◌≡◌, String, Option, List, ℕ, Bool, true, Memᴰ}
use com_mcm.Errors.{Result, ok}
use com_mcm.Ir.Expression.{Expr}
use com_mcm.Ir.Event.{EventInstance}
use com_mcm.Solver.Evaluator.{Function, evaluate}
use com_mcm.Solver.Evaluator.Depth.{IsReady, evaluate_mono}
use com_mcm.Solver.Finite.{
  FiniteVariable, Assignment, unassigned, context_of, sat, unsat, solve_finite,
}
use com_mcm.Solver.Finite.Sound.{Completes, Satisfies, solve_sound}
use com_mcm.Solver.Finite.Progressing.{DistinctNames, Within}
use com_mcm.Solver.Finite.Complete.{solve_complete}

module _ (depth : ℕ) (events : String → Option EventInstance) (functions : String → Option Function)
    (state_feasible : Assignment → Result Bool) (constraints : List Expr) (node_limit : ℕ)
    (variables : List FiniteVariable) where
  -- The assignment makes every constraint True and passes the check of the state semantics.
  abbrev pub IsSolution : Assignment → Type 0
  IsSolution b =
      Satisfies (λ a c. evaluate depth (context_of events functions a) c) state_feasible constraints
        node_limit b
      × (state_feasible b ≡ ok true)

  -- If the solver answers SAT, its assignment gives every variable a value of its domain and
  -- nothing else a value, makes every constraint True, and passes the state check.
  pub solve_finite_sound :
      (w : Assignment)
      → solve_finite depth events functions state_feasible constraints node_limit variables
        ≡ ok (sat w)
      → Completes variables unassigned w × IsSolution w
  unfolding solve_finite
  solve_finite_sound w h =
      let (c, s, f) =
        solve_sound (λ a c. evaluate depth (context_of events functions a) c) state_feasible
          constraints node_limit variables w h in
      (c, (s, f))

  -- If the names of the variables differ, the constraints are well-formed and their values have
  -- the kinds of their sorts under every partial assignment from the domains, and the solver
  -- answers UNSAT, then no assignment of values from the domains is a solution.
  pub solve_finite_complete :
      DistinctNames variables
      → ((a : Assignment)
          → Within variables a
          → (c : Expr) → Memᴰ c constraints
          → IsReady depth (context_of events functions a) c)
      → solve_finite depth events functions state_feasible constraints node_limit variables
        ≡ ok unsat
      → (b : Assignment) → Completes variables unassigned b
      → ¬ IsSolution b
  unfolding solve_finite
  solve_finite_complete d ready h =
      solve_complete (λ a c. evaluate depth (context_of events functions a) c) state_feasible
        constraints node_limit variables
        (λ a b w l c m. evaluate_mono depth (context_of events functions a) b c l (ready a w c m)) d
        h
