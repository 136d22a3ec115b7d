-- ===== src/Solver/Finite.antt =====
-- The search of `solve_finite` (src/umcm/solver/finite.py). The check of the state semantics of a
-- complete assignment is an argument, as is the evaluation of a constraint: `solve_finite` supplies
-- the evaluator, and Machine the check. The text of the reason is left out.
pub mod Sound
pub mod Progressing
pub mod Complete
pub mod Verdict
pub mod Machine
use com_mcm.Prelude.{
  ◌≡◌, String, Bool, true, false, ◌||◌, Option, none, some, List, [], ◌∷◌, ℕ, zero, suc, ◌+◌,
  if◌then◌else◌, ltb, ◌==◌, text_eq_instance, any, all,
}
use com_mcm.Errors.{Result, ok, err, Error, ◌>>=◌}
use com_mcm.Ir.Sort.{Value, Sort}
use com_mcm.Ir.Expression.{Expr}
use com_mcm.Ir.Event.{EventInstance}
use com_mcm.Solver.Evaluator.{
  Partial, is_true, is_false, is_unknown, EvaluationContext, Function, evaluate,
}

pub record FiniteVariable : Type 0 where
  pub name : String
  pub sort : Sort
  pub domain : List Value

-- The dict `assignment`.
abbrev pub Assignment : Type 0
Assignment = String → Option Value

abbrev pub unassigned : Assignment
unassigned n = none

-- `assignment[name] = value`
abbrev pub assign : Assignment → String → Value → Assignment
assign a name value n = if n == name then some value else a n

-- The counters that the search shares between its calls.
pub record Progress : Type 0 where
  pub explored : ℕ
  pub hit_unknown_leaf : Bool

abbrev pub Step : Type 0
Step = Result (Option Assignment × Progress)

pub data Status : Type 0 where
  sat : Assignment → Status
  unsat over_limit unknown_values : Status

-- A witness is returned; else the loop goes on, unless the limit is passed.
abbrev pub after_value : ℕ → Option Assignment → Progress → (Progress → Step) → Step
after_value node_limit (some a) q next = ok (some a, q)
after_value node_limit none q next = if ltb node_limit q.explored then ok (none, q) else next q

module _ (evaluate_at : Assignment → Expr → Result Partial)
    (state_feasible : Assignment → Result Bool) (constraints : List Expr) (node_limit : ℕ) where
  -- `constraints_consistent`
  unfoldable pub consistent : Assignment → List Expr → Result Bool
  consistent a [] = ok true
  consistent a (c ∷ cs) =
      evaluate_at a c >>= λ v. (if is_false v then ok false else consistent a cs)

  unfoldable pub evaluate_each : Assignment → List Expr → Result (List Partial)
  evaluate_each a [] = ok []
  evaluate_each a (c ∷ cs) = evaluate_at a c >>= λ v. evaluate_each a cs >>= λ vs. ok (v ∷ vs)

  -- All variables have a value.
  unfoldable pub leaf : Assignment → Progress → Step
  unfolding evaluate_each any all
  leaf a p = evaluate_each a constraints >>= λ vs.
      (if all is_true vs
        then (state_feasible a >>= λ good. ok (if good then some a else none, p))
        else ok (none, record p { hit_unknown_leaf = p.hit_unknown_leaf || any is_unknown vs }))

  -- The loop over a domain, given the search of the next variables.
  unfoldable pub try_values : (Value → Progress → Step) → List Value → Progress → Step
  try_values next [] p = ok (none, p)
  try_values next (x ∷ xs) p = next x p >>= λ r. after_value node_limit r.0 r.1 (try_values next xs)

  abbrev pub count : Progress → Progress
  count p = record p { explored = p.explored + 1 }

  abbrev pub visit : (Progress → Step) → Assignment → Progress → Step
  visit body a p =
      if ltb node_limit (count p).explored
      then ok (none, count p)
      else (consistent a constraints >>= λ good.
          if good then body (count p) else ok (none, count p))

  -- A value is passed down instead of set and popped.
  unfoldable pub search : List FiniteVariable → Assignment → Progress → Step
  unfolding leaf consistent try_values
  search [] a p = visit (leaf a) a p
  search (v ∷ vs) a p = visit (try_values (λ x. search vs (assign a v.name x)) v.domain) a p

  abbrev pub status_of : Option Assignment × Progress → Status
  status_of (some a, p) = sat a
  status_of (none, p) =
      if ltb node_limit p.explored
      then over_limit
      else if p.hit_unknown_leaf
      then unknown_values
      else unsat

  unfoldable pub solve : List FiniteVariable → Result Status
  unfolding search
  solve variables =
      search variables unassigned (record { explored = 0; hit_unknown_leaf = false }) >>= λ r.
      ok (status_of r)

abbrev pub context_of :
    (String → Option EventInstance) → (String → Option Function) → Assignment → EvaluationContext
context_of events functions a = record { events = events; assignment = a; functions = functions }

-- `solve_finite` after the variables were built.
unfoldable pub solve_finite :
    ℕ
    → (String → Option EventInstance)
    → (String → Option Function)
    → (Assignment → Result Bool)
    → List Expr
    → ℕ
    → List FiniteVariable
    → Result Status
unfolding solve evaluate
solve_finite depth events functions state_feasible constraints node_limit variables =
    solve (λ a c. evaluate depth (context_of events functions a) c) state_feasible constraints
      node_limit variables
