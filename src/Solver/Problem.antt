-- ===== src/Solver/Problem.antt =====
-- The instances that the simulation of the state reads: src/umcm/solver/problem.py and StateVariable
-- of src/umcm/ir/state.py. The origins and the sorts, which the simulation does not read, are left
-- out.
use com_mcm.Prelude.{String, List, ℕ}
use com_mcm.Ir.Expression.{Expr}
use com_mcm.Ir.Event.{Attribute}

-- The operators that StateRequirement accepts.
pub data Comparison : Type 0 where
  eq ne lt le gt ge : Comparison

-- `initial` is a value or an expression.
pub record StateVariable : Type 0 where
  pub name : String
  pub initial : Attribute

pub record StateRequirementInstance : Type 0 where
  pub name : String
  pub state : String
  pub cycle : Expr
  pub activation : Expr
  pub op : Comparison
  pub expected : Expr

pub record StateUpdateInstance : Type 0 where
  pub name : String
  pub state : String
  pub cycle : Expr
  pub activation : Expr
  pub value : Expr

pub record GuardPredicateInstance : Type 0 where
  pub state : String
  pub cycle : Expr
  pub op : Comparison
  pub expected : Expr

pub record GuardedForwardInstance : Type 0 where
  pub name : String
  pub antecedent : Expr
  pub predicates : List GuardPredicateInstance
  pub consequent : Expr

pub record GuardedSupportCandidate : Type 0 where
  pub expression : Expr
  pub predicates : List GuardPredicateInstance

pub record GuardedSupportInstance : Type 0 where
  pub name : String
  pub antecedent : Expr
  pub supports : List GuardedSupportCandidate

-- What the simulation reads of the problem.
pub record StateProblem : Type 0 where
  pub variables : List StateVariable
  pub horizon : ℕ
  pub requirements : List StateRequirementInstance
  pub updates : List StateUpdateInstance
  pub forwards : List GuardedForwardInstance
  pub supports : List GuardedSupportInstance
