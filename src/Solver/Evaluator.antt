-- ===== src/Solver/Evaluator.antt =====
-- Three-valued evaluation of expressions under a partial assignment:
-- src/umcm/solver/evaluator.py. `none` is UNKNOWN.
pub mod Kinds
pub mod Growth
pub mod Operators
pub mod Monotone
pub mod Depth
pub mod Traces
use com_mcm.Prelude.{
  lookup, ◌≡◌, String, Bool, true, false, not, ◌&&◌, ◌||◌, Option, none, some, List, [], ◌∷◌, ℕ,
  zero, suc, if◌then◌else◌, ◌==◌, text_eq_instance, any, all, length,
}
use com_mcm.Prelude.Int.{ℤ, pos, ◌-ℤ◌}
use com_mcm.Errors.{
  Result, ok, err, Error, solver_error, trace_validation_error, type_error, recursion_error, ◌>>=◌,
  ◌>>◌,
}
use com_mcm.Ir.Sort.{Value, bool, int, text, null, Sort}
use com_mcm.Ir.Event.{Attribute, value, expression, EventInstance}
use com_mcm.Ir.Expression.{
  UnaryOp, not_op, neg_op, BinaryOp, and_op, or_op, implies_op, NaryOp, all_op, any_op, distinct_op,
  Expr, Exprs, literal, symbol, event_field, unary, binary, nary, if_expr, call, nil, cons,
}
use com_mcm.Solver.Value.{py_eq, truth, number, strict_op}

-- A value or UNKNOWN.
abbrev pub Partial : Type 0
Partial = Option Value

-- `value is True`, `value is False`, `value is UNKNOWN`
abbrev pub is_true : Partial → Bool
is_true (some (bool b)) = b
is_true _ = false

abbrev pub is_false : Partial → Bool
is_false (some (bool b)) = not b
is_false _ = false

abbrev pub is_unknown : Partial → Bool
is_unknown none = true
is_unknown (some v) = false

unfoldable pub evaluate_unary : UnaryOp → Partial → Result Partial
unfolding truth
evaluate_unary op none = ok none
evaluate_unary not_op (some v) = ok (some (bool (not (truth v))))
evaluate_unary neg_op (some v) = elim (number v) [
  | none ↦ err type_error
  | some i ↦ ok (some (int (pos 0 -ℤ i)))
]

abbrev pub known : Result Value → Result Partial
known (ok v) = ok (some v)
known (err e) = err e

-- The operators from "xor" on: UNKNOWN if an operand is.
abbrev pub evaluate_strict : BinaryOp → Partial → Partial → Result Partial
evaluate_strict op none r = ok none
evaluate_strict op (some v) none = ok none
evaluate_strict op (some v) (some w) = known (strict_op op v w)

unfoldable pub evaluate_binary : BinaryOp → Partial → Partial → Result Partial
unfolding strict_op
evaluate_binary and_op l r =
    if is_false l || is_false r
    then ok (some (bool false))
    else if is_true l && is_true r
    then ok (some (bool true))
    else ok none
evaluate_binary or_op l r =
    if is_true l || is_true r
    then ok (some (bool true))
    else if is_false l && is_false r
    then ok (some (bool false))
    else ok none
evaluate_binary implies_op l r =
    if is_false l || is_true r
    then ok (some (bool true))
    else if is_true l && is_false r
    then ok (some (bool false))
    else ok none
evaluate_binary op l r = evaluate_strict op l r

-- `[value for value in values if value is not UNKNOWN]`
unfoldable pub concrete : List Partial → List Value
concrete [] = []
concrete (none ∷ vs) = concrete vs
concrete (some v ∷ vs) = v ∷ concrete vs

-- `len(values) != len(set(values))`
unfoldable pub repeats : List Value → Bool
repeats [] = false
repeats (v ∷ vs) = any (py_eq v) vs || repeats vs

unfoldable pub evaluate_nary : NaryOp → List Partial → Result Partial
unfolding any all concrete repeats py_eq
evaluate_nary all_op vs =
    if any is_false vs
    then ok (some (bool false))
    else if all is_true vs
    then ok (some (bool true))
    else ok none
evaluate_nary any_op vs =
    if any is_true vs
    then ok (some (bool true))
    else if all is_false vs
    then ok (some (bool false))
    else ok none
evaluate_nary distinct_op vs =
    if repeats (concrete vs)
    then ok (some (bool false))
    else if any is_unknown vs
    then ok none
    else ok (some (bool true))

-- Both branches of an undecided `ite`: their value, if they agree.
unfoldable pub agree : Partial → Partial → Partial
unfolding py_eq
agree (some v) (some w) = if py_eq v w then some v else none
agree (some v) none = none
agree none r = none

abbrev pub Function : Type 0
Function = List Value → Result Value

-- What `evaluate` reads of its context: `event_attribute`, the assignment and the functions.
pub record Environment : Type 0 where
  pub attribute : String → String → Result Partial
  pub assignment : String → Option Value
  pub functions : String → Option Function

-- `tuple(values)`, unless one of them is UNKNOWN.
unfoldable pub all_known : List Partial → Option (List Value)
all_known [] = some []
all_known (none ∷ vs) = none
all_known (some v ∷ vs) = elim (all_known vs) [ none ↦ none | some ws ↦ some (v ∷ ws) ]

unfoldable pub apply : Option Function → List Partial → Result Partial
unfolding all_known
apply function vs = elim (all_known vs) [
  | none ↦ ok none
  | some ws ↦ elim function [ none ↦ err solver_error | some f ↦ known (f ws) ]
]

module _ (env : Environment) where
  unfoldable mutual
    unfolding evaluate_unary evaluate_binary evaluate_nary agree apply

    pub eval : Expr → Result Partial
    eval (literal v s) = ok (some v)
    eval (symbol n s) = ok (env.assignment n)
    eval (event_field i f s) = env.attribute i f
    eval (unary op e) = eval e >>= evaluate_unary op
    eval (binary op l r) = eval l >>= λ a. eval r >>= λ b. evaluate_binary op a b
    eval (nary op es) = eval_all es >>= evaluate_nary op
    eval (if_expr c t e) = eval c >>= λ d.
        if is_true d
        then eval t
        else if is_false d
        then eval e
        else (eval t >>= λ a. eval e >>= λ b. ok (agree a b))
    eval (call f es s) = eval_all es >>= apply (env.functions f)

    pub eval_all : Exprs → Result (List Partial)
    eval_all nil = ok []
    eval_all (cons e es) = eval e >>= λ a. eval_all es >>= λ vs. ok (a ∷ vs)

pub record EvaluationContext : Type 0 where
  pub events : String → Option EventInstance
  pub assignment : String → Option Value
  pub functions : String → Option Function

-- A missing cycle is the value None.
abbrev pub cycle_or_none : Option Attribute → Attribute
cycle_or_none none = value null
cycle_or_none (some a) = a

unfoldable pub select : String → EventInstance → Option Attribute
unfolding lookup
select field_name event =
    if field_name == "occurs"
    then some event.occurs
    else if field_name == "cycle"
    then some (cycle_or_none event.cycle)
    else lookup field_name event.fields

-- `event_attribute`, given `evaluate` for a field that is an expression.
unfoldable pub event_attribute :
    (Expr → Result Partial) → EvaluationContext → String → String → Result Partial
unfolding select
event_attribute evaluate ctx event_id field_name = elim (ctx.events event_id) [
  | none ↦ err trace_validation_error
  | some event ↦ elim (select field_name event) [
    | none ↦ ok none
    | some (value v) ↦ ok (some v)
    | some (expression e) ↦ evaluate e
  ]
]

-- `evaluate` follows expressions in event fields; `depth` bounds how many it follows in a row,
-- as Python's recursion limit does.
unfoldable pub evaluate : ℕ → EvaluationContext → Expr → Result Partial
unfolding event_attribute eval
evaluate zero ctx e = err recursion_error
evaluate (suc depth) ctx e =
    eval
      (record {
        attribute = event_attribute (evaluate depth ctx) ctx;
        assignment = ctx.assignment;
        functions = ctx.functions;
      })
      e
