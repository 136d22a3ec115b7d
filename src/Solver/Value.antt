-- ===== src/Solver/Value.antt =====
-- What the evaluator (src/umcm/solver/evaluator.py) does with Python values: truth, equality,
-- order and arithmetic. A bool counts as 0 or 1. Arithmetic on texts, which the constructors of
-- expressions refuse, is a TypeError here.
use com_mcm.Prelude.{
  ◌≡◌, refl, ap, Bool, true, false, not, Option, none, some, ◌==◌, text_eq_instance, text_leb,
  if◌then◌else◌,
}
use com_mcm.Prelude.Int.{
  ℤ, pos, ◌+ℤ◌, ◌-ℤ◌, ◌*ℤ◌, floor_div, floor_mod, ltb_ℤ, int_beq, int_eq, int_beq_iff,
}
use com_mcm.Errors.{Result, ok, err, solver_error, type_error}
use com_mcm.Ir.Sort.{Value, bool, int, text, null, is_bool_value, bool_beq, bool_eq}
use com_mcm.Ir.Expression.{
  BinaryOp, and_op, or_op, implies_op, xor_op, eq_op, ne_op, lt_op, le_op, gt_op, ge_op, add_op,
  sub_op, mul_op, div_op, mod_op,
}

-- The number that a bool or an int counts as.
abbrev pub number : Value → Option ℤ
number (bool true) = some (pos 1)
number (bool false) = some (pos 0)
number (int i) = some i
number (text s) = none
number null = none

-- `left == right`
unfoldable pub py_eq : Value → Value → Bool
py_eq (text s) (text t) = s == t
py_eq null null = true
py_eq (bool a) (bool b) = a == b
py_eq (bool a) (int j) = elim (number (bool a)) [ none ↦ false | some i ↦ int_beq i j ]
py_eq (int i) (bool b) = elim (number (bool b)) [ none ↦ false | some j ↦ int_beq i j ]
py_eq (int i) (int j) = int_beq i j
py_eq _ _ = false

-- `bool(value)`
unfoldable pub truth : Value → Bool
truth (bool b) = b
truth (int i) = not (int_beq i (pos 0))
truth (text s) = not (s == "")
truth null = false

-- `left < right`; the other orders turn it round.
unfoldable pub less : Value → Value → Result Bool
less (text s) (text t) = ok (not (text_leb t s))
less (text s) _ = err type_error
less v w = elim (number v) [
  | none ↦ err type_error
  | some i ↦ elim (number w) [ none ↦ err type_error | some j ↦ ok (ltb_ℤ i j) ]
]

abbrev pub as_bool : Result Bool → Result Value
as_bool (ok b) = ok (bool b)
as_bool (err e) = err e

abbrev pub negated : Result Bool → Result Value
negated (ok b) = ok (bool (not b))
negated (err e) = err e

-- Arithmetic on two numbers.
unfoldable pub arithmetic : BinaryOp → ℤ → ℤ → Result Value
arithmetic add_op i j = ok (int (i +ℤ j))
arithmetic sub_op i j = ok (int (i -ℤ j))
arithmetic mul_op i j = ok (int (i *ℤ j))
arithmetic div_op i j = if int_beq j (pos 0) then err solver_error else ok (int (floor_div i j))
arithmetic mod_op i j = if int_beq j (pos 0) then err solver_error else ok (int (floor_mod i j))
arithmetic _ i j = err solver_error

unfoldable pub on_numbers : BinaryOp → Value → Value → Result Value
unfolding arithmetic
on_numbers op v w = elim (number v) [
  | none ↦ err type_error
  | some i ↦ elim (number w) [ none ↦ err type_error | some j ↦ arithmetic op i j ]
]

-- The operators that need both operands, from "xor" on.
unfoldable pub strict_op : BinaryOp → Value → Value → Result Value
unfolding py_eq truth less on_numbers
strict_op xor_op v w = ok (bool (not (bool_beq (truth v) (truth w))))
strict_op eq_op v w = ok (bool (py_eq v w))
strict_op ne_op v w = ok (bool (not (py_eq v w)))
strict_op lt_op v w = as_bool (less v w)
strict_op le_op v w = negated (less w v)
strict_op gt_op v w = as_bool (less w v)
strict_op ge_op v w = negated (less v w)
strict_op and_op v w = err solver_error
strict_op or_op v w = err solver_error
strict_op implies_op v w = err solver_error
strict_op op v w = on_numbers op v w

-- Equality of values that are both bool, or both not, is identity.
pub py_eq-same_kind : (v w : Value) → is_bool_value v ≡ is_bool_value w → py_eq v w ≡ true → v ≡ w
unfolding py_eq
py_eq-same_kind (bool a) (bool b) k h = ap bool ((bool_eq.beq_iff a b).0 h)
py_eq-same_kind (int i) (int j) k h = ap int ((int_beq_iff i j).0 h)
py_eq-same_kind (text s) (text t) k h = ap text ((text_eq_instance.beq_iff s t).0 h)
py_eq-same_kind null null k h = refl
py_eq-same_kind (bool a) (int j) k h = cc
py_eq-same_kind (bool a) (text t) k h = cc
py_eq-same_kind (bool a) null k h = cc
py_eq-same_kind (int i) (bool b) k h = cc
py_eq-same_kind (int i) (text t) k h = cc
py_eq-same_kind (int i) null k h = cc
py_eq-same_kind (text s) (bool b) k h = cc
py_eq-same_kind (text s) (int j) k h = cc
py_eq-same_kind (text s) null k h = cc
py_eq-same_kind null (bool b) k h = cc
py_eq-same_kind null (int j) k h = cc
py_eq-same_kind null (text t) k h = cc

pub py_eq_refl : (v : Value) → py_eq v v ≡ true
unfolding py_eq
py_eq_refl (bool b) = (bool_eq.beq_iff b b).1 refl
py_eq_refl (int i) = (int_beq_iff i i).1 refl
py_eq_refl (text s) = (text_eq_instance.beq_iff s s).1 refl
py_eq_refl null = refl
