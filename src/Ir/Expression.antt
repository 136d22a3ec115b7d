-- ===== src/Ir/Expression.antt =====
-- The typed expression tree: src/umcm/ir/expression.py. The operator names are enumerations,
-- since the constructors refuse every other text.
pub mod Rename
use com_mcm.Prelude.{
  ◌≡◌, String, Bool, true, false, not, ◌&&◌, ◌||◌, List, [], ◌∷◌, ◌++◌, Option, none, some, ◌==◌,
  text_eq_instance,
}
use com_mcm.Errors.{Result, ok, err, Error, expression_type_error, guard, ◌>>=◌, ◌>>◌}
use com_mcm.Ir.Sort.{
  Value, bool, Sort, is_bool, is_int, is_bitvector, compatible_with, accepts_literal, bool_sort,
}

pub data UnaryOp : Type 0 where
  not_op neg_op : UnaryOp

pub data BinaryOp : Type 0 where
  and_op or_op implies_op xor_op eq_op ne_op lt_op le_op gt_op ge_op : BinaryOp
  add_op sub_op mul_op div_op mod_op : BinaryOp

pub data NaryOp : Type 0 where
  all_op any_op distinct_op : NaryOp

mutual
  pub data Expr : Type 0 where
    literal : Value → Sort → Expr
    symbol : String → Sort → Expr
    event_field : String → String → Sort → Expr
    unary : UnaryOp → Expr → Expr
    binary : BinaryOp → Expr → Expr → Expr
    nary : NaryOp → Exprs → Expr
    if_expr : Expr → Expr → Expr → Expr
    call : String → Exprs → Sort → Expr

  pub data Exprs : Type 0 where
    nil : Exprs
    cons : Expr → Exprs → Exprs

-- The operators whose operands are bool: "and", "or", "implies", "xor".
abbrev pub is_logical : BinaryOp → Bool
is_logical and_op = true
is_logical or_op = true
is_logical implies_op = true
is_logical xor_op = true
is_logical _ = false

-- "add", "sub", "mul", "div", "mod"
abbrev pub is_arithmetic : BinaryOp → Bool
is_arithmetic add_op = true
is_arithmetic sub_op = true
is_arithmetic mul_op = true
is_arithmetic div_op = true
is_arithmetic mod_op = true
is_arithmetic _ = false

-- "lt", "le", "gt", "ge"
abbrev pub is_order : BinaryOp → Bool
is_order lt_op = true
is_order le_op = true
is_order gt_op = true
is_order ge_op = true
is_order _ = false

-- The sort of a binary node from that of its left operand.
abbrev pub binary_sort : BinaryOp → Sort → Sort
binary_sort op s = elim (is_arithmetic op) [ true ↦ s | false ↦ bool_sort ]

-- the property `sort` of each class
unfoldable pub sort_of : Expr → Sort
sort_of (literal v s) = s
sort_of (symbol n s) = s
sort_of (event_field i f s) = s
sort_of (unary not_op e) = bool_sort
sort_of (unary neg_op e) = sort_of e
sort_of (binary op l r) = binary_sort op (sort_of l)
sort_of (nary op es) = bool_sort
sort_of (if_expr c t e) = sort_of t
sort_of (call f es s) = s

abbrev pub require_bool : Expr → Bool
require_bool e = is_bool (sort_of e)

abbrev pub require_numeric : Expr → Bool
require_numeric e = is_int (sort_of e) || is_bitvector (sort_of e)

-- On the sort of the left operand.
abbrev pub require_ordered : Sort → Bool
require_ordered s = is_int s || is_bitvector s

abbrev pub require_compatible : Expr → Expr → Bool
require_compatible l r = compatible_with (sort_of l) (sort_of r)

abbrev pub all_bool : Exprs → Bool
all_bool nil = true
all_bool (cons e es) = require_bool e && all_bool es

abbrev pub all_compatible : Expr → Exprs → Bool
all_compatible head nil = true
all_compatible head (cons e es) = require_compatible head e && all_compatible head es

abbrev pub nary_is_valid : NaryOp → Exprs → Bool
nary_is_valid op nil = false
nary_is_valid all_op (cons e es) = all_bool (cons e es)
nary_is_valid any_op (cons e es) = all_bool (cons e es)
nary_is_valid distinct_op (cons e es) = all_compatible e es

-- The tests of a binary node on the sorts of its operands; `_require_ordered` and
-- `_require_numeric` are the same test.
abbrev pub binary_is_valid : BinaryOp → Sort → Sort → Bool
binary_is_valid op s t = elim (is_logical op) [
  | true ↦ is_bool s && is_bool t
  | false ↦
      compatible_with s t
      && (elim (is_order op || is_arithmetic op) [ true ↦ require_ordered s | false ↦ true ])
]

-- The tests of `__post_init__` of one node.
unfoldable pub node_is_valid : Expr → Bool
unfolding sort_of
node_is_valid (literal v s) = accepts_literal s v
node_is_valid (symbol n s) = not (n == "")
node_is_valid (event_field i f s) = not (i == "") && not (f == "")
node_is_valid (unary not_op e) = require_bool e
node_is_valid (unary neg_op e) = require_numeric e
node_is_valid (binary op l r) = binary_is_valid op (sort_of l) (sort_of r)
node_is_valid (nary op es) = nary_is_valid op es
node_is_valid (if_expr c t e) = require_bool c && require_compatible t e
node_is_valid (call f es s) = not (f == "")

-- A constructor call: the node, or `ExpressionTypeError`.
unfoldable pub make : Expr → Result Expr
unfolding node_is_valid
make e = do guard (node_is_valid e) expression_type_error; ok e

-- Every node of the tree went through its constructor.
unfoldable mutual
  pub well_formed : Expr → Bool
  well_formed (literal v s) = node_is_valid (literal v s)
  well_formed (symbol n s) = node_is_valid (symbol n s)
  well_formed (event_field i f s) = node_is_valid (event_field i f s)
  well_formed (unary op e) = node_is_valid (unary op e) && well_formed e
  well_formed (binary op l r) = node_is_valid (binary op l r) && well_formed l && well_formed r
  well_formed (nary op es) = node_is_valid (nary op es) && well_formed_all es
  well_formed (if_expr c t e) =
      node_is_valid (if_expr c t e) && well_formed c && well_formed t && well_formed e
  well_formed (call f es s) = node_is_valid (call f es s) && well_formed_all es

  pub well_formed_all : Exprs → Bool
  well_formed_all nil = true
  well_formed_all (cons e es) = well_formed e && well_formed_all es

-- A reference to a field of an event: its id, the field and the sort.
abbrev pub FieldRef : Type 0
FieldRef = String × String × Sort

unfoldable mutual
  pub iter_event_fields : Expr → List FieldRef
  iter_event_fields (event_field i f s) = (i, f, s) ∷ []
  iter_event_fields (unary op e) = iter_event_fields e
  iter_event_fields (binary op l r) = iter_event_fields l ++ iter_event_fields r
  iter_event_fields (nary op es) = iter_event_fields_all es
  iter_event_fields (if_expr c t e) =
      iter_event_fields c ++ (iter_event_fields t ++ iter_event_fields e)
  iter_event_fields (call f es s) = iter_event_fields_all es
  iter_event_fields _ = []

  pub iter_event_fields_all : Exprs → List FieldRef
  iter_event_fields_all nil = []
  iter_event_fields_all (cons e es) = iter_event_fields e ++ iter_event_fields_all es

unfoldable mutual
  pub iter_symbols : Expr → List (String × Sort)
  iter_symbols (symbol n s) = (n, s) ∷ []
  iter_symbols (unary op e) = iter_symbols e
  iter_symbols (binary op l r) = iter_symbols l ++ iter_symbols r
  iter_symbols (nary op es) = iter_symbols_all es
  iter_symbols (if_expr c t e) = iter_symbols c ++ (iter_symbols t ++ iter_symbols e)
  iter_symbols (call f es s) = iter_symbols_all es
  iter_symbols _ = []

  pub iter_symbols_all : Exprs → List (String × Sort)
  iter_symbols_all nil = []
  iter_symbols_all (cons e es) = iter_symbols e ++ iter_symbols_all es

unfoldable mutual
  pub iter_literals : Expr → List (Value × Sort)
  iter_literals (literal v s) = (v, s) ∷ []
  iter_literals (unary op e) = iter_literals e
  iter_literals (binary op l r) = iter_literals l ++ iter_literals r
  iter_literals (nary op es) = iter_literals_all es
  iter_literals (if_expr c t e) = iter_literals c ++ (iter_literals t ++ iter_literals e)
  iter_literals (call f es s) = iter_literals_all es
  iter_literals _ = []

  pub iter_literals_all : Exprs → List (Value × Sort)
  iter_literals_all nil = []
  iter_literals_all (cons e es) = iter_literals e ++ iter_literals_all es

-- `mapping.get(key, key)`
abbrev pub renamed : (String → Option String) → String → String
renamed mapping key = elim (mapping key) [ none ↦ key | some other ↦ other ]

-- Every node is built again by its constructor.
unfoldable mutual
  pub substitute_event_ids : (String → Option String) → Expr → Result Expr
  substitute_event_ids mapping (event_field i f s) = make (event_field (renamed mapping i) f s)
  substitute_event_ids mapping (unary op e) = do
    e' ← substitute_event_ids mapping e
    make (unary op e')
  substitute_event_ids mapping (binary op l r) = do
    l' ← substitute_event_ids mapping l
    r' ← substitute_event_ids mapping r
    make (binary op l' r')
  substitute_event_ids mapping (nary op es) = do es' ← substitute_all mapping es; make (nary op es')
  substitute_event_ids mapping (if_expr c t e) = do
    c' ← substitute_event_ids mapping c
    t' ← substitute_event_ids mapping t
    e' ← substitute_event_ids mapping e
    make (if_expr c' t' e')
  substitute_event_ids mapping (call f es s) = do
    es' ← substitute_all mapping es
    make (call f es' s)
  substitute_event_ids mapping (literal v s) = ok (literal v s)
  substitute_event_ids mapping (symbol n s) = ok (symbol n s)

  pub substitute_all : (String → Option String) → Exprs → Result Exprs
  substitute_all mapping nil = ok nil
  substitute_all mapping (cons e es) = do
    e' ← substitute_event_ids mapping e
    es' ← substitute_all mapping es
    ok (cons e' es')

-- `conjunction` and `disjunction`
unfoldable pub conjunction : Exprs → Result Expr
unfolding make
conjunction nil = make (literal (bool true) bool_sort)
conjunction (cons e nil) = ok e
conjunction (cons e (cons f es)) = make (nary all_op (cons e (cons f es)))

unfoldable pub disjunction : Exprs → Result Expr
unfolding make
disjunction nil = make (literal (bool false) bool_sort)
disjunction (cons e nil) = ok e
disjunction (cons e (cons f es)) = make (nary any_op (cons e (cons f es)))
