-- ===== src/Ir/Codec.antt =====
-- Expressions and sorts as plain data: `to_dict` and `from_dict` of src/umcm/ir/sort.py,
-- `expr_to_dict` and `expr_from_dict` of src/umcm/ir/expression.py. The text that `str` gives a list
-- or a dict is an argument. A flag `signed` that is neither a bool nor None, and a width that is a
-- bool, which Python would let pass, are a TypeError here.
pub mod RoundTrip
pub mod Checked
use com_mcm.Prelude.{
  lookup, ◌≡◌, String, Bool, true, false, not, ◌&&◌, Option, none, some, List, [], ◌∷◌, ℕ,
  if◌then◌else◌, ◌==◌, text_eq_instance,
}
use com_mcm.Prelude.Int.{ℤ, pos, negsuc}
use com_mcm.Errors.{
  Result, ok, err, serialization_error, schema_error, expression_type_error, type_error, guard,
  ◌>>=◌, ◌>>◌,
}
use com_mcm.Ir.Sort.{Value, bool, int, text, null, Sort, sort_is_valid, is_blank}
use com_mcm.Ir.Conversion.{str}
use com_mcm.Ir.Expression.{
  UnaryOp, not_op, neg_op, BinaryOp, and_op, or_op, implies_op, xor_op, eq_op, ne_op, lt_op, le_op,
  gt_op, ge_op, add_op, sub_op, mul_op, div_op, mod_op, NaryOp, all_op, any_op, distinct_op, Expr,
  Exprs, literal, symbol, event_field, unary, binary, nary, if_expr, call, nil, cons, make,
}

-- What a data file holds: a scalar, a list, or a dict with texts as keys.
mutual
  pub data Data : Type 0 where
    scalar : Value → Data
    sequence : Items → Data
    mapping : Entries → Data

  pub data Items : Type 0 where
    no_items : Items
    item : Data → Items → Items

  pub data Entries : Type 0 where
    no_entries : Entries
    entry : String → Data → Entries → Entries

abbrev pub of_text : String → Data
of_text s = scalar (text s)

abbrev width_entry : Option ℕ → Entries → Entries
width_entry none rest = rest
width_entry (some w) rest = entry "width" (scalar (int (pos w))) rest

abbrev signed_entry : Option Bool → Entries
signed_entry none = no_entries
signed_entry (some b) = entry "signed" (scalar (bool b)) no_entries

-- `Sort.to_dict`
unfoldable pub sort_to_dict : Sort → Data
sort_to_dict s =
    mapping (entry "name" (of_text s.name) (width_entry s.width (signed_entry s.signed)))

abbrev pub unary_text : UnaryOp → String
unary_text not_op = "not"
unary_text neg_op = "neg"

abbrev pub binary_text : BinaryOp → String
binary_text and_op = "and"
binary_text or_op = "or"
binary_text implies_op = "implies"
binary_text xor_op = "xor"
binary_text eq_op = "eq"
binary_text ne_op = "ne"
binary_text lt_op = "lt"
binary_text le_op = "le"
binary_text gt_op = "gt"
binary_text ge_op = "ge"
binary_text add_op = "add"
binary_text sub_op = "sub"
binary_text mul_op = "mul"
binary_text div_op = "div"
binary_text mod_op = "mod"

abbrev pub nary_text : NaryOp → String
nary_text all_op = "and"
nary_text any_op = "or"
nary_text distinct_op = "distinct"

abbrev node : String → Entries → Data
node name rest = mapping (entry "node" (of_text name) rest)

unfoldable mutual
  unfolding sort_to_dict

  pub expr_to_dict : Expr → Data
  expr_to_dict (literal v s) =
      node "literal" (entry "sort" (sort_to_dict s) (entry "value" (scalar v) no_entries))
  expr_to_dict (symbol n s) =
      node "symbol" (entry "name" (of_text n) (entry "sort" (sort_to_dict s) no_entries))
  expr_to_dict (event_field i f s) = node "event_field" (
      entry "event_id" (of_text i)
        (entry "field" (of_text f) (entry "sort" (sort_to_dict s) no_entries)))
  expr_to_dict (unary op e) =
      node "unary"
        (entry "op" (of_text (unary_text op)) (entry "operand" (expr_to_dict e) no_entries))
  expr_to_dict (binary op l r) = node "binary" (
      entry "op" (of_text (binary_text op))
        (entry "left" (expr_to_dict l) (entry "right" (expr_to_dict r) no_entries)))
  expr_to_dict (nary op es) = node "nary" (
      entry "op" (of_text (nary_text op)) (entry "operands" (sequence (all_to_dict es)) no_entries))
  expr_to_dict (if_expr c t e) = node "ite" (
      entry "condition" (expr_to_dict c)
        (entry "then" (expr_to_dict t) (entry "else" (expr_to_dict e) no_entries)))
  expr_to_dict (call f es s) = node "call" (
      entry "function" (of_text f)
        (entry "arguments" (sequence (all_to_dict es)) (entry "sort" (sort_to_dict s) no_entries)))

  pub all_to_dict : Exprs → Items
  all_to_dict nil = no_items
  all_to_dict (cons e es) = item (expr_to_dict e) (all_to_dict es)

-- `data.get(key)`
unfoldable pub find : String → Entries → Option Data
find key no_entries = none
find key (entry k d rest) = if k == key then some d else find key rest

abbrev pub or_schema_error {ℓ} : {A : Type ℓ} → Option A → Result A
or_schema_error none = err schema_error
or_schema_error (some a) = ok a

-- `width` as the constructor takes it; a missing one is None.
abbrev pub width_of : Option Data → Result (Option ℕ)
width_of none = ok none
width_of (some (scalar null)) = ok none
width_of (some (scalar (int (pos w)))) = ok (some w)
width_of (some (scalar (int (negsuc w)))) = err schema_error
width_of (some d) = err type_error

abbrev pub signed_of : Option Data → Result (Option Bool)
signed_of none = ok none
signed_of (some (scalar null)) = ok none
signed_of (some (scalar (bool b))) = ok (some b)
signed_of (some d) = err type_error

-- `Sort(name, width, signed)`
unfoldable pub make_sort : String → Option Data → Option Data → Result Sort
unfolding sort_is_valid
make_sort name width signed =
    guard (not (is_blank name)) schema_error
    >> (width_of width >>= λ w. signed_of signed >>= λ s.
        let sort : Sort = record { name = name; width = w; signed = s } in
        guard (sort_is_valid sort) schema_error >> ok sort)

abbrev pub unary_op : String → Option UnaryOp
unary_op s = if s == "not" then some not_op else if s == "neg" then some neg_op else none

unfoldable pub binary_ops : List (String × BinaryOp)
binary_ops =
    ("and", and_op)
    ∷ ("or", or_op)
    ∷ ("implies", implies_op)
    ∷ ("xor", xor_op)
    ∷ ("eq", eq_op)
    ∷ ("ne", ne_op)
    ∷ ("lt", lt_op)
    ∷ ("le", le_op)
    ∷ ("gt", gt_op)
    ∷ ("ge", ge_op)
    ∷ ("add", add_op)
    ∷ ("sub", sub_op)
    ∷ ("mul", mul_op)
    ∷ ("div", div_op)
    ∷ ("mod", mod_op)
    ∷ []

abbrev pub nary_op : String → Option NaryOp
nary_op s =
    if s == "and"
    then some all_op
    else if s == "or"
    then some any_op
    else if s == "distinct"
    then some distinct_op
    else none

-- An operator that the constructor does not know.
abbrev pub supported {ℓ} : {A : Type ℓ} → Option A → Result A
supported none = err expression_type_error
supported (some op) = ok op

abbrev pub or_missing {ℓ} : {A : Type ℓ} → Option A → Result A
or_missing none = err serialization_error
or_missing (some a) = ok a

-- What the decoder may ask of the value of an entry: the data, the expression it stands for, and
-- the expressions its items stand for if it is a sequence.
pub record View : Type 0 where
  pub whole : Data
  pub decoded : Result Expr
  pub members : Option (Result Exprs)

abbrev whole_of : Option View → Option Data
whole_of none = none
whole_of (some v) = some v.whole

-- `data.get("value")`; no sort accepts a list or a dict.
abbrev pub value_of : Option View → Result Value
value_of none = ok null
value_of (some v) = elim v.whole [ scalar x ↦ ok x | _ ↦ err expression_type_error ]

-- `data.get("node") == name`
abbrev pub is_node : Option View → String → Bool
is_node none name = false
is_node (some v) name = elim v.whole [
  | scalar x ↦ elim x [ text s ↦ s == name | _ ↦ false ]
  | _ ↦ false
]

abbrev pub members_or_raise : Option View → Result Exprs
members_or_raise none = err serialization_error
members_or_raise (some v) = elim v.members [ none ↦ err serialization_error | some es ↦ es ]

-- `data.get("arguments", [])`
abbrev pub arguments_of : Option View → Result Exprs
arguments_of none = ok nil
arguments_of (some v) = members_or_raise (some v)

module _ (repr : Data → String) where
  -- `str(data)`
  abbrev pub text_of : Data → String
  text_of (scalar v) = str v
  text_of d = repr d

  -- `Sort.from_dict`
  unfoldable pub sort_from_dict : Data → Result Sort
  unfolding find make_sort str
  sort_from_dict (scalar (text s)) = make_sort s none none
  sort_from_dict (mapping entries) = or_schema_error (find "name" entries) >>= λ name.
      make_sort (text_of name) (find "width" entries) (find "signed" entries)
  sort_from_dict d = err schema_error

  abbrev pub text_at : String → List (String × View) → Result String
  text_at key views = or_missing (lookup key views) >>= λ v. ok (text_of v.whole)

  abbrev pub sort_at : List (String × View) → Result Sort
  sort_at views = or_missing (lookup "sort" views) >>= λ v. sort_from_dict v.whole

  abbrev pub expr_at : String → List (String × View) → Result Expr
  expr_at key views = or_missing (lookup key views) >>= λ v. v.decoded

  -- The bodies of the tests on the node, as data.
  unfoldable pub decode_literal : List (String × View) → Result Expr
  unfolding lookup str sort_from_dict make
  decode_literal views =
      sort_at views >>= λ s. value_of (lookup "value" views) >>= λ v. make (literal v s)

  unfoldable pub decode_symbol : List (String × View) → Result Expr
  unfolding lookup str sort_from_dict make
  decode_symbol views = text_at "name" views >>= λ n. sort_at views >>= λ s. make (symbol n s)

  unfoldable pub decode_event_field : List (String × View) → Result Expr
  unfolding lookup str sort_from_dict make
  decode_event_field views = text_at "event_id" views >>= λ i.
      text_at "field" views >>= λ f. sort_at views >>= λ s. make (event_field i f s)

  unfoldable pub decode_unary : List (String × View) → Result Expr
  unfolding lookup str sort_from_dict make
  decode_unary views = text_at "op" views >>= λ name.
      expr_at "operand" views >>= λ e. supported (unary_op name) >>= λ op. make (unary op e)

  unfoldable pub decode_binary : List (String × View) → Result Expr
  unfolding lookup str sort_from_dict make binary_ops
  decode_binary views = text_at "op" views >>= λ name. expr_at "left" views >>= λ l.
      expr_at "right" views >>= λ r.
      supported (lookup name binary_ops) >>= λ op. make (binary op l r)

  unfoldable pub decode_nary : List (String × View) → Result Expr
  unfolding lookup str sort_from_dict make
  decode_nary views = text_at "op" views >>= λ name.
      members_or_raise (lookup "operands" views) >>= λ es.
      supported (nary_op name) >>= λ op. make (nary op es)

  unfoldable pub decode_ite : List (String × View) → Result Expr
  unfolding lookup str sort_from_dict make
  decode_ite views = expr_at "condition" views >>= λ c.
      expr_at "then" views >>= λ t. expr_at "else" views >>= λ e. make (if_expr c t e)

  unfoldable pub decode_call : List (String × View) → Result Expr
  unfolding lookup str sort_from_dict make
  decode_call views = text_at "function" views >>= λ f.
      arguments_of (lookup "arguments" views) >>= λ es. sort_at views >>= λ s. make (call f es s)

  -- The node that the entries of a dict stand for.
  unfoldable pub decode_node : List (String × View) → Result Expr
  unfolding lookup decode_literal decode_symbol decode_event_field decode_unary decode_binary
      decode_nary decode_ite decode_call
  decode_node views =
      let kind = lookup "node" views in
      if is_node kind "literal"
      then decode_literal views
      else if is_node kind "symbol"
      then decode_symbol views
      else if is_node kind "event_field"
      then decode_event_field views
      else if is_node kind "unary"
      then decode_unary views
      else if is_node kind "binary"
      then decode_binary views
      else if is_node kind "nary"
      then decode_nary views
      else if is_node kind "ite"
      then decode_ite views
      else if is_node kind "call"
      then decode_call views
      else err serialization_error

  unfoldable mutual
    unfolding decode_node

    pub expr_from_dict : Data → Result Expr
    expr_from_dict (mapping entries) = decode_node (views_of entries)
    expr_from_dict _ = err serialization_error

    -- Of the texts, which are sequences of texts, only the empty one has no item to refuse.
    pub members_of : Data → Option (Result Exprs)
    members_of (sequence items) = some (all_from_dict items)
    members_of (scalar (text s)) = some (if s == "" then ok nil else err serialization_error)
    members_of _ = none

    pub all_from_dict : Items → Result Exprs
    all_from_dict no_items = ok nil
    all_from_dict (item d rest) =
        expr_from_dict d >>= λ e. all_from_dict rest >>= λ es. ok (cons e es)

    pub views_of : Entries → List (String × View)
    views_of no_entries = []
    views_of (entry key d rest) =
        (key, record { whole = d; decoded = expr_from_dict d; members = members_of d })
        ∷ views_of rest
