-- ===== src/Tests/CodecTests.antt =====
-- Expressions as data (src/umcm/ir/expression.py).
use com_mcm.Prelude.{◌≡◌, refl, String, true, text_eq_instance}
use com_mcm.Prelude.Int.{pos}
use com_mcm.Errors.{ok, err, expression_type_error}
use com_mcm.Ir.Sort.{int, int_sort, bool_sort, sort_is_valid, compatible_with, accepts_literal}
use com_mcm.Ir.Expression.{
  Expr, literal, symbol, event_field, binary, nary, all_op, lt_op, cons, nil, well_formed,
  node_is_valid,
}
use com_mcm.Ir.Codec.{
  Data, sequence, mapping, no_items, entry, no_entries, of_text, expr_to_dict, expr_from_dict,
}
use com_mcm.Ir.Codec.RoundTrip.{has_valid_sorts, expr_from_dict-expr_to_dict}
use com_mcm.Ir.Codec.Checked.{IsChecked, expr_from_dict-IsChecked}

abbrev no_text : Data → String
no_text d = ""

-- x, and event e0 comes before cycle 3
abbrev early : Expr
early = nary all_op (
    cons (symbol "x" bool_sort) (
      cons (binary lt_op (event_field "e0" "cycle" int_sort) (literal (int (pos 3)) int_sort)) nil))

early-well_formed : well_formed early ≡ true
unfolding well_formed node_is_valid compatible_with accepts_literal
early-well_formed = refl

early-sorts : has_valid_sorts early ≡ true
unfolding has_valid_sorts sort_is_valid
early-sorts = refl

expr_from_dict-expr_to_dict_example : expr_from_dict no_text (expr_to_dict early) ≡ ok early
expr_from_dict-expr_to_dict_example =
    expr_from_dict-expr_to_dict no_text early early-well_formed early-sorts

-- A symbol whose sort is given by its name.
abbrev short : Data
short = mapping (
    entry "node" (of_text "symbol")
      (entry "name" (of_text "x") (entry "sort" (of_text "bool") no_entries)))

short-decoded : expr_from_dict no_text short ≡ ok (symbol "x" bool_sort)
unfolding expr_from_dict
short-decoded = refl

expr_from_dict-IsChecked_example :
    IsChecked (symbol "x" bool_sort)
    × (expr_from_dict no_text (expr_to_dict (symbol "x" bool_sort)) ≡ ok (symbol "x" bool_sort))
expr_from_dict-IsChecked_example =
    expr_from_dict-IsChecked no_text short (symbol "x" bool_sort) short-decoded

-- A conjunction of no operands is refused.
abbrev empty_and : Data
empty_and = mapping (
    entry "node" (of_text "nary")
      (entry "op" (of_text "and") (entry "operands" (sequence no_items) no_entries)))

empty_and-refused : expr_from_dict no_text empty_and ≡ err expression_type_error
unfolding expr_from_dict
empty_and-refused = refl
