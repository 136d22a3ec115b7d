-- ===== src/Ir/Codec/RoundTrip.antt =====
-- Decoding what was encoded (src/umcm/ir/expression.py, src/umcm/ir/sort.py).
use com_mcm.Prelude.{
  lookup, ◌≡◌, refl, String, Bool, true, not, ◌&&◌, Option, none, some, ℕ, text_eq_instance,
  and-left, and-right, arith,
}
use com_mcm.Errors.{ok}
use com_mcm.Ir.Sort.{Sort, sort_is_valid, is_blank}
use com_mcm.Ir.Conversion.{str}
use com_mcm.Ir.Expression.{
  UnaryOp, not_op, neg_op, BinaryOp, and_op, or_op, implies_op, xor_op, eq_op, ne_op, lt_op, le_op,
  gt_op, ge_op, add_op, sub_op, mul_op, div_op, mod_op, NaryOp, all_op, any_op, distinct_op, Expr,
  Exprs, literal, symbol, event_field, unary, binary, nary, if_expr, call, nil, cons, make,
  well_formed, well_formed_all, node_is_valid,
}
use com_mcm.Ir.Codec.{
  Data, sort_to_dict, expr_to_dict, all_to_dict, find, make_sort, unary_text, unary_op, binary_text,
  binary_ops, nary_text, nary_op, sort_from_dict, decode_node, expr_from_dict, all_from_dict,
  width_entry, signed_entry, width_of, signed_of,
}

-- Every sort that is written in the expression is one that the constructor of Sort accepts.
unfoldable mutual
  pub has_valid_sorts : Expr → Bool
  has_valid_sorts (literal v s) = sort_is_valid s
  has_valid_sorts (symbol n s) = sort_is_valid s
  has_valid_sorts (event_field i f s) = sort_is_valid s
  has_valid_sorts (unary op e) = has_valid_sorts e
  has_valid_sorts (binary op l r) = has_valid_sorts l && has_valid_sorts r
  has_valid_sorts (nary op es) = have_valid_sorts es
  has_valid_sorts (if_expr c t e) = has_valid_sorts c && has_valid_sorts t && has_valid_sorts e
  has_valid_sorts (call f es s) = sort_is_valid s && have_valid_sorts es

  pub have_valid_sorts : Exprs → Bool
  have_valid_sorts nil = true
  have_valid_sorts (cons e es) = has_valid_sorts e && have_valid_sorts es

find-width :
    (w : Option ℕ) (b : Option Bool)
    → width_of (find "width" (width_entry w (signed_entry b))) ≡ ok w
unfolding find
find-width none none = refl
find-width none (some b) = refl
find-width (some w) b = refl

find-signed :
    (w : Option ℕ) (b : Option Bool)
    → signed_of (find "signed" (width_entry w (signed_entry b))) ≡ ok b
unfolding find
find-signed none none = refl
find-signed none (some b) = refl
find-signed (some w) none = refl
find-signed (some w) (some b) = refl

named : (s : Sort) → sort_is_valid s ≡ true → not (is_blank s.name) ≡ true
unfolding sort_is_valid
named s v = and-left _ _ (and-left _ _ (and-left _ _ (and-left _ _ v)))

and-three : (a b c : Bool) → (a && b && c) ≡ true → (a ≡ true) × (b ≡ true) × (c ≡ true)
and-three a b c h = ground arith

made : (e : Expr) → node_is_valid e ≡ true → make e ≡ ok e
unfolding make
made e v = rw v refl

make_sort-valid :
    (s : Sort) (w b : Option Data)
    → sort_is_valid s ≡ true
    → width_of w ≡ ok s.width
    → signed_of b ≡ ok s.signed
    → make_sort s.name w b ≡ ok s
unfolding make_sort sort_is_valid
make_sort-valid s w b v p q = rw (p, q, v, named s v) refl

unary-known : (op : UnaryOp) → unary_op (unary_text op) ≡ some op
unary-known not_op = refl
unary-known neg_op = refl

binary-known : (op : BinaryOp) → lookup (binary_text op) binary_ops ≡ some op
unfolding lookup binary_ops
binary-known and_op = refl
binary-known or_op = refl
binary-known implies_op = refl
binary-known xor_op = refl
binary-known eq_op = refl
binary-known ne_op = refl
binary-known lt_op = refl
binary-known le_op = refl
binary-known gt_op = refl
binary-known ge_op = refl
binary-known add_op = refl
binary-known sub_op = refl
binary-known mul_op = refl
binary-known div_op = refl
binary-known mod_op = refl

nary-known : (op : NaryOp) → nary_op (nary_text op) ≡ some op
nary-known all_op = refl
nary-known any_op = refl
nary-known distinct_op = refl

module _ (repr : Data → String) where
  sort_round_trip :
      (s : Sort) → sort_is_valid s ≡ true → sort_from_dict repr (sort_to_dict s) ≡ ok s
  unfolding sort_from_dict sort_to_dict find str make_sort
  sort_round_trip s v =
      make_sort-valid s _ _ v (find-width s.width s.signed) (find-signed s.width s.signed)

  mutual
    unfolding expr_from_dict expr_to_dict decode_node lookup str well_formed has_valid_sorts

    round_trip :
        (e : Expr)
        → well_formed e ≡ true
        → has_valid_sorts e ≡ true
        → expr_from_dict repr (expr_to_dict e) ≡ ok e
    round_trip (literal v s) w h = rw (sort_round_trip s h, made (literal v s) w) refl
    round_trip (symbol n s) w h = rw (sort_round_trip s h, made (symbol n s) w) refl
    round_trip (event_field i f s) w h = rw (sort_round_trip s h, made (event_field i f s) w) refl
    round_trip (unary op e) w h =
        let v = and-left _ _ w in
        let i = round_trip e (and-right _ _ w) h in rw (i, unary-known op, made (unary op e) v) refl
    round_trip (binary op l r) w h =
        let (v, wl, wr) = and-three _ _ _ w in
        let i = round_trip l wl (and-left _ _ h) in
        let j = round_trip r wr (and-right _ _ h) in
        rw (i, j, binary-known op, made (binary op l r) v) refl
    round_trip (nary op es) w h =
        let v = and-left _ _ w in
        let i = round_trip_all es (and-right _ _ w) h in
        rw (i, nary-known op, made (nary op es) v) refl
    round_trip (if_expr c t e) w h =
        let (u, wt, we) = and-three _ _ _ w in
        let (hc, ht, he) = and-three _ _ _ h in
        let v = and-left _ _ u in
        let i = round_trip c (and-right _ _ u) hc in
        let j = round_trip t wt ht in
        let k = round_trip e we he in rw (i, j, k, made (if_expr c t e) v) refl
    round_trip (call f es s) w h =
        let v = and-left _ _ w in
        let i = round_trip_all es (and-right _ _ w) (and-right _ _ h) in
        let j = sort_round_trip s (and-left _ _ h) in rw (i, j, made (call f es s) v) refl

    round_trip_all :
        (es : Exprs)
        → well_formed_all es ≡ true
        → have_valid_sorts es ≡ true
        → all_from_dict repr (all_to_dict es) ≡ ok es
    round_trip_all nil w h = refl
    round_trip_all (cons e es) w h =
        let i = round_trip e (and-left _ _ w) (and-left _ _ h) in
        let j = round_trip_all es (and-right _ _ w) (and-right _ _ h) in rw (i, j) refl

-- Decoding the encoding of a well-formed expression whose sorts the constructor of Sort accepts gives
-- the expression back, whatever text `str` gives a list or a dict.
pub expr_from_dict-expr_to_dict :
    (repr : Data → String) (e : Expr)
    → well_formed e ≡ true
    → has_valid_sorts e ≡ true
    → expr_from_dict repr (expr_to_dict e) ≡ ok e
expr_from_dict-expr_to_dict repr e w h = round_trip repr e w h
