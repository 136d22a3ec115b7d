-- ===== src/Solver/Evaluator/Kinds.antt =====
-- The values that an expression of sort bool takes are Python bools, and no other expression
-- takes one (src/umcm/solver/evaluator.py over src/umcm/ir/expression.py).
use com_mcm.Prelude.{
  ◌≡◌, sym, ◌∙◌, ap, subst, Bool, true, false, ◌||◌, Option, none, some, List, arith, if◌then◌else◌,
  and-left, and-right, Bool-cases, Option-cases, inl, inr, text_eq_instance,
}
use com_mcm.Prelude.Int.{ℤ}
use com_mcm.Errors.{ok-injective, Result, ok, err, type_error, solver_error, ◌>>=◌, >>=-eq-ok}
use com_mcm.Ir.Sort.{
  Value, bool, int, text, null, Sort, is_bool, is_bool_value, is_int, is_bitvector, compatible_with,
  compatible_with_iff,
}
use com_mcm.Ir.Expression.{
  UnaryOp, not_op, neg_op, BinaryOp, and_op, or_op, implies_op, xor_op, eq_op, ne_op, lt_op, le_op,
  gt_op, ge_op, add_op, sub_op, mul_op, div_op, mod_op, NaryOp, all_op, any_op, distinct_op, Expr,
  Exprs, literal, symbol, event_field, unary, binary, nary, if_expr, call, nil, cons, well_formed,
  sort_of, node_is_valid, binary_sort, binary_is_valid,
}
use com_mcm.Solver.Value.{number, strict_op, on_numbers, arithmetic, as_bool, negated}
use com_mcm.Solver.Evaluator.{
  Partial, Environment, Function, eval, eval_all, evaluate_unary, evaluate_binary, evaluate_nary,
  agree, apply, all_known, known, is_true, is_false,
}

-- What the values met on the way have to be: bools exactly at the sort bool.
abbrev mutual
  pub HasKinds : Environment → Expr → Type 0
  HasKinds env (literal v s) = is_bool_value v ≡ is_bool s
  HasKinds env (symbol n s) = (v : Value) → env.assignment n ≡ some v → is_bool_value v ≡ is_bool s
  HasKinds env (event_field i f s) =
      (v : Value) → env.attribute i f ≡ ok (some v) → is_bool_value v ≡ is_bool s
  HasKinds env (unary op e) = HasKinds env e
  HasKinds env (binary op l r) = HasKinds env l × HasKinds env r
  HasKinds env (nary op es) = HaveKinds env es
  HasKinds env (if_expr c t e) = HasKinds env c × HasKinds env t × HasKinds env e
  HasKinds env (call f es s) =
      HaveKinds env es
      × ((g : Function) (ws : List Value) (v : Value)
          → env.functions f ≡ some g
          → g ws ≡ ok v
          → is_bool_value v ≡ is_bool s)

  pub HaveKinds : Environment → Exprs → Type 0
  HaveKinds env nil = Unit
  HaveKinds env (cons e es) = HasKinds env e × HaveKinds env es

-- `r` gives a value only of the kind `k`.
abbrev pub OfKind : Bool → Result Partial → Type 0
OfKind k r = (v : Value) → r ≡ ok (some v) → is_bool_value v ≡ k

not-numeric-bool : (s : Sort) → (is_int s || is_bitvector s) ≡ true → is_bool s ≡ false
not-numeric-bool s h = elim (Bool-cases (is_bool s)) [
  | inl b ↦
      let e = (text_eq_instance.beq_iff s.name "bool").0 b in let f : false ≡ true = rw e at h in cc
  | inr b ↦ b
]

unary_kind :
    (op : UnaryOp) (e : Expr) (p : Partial)
    → node_is_valid (unary op e) ≡ true
    → OfKind (is_bool (sort_of (unary op e))) (evaluate_unary op p)
unfolding evaluate_unary node_is_valid
unary_kind op e none w v h = cc
unary_kind not_op e (some x) w v h = ground arith
unary_kind neg_op e (some (bool true)) w v h = rw (not-numeric-bool (sort_of e) w) (ground arith)
unary_kind neg_op e (some (bool false)) w v h = rw (not-numeric-bool (sort_of e) w) (ground arith)
unary_kind neg_op e (some (int i)) w v h = rw (not-numeric-bool (sort_of e) w) (ground arith)
unary_kind neg_op e (some (text s)) w v h = cc
unary_kind neg_op e (some null) w v h = cc

arithmetic-eq-ok :
    (op : BinaryOp) (i j : ℤ) (x : Value) → arithmetic op i j ≡ ok x → is_bool_value x ≡ false
unfolding arithmetic
arithmetic-eq-ok add_op i j x h = ground arith
arithmetic-eq-ok sub_op i j x h = ground arith
arithmetic-eq-ok mul_op i j x h = ground arith
arithmetic-eq-ok div_op i j x h = ground arith
arithmetic-eq-ok mod_op i j x h = ground arith
arithmetic-eq-ok _ i j x h = cc

on_numbers-eq-ok :
    (op : BinaryOp) (v w x : Value) → on_numbers op v w ≡ ok x → is_bool_value x ≡ false
unfolding on_numbers
on_numbers-eq-ok op v w x h = elim (Option-cases (number v)) [
  | inl n ↦ let f : err type_error ≡ ok x = rw (n, on_numbers) at h in cc
  | inr (i, n) ↦ elim (Option-cases (number w)) [
    | inl m ↦ let f : err type_error ≡ ok x = rw (n, m, on_numbers) at h in cc
    | inr (j, m) ↦ arithmetic-eq-ok op i j x (rw (n, m, on_numbers) at h)
  ]
]

as_bool-eq-ok : (r : Result Bool) (x : Value) → as_bool r ≡ ok x → is_bool_value x ≡ true
as_bool-eq-ok (ok b) x h = ground arith
as_bool-eq-ok (err e) x h = cc

negated-eq-ok : (r : Result Bool) (x : Value) → negated r ≡ ok x → is_bool_value x ≡ true
negated-eq-ok (ok b) x h = ground arith
negated-eq-ok (err e) x h = cc

known-eq-ok : (r : Result Value) (x : Value) → known r ≡ ok (some x) → r ≡ ok x
known-eq-ok (ok v) x h = cc
known-eq-ok (err e) x h = cc

-- The kind of the value of a strict operator: that of the operand for arithmetic, else bool.
strict_kind :
    (op : BinaryOp) (s t : Sort) (v w x : Value)
    → binary_is_valid op s t ≡ true
    → strict_op op v w ≡ ok x
    → is_bool_value x ≡ is_bool (binary_sort op s)
unfolding strict_op
strict_kind xor_op s t v w x b h = ground arith
strict_kind eq_op s t v w x b h = ground arith
strict_kind ne_op s t v w x b h = ground arith
strict_kind lt_op s t v w x b h = as_bool-eq-ok _ x h
strict_kind le_op s t v w x b h = negated-eq-ok _ x h
strict_kind gt_op s t v w x b h = as_bool-eq-ok _ x h
strict_kind ge_op s t v w x b h = negated-eq-ok _ x h
strict_kind and_op s t v w x b h = cc
strict_kind or_op s t v w x b h = cc
strict_kind implies_op s t v w x b h = cc
strict_kind op s t v w x b h =
    on_numbers-eq-ok op v w x h ∙ sym (not-numeric-bool s (and-right (compatible_with s t) _ b))

binary_kind :
    (op : BinaryOp) (l r : Expr) (p q : Partial)
    → node_is_valid (binary op l r) ≡ true
    → OfKind (is_bool (sort_of (binary op l r))) (evaluate_binary op p q)
unfolding evaluate_binary node_is_valid
binary_kind and_op l r p q w v h = ground arith
binary_kind or_op l r p q w v h = ground arith
binary_kind implies_op l r p q w v h = ground arith
binary_kind op l r none q w v h = cc
binary_kind op l r (some a) none w v h = cc
binary_kind op l r (some a) (some b) w v h =
    strict_kind op (sort_of l) (sort_of r) a b v w (known-eq-ok _ v h)

nary_kind : (op : NaryOp) (vs : List Partial) → OfKind true (evaluate_nary op vs)
unfolding evaluate_nary
nary_kind all_op vs v h = ground arith
nary_kind any_op vs v h = ground arith
nary_kind distinct_op vs v h = ground arith

agree-eq-some : (a b : Partial) (v : Value) → agree a b ≡ some v → a ≡ some v
unfolding agree
agree-eq-some (some x) (some y) v h = ground arith
agree-eq-some (some x) none v h = cc
agree-eq-some none b v h = cc

apply-eq-ok :
    (f : Option Function) (vs : List Partial) (v : Value)
    → apply f vs ≡ ok (some v)
    → (g : Function) × (ws : List Value) × (f ≡ some g) × (g ws ≡ ok v)
unfolding apply
apply-eq-ok f vs v h = elim (Option-cases (all_known vs)) [
  | inl n ↦ let e : ok none ≡ ok (some v) = rw (n, apply) at h in cc
  | inr (ws, n) ↦ elim (Option-cases f) [
    | inl m ↦ let e : err solver_error ≡ ok (some v) = rw (n, m, apply) at h in cc
    | inr (g, m) ↦ (g, ws, m, known-eq-ok (g ws) v (rw (n, m, apply) at h))
  ]
]

if_kind :
    (k : Bool) (d : Partial) (t e : Result Partial)
    → OfKind k t
    → OfKind k e
    → OfKind k
        (if is_true d then t else if is_false d then e else (t >>= λ a. e >>= λ b. ok (agree a b)))
if_kind k d t e kt ke v h = elim (Bool-cases (is_true d)) [
  | inl b ↦ kt v (rw b at h)
  | inr b ↦ elim (Bool-cases (is_false d)) [
    | inl c ↦ ke v (rw (b, c) at h)
    | inr c ↦
        let (a, p, q) = >>=-eq-ok t (λ a. e >>= λ x. ok (agree a x)) (rw (b, c) at h) in
        let (x, r, z) = >>=-eq-ok e (λ x. ok (agree a x)) q in
        kt v (p ∙ ap ok (agree-eq-some a x v (ok-injective z)))
  ]
]

-- The two branches of a well-formed `ite` have one sort.
pub branch_sorts : (c t e : Expr) → node_is_valid (if_expr c t e) ≡ true → sort_of t ≡ sort_of e
unfolding node_is_valid
branch_sorts c t e v =
    (compatible_with_iff (sort_of t) (sort_of e)).0 (and-right (is_bool (sort_of c)) _ v)

module _ (env : Environment) where
  pub eval_kind :
      (e : Expr) → well_formed e ≡ true → HasKinds env e → OfKind (is_bool (sort_of e)) (eval env e)
  unfolding eval well_formed sort_of
  eval_kind (literal v s) w k x h = ground arith
  eval_kind (symbol n s) w k x h = k x (ok-injective h)
  eval_kind (event_field i f s) w k x h = k x h
  eval_kind (unary op e) w k x h =
      let (p, q, r) = >>=-eq-ok (eval env e) (evaluate_unary op) h in
      unary_kind op e p (and-left _ (well_formed e) w) x r
  eval_kind (binary op l r) w k x h =
      let (p, q, z) = >>=-eq-ok (eval env l) (λ a. eval env r >>= λ b. evaluate_binary op a b) h in
      let (p', q', z') = >>=-eq-ok (eval env r) (λ b. evaluate_binary op p b) z in
      binary_kind op l r p p' (and-left _ (well_formed l) (and-left _ (well_formed r) w)) x z'
  eval_kind (nary op es) w k x h =
      let (vs, p, q) = >>=-eq-ok (eval_all env es) (evaluate_nary op) h in nary_kind op vs x q
  eval_kind (if_expr c t e) w k x h =
      let w₁ = and-left _ (well_formed e) w in
      let v = and-left _ (well_formed c) (and-left _ (well_formed t) w₁) in
      let (d, p, q) =
        >>=-eq-ok (eval env c)
          (λ d.
            if is_true d
            then eval env t
            else if is_false d
            then eval env e
            else (eval env t >>= λ a. eval env e >>= λ b. ok (agree a b)))
          h in
      if_kind (is_bool (sort_of t)) d (eval env t) (eval env e)
        (eval_kind t (and-right _ (well_formed t) w₁) k.1)
        (subst (λ s. OfKind (is_bool s) (eval env e)) (sym (branch_sorts c t e v))
          (eval_kind e (and-right _ (well_formed e) w) k.2))
        x q
  eval_kind (call f es s) w k x h =
      let (vs, p, q) = >>=-eq-ok (eval_all env es) (apply (env.functions f)) h in
      let (g, ws, m, r) = apply-eq-ok (env.functions f) vs x q in k.1 g ws x m r
