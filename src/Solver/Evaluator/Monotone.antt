-- ===== src/Solver/Evaluator/Monotone.antt =====
-- A value found under a partial assignment stays the value under every extension of it
-- (src/umcm/solver/evaluator.py).
use com_mcm.Prelude.{
  ◌≡◌, refl, sym, ◌∙◌, ap, subst, String, Bool, true, false, List, ◌∷◌, arith, if◌then◌else◌,
  and-left, and-right, Bool-cases, inl, inr, text_eq_instance,
}
use com_mcm.Errors.{Result, ok, err, ◌>>=◌}
use com_mcm.Ir.Sort.{is_bool}
use com_mcm.Ir.Expression.{
  Expr, Exprs, literal, symbol, event_field, unary, binary, nary, if_expr, call, nil, cons,
  well_formed, well_formed_all, sort_of, node_is_valid,
}
use com_mcm.Solver.Evaluator.{
  Partial, Environment, eval, eval_all, evaluate_unary, evaluate_binary, evaluate_nary, agree,
  apply, is_true, is_false,
}
use com_mcm.Solver.Evaluator.Kinds.{HasKinds, HaveKinds, OfKind, eval_kind, branch_sorts}
use com_mcm.Solver.Evaluator.Growth.{
  Below, Grows, GrowsAll, Grows-bind, GrowsAll-bind, Below-is_true, Below-is_false, not-both,
}
use com_mcm.Solver.Evaluator.Operators.{
  binary_mono, nary_mono, unary_mono, apply_mono, agree-Below_left, SameKind, agree-Below_right,
  agree_mono,
}

GrowsAll-cons :
    (r s : Result Partial) (rs ss : Result (List Partial))
    → Grows r s
    → GrowsAll rs ss
    → GrowsAll (r >>= λ a. rs >>= λ vs. ok (a ∷ vs)) (s >>= λ a. ss >>= λ vs. ok (a ∷ vs))
GrowsAll-cons (err e) s rs ss g h = tt
GrowsAll-cons (ok p) s (err e) ss g h = tt
GrowsAll-cons (ok p) (err e) (ok ps) ss g h = tt
GrowsAll-cons (ok p) (ok q) (ok ps) (err e) g h = tt
GrowsAll-cons (ok p) (ok q) (ok ps) (ok qs) g h = (g, h)

-- The results of an undecided `ite`.
abbrev both : Result Partial → Result Partial → Result Partial
both t e = t >>= λ a. e >>= λ b. ok (agree a b)

both_left : (t e t' : Result Partial) → Grows t t' → Grows (both t e) t'
both_left (err x) e t' g = tt
both_left (ok a) (err x) t' g = tt
both_left (ok a) (ok b) (err x) g = tt
both_left (ok a) (ok b) (ok a') g = agree-Below_left a b a' g

both_right :
    (k : Bool) (t e e' : Result Partial)
    → OfKind k t
    → OfKind k e
    → Grows e e'
    → Grows (both t e) e'
unfolding SameKind
both_right k (err x) e e' kt ke g = tt
both_right k (ok a) (err x) e' kt ke g = tt
both_right k (ok a) (ok b) (err x) kt ke g = tt
both_right k (ok a) (ok b) (ok b') kt ke g =
    agree-Below_right a b b' (λ v w p q. kt v (ap ok p) ∙ sym (ke w (ap ok q))) g

both_mono : (t e t' e' : Result Partial) → Grows t t' → Grows e e' → Grows (both t e) (both t' e')
both_mono (err x) e t' e' g h = tt
both_mono (ok a) (err x) t' e' g h = tt
both_mono (ok a) (ok b) (err x) e' g h = tt
both_mono (ok a) (ok b) (ok a') (err x) g h = tt
both_mono (ok a) (ok b) (ok a') (ok b') g h = agree_mono a b a' b' g h

abbrev branch : Partial → Result Partial → Result Partial → Result Partial
branch d t e = if is_true d then t else if is_false d then e else both t e

if_mono :
    (k : Bool) (t e t' e' : Result Partial) (d d' : Partial)
    → OfKind k t
    → OfKind k e
    → Grows t t'
    → Grows e e'
    → Below d d'
    → Grows (branch d t e) (branch d' t' e')
if_mono k t e t' e' d d' kt ke g h b = elim (Bool-cases (is_true d)) [
  | inl p ↦ rw (p, Below-is_true d d' b p) g
  | inr p ↦ elim (Bool-cases (is_false d)) [
    | inl q ↦
        let q' = Below-is_false d d' b q in
        let p' : is_true d' ≡ false = ground (arith, not-both d') in rw (p, q, p', q') h
    | inr q ↦ rw (p, q) (undecided (is_true d') (is_false d'))
  ]
]
  where
    undecided : (x y : Bool) → Grows (both t e) (if x then t' else if y then e' else both t' e')
    undecided true y = both_left t e t' g
    undecided false true = both_right k t e e' kt ke h
    undecided false false = both_mono t e t' e' g h

-- `env'` knows at least what `env` knows, and has the same functions.
pub record Extends (env env' : Environment) : Type 0 where
  pub attributes : (i f : String) → Grows (env.attribute i f) (env'.attribute i f)
  pub assigned : (n : String) → Below (env.assignment n) (env'.assignment n)
  pub functions : env'.functions ≡ env.functions

module _ (env env' : Environment) (x : Extends env env') where
  mutual
    unfolding eval well_formed

    pub eval_mono :
        (e : Expr) → well_formed e ≡ true → HasKinds env e → Grows (eval env e) (eval env' e)
    eval_mono (literal v s) w k = refl
    eval_mono (symbol n s) w k = x.assigned n
    eval_mono (event_field i f s) w k = x.attributes i f
    eval_mono (unary op e) w k =
        Grows-bind (eval env e) (eval env' e) (evaluate_unary op) (evaluate_unary op)
          (eval_mono e (and-right (node_is_valid (unary op e)) _ w) k) (unary_mono op)
    eval_mono (binary op l r) w k =
        Grows-bind (eval env l) (eval env' l) (λ a. eval env r >>= λ b. evaluate_binary op a b)
          (λ a. eval env' r >>= λ b. evaluate_binary op a b)
          (eval_mono l (and-right (node_is_valid (binary op l r)) _ (and-left _ (well_formed r) w))
            k.0)
          (λ p q b.
            Grows-bind (eval env r) (eval env' r) (evaluate_binary op p) (evaluate_binary op q)
              (eval_mono r (and-right _ (well_formed r) w) k.1)
              (λ p' q' c. binary_mono op p q p' q' b c))
    eval_mono (nary op es) w k =
        GrowsAll-bind (eval_all env es) (eval_all env' es) (evaluate_nary op) (evaluate_nary op)
          (eval_all_mono es (and-right (node_is_valid (nary op es)) _ w) k) (nary_mono op)
    eval_mono (if_expr c t e) w k =
        let w₁ = and-left _ (well_formed e) w in
        let wc = and-right (node_is_valid (if_expr c t e)) _ (and-left _ (well_formed t) w₁) in
        let wt = and-right _ (well_formed t) w₁ in
        let we = and-right _ (well_formed e) w in
        let s = branch_sorts c t e (and-left _ (well_formed c) (and-left _ (well_formed t) w₁)) in
        Grows-bind (eval env c) (eval env' c) (λ d. branch d (eval env t) (eval env e))
          (λ d. branch d (eval env' t) (eval env' e)) (eval_mono c wc k.0)
          (λ p q b.
            if_mono (is_bool (sort_of t)) (eval env t) (eval env e) (eval env' t) (eval env' e) p q
              (eval_kind env t wt k.1)
              (subst (λ z. OfKind (is_bool z) (eval env e)) (sym s) (eval_kind env e we k.2))
              (eval_mono t wt k.1) (eval_mono e we k.2) b)
    eval_mono (call f es s) w k =
        GrowsAll-bind (eval_all env es) (eval_all env' es) (apply (env.functions f))
          (apply (env'.functions f))
          (eval_all_mono es (and-right (node_is_valid (call f es s)) _ w) k.0)
          (λ ps qs b.
            subst (λ g. Grows (apply (env.functions f) ps) (apply (g f) qs)) (sym x.functions)
              (apply_mono (env.functions f) ps qs b))

    eval_all_mono :
        (es : Exprs)
        → well_formed_all es ≡ true
        → HaveKinds env es
        → GrowsAll (eval_all env es) (eval_all env' es)
    eval_all_mono nil w k = tt
    eval_all_mono (cons e es) w k =
        GrowsAll-cons (eval env e) (eval env' e) (eval_all env es) (eval_all env' es)
          (eval_mono e (and-left _ (well_formed_all es) w) k.0)
          (eval_all_mono es (and-right (well_formed e) _ w) k.1)
