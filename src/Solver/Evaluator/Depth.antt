-- ===== src/Solver/Evaluator/Depth.antt =====
-- `evaluate` with the fields that are expressions (src/umcm/solver/evaluator.py): growing with the
-- assignment, and independence of the bound on nested fields.
use com_mcm.Prelude.{
  ◌≡◌, refl, ◌∙◌, ap, String, true, Option, some, Option-cases, inl, inr, ℕ, zero, suc,
}
use com_mcm.Errors.{Result, ok}
use com_mcm.Ir.Sort.{Value}
use com_mcm.Ir.Expression.{Expr, well_formed}
use com_mcm.Ir.Event.{Attribute, value, expression, EventInstance}
use com_mcm.Solver.Evaluator.{
  Partial, Environment, EvaluationContext, select, event_attribute, evaluate,
}
use com_mcm.Solver.Evaluator.Growth.{Below, Grows}
use com_mcm.Solver.Evaluator.Kinds.{HasKinds}
use com_mcm.Solver.Evaluator.Monotone.{eval_mono}

abbrev pub environment_at : ℕ → EvaluationContext → Environment
environment_at depth ctx = record {
  attribute = event_attribute (evaluate depth ctx) ctx;
  assignment = ctx.assignment;
  functions = ctx.functions;
}

-- The expression, and those in the fields that it can come to, are well-formed and have values of
-- the kinds of their sorts.
abbrev pub IsReady : ℕ → EvaluationContext → Expr → Type 0
IsReady zero ctx e = Unit
IsReady (suc depth) ctx e =
    (well_formed e ≡ true)
    × HasKinds (environment_at depth ctx) e
    × ((i f : String) (event : EventInstance) (e' : Expr)
        → ctx.events i ≡ some event
        → select f event ≡ some (expression e')
        → IsReady depth ctx e')

abbrev pub reassign : EvaluationContext → (String → Option Value) → EvaluationContext
reassign ctx a = record { events = ctx.events; assignment = a; functions = ctx.functions }

attribute_mono :
    (f g : Expr → Result Partial) (ctx : EvaluationContext) (a : String → Option Value)
    (i name : String)
    → ((event : EventInstance) (e : Expr)
        → ctx.events i ≡ some event
        → select name event ≡ some (expression e)
        → Grows (f e) (g e))
    → Grows (event_attribute f ctx i name) (event_attribute g (reassign ctx a) i name)
unfolding event_attribute
attribute_mono f g ctx a i name h = elim (Option-cases (ctx.events i)) [
  | inl n ↦ rw (n, event_attribute) tt
  | inr (event, p) ↦ elim (Option-cases (select name event)) [
    | inl n ↦ rw (p, event_attribute) (rw (n, event_attribute) tt)
    | inr (attr, q) ↦
        rw (p, event_attribute)
          (rw (q, event_attribute) (at_value attr (λ e r. h event e p (q ∙ ap some r))))
  ]
]
  where
    at_value :
        (attr : Attribute)
        → ((e : Expr) → attr ≡ expression e → Grows (f e) (g e))
        → Grows
            (elim attr [ value v ↦ ok (some v) | expression e ↦ f e ])
            (elim attr [ value v ↦ ok (some v) | expression e ↦ g e ])
    at_value (value v) k = refl
    at_value (expression e) k = k e refl

-- With more symbols assigned, a value stays the same value or becomes an exception.
pub evaluate_mono :
    (depth : ℕ) (ctx : EvaluationContext) (a : String → Option Value) (e : Expr)
    → ((n : String) → Below (ctx.assignment n) (a n))
    → IsReady depth ctx e
    → Grows (evaluate depth ctx e) (evaluate depth (reassign ctx a) e)
unfolding evaluate
evaluate_mono zero ctx a e l r = tt
evaluate_mono (suc depth) ctx a e l r =
    eval_mono (environment_at depth ctx) (environment_at depth (reassign ctx a))
      (record {
        attributes = λ i f.
            attribute_mono (evaluate depth ctx) (evaluate depth (reassign ctx a)) ctx a i f
              (λ event e' p q. evaluate_mono depth ctx a e' l (r.2 i f event e' p q));
        assigned = l;
        functions = refl;
      })
      e r.0 r.1
