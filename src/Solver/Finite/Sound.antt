-- ===== src/Solver/Finite/Sound.antt =====
-- A witness of the search (src/umcm/solver/finite.py) satisfies every constraint.
use com_mcm.Prelude.{
  ◌≡◌, refl, sym, ◌∙◌, ap, subst, Bool, true, false, ◌||◌, Option, none, some, List, [], ◌∷◌, arith,
  if◌then◌else◌, Bool-cases, inl, inr, any, all, ℕ, ◌+◌, ltb, text_eq_instance, Memᴰ, and-left,
  and-right,
}
use mathlib.Core.List.Memᴰ
use com_mcm.Errors.{Result, ok, ◌>>=◌, >>=-eq-ok}
use com_mcm.Ir.Sort.{Value, bool, int, text, null}
use com_mcm.Ir.Expression.{Expr}
use com_mcm.Solver.Evaluator.{Partial, is_true, is_unknown}
use com_mcm.Solver.Finite.{
  FiniteVariable, Assignment, unassigned, assign, Progress, Step, sat, consistent, evaluate_each,
  after_value, leaf, try_values, count, visit, search, status_of, solve,
}

-- `b` gives each of the variables a value of its domain, and is `a` elsewhere.
abbrev pub Completes : List FiniteVariable → Assignment → Assignment → Type 0
Completes [] a b = b ≡ a
Completes (v ∷ vs) a b = (x : Value) × Memᴰ x v.domain × Completes vs (assign a v.name x) b

pub is_true-eq : (p : Partial) → is_true p ≡ true → p ≡ some (bool true)
is_true-eq (some (bool b)) h = ap (λ (c : Bool). some (bool c)) h
is_true-eq (some (int i)) h = cc
is_true-eq (some (text s)) h = cc
is_true-eq (some null) h = cc
is_true-eq none h = cc

module _ (evaluate_at : Assignment → Expr → Result Partial)
    (state_feasible : Assignment → Result Bool) (constraints : List Expr) (node_limit : ℕ) where
  -- Every constraint is True.
  abbrev pub Satisfies : Assignment → Type 0
  Satisfies a = (c : Expr) → Memᴰ c constraints → evaluate_at a c ≡ ok (some (bool true))

  pub each_true :
      (a : Assignment) (cs : List Expr) (vs : List Partial)
      → evaluate_each evaluate_at state_feasible constraints node_limit a cs ≡ ok vs
      → all is_true vs ≡ true
      → (c : Expr) → Memᴰ c cs
      → evaluate_at a c ≡ ok (some (bool true))
  unfolding evaluate_each all
  each_true a [] vs h t c m = absurd (Memᴰ.not-nil m)
  each_true a (d ∷ cs) vs h t c m =
      let (v, p, q) =
        >>=-eq-ok (evaluate_at a d)
          (λ v. evaluate_each evaluate_at state_feasible constraints node_limit a cs >>= λ ws.
            ok (v ∷ ws))
          h in
      let (ws, r, s) =
        >>=-eq-ok (evaluate_each evaluate_at state_feasible constraints node_limit a cs)
          (λ ws. ok (v ∷ ws)) q in
      let e : vs ≡ v ∷ ws = cc in
      let t' : all is_true (v ∷ ws) ≡ true = rw e at t in
      elim (Memᴰ.cases_cons m) [
        | inl f ↦
            subst (λ z. evaluate_at a z ≡ ok (some (bool true))) (sym f)
              (p ∙ ap ok (is_true-eq v (and-left _ (all is_true ws) t')))
        | inr k ↦ each_true a cs ws r (and-right (is_true v) _ t') c k
      ]

  abbrev Witness : List FiniteVariable → Assignment → Step → Type 0
  Witness vs a r =
      (w : Assignment) (q : Progress)
      → r ≡ ok (some w, q)
      → Completes vs a w × Satisfies w × (state_feasible w ≡ ok true)

  not_none :
      (z : Progress) (w : Assignment) (q : Progress)
      → ◌≡◌ {A = Step} (ok (none, z)) (ok (some w, q))
      → ⊥
  not_none z w q h = cc

  same_witness :
      (a : Assignment) (z : Progress) (w : Assignment) (q : Progress)
      → ◌≡◌ {A = Step} (ok (some a, z)) (ok (some w, q))
      → w ≡ a
  same_witness a z w q h = cc

  leaf_sound :
      (a : Assignment) (p : Progress)
      → Witness [] a (leaf evaluate_at state_feasible constraints node_limit a p)
  unfolding leaf
  leaf_sound a p w q h =
      let (vs, e, r) =
        >>=-eq-ok (evaluate_each evaluate_at state_feasible constraints node_limit a constraints)
          (λ vs.
            if all is_true vs
            then (state_feasible a >>= λ good. ok (if good then some a else none, p))
            else ok (none, record p { hit_unknown_leaf = p.hit_unknown_leaf || any is_unknown vs }))
          h in
      elim (Bool-cases (all is_true vs)) [
        | inl t ↦
            let (good, g, r') =
              >>=-eq-ok (state_feasible a) (λ good. ok (if good then some a else none, p))
                (rw t at r) in
            elim (Bool-cases good) [
              | inl s ↦
                  let f : w ≡ a = same_witness a p w q (rw s at r') in
                  (
                    f,
                    subst Satisfies (sym f) (each_true a constraints vs e t),
                    subst (λ z. state_feasible z ≡ ok true) (sym f) (g ∙ ap ok s),
                  )
              | inr s ↦ absurd (not_none p w q (rw s at r'))
            ]
        | inr t ↦ absurd (not_none _ w q (rw t at r))
      ]

  values_sound :
      (v : FiniteVariable) (vs : List FiniteVariable) (a : Assignment)
      (next : Value → Progress → Step)
      → ((x : Value) (p : Progress) → Witness vs (assign a v.name x) (next x p))
      → (xs : List Value) → ((x : Value) → Memᴰ x xs → Memᴰ x v.domain)
      → (p : Progress)
      → Witness (v ∷ vs) a (try_values evaluate_at state_feasible constraints node_limit next xs p)
  unfolding try_values
  values_sound v vs a next sound [] sub p w q h = cc
  values_sound v vs a next sound (x ∷ xs) sub p w q h =
      let (r, e, f) =
        >>=-eq-ok (next x p)
          (λ r.
            after_value node_limit r.0 r.1
              (try_values evaluate_at state_feasible constraints node_limit next xs))
          h in
      first (values_sound v vs a next sound xs (λ y m. sub y (Memᴰ.tail m))) r.0 r.1 e f
    where
      first :
          ((z : Progress)
            → Witness
                (v ∷ vs)
                a
                (try_values evaluate_at state_feasible constraints node_limit next xs z))
          → (o : Option Assignment) (z : Progress) → next x p ≡ ok (o, z)
          → after_value node_limit o z
              (try_values evaluate_at state_feasible constraints node_limit next xs)
            ≡ ok (some w, q)
          → Completes (v ∷ vs) a w × Satisfies w × (state_feasible w ≡ ok true)
      first rest (some b) z e f =
          let (c, t, k) = sound x p w q (e ∙ f) in ((x, sub x (Memᴰ.head refl), c), t, k)
      first rest none z e f = elim (Bool-cases (ltb node_limit z.explored)) [
        | inl b ↦ absurd (not_none z w q (rw b at f))
        | inr b ↦ rest z w q (rw b at f)
      ]

  visit_sound :
      (vs : List FiniteVariable) (body : Progress → Step) (a : Assignment) (p : Progress)
      → ((z : Progress) → Witness vs a (body z))
      → Witness vs a (visit evaluate_at state_feasible constraints node_limit body a p)
  visit_sound vs body a p sound w q h = elim (Bool-cases (ltb node_limit (p.explored + 1))) [
    | inl b ↦ absurd (not_none _ w q (rw b at h))
    | inr b ↦
        let (good, e, f) =
          >>=-eq-ok (consistent evaluate_at state_feasible constraints node_limit a constraints)
            (λ good.
              if good
              then body (count evaluate_at state_feasible constraints node_limit p)
              else ok (none, count evaluate_at state_feasible constraints node_limit p))
            (rw b at h) in
        elim (Bool-cases good) [
          | inl g ↦ sound _ w q (rw g at f)
          | inr g ↦ absurd (not_none _ w q (rw g at f))
        ]
  ]

  search_sound :
      (vs : List FiniteVariable) (a : Assignment) (p : Progress)
      → Witness vs a (search evaluate_at state_feasible constraints node_limit vs a p)
  unfolding search
  search_sound [] a p =
      visit_sound [] (leaf evaluate_at state_feasible constraints node_limit a) a p (leaf_sound a)
  search_sound (v ∷ vs) a p =
      visit_sound (v ∷ vs)
        (try_values evaluate_at state_feasible constraints node_limit
          (λ x. search evaluate_at state_feasible constraints node_limit vs (assign a v.name x))
          v.domain)
        a p
        (values_sound v vs a
          (λ x. search evaluate_at state_feasible constraints node_limit vs (assign a v.name x))
          (λ x. search_sound vs (assign a v.name x)) v.domain (λ x m. m))

  -- A satisfying assignment that is returned gives each variable a value of its domain, makes
  -- every constraint True, and passes the check of the state semantics.
  pub solve_sound :
      (variables : List FiniteVariable) (w : Assignment)
      → solve evaluate_at state_feasible constraints node_limit variables ≡ ok (sat w)
      → Completes variables unassigned w × Satisfies w × (state_feasible w ≡ ok true)
  unfolding solve
  solve_sound variables w h =
      let ((o, q), e, f) =
        >>=-eq-ok
          (search evaluate_at state_feasible constraints node_limit variables unassigned
            (record { explored = 0; hit_unknown_leaf = false }))
          (λ r. ok (status_of evaluate_at state_feasible constraints node_limit r)) h in
      settle o q e f
    where
      settle :
          (o : Option Assignment) (q : Progress)
          → search evaluate_at state_feasible constraints node_limit variables unassigned
              (record { explored = 0; hit_unknown_leaf = false })
            ≡ ok (o, q)
          → ok (status_of evaluate_at state_feasible constraints node_limit (o, q)) ≡ ok (sat w)
          → Completes variables unassigned w × Satisfies w × (state_feasible w ≡ ok true)
      settle (some b) q e f =
          let g : b ≡ w = cc in
          search_sound variables unassigned _ w q (e ∙ ap (λ (z : Assignment). ok (some z, q)) g)
      settle none q e f = absurd (ground arith)
