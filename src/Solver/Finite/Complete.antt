-- ===== src/Solver/Finite/Complete.antt =====
-- The pruning of the search (src/umcm/solver/finite.py) loses no solution.
use com_mcm.Prelude.{
  ◌≡◌, ◌≢◌, refl, sym, ◌∙◌, ap, subst, String, Bool, true, false, ◌||◌, ◌&&◌, Option, none, some,
  List, [], ◌∷◌, arith, if◌then◌else◌, Bool-cases, inl, inr, any, all, ℕ, ◌+◌, ltb,
  text_eq_instance, Memᴰ,
}
use mathlib.Core.List.Memᴰ
use com_mcm.Errors.{Result, ok, ◌>>=◌, >>=-eq-ok, ok-injective}
use com_mcm.Ir.Sort.{Value, bool, int, text, null}
use com_mcm.Ir.Expression.{Expr}
use com_mcm.Solver.Evaluator.{Partial, is_true, is_false, is_unknown}
use com_mcm.Solver.Evaluator.Growth.{Below, Grows}
use com_mcm.Solver.Finite.{
  FiniteVariable, Assignment, unassigned, assign, Progress, Step, unsat, consistent, evaluate_each,
  after_value, leaf, try_values, count, visit, search, status_of, solve,
}
use com_mcm.Solver.Finite.Sound.{Completes, Satisfies}
use com_mcm.Solver.Finite.Progressing.{
  DistinctNames, DistinctNames, Fresh, Fresh, Within, Fresh-of_DistinctNames, Below-of_Completes,
  Within-assign, Later, Later-refl, Later-trans, Conclusive, Conclusive-Later, ok_pair,
}

module _ (evaluate_at : Assignment → Expr → Result Partial)
    (state_feasible : Assignment → Result Bool) (constraints : List Expr) (node_limit : ℕ)
    (variables : List FiniteVariable)
    (mono : (a b : Assignment)
      → Within variables a
      → ((n : String) → Below (a n) (b n))
      → (c : Expr) → Memᴰ c constraints
      → Grows (evaluate_at a c) (evaluate_at b c)) where
  abbrev Solves : Assignment → Type 0
  Solves b =
      Satisfies evaluate_at state_feasible constraints node_limit b × (state_feasible b ≡ ok true)

  -- A step from `p` that ends without a witness, and conclusively, rules out every solution.
  abbrev Refutes : List FiniteVariable → Assignment → Progress → Step → Type 0
  Refutes vs a p r =
      (o : Option Assignment) (q : Progress)
      → r ≡ ok (o, q)
      → Later p q
        × (o ≡ none → Conclusive node_limit q → (b : Assignment) → Completes vs a b → ¬ Solves b)

  false_stays :
      (a b : Assignment) (p : Partial) (c : Expr)
      → evaluate_at a c ≡ ok p
      → is_false p ≡ true
      → Grows (evaluate_at a c) (evaluate_at b c)
      → evaluate_at b c ≢ ok (some (bool true))
  false_stays a b p c e f g t =
      clash p f (
        subst (λ z. Grows z (ok (some (bool true)))) e (subst (λ z. Grows (evaluate_at a c) z) t g))
    where
      clash : (p : Partial) → is_false p ≡ true → Grows (ok p) (ok (some (bool true))) → ⊥
      clash none f g = cc
      clash (some (bool true)) f g = cc
      clash (some (bool false)) f g = cc
      clash (some (int i)) f g = cc
      clash (some (text s)) f g = cc
      clash (some null) f g = cc

  inconsistent :
      (a b : Assignment) (cs : List Expr)
      → ((c : Expr) → Memᴰ c cs → Memᴰ c constraints)
      → Within variables a
      → ((n : String) → Below (a n) (b n))
      → consistent evaluate_at state_feasible constraints node_limit a cs ≡ ok false
      → ¬ Solves b
  unfolding consistent
  inconsistent a b [] sub w l h s = cc
  inconsistent a b (c ∷ cs) sub w l h s =
      let (p, e, f) =
        >>=-eq-ok (evaluate_at a c)
          (λ v.
            if is_false v
            then ok false
            else consistent evaluate_at state_feasible constraints node_limit a cs)
          h in
      elim (Bool-cases (is_false p)) [
        | inl t ↦
            false_stays a b p c e t (mono a b w l c (sub c (Memᴰ.head refl)))
              (s.0 c (sub c (Memᴰ.head refl)))
        | inr t ↦ inconsistent a b cs (λ d m. sub d (Memᴰ.tail m)) w l (rw t at f) s
      ]

  -- The values of a satisfying leaf are all True.
  all-true_each :
      (a : Assignment) (cs : List Expr) (vs : List Partial)
      → ((c : Expr) → Memᴰ c cs → evaluate_at a c ≡ ok (some (bool true)))
      → evaluate_each evaluate_at state_feasible constraints node_limit a cs ≡ ok vs
      → all is_true vs ≡ true
  unfolding evaluate_each all
  all-true_each a [] vs t h = subst (λ z. all is_true z ≡ true) (nil_values h) refl
    where
      nil_values : ok [] ≡ ok vs → [] ≡ vs
      nil_values k = cc
  all-true_each a (c ∷ cs) vs t h =
      let (v, p, q) =
        >>=-eq-ok (evaluate_at a c)
          (λ v. evaluate_each evaluate_at state_feasible constraints node_limit a cs >>= λ ws.
            ok (v ∷ ws))
          h in
      let (ws, r, s) =
        >>=-eq-ok (evaluate_each evaluate_at state_feasible constraints node_limit a cs)
          (λ ws. ok (v ∷ ws)) q in
      let e : v ∷ ws ≡ vs = cc in
      let f : some (bool true) ≡ v = same_value v (sym (t c (Memᴰ.head refl)) ∙ p) in
      subst (λ z. all is_true z ≡ true) e
        (subst (λ z. (is_true z && all is_true ws) ≡ true) f
          (all-true_each a cs ws (λ d m. t d (Memᴰ.tail m)) r))
    where
      same_value : (v : Partial) → ok (some (bool true)) ≡ ok v → some (bool true) ≡ v
      same_value v k = cc

  leaf-Refutes :
      (a : Assignment) (p : Progress)
      → Refutes [] a p (leaf evaluate_at state_feasible constraints node_limit a p)
  unfolding leaf
  leaf-Refutes a p o q h =
      let (vs, e, r) =
        >>=-eq-ok (evaluate_each evaluate_at state_feasible constraints node_limit a constraints)
          (λ vs.
            if all is_true vs
            then (state_feasible a >>= λ good. ok (if good then some a else none, p))
            else ok (none, record p { hit_unknown_leaf = p.hit_unknown_leaf || any is_unknown vs }))
          h in
      elim (Bool-cases (all is_true vs)) [
        | inl t ↦
            let (good, e', r') =
              >>=-eq-ok (state_feasible a) (λ good. ok (if good then some a else none, p))
                (rw t at r) in
            let (f, g) = ok_pair (if good then some a else none) o p q r' in
            (
              subst (Later p) g (Later-refl p),
              λ n c b k s.
                  let sa : state_feasible a ≡ ok true =
                    subst (λ z. state_feasible z ≡ ok true) k s.1 in
                  let yes : good ≡ true = ok-injective (sym e' ∙ sa) in
                  let f' : some a ≡ o = rw yes at f in absurd (some_not_none a (f' ∙ n)),
            )
        | inr t ↦
            let (f, g) =
              ok_pair none o
                (record p { hit_unknown_leaf = p.hit_unknown_leaf || any is_unknown vs }) q
                (rw t at r) in
            (
              subst (Later p) g (record { explored = omega arith; unknown = λ u. rw u refl }),
              λ n c b k s.
                  let all_true =
                    all-true_each a constraints vs
                      (subst (Satisfies evaluate_at state_feasible constraints node_limit) k s.0)
                      e in
                  clash (sym t ∙ all_true),
            )
      ]
    where
      some_not_none : (a : Assignment) → ◌≡◌ {A = Option Assignment} (some a) none → ⊥
      some_not_none a k = cc

      clash : false ≡ true → ⊥
      clash k = cc

  visit-Refutes :
      (vs : List FiniteVariable) (body : Progress → Step) (a : Assignment) (p : Progress)
      → Within variables a
      → Fresh vs a
      → ((z : Progress) → Refutes vs a z (body z))
      → Refutes vs a p (visit evaluate_at state_feasible constraints node_limit body a p)
  visit-Refutes vs body a p w fr ref o q h = elim (Bool-cases (ltb node_limit (p.explored + 1))) [
    | inl b ↦
        let (f, g) = ok_pair none o next q (rw b at h) in
        (
          subst (Later p) g one_more,
          λ n c. absurd (clash (sym c.0 ∙ subst (λ z. ltb node_limit z.explored ≡ true) g b)),
        )
    | inr b ↦
        let (good, e, r) =
          >>=-eq-ok (consistent evaluate_at state_feasible constraints node_limit a constraints)
            (λ good. if good then body next else ok (none, next)) (rw b at h) in
        elim (Bool-cases good) [
          | inl g ↦ let (l, k) = ref next o q (rw g at r) in (Later-trans p next q one_more l, k)
          | inr g ↦
              let (f, k) = ok_pair none o next q (rw g at r) in
              (
                subst (Later p) k one_more,
                λ n c b' m.
                    inconsistent a b' constraints (λ d z. z) w (Below-of_Completes vs a b' fr m)
                      (e ∙ ap ok g),
              )
        ]
  ]
    where
      next : Progress
      next = count evaluate_at state_feasible constraints node_limit p

      one_more : Later p next
      one_more = record { explored = omega arith; unknown = λ u. u }

      clash : false ≡ true → ⊥
      clash k = cc

  -- What is left of a domain is ruled out.
  abbrev RefutesValues :
      FiniteVariable → List FiniteVariable → Assignment → List Value → Progress → Step → Type 0
  RefutesValues v vs a xs p r =
      (o : Option Assignment) (q : Progress)
      → r ≡ ok (o, q)
      → Later p q
        × (o ≡ none
            → Conclusive node_limit q
            → (b : Assignment) (x : Value) → Memᴰ x xs
            → Completes vs (assign a v.name x) b
            → ¬ Solves b)

  values_refute :
      (v : FiniteVariable) (vs : List FiniteVariable) (a : Assignment)
      (next : Value → Progress → Step) (xs : List Value)
      → ((x : Value) → Memᴰ x xs → (z : Progress) → Refutes vs (assign a v.name x) z (next x z))
      → (p : Progress)
      → RefutesValues v vs a xs p
          (try_values evaluate_at state_feasible constraints node_limit next xs p)
  unfolding try_values
  values_refute v vs a next [] ref p o q h =
      let (f, g) = ok_pair none o p q h in
      (subst (Later p) g (Later-refl p), λ n c b x m. absurd (Memᴰ.not-nil m))
  values_refute v vs a next (x ∷ xs) ref p o q h =
      let (r, e, f) =
        >>=-eq-ok (next x p)
          (λ r.
            after_value node_limit r.0 r.1
              (try_values evaluate_at state_feasible constraints node_limit next xs))
          h in
      first (values_refute v vs a next xs (λ y m. ref y (Memᴰ.tail m))) r.0 r.1 e f
    where
      first :
          ((z : Progress)
            → RefutesValues v vs a xs z
                (try_values evaluate_at state_feasible constraints node_limit next xs z))
          → (o' : Option Assignment) (z : Progress) → next x p ≡ ok (o', z)
          → after_value node_limit o' z
              (try_values evaluate_at state_feasible constraints node_limit next xs)
            ≡ ok (o, q)
          → Later p q
            × (o ≡ none
                → Conclusive node_limit q
                → (b : Assignment) (y : Value) → Memᴰ y (x ∷ xs)
                → Completes vs (assign a v.name y) b
                → ¬ Solves b)
      first rest (some w) z e f =
          let (g, k) = ok_pair (some w) o z q f in
          (
            subst (Later p) k (ref x (Memᴰ.head refl) p (some w) z e).0,
            λ n. absurd (some_not_none w (g ∙ n)),
          )
        where
          some_not_none : (w : Assignment) → ◌≡◌ {A = Option Assignment} (some w) none → ⊥
          some_not_none w k = cc
      first rest none z e f = elim (Bool-cases (ltb node_limit z.explored)) [
        | inl b ↦
            let (g, k) = ok_pair none o z q (rw b at f) in
            let now = ref x (Memᴰ.head refl) p none z e in
            (
              subst (Later p) k now.0,
              λ n c. absurd (clash (sym c.0 ∙ subst (λ u. ltb node_limit u.explored ≡ true) k b)),
            )
        | inr b ↦
            let now = ref x (Memᴰ.head refl) p none z e in
            let (l, later) = rest z o q (rw b at f) in
            (
              Later-trans p z q now.0 l,
              λ n c b' y m. elim (Memᴰ.cases_cons m) [
                | inl i ↦ λ k.
                    now.1 refl (Conclusive-Later node_limit z q l c) b'
                      (subst (λ u. Completes vs (assign a v.name u) b') i k)
                | inr i ↦ later n c b' y i
              ],
            )
      ]
        where
          clash : false ≡ true → ⊥
          clash k = cc

  search-Refutes :
      (vs : List FiniteVariable) (a : Assignment) (p : Progress)
      → ((v : FiniteVariable) → Memᴰ v vs → Memᴰ v variables)
      → Within variables a
      → Fresh vs a
      → Refutes vs a p (search evaluate_at state_feasible constraints node_limit vs a p)
  unfolding search
  search-Refutes [] a p sub w fr =
      visit-Refutes [] (leaf evaluate_at state_feasible constraints node_limit a) a p w fr
        (leaf-Refutes a)
  search-Refutes (v ∷ vs) a p sub w fr =
      visit-Refutes (v ∷ vs)
        (try_values evaluate_at state_feasible constraints node_limit next v.domain) a p w fr
        (λ z o q h.
          let (l, k) =
            values_refute v vs a next v.domain
              (λ x m y.
                search-Refutes vs (assign a v.name x) y (λ u n. sub u (Memᴰ.tail n))
                  (Within-assign variables a v x (sub v (Memᴰ.head refl)) m w) (fr.1 x))
              z o q h in
          (l, λ n c b (x, m, s). k n c b x m s))
    where
      next : Value → Progress → Step
      next x = search evaluate_at state_feasible constraints node_limit vs (assign a v.name x)

  -- Where the search answers UNSAT, no choice of values from the domains makes every constraint
  -- True and passes the check of the state semantics.
  pub solve_complete :
      DistinctNames variables
      → solve evaluate_at state_feasible constraints node_limit variables ≡ ok unsat
      → (b : Assignment) → Completes variables unassigned b
      → ¬ (
          Satisfies evaluate_at state_feasible constraints node_limit b
          × (state_feasible b ≡ ok true))
  unfolding solve
  solve_complete d h b c s =
      let (r, e, f) =
        >>=-eq-ok
          (search evaluate_at state_feasible constraints node_limit variables unassigned
            zero_progress)
          (λ r. ok (status_of evaluate_at state_feasible constraints node_limit r)) h in
      let fresh = Fresh-of_DistinctNames variables unassigned d (λ v m. refl) in
      let (l, k) =
        search-Refutes variables unassigned zero_progress (λ v m. m) (λ n x e. cc) fresh r.0 r.1
          e in
      settle r.0 r.1 f k
    where
      zero_progress : Progress
      zero_progress = record { explored = 0; hit_unknown_leaf = false }

      settle :
          (o : Option Assignment) (q : Progress)
          → ok (status_of evaluate_at state_feasible constraints node_limit (o, q)) ≡ ok unsat
          → (o ≡ none
              → Conclusive node_limit q
              → (b : Assignment) → Completes variables unassigned b
              → ¬ Solves b)
          → ⊥
      settle (some w) q f k = cc
      settle none q f k = k refl (ground arith, ground arith) b c s
