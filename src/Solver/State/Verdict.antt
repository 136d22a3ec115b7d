-- ===== src/Solver/State/Verdict.antt =====
-- What a feasible result of check_state_semantics (src/umcm/solver/state.py) means.
use com_mcm.Prelude.{
  none-some, ◌≡◌, refl, sym, ap, ◌∙◌, subst, inl, inr, Bool, true, false, Option, none, some, List,
  [], ◌∷◌, ℕ, suc, ◌≤◌, Memᴰ, some-injective, arith, Bool-cases, if◌then◌else◌, leb,
}
use mathlib.Core.List.Memᴰ
use com_mcm.Prelude.Int.{pos, negsuc}
use com_mcm.Errors.{Result, ok, ◌>>=◌, >>=-eq-ok, ok-injective}
use com_mcm.Ir.Sort.{int, bool, text, null}
use com_mcm.Ir.Expression.{Expr}
use com_mcm.Solver.Evaluator.{Partial, is_true, is_unknown}
use com_mcm.Solver.Problem.{StateProblem, StateRequirementInstance, StateUpdateInstance}
use com_mcm.Solver.State.{
  Active, go_on, placed, prepend, valid_cycle, State, StateCheckResult, infeasible, feasible,
  StateStep, simulate, Simulation, cycles_from, initial_state, active_items, requirement_parts,
  update_parts, or_infeasible, guarded_transitions_hold, check_state_semantics,
}
use com_mcm.Solver.State.Writes.{went_on}
use com_mcm.Solver.State.Refinement.{Run, simulate-Run}

known_true : (v : Partial) → is_true v ≡ true → v ≡ some (bool true)
known_true none h = absurd cc
known_true (some (bool true)) h = refl
known_true (some (bool false)) h = absurd cc
known_true (some (int i)) h = absurd cc
known_true (some (text t)) h = absurd cc
known_true (some null) h = absurd cc

valid_cycle-within :
    (horizon : ℕ) (v : Partial) (n : ℕ)
    → valid_cycle horizon v ≡ some n
    → (v ≡ some (int (pos n))) × (n ≤ horizon)
valid_cycle-within horizon none n h = absurd (none-some h)
valid_cycle-within horizon (some (bool b)) n h = absurd (none-some h)
valid_cycle-within horizon (some (text t)) n h = absurd (none-some h)
valid_cycle-within horizon (some null) n h = absurd (none-some h)
valid_cycle-within horizon (some (int (negsuc m))) n h = absurd (none-some h)
valid_cycle-within horizon (some (int (pos m))) n h = elim (Bool-cases (leb m horizon)) [
  | inl t ↦
      let e : some m ≡ some n = rw t at h in
      (
        ap (λ z. some (int (pos z))) (some-injective e),
        subst (λ z. z ≤ horizon) (some-injective e) (ground (arith, t)),
      )
  | inr f ↦ let e : none ≡ some n = rw f at h in absurd (none-some e)
]

module _ {Item : Type 0} where
  prepend-some :
      (a : Item) (o : Option (List Item)) (all_items : List Item)
      → prepend a o ≡ some all_items
      → (rest : List Item) × (o ≡ some rest) × (a ∷ rest ≡ all_items)
  prepend-some a none all_items h = absurd (none-some h)
  prepend-some a (some rest) all_items h = (rest, refl, some-injective h)

  placed-parts :
      (item : Item) (cycle : Option ℕ) (v : Partial) (a : Active Item)
      → placed item cycle v ≡ some a
      → (a.item ≡ item) × (cycle ≡ some a.at_cycle) × (v ≡ some a.given)
  placed-parts item none v a h = absurd (none-some h)
  placed-parts item (some c) none a h = absurd (none-some h)
  placed-parts item (some c) (some v) a h =
      let e = some-injective h in
      (ap (λ z. z.item) (sym e), ap (λ z. some z.at_cycle) e, ap (λ z. some z.given) e)

module _ {Item : Type 0} (evaluate : Expr → Result Partial) (horizon : ℕ)
    (parts : Item → Expr × Expr × Expr) where
  -- The activation is True, the cycle lies within the horizon and the value is known.
  abbrev pub IsActive : Active Item → Type 0
  IsActive a =
      (evaluate (parts a.item).0 ≡ ok (some (bool true)))
      × (evaluate (parts a.item).1 ≡ ok (some (int (pos a.at_cycle))))
      × (a.at_cycle ≤ horizon)
      × (evaluate (parts a.item).2 ≡ ok (some a.given))

  -- The items whose activation is True, and no others.
  pub record Collects (items : List Item) (actives : List (Active Item)) : Type 0 where
    pub sound : (a : Active Item) → Memᴰ a actives → Memᴰ a.item items × IsActive a
    pub complete :
        (item : Item)
        → Memᴰ item items
        → evaluate (parts item).0 ≡ ok (some (bool true))
        → (a : Active Item) × Memᴰ a actives × (a.item ≡ item)

  Collects-cons :
      (x : Item) (active : Active Item) (items : List Item) (actives : List (Active Item))
      → active.item ≡ x
      → IsActive active
      → Collects items actives
      → Collects (x ∷ items) (active ∷ actives)
  Collects-cons x active items actives i s c = record {
    sound = λ b m. elim (Memᴰ.cases_cons m) [
      | inl e ↦ subst (λ z. Memᴰ z.item (x ∷ items) × IsActive z) (sym e) (Memᴰ.head i, s)
      | inr k ↦ let (n, t) = c.sound b k in (Memᴰ.tail n, t)
    ];
    complete = λ item m e. elim (Memᴰ.cases_cons m) [
      | inl same ↦ (active, Memᴰ.head refl, i ∙ sym same)
      | inr k ↦ let (b, n, t) = c.complete item k e in (b, Memᴰ.tail n, t)
    ];
  }

  active_items-Collects :
      (items : List Item) (actives : List (Active Item))
      → active_items evaluate horizon parts items ≡ ok (some actives)
      → Collects items actives
  unfolding active_items
  active_items-Collects [] actives h =
      subst (Collects []) (some-injective (ok-injective h)) (record {
        sound = λ a m. absurd (Memᴰ.not-nil m);
        complete = λ item m. absurd (Memᴰ.not-nil m);
      })
  active_items-Collects (x ∷ items) actives h =
      let (v, a, h₁) = >>=-eq-ok (evaluate (parts x).0) _ h in
      elim (Bool-cases (is_unknown v)) [
        | inl t ↦
            let p : ok none ≡ ok (some actives) = rw t at h₁ in absurd (none-some (ok-injective p))
        | inr f ↦ elim (Bool-cases (is_true v)) [
          | inl t ↦
              let p : (evaluate (parts x).1 >>= λ cycle. evaluate (parts x).2 >>= λ given.
              go_on (placed x (valid_cycle horizon cycle) given) (λ active.
                active_items evaluate horizon parts items >>= λ others. ok (prepend active others)))
                  ≡ ok (some actives) =
                rw (f, t) at h₁ in
              let (cycle, b, p₁) = >>=-eq-ok (evaluate (parts x).1) _ p in
              let (given, d, p₂) = >>=-eq-ok (evaluate (parts x).2) _ p₁ in
              let (active, e, p₃) =
                went_on (placed x (valid_cycle horizon cycle) given) _ actives p₂ in
              let (o, g, p₄) = >>=-eq-ok (active_items evaluate horizon parts items) _ p₃ in
              let (rest, eo, same) = prepend-some active o actives (ok-injective p₄) in
              let (i, ec, ev) = placed-parts x (valid_cycle horizon cycle) given active e in
              let (eq_cycle, within) = valid_cycle-within horizon cycle active.at_cycle ec in
              subst (Collects (x ∷ items)) same (
                Collects-cons x active items rest i
                  (
                    ap (λ z. evaluate (parts z).0) i ∙ a ∙ ap ok (known_true v t),
                    ap (λ z. evaluate (parts z).1) i ∙ b ∙ ap ok eq_cycle,
                    within,
                    ap (λ z. evaluate (parts z).2) i ∙ d ∙ ap ok ev,
                  )
                  (active_items-Collects items rest (g ∙ ap ok eo)))
          | inr g ↦
              let p : active_items evaluate horizon parts items ≡ ok (some actives) =
                rw (f, g) at h₁ in
              let c = active_items-Collects items actives p in
              record {
                sound = λ b m. let (k, s) = c.sound b m in (Memᴰ.tail k, s);
                complete = λ item m e. elim (Memᴰ.cases_cons m) [
                  | inl same ↦
                      let q : v ≡ some (bool true) =
                        ok-injective (sym a ∙ ap (λ z. evaluate (parts z).0) (sym same) ∙ e) in
                      let r : is_true v ≡ true = ap is_true q in absurd cc
                  | inr k ↦ c.complete item k e
                ];
              }
        ]
      ]

-- A run of the machine that the problem describes, from the initial state on over all cycles up to
-- the horizon.
pub record IsRun (evaluate : Expr → Result Partial) (problem : StateProblem) (initial final : State)
    : Type 0 where
  pub requirements : List (Active StateRequirementInstance)
  pub updates : List (Active StateUpdateInstance)
  pub started : initial_state evaluate problem.variables [] ≡ ok (some initial)
  pub required :
      Collects evaluate problem.horizon requirement_parts problem.requirements requirements
  pub updated : Collects evaluate problem.horizon update_parts problem.updates updates
  pub run : Run requirements updates (cycles_from 0 (suc problem.horizon)) initial final

continued {ℓ} :
    {A : Type ℓ} (o : Option A) (next : A → Result StateCheckResult) (i f : State)
    (steps : List StateStep)
    → or_infeasible o next ≡ ok (feasible i f steps)
    → (a : A) × (o ≡ some a) × (next a ≡ ok (feasible i f steps))
continued none next i f steps h = let e = ok-injective h in absurd cc
continued (some a) next i f steps h = (a, refl, h)

ends :
    (holds : Bool) (state : State) (s : Simulation) (i f : State) (steps : List StateStep)
    → (if holds then feasible state s.final s.steps else infeasible) ≡ feasible i f steps
    → (state ≡ i) × (s.final ≡ f)
ends true state s i f steps h = (cc, cc)
ends false state s i f steps h = absurd cc

-- If check_state_semantics answers feasible, its initial and final states are the ends of a run of
-- the machine: the active requirements of a cycle hold in the state before it, the active updates of
-- a cycle are written at once, and a cell that is not written keeps its value. Active are the
-- items whose activation is True, at their cycle, and there are no others.
pub check_state_semantics-IsRun :
    (evaluate : Expr → Result Partial) (problem : StateProblem) (initial final : State)
    (steps : List StateStep)
    → check_state_semantics evaluate problem ≡ ok (feasible initial final steps)
    → IsRun evaluate problem initial final
unfolding check_state_semantics
check_state_semantics-IsRun evaluate problem initial final steps h =
    let (o₁, a, h₁) = >>=-eq-ok (initial_state evaluate problem.variables []) _ h in
    let (state, e₁, h₂) = continued o₁ _ initial final steps h₁ in
    let (o₂, b, h₃) =
      >>=-eq-ok (active_items evaluate problem.horizon requirement_parts problem.requirements) _
        h₂ in
    let (rs, e₂, h₄) = continued o₂ _ initial final steps h₃ in
    let (o₃, c, h₅) =
      >>=-eq-ok (active_items evaluate problem.horizon update_parts problem.updates) _ h₄ in
    let (us, e₃, h₆) = continued o₃ _ initial final steps h₅ in
    let (o₄, d, h₇) = >>=-eq-ok (simulate rs us (cycles_from 0 (suc problem.horizon)) state) _ h₆ in
    let (s, e₄, h₈) = continued o₄ _ initial final steps h₇ in
    let (holds, g, h₉) =
      >>=-eq-ok (guarded_transitions_hold evaluate problem s.before_cycles) _ h₈ in
    let (same_initial, same_final) = ends holds state s initial final steps (ok-injective h₉) in
    record {
      requirements = rs;
      updates = us;
      started = a ∙ ap ok (e₁ ∙ ap some same_initial);
      required =
          active_items-Collects evaluate problem.horizon requirement_parts problem.requirements rs
            (b ∙ ap ok e₂);
      updated =
          active_items-Collects evaluate problem.horizon update_parts problem.updates us
            (c ∙ ap ok e₃);
      run =
          subst (λ z. Run rs us (cycles_from 0 (suc problem.horizon)) z final) same_initial
            (subst (λ z. Run rs us (cycles_from 0 (suc problem.horizon)) state z) same_final
              (simulate-Run rs us (cycles_from 0 (suc problem.horizon)) state s (d ∙ ap ok e₄)));
    }
