-- ===== src/Solver/State/Refinement.antt =====
-- The simulation takes the steps of a machine whose cells are written at once
-- (src/umcm/solver/state.py).
use com_mcm.Prelude.{
  none-some, lookup, ◌≡◌, refl, sym, ap, ◌∙◌, subst, inl, inr, true, false, Option, none, some,
  List, [], ◌∷◌, ℕ, map, text_leb, Memᴰ, Memᴰ-map, Memᴰ-sorted, Memᴰ-to_set, sorted-NoDup,
  to_set-NoDup, some-injective, Bool-cases, text_eq_instance, nat_eq,
}
use mathlib.Core.List.Memᴰ
use com_mcm.Errors.{ok, >>=-eq-ok, ok-injective}
use com_mcm.Ir.Sort.{Value}
use com_mcm.Solver.Problem.{StateRequirementInstance, StateUpdateInstance}
use com_mcm.Solver.State.{
  Active, State, StateChange, or_key_error, compare_state, requirements_hold, write_cells, written,
  step, at_cycle_of, simulate, Simulation,
}
use com_mcm.Solver.State.Writes.{went_on, agreed_cell, write_cells-Wrote, Next}

requirements_hold-each :
    (state : State) (rs : List (Active StateRequirementInstance))
    → requirements_hold state rs ≡ ok true
    → (r : Active StateRequirementInstance) → Memᴰ r rs
    → (actual : Value) × (lookup r.item.state state ≡ some actual)
      × (compare_state r.item.op actual r.given ≡ ok true)
unfolding requirements_hold
requirements_hold-each state [] h r m = absurd (Memᴰ.not-nil m)
requirements_hold-each state (x ∷ rs) h r m =
    let (actual, a, h₁) = >>=-eq-ok (or_key_error (lookup x.item.state state)) _ h in
    let (holds, b, h₂) = >>=-eq-ok (compare_state x.item.op actual x.given) _ h₁ in
    elim (Bool-cases holds) [
      | inl t ↦ elim (Memᴰ.cases_cons m) [
        | inl e ↦
            subst
              (λ z.
                (actual : Value) × (lookup z.item.state state ≡ some actual)
                × (compare_state z.item.op actual z.given ≡ ok true))
              (sym e) (actual, there _ actual a, b ∙ ap ok t)
        | inr k ↦
            let p : requirements_hold state rs ≡ ok true = rw t at h₂ in
            requirements_hold-each state rs p r k
      ]
      | inr f ↦ let p : ok false ≡ ok true = rw f at h₂ in absurd cc
    ]
  where
    there : (o : Option Value) (v : Value) → or_key_error o ≡ ok v → o ≡ some v
    there none v h = absurd cc
    there (some w) v h = ap some (ok-injective h)

step-Next :
    (rs : List (Active StateRequirementInstance)) (us : List (Active StateUpdateInstance))
    (before after : State) (changes : List StateChange)
    → step rs us before ≡ ok (some (after, changes))
    → Next rs us before after
unfolding step
step-Next rs us before after changes h =
    let (holds, a, h₁) = >>=-eq-ok (requirements_hold before rs) _ h in
    elim (Bool-cases holds) [
      | inl t ↦
          let p : write_cells us (written us) before ≡ ok (some (after, changes)) = rw t at h₁ in
          let w =
            write_cells-Wrote us (written us) before after changes
              (sorted-NoDup text_leb _ (to_set-NoDup (map (λ u. u.item.state) us))) p in
          record {
            required = requirements_hold-each before rs (a ∙ ap ok t);
            updated = λ u m.
                let (v, g, l) = w.listed u.item.state (cell u m) in
                (v, l, agreed_cell u.item.state us v g u m refl);
            kept = λ name n. w.kept name (λ k.
                let (u, m, e) =
                  (Memᴰ-map (λ u. u.item.state) name us).0
                    ((Memᴰ-to_set name _).0 ((Memᴰ-sorted text_leb name _).0 k)) in
                n u m e);
          }
      | inr f ↦
          let p : ok none ≡ ok (some (after, changes)) = rw f at h₁ in
          absurd (none-some (ok-injective p))
    ]
  where
    cell : (u : Active StateUpdateInstance) → Memᴰ u us → Memᴰ u.item.state (written us)
    cell u m = (Memᴰ-sorted text_leb u.item.state _).1 (
        (Memᴰ-to_set u.item.state _).1
          ((Memᴰ-map (λ u. u.item.state) u.item.state us).1 (u, m, refl)))

-- The states that the machine can reach over some cycles.
pub data Run (requirements : List (Active StateRequirementInstance))
    (updates : List (Active StateUpdateInstance)) : List ℕ → State → State → Type 0 where
  stop : {state : State} → Run requirements updates [] state state
  next :
      {cycle : ℕ} {cycles : List ℕ} {before after final : State}
      → Next (at_cycle_of cycle requirements) (at_cycle_of cycle updates) before after
      → Run requirements updates cycles after final
      → Run requirements updates (cycle ∷ cycles) before final

pub simulate-Run :
    (rs : List (Active StateRequirementInstance)) (us : List (Active StateUpdateInstance))
    (cycles : List ℕ) (state : State) (simulation : Simulation)
    → simulate rs us cycles state ≡ ok (some simulation)
    → Run rs us cycles state simulation.final
unfolding simulate
simulate-Run rs us [] state simulation h =
    subst (λ z. Run rs us [] state z) (ap (λ z. z.final) (some-injective (ok-injective h))) stop
simulate-Run rs us (cycle ∷ cycles) state simulation h =
    let (o, a, h₁) = >>=-eq-ok (step (at_cycle_of cycle rs) (at_cycle_of cycle us) state) _ h in
    let ((after, changes), e, h₂) = went_on o _ simulation h₁ in
    let (o', b, h₃) = >>=-eq-ok (simulate rs us cycles after) _ h₂ in
    let (later, e', h₄) = went_on o' _ simulation h₃ in
    let n =
      step-Next (at_cycle_of cycle rs) (at_cycle_of cycle us) state after changes (a ∙ ap ok e) in
    let r = simulate-Run rs us cycles after later (b ∙ ap ok e') in
    subst (λ z. Run rs us (cycle ∷ cycles) state z)
      (ap (λ z. z.final) (some-injective (ok-injective h₄))) (next n r)
