-- ===== src/Solver/State/Writes.antt =====
-- The writes of one cycle (src/umcm/solver/state.py).
use com_mcm.Prelude.{
  none-some, lookup, put, ◌≡◌, ◌≢◌, refl, sym, ap, ◌∙◌, subst, inl, inr, String, true, Option, none,
  some, List, [], ◌∷◌, all, all_iff, Memᴰ, Memᴰ-filter, NoDup, some-injective, Bool-cases, ◌==◌,
  text_eq_instance, nat_eq,
}
use mathlib.Core.List.Memᴰ
use com_mcm.Errors.{ok, >>=-eq-ok, ok-injective}
use com_mcm.Ir.Sort.{Value}
use com_mcm.Solver.Value.{py_eq}
use com_mcm.Solver.Equality.{py_eq_refl}
use com_mcm.Solver.Problem.{StateRequirementInstance, StateUpdateInstance}
use com_mcm.Solver.State.{
  Active, Checked, go_on, State, StateChange, or_key_error, compare_state, agreed, writes_of,
  write_cells,
}

lookup-put : (key : String) (v : Value) (state : State) → lookup key (put key v state) ≡ some v
unfolding lookup put
lookup-put key v [] = rw ((text_eq_instance.beq_iff key key).1 refl) refl
lookup-put key v ((k, w) ∷ rest) = elim (Bool-cases (k == key)) [
  | inl t ↦ rw t (rw t refl)
  | inr f ↦ rw f (rw f (lookup-put key v rest))
]

lookup-put_other :
    (key other : String) (v : Value) (state : State)
    → key ≢ other
    → lookup other (put key v state) ≡ lookup other state
unfolding lookup put
lookup-put_other key other v [] n = elim (Bool-cases (key == other)) [
  | inl t ↦ absurd (n ((text_eq_instance.beq_iff key other).0 t))
  | inr f ↦ rw f refl
]
lookup-put_other key other v ((k, w) ∷ rest) n = elim (Bool-cases (k == key)) [
  | inl t ↦ elim (Bool-cases (k == other)) [
    | inl u ↦
        absurd
          (n (sym ((text_eq_instance.beq_iff k key).0 t) ∙ (text_eq_instance.beq_iff k other).0 u))
    | inr g ↦ rw t (rw g refl)
  ]
  | inr f ↦ elim (Bool-cases (k == other)) [
    | inl u ↦ rw f (rw u refl)
    | inr g ↦ rw f (rw g (lookup-put_other key other v rest n))
  ]
]

agreed-all :
    (us : List (Active StateUpdateInstance)) (v : Value)
    → agreed us ≡ some v
    → (u : Active StateUpdateInstance) → Memᴰ u us
    → py_eq v u.given ≡ true
agreed-all [] v h u m = absurd (Memᴰ.not-nil m)
agreed-all (w ∷ us) v h u m = elim (Bool-cases (all (λ x. py_eq w.given x.given) us)) [
  | inl t ↦
      let e : some w.given ≡ some v = rw t at h in
      subst (λ z. py_eq z u.given ≡ true) (some-injective e)
        (elim (Memᴰ.cases_cons m) [
          | inl p ↦ ap (λ z. py_eq w.given z.given) p ∙ py_eq_refl w.given
          | inr k ↦ (all_iff _ us).0 t u k
        ])
  | inr f ↦ let e : none ≡ some v = rw f at h in absurd cc
]

pub went_on {ℓ ℓ'} :
    {A : Type ℓ} {B : Type ℓ'} (o : Option A) (next : A → Checked B) (b : B)
    → go_on o next ≡ ok (some b)
    → (a : A) × (o ≡ some a) × (next a ≡ ok (some b))
went_on none next b h = absurd (none-some (ok-injective h))
went_on (some a) next b h = (a, refl, h)

pub agreed_cell :
    (name : String) (us : List (Active StateUpdateInstance)) (v : Value)
    → agreed (writes_of name us) ≡ some v
    → (u : Active StateUpdateInstance) → Memᴰ u us
    → u.item.state ≡ name
    → py_eq v u.given ≡ true
agreed_cell name us v h u m e =
    agreed-all (writes_of name us) v h u
      ((Memᴰ-filter _ u us).1 (m, (text_eq_instance.beq_iff u.item.state name).1 e))

-- The cells that are listed get the value on which their writes agree; the others keep theirs.
pub record Wrote (us : List (Active StateUpdateInstance)) (names : List String)
    (before after : State) : Type 0 where
  pub listed :
      (name : String)
      → Memᴰ name names
      → (v : Value) × (agreed (writes_of name us) ≡ some v) × (lookup name after ≡ some v)
  pub kept : (name : String) → ¬ Memᴰ name names → lookup name after ≡ lookup name before

pub write_cells-Wrote :
    (us : List (Active StateUpdateInstance)) (names : List String) (before after : State)
    (changes : List StateChange)
    → NoDup names
    → write_cells us names before ≡ ok (some (after, changes))
    → Wrote us names before after
unfolding write_cells
write_cells-Wrote us [] before after changes d h = record {
  listed = λ name m. absurd (Memᴰ.not-nil m);
  kept = λ name n. ap (lookup name) (sym (ap (λ p. p.0) (some-injective (ok-injective h))));
}
write_cells-Wrote us (name ∷ names) before after changes d h =
    let (v, a, h₁) = went_on (agreed (writes_of name us)) _ (after, changes) h in
    let (old, b, h₂) = >>=-eq-ok (or_key_error (lookup name before)) _ h₁ in
    let (rest, c, h₃) = >>=-eq-ok (write_cells us names (put name v before)) _ h₂ in
    let ((t, cs), e, h₄) = went_on rest _ (after, changes) h₃ in
    let same : t ≡ after = ap (λ p. p.0) (some-injective (ok-injective h₄)) in
    let w = write_cells-Wrote us names (put name v before) t cs d.1 (c ∙ ap ok e) in
    subst (Wrote us (name ∷ names) before) same (record {
      listed = λ other m. elim (Memᴰ.cases_cons m) [
        | inl p ↦ (
          v,
          ap (λ z. agreed (writes_of z us)) p ∙ a,
          ap (λ z. lookup z t) p ∙ w.kept name d.0 ∙ lookup-put name v before,
        )
        | inr k ↦ w.listed other k
      ];
      kept = λ other n.
          w.kept other (λ k. n (Memᴰ.tail k))
          ∙ lookup-put_other name other v before (λ p. n (Memᴰ.head (sym p)));
    })

-- One cycle: the requirements hold before it, every update leaves its value, and the cells that no
-- update writes keep theirs.
pub record Next (requirements : List (Active StateRequirementInstance))
    (updates : List (Active StateUpdateInstance)) (before after : State) : Type 0 where
  pub required :
      (r : Active StateRequirementInstance)
      → Memᴰ r requirements
      → (actual : Value) × (lookup r.item.state before ≡ some actual)
        × (compare_state r.item.op actual r.given ≡ ok true)
  pub updated :
      (u : Active StateUpdateInstance)
      → Memᴰ u updates
      → (v : Value) × (lookup u.item.state after ≡ some v) × (py_eq v u.given ≡ true)
  pub kept :
      (name : String)
      → ((u : Active StateUpdateInstance) → Memᴰ u updates → u.item.state ≢ name)
      → lookup name after ≡ lookup name before
